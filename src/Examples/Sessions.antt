-- ===== src/Examples/Sessions.antt =====
-- A server and a client with their theorems.
use metro_network_monitor.Base.{
  ℕ, zero, suc, ◌≡◌, refl, sym, ap, ◌∙◌, true, false, some, [], ◌∷◌, arith, length, nat_eq, lookup,
  insert, erase, Bytes, bytes, eq_bytes, bytes_eq,
}
use metro_network_monitor.Network.Types.{returns}
use metro_network_monitor.Stomp.Commands.{connected}
use metro_network_monitor.Stomp.Headers.{header_eq}
use metro_network_monitor.Stomp.Errors.{StompError, eq_error}
use metro_network_monitor.Stomp.Errors
use metro_network_monitor.Stomp.RoundTrip.{lacks}
use metro_network_monitor.Stomp.Frame.{Frame, empty_frame, frame_of_parts}
use metro_network_monitor.Stomp.Compose.{HeaderOrder, IsMadeOf, frame_of_parts-IsMadeOf}
use metro_network_monitor.Stomp.Server.{Connection, Server, pending, connected_status, new_server}
use metro_network_monitor.Stomp.Server.Handlers.{
  connected_headers, begin_connection, forget, on_ws_session_connect, on_ws_session_disconnect,
}
use metro_network_monitor.Stomp.Server.Consistent.{IsFresh, IsConsistent}
use metro_network_monitor.Stomp.Server.Life.{phase, notices, LifeStep}
use metro_network_monitor.Stomp.Server.Runs.{
  Act, connects, disconnects, Act-LifeStep, Run, begun, and_then, Run-IsConsistent,
  new_server-IsConsistent,
}
use metro_network_monitor.Stomp.Server.Runs.Ended.{HasEnded, Run-HasEnded}
use metro_network_monitor.Stomp.Client.{Client, new_client}
use metro_network_monitor.Stomp.Session.Parts.{IsValue, connected-ArePartsOf}
use metro_network_monitor.Stomp.Session.Connecting.{Handshake, connects_to}
use metro_network_monitor.Stomp.Session.Sending.{SentToClient, sends_to, SentToServer, sends_from}

-- The headers in the order of the list.
abbrev pub in_order : HeaderOrder
in_order = record {
  order = λ headers. headers;
  order_elem = λ headers x. (λ m. m, λ m. m);
  order_unique = λ headers u. u;
}

-- The IDs x, xx, xxx and so on.
unfoldable pub marks : ℕ → Bytes
marks zero = 120 ∷ []
marks (suc n) = 120 ∷ marks n

length-marks : (n : ℕ) → length (marks n) ≡ suc n
unfolding marks
length-marks zero = refl
length-marks (suc n) = ap suc (length-marks n)

pub marks-IsFresh : IsFresh marks
marks-IsFresh m n e =
    let q : suc m ≡ suc n = sym (length-marks m) ∙ (ap length e ∙ length-marks n) in
    omega (arith, q)

abbrev pub first_id : Bytes
first_id = bytes "x"

abbrev idle : Server
idle = new_server (bytes "host")

abbrev waiting_server : Server
waiting_server = record idle {
  sessions = (first_id, 7) ∷ [];
  connections = (7, record { id = first_id; status = pending }) ∷ [];
  generated = 1;
}

abbrev ended : Server
ended = record idle { generated = 1 }

abbrev pub open_connection : Connection
open_connection = record { id = first_id; status = connected_status }

-- A server with one connected client, all of whose callbacks are set.
abbrev pub open_server : Server
open_server = record {
  host = bytes "host";
  on_client_connect = true;
  on_client_message = true;
  on_client_disconnect = true;
  on_disconnect = true;
  sessions = (first_id, 7) ∷ [];
  connections = (7, open_connection) ∷ [];
  generated = 1;
}

abbrev pub some_client : Client
some_client = record (new_client (bytes "host")) {
  username = bytes "user";
  password = bytes "secret";
  on_connect = true;
  on_message = true;
}

first_connect : Act in_order marks idle waiting_server []
unfolding on_ws_session_connect begin_connection lookup insert marks
first_connect = connects false 7 refl refl

first_disconnect : Act in_order marks waiting_server ended []
unfolding on_ws_session_disconnect forget lookup erase eq_bytes
first_disconnect = disconnects false 7 refl

Act-LifeStep_example :
    LifeStep idle.on_client_connect first_id
      (phase idle first_id)
      (notices first_id [])
      (phase waiting_server first_id)
Act-LifeStep_example =
    Act-LifeStep in_order marks idle waiting_server [] first_id marks-IsFresh
      (new_server-IsConsistent marks (bytes "host")) first_connect

short-Run : Run in_order marks idle ended []
short-Run = and_then (and_then begun first_connect) first_disconnect

Run-IsConsistent_example : IsConsistent marks ended
Run-IsConsistent_example =
    Run-IsConsistent in_order marks marks-IsFresh (new_server-IsConsistent marks (bytes "host"))
      short-Run

ended-HasEnded : HasEnded marks ended first_id
unfolding phase lookup marks
ended-HasEnded = record { number = 0; generated_before = omega arith; same = refl; gone = refl }

abbrev again : Server
again = record idle {
  sessions = (bytes "xx", 7) ∷ [];
  connections = (7, record { id = bytes "xx"; status = pending }) ∷ [];
  generated = 2;
}

second_connect : Act in_order marks ended again []
unfolding on_ws_session_connect begin_connection lookup insert marks
second_connect = connects false 7 refl refl

Run-HasEnded_example : HasEnded marks again first_id × (notices first_id [] ≡ [])
Run-HasEnded_example =
    Run-HasEnded in_order marks ended again [] first_id marks-IsFresh
      (Run-IsConsistent in_order marks marks-IsFresh (new_server-IsConsistent marks (bytes "host"))
        short-Run)
      ended-HasEnded (and_then begun second_connect)

host-IsValue : IsValue (bytes "host")
unfolding lacks
host-IsValue = record { full = λ e. cc; line = refl }

pub id-IsValue : IsValue first_id
unfolding lacks
id-IsValue = record { full = λ e. cc; line = refl }

user-IsValue : IsValue (bytes "user")
unfolding lacks
user-IsValue = record { full = λ e. cc; line = refl }

secret-IsValue : IsValue (bytes "secret")
unfolding lacks
secret-IsValue = record { full = λ e. cc; line = refl }

second-IsValue : IsValue (marks 1)
unfolding lacks marks
second-IsValue = record { full = λ e. cc; line = refl }

pending-found :
    lookup 7 waiting_server.connections ≡ some (record { id = first_id; status = pending })
unfolding lookup
pending-found = refl

pub open-used : lookup first_id open_server.sessions ≡ some 7
unfolding lookup eq_bytes
open-used = refl

pub open-found : lookup 7 open_server.connections ≡ some open_connection
unfolding lookup
open-found = refl

connects_to_example : Handshake in_order in_order some_client waiting_server 7 first_id
connects_to_example =
    connects_to in_order in_order some_client waiting_server 7
      (record { id = first_id; status = pending }) host-IsValue user-IsValue secret-IsValue
      id-IsValue refl pending-found refl

sends_to_example :
    SentToClient in_order marks open_server some_client first_id
      (bytes "host")
      (bytes "hi")
      true
      first_id
      7
sends_to_example =
    sends_to in_order marks open_server some_client first_id (bytes "host") (bytes "hi") true
      first_id 7 open_connection open-used open-found refl id-IsValue host-IsValue (omega arith)

sends_from_example :
    SentToServer in_order in_order marks
      (record some_client { generated = 1 })
      open_server
      (bytes "host")
      (bytes "hi")
      false
      7
      first_id
sends_from_example =
    sends_from in_order in_order marks (record some_client { generated = 1 }) open_server
      (bytes "host") (bytes "hi") false 7 open_connection open-found refl second-IsValue
      host-IsValue (omega arith)

abbrev junk : Frame
junk = record empty_frame { plain = bytes "x" }

frame_of_parts-IsMadeOf_example :
    (f : Frame) × (frame_of_parts connected (connected_headers first_id) []
      ≡ returns (Errors.ok, f))
    × IsMadeOf in_order connected (connected_headers first_id) [] f
frame_of_parts-IsMadeOf_example =
    frame_of_parts-IsMadeOf in_order connected (connected_headers first_id) []
      (connected-ArePartsOf first_id id-IsValue)
