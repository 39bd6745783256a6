-- ===== src/Stomp/Server.antt =====
-- The STOMP server (include/stomp-server.h): its state and what it asks of its surroundings.
pub mod Handlers
pub mod Requests
pub mod Moves
pub mod Consistent
pub mod Life
pub mod Runs
use metro_network_monitor.Base.{ℕ, suc, Bytes, bytes, List, [], ◌∷◌, ◌++◌, Bool, Option, none, some}
use metro_network_monitor.Network.Types.{Outcome, returns, throws, undefined, unfinished}
use metro_network_monitor.Stomp.ServerErrors.{StompServerError}

pub data ConnectionStatus : Type 0 where
  invalid_status pending connected_status : ConnectionStatus

pub record Connection : Type 0 where
  pub id : Bytes
  pub status : ConnectionStatus

-- `kVersion_`
abbrev pub version : Bytes
version = bytes "1.2"

-- A WebSocket session is an address. `host` is `kHost_`, the flags say which of the user's callbacks
-- are set, and `generated` counts the IDs generated so far.
pub record Server : Type 0 where
  pub host : Bytes
  pub on_client_connect : Bool
  pub on_client_message : Bool
  pub on_client_disconnect : Bool
  pub on_disconnect : Bool
  pub connections : List (ℕ × Connection)
  pub sessions : List (Bytes × ℕ)
  pub generated : ℕ

-- What the server does outside its state, in order: calls of the WebSocket server and of its
-- sessions, with the ID that a callback is given where one is passed on, and the user's callbacks
-- that are posted.
pub data Effect : Type 0 where
  ws_run ws_stop : Effect
  ws_send : ℕ → Bytes → Effect
  ws_send_for : ℕ → Bytes → Bytes → Effect
  ws_close : ℕ → Effect
  ws_close_for : ℕ → Bytes → Effect
  client_connected : StompServerError → Bytes → Effect
  client_message : StompServerError → Bytes → Bytes → Bytes → Bytes → Effect
  client_disconnected : StompServerError → Bytes → Effect
  server_disconnected : StompServerError → Effect
  send_done : StompServerError → Bytes → Effect
  close_done : StompServerError → Bytes → Effect

-- A handler leaves a state and a list of effects.
abbrev pub Handled : Type 0
Handled = Outcome (Server × List Effect)

-- The constructor.
abbrev pub new_server : Bytes → Server
new_server host = record {
  host = host;
  on_client_connect = Bool.false;
  on_client_message = Bool.false;
  on_client_disconnect = Bool.false;
  on_disconnect = Bool.false;
  connections = [];
  sessions = [];
  generated = 0;
}
