-- ===== src/Stomp/Server/Runs.antt =====
-- Runs of the server: the callbacks of the WebSocket server and the requests of the user in any order.
pub mod Ended
use metro_network_monitor.Base.{
  [], ℕ, ◌≡◌, refl, subst, Bool, true, false, none, List, ◌++◌, arith, nat_eq, lookup, Bytes,
  bytes_eq,
}
use metro_network_monitor.Network.Types.{returns}
use metro_network_monitor.Stomp.Compose.{HeaderOrder}
use metro_network_monitor.Stomp.ServerErrors.{web_socket_server_disconnected}
use metro_network_monitor.Stomp.Server.{Server, Effect, server_disconnected, new_server}
use metro_network_monitor.Stomp.Server.Handlers.{
  error_if, on_ws_session_message, on_ws_session_connect, on_ws_session_disconnect,
  on_ws_disconnect, posts,
}
use metro_network_monitor.Stomp.Server.Requests.{send_to, close, stop}
use metro_network_monitor.Stomp.Server.Moves.{IsQuiet, Move, stays, Moves}
use metro_network_monitor.Stomp.Server.Moves.Handlers.{
  on_ws_session_message-Moves, on_ws_session_connect-Move, on_ws_session_disconnect-Move,
}
use metro_network_monitor.Stomp.Server.Moves.Requests.{
  SendMoves, send_to-SendMoves, close-Moves, stop-Move,
}
use metro_network_monitor.Stomp.Server.Consistent.{IsFresh, IsConsistent}
use metro_network_monitor.Stomp.Server.Consistent.Moves.{Move-IsConsistent}
use metro_network_monitor.Stomp.Server.Life.{phase, notices, LifeStep}
use metro_network_monitor.Stomp.Server.Life.Steps.{Move-LifeStep}

-- A new server has consistent maps.
pub new_server-IsConsistent :
    (generate_id : ℕ → Bytes) (host : Bytes) → IsConsistent generate_id (new_server host)
unfolding lookup
new_server-IsConsistent generate_id host = record {
  to_session = λ ws c q. cc;
  to_connection = λ id ws q. cc;
  valid = λ ws c q. cc;
  issued = λ ws c q. cc;
}

module _ (o : HeaderOrder) (generate_id : ℕ → Bytes) where
  -- One callback or request. The WebSocket server announces each session once.
  pub data Act (s : Server) : Server → List Effect → Type 0 where
    connects :
        (failed : Bool) (ws : ℕ) {s' : Server} {es : List Effect}
        → lookup ws s.connections ≡ none
        → on_ws_session_connect generate_id s failed ws ≡ (s', es)
        → Act s s' es
    receives :
        (failed : Bool) (ws : ℕ) (msg : Bytes) {s' : Server} {es : List Effect}
        → on_ws_session_message o s failed ws msg ≡ returns (s', es)
        → Act s s' es
    disconnects :
        (failed : Bool) (ws : ℕ) {s' : Server} {es : List Effect}
        → on_ws_session_disconnect s failed ws ≡ (s', es)
        → Act s s' es
    is_stopped :
        (failed : Bool) {s' : Server} {es : List Effect}
        → on_ws_disconnect s failed ≡ (s', es)
        → Act s s' es
    sends :
        (id destination content : Bytes) (cb : Bool) (given request_id : Bytes) {s' : Server}
        {es : List Effect}
        → send_to o generate_id s id destination content cb given ≡ returns (request_id, (s', es))
        → Act s s' es
    closes :
        (id : Bytes) (cb : Bool) {s' : Server} {es : List Effect}
        → close o s id cb ≡ returns (s', es)
        → Act s s' es
    stops : {s' : Server} {es : List Effect} → stop s ≡ (s', es) → Act s s' es

  -- Every callback and request makes a move.
  pub Act-Move : {s s' : Server} {es : List Effect} → Act s s' es → Move generate_id s s' es
  unfolding on_ws_disconnect
  Act-Move {s} (connects failed ws new e) =
      subst (λ (r : Server × List Effect). Move generate_id s r.0 r.1) e
        (on_ws_session_connect-Move generate_id s failed ws new)
  Act-Move {s} (receives failed ws msg e) =
      subst (Moves generate_id s) e (on_ws_session_message-Moves o generate_id s failed ws msg)
  Act-Move {s} (disconnects failed ws e) =
      subst (λ (r : Server × List Effect). Move generate_id s r.0 r.1) e
        (on_ws_session_disconnect-Move generate_id s failed ws)
  Act-Move {s} (is_stopped failed e) =
      subst (λ (r : Server × List Effect). Move generate_id s r.0 r.1) e
        (stays _ (quiet s.on_disconnect))
    where
      quiet :
          (set : Bool)
          → IsQuiet
              (posts set (server_disconnected (error_if failed web_socket_server_disconnected)))
      quiet true = (refl, tt)
      quiet false = tt
  Act-Move {s} (sends id d c cb given request_id e) =
      subst (SendMoves generate_id s) e (send_to-SendMoves o generate_id s id d c cb given)
  Act-Move {s} (closes id cb e) = subst (Moves generate_id s) e (close-Moves o generate_id s id cb)
  Act-Move {s} (stops e) =
      subst (λ (r : Server × List Effect). Move generate_id s r.0 r.1) e (stop-Move generate_id s)

  -- Every callback of the WebSocket server and every request of the user is, for every ID and with
  -- consistent maps, a step of the life of the connection with that ID. When the callback for
  -- connections is set and a header can have the ID, the user is told of the connection exactly when
  -- it is accepted; of messages only while it is open, and of its end only when it was open.
  pub Act-LifeStep :
      (s s' : Server) (es : List Effect) (id : Bytes)
      → IsFresh generate_id
      → IsConsistent generate_id s
      → Act s s' es
      → LifeStep s.on_client_connect id (phase s id) (notices id es) (phase s' id)
  Act-LifeStep s s' es id fresh h act = Move-LifeStep generate_id s s' es id fresh h (Act-Move act)

  -- A run from a state, with all its effects.
  pub data Run (s : Server) : Server → List Effect → Type 0 where
    begun : Run s s []
    and_then :
        {s' s'' : Server} {es fs : List Effect} → Run s s' es → Act s' s'' fs → Run s s'' (es ++ fs)

  -- In every run of a server from a state with consistent maps, the maps stay consistent, when no ID is
  -- generated twice.
  pub Run-IsConsistent :
      {s s' : Server} {es : List Effect}
      → IsFresh generate_id
      → IsConsistent generate_id s
      → Run s s' es
      → IsConsistent generate_id s'
  Run-IsConsistent fresh h begun = h
  Run-IsConsistent fresh h (and_then r st) =
      Move-IsConsistent generate_id _ _ _ fresh (Run-IsConsistent fresh h r) (Act-Move st)
