-- ===== src/WebSocket/Server.antt =====
-- The WebSocket server (include/websocket-server.h): the acceptor of the sessions.
use metro_network_monitor.Base.{List, [], ◌∷◌, ◌++◌, Bool, true, false, not, ◌&&◌, if◌then◌else◌}
use metro_network_monitor.WebSocket.{ErrorCode, is_failure, StreamEffect}
use metro_network_monitor.WebSocket.Session.{WebSocketSession, new_session, session_connect}

-- The flags say which of the user's callbacks are set; the first three are for the sessions.
pub record WebSocketServer : Type 0 where
  pub stopped : Bool
  pub on_session_connected : Bool
  pub on_session_message : Bool
  pub on_session_disconnected : Bool
  pub on_server_disconnect : Bool

-- In order: the operations of the acceptor, a session that is made, with what it does first, and the
-- user's callback.
pub data AcceptorEffect : Type 0 where
  accepts_next closes_acceptor : AcceptorEffect
  begins_session : WebSocketSession → List StreamEffect → AcceptorEffect
  tells_server_disconnect : ErrorCode → AcceptorEffect

unfoldable pub accept_connection : WebSocketServer → ErrorCode → List AcceptorEffect
accept_connection s e =
    if is_failure e
    then (if s.on_server_disconnect && not s.stopped then tells_server_disconnect e ∷ [] else [])
    else accepts_next ∷ []

-- The code of the first call that fails, or of the last.
abbrev pub and_next : ErrorCode → ErrorCode → ErrorCode
and_next e f = if is_failure e then e else f

-- `Run`, with the callbacks that are set; `opened`, `reused`, `bound` and `listening` are the codes of
-- the calls of the acceptor.
unfoldable pub run_acceptor :
    WebSocketServer
    → Bool
    → Bool
    → Bool
    → Bool
    → ErrorCode
    → ErrorCode
    → ErrorCode
    → ErrorCode
    → ErrorCode × (WebSocketServer × List AcceptorEffect)
unfolding accept_connection
run_acceptor s connect message disconnect server_disconnect opened reused bound listening =
    let s' : WebSocketServer = record {
      on_session_connected = connect;
      on_session_message = message;
      on_session_disconnected = disconnect;
      on_server_disconnect = server_disconnect;
      stopped = s.stopped;
    } in
    let e = and_next opened (and_next reused (and_next bound listening)) in
    elim (is_failure e) [
      | true ↦ (e, (s', []))
      | false ↦
          let s'' : WebSocketServer = record s' { stopped = false } in
          (e, (s'', accept_connection s'' e))
    ]

unfoldable pub stop_acceptor : WebSocketServer → WebSocketServer × List AcceptorEffect
stop_acceptor s = (record s { stopped = true }, closes_acceptor ∷ [])

unfoldable pub on_connection_accepted : WebSocketServer → ErrorCode → List AcceptorEffect
on_connection_accepted s e =
    if is_failure e
    then []
    else (let (session, es) =
          session_connect new_session s.on_session_connected s.on_session_message
            s.on_session_disconnected in
        begins_session session es ∷ [])

-- What the end of an `async_accept` calls.
unfoldable pub after_accept : WebSocketServer → ErrorCode → List AcceptorEffect
unfolding on_connection_accepted accept_connection
after_accept s e = on_connection_accepted s e ++ accept_connection s e
