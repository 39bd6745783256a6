-- ===== src/WebSocket/Session.antt =====
-- A session of the WebSocket server (include/websocket-server.h): its state, requests and handlers.
pub mod Reading
use metro_network_monitor.Base.{
  Bytes, List, [], ◌∷◌, ◌++◌, Bool, true, false, not, ◌&&◌, if◌then◌else◌,
}
use metro_network_monitor.WebSocket.{
  ErrorCode, aborted, closed_by_peer, is_failure, StreamEffect, dispatches, shakes_tls,
  shakes_web_socket, reads, writes, closes, tells_connect, tells_message, tells_disconnect,
  tells_sent, tells_closed, calls,
}

-- The flags say which of the user's callbacks are set.
pub record WebSocketSession : Type 0 where
  pub closed : Bool
  pub on_connect : Bool
  pub on_message : Bool
  pub on_disconnect : Bool

-- The constructor.
abbrev pub new_session : WebSocketSession
new_session = record {
  closed = false;
  on_connect = false;
  on_message = false;
  on_disconnect = false;
}

-- `Send`, and the end of the write.
unfoldable pub session_send : WebSocketSession → Bytes → Bool → WebSocketSession × List StreamEffect
session_send s msg on_send = (s, writes msg on_send ∷ [])

unfoldable pub on_session_write : Bool → ErrorCode → List StreamEffect
on_session_write on_send e = calls on_send (tells_sent e)

-- `Close`, and the end of the closing handshake.
unfoldable pub session_close : WebSocketSession → Bool → WebSocketSession × List StreamEffect
session_close s on_close = (record s { closed = true }, closes on_close ∷ [])

unfoldable pub on_session_closed : Bool → ErrorCode → List StreamEffect
on_session_closed on_close e = calls on_close (tells_closed e)

-- `Connect`, with the callbacks that are set.
unfoldable pub session_connect :
    WebSocketSession → Bool → Bool → Bool → WebSocketSession × List StreamEffect
session_connect s connect message disconnect = (
  record { on_connect = connect; on_message = message; on_disconnect = disconnect; closed = false },
  dispatches ∷ [],
)

unfoldable pub on_session_connect : WebSocketSession → List StreamEffect
on_session_connect s = shakes_tls ∷ []

unfoldable pub on_session_tls_handshake : WebSocketSession → ErrorCode → List StreamEffect
on_session_tls_handshake s e =
    if is_failure e then calls s.on_connect (tells_connect e) else shakes_web_socket ∷ []

-- The connection is closed or aborted.
abbrev pub is_over : ErrorCode → Bool
is_over aborted = true
is_over closed_by_peer = true
is_over e = false

unfoldable pub session_listen : WebSocketSession → ErrorCode → List StreamEffect
session_listen s e =
    if is_over e then calls (s.on_disconnect && not s.closed) (tells_disconnect e) else reads ∷ []

unfoldable pub on_session_handshake : WebSocketSession → ErrorCode → List StreamEffect
unfolding session_listen
on_session_handshake s e =
    if is_failure e
    then calls s.on_connect (tells_connect e)
    else session_listen s e ++ calls s.on_connect (tells_connect e)

-- `msg` is what the buffer holds.
unfoldable pub on_session_read : WebSocketSession → ErrorCode → Bytes → List StreamEffect
on_session_read s e msg = if is_failure e then [] else calls s.on_message (tells_message e msg)

-- What the end of a read calls.
unfoldable pub after_session_read : WebSocketSession → ErrorCode → Bytes → List StreamEffect
unfolding on_session_read session_listen
after_session_read s e msg = on_session_read s e msg ++ session_listen s e
