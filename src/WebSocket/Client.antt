-- ===== src/WebSocket/Client.antt =====
-- The WebSocket client (include/websocket-client.h): its state, its requests and its handlers.
pub mod Connecting
pub mod Reading
use metro_network_monitor.Base.{
  Bytes, List, [], ◌∷◌, ◌++◌, Bool, true, false, not, ◌&&◌, if◌then◌else◌,
}
use metro_network_monitor.WebSocket.{
  ErrorCode, aborted, is_failure, StreamEffect, resolves, connects_socket, shakes_tls,
  shakes_web_socket, reads, writes, closes, tells_connect, tells_message, tells_disconnect,
  tells_sent, tells_closed, calls,
}

-- The flags say which of the user's callbacks are set.
pub record WebSocketClient : Type 0 where
  pub closed : Bool
  pub on_connect : Bool
  pub on_message : Bool
  pub on_disconnect : Bool

-- `ec == boost::asio::error::operation_aborted`
abbrev pub is_aborted : ErrorCode → Bool
is_aborted aborted = true
is_aborted e = false

-- `Connect`, with the callbacks that are set.
unfoldable pub connect_stream :
    WebSocketClient → Bool → Bool → Bool → WebSocketClient × List StreamEffect
connect_stream c connect message disconnect = (
  record { on_connect = connect; on_message = message; on_disconnect = disconnect; closed = false },
  resolves ∷ [],
)

-- `Send`, and the end of the write.
unfoldable pub send_text_on : WebSocketClient → Bytes → Bool → WebSocketClient × List StreamEffect
send_text_on c msg on_send = (c, writes msg on_send ∷ [])

unfoldable pub on_write : Bool → ErrorCode → List StreamEffect
on_write on_send e = calls on_send (tells_sent e)

-- `Close`, and the end of the closing handshake.
unfoldable pub close_stream : WebSocketClient → Bool → WebSocketClient × List StreamEffect
close_stream c on_close = (record c { closed = true }, closes on_close ∷ [])

unfoldable pub on_stream_closed : Bool → ErrorCode → List StreamEffect
on_stream_closed on_close e = calls on_close (tells_closed e)

unfoldable pub on_resolve : WebSocketClient → ErrorCode → List StreamEffect
on_resolve c e = if is_failure e then calls c.on_connect (tells_connect e) else connects_socket ∷ []

unfoldable pub on_connect_socket : WebSocketClient → ErrorCode → List StreamEffect
on_connect_socket c e =
    if is_failure e then calls c.on_connect (tells_connect e) else shakes_tls ∷ []

unfoldable pub on_tls_handshake : WebSocketClient → ErrorCode → List StreamEffect
on_tls_handshake c e =
    if is_failure e then calls c.on_connect (tells_connect e) else shakes_web_socket ∷ []

unfoldable pub listen_to_incoming_message : WebSocketClient → ErrorCode → List StreamEffect
listen_to_incoming_message c e =
    if is_aborted e
    then calls (c.on_disconnect && not c.closed) (tells_disconnect e)
    else reads ∷ []

unfoldable pub on_handshake : WebSocketClient → ErrorCode → List StreamEffect
unfolding listen_to_incoming_message
on_handshake c e =
    if is_failure e
    then calls c.on_connect (tells_connect e)
    else listen_to_incoming_message c e ++ calls c.on_connect (tells_connect e)

-- `msg` is what the buffer holds.
unfoldable pub on_read : WebSocketClient → ErrorCode → Bytes → List StreamEffect
on_read c e msg = if is_failure e then [] else calls c.on_message (tells_message e msg)

-- What the end of a read calls.
unfoldable pub after_read : WebSocketClient → ErrorCode → Bytes → List StreamEffect
unfolding on_read listen_to_incoming_message
after_read c e msg = on_read c e msg ++ listen_to_incoming_message c e
