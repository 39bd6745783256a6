-- ===== src/Stomp/Session/Closing.antt =====
-- The server closes a connection because of an error of the protocol.
use metro_network_monitor.Base.{ℕ, ◌≡◌, Bool, false, none, [], ◌∷◌, nat_eq, lookup, Bytes, bytes_eq}
use metro_network_monitor.Network.Types.{returns}
use metro_network_monitor.Stomp.Commands.{error}
use metro_network_monitor.Stomp.Headers.{header_eq}
use metro_network_monitor.Stomp.Errors
use metro_network_monitor.Stomp.ServerErrors.{unsupported_frame, server_error_to_string}
use metro_network_monitor.Stomp.Frame.{Frame, frame_of_text}
use metro_network_monitor.Stomp.Compose.{HeaderOrder}
use metro_network_monitor.Stomp.Server.{Connection, Server, ws_send, ws_close}
use metro_network_monitor.Stomp.Server.Handlers.{
  forget, on_ws_session_message, on_ws_session_disconnect,
}

-- The text is that of an ERROR frame that names `kUnsupportedFrame`, whatever the error is.
pub record IsErrorText (text : Bytes) : Type 0 where
  pub frame : Frame
  pub parses : frame_of_text text ≡ returns (Errors.ok, frame)
  pub same_command : frame.command ≡ error
  pub same_body : frame.body ≡ server_error_to_string unsupported_frame

-- What the server does with a message that is not a valid frame.
pub record ClosedFor (o : HeaderOrder) (s : Server) (ws : ℕ) (c : Connection) (msg : Bytes)
    : Type 0 where
  pub text : Bytes
  -- it answers with an error frame, closes the session and forgets the connection
  pub closes :
      on_ws_session_message o s false ws msg
      ≡ returns (forget s c.id ws, ws_send ws text ∷ ws_close ws ∷ [])
  pub is_error : IsErrorText text
  pub no_session : lookup c.id (forget s c.id ws).sessions ≡ none
  -- later messages of the session, read with or without success, only close it again
  pub deaf :
      (failed : Bool) (later : Bytes)
      → on_ws_session_message o (forget s c.id ws) failed ws later
        ≡ returns (forget s c.id ws, ws_close ws ∷ [])
  -- when the session ends, with or without an error, nothing is posted
  pub untold :
      (failed : Bool)
      → on_ws_session_disconnect (forget s c.id ws) failed ws ≡ (forget s c.id ws, [])
