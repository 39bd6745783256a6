-- ===== src/Stomp/Session/Connecting.antt =====
-- The client connects to the server: the STOMP frame, and the CONNECTED frame in answer.
use metro_network_monitor.Base.{
  ℕ, ◌≡◌, refl, ap, ◌∙◌, Bool, false, some, [], ◌∷◌, nat_eq, lookup, Bytes, eq_bytes, eq_bytes_refl,
  bytes_eq,
}
use metro_network_monitor.Network.Types.{returns}
use metro_network_monitor.Stomp.Commands.{connected, stomp}
use metro_network_monitor.Stomp.Headers.{accept_version_header, host_header, header_eq}
use metro_network_monitor.Stomp.Errors.{StompError, eq_error}
use metro_network_monitor.Stomp.Errors
use metro_network_monitor.Stomp.ServerErrors
use metro_network_monitor.Stomp.ClientErrors
use metro_network_monitor.Stomp.Frame.{get_header_value, Frame, frame_of_text, frame_of_parts}
use metro_network_monitor.Stomp.Compose.{HeaderOrder}
use metro_network_monitor.Stomp.Server.{
  Connection, Server, pending, version, ws_send, client_connected,
}
use metro_network_monitor.Stomp.Server.Handlers.{
  posts, set_connected, accept_client, handle_stomp, dispatch, handle_message,
  on_ws_session_message, connected_headers,
}
use metro_network_monitor.Stomp.Client.{Client, ws_send_stomp, connect_done}
use metro_network_monitor.Stomp.Client.Handlers.{
  tells, stomp_headers, on_ws_connect, handle_connected, handle_frame, on_ws_message,
}
use metro_network_monitor.Stomp.Session.Parts.{IsValue, stomp-ArePartsOf, connected-ArePartsOf}
use metro_network_monitor.Stomp.Session.Frames.{Made, made}

-- What passes between a client and the session of a server.
pub record Handshake (o o' : HeaderOrder) (c : Client) (s : Server) (ws : ℕ) (id : Bytes)
    : Type 0 where
  pub request : Bytes
  pub answer : Bytes
  -- the client sends its frame when the WebSocket connection is there
  pub asks : on_ws_connect o c false ≡ returns (c, ws_send_stomp request ∷ [])
  -- the server accepts it, answers, and tells the user
  pub accepts :
      on_ws_session_message o' s false ws request
      ≡ returns (
        set_connected s ws id,
        ws_send ws answer ∷ posts s.on_client_connect (client_connected ServerErrors.ok id),
      )
  -- the client tells its user when the answer is there
  pub completes :
      on_ws_message c false answer ≡ returns (c, tells c.on_connect (connect_done ClientErrors.ok))

on_ws_connect-made :
    (o : HeaderOrder) (c : Client) (f : Frame)
    → frame_of_parts stomp (o.order (stomp_headers c)) [] ≡ returns (Errors.ok, f)
    → on_ws_connect o c false ≡ returns (c, ws_send_stomp f.plain ∷ [])
unfolding on_ws_connect
on_ws_connect-made o c f e = rw (e, on_ws_connect) refl

accept_client-made :
    (o : HeaderOrder) (s : Server) (ws : ℕ) (id : Bytes) (f : Frame)
    → frame_of_parts connected (o.order (connected_headers id)) [] ≡ returns (Errors.ok, f)
    → accept_client o s ws id
      ≡ returns (
        set_connected s ws id,
        ws_send ws f.plain ∷ posts s.on_client_connect (client_connected ServerErrors.ok id),
      )
unfolding accept_client
accept_client-made o s ws id f e = rw (e, accept_client) refl

handle_stomp-fine :
    (o : HeaderOrder) (s : Server) (ws : ℕ) (c : Connection) (f : Frame)
    → get_header_value f.headers accept_version_header ≡ version
    → get_header_value f.headers host_header ≡ s.host
    → c.status ≡ pending
    → handle_stomp o s ws c f ≡ accept_client o s ws c.id
unfolding handle_stomp eq_bytes
handle_stomp-fine o s ws c f v h waits = rw (v, h, eq_bytes_refl s.host, waits, handle_stomp) refl

-- A message that is a frame goes to the handler of its command.
pub on_ws_session_message-frame :
    (o : HeaderOrder) (s : Server) (ws : ℕ) (c : Connection) (msg : Bytes) (f : Frame)
    → lookup ws s.connections ≡ some c
    → frame_of_text msg ≡ returns (Errors.ok, f)
    → on_ws_session_message o s false ws msg ≡ dispatch o s ws c f f.command
unfolding on_ws_session_message handle_message
on_ws_session_message-frame o s ws c msg f found e =
    rw (found, e, on_ws_session_message, handle_message) refl

pub on_ws_message-frame :
    (c : Client) (failed : Bool) (msg : Bytes) (f : Frame)
    → frame_of_text msg ≡ returns (Errors.ok, f)
    → on_ws_message c failed msg ≡ returns (handle_frame c f f.command)
unfolding on_ws_message
on_ws_message-frame c failed msg f e = rw (e, on_ws_message) refl

-- When the URL and the credentials of the client can be values of headers, the URL is the host of the
-- server, and the session has a pending connection whose ID can be the value of a header, the client
-- and the server connect, and both tell their users.
pub connects_to :
    (o o' : HeaderOrder) (c : Client) (s : Server) (ws : ℕ) (connection : Connection)
    → IsValue c.url
    → IsValue c.username
    → IsValue c.password
    → IsValue connection.id
    → c.url ≡ s.host
    → lookup ws s.connections ≡ some connection
    → connection.status ≡ pending
    → Handshake o o' c s ws connection.id
unfolding lookup dispatch handle_frame handle_connected
connects_to o o' c s ws connection url username password id same found waits =
    let asked : Made o stomp (stomp_headers c) [] =
      made _ _ _ _ (stomp-ArePartsOf c url username password) in
    let told : Made o' connected (connected_headers connection.id) [] =
      made _ _ _ _ (connected-ArePartsOf connection.id id) in
    record {
      request = asked.frame.plain;
      answer = told.frame.plain;
      asks = on_ws_connect-made o c asked.frame asked.parts;
      accepts =
          on_ws_session_message-frame o' s ws connection asked.frame.plain asked.frame found
            asked.again
          ∙ (ap (dispatch o' s ws connection asked.frame) asked.same_command
              ∙ (handle_stomp-fine o' s ws connection asked.frame
                    (asked.value accept_version_header _ refl)
                    (asked.value host_header _ refl ∙ same) waits
                  ∙ accept_client-made o' s ws connection.id told.frame told.parts));
      completes =
          on_ws_message-frame c false told.frame.plain told.frame told.again
          ∙ ap (λ v. returns (handle_frame c told.frame v)) told.same_command;
    }
