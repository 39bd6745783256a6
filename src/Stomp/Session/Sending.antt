-- ===== src/Stomp/Session/Sending.antt =====
-- Messages between a connected client and the server, in both directions.
use metro_network_monitor.Base.{
  ℕ, ◌<◌, ◌≡◌, refl, ap, ◌∙◌, Bool, false, some, List, [], ◌∷◌, length, nat_eq, lookup, Bytes,
  bytes_eq,
}
use metro_network_monitor.Network.Types.{Outcome, returns}
use metro_network_monitor.Stomp.Commands.{send}
use metro_network_monitor.Stomp.Headers.{destination_header, id_header, header_eq}
use metro_network_monitor.Stomp.Errors.{StompError, eq_error}
use metro_network_monitor.Stomp.Errors
use metro_network_monitor.Stomp.Parse.{size_max}
use metro_network_monitor.Stomp.ServerErrors
use metro_network_monitor.Stomp.ClientErrors
use metro_network_monitor.Stomp.Frame.{Frame, frame_of_parts}
use metro_network_monitor.Stomp.Compose.{HeaderOrder}
use metro_network_monitor.Stomp.Server.{Connection, Server, connected_status, client_message}
use metro_network_monitor.Stomp.Server.Handlers.{
  posts, handle_send, dispatch, on_ws_session_message,
}
use metro_network_monitor.Stomp.Server.Requests.{
  send_headers, send_text, request_id_of, send_frame, send_to,
}
use metro_network_monitor.Stomp.Client.{Client, ClientEffect, message_received}
use metro_network_monitor.Stomp.Client.Handlers.{
  tells, handle_server_message, handle_frame, on_ws_message,
}
use metro_network_monitor.Stomp.Client.Requests.{client_send_text, next_id, send_from}
use metro_network_monitor.Stomp.Session.Parts.{IsValue, send-ArePartsOf}
use metro_network_monitor.Stomp.Session.Frames.{Made, made}
use metro_network_monitor.Stomp.Session.Connecting.{
  on_ws_session_message-frame, on_ws_message-frame,
}

send_frame-made :
    (o : HeaderOrder) (s : Server) (ws : ℕ) (request_id destination content : Bytes) (cb : Bool)
    (f : Frame)
    → frame_of_parts send (o.order (send_headers request_id destination content)) content
      ≡ returns (Errors.ok, f)
    → send_frame o s ws request_id destination content cb
      ≡ returns (request_id, (s, send_text ws f.plain request_id cb ∷ []))
unfolding send_frame
send_frame-made o s ws request_id destination content cb f e = rw (e, send_frame) refl

send_to-connected :
    (o : HeaderOrder) (generate_id : ℕ → Bytes) (s : Server) (id destination content : Bytes)
    (cb : Bool) (given : Bytes) (ws : ℕ) (c : Connection)
    → lookup id s.sessions ≡ some ws
    → lookup ws s.connections ≡ some c
    → c.status ≡ connected_status
    → send_to o generate_id s id destination content cb given ≡ (
        let (request_id, s') = request_id_of generate_id s given in
        send_frame o s' ws request_id destination content cb)
unfolding send_to
send_to-connected o generate_id s id destination content cb given ws c used found open' =
    rw (used, found, open', send_to) refl

-- What passes when the server sends to a client.
pub record SentToClient (o : HeaderOrder) (generate_id : ℕ → Bytes) (s : Server) (c : Client)
    (id destination content : Bytes) (cb : Bool) (given : Bytes) (ws : ℕ) : Type 0 where
  pub text : Bytes
  -- the server sends a frame under the request ID, and returns the ID
  pub sends : send_to o generate_id s id destination content cb given ≡ (
      let (request_id, s') = request_id_of generate_id s given in
      returns (request_id, (s', send_text ws text request_id cb ∷ [])))
  -- the client gives the message to its user
  pub hears :
      (failed : Bool)
      → on_ws_message c failed text
        ≡ returns (c, tells c.on_message (message_received ClientErrors.ok destination content))

-- When the server sends to the ID of a connected client, with a request ID and a destination that can
-- be values of headers and with a content whose size fits into a `size_t`, it returns the request ID,
-- and the client that gets the frame gives its user this destination and this content.
pub sends_to :
    (o : HeaderOrder) (generate_id : ℕ → Bytes) (s : Server) (c : Client)
    (id destination content : Bytes) (cb : Bool) (given : Bytes) (ws : ℕ) (connection : Connection)
    → lookup id s.sessions ≡ some ws
    → lookup ws s.connections ≡ some connection
    → connection.status ≡ connected_status
    → IsValue (request_id_of generate_id s given).0
    → IsValue destination
    → length content < size_max
    → SentToClient o generate_id s c id destination content cb given ws
unfolding lookup handle_frame handle_server_message
sends_to o generate_id s c id destination content cb given ws connection used found open' r d
      small =
    let request_id = (request_id_of generate_id s given).0 in
    let m : Made o send (send_headers request_id destination content) content =
      made _ _ _ _ (send-ArePartsOf request_id destination content r d small) in
    record {
      text = m.frame.plain;
      sends =
          send_to-connected o generate_id s id destination content cb given ws connection used found
            open'
          ∙ send_frame-made o (request_id_of generate_id s given).1 ws request_id destination
              content cb m.frame m.parts;
      hears = λ failed.
          on_ws_message-frame c failed m.frame.plain m.frame m.again
          ∙ (ap (λ v. returns (handle_frame c m.frame v)) m.same_command
              ∙ (ap (λ v. heard v m.frame.body) (m.value destination_header _ refl)
                  ∙ ap (heard destination) m.same_body));
    }
  where
    heard : Bytes → Bytes → Outcome (Client × List ClientEffect)
    heard d' body = returns (c, tells c.on_message (message_received ClientErrors.ok d' body))

-- What passes when a client sends to the server.
pub record SentToServer (o o' : HeaderOrder) (generate_id : ℕ → Bytes) (c : Client) (s : Server)
    (destination content : Bytes) (cb : Bool) (ws : ℕ) (id : Bytes) : Type 0 where
  pub text : Bytes
  -- the client sends a frame under a new request ID, and returns the ID
  pub sends : send_from o generate_id c destination content cb ≡ (
      let (request_id, c') = next_id generate_id c in
      returns (request_id, (c', client_send_text text request_id cb ∷ [])))
  -- the server gives the message to its user
  pub hears :
      on_ws_session_message o' s false ws text
      ≡ returns (
        s,
        posts s.on_client_message
            (client_message ServerErrors.ok id destination (generate_id c.generated) content),
      )

-- When a client with a connected session sends, and the destination and the new request ID can be
-- values of headers and the size of the content fits into a `size_t`, it returns the request ID, and
-- the server gives its user the ID of the connection, the destination, the request ID and the content.
pub sends_from :
    (o o' : HeaderOrder) (generate_id : ℕ → Bytes) (c : Client) (s : Server)
    (destination content : Bytes) (cb : Bool) (ws : ℕ) (connection : Connection)
    → lookup ws s.connections ≡ some connection
    → connection.status ≡ connected_status
    → IsValue (generate_id c.generated)
    → IsValue destination
    → length content < size_max
    → SentToServer o o' generate_id c s destination content cb ws connection.id
unfolding lookup dispatch handle_send send_from
sends_from o o' generate_id c s destination content cb ws connection found open' r d small =
    let request_id = generate_id c.generated in
    let m : Made o send (send_headers request_id destination content) content =
      made _ _ _ _ (send-ArePartsOf request_id destination content r d small) in
    record {
      text = m.frame.plain;
      sends = rw (m.parts, send_from) refl;
      hears =
          on_ws_session_message-frame o' s ws connection m.frame.plain m.frame found m.again
          ∙ (ap (dispatch o' s ws connection m.frame) m.same_command
              ∙ rw
                  (
                    open',
                    m.value destination_header _ refl,
                    m.value id_header _ refl,
                    m.same_body,
                    handle_send,
                  )
                  refl);
    }
