-- ===== src/Stomp/Server/Moves/Handlers.antt =====
-- The handlers of the server as moves.
use metro_network_monitor.Base.{
  ℕ, ◌≡◌, refl, sym, ap, ◌∙◌, inl, inr, Bool, true, false, none, some, [], ◌∷◌, Bool-cases,
  Option-cases, nat_eq, lookup, Bytes, eq_bytes, bytes_eq,
}
use metro_network_monitor.Network.Types.{Outcome, returns, throws, undefined, unfinished, ◌>>=◌}
use metro_network_monitor.Stomp.Commands.{StompCommand, connected, send, stomp}
use metro_network_monitor.Stomp.Headers.{
  accept_version_header, destination_header, host_header, id_header,
}
use metro_network_monitor.Stomp.Errors.{StompError, ok, eq_error}
use metro_network_monitor.Stomp.ServerErrors.{
  StompServerError, undefined_error, eq_server_error, unsupported_frame,
  web_socket_session_disconnected,
}
use metro_network_monitor.Stomp.ServerErrors
use metro_network_monitor.Stomp.Frame.{Frame, get_header_value, frame_of_text, frame_of_parts}
use metro_network_monitor.Stomp.Compose.{HeaderOrder}
use metro_network_monitor.Stomp.Server.{
  ConnectionStatus, invalid_status, pending, connected_status, Connection, version, Server, ws_send,
  ws_close, client_connected, Handled,
}
use metro_network_monitor.Stomp.Session.Parts.{IsValue, connected-ArePartsOf}
use metro_network_monitor.Stomp.Session.Frames.{Made, made}
use metro_network_monitor.Stomp.Server.Handlers.{
  error_if, set_connected, posts, is_pending, is_connected, close_connection, connected_headers,
  accept_client, handle_stomp, handle_send, dispatch, handle_message, on_ws_session_message,
  on_ws_session_connect, on_ws_session_disconnect,
}
use metro_network_monitor.Stomp.Server.Moves.{
  Move, stays, begins, accepts, accepts_silently, delivers, drops, leaves, Moves, >>=-Moves,
  close_connection-Moves,
}

is_pending→eq : (st : ConnectionStatus) → is_pending st ≡ true → st ≡ pending
is_pending→eq invalid_status h = cc
is_pending→eq pending h = refl
is_pending→eq connected_status h = cc

is_connected→eq : (st : ConnectionStatus) → is_connected st ≡ true → st ≡ connected_status
is_connected→eq invalid_status h = cc
is_connected→eq pending h = cc
is_connected→eq connected_status h = refl

abbrev error_of : Outcome (StompError × Frame) → StompError
error_of (returns (e, f)) = e
error_of _ = ok

module _ (o : HeaderOrder) (generate_id : ℕ → Bytes) (s : Server) where
  accept_client-Moves :
      (ws : ℕ) (c : Connection)
      → lookup ws s.connections ≡ some c
      → c.status ≡ pending
      → Moves generate_id s (accept_client o s ws c.id)
  unfolding accept_client
  accept_client-Moves ws c found waits =
      >>=-Moves_made (frame_of_parts connected (o.order (connected_headers c.id)) []) _
        (λ e f same. by_error e f same)
    where
      >>=-Moves_made :
          (r : Outcome (StompError × Frame)) (k : StompError × Frame → Handled)
          → ((e : StompError) (f : Frame) → r ≡ returns (e, f) → Moves generate_id s (k (e, f)))
          → Moves generate_id s (r >>= k)
      >>=-Moves_made (returns (e, f)) k h = h e f refl
      >>=-Moves_made (throws m) k h = tt
      >>=-Moves_made undefined k h = tt
      >>=-Moves_made unfinished k h = tt

      -- A frame for a value is made without an error.
      no_value :
          (e : StompError) (f : Frame)
          → frame_of_parts connected (o.order (connected_headers c.id)) [] ≡ returns (e, f)
          → eq_error e ok ≡ false
          → ¬ IsValue c.id
      no_value e f same bad value =
          let m : Made o connected (connected_headers c.id) [] =
            made _ _ _ _ (connected-ArePartsOf c.id value) in
          let q = sym same ∙ m.parts in
          let q' : e ≡ ok = ap error_of q in
          let b : eq_error e ok ≡ true = ap (λ v. eq_error v ok) q' in
          absurd (let t : true ≡ false = sym b ∙ bad in cc)

      by_error :
          (e : StompError) (f : Frame)
          → frame_of_parts connected (o.order (connected_headers c.id)) [] ≡ returns (e, f)
          → Moves generate_id s (elim (eq_error e ok) [
            | false ↦ returns (set_connected s ws c.id, [])
            | true ↦ returns (
              set_connected s ws c.id,
              ws_send ws f.plain
                  ∷ posts s.on_client_connect (client_connected ServerErrors.ok c.id),
            )
          ])
      by_error e f same = elim (Bool-cases (eq_error e ok)) [
        | inl fine ↦ rw fine (accepts ws c (ws_send ws f.plain ∷ []) found waits (refl, tt))
        | inr bad ↦ rw bad (accepts_silently ws c found waits (no_value e f same bad))
      ]

  handle_stomp-Moves :
      (ws : ℕ) (c : Connection) (f : Frame)
      → lookup ws s.connections ≡ some c
      → Moves generate_id s (handle_stomp o s ws c f)
  unfolding handle_stomp
  handle_stomp-Moves ws c f found =
      elim (Bool-cases (eq_bytes (get_header_value f.headers accept_version_header) version)) [
        | inr p ↦
            rw (p, handle_stomp)
              (close_connection-Moves o generate_id s ws c
                ServerErrors.invalid_header_value_accept_version none found)
        | inl p ↦ elim (Bool-cases (eq_bytes (get_header_value f.headers host_header) s.host)) [
          | inr q ↦
              rw (p, q, handle_stomp)
                (close_connection-Moves o generate_id s ws c ServerErrors.invalid_header_value_host
                  none found)
          | inl q ↦ elim (Bool-cases (is_pending c.status)) [
            | inr r ↦
                rw (p, q, r, handle_stomp)
                  (close_connection-Moves o generate_id s ws c ServerErrors.client_cannot_reconnect
                    none found)
            | inl r ↦
                rw (p, q, r, handle_stomp)
                  (accept_client-Moves ws c found (is_pending→eq c.status r))
          ]
        ]
      ]

  handle_send-Moves :
      (ws : ℕ) (c : Connection) (f : Frame)
      → lookup ws s.connections ≡ some c
      → Moves generate_id s (handle_send o s ws c f)
  unfolding handle_send
  handle_send-Moves ws c f found = elim (Bool-cases (is_connected c.status)) [
    | inr p ↦
        rw (p, handle_send) (close_connection-Moves o generate_id s ws c undefined_error none found)
    | inl p ↦
        rw (p, handle_send)
          (delivers ws c (get_header_value f.headers destination_header)
            (get_header_value f.headers id_header) f.body found (is_connected→eq c.status p))
  ]

  dispatch-Moves :
      (ws : ℕ) (c : Connection) (f : Frame) (command : StompCommand)
      → lookup ws s.connections ≡ some c
      → Moves generate_id s (dispatch o s ws c f command)
  unfolding dispatch
  dispatch-Moves ws c f stomp found = handle_stomp-Moves ws c f found
  dispatch-Moves ws c f send found = handle_send-Moves ws c f found
  dispatch-Moves ws c f _ found =
      close_connection-Moves o generate_id s ws c unsupported_frame none found

  handle_message-Moves :
      (ws : ℕ) (c : Connection) (msg : Bytes)
      → lookup ws s.connections ≡ some c
      → Moves generate_id s (handle_message o s ws c msg)
  unfolding handle_message
  handle_message-Moves ws c msg found =
      >>=-Moves o generate_id s (frame_of_text msg) _ (λ (e, f). by_error e f)
    where
      by_error :
          (e : StompError) (f : Frame)
          → Moves generate_id s (elim (eq_error e ok) [
            | false ↦ close_connection o s c.id ws ServerErrors.could_not_parse_frame none
            | true ↦ dispatch o s ws c f f.command
          ])
      by_error e f = elim (Bool-cases (eq_error e ok)) [
        | inl fine ↦ rw fine (dispatch-Moves ws c f f.command found)
        | inr bad ↦ rw bad (
            close_connection-Moves o generate_id s ws c ServerErrors.could_not_parse_frame none
              found)
      ]

  -- What `OnWsSessionMessage` does is a move, whatever the session and the message.
  pub on_ws_session_message-Moves :
      (failed : Bool) (ws : ℕ) (msg : Bytes)
      → Moves generate_id s (on_ws_session_message o s failed ws msg)
  unfolding on_ws_session_message
  on_ws_session_message-Moves failed ws msg = elim (Option-cases (lookup ws s.connections)) [
    | inl unknown ↦ rw (unknown, on_ws_session_message) (stays (ws_close ws ∷ []) (refl, tt))
    | inr (c, found) ↦ elim (Bool-cases failed) [
      | inl bad ↦ rw (found, bad, on_ws_session_message) (stays [] tt)
      | inr fine ↦ rw (found, fine, on_ws_session_message) (handle_message-Moves ws c msg found)
    ]
  ]

-- What `OnWsSessionConnect` does is a move, for a session that is not known.
pub on_ws_session_connect-Move :
    (generate_id : ℕ → Bytes) (s : Server) (failed : Bool) (ws : ℕ)
    → lookup ws s.connections ≡ none
    → (let (s', es) = on_ws_session_connect generate_id s failed ws in Move generate_id s s' es)
unfolding on_ws_session_connect
on_ws_session_connect-Move generate_id s true ws new = stays (ws_close ws ∷ []) (refl, tt)
on_ws_session_connect-Move generate_id s false ws new = begins ws new

-- What `OnWsSessionDisconnect` does is a move.
pub on_ws_session_disconnect-Move :
    (generate_id : ℕ → Bytes) (s : Server) (failed : Bool) (ws : ℕ)
    → (let (s', es) = on_ws_session_disconnect s failed ws in Move generate_id s s' es)
unfolding on_ws_session_disconnect
on_ws_session_disconnect-Move generate_id s failed ws =
    elim (Option-cases (lookup ws s.connections)) [
      | inl unknown ↦ rw (unknown, on_ws_session_disconnect) (stays [] tt)
      | inr (c, found) ↦ elim (Bool-cases (is_connected c.status)) [
        | inl p ↦
            rw (found, p, on_ws_session_disconnect)
              (leaves ws c (error_if failed web_socket_session_disconnected) found
                (is_connected→eq c.status p))
        | inr p ↦ rw (found, p, on_ws_session_disconnect) (drops ws c [] found tt)
      ]
    ]
