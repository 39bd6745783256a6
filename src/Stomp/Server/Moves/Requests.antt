-- ===== src/Stomp/Server/Moves/Requests.antt =====
-- What the user asks of the server as moves.
use metro_network_monitor.Base.{
  ℕ, suc, ◌≡◌, refl, inl, inr, Bool, true, false, List, [], ◌∷◌, map, Bool-cases, Option-cases,
  nat_eq, lookup, Bytes, bytes_eq,
}
use metro_network_monitor.Network.Types.{Outcome, returns, throws, undefined, unfinished, ◌>>=◌}
use metro_network_monitor.Stomp.Commands.{send}
use metro_network_monitor.Stomp.Errors.{StompError, ok, eq_error}
use metro_network_monitor.Stomp.ServerErrors.{undefined_error}
use metro_network_monitor.Stomp.Frame.{Frame, frame_of_parts}
use metro_network_monitor.Stomp.Compose.{HeaderOrder}
use metro_network_monitor.Stomp.Server.{Connection, Server, Effect, ws_stop, ws_close}
use metro_network_monitor.Stomp.Server.Handlers.{close_session, is_connected}
use metro_network_monitor.Stomp.Server.Requests.{
  Sent, send_text, request_id_of, send_headers, send_frame, send_to, close_callback, close, stop,
}
use metro_network_monitor.Stomp.Server.Moves.{
  is_client_post, IsQuiet, Move, stays, generates, clears, Moves, close_session-quiet,
  close_connection-Moves,
}

-- What is left by `Send` is a move.
abbrev pub SendMoves : (ℕ → Bytes) → Server → Sent → Type 0
SendMoves generate_id s (returns (request_id, (s', es))) = Move generate_id s s' es
SendMoves generate_id s (throws m) = Unit
SendMoves generate_id s undefined = Unit
SendMoves generate_id s unfinished = Unit

send_text-quiet :
    (ws : ℕ) (text request_id : Bytes) (cb : Bool)
    → is_client_post (send_text ws text request_id cb) ≡ false
send_text-quiet ws text request_id false = refl
send_text-quiet ws text request_id true = refl

module _ (o : HeaderOrder) (generate_id : ℕ → Bytes) (s : Server) where
  send_frame-SendMoves :
      (s' : Server) (ws : ℕ) (request_id destination content : Bytes) (cb : Bool)
      → ((es : List Effect) → IsQuiet es → Move generate_id s s' es)
      → SendMoves generate_id s (send_frame o s' ws request_id destination content cb)
  unfolding send_frame
  send_frame-SendMoves s' ws request_id destination content cb ends =
      by_frame (frame_of_parts send (o.order (send_headers request_id destination content)) content)
    where
      by_error :
          (e : StompError) (f : Frame)
          → SendMoves generate_id s (elim (eq_error e ok) [
            | false ↦ returns ([], (s', []))
            | true ↦ returns (request_id, (s', send_text ws f.plain request_id cb ∷ []))
          ])
      by_error e f = elim (Bool-cases (eq_error e ok)) [
        | inl fine ↦ rw fine (
            ends (send_text ws f.plain request_id cb ∷ [])
              (send_text-quiet ws f.plain request_id cb, tt))
        | inr bad ↦ rw bad (ends [] tt)
      ]

      by_frame :
          (r : Outcome (StompError × Frame))
          → SendMoves generate_id s (
              r >>= λ (e, f). elim (eq_error e ok) [
                | false ↦ returns ([], (s', []))
                | true ↦ returns (request_id, (s', send_text ws f.plain request_id cb ∷ []))
              ])
      by_frame (returns (e, f)) = by_error e f
      by_frame (throws m) = tt
      by_frame undefined = tt
      by_frame unfinished = tt

  -- What `Send` does is a move, whatever it is asked to send.
  pub send_to-SendMoves :
      (id destination content : Bytes) (cb : Bool) (user_request_id : Bytes)
      → SendMoves generate_id s (send_to o generate_id s id destination content cb user_request_id)
  unfolding send_to
  send_to-SendMoves id destination content cb user_request_id =
      elim (Option-cases (lookup id s.sessions)) [
        | inl unknown ↦ rw (unknown, send_to) (stays [] tt)
        | inr (ws, q) ↦ elim (Option-cases (lookup ws s.connections)) [
          | inl lost ↦ rw (q, lost, send_to) (stays (ws_close ws ∷ []) (refl, tt))
          | inr (c, found) ↦ elim (Bool-cases (is_connected c.status)) [
            | inr early ↦ rw (q, found, early, send_to) (stays [] tt)
            | inl fine ↦ rw (q, found, fine, send_to) (by_request_id ws user_request_id)
          ]
        ]
      ]
    where
      by_request_id :
          (ws : ℕ) (given : Bytes)
          → SendMoves generate_id s (
              let (request_id, s') = request_id_of generate_id s given in
              send_frame o s' ws request_id destination content cb)
      by_request_id ws [] =
          send_frame-SendMoves (record s { generated = suc s.generated }) ws
            (generate_id s.generated) destination content cb generates
      by_request_id ws (x ∷ xs) = send_frame-SendMoves s ws (x ∷ xs) destination content cb stays

  -- What `Close` does is a move.
  pub close-Moves : (id : Bytes) (cb : Bool) → Moves generate_id s (close o s id cb)
  unfolding close
  close-Moves id cb = elim (Option-cases (lookup id s.sessions)) [
    | inl unknown ↦ rw (unknown, close) (stays [] tt)
    | inr (ws, q) ↦ elim (Option-cases (lookup ws s.connections)) [
      | inl lost ↦
          rw (q, lost, close)
            (stays (close_session ws (close_callback cb id) ∷ [])
              (close_session-quiet ws (close_callback cb id), tt))
      | inr (c, found) ↦
          rw (q, found, close)
            (close_connection-Moves o generate_id s ws c undefined_error (close_callback cb id)
              found)
    ]
  ]

closes-IsQuiet :
    (m : List (ℕ × Connection)) → IsQuiet (map (λ (entry : ℕ × Connection). ws_close entry.0) m)
closes-IsQuiet [] = tt
closes-IsQuiet (x ∷ m) = (refl, closes-IsQuiet m)

-- What `Stop` does is a move.
pub stop-Move :
    (generate_id : ℕ → Bytes) (s : Server) → (let (s', es) = stop s in Move generate_id s s' es)
unfolding stop
stop-Move generate_id s =
    clears (ws_stop ∷ map (λ (entry : ℕ × Connection). ws_close entry.0) s.connections)
      (refl, closes-IsQuiet s.connections)
