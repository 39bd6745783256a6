-- ===== src/Stomp/Server/Moves.antt =====
-- The moves of the server: what its handlers may do to the state, and what they post to the user.
pub mod Handlers
pub mod Requests
use metro_network_monitor.Base.{
  [], ℕ, suc, ◌≡◌, refl, inl, inr, Bool, true, false, Option, none, some, List, ◌∷◌, ◌++◌, arith,
  Bool-cases, All, nat_eq, lookup, Bytes, bytes_eq,
}
use metro_network_monitor.Network.Types.{Outcome, returns, throws, undefined, unfinished, ◌>>=◌}
use metro_network_monitor.Stomp.Errors.{ok}
use metro_network_monitor.Stomp.ServerErrors.{
  StompServerError, undefined_error, eq_server_error, unsupported_frame,
}
use metro_network_monitor.Stomp.ServerErrors
use metro_network_monitor.Stomp.Compose.{HeaderOrder}
use metro_network_monitor.Stomp.Server.{
  pending, connected_status, Connection, Server, Effect, ws_send, client_connected, client_message,
  client_disconnected, Handled,
}
use metro_network_monitor.Stomp.Session.Parts.{IsValue}
use metro_network_monitor.Stomp.Server.Handlers.{
  close_session, forget, set_connected, posts, make_error_frame, close_connection, begin_connection,
}

-- The effect is a callback for a client's connection.
abbrev pub is_client_post : Effect → Bool
is_client_post (client_connected e id) = true
is_client_post (client_message e id destination request_id body) = true
is_client_post (client_disconnected e id) = true
is_client_post _ = false

abbrev pub IsQuiet : List Effect → Type 0
IsQuiet es = All (λ e. is_client_post e ≡ false) es

pub data Move (generate_id : ℕ → Bytes) (s : Server) : Server → List Effect → Type 0 where
  -- Nothing changes.
  stays : (es : List Effect) → IsQuiet es → Move generate_id s s es
  -- An ID is taken from the generator.
  generates :
      (es : List Effect)
      → IsQuiet es
      → Move generate_id s (record s { generated = suc s.generated }) es
  -- A session that is not known gets a pending connection.
  begins :
      (ws : ℕ)
      → lookup ws s.connections ≡ none
      → Move generate_id s (begin_connection generate_id s ws) []
  -- A pending connection is accepted, and the user is told.
  accepts :
      (ws : ℕ) (c : Connection) (es : List Effect)
      → lookup ws s.connections ≡ some c
      → c.status ≡ pending
      → IsQuiet es
      → Move generate_id s
          (set_connected s ws c.id)
          (es ++ posts s.on_client_connect (client_connected ServerErrors.ok c.id))
  -- The same without an answer, when no CONNECTED frame can be made for the ID.
  accepts_silently :
      (ws : ℕ) (c : Connection)
      → lookup ws s.connections ≡ some c
      → c.status ≡ pending
      → ¬ IsValue c.id
      → Move generate_id s (set_connected s ws c.id) []
  -- A message of a connected client reaches the user.
  delivers :
      (ws : ℕ) (c : Connection) (destination request_id body : Bytes)
      → lookup ws s.connections ≡ some c
      → c.status ≡ connected_status
      → Move generate_id s s (
          posts s.on_client_message
            (client_message ServerErrors.ok c.id destination request_id body))
  -- A connection is closed by the server; the user is not told.
  drops :
      (ws : ℕ) (c : Connection) (es : List Effect)
      → lookup ws s.connections ≡ some c
      → IsQuiet es
      → Move generate_id s (forget s c.id ws) es
  -- The session of a connected client ends, and the user is told.
  leaves :
      (ws : ℕ) (c : Connection) (e : StompServerError)
      → lookup ws s.connections ≡ some c
      → c.status ≡ connected_status
      → Move generate_id s
          (forget s c.id ws)
          (posts s.on_client_disconnect (client_disconnected e c.id))
  -- All connections are forgotten.
  clears :
      (es : List Effect)
      → IsQuiet es
      → Move generate_id s (record s { connections = []; sessions = [] }) es

-- What is left by a handler is a move.
abbrev pub Moves : (ℕ → Bytes) → Server → Handled → Type 0
Moves generate_id s (returns (s', es)) = Move generate_id s s' es
Moves generate_id s (throws m) = Unit
Moves generate_id s undefined = Unit
Moves generate_id s unfinished = Unit

pub close_session-quiet :
    (ws : ℕ) (cb : Option Bytes) → is_client_post (close_session ws cb) ≡ false
close_session-quiet ws none = refl
close_session-quiet ws (some id) = refl

module _ (o : HeaderOrder) (generate_id : ℕ → Bytes) (s : Server) where
  pub >>=-Moves {ℓ} :
      {A : Type ℓ} (r : Outcome A) (k : A → Handled)
      → ((a : A) → Moves generate_id s (k a))
      → Moves generate_id s (r >>= k)
  >>=-Moves (returns a) k h = h a
  >>=-Moves (throws m) k h = tt
  >>=-Moves undefined k h = tt
  >>=-Moves unfinished k h = tt

  pub close_connection-Moves :
      (ws : ℕ) (c : Connection) (e : StompServerError) (cb : Option Bytes)
      → lookup ws s.connections ≡ some c
      → Moves generate_id s (close_connection o s c.id ws e cb)
  unfolding close_connection
  close_connection-Moves ws c e cb found = elim (Bool-cases (eq_server_error e undefined_error)) [
    | inl silent ↦
        rw (silent, close_connection)
          (drops ws c (close_session ws cb ∷ []) found (close_session-quiet ws cb, tt))
    | inr loud ↦
        rw (loud, close_connection)
          (>>=-Moves (make_error_frame o unsupported_frame) _ (λ text.
            drops ws c (ws_send ws text ∷ close_session ws cb ∷ []) found
              (refl, (close_session-quiet ws cb, tt))))
  ]
