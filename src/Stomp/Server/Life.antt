-- ===== src/Stomp/Server/Life.antt =====
-- The life of a connection, seen from its ID: what the two maps say of it, and what the user is told.
pub mod Steps
use metro_network_monitor.Base.{
  [], ℕ, ◌≡◌, refl, sym, ap, subst, ◌∙◌, ◌⊎◌, inl, inr, Bool, true, false, Option, none, some, List,
  ◌∷◌, ◌++◌, arith, if◌then◌else◌, Bool-cases, Option-cases, nat_eq, lookup, insert, erase,
  lookup-insert_self, lookup-erase_ne, lookup-erase_self, lookup-insert_ne, Bytes, eq_bytes,
  eq_bytes_iff, bytes_eq,
}
use metro_network_monitor.Stomp.Server.{
  ConnectionStatus, invalid_status, pending, connected_status, Connection, Server, Effect,
  client_connected, client_message, client_disconnected,
}
use metro_network_monitor.Stomp.Server.Handlers.{forget, set_connected, begin_connection}
use metro_network_monitor.Stomp.Session.Parts.{IsValue}
use metro_network_monitor.Stomp.Server.Moves.{is_client_post, IsQuiet}
use metro_network_monitor.Stomp.Server.Consistent.{IsConsistent}

-- What the server promises for one ID: it is unknown, waits for its STOMP frame, or is open.
pub data Phase : Type 0 where
  unknown waiting live : Phase

abbrev pub phase_of : ConnectionStatus → Phase
phase_of invalid_status = unknown
phase_of pending = waiting
phase_of connected_status = live

unfoldable pub phase_at : Option Connection → Phase
phase_at none = unknown
phase_at (some c) = phase_of c.status

unfoldable pub phase : Server → Bytes → Phase
phase s id = elim (lookup id s.sessions) [
  | none ↦ unknown
  | some ws ↦ phase_at (lookup ws s.connections)
]

-- What the user is told of one ID.
pub data Notice : Type 0 where
  told_connected told_message told_disconnected : Notice

abbrev pub notice : Bytes → Effect → List Notice
notice id (client_connected e id') = if eq_bytes id' id then told_connected ∷ [] else []
notice id (client_message e id' d r b) = if eq_bytes id' id then told_message ∷ [] else []
notice id (client_disconnected e id') = if eq_bytes id' id then told_disconnected ∷ [] else []
notice id _ = []

unfoldable pub notices : Bytes → List Effect → List Notice
notices id [] = []
notices id (e ∷ es) = notice id e ++ notices id es

-- The steps of the life of the connection with an ID, with what the user is told at each, where
-- `set` says whether the callback for connections is set: of a connection when it is accepted, of
-- messages only while it is open, and of its end only when it was open. A connection is accepted
-- without the user's knowledge only when the callback is not set or no header can have the ID.
pub data LifeStep (set : Bool) (id : Bytes) : Phase → List Notice → Phase → Type 0 where
  rests : {p : Phase} → LifeStep set id p [] p
  appears : LifeStep set id unknown [] waiting
  opens : set ≡ true → LifeStep set id waiting (told_connected ∷ []) live
  opens_unseen : (set ≡ false) ⊎ (¬ IsValue id) → LifeStep set id waiting [] live
  hears : LifeStep set id live (told_message ∷ []) live
  ends : {p : Phase} → LifeStep set id p [] unknown
  ends_told : LifeStep set id live (told_disconnected ∷ []) unknown

pub quiet-notices : (id : Bytes) (es : List Effect) → IsQuiet es → notices id es ≡ []
unfolding notices
quiet-notices id [] q = refl
quiet-notices id (e ∷ es) (h, q) = rw (quiet-notice e h) (quiet-notices id es q)
  where
    quiet-notice : (e : Effect) → is_client_post e ≡ false → notice id e ≡ []
    quiet-notice (client_connected e id') h = cc
    quiet-notice (client_message e id' d r b) h = cc
    quiet-notice (client_disconnected e id') h = cc
    quiet-notice _ h = refl

pub notices-append :
    (id : Bytes) (es fs : List Effect) → notices id (es ++ fs) ≡ notices id es ++ notices id fs
unfolding notices
notices-append id [] fs = refl
notices-append id (e ∷ es) fs =
    ap (λ v. notice id e ++ v) (notices-append id es fs) ∙ sym (append-assoc (notice id e) _ _)
  where
    append-assoc : (a b c : List Notice) → (a ++ b) ++ c ≡ a ++ (b ++ c)
    append-assoc [] b c = refl
    append-assoc (x ∷ a) b c = ap (λ v. x ∷ v) (append-assoc a b c)

phase-at :
    (s : Server) (id : Bytes) (ws : ℕ)
    → lookup id s.sessions ≡ some ws
    → phase s id ≡ phase_at (lookup ws s.connections)
unfolding phase
phase-at s id ws found = rw (found, phase) refl

pub phase-absent : (s : Server) (id : Bytes) → lookup id s.sessions ≡ none → phase s id ≡ unknown
unfolding phase
phase-absent s id missing = rw (missing, phase) refl

phase-same :
    (s s' : Server) (id : Bytes)
    → lookup id s'.sessions ≡ lookup id s.sessions
    → ((ws : ℕ)
        → lookup id s.sessions ≡ some ws
        → lookup ws s'.connections ≡ lookup ws s.connections)
    → phase s' id ≡ phase s id
phase-same s s' id same same_at = elim (Option-cases (lookup id s.sessions)) [
  | inl missing ↦ phase-absent s' id (same ∙ missing) ∙ sym (phase-absent s id missing)
  | inr (ws, found) ↦
      phase-at s' id ws (same ∙ found)
      ∙ (ap phase_at (same_at ws found) ∙ sym (phase-at s id ws found))
]

module _ (generate_id : ℕ → Bytes) (s : Server) (h : IsConsistent generate_id s) where
  pub phase-known :
      (ws : ℕ) (c : Connection)
      → lookup ws s.connections ≡ some c
      → phase s c.id ≡ phase_of c.status
  unfolding phase_at
  phase-known ws c found = phase-at s c.id ws (h.to_session ws c found) ∙ ap phase_at found

  -- The session of another ID is another session.
  other_session :
      (ws ws' : ℕ) (c : Connection) (id : Bytes)
      → lookup ws s.connections ≡ some c
      → lookup id s.sessions ≡ some ws'
      → ¬ (c.id ≡ id)
      → ¬ (ws ≡ ws')
  other_session ws ws' c id found used other e =
      let (c', found', same) = h.to_connection id ws' used in
      let d : some c ≡ some c' = sym found ∙ (ap (λ v. lookup v s.connections) e ∙ found') in
      let q : c ≡ c' = ground arith in other (ap (λ (v : Connection). v.id) q ∙ same)

  pub phase-forget :
      (ws : ℕ) (c : Connection) (id : Bytes)
      → lookup ws s.connections ≡ some c
      → phase (forget s c.id ws) id ≡ (if eq_bytes c.id id then unknown else phase s id)
  unfolding forget
  phase-forget ws c id found = elim (Bool-cases (eq_bytes c.id id)) [
    | inl same ↦
        let e : c.id ≡ id = (eq_bytes_iff c.id id).0 same in
        rw same (
          phase-absent (forget s c.id ws) id (
            subst (λ v. lookup v (erase c.id s.sessions) ≡ none) e
              (lookup-erase_self c.id s.sessions)))
    | inr other ↦
        let n : ¬ (c.id ≡ id) = λ e. (let t = (eq_bytes_iff c.id id).1 e in cc) in
        rw other (
          phase-same s (forget s c.id ws) id (lookup-erase_ne c.id id s.sessions n) (λ ws' used.
            lookup-erase_ne ws ws' s.connections (other_session ws ws' c id found used n)))
  ]

  pub phase-set_connected :
      (ws : ℕ) (c : Connection) (id : Bytes)
      → lookup ws s.connections ≡ some c
      → phase (set_connected s ws c.id) id ≡ (if eq_bytes c.id id then live else phase s id)
  unfolding set_connected phase_at
  phase-set_connected ws c id found =
      let new : Connection = record { id = c.id; status = connected_status } in
      elim (Bool-cases (eq_bytes c.id id)) [
        | inl same ↦
            let e : c.id ≡ id = (eq_bytes_iff c.id id).0 same in
            rw same (
              phase-at (set_connected s ws c.id) id ws
                (ap (λ v. lookup v s.sessions) (sym e) ∙ h.to_session ws c found)
              ∙ ap phase_at (lookup-insert_self ws new s.connections))
        | inr other ↦
            let n : ¬ (c.id ≡ id) = λ e. (let t = (eq_bytes_iff c.id id).1 e in cc) in
            rw other (
              phase-same s (set_connected s ws c.id) id refl (λ ws' used.
                lookup-insert_ne ws ws' new s.connections (other_session ws ws' c id found used n)))
      ]

  pub phase-begin_connection :
      (ws : ℕ) (id : Bytes)
      → lookup ws s.connections ≡ none
      → phase (begin_connection generate_id s ws) id
        ≡ (if eq_bytes (generate_id s.generated) id then waiting else phase s id)
  unfolding begin_connection phase_at
  phase-begin_connection ws id new_session =
      let n = generate_id s.generated in
      let new : Connection = record { id = n; status = pending } in
      elim (Bool-cases (eq_bytes n id)) [
        | inl same ↦
            let e : n ≡ id = (eq_bytes_iff n id).0 same in
            rw same (
              phase-at (begin_connection generate_id s ws) id ws (
                subst (λ v. lookup v (insert n ws s.sessions) ≡ some ws) e
                  (lookup-insert_self n ws s.sessions))
              ∙ ap phase_at (lookup-insert_self ws new s.connections))
        | inr other ↦
            let ne : ¬ (n ≡ id) = λ e. (let t = (eq_bytes_iff n id).1 e in cc) in
            rw other (
              phase-same s (begin_connection generate_id s ws) id
                (lookup-insert_ne n id ws s.sessions ne)
                (λ ws' used. lookup-insert_ne ws ws' new s.connections (λ e. known ws' used e)))
      ]
    where
      known : (ws' : ℕ) → lookup id s.sessions ≡ some ws' → ¬ (ws ≡ ws')
      known ws' used e =
          let (c', found', same) = h.to_connection id ws' used in
          let d : none ≡ some c' =
            sym new_session ∙ (ap (λ v. lookup v s.connections) e ∙ found') in
          cc
