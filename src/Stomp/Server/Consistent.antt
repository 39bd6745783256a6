-- ===== src/Stomp/Server/Consistent.antt =====
-- The two maps of the server against each other.
pub mod Moves
use metro_network_monitor.Base.{
  [], ℕ, ◌<◌, ◌≡◌, sym, ap, subst, ◌∙◌, ◌≢◌, inl, inr, none, some, arith, ◌==◌, ==→eq, not_==→ne,
  Bool-cases, Option-cases, nat_eq, lookup, insert, erase, lookup-insert_self, lookup-erase_ne,
  lookup-erase-some, lookup-insert_ne, lookup-insert_cases, Bytes, bytes_eq,
}
use metro_network_monitor.Stomp.Server.{invalid_status, connected_status, Connection, Server}
use metro_network_monitor.Stomp.Server.Handlers.{forget, set_connected}

-- No ID is generated twice.
abbrev pub IsFresh : (ℕ → Bytes) → Type 0
IsFresh generate_id = (m n : ℕ) → generate_id m ≡ generate_id n → m ≡ n

-- A session has a connection when its ID leads back to the session, every status is valid, and every
-- ID in use has been generated.
pub record IsConsistent (generate_id : ℕ → Bytes) (s : Server) : Type 0 where
  pub to_session :
      (ws : ℕ) (c : Connection)
      → lookup ws s.connections ≡ some c
      → lookup c.id s.sessions ≡ some ws
  pub to_connection :
      (id : Bytes) (ws : ℕ)
      → lookup id s.sessions ≡ some ws
      → (c : Connection) × (lookup ws s.connections ≡ some c) × (c.id ≡ id)
  pub valid :
      (ws : ℕ) (c : Connection) → lookup ws s.connections ≡ some c → c.status ≢ invalid_status
  pub issued :
      (ws : ℕ) (c : Connection)
      → lookup ws s.connections ≡ some c
      → (n : ℕ) × (n < s.generated) × (c.id ≡ generate_id n)

module _ (generate_id : ℕ → Bytes) (s : Server) (h : IsConsistent generate_id s) where
  -- Two sessions do not share an ID.
  pub same_session :
      (ws ws' : ℕ) (c c' : Connection)
      → lookup ws s.connections ≡ some c
      → lookup ws' s.connections ≡ some c'
      → c.id ≡ c'.id
      → ws ≡ ws'
  same_session ws ws' c c' found found' same =
      let a : lookup c.id s.sessions ≡ some ws = h.to_session ws c found in
      let b : lookup c'.id s.sessions ≡ some ws' = h.to_session ws' c' found' in
      let d : some ws ≡ some ws' = sym a ∙ (ap (λ v. lookup v s.sessions) same ∙ b) in ground arith

  -- The next ID is in no map.
  pub next_id_unused : IsFresh generate_id → lookup (generate_id s.generated) s.sessions ≡ none
  next_id_unused fresh = elim (Option-cases (lookup (generate_id s.generated) s.sessions)) [
    | inl unused ↦ unused
    | inr (ws, used) ↦
        let (c, found, same) = h.to_connection (generate_id s.generated) ws used in
        let (n, less, q) = h.issued ws c found in
        absurd (omega (arith, fresh n s.generated (sym q ∙ same), less))
  ]

  pub forget-IsConsistent :
      (ws : ℕ) (c : Connection)
      → lookup ws s.connections ≡ some c
      → IsConsistent generate_id (forget s c.id ws)
  unfolding forget
  forget-IsConsistent ws c found = record {
    to_session = λ ws' c' q.
        let (other, q') = kept ws' c' q in
        lookup-erase_ne c.id c'.id s.sessions
          (λ same. other (same_session ws ws' c c' found q' same))
        ∙ h.to_session ws' c' q';
    to_connection = λ id ws' q.
        let (other, q') = lookup-erase-some c.id id ws' s.sessions q in
        let (c', found', same) = h.to_connection id ws' q' in
        (
          c',
          lookup-erase_ne ws ws' s.connections (λ e.
                other (
                  ap (λ (v : Connection). v.id) (same_connection ws ws' c c' found found' e)
                  ∙ same))
              ∙ found',
          same,
        );
    valid = λ ws' c' q. h.valid ws' c' (kept ws' c' q).1;
    issued = λ ws' c' q. h.issued ws' c' (kept ws' c' q).1;
  }
    where
      kept :
          (ws' : ℕ) (c' : Connection)
          → lookup ws' (erase ws s.connections) ≡ some c'
          → (¬ (ws ≡ ws')) × (lookup ws' s.connections ≡ some c')
      kept ws' c' q = lookup-erase-some ws ws' c' s.connections q

      same_connection :
          (a b : ℕ) (x y : Connection)
          → lookup a s.connections ≡ some x
          → lookup b s.connections ≡ some y
          → a ≡ b
          → x ≡ y
      same_connection a b x y p q e =
          let d : some x ≡ some y = sym p ∙ (ap (λ v. lookup v s.connections) e ∙ q) in ground arith

  pub set_connected-IsConsistent :
      (ws : ℕ) (c : Connection)
      → lookup ws s.connections ≡ some c
      → IsConsistent generate_id (set_connected s ws c.id)
  unfolding set_connected
  set_connected-IsConsistent ws c found =
      let new : Connection = record { id = c.id; status = connected_status } in
      record {
        to_session = λ ws' c' q. elim (lookup-insert_cases ws ws' new c' s.connections q) [
          | inl (e, e') ↦
              ap (λ (v : Connection). lookup v.id s.sessions) (sym e')
              ∙ (h.to_session ws c found ∙ ap some e)
          | inr q' ↦ h.to_session ws' c' q'
        ];
        to_connection = λ id ws' q.
            let (c', found', same) = h.to_connection id ws' q in
            elim (Bool-cases (ws == ws')) [
              | inl e' ↦
                  let e : ws ≡ ws' = ==→eq ws ws' e' in
                  let d : some c ≡ some c' =
                    sym found ∙ (ap (λ v. lookup v s.connections) e ∙ found') in
                  let cc' : c ≡ c' = ground arith in
                  (
                    new,
                    subst (λ v. lookup v (insert ws new s.connections) ≡ some new) e
                        (lookup-insert_self ws new s.connections),
                    ap (λ (v : Connection). v.id) cc' ∙ same,
                  )
              | inr n ↦ (
                c',
                lookup-insert_ne ws ws' new s.connections (not_==→ne ws ws' n) ∙ found',
                same,
              )
            ];
        valid = λ ws' c' q. elim (lookup-insert_cases ws ws' new c' s.connections q) [
          | inl (e, e') ↦ λ bad.
              (let clash = ap (λ (v : Connection). v.status) e' ∙ bad in absurd (ne_status clash))
          | inr q' ↦ h.valid ws' c' q'
        ];
        issued = λ ws' c' q. elim (lookup-insert_cases ws ws' new c' s.connections q) [
          | inl (e, e') ↦
              let (n, less, p) = h.issued ws c found in
              (n, less, ap (λ (v : Connection). v.id) (sym e') ∙ p)
          | inr q' ↦ h.issued ws' c' q'
        ];
      }
    where
      ne_status : connected_status ≢ invalid_status
      ne_status e = cc
