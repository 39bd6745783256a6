-- ===== src/Stomp/Server/Consistent/Moves.antt =====
-- The maps of the server through its moves.
use metro_network_monitor.Base.{
  ℕ, suc, ◌≡◌, sym, ap, subst, ◌∙◌, ◌≢◌, inl, inr, none, some, List, [], arith, nat_eq, lookup,
  insert, lookup-insert_self, lookup-insert_ne, lookup-insert_cases, Bytes, bytes_eq,
}
use metro_network_monitor.Stomp.Server.{invalid_status, pending, Connection, Server, Effect}
use metro_network_monitor.Stomp.Server.Handlers.{begin_connection}
use metro_network_monitor.Stomp.Server.Moves.{
  Move, stays, generates, begins, accepts, accepts_silently, delivers, drops, leaves, clears,
}
use metro_network_monitor.Stomp.Server.Consistent.{
  IsFresh, IsConsistent, forget-IsConsistent, set_connected-IsConsistent,
}

module _ (generate_id : ℕ → Bytes) (s : Server) (h : IsConsistent generate_id s) where
  pub begin_connection-IsConsistent :
      (ws : ℕ)
      → IsFresh generate_id
      → lookup ws s.connections ≡ none
      → IsConsistent generate_id (begin_connection generate_id s ws)
  unfolding begin_connection
  begin_connection-IsConsistent ws fresh unknown =
      let id = generate_id s.generated in
      let new : Connection = record { id = id; status = pending } in
      record {
        to_session = λ ws' c' q. elim (lookup-insert_cases ws ws' new c' s.connections q) [
          | inl (e, e') ↦
              ap (λ (v : Connection). lookup v.id (insert id ws s.sessions)) (sym e')
              ∙ (lookup-insert_self id ws s.sessions ∙ ap some e)
          | inr q' ↦
              lookup-insert_ne id c'.id ws s.sessions (λ e. other_id fresh ws' c' q' e)
              ∙ h.to_session ws' c' q'
        ];
        to_connection = λ id' ws' q. elim (lookup-insert_cases id id' ws ws' s.sessions q) [
          | inl (e, e') ↦ (
            new,
            subst (λ v. lookup v (insert ws new s.connections) ≡ some new) e'
                (lookup-insert_self ws new s.connections),
            e,
          )
          | inr q' ↦
              let (c', found', same) = h.to_connection id' ws' q' in
              (
                c',
                lookup-insert_ne ws ws' new s.connections
                      (λ e. other_session ws ws' c' unknown found' e)
                    ∙ found',
                same,
              )
        ];
        valid = λ ws' c' q. elim (lookup-insert_cases ws ws' new c' s.connections q) [
          | inl (e, e') ↦ λ bad.
              (let clash = ap (λ (v : Connection). v.status) e' ∙ bad in absurd (ne_status clash))
          | inr q' ↦ h.valid ws' c' q'
        ];
        issued = λ ws' c' q. elim (lookup-insert_cases ws ws' new c' s.connections q) [
          | inl (e, e') ↦ (s.generated, omega arith, ap (λ (v : Connection). v.id) (sym e'))
          | inr q' ↦ let (n, less, p) = h.issued ws' c' q' in (n, omega arith, p)
        ];
      }
    where
      ne_status : pending ≢ invalid_status
      ne_status e = cc

      other_id :
          IsFresh generate_id
          → (ws' : ℕ) (c' : Connection) → lookup ws' s.connections ≡ some c'
          → ¬ (generate_id s.generated ≡ c'.id)
      other_id f ws' c' q e =
          let (n, less, p) = h.issued ws' c' q in
          absurd (omega (arith, f s.generated n (e ∙ p), less))

      other_session :
          (a b : ℕ) (x : Connection)
          → lookup a s.connections ≡ none
          → lookup b s.connections ≡ some x
          → ¬ (a ≡ b)
      other_session a b x p q e =
          let d : none ≡ some x = sym p ∙ (ap (λ v. lookup v s.connections) e ∙ q) in cc

  generates-IsConsistent : IsConsistent generate_id (record s { generated = suc s.generated })
  generates-IsConsistent = record {
    to_session = h.to_session;
    to_connection = h.to_connection;
    valid = h.valid;
    issued = λ ws c q. (let (n, less, p) = h.issued ws c q in (n, omega arith, p));
  }

  clears-IsConsistent : IsConsistent generate_id (record s { connections = []; sessions = [] })
  unfolding lookup
  clears-IsConsistent = record {
    to_session = λ ws c q. cc;
    to_connection = λ id ws q. cc;
    valid = λ ws c q. cc;
    issued = λ ws c q. cc;
  }

-- Every move keeps the maps consistent, when no ID is generated twice.
pub Move-IsConsistent :
    (generate_id : ℕ → Bytes) (s s' : Server) (es : List Effect)
    → IsFresh generate_id
    → IsConsistent generate_id s
    → Move generate_id s s' es
    → IsConsistent generate_id s'
Move-IsConsistent generate_id s s' es fresh h (stays _ quiet) = h
Move-IsConsistent generate_id s s' es fresh h (generates _ quiet) =
    generates-IsConsistent generate_id s h
Move-IsConsistent generate_id s s' es fresh h (begins ws unknown) =
    begin_connection-IsConsistent generate_id s h ws fresh unknown
Move-IsConsistent generate_id s s' es fresh h (accepts ws c _ found waits quiet) =
    set_connected-IsConsistent generate_id s h ws c found
Move-IsConsistent generate_id s s' es fresh h (accepts_silently ws c found waits no_value) =
    set_connected-IsConsistent generate_id s h ws c found
Move-IsConsistent generate_id s s' es fresh h (delivers ws c d r b found open') = h
Move-IsConsistent generate_id s s' es fresh h (drops ws c _ found quiet) =
    forget-IsConsistent generate_id s h ws c found
Move-IsConsistent generate_id s s' es fresh h (leaves ws c e found open') =
    forget-IsConsistent generate_id s h ws c found
Move-IsConsistent generate_id s s' es fresh h (clears _ quiet) = clears-IsConsistent generate_id s h
