-- ===== src/Search/Quiet/Quietest.antt =====
-- The choice among the paths of `GetQuietTravelRoute`.
use metro_network_monitor.Base.{
  ℕ, ◌≤◌, ◌≡◌, refl, sym, subst, ◌⊎◌, inl, inr, List, [], ◌∷◌, arith, ltb, ltb→lt, not_ltb→le,
  Bool-cases, Elem,
}
use metro_network_monitor.Network.Types.{Network}
use metro_network_monitor.Search.Stops.{FoundPath}
use metro_network_monitor.Search.Quiet.{path_crowding, most_quiet}

-- The path is the first one or one of the others within the limit, and no other within the limit is
-- less crowded.
pub record IsQuietest (net : Network) (limit : ℕ) (first : FoundPath) (others : List FoundPath)
    (path : FoundPath) : Type 0 where
  pub from : (path ≡ first) ⊎ (Elem path others × (path_crowding net path ≤ limit))
  pub no_worse : path_crowding net path ≤ path_crowding net first
  pub least :
      (p : FoundPath)
      → Elem p others
      → path_crowding net p ≤ limit
      → path_crowding net path ≤ path_crowding net p

module _ (net : Network) (limit : ℕ) where
  keeps :
      (first path : FoundPath) (others : List FoundPath) (r : FoundPath)
      → (path_crowding net path ≤ limit → path_crowding net first ≤ path_crowding net path)
      → IsQuietest net limit first others r
      → IsQuietest net limit first (path ∷ others) r
  keeps first path others r worse h = record {
    from = elim h.from [ inl e ↦ inl e | inr (m, low) ↦ inr (inr m, low) ];
    no_worse = h.no_worse;
    least = λ p m low. elim m [
      | inl e ↦
          let w : path_crowding net first ≤ path_crowding net p =
            subst (λ v. path_crowding net first ≤ path_crowding net v) (sym e)
              (worse (subst (λ v. path_crowding net v ≤ limit) e low)) in
          omega (arith, w, h.no_worse)
      | inr m' ↦ h.least p m' low
    ];
  }

  takes :
      (first path : FoundPath) (others : List FoundPath) (r : FoundPath)
      → path_crowding net path ≤ limit
      → path_crowding net path ≤ path_crowding net first
      → IsQuietest net limit path others r
      → IsQuietest net limit first (path ∷ others) r
  takes first path others r low better h = record {
    from = elim h.from [
      | inl e ↦ inr (inl e, subst (λ v. path_crowding net v ≤ limit) (sym e) low)
      | inr (m, low') ↦ inr (inr m, low')
    ];
    no_worse = (let q = h.no_worse in omega (arith, q, better));
    least = λ p m low'. elim m [
      | inl e ↦ subst (λ v. path_crowding net r ≤ path_crowding net v) (sym e) h.no_worse
      | inr m' ↦ h.least p m' low'
    ];
  }

  -- The path that is chosen is the first one or one of the others whose crowding is within the limit;
  -- it is not more crowded than the first one, nor than any of the others within the limit.
  pub most_quiet-IsQuietest :
      (first : FoundPath) (others : List FoundPath)
      → IsQuietest net limit first others
          (most_quiet net limit (path_crowding net first) first others)
  unfolding most_quiet
  most_quiet-IsQuietest first [] = record {
    from = inl refl;
    no_worse = omega arith;
    least = λ p m low. absurd m.1;
  }
  most_quiet-IsQuietest first (path ∷ others) =
      elim (Bool-cases (ltb limit (path_crowding net path))) [
        | inl far ↦
            rw (far, most_quiet)
              (keeps first path others _
                (λ low. absurd (omega (arith, ltb→lt limit (path_crowding net path) far, low)))
                (most_quiet-IsQuietest first others))
        | inr near ↦ elim (Bool-cases (ltb (path_crowding net path) (path_crowding net first))) [
          | inl less ↦
              rw (near, less, most_quiet)
                (takes first path others _ (not_ltb→le limit (path_crowding net path) near)
                  (let q = ltb→lt (path_crowding net path) (path_crowding net first) less in
                    omega (arith, q))
                  (most_quiet-IsQuietest path others))
          | inr more ↦
              rw (near, more, most_quiet)
                (keeps first path others _
                  (λ low. not_ltb→le (path_crowding net path) (path_crowding net first) more)
                  (most_quiet-IsQuietest first others))
        ]
      ]
