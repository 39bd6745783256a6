-- ===== src/Search/Dijkstra/Chains.antt =====
-- The chains of `previousStop`: from a stop that has a distance back to the start, over edges of the
-- network.
use metro_network_monitor.Base.{
  ℕ, suc, ◌+◌, ◌≤◌, ◌<◌, ◌≡◌, refl, sym, ap, subst, ◌∙◌, inl, inr, false, some, List, [], ◌∷◌, map,
  arith, length, Elem, Distinct, length-le_of_Distinct, length-map, Elem-map, nat_eq, lookup,
  Elem-of_lookup, bytes_eq,
}
use metro_network_monitor.Network.Types.{Network}
use metro_network_monitor.Search.Stops.{PathStop, stop_eq}
use metro_network_monitor.Search.Dijkstra.{State, contains, neighbor}
use metro_network_monitor.Search.Dijkstra.Walks.{weight}

-- The edge `e` leads from `p` to `t`, and the distances differ by its weight at least.
pub record IsLink (net : Network) (excluded : List PathStop) (b : ℕ) (p : PathStop) (j e : ℕ)
    (t : PathStop) (k : ℕ) : Type 0 where
  pub leads : t ≡ neighbor net e
  pub away : ¬ (p.node ≡ b)
  pub leaves : Elem e (net.node p.node).edges
  pub kept : contains excluded (neighbor net e) ≡ false
  pub costs : j + weight net p.edge e ≤ k

module _ (net : Network) (excluded : List PathStop) (b : ℕ) (s : PathStop) where
  -- The chain from `t`, at distance `k`, with its length.
  pub data Chain (st : State) : PathStop → ℕ → ℕ → Type 0 where
    root : {t : PathStop} {k n : ℕ} → t ≡ s → lookup t st.dist ≡ some k → n ≡ 0 → Chain st t k n
    link :
        {t : PathStop} {k n : ℕ} (p : PathStop) (j m e : ℕ)
        → ¬ (t ≡ s)
        → lookup t st.dist ≡ some k
        → lookup t st.previous ≡ some p
        → IsLink net excluded b p j e t k
        → Chain st p j m
        → n ≡ suc m
        → Chain st t k n

  pub Chain-lookup :
      {st : State} {t : PathStop} {k n : ℕ} → Chain st t k n → lookup t st.dist ≡ some k
  Chain-lookup (root _ l _) = l
  Chain-lookup (link _ _ _ _ _ l _ _ _ _) = l

  -- A chain has one length.
  pub Chain-length :
      {st : State} {t : PathStop} {k n : ℕ} {t' : PathStop} {k' n' : ℕ}
      → Chain st t k n
      → Chain st t' k' n'
      → t ≡ t'
      → n ≡ n'
  Chain-length (root p _ q) (root p' _ q') e = q ∙ sym q'
  Chain-length (root p _ q) (link _ _ _ _ other _ _ _ _ _) e = absurd (other (sym e ∙ p))
  Chain-length (link _ _ _ _ other _ _ _ _ _) (root p _ q) e = absurd (other (e ∙ p))
  Chain-length (link p j m _ _ _ f _ c q) (link p' j' m' _ _ _ f' _ c' q') e =
      q ∙ ap suc (Chain-length c c' (ground arith)) ∙ sym q'

  -- The stops behind `t`.
  stops : {st : State} {t : PathStop} {k n : ℕ} → Chain st t k n → List PathStop
  stops (root _ _ _) = []
  stops (link p _ _ _ _ _ _ _ c _) = p ∷ stops c

  length-stops : {st : State} {t : PathStop} {k n : ℕ} (c : Chain st t k n) → length (stops c) ≡ n
  unfolding stops
  length-stops (root _ _ q) = sym q
  length-stops (link p _ _ _ _ _ _ _ c q) = ap suc (length-stops c) ∙ sym q

  -- They have shorter chains, so none of them comes twice.
  stops-shorter :
      {st : State} {t : PathStop} {k n : ℕ} (c : Chain st t k n) (v : PathStop)
      → Elem v (stops c)
      → (j m : ℕ) × Chain st v j m × (m < n)
  unfolding stops
  stops-shorter (root _ _ q) v h = absurd h.1
  stops-shorter {st} (link p j m _ _ _ _ _ c q) v (inl e) =
      (j, m, subst (λ w. Chain st w j m) (sym e) c, omega (arith, q))
  stops-shorter (link p j m _ _ _ _ _ c q) v (inr h) =
      let (j', m', c', l) = stops-shorter c v h in (j', m', c', omega (arith, q, l))

  stops-Distinct : {st : State} {t : PathStop} {k n : ℕ} (c : Chain st t k n) → Distinct (stops c)
  unfolding stops
  stops-Distinct (root _ _ q) = tt
  stops-Distinct (link p j m _ _ _ _ _ c q) = (
    λ h. let (j', m', c', l) = stops-shorter c p h in omega (arith, Chain-length c c' refl, l),
    stops-Distinct c,
  )

  -- So a chain is at most as long as the map of distances.
  pub Chain-length-le : {st : State} {t : PathStop} {k n : ℕ} → Chain st t k n → n ≤ length st.dist
  Chain-length-le {st} {t} {k} {n} c = omega (
    arith,
    length-stops c,
    length-map (λ (x : PathStop × ℕ). x.0) st.dist,
    length-le_of_Distinct (stops c) (map (λ x. x.0) st.dist) (stops-Distinct c) (λ v h.
        let (j, m, c', _) = stops-shorter c v h in
        Elem-map (λ (x : PathStop × ℕ). x.0) (v, j) st.dist
          (Elem-of_lookup v j st.dist (Chain-lookup c'))),
  )
