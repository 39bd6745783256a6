-- ===== src/Search/Dijkstra/Trails.antt =====
-- Walks that keep the list of their stops, and the bound on the sums.
use metro_network_monitor.Base.{
  ℕ, zero, suc, ◌+◌, ◌*◌, ◌≤◌, ◌<◌, ◌≡◌, refl, sym, ap, subst, inl, inr, List, [], ◌∷◌, false,
  Option, arith, Elem, Distinct, length, length-le_of_Distinct, u32_mod, Bool-cases, ◌==◌,
}
use metro_network_monitor.Network.Types.{Network}
use metro_network_monitor.Search.Stops.{PathStop, stop_eq}
use metro_network_monitor.Search.Dijkstra.{contains, neighbor}
use metro_network_monitor.Search.Dijkstra.Loop.{EdgesInRange}
use metro_network_monitor.Search.Dijkstra.Walks.{Walk, here, go, weight}

-- The stops that edges lead to.
stops_below : Network → ℕ → List PathStop
stops_below net zero = []
stops_below net (suc k) = neighbor net k ∷ stops_below net k

length-stops_below : (net : Network) (k : ℕ) → length (stops_below net k) ≡ k
unfolding stops_below
length-stops_below net zero = refl
length-stops_below net (suc k) = ap suc (length-stops_below net k)

Elem-stops_below : (net : Network) (k e : ℕ) → e < k → Elem (neighbor net e) (stops_below net k)
unfolding stops_below
Elem-stops_below net zero e h = elim h [ ]
Elem-stops_below net (suc k) e h = elim (Bool-cases (e == k)) [
  | inl last ↦ inl (ap (neighbor net) (ground arith))
  | inr more ↦ inr (Elem-stops_below net k e (ground arith))
]

-- All times are at most `w`, and as many of them as there are edges fit below 2^32.
pub record IsSmall (net : Network) (d w : ℕ) : Type 0 where
  pub times : (e : ℕ) → (net.edge e).travel_time ≤ w
  pub fits : d + (net.edge_count + 1) * (w + 5) < u32_mod

module _ (net : Network) (excluded : List PathStop) (b : ℕ) (s : PathStop) (d : ℕ) where
  -- A walk with the stops before its end.
  pub data Trail : PathStop → ℕ → List PathStop → Type 0 where
    begin : Trail s d []
    onward :
        {t : PathStop} {c : ℕ} {vs : List PathStop} (e : ℕ)
        → Trail t c vs
        → ¬ (t.node ≡ b)
        → Elem e (net.node t.node).edges
        → contains excluded (neighbor net e) ≡ false
        → Trail (neighbor net e) (c + weight net t.edge e) (t ∷ vs)

  pub Trail-Walk :
      {t : PathStop} {c : ℕ} {vs : List PathStop} → Trail t c vs → Walk net excluded b s d t c
  Trail-Walk begin = here
  Trail-Walk (onward e w n m k) = go e (Trail-Walk w) n m k

  weight-le :
      (w : ℕ) (before : Option ℕ) (e : ℕ)
      → (net.edge e).travel_time ≤ w
      → weight net before e ≤ w + 5
  weight-le w before e h = ground arith

  pub Trail-cost-le :
      {t : PathStop} {c : ℕ} {vs : List PathStop} (w : ℕ)
      → ((e : ℕ) → (net.edge e).travel_time ≤ w)
      → Trail t c vs
      → c ≤ d + length vs * (w + 5)
  Trail-cost-le w h begin = omega arith
  Trail-cost-le w h (onward {t} {c} {vs} e tr' n m k) =
      grind (arith, Trail-cost-le w h tr', weight-le w t.edge e (h e))

  Trail-stops :
      {t : PathStop} {c : ℕ} {vs : List PathStop} (z : PathStop)
      → EdgesInRange net
      → Trail t c vs
      → Elem z (t ∷ vs)
      → Elem z (s ∷ stops_below net net.edge_count)
  Trail-stops z r begin (inl p) = inl p
  Trail-stops z r begin (inr m) = absurd m.1
  Trail-stops z r (onward {t} e tr' n m k) (inl p) = inr (
      subst (λ v. Elem v (stops_below net net.edge_count)) (sym p)
        (Elem-stops_below net net.edge_count e (r.in_range t.node e m)))
  Trail-stops z r (onward e tr' n m k) (inr q) = Trail-stops z r tr' q

  -- So one more edge stays below 2^32.
  -- Costs only grow.
  pub Trail-cost-ge : {t : PathStop} {c : ℕ} {vs : List PathStop} → Trail t c vs → d ≤ c
  Trail-cost-ge begin = omega arith
  Trail-cost-ge (onward e walk n m k) = omega (arith, Trail-cost-ge walk)

  pub Trail-fits :
      {t : PathStop} {c : ℕ} {vs : List PathStop} (w e : ℕ)
      → EdgesInRange net
      → IsSmall net d w
      → Trail t c vs
      → Distinct (t ∷ vs)
      → c + weight net t.edge e < u32_mod
  Trail-fits {t} {c} {vs} w e r small tr' distinct =
      let few : length vs ≤ net.edge_count = omega (
        arith,
        length-le_of_Distinct (t ∷ vs) (s ∷ stops_below net net.edge_count) distinct
            (λ z q. Trail-stops z r tr' q),
        length-stops_below net net.edge_count,
      ) in
      grind (
        arith,
        few,
        Trail-cost-le w small.times tr',
        weight-le w t.edge e (small.times e),
        small.fits,
      )
