-- ===== src/Search/Dijkstra/Correct.antt =====
-- The end of the search: its invariant and the least costs.
use metro_network_monitor.Base.{
  ℕ, ◌≤◌, ◌<◌, ◌≡◌, refl, subst, ◌↔◌, inl, inr, none, some, List, [], ◌∷◌, arith, ◌==◌, Bool-cases,
  u32_mod, Elem, nat_eq, lookup, IsUnique, insert-IsUnique, bytes_eq,
}
use metro_network_monitor.Network.Types.{Network, returns}
use metro_network_monitor.Search.Stops.{PathStop, eq_stop_iff, StopDist, stop_eq, dist_of}
use metro_network_monitor.Search.Queue.{PopRule}
use metro_network_monitor.Search.Dijkstra.{
  State, neighbor, neighbor_dist, contains, improves, relax, explore, loop, rounds, start, visit,
}
use metro_network_monitor.Search.Dijkstra.Loop.{EdgesInRange, loop_rule, loop_returns}
use metro_network_monitor.Search.Dijkstra.Walks.{Walk, here, go, AtMost, neighbor_dist_of_lt}
use metro_network_monitor.Search.Dijkstra.Optimal.{
  IsClosed, visit-IsClosed, visit-AtMost, Walk-AtMost,
}
use metro_network_monitor.Search.Dijkstra.Trails.{IsSmall, Trail-Walk, Trail-fits}
use metro_network_monitor.Search.Dijkstra.Sound.{AreSound, visit-AreSound, start-AreSound}
use metro_network_monitor.Search.Dijkstra.Linked.{HasChains, visit-HasChains, start-HasChains}

start-IsClosed :
    (net : Network) (excluded : List PathStop) (b : ℕ) (s : PathStop) (d : ℕ)
    → IsClosed net excluded b (start (s, d))
unfolding lookup
start-IsClosed net excluded b s d = λ t k l. inl (inl (ground (arith, eq_stop_iff s t)))

lookup-nil : (s : PathStop) → lookup {V = ℕ} s [] ≡ none
unfolding lookup
lookup-nil s = refl

start-AtMost : (s : PathStop) (d : ℕ) → AtMost (start (s, d)).dist s d
unfolding lookup
start-AtMost s d = (d, ground (arith, eq_stop_iff s s), omega arith)

module _ (net : Network) (excluded : List PathStop) where
  relax-IsUnique :
      (c : StopDist) (st : State) (e : ℕ)
      → IsUnique st.dist
      → IsUnique (relax net excluded c st e).dist
  unfolding relax
  relax-IsUnique (s, d) st e u =
      let n = neighbor net e in
      let d' = neighbor_dist net (s, d) e in
      elim (Bool-cases (contains excluded n)) [
        | inl o ↦ rw o u
        | inr k ↦ rw k (elim (Bool-cases (improves d' (lookup n st.dist))) [
          | inl i ↦ rw i (insert-IsUnique n d' st.dist u)
          | inr w ↦ rw w u
        ])
      ]

  explore-IsUnique :
      (c : StopDist) (st : State) (es : List ℕ)
      → IsUnique st.dist
      → IsUnique (explore net excluded c st es).dist
  unfolding explore
  explore-IsUnique c st [] u = u
  explore-IsUnique c st (e ∷ es) u =
      explore-IsUnique c (relax net excluded c st e) es (relax-IsUnique c st e u)

  visit-IsUnique :
      (b : ℕ) (st : State) (c : StopDist)
      → IsUnique st.dist
      → IsUnique (visit net excluded b st c).dist
  unfolding visit
  visit-IsUnique b st (s, d) u = elim (Bool-cases (s.node == b)) [
    | inl there ↦ rw there u
    | inr away ↦ rw away (explore-IsUnique (s, d) st (net.node s.node).edges u)
  ]

-- The least cost of the walks from `(s, d)` to `t`.
abbrev pub IsLeast : Network → List PathStop → ℕ → PathStop → ℕ → PathStop → ℕ → Type 0
IsLeast net excluded b s d t k =
    Walk net excluded b s d t k × ((c : ℕ) → Walk net excluded b s d t c → k ≤ c)

module _ (pops : PopRule dist_of) (net : Network) (excluded : List PathStop) (b : ℕ) (s : PathStop)
    (d : ℕ) where
  -- What the loop keeps whatever the sums are.
  abbrev Kept : State → Type 0
  Kept st = IsClosed net excluded b st × AtMost st.dist s d

  visit-Kept :
      (st : State) (c : StopDist) (rest : List StopDist)
      → Kept st
      → ((z : StopDist) → Elem z st.queue ↔ Elem z (c ∷ rest))
      → Kept (visit net excluded b (record st { queue = rest }) c)
  visit-Kept st c rest (h, a) m = (
    visit-IsClosed net excluded b st c rest h m,
    visit-AtMost net excluded b (record st { queue = rest }) c s d a,
  )

  -- The search ends, and no walk that costs less than 2^32 beats the distance recorded for its end.
  pub search_optimal :
      EdgesInRange net
      → d < u32_mod
      → (st : State) × (loop pops (rounds net) net excluded b (start (s, d)) ≡ returns st)
        × ((t : PathStop) (c : ℕ) → Walk net excluded b s d t c → c < u32_mod → AtMost st.dist t c)
  search_optimal r small =
      let (st, e) = loop_returns pops net excluded b s d r small in
      let ((h, a), q) =
        loop_rule pops net excluded b Kept (λ st' c rest p m _. visit-Kept st' c rest p m)
          (rounds net) (start (s, d)) st (start-IsClosed net excluded b s d, start-AtMost s d) e in
      (st, e, λ t c walk below. Walk-AtMost net excluded b st h q a walk below)

  -- Where all distances are sound, no walk at all does.
  pub Walk-AtMost_sound :
      (w : ℕ) (st : State)
      → EdgesInRange net
      → IsSmall net d w
      → Kept st
      → st.queue ≡ []
      → AreSound net excluded b s d st
      → {t : PathStop} {c : ℕ} → Walk net excluded b s d t c
      → AtMost st.dist t c
  Walk-AtMost_sound w st r small kept q a here = kept.1
  Walk-AtMost_sound w st r small kept q a (go {t} {c} e walk n m k) =
      let (x, seen, l) = Walk-AtMost_sound w st r small kept q a walk in
      let h = a.recorded t x seen in
      let fits = Trail-fits net excluded b s d w e r small h.trail h.distinct in
      elim (kept.0 t x seen) [
        | inl queued ↦ absurd (subst (Elem (t, x)) q queued).1
        | inr (inl there) ↦ absurd (n there)
        | inr (inr f) ↦
            let (y, found, l') = f e m k in
            (y, found, omega (arith, neighbor_dist_of_lt net t x e fits))
      ]

  -- What the loop keeps while no sum reaches 2^32.
  pub record Invariant (st : State) : Type 0 where
    pub kept : IsClosed net excluded b st × AtMost st.dist s d
    pub sound : AreSound net excluded b s d st
    pub chains : HasChains net excluded b s st
    pub unique : IsUnique st.dist

  module _ (w : ℕ) (r : EdgesInRange net) (small : IsSmall net d w) where
    visit-Invariant :
        (st : State) (c : StopDist) (rest : List StopDist)
        → Invariant st
        → ((z : StopDist) → Elem z st.queue ↔ Elem z (c ∷ rest))
        → Invariant (visit net excluded b (record st { queue = rest }) c)
    visit-Invariant st c rest h m = record {
      kept = visit-Kept st c rest h.kept m;
      sound = visit-AreSound net excluded b s d w r small st c rest h.sound m;
      chains =
          visit-HasChains net excluded b s d w r small st c rest h.sound h.kept.1
            ((m c).1 (inl refl)) h.chains;
      unique = visit-IsUnique net excluded b (record st { queue = rest }) c h.unique;
    }

    start-Invariant : Invariant (start (s, d))
    start-Invariant = record {
      kept = (start-IsClosed net excluded b s d, start-AtMost s d);
      sound = start-AreSound net excluded b s d w r small;
      chains = start-HasChains net excluded b s d;
      unique = (lookup-nil s, tt);
    }

    -- The search ends with the invariant and an empty queue.
    pub search_ends :
        (st : State) × (loop pops (rounds net) net excluded b (start (s, d)) ≡ returns st)
        × Invariant st
        × (st.queue ≡ [])
    search_ends =
        let (st, e) = loop_returns pops net excluded b s d r (omega (arith, small.fits)) in
        let (h, q) =
          loop_rule pops net excluded b Invariant
            (λ st' c rest p m _. visit-Invariant st' c rest p m) (rounds net) (start (s, d)) st
            start-Invariant e in
        (st, e, h, q)

    -- Then a distance is recorded exactly when it is the least cost.
    pub lookup-IsLeast :
        (st : State) (t : PathStop) (k : ℕ)
        → Invariant st
        → st.queue ≡ []
        → (lookup t st.dist ≡ some k) ↔ IsLeast net excluded b s d t k
    lookup-IsLeast st t k h q = (
      λ l. (
        Trail-Walk net excluded b s d (h.sound.recorded t k l).trail,
        λ c walk.
            let (x, seen, le) = Walk-AtMost_sound w st r small h.kept q h.sound walk in
            ground arith,
      ),
      λ (walk, low).
          let (x, seen, le) = Walk-AtMost_sound w st r small h.kept q h.sound walk in
          let walk' = Trail-Walk net excluded b s d (h.sound.recorded t x seen).trail in
          let eq : x ≡ k = omega (arith, low x walk') in rw (← eq) seen,
    )

    -- When the edges are all allocated and no sum of travel times can reach 2^32, the loop of the search ends, and it has recorded
    -- a distance for a stop exactly when that is the least cost of the walks to the stop.
    pub search_exact :
        (st : State) × (loop pops (rounds net) net excluded b (start (s, d)) ≡ returns st)
        × ((t : PathStop) (k : ℕ) → (lookup t st.dist ≡ some k) ↔ IsLeast net excluded b s d t k)
    search_exact = let (st, e, h, q) = search_ends in (st, e, λ t k. lookup-IsLeast st t k h q)
