-- ===== src/Search/Dijkstra/Linked.antt =====
-- The chains of `previousStop` through the rounds of the search.
use metro_network_monitor.Base.{
  ℕ, suc, ◌≤◌, ◌<◌, ◌≡◌, refl, subst, ◌∙◌, inl, inr, some, List, [], ◌∷◌, arith, ◌==◌, not_==→ne,
  Bool-cases, Elem, nat_eq, lookup, lookup-insert_self, lookup-insert_ne, lookup-insert_cases,
  bytes_eq,
}
use metro_network_monitor.Network.Types.{Network}
use metro_network_monitor.Search.Stops.{PathStop, eq_stop, eq_stop_iff, StopDist, stop_eq}
use metro_network_monitor.Search.Dijkstra.{
  State, neighbor, neighbor_dist, record_neighbor, relax, explore, visit, start,
}
use metro_network_monitor.Search.Dijkstra.Loop.{EdgesInRange}
use metro_network_monitor.Search.Dijkstra.Walks.{AtMost, neighbor_dist_of_lt}
use metro_network_monitor.Search.Dijkstra.Optimal.{
  Relaxed, out, better, worse, relax-Relaxed, relax-AtMost,
}
use metro_network_monitor.Search.Dijkstra.Trails.{IsSmall, Trail-fits, Trail-cost-ge}
use metro_network_monitor.Search.Dijkstra.Sound.{IsSound, AreSound, relax-IsSound}
use metro_network_monitor.Search.Dijkstra.Chains.{IsLink, Chain, root, link, Chain-lookup}

-- The distance recorded for `n` is above `k`, or there is none.
abbrev Above : List (PathStop × ℕ) → PathStop → ℕ → Type 0
Above dist n k = (old : ℕ) → lookup n dist ≡ some old → k < old

module _ (net : Network) (excluded : List PathStop) (b : ℕ) (s : PathStop) where
  abbrev pub HasChains : State → Type 0
  HasChains st =
      (t : PathStop) (k : ℕ) → lookup t st.dist ≡ some k → (n : ℕ) × Chain net excluded b s st t k n

  -- A new distance for `n` leaves the chains of nearer stops as they are.
  Chain-nearer :
      (st : State) (n c : PathStop) (k' : ℕ) {t : PathStop} {k i : ℕ}
      → Above st.dist n k
      → Chain net excluded b s st t k i
      → Chain net excluded b s (record_neighbor st c n k') t k i
  Chain-nearer st n c k' {t} {k} far (root e l q) =
      let other : ¬ (n ≡ t) = λ p. absurd (omega (arith, far k (rw p l))) in
      root e (lookup-insert_ne n t k' st.dist other ∙ l) q
  Chain-nearer st n c k' {t} {k} far (link p j m e o l f h ch q) =
      let other : ¬ (n ≡ t) = λ p. absurd (omega (arith, far k (rw p l))) in
      link p j m e o (lookup-insert_ne n t k' st.dist other ∙ l)
        (lookup-insert_ne n t c st.previous other ∙ f) h
        (Chain-nearer st n c k' (λ old seen. omega (arith, far old seen, h.costs)) ch) q

  -- The queue is no part of a chain.
  pub requeue-Chain :
      (st : State) (rest : List StopDist) {t : PathStop} {k i : ℕ}
      → Chain net excluded b s st t k i
      → Chain net excluded b s (record st { queue = rest }) t k i
  requeue-Chain st rest (root e l q) = root e l q
  requeue-Chain st rest (link p j m e o l f h ch q) =
      link p j m e o l f h (requeue-Chain st rest ch) q

  -- A chain from `t` that is at most `k` long in minutes.
  record Near (st : State) (t : PathStop) (k : ℕ) : Type 0 where
    distance : ℕ
    size : ℕ
    chain : Chain net excluded b s st t distance size
    near : distance ≤ k

  -- Chains through `n` go on with the new chain of `n`.
  Chain-through :
      (st : State) (n c : PathStop) (k' i : ℕ)
      → Above st.dist n k'
      → ¬ (n ≡ s)
      → Chain net excluded b s (record_neighbor st c n k') n k' i
      → {t : PathStop} {k m : ℕ} → Chain net excluded b s st t k m
      → Near (record_neighbor st c n k') t k
  Chain-through st n c k' i far o new {t} {k} (root e l q) =
      let other : ¬ (n ≡ t) = λ p. o (p ∙ e) in
      record {
        distance = k;
        size = 0;
        chain = root e (lookup-insert_ne n t k' st.dist other ∙ l) refl;
        near = omega arith;
      }
  Chain-through st n c k' i far o new {t} {k} (link p j m e o' l f h ch q) =
      let behind = Chain-through st n c k' i far o new ch in
      elim (Bool-cases (eq_stop n t)) [
        | inl same ↦
            let eq : n ≡ t = (eq_stop_iff n t).0 same in
            record {
              distance = k';
              size = i;
              chain = subst (λ v. Chain net excluded b s (record_neighbor st c n k') v k' i) eq new;
              near = omega (arith, far k (rw eq l));
            }
        | inr differ ↦
            let other : ¬ (n ≡ t) = λ e'. cc ((eq_stop_iff n t).1 e') in
            record {
              distance = k;
              size = suc behind.size;
              chain =
                  link p behind.distance behind.size e o'
                    (lookup-insert_ne n t k' st.dist other ∙ l)
                    (lookup-insert_ne n t c st.previous other ∙ f)
                    (record {
                      leads = h.leads;
                      away = h.away;
                      leaves = h.leaves;
                      kept = h.kept;
                      costs = omega (arith, behind.near, h.costs);
                    })
                    behind.chain refl;
              near = omega arith;
            }
      ]

  -- A better distance for a neighbor `n` of `c`, which stands at most `d` away.
  record_neighbor-HasChains :
      (st : State) (n c : PathStop) (k' d e : ℕ)
      → Above st.dist n k'
      → ¬ (n ≡ s)
      → AtMost st.dist c d
      → IsLink net excluded b c d e n k'
      → HasChains st
      → HasChains (record_neighbor st c n k')
  record_neighbor-HasChains st n c k' d e far o (x, seen, l) h a = λ t k found.
      let st' = record_neighbor st c n k' in
      let (i, ch) = a c x seen in
      let to_c : Chain net excluded b s st' c x i =
        Chain-nearer st n c k' (λ old q. omega (arith, far old q, h.costs)) ch in
      let new : Chain net excluded b s st' n k' (suc i) =
        link c x i e o (lookup-insert_self n k' st.dist) (lookup-insert_self n c st.previous)
          (record {
            leads = h.leads;
            away = h.away;
            leaves = h.leaves;
            kept = h.kept;
            costs = omega (arith, l, h.costs);
          })
          to_c refl in
      elim (lookup-insert_cases n t k' k st.dist found) [
        | inl (p, q) ↦ (
          suc i,
          subst (λ (y : StopDist). Chain net excluded b s st' y.0 y.1 (suc i)) (λ z. (p z, q z))
              new,
        )
        | inr old ↦
            let near = Chain-through st n c k' (suc i) far o new (a t k old).1 in
            let same : near.distance ≡ k = cc (Chain-lookup net excluded b s near.chain) in
            (near.size, subst (λ v. Chain net excluded b s st' t v near.size) same near.chain)
      ]

module _ (net : Network) (excluded : List PathStop) (b : ℕ) (s : PathStop) (d w : ℕ)
    (r : EdgesInRange net) (small : IsSmall net d w) where
  relax-HasChains :
      (c : StopDist) (st : State) (e : ℕ) {st' : State}
      → ¬ (c.0.node ≡ b)
      → Elem e (net.node c.0.node).edges
      → IsSound net excluded b s d st c.0 c.1
      → AtMost st.dist s d
      → Relaxed net excluded b c st e st'
      → HasChains net excluded b s st
      → HasChains net excluded b s st'
  relax-HasChains c st e away m h low (out _) a = a
  relax-HasChains c st e away m h low (worse _ _ _ _) a = a
  relax-HasChains (t, k) st e away m h (x, seen, l) (better kept i) a =
      let sum =
        neighbor_dist_of_lt net t k e
          (Trail-fits net excluded b s d w e r small h.trail h.distinct) in
      let far : Above st.dist (neighbor net e) (neighbor_dist net (t, k) e) =
        λ old q. ground arith in
      record_neighbor-HasChains net excluded b s st (neighbor net e) t (neighbor_dist net (t, k) e)
        k e far
        (λ p. omega (arith, far x (rw p seen), sum, Trail-cost-ge net excluded b s d h.trail))
        (h.nearer t (inl refl))
        (record { leads = refl; away = away; leaves = m; kept = kept; costs = omega (arith, sum) })
        a

  explore-HasChains :
      (c : StopDist) (st : State) (es : List ℕ)
      → ¬ (c.0.node ≡ b)
      → ((e : ℕ) → Elem e es → Elem e (net.node c.0.node).edges)
      → IsSound net excluded b s d st c.0 c.1
      → AtMost st.dist s d
      → HasChains net excluded b s st
      → HasChains net excluded b s (explore net excluded c st es)
  unfolding explore
  explore-HasChains c st [] away m h low a = a
  explore-HasChains c st (e ∷ es) away m h low a =
      let step = relax-Relaxed net excluded b c st e in
      explore-HasChains c (relax net excluded c st e) es away (λ x q. m x (inr q))
        (relax-IsSound net excluded b s d c st e c.0 c.1 step h)
        (relax-AtMost net excluded b c st e s d step low)
        (relax-HasChains c st e away (m e (inl refl)) h low step a)

  -- One round keeps the chains.
  pub visit-HasChains :
      (st : State) (c : StopDist) (rest : List StopDist)
      → AreSound net excluded b s d st
      → AtMost st.dist s d
      → Elem c st.queue
      → HasChains net excluded b s st
      → HasChains net excluded b s (visit net excluded b (record st { queue = rest }) c)
  unfolding visit
  visit-HasChains st (t, k) rest sound low q a =
      let st0 = record st { queue = rest } in
      let h = sound.queued t k q in
      let h0 : IsSound net excluded b s d st0 t k = record {
        before = h.before;
        trail = h.trail;
        distinct = h.distinct;
        nearer = h.nearer;
      } in
      let a0 : HasChains net excluded b s st0 =
        λ u j l. let (n, ch) = a u j l in (n, requeue-Chain net excluded b s st rest ch) in
      elim (Bool-cases (t.node == b)) [
        | inl there ↦ rw there a0
        | inr away ↦ rw away (
            explore-HasChains (t, k) st0 (net.node t.node).edges (not_==→ne t.node b away)
              (λ x p. p) h0 low a0)
      ]

pub start-HasChains :
    (net : Network) (excluded : List PathStop) (b : ℕ) (s : PathStop) (d : ℕ)
    → HasChains net excluded b s (start (s, d))
unfolding lookup
start-HasChains net excluded b s d = λ t k l. (0, root (ground (arith, eq_stop_iff s t)) l refl)
