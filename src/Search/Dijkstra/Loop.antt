-- ===== src/Search/Dijkstra/Loop.antt =====
-- The `while` loop of the search: its measure, and a rule for what it keeps.
use metro_network_monitor.Base.{
  ℕ, zero, suc, ◌+◌, ◌*◌, ◌≤◌, ◌<◌, ◌≡◌, refl, ap, inl, inr, List, [], ◌∷◌, true, Option, none,
  some, arith, lookup, insert, lookup-insert, length, Elem, u32_mod, Bool-cases, Option-cases,
  add_u32-lt, add_u32, ◌==◌, ==→eq, not_==→ne, subst, ◌↔◌,
}
use metro_network_monitor.Network.Types.{Network, returns}
use metro_network_monitor.Search.Stops.{PathStop, eq_stop, eq_stop_iff, stop_eq, StopDist, dist_of}
use metro_network_monitor.Search.Queue.{PopRule}
use metro_network_monitor.Search.Dijkstra.{
  State, contains, neighbor, neighbor_dist, improves, relax, explore, visit, loop, rounds, start,
}

-- Every edge that leaves a node is allocated.
pub record EdgesInRange (net : Network) : Type 0 where
  pub in_range : (p e : ℕ) → Elem e (net.node p).edges → e < net.edge_count

abbrev pub cost : Option ℕ → ℕ
cost none = u32_mod
cost (some d) = d

-- The sum of the distances recorded for the stops that edges lead to; an unseen stop counts 2^32.
pub potential : Network → List (PathStop × ℕ) → ℕ → ℕ
potential net dist zero = 0
potential net dist (suc k) = cost (lookup (neighbor net k) dist) + potential net dist k

pub neighbor_dist-lt : (net : Network) (c : StopDist) (e : ℕ) → neighbor_dist net c e < u32_mod
unfolding neighbor_dist
neighbor_dist-lt net (s, d) e = ground (
  arith,
  add_u32-lt d (net.edge e).travel_time,
  add_u32-lt (add_u32 d (net.edge e).travel_time) 5,
)

module _ (net : Network) where
  -- Recording a smaller distance lowers the entry of that stop and no other.
  cost-insert :
      (n s : PathStop) (d : ℕ) (dist : List (PathStop × ℕ))
      → improves d (lookup n dist) ≡ true
      → d < u32_mod
      → (cost (lookup s (insert n d dist)) ≤ cost (lookup s dist))
        × (s ≡ n → cost (lookup s (insert n d dist)) < cost (lookup s dist))
  cost-insert n s d dist better small =
      rw (lookup-insert n s d dist) (elim (Bool-cases (eq_stop n s)) [
        | inl same ↦
            let e : n ≡ s = (eq_stop_iff n s).0 same in
            elim (Option-cases (lookup s dist)) [
              | inl new ↦ rw (same, new) (omega arith, λ _. omega arith)
              | inr (old, seen) ↦ ground arith
            ]
        | inr other ↦ ground (arith, eq_stop_iff n s)
      ])

  potential-insert-le :
      (k : ℕ) (n : PathStop) (d : ℕ) (dist : List (PathStop × ℕ))
      → improves d (lookup n dist) ≡ true
      → d < u32_mod
      → potential net (insert n d dist) k ≤ potential net dist k
  unfolding potential
  potential-insert-le zero n d dist better small = omega arith
  potential-insert-le (suc k) n d dist better small = omega (
    arith,
    cost-insert n (neighbor net k) d dist better small,
    potential-insert-le k n d dist better small,
  )

  potential-insert-lt :
      (k e : ℕ) (d : ℕ) (dist : List (PathStop × ℕ))
      → e < k
      → improves d (lookup (neighbor net e) dist) ≡ true
      → d < u32_mod
      → potential net (insert (neighbor net e) d dist) k < potential net dist k
  unfolding potential
  potential-insert-lt zero e d dist h better small = elim h [ ]
  potential-insert-lt (suc k) e d dist h better small = elim (Bool-cases (k == e)) [
    | inl last ↦ omega (
      arith,
      (cost-insert (neighbor net e) (neighbor net k) d dist better small).1
          (ap (neighbor net) (==→eq k e last)),
      potential-insert-le k (neighbor net e) d dist better small,
    )
    | inr more ↦ omega (
      arith,
      cost-insert (neighbor net e) (neighbor net k) d dist better small,
      potential-insert-lt k e d dist (omega (arith, not_==→ne k e more)) better small,
    )
  ]

-- What falls in each round.
abbrev pub work : Network → State → ℕ
work net st = length st.queue + potential net st.dist net.edge_count

module _ (net : Network) (excluded : List PathStop) where
  relax-work-le :
      (c : StopDist) (st : State) (e : ℕ)
      → e < net.edge_count
      → work net (relax net excluded c st e) ≤ work net st
  unfolding relax
  relax-work-le (s, d) st e h =
      let d' = neighbor_dist net (s, d) e in
      elim (Bool-cases (contains excluded (neighbor net e))) [
        | inl out ↦ rw out (omega arith)
        | inr kept ↦ rw kept (elim (Bool-cases (improves d' (lookup (neighbor net e) st.dist))) [
          | inl better ↦ rw better (
              omega (
                arith,
                potential-insert-lt net net.edge_count e d' st.dist h better
                    (neighbor_dist-lt net (s, d) e),
              ))
          | inr worse ↦ rw worse (omega arith)
        ])
      ]

  explore-work-le :
      (c : StopDist) (st : State) (es : List ℕ)
      → ((e : ℕ) → Elem e es → e < net.edge_count)
      → work net (explore net excluded c st es) ≤ work net st
  unfolding explore
  explore-work-le c st [] h = omega arith
  explore-work-le c st (e ∷ es) h = omega (
    arith,
    explore-work-le c (relax net excluded c st e) es (λ f m. h f (inr m)),
    relax-work-le c st e (h e (inl refl)),
  )

  pub visit-work-le :
      (b : ℕ) (st : State) (c : StopDist)
      → EdgesInRange net
      → work net (visit net excluded b st c) ≤ work net st
  unfolding visit
  visit-work-le b st (s, d) h = elim (Bool-cases (s.node == b)) [
    | inl there ↦ rw there (omega arith)
    | inr away ↦ rw away (explore-work-le (s, d) st (net.node s.node).edges (h.in_range s.node))
  ]

module _ (pops : PopRule dist_of) where
  -- What `pop` gives: the end of the queue, or its least entry.
  pub data Popped (queue : List StopDist) : Type 0 where
    ended : queue ≡ [] → pops.pop queue ≡ none → Popped queue
    took :
        (c : StopDist) (rest : List StopDist)
        → pops.pop queue ≡ some (c, rest)
        → suc (length rest) ≡ length queue
        → ((z : StopDist) → Elem z queue ↔ Elem z (c ∷ rest))
        → ((z : StopDist) → Elem z rest → dist_of c ≤ dist_of z)
        → Popped queue

  pub pop-Popped : (queue : List StopDist) → Popped queue
  pop-Popped [] = ended refl pops.pop_nil
  pop-Popped (x ∷ xs) =
      let (y, rest, e, l, m, k) = pops.pop_cons x xs in took y rest e (ap suc l) m k

  module _ (net : Network) (excluded : List PathStop) (b : ℕ) where
    loop_ends :
        (fuel : ℕ) (st : State)
        → EdgesInRange net
        → work net st < fuel
        → (st' : State) × (loop pops fuel net excluded b st ≡ returns st')
    unfolding loop
    loop_ends zero st h w = absurd (omega arith)
    loop_ends (suc fuel) st h w = elim (pop-Popped st.queue) [
      | ended _ e ↦ (st, rw (e, loop))
      | took c rest e l _ _ ↦
          let (st', ends) =
            loop_ends fuel (visit net excluded b (record st { queue = rest }) c) h
              (omega (arith, visit-work-le net excluded b (record st { queue = rest }) c h)) in
          (st', rw (e, loop) ends)
    ]

    -- What one round keeps holds when the loop has ended, with an empty queue.
    pub loop_rule {ℓ} :
        (P : State → Type ℓ)
        → ((st : State) (c : StopDist) (rest : List StopDist)
            → P st
            → ((z : StopDist) → Elem z st.queue ↔ Elem z (c ∷ rest))
            → ((z : StopDist) → Elem z rest → dist_of c ≤ dist_of z)
            → P (visit net excluded b (record st { queue = rest }) c))
        → (fuel : ℕ) (st st' : State) → P st
        → loop pops fuel net excluded b st ≡ returns st'
        → P st' × (st'.queue ≡ [])
    unfolding loop
    loop_rule P keep zero st st' p h = ground arith
    loop_rule P keep (suc fuel) st st' p h = elim (pop-Popped st.queue) [
      | ended q e ↦
          let same : st ≡ st' = ground arith in subst (λ t. P t × (t.queue ≡ [])) same (p, q)
      | took c rest e l m k ↦
          loop_rule P keep fuel (visit net excluded b (record st { queue = rest }) c) st'
            (keep st c rest p m k) (rw (e, loop) at h)
    ]

potential-start-le :
    (net : Network) (s : PathStop) (d k : ℕ)
    → d < u32_mod
    → potential net ((s, d) ∷ []) k ≤ k * u32_mod
unfolding potential lookup
potential-start-le net s d zero h = omega arith
potential-start-le net s d (suc k) h = elim (Bool-cases (eq_stop s (neighbor net k))) [
  | inl same ↦ rw same (omega (arith, potential-start-le net s d k h))
  | inr other ↦ rw other (omega (arith, potential-start-le net s d k h))
]

-- The loop of the search ends, within the rounds given, when the edges of all nodes are allocated and
-- the distance of the first stop is below 2^32; the sums of travel times may wrap around.
pub loop_returns :
    (pops : PopRule dist_of) (net : Network) (excluded : List PathStop) (b : ℕ) (s : PathStop)
    (d : ℕ)
    → EdgesInRange net
    → d < u32_mod
    → (st : State) × (loop pops (rounds net) net excluded b (start (s, d)) ≡ returns st)
unfolding rounds
loop_returns pops net excluded b s d h small =
    loop_ends pops net excluded b (suc ((net.edge_count + 2) * u32_mod)) (start (s, d)) h
      (omega (arith, potential-start-le net s d net.edge_count small))
