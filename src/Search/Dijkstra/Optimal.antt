-- ===== src/Search/Dijkstra/Optimal.antt =====
-- The distances recorded against the walks that stay below 2^32.
use metro_network_monitor.Base.{
  ℕ, ◌≤◌, ◌<◌, ◌≡◌, ◌⊎◌, inl, inr, List, [], ◌∷◌, true, false, some, arith, Elem, u32_mod, lookup,
  insert, lookup-insert, lookup-insert_self, Bool-cases, Option-cases, lookup-insert_cases, sym,
  subst, ap, ◌∙◌, ◌↔◌, ◌==◌, ==→eq, lookup,
}
use metro_network_monitor.Network.Types.{Network}
use metro_network_monitor.Search.Stops.{PathStop, eq_stop, eq_stop_iff, StopDist, stop_eq}
use metro_network_monitor.Search.Dijkstra.{
  State, contains, neighbor, neighbor_dist, improves, record_neighbor, relax, explore, visit,
}
use metro_network_monitor.Search.Dijkstra.Walks.{Walk, here, go, AtMost, neighbor_dist_of_lt}

module _ (net : Network) (excluded : List PathStop) (b : ℕ) where
  -- The three cases of `relax`.
  pub data Relaxed (c : StopDist) (st : State) (e : ℕ) : State → Type 0 where
    out : contains excluded (neighbor net e) ≡ true → Relaxed c st e st
    better :
        contains excluded (neighbor net e) ≡ false
        → improves (neighbor_dist net c e) (lookup (neighbor net e) st.dist) ≡ true
        → Relaxed c st e (record_neighbor st c.0 (neighbor net e) (neighbor_dist net c e))
    worse :
        (old : ℕ)
        → contains excluded (neighbor net e) ≡ false
        → lookup (neighbor net e) st.dist ≡ some old
        → old ≤ neighbor_dist net c e
        → Relaxed c st e st

  pub relax-Relaxed :
      (c : StopDist) (st : State) (e : ℕ) → Relaxed c st e (relax net excluded c st e)
  unfolding relax
  relax-Relaxed (s, d) st e = elim (Bool-cases (contains excluded (neighbor net e))) [
    | inl o ↦ rw o (out o)
    | inr k ↦
        rw k
          (elim (Bool-cases
            (improves (neighbor_dist net (s, d) e) (lookup (neighbor net e) st.dist))) [
              | inl i ↦ rw i (better k i)
              | inr w ↦ rw w (elim (Option-cases (lookup (neighbor net e) st.dist)) [
                | inl new ↦ absurd (ground arith)
                | inr (old, seen) ↦ worse old k seen (ground arith)
              ])
            ])
  ]

  AtMost-insert :
      (m : List (PathStop × ℕ)) (n s : PathStop) (d k : ℕ)
      → improves d (lookup n m) ≡ true
      → AtMost m s k
      → AtMost (insert n d m) s k
  AtMost-insert m n s d k i (c, e, l) = elim (Bool-cases (eq_stop n s)) [
    | inl same ↦
        let p : n ≡ s = (eq_stop_iff n s).0 same in
        (d, rw (lookup-insert n s d m, same), ground arith)
    | inr other ↦ (c, rw (lookup-insert n s d m, other) e, l)
  ]

  -- Distances only fall, and what is queued stays.
  pub relax-AtMost :
      (c : StopDist) (st : State) (e : ℕ) {st' : State} (s : PathStop) (k : ℕ)
      → Relaxed c st e st'
      → AtMost st.dist s k
      → AtMost st'.dist s k
  relax-AtMost c st e s k (out _) a = a
  relax-AtMost c st e s k (better _ i) a = AtMost-insert st.dist _ s _ k i a
  relax-AtMost c st e s k (worse _ _ _ _) a = a

  -- The neighbor is then at most as far as through the current stop.
  relax-AtMost-neighbor :
      (c : StopDist) (st : State) (e : ℕ) {st' : State}
      → Relaxed c st e st'
      → contains excluded (neighbor net e) ≡ false
      → AtMost st'.dist (neighbor net e) (neighbor_dist net c e)
  relax-AtMost-neighbor c st e (out o) k = cc
  relax-AtMost-neighbor c st e (better _ i) k =
      (neighbor_dist net c e, lookup-insert_self _ _ st.dist, omega arith)
  relax-AtMost-neighbor c st e (worse old _ seen l) k = (old, seen, l)

  -- All edges of a stop have been followed from the distance `d`.
  abbrev Followed : State → StopDist → Type 0
  Followed st (s, d) =
      (e : ℕ)
      → Elem e (net.node s.node).edges
      → contains excluded (neighbor net e) ≡ false
      → AtMost st.dist (neighbor net e) (neighbor_dist net (s, d) e)

  -- A stop is still queued with its distance, or stands at station `b`, or has been explored.
  abbrev Settled : State → StopDist → Type 0
  Settled st (s, d) = Elem (s, d) st.queue ⊎ ((s.node ≡ b) ⊎ Followed st (s, d))

  -- The invariant of the outer loop.
  abbrev pub IsClosed : State → Type 0
  IsClosed st = (s : PathStop) (d : ℕ) → lookup s st.dist ≡ some d → Settled st (s, d)

  -- And that of the inner loop, at the stop `c`.
  abbrev IsClosedBut : StopDist → State → Type 0
  IsClosedBut c st =
      (s : PathStop) (d : ℕ) → lookup s st.dist ≡ some d → ((s, d) ≡ c) ⊎ Settled st (s, d)

  relax-Elem :
      (c : StopDist) (st : State) (e : ℕ) {st' : State} (t : StopDist)
      → Relaxed c st e st'
      → Elem t st.queue
      → Elem t st'.queue
  relax-Elem c st e t (out _) q = q
  relax-Elem c st e t (better _ _) q = inr q
  relax-Elem c st e t (worse _ _ _ _) q = q

  relax-Settled :
      (c : StopDist) (st : State) (e : ℕ) {st' : State} (t : StopDist)
      → Relaxed c st e st'
      → Settled st t
      → Settled st' t
  relax-Settled c st e t r (inl q) = inl (relax-Elem c st e t r q)
  relax-Settled c st e t r (inr (inl n)) = inr (inl n)
  relax-Settled c st e (s, d) r (inr (inr f)) =
      inr (inr (λ x m k. relax-AtMost c st e (neighbor net x) _ r (f x m k)))

  relax-IsClosedBut :
      (c : StopDist) (st : State) (e : ℕ) {st' : State}
      → Relaxed c st e st'
      → IsClosedBut c st
      → IsClosedBut c st'
  relax-IsClosedBut c st e (out _) h = h
  relax-IsClosedBut c st e (worse _ _ _ _) h = h
  relax-IsClosedBut c st e (better k i) h = λ s d l.
      elim (lookup-insert_cases (neighbor net e) s (neighbor_dist net c e) d st.dist l) [
        | inl (p, q) ↦ inr (inl (inl (λ j. (sym p j, sym q j))))
        | inr before ↦ elim (h s d before) [
          | inl same ↦ inl same
          | inr t ↦ inr (relax-Settled c st e (s, d) (better k i) t)
        ]
      ]

  explore-AtMost :
      (c : StopDist) (st : State) (es : List ℕ) (s : PathStop) (k : ℕ)
      → AtMost st.dist s k
      → AtMost (explore net excluded c st es).dist s k
  unfolding explore
  explore-AtMost c st [] s k a = a
  explore-AtMost c st (e ∷ es) s k a =
      explore-AtMost c (relax net excluded c st e) es s k
        (relax-AtMost c st e s k (relax-Relaxed c st e) a)

  explore-IsClosedBut :
      (c : StopDist) (st : State) (es : List ℕ)
      → IsClosedBut c st
      → IsClosedBut c (explore net excluded c st es)
  unfolding explore
  explore-IsClosedBut c st [] h = h
  explore-IsClosedBut c st (e ∷ es) h =
      explore-IsClosedBut c (relax net excluded c st e) es
        (relax-IsClosedBut c st e (relax-Relaxed c st e) h)

  -- Each edge of the list has then been followed.
  explore-Followed :
      (c : StopDist) (st : State) (es : List ℕ) (e : ℕ)
      → Elem e es
      → contains excluded (neighbor net e) ≡ false
      → AtMost (explore net excluded c st es).dist (neighbor net e) (neighbor_dist net c e)
  unfolding explore
  explore-Followed c st [] e m k = absurd m.1
  explore-Followed c st (x ∷ es) e (inl p) k =
      explore-AtMost c (relax net excluded c st x) es (neighbor net e) (neighbor_dist net c e)
        (rw p (relax-AtMost-neighbor c st x (relax-Relaxed c st x) (rw p at k)))
  explore-Followed c st (x ∷ es) e (inr m) k =
      explore-Followed c (relax net excluded c st x) es e m k

  -- One round keeps the invariant.
  pub visit-IsClosed :
      (st : State) (c : StopDist) (rest : List StopDist)
      → IsClosed st
      → ((z : StopDist) → Elem z st.queue ↔ Elem z (c ∷ rest))
      → IsClosed (visit net excluded b (record st { queue = rest }) c)
  unfolding visit
  visit-IsClosed st (s, d) rest h m =
      let st0 = record st { queue = rest } in
      let es = (net.node s.node).edges in
      let popped : IsClosedBut (s, d) st0 = λ t k l. elim (h t k l) [
        | inl q ↦ elim ((m (t, k)).0 q) [ inl p ↦ inl p | inr r ↦ inr (inl r) ]
        | inr f ↦ inr (inr f)
      ] in
      elim (Bool-cases (s.node == b)) [
        | inl there ↦ rw there (λ t k l. elim (popped t k l) [
          | inl p ↦ inr (inl (ap (λ (x : StopDist). x.0.node) p ∙ ==→eq s.node b there))
          | inr f ↦ f
        ])
        | inr away ↦ rw away (λ t k l. elim (explore-IsClosedBut (s, d) st0 es popped t k l) [
          | inl p ↦
              subst (Settled (explore net excluded (s, d) st0 es)) (sym p)
                (inr (inr (explore-Followed (s, d) st0 es)))
          | inr f ↦ f
        ])
      ]

  pub visit-AtMost :
      (st : State) (c : StopDist) (s : PathStop) (k : ℕ)
      → AtMost st.dist s k
      → AtMost (visit net excluded b st c).dist s k
  unfolding visit
  visit-AtMost st (t, d) s k a = elim (Bool-cases (t.node == b)) [
    | inl there ↦ rw there a
    | inr away ↦ rw away (explore-AtMost (t, d) st (net.node t.node).edges s k a)
  ]

  -- With an empty queue the recorded distances are at most the cost of every walk.
  pub Walk-AtMost :
      {s : PathStop} {d : ℕ} (st : State)
      → IsClosed st
      → st.queue ≡ []
      → AtMost st.dist s d
      → {t : PathStop} {c : ℕ} → Walk net excluded b s d t c
      → c < u32_mod
      → AtMost st.dist t c
  Walk-AtMost st h q a here small = a
  Walk-AtMost st h q a (go {t} {c} e w n m k) small =
      let (x, seen, l) = Walk-AtMost st h q a w (omega arith) in
      elim (h t x seen) [
        | inl queued ↦ absurd (subst (Elem (t, x)) q queued).1
        | inr (inl there) ↦ absurd (n there)
        | inr (inr f) ↦
            let (y, found, l') = f e m k in
            (y, found, omega (arith, neighbor_dist_of_lt net t x e (omega arith)))
      ]
