-- ===== src/Search/Dijkstra/Sound.antt =====
-- The distances recorded and queued as costs of walks, where no sum can reach 2^32.
use metro_network_monitor.Base.{
  ℕ, ◌≡◌, refl, sym, subst, ◌↔◌, inl, inr, List, [], ◌∷◌, true, false, some, arith, Elem, Distinct,
  lookup, lookup-insert_cases, lookup-insert_self, Bool-cases, ◌==◌, lookup, not_==→ne,
}
use metro_network_monitor.Network.Types.{Network}
use metro_network_monitor.Search.Stops.{PathStop, eq_stop_iff, StopDist, stop_eq}
use metro_network_monitor.Search.Dijkstra.{
  State, contains, neighbor, neighbor_dist, improves, record_neighbor, relax, explore, visit, start,
}
use metro_network_monitor.Search.Dijkstra.Loop.{EdgesInRange}
use metro_network_monitor.Search.Dijkstra.Walks.{AtMost, neighbor_dist_of_lt}
use metro_network_monitor.Search.Dijkstra.Optimal.{
  Relaxed, out, better, worse, relax-Relaxed, relax-AtMost,
}
use metro_network_monitor.Search.Dijkstra.Trails.{Trail, begin, onward, Trail-fits, IsSmall}

module _ (net : Network) (excluded : List PathStop) (b : ℕ) (s : PathStop) (d : ℕ) where
  -- A distance is the cost of a walk without a repeated stop, whose stops have distances no larger.
  pub record IsSound (st : State) (t : PathStop) (k : ℕ) : Type 0 where
    pub before : List PathStop
    pub trail : Trail net excluded b s d t k before
    pub distinct : Distinct (t ∷ before)
    pub nearer : (v : PathStop) → Elem v (t ∷ before) → AtMost st.dist v k

  -- Every distance recorded or queued is.
  pub record AreSound (st : State) : Type 0 where
    pub recorded : (t : PathStop) (k : ℕ) → lookup t st.dist ≡ some k → IsSound st t k
    pub queued : (t : PathStop) (k : ℕ) → Elem (t, k) st.queue → IsSound st t k

  pub relax-IsSound :
      (c : StopDist) (st : State) (e : ℕ) {st' : State} (t : PathStop) (k : ℕ)
      → Relaxed net excluded b c st e st'
      → IsSound st t k
      → IsSound st' t k
  relax-IsSound c st e t k r h = record {
    before = h.before;
    trail = h.trail;
    distinct = h.distinct;
    nearer = λ v m. relax-AtMost net excluded b c st e v k r (h.nearer v m);
  }

  module _ (w : ℕ) (r : EdgesInRange net) (small : IsSmall net d w) where
    -- The stop that a better way leads to is new on the walk.
    extend-IsSound :
        (t : PathStop) (k : ℕ) (st : State) (e : ℕ)
        → ¬ (t.node ≡ b)
        → Elem e (net.node t.node).edges
        → IsSound st t k
        → contains excluded (neighbor net e) ≡ false
        → improves (neighbor_dist net (t, k) e) (lookup (neighbor net e) st.dist) ≡ true
        → IsSound
            (record_neighbor st t (neighbor net e) (neighbor_dist net (t, k) e))
            (neighbor net e)
            (neighbor_dist net (t, k) e)
    extend-IsSound t k st e away m h kept i =
        let sum =
          neighbor_dist_of_lt net t k e
            (Trail-fits net excluded b s d w e r small h.trail h.distinct) in
        let n = neighbor net e in
        let k' = neighbor_dist net (t, k) e in
        record {
          before = t ∷ h.before;
          trail = rw sum (onward e h.trail away m kept);
          distinct = (λ q. let (x, seen, l) = h.nearer n q in ground (arith, sum), h.distinct);
          nearer = λ v q. elim q [
            | inl p ↦ (k', rw p (lookup-insert_self n k' st.dist), omega arith)
            | inr q' ↦
                let (x, seen, l) =
                  relax-AtMost net excluded b (t, k) st e v k (better kept i) (h.nearer v q') in
                (x, seen, omega (arith, sum))
          ];
        }

    pub relax-AreSound :
        (c : StopDist) (st : State) (e : ℕ) {st' : State}
        → ¬ (c.0.node ≡ b)
        → Elem e (net.node c.0.node).edges
        → IsSound st c.0 c.1
        → Relaxed net excluded b c st e st'
        → AreSound st
        → AreSound st'
    relax-AreSound c st e away m h (out _) a = a
    relax-AreSound c st e away m h (worse _ _ _ _) a = a
    relax-AreSound (t, k) st e away m h (better kept i) a =
        let new = extend-IsSound t k st e away m h kept i in
        let keep = λ (u : PathStop) (j : ℕ). relax-IsSound (t, k) st e u j (better kept i) in
        record {
          recorded = λ u j l.
              elim (lookup-insert_cases (neighbor net e) u (neighbor_dist net (t, k) e) j st.dist
                l) [
                  | inl (p, q) ↦
                      subst
                        (λ (x : StopDist).
                          IsSound
                            (record_neighbor st t (neighbor net e) (neighbor_dist net (t, k) e)) x.0
                            x.1)
                        (λ z. (p z, q z)) new
                  | inr before ↦ keep u j (a.recorded u j before)
                ];
          queued = λ u j q. elim q [
            | inl p ↦
                subst
                  (λ (x : StopDist).
                    IsSound (record_neighbor st t (neighbor net e) (neighbor_dist net (t, k) e)) x.0
                      x.1)
                  (sym p) new
            | inr q' ↦ keep u j (a.queued u j q')
          ];
        }

    explore-AreSound :
        (c : StopDist) (st : State) (es : List ℕ)
        → ¬ (c.0.node ≡ b)
        → ((e : ℕ) → Elem e es → Elem e (net.node c.0.node).edges)
        → IsSound st c.0 c.1
        → AreSound st
        → AreSound (explore net excluded c st es)
    unfolding explore
    explore-AreSound c st [] away m h a = a
    explore-AreSound c st (e ∷ es) away m h a =
        let step = relax-Relaxed net excluded b c st e in
        explore-AreSound c (relax net excluded c st e) es away (λ x q. m x (inr q))
          (relax-IsSound c st e c.0 c.1 step h)
          (relax-AreSound c st e away (m e (inl refl)) h step a)

    -- One round keeps the distances sound.
    pub visit-AreSound :
        (st : State) (c : StopDist) (rest : List StopDist)
        → AreSound st
        → ((z : StopDist) → Elem z st.queue ↔ Elem z (c ∷ rest))
        → AreSound (visit net excluded b (record st { queue = rest }) c)
    unfolding visit
    visit-AreSound st (t, k) rest a m =
        let st0 = record st { queue = rest } in
        let same = λ (u : PathStop) (j : ℕ) (h : IsSound st u j).
          let h0 : IsSound st0 u j = record {
            before = h.before;
            trail = h.trail;
            distinct = h.distinct;
            nearer = h.nearer;
          } in
          h0 in
        let a0 : AreSound st0 = record {
          recorded = λ u j l. same u j (a.recorded u j l);
          queued = λ u j q. same u j (a.queued u j ((m (u, j)).1 (inr q)));
        } in
        elim (Bool-cases (t.node == b)) [
          | inl there ↦ rw there a0
          | inr away ↦ rw away (
              explore-AreSound (t, k) st0 (net.node t.node).edges (not_==→ne t.node b away)
                (λ x q. q) (same t k (a.queued t k ((m (t, k)).1 (inl refl)))) a0)
        ]

    pub start-AreSound : AreSound (start (s, d))
    unfolding lookup
    start-AreSound =
        let sound : IsSound (start (s, d)) s d = record {
          before = [];
          trail = begin;
          distinct = (λ q. q.1, tt);
          nearer = λ v q. elim q [
            | inl p ↦ (d, ground (arith, eq_stop_iff s v), omega arith)
            | inr q' ↦ absurd q'.1
          ];
        } in
        let move = λ (x : StopDist) (e : (s, d) ≡ x).
          subst (λ (y : StopDist). IsSound (start (s, d)) y.0 y.1) e sound in
        record {
          recorded = λ u j l. move (u, j) (ground (arith, eq_stop_iff s u));
          queued = λ u j q. elim q [ inl p ↦ move (u, j) (sym p) | inr q' ↦ absurd q'.1 ];
        }
