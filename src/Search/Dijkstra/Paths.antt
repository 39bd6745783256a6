-- ===== src/Search/Dijkstra/Paths.antt =====
-- The path that is assembled from the recorded stops.
use metro_network_monitor.Base.{
  ℕ, zero, suc, ◌+◌, ◌≤◌, ◌<◌, ◌≡◌, refl, sym, ap, subst, ◌∙◌, inl, inr, true, some, List, [], ◌∷◌,
  arith, ◌==◌, ==→eq, ==_refl, ne→not_==, Bool-cases, Option-cases, length, Elem, nat_eq, lookup,
  lookup_of_Elem, Elem-of_lookup, bytes_eq,
}
use metro_network_monitor.Network.Types.{Network, returns}
use metro_network_monitor.Search.Stops.{PathStop, StopDist, stop_eq, dist_of, FoundPath}
use metro_network_monitor.Search.Queue.{PopRule, SortRule, back, back-least, back-none}
use metro_network_monitor.Search.Dijkstra.{State, walk_back, paths_to, assemble, fastest_path}
use metro_network_monitor.Search.Dijkstra.Loop.{EdgesInRange}
use metro_network_monitor.Search.Dijkstra.Walks.{Walk, go, weight}
use metro_network_monitor.Search.Dijkstra.Trails.{IsSmall}
use metro_network_monitor.Search.Dijkstra.Chains.{
  IsLink, Chain, root, link, Chain-lookup, Chain-length-le,
}
use metro_network_monitor.Search.Dijkstra.Correct.{
  Walk-AtMost_sound, Invariant, search_ends, lookup-IsLeast,
}
use metro_network_monitor.Search.Dijkstra.Links.{
  Elem-paths_to, IsFastest, IsLinked, IsStep, unreachable, reached, back-cons, back-single,
}

module _ (pops : PopRule dist_of) (net : Network) (excluded : List PathStop) (b : ℕ) (s : PathStop)
    (d w : ℕ) (r : EdgesInRange net) (small : IsSmall net d w) where
  abbrev Holds : State → Type 0
  Holds st = Invariant pops net excluded b s d st × (st.queue ≡ [])

  -- In the end a link adds exactly its weight.
  Link-IsStep :
      (st : State) (p : PathStop) (j e : ℕ) (t : PathStop) (k : ℕ)
      → Holds st
      → lookup p st.dist ≡ some j
      → lookup t st.dist ≡ some k
      → IsLink net excluded b p j e t k
      → IsStep net excluded b p j t k
  Link-IsStep st p j e t k (h, q) at_p at_t l =
      let walk = ((lookup-IsLeast pops net excluded b s d w r small st p j h q).0 at_p).0 in
      let walk' : Walk net excluded b s d t (j + weight net p.edge e) =
        subst (λ v. Walk net excluded b s d v (j + weight net p.edge e)) (sym l.leads)
          (go e walk l.away l.leaves l.kept) in
      let low = ((lookup-IsLeast pops net excluded b s d w r small st t k h q).0 at_t).1 in
      record {
        by = e;
        leads = l.leads;
        away = l.away;
        leaves = l.leaves;
        kept = l.kept;
        costs = omega (arith, l.costs, low (j + weight net p.edge e) walk');
      }

  -- What the walk back along a chain gives, with the last stop `z` of the path.
  record Back (st : State) (path : FoundPath) (z : StopDist) : Type 0 where
    first : PathStop
    far : ℕ
    rest : FoundPath
    shape : path ≡ (first, far) ∷ rest
    home : first.node ≡ s.node
    known : lookup first st.dist ≡ some far
    linked : IsLinked net excluded b (first, far) rest
    last : back ((first, far) ∷ rest) ≡ some z

  arrived :
      (fuel : ℕ) (st : State) (t : PathStop) (k : ℕ) (rest : FoundPath) (z : StopDist)
      → lookup t st.dist ≡ some k
      → IsLinked net excluded b (t, k) rest
      → back ((t, k) ∷ rest) ≡ some z
      → t.node ≡ s.node
      → (path : FoundPath) × (walk_back (suc fuel) st s.node t ((t, k) ∷ rest) ≡ returns path)
        × Back st path z
  unfolding walk_back
  arrived fuel st t k rest z known linked last home =
      let same : (t.node == s.node) ≡ true = rw home (==_refl s.node) in
      (
        (t, k) ∷ rest,
        rw (same, walk_back),
        record {
          first = t;
          far = k;
          rest = rest;
          shape = refl;
          home = home;
          known = known;
          linked = linked;
          last = last;
        },
      )

  walk_back-Back :
      (fuel : ℕ) (st : State) (t : PathStop) (k n : ℕ) (rest : FoundPath) (z : StopDist)
      → Holds st
      → Chain net excluded b s st t k n
      → n < fuel
      → IsLinked net excluded b (t, k) rest
      → back ((t, k) ∷ rest) ≡ some z
      → (path : FoundPath) × (walk_back fuel st s.node t ((t, k) ∷ rest) ≡ returns path)
        × Back st path z
  unfolding walk_back
  walk_back-Back zero st t k n rest z h ch less linked last = absurd (omega arith)
  walk_back-Back (suc fuel) st t k n rest z h (root e l q) less linked last =
      arrived fuel st t k rest z l linked last (ap (λ (v : PathStop). v.node) e)
  walk_back-Back (suc fuel) st t k n rest z h (link p j m e o l f lk ch q) less linked last =
      let at_p = Chain-lookup net excluded b s ch in
      let step = Link-IsStep st p j e t k h at_p l lk in
      let (path, e', back') =
        walk_back-Back fuel st p j m ((t, k) ∷ rest) z h ch (omega (arith, q)) (step, linked)
          (back-cons (p, j) (t, k) rest ∙ last) in
      elim (Bool-cases (t.node == s.node)) [
        | inl home ↦ arrived fuel st t k rest z l linked last (==→eq t.node s.node home)
        | inr off ↦ (path, rw (off, f, at_p, walk_back) e', back')
      ]

  -- Every walk to the station is matched by an entry of the sorted vector.
  candidate :
      (sorts : SortRule dist_of) (st : State) (u : PathStop) (c : ℕ)
      → Holds st
      → u.node ≡ b
      → Walk net excluded b s d u c
      → (x : ℕ) × Elem (u, x) (sorts.sort (paths_to b st.dist)) × (x ≤ c)
  candidate sorts st u c (h, q) there walk =
      let (x, seen, le) =
        Walk-AtMost_sound pops net excluded b s d w st r small h.kept q h.sound walk in
      (
        x,
        (sorts.sort_elem (paths_to b st.dist) (u, x)).1
            ((Elem-paths_to b st.dist u x).1 (Elem-of_lookup u x st.dist seen, there)),
        le,
      )

  assemble-IsFastest :
      (sorts : SortRule dist_of) (st : State)
      → Holds st
      → (path : FoundPath) × (assemble pops sorts st s.node b ≡ returns path)
        × IsFastest net excluded b s d path
  unfolding assemble
  assemble-IsFastest sorts st (h, q) =
      let sorted = sorts.sort (paths_to b st.dist) in
      elim (Option-cases (back sorted)) [
        | inl missing ↦ (
          [],
          rw (missing, assemble),
          unreachable (λ u c there walk.
              let (x, m, _) = candidate sorts st u c (h, q) there walk in
              (subst (Elem (u, x)) (back-none sorted missing) m).1),
        )
        | inr ((t, k), found) ↦
            let (m, least) =
              back-least dist_of sorted (t, k) (sorts.sort_descending (paths_to b st.dist)) found in
            let (m', there) =
              (Elem-paths_to b st.dist t k).0 ((sorts.sort_elem (paths_to b st.dist) (t, k)).0 m) in
            let known = lookup_of_Elem t k st.dist h.unique m' in
            let (n, ch) = h.chains t k known in
            let (path, e, bk) =
              walk_back-Back (suc (length st.dist)) st t k n [] (t, k) (h, q) ch
                (omega (arith, Chain-length-le net excluded b s ch)) there (back-single (t, k)) in
            let least_at = λ (v : PathStop) (j : ℕ) (l : lookup v st.dist ≡ some j).
              (lookup-IsLeast pops net excluded b s d w r small st v j h q).0 l in
            (
              path,
              rw (found, assemble) e,
              subst (IsFastest net excluded b s d) (sym bk.shape) (
                  reached bk.first bk.far bk.rest t k bk.home (least_at bk.first bk.far bk.known)
                    bk.linked bk.last (least_at t k known).0
                    (λ u c at_b walk.
                      let (x, m'', le) = candidate sorts st u c (h, q) at_b walk in
                      omega (arith, least (u, x) m''))),
            )
      ]

-- In a network whose edges are all allocated and whose travel times are small enough for the sums
-- to stay below 2^32, the internal `GetFastestTravelRoute` returns, from a stop that is not at station `b`: an empty path
-- when no walk leads to the station, and else a path over edges of the network, from the station of
-- the start to `b`, whose distances grow by the weights of its edges and whose last distance is the
-- least cost of the walks from the start to the station.
pub fastest_path_correct :
    (pops : PopRule dist_of) (sorts : SortRule dist_of) (net : Network) (excluded : List PathStop)
    (b : ℕ) (s : PathStop) (d w : ℕ)
    → EdgesInRange net
    → IsSmall net d w
    → ¬ (s.node ≡ b)
    → (path : FoundPath) × (fastest_path pops sorts net (s, d) b excluded ≡ returns path)
      × IsFastest net excluded b s d path
unfolding fastest_path
fastest_path_correct pops sorts net excluded b s d w r small away =
    let (st, e, h, q) = search_ends pops net excluded b s d w r small in
    let (path, e', f) = assemble-IsFastest pops net excluded b s d w r small sorts st (h, q) in
    (path, rw (ne→not_== s.node b away, e, fastest_path) e', f)
