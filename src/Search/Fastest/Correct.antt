-- ===== src/Search/Fastest/Correct.antt =====
-- The public `GetFastestTravelRoute` against the walks of the network.
use metro_network_monitor.Base.{
  ℕ, ◌+◌, ◌*◌, ◌≤◌, ◌≡◌, refl, sym, ap, subst, ◌∙◌, Option, none, some, List, [], ◌∷◌, arith,
  ne→not_==, Elem, nat_eq, Bytes, bytes_eq,
}
use metro_network_monitor.Network.Types.{Step, TravelRoute, Network, returns}
use metro_network_monitor.Network.Build.{get_station}
use metro_network_monitor.Network.WellFormed.{IsWellFormed}
use metro_network_monitor.Search.Stops.{PathStop, dist_of, FoundPath}
use metro_network_monitor.Search.Queue.{PopRule, SortRule, back}
use metro_network_monitor.Search.Dijkstra.Walks.{Walk, here, go, weight}
use metro_network_monitor.Search.Dijkstra.Trails.{IsSmall}
use metro_network_monitor.Search.Dijkstra.Links.{IsLinked, IsFastest, unreachable, reached}
use metro_network_monitor.Search.Dijkstra.Paths.{fastest_path_correct}
use metro_network_monitor.Search.Fastest.{no_path, travel_route, origin, get_fastest_travel_route}
use metro_network_monitor.Search.Fastest.Steps.{
  AreStepsOf, IsWellFormed-EdgesInRange, changes, linked-Ride, step_times,
}

-- A walk to the start of a path goes on along the path.
goes_on :
    (net : Network) (b : ℕ) (s : PathStop) (d : ℕ) (p : PathStop) (j : ℕ) (rest : FoundPath)
    (t : PathStop) (k c : ℕ)
    → Walk net [] b s d p c
    → IsLinked net [] b (p, j) rest
    → back ((p, j) ∷ rest) ≡ some (t, k)
    → (c' : ℕ) × Walk net [] b s d t c' × (c' + j ≡ c + k)
unfolding back
goes_on net b s d p j [] t k c walk l last =
    let same : p ≡ t = ground arith in
    let n : j ≡ k = ground arith in
    (c, subst (λ v. Walk net [] b s d v c) same walk, ap (λ v. c + v) n)
goes_on net b s d p j ((u, i) ∷ rest) t k c walk (st, l) last =
    let walk' : Walk net [] b s d u (c + weight net p.edge st.by) =
      subst (λ v. Walk net [] b s d v (c + weight net p.edge st.by)) (sym st.leads)
        (go st.by walk st.away st.leaves st.kept) in
    let (c', last_walk, q) =
      goes_on net b s d u i rest t k (c + weight net p.edge st.by) walk' l last in
    (c', last_walk, omega (arith, q, st.costs))

weight-none : (net : Network) (before : Option ℕ) (e : ℕ) → weight net none e ≤ weight net before e
weight-none net before e = omega arith

-- From the origin, a shortest path begins with the distance 0.
starts_at_zero :
    (net : Network) (a b : ℕ) (x : PathStop) (j : ℕ) (rest : FoundPath) (t : PathStop) (k : ℕ)
    → ¬ (a ≡ b)
    → x.node ≡ a
    → IsLinked net [] b (x, j) rest
    → back ((x, j) ∷ rest) ≡ some (t, k)
    → ((c : ℕ) → Walk net [] b (origin a).0 0 t c → k ≤ c)
    → j ≡ 0
unfolding back
starts_at_zero net a b x j [] t k away home l last least = absurd (away (sym home ∙ l))
starts_at_zero net a b x j ((u, i) ∷ rest) t k away home (st, l) last least =
    let s = (origin a).0 in
    let first : Walk net [] b s 0 u (0 + weight net none st.by) =
      subst (λ v. Walk net [] b s 0 v (0 + weight net none st.by)) (sym st.leads)
        (go st.by here away (subst (λ v. Elem st.by (net.node v).edges) home st.leaves) st.kept) in
    let (c, walk, q) = goes_on net b s 0 u i rest t k (0 + weight net none st.by) first l last in
    omega (arith, q, st.costs, least c walk, weight-none net x.edge st.by)

-- What `GetFastestTravelRoute` promises for two stations with the nodes `a` and `b`.
pub data IsFastestRoute (net : Network) (id_a id_b : Bytes) (a b : ℕ) : TravelRoute → Type 0 where
  -- No walk leads from `a` to `b`.
  nowhere :
      ((t : PathStop) (c : ℕ) → t.node ≡ b → ¬ Walk net [] b (origin a).0 0 t c)
      → IsFastestRoute net id_a id_b a b (no_path id_a id_b)
  -- The steps follow a path from `a` to `b`; the total is the sum of their travel times and of five
  -- minutes for each change of the route, and no walk from `a` to `b` costs less.
  somewhere :
      (x : PathStop) (rest : FoundPath) (steps : List Step) (total : ℕ)
      → x.node ≡ a
      → IsLinked net [] b (x, 0) rest
      → AreStepsOf net x rest steps
      → total ≡ step_times steps + 5 * changes net x rest
      → ((t : PathStop) (c : ℕ) → t.node ≡ b → Walk net [] b (origin a).0 0 t c → total ≤ c)
      → IsFastestRoute net id_a id_b a b (record {
        start_station_id = id_a;
        end_station_id = id_b;
        total_travel_time = total;
        steps = steps;
      })

IsLinked-ends :
    (net : Network) (b : ℕ) (p : PathStop) (j : ℕ) (rest : FoundPath) (t : PathStop) (k : ℕ)
    → IsLinked net [] b (p, j) rest
    → back ((p, j) ∷ rest) ≡ some (t, k)
    → t.node ≡ b
unfolding back
IsLinked-ends net b p j [] t k l last =
    let same : p ≡ t = ground arith in ap (λ (v : PathStop). v.node) (sym same) ∙ l
IsLinked-ends net b p j ((u, i) ∷ rest) t k (st, l) last = IsLinked-ends net b u i rest t k l last

travel_route-IsFastestRoute :
    (net : Network) (id_a id_b : Bytes) (a b : ℕ) (path : FoundPath)
    → ¬ (a ≡ b)
    → IsFastest net [] b (origin a).0 0 path
    → (r : TravelRoute) × (travel_route net id_a id_b path ≡ returns r)
      × IsFastestRoute net id_a id_b a b r
unfolding travel_route
travel_route-IsFastestRoute net id_a id_b a b [] away (unreachable none_leads) =
    (no_path id_a id_b, refl, nowhere none_leads)
travel_route-IsFastestRoute net id_a id_b a b ((y, i) ∷ ys) away
      (reached x j rest t k home _ l last walk least) =
    let ride = linked-Ride net b x j rest t k l last in
    let there : t.node ≡ b = IsLinked-ends net b x j rest t k l last in
    let zero_first =
      starts_at_zero net a b x j rest t k away home l last (λ c w. least t c there w) in
    let total : k ≡ step_times ride.steps + 5 * changes net x rest =
      omega (arith, ride.total, zero_first) in
    (
      record {
        start_station_id = id_a;
        end_station_id = id_b;
        total_travel_time = k;
        steps = ride.steps;
      },
      rw (last, ride.result, travel_route) refl,
      somewhere x rest ride.steps k home (subst (λ v. IsLinked net [] b (x, v) rest) zero_first l)
          ride.stations total least,
    )

-- In a well-formed network whose travel times are small enough for the sums to stay below 2^32,
-- `GetFastestTravelRoute` returns for two different stations: a route without steps when no walk
-- leads from the one to the other, and else a route along the edges from the one to the other whose
-- total is the sum of the travel times and of five minutes per change, the least of all walks.
pub get_fastest_travel_route_correct :
    (pops : PopRule dist_of) (sorts : SortRule dist_of) (net : Network) (id_a id_b : Bytes)
    (a b w : ℕ)
    → IsWellFormed net
    → IsSmall net 0 w
    → get_station net id_a ≡ some a
    → get_station net id_b ≡ some b
    → ¬ (a ≡ b)
    → (r : TravelRoute) × (get_fastest_travel_route pops sorts net id_a id_b ≡ returns r)
      × IsFastestRoute net id_a id_b a b r
unfolding get_fastest_travel_route
get_fastest_travel_route_correct pops sorts net id_a id_b a b w h small known_a known_b away =
    let (path, e, f) =
      fastest_path_correct pops sorts net [] b (origin a).0 0 w (IsWellFormed-EdgesInRange h) small
        away in
    let (r, e', g) = travel_route-IsFastestRoute net id_a id_b a b path away f in
    (r, rw (known_a, known_b, ne→not_== a b away, e, get_fastest_travel_route) e', g)
