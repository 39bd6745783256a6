-- ===== src/Search/Fastest/Steps.antt =====
-- The steps of a route and what they add up to.
use metro_network_monitor.Base.{
  ℕ, ◌+◌, ◌*◌, ◌≡◌, refl, ap, Bool, true, false, none, some, List, [], ◌∷◌, arith, if◌then◌else◌,
  Elem, nat_eq, bytes_eq,
}
use metro_network_monitor.Network.Types.{Step, Network, returns}
use metro_network_monitor.Network.WellFormed.{IsWellFormed}
use metro_network_monitor.Search.Stops.{PathStop, FoundPath}
use metro_network_monitor.Search.Queue.{back}
use metro_network_monitor.Search.Dijkstra.{changes_route, neighbor}
use metro_network_monitor.Search.Dijkstra.Loop.{EdgesInRange}
use metro_network_monitor.Search.Dijkstra.Walks.{weight}
use metro_network_monitor.Search.Dijkstra.Links.{IsLinked}
use metro_network_monitor.Search.Fastest.{step_to, steps_of}

pub IsWellFormed-EdgesInRange : {net : Network} → IsWellFormed net → EdgesInRange net
IsWellFormed-EdgesInRange h = record { in_range = λ p e m. (h.leaving p e m).0 }

-- The route changes along a path.
change_to : Network → PathStop → PathStop → ℕ
change_to net p t = elim t.edge [ none ↦ 0 | some e ↦ if changes_route net p.edge e then 1 else 0 ]

pub changes : Network → PathStop → FoundPath → ℕ
changes net p [] = 0
changes net p ((t, _) ∷ rest) = change_to net p t + changes net t rest

-- The travel times of the steps.
pub step_times : List Step → ℕ
step_times [] = 0
step_times (x ∷ xs) = x.travel_time + step_times xs

-- A step names the stations of the edge that it takes, and the route and the line of the edge.
pub record IsStepOf (net : Network) (p t : PathStop) (x : Step) : Type 0 where
  pub by : ℕ
  pub leads : t ≡ neighbor net by
  pub leaves : Elem by (net.node p.node).edges
  pub from : x.start_station_id ≡ (net.node p.node).id
  pub to : x.end_station_id ≡ (net.node (net.edge by).next_stop).id
  pub along : x.route_id ≡ (net.route (net.edge by).route).id
  pub on : x.line_id ≡ (net.line (net.route (net.edge by).route).line).id
  pub time : x.travel_time ≡ (net.edge by).travel_time

abbrev pub AreStepsOf : Network → PathStop → FoundPath → List Step → Type 0
AreStepsOf net p [] [] = Unit
AreStepsOf net p [] (x ∷ xs) = ⊥
AreStepsOf net p ((t, _) ∷ rest) [] = ⊥
AreStepsOf net p ((t, _) ∷ rest) (x ∷ xs) = IsStepOf net p t x × AreStepsOf net t rest xs

pub record Ride (net : Network) (p : PathStop) (j : ℕ) (rest : FoundPath) (t : PathStop) (k : ℕ)
    : Type 0 where
  pub steps : List Step
  pub result : steps_of net p rest ≡ returns steps
  pub stations : AreStepsOf net p rest steps
  pub total : k ≡ j + (step_times steps + 5 * changes net p rest)

weight-change_to :
    (net : Network) (p t : PathStop) (e : ℕ)
    → t.edge ≡ some e
    → weight net p.edge e ≡ (net.edge e).travel_time + 5 * change_to net p t
unfolding change_to
weight-change_to net p t e q = rw (q, change_to) (by_flag (changes_route net p.edge e))
  where
    by_flag :
        (c : Bool)
        → (net.edge e).travel_time + (if c then 5 else 0)
          ≡ (net.edge e).travel_time + 5 * (if c then 1 else 0)
    by_flag true = refl
    by_flag false = refl

abbrev edge_step : Network → PathStop → PathStop → ℕ → Step
edge_step net p t e = record {
  start_station_id = (net.node p.node).id;
  end_station_id = (net.node t.node).id;
  line_id = (net.line (net.route (net.edge e).route).line).id;
  route_id = (net.route (net.edge e).route).id;
  travel_time = (net.edge e).travel_time;
}

step_to-some :
    (net : Network) (p t : PathStop) (e : ℕ)
    → t.edge ≡ some e
    → step_to net p t ≡ returns (edge_step net p t e)
unfolding step_to
step_to-some net p t e q = rw (q, step_to) refl

steps_of-cons :
    (net : Network) (p u : PathStop) (i : ℕ) (rest : FoundPath) (x : Step) (xs : List Step)
    → step_to net p u ≡ returns x
    → steps_of net u rest ≡ returns xs
    → steps_of net p ((u, i) ∷ rest) ≡ returns (x ∷ xs)
unfolding steps_of
steps_of-cons net p u i rest x xs q q' = rw (q, q') refl

pub linked-Ride :
    (net : Network) (b : ℕ) (p : PathStop) (j : ℕ) (rest : FoundPath) (t : PathStop) (k : ℕ)
    → IsLinked net [] b (p, j) rest
    → back ((p, j) ∷ rest) ≡ some (t, k)
    → Ride net p j rest t k
unfolding steps_of back changes step_times
linked-Ride net b p j [] t k l last = record {
  steps = [];
  result = refl;
  stations = tt;
  total = ground arith;
}
linked-Ride net b p j ((u, i) ∷ rest) t k (st, l) last =
    let ih = linked-Ride net b u i rest t k l last in
    let e = st.by in
    let q : u.edge ≡ some e = ap (λ (v : PathStop). v.edge) st.leads in
    let n : u.node ≡ (net.edge e).next_stop = ap (λ (v : PathStop). v.node) st.leads in
    let w = weight-change_to net p u e q in
    record {
      steps = edge_step net p u e ∷ ih.steps;
      result =
          steps_of-cons net p u i rest (edge_step net p u e) ih.steps (step_to-some net p u e q)
            ih.result;
      stations = (
        record {
          by = e;
          leads = st.leads;
          leaves = st.leaves;
          from = refl;
          to = ap (λ v. (net.node v).id) n;
          along = refl;
          on = refl;
          time = refl;
        },
        ih.stations,
      );
      total = omega (arith, ih.total, w, st.costs);
    }
