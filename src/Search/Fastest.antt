-- ===== src/Search/Fastest.antt =====
-- The public `GetFastestTravelRoute`: a path as a `TravelRoute`.
pub mod Steps
pub mod Correct
use metro_network_monitor.Base.{ℕ, Bytes, List, [], ◌∷◌, true, false, none, some, ◌==◌}
use metro_network_monitor.Network.Types.{
  Step, TravelRoute, no_travel_route, Network, Outcome, returns, undefined, ◌>>=◌,
}
use metro_network_monitor.Network.Build.{get_station}
use metro_network_monitor.Search.Stops.{PathStop, StopDist, dist_of, FoundPath}
use metro_network_monitor.Search.Queue.{PopRule, SortRule, back}
use metro_network_monitor.Search.Dijkstra.{fastest_path}

-- The step to a stop; the edge is null at the first stop of a path only.
unfoldable pub step_to : Network → PathStop → PathStop → Outcome Step
step_to net before curr = elim curr.edge [
  | none ↦ undefined
  | some e ↦
      let r = (net.edge e).route in
      returns (record {
        start_station_id = (net.node before.node).id;
        end_station_id = (net.node curr.node).id;
        line_id = (net.line (net.route r).line).id;
        route_id = (net.route r).id;
        travel_time = (net.edge e).travel_time;
      })
]

-- The loop over the stops of the path but the first.
unfoldable pub steps_of : Network → PathStop → FoundPath → Outcome (List Step)
unfolding step_to
steps_of net before [] = returns []
steps_of net before ((curr, _) ∷ path) = do
  s ← step_to net before curr
  ss ← steps_of net curr path
  returns (s ∷ ss)

-- The corner case of one station.
abbrev pub same_station : Bytes → TravelRoute
same_station id = record {
  start_station_id = id;
  end_station_id = id;
  total_travel_time = 0;
  steps =
      record {
        start_station_id = id;
        end_station_id = id;
        line_id = [];
        route_id = [];
        travel_time = 0;
      }
      ∷ [];
}

abbrev pub no_path : Bytes → Bytes → TravelRoute
no_path id_a id_b = record {
  start_station_id = id_a;
  end_station_id = id_b;
  total_travel_time = 0;
  steps = [];
}

-- The route along a path, which is empty when there is none.
unfoldable pub travel_route : Network → Bytes → Bytes → FoundPath → Outcome TravelRoute
unfolding steps_of back
travel_route net id_a id_b [] = returns (no_path id_a id_b)
travel_route net id_a id_b ((s, d) ∷ path) = elim (back ((s, d) ∷ path)) [
  | none ↦ undefined
  | some (_, total) ↦ steps_of net s path >>= λ ss. returns (record {
    start_station_id = id_a;
    end_station_id = id_b;
    total_travel_time = total;
    steps = ss;
  })
]

abbrev pub origin : ℕ → StopDist
origin a = (record { node = a; edge = none }, 0)

module _ (pops : PopRule dist_of) (sorts : SortRule dist_of) where
  unfoldable pub get_fastest_travel_route : Network → Bytes → Bytes → Outcome TravelRoute
  unfolding get_station fastest_path travel_route
  get_fastest_travel_route net id_a id_b = elim (get_station net id_a) [
    | none ↦ returns no_travel_route
    | some a ↦ elim (get_station net id_b) [
      | none ↦ returns no_travel_route
      | some b ↦ elim (a == b) [
        | true ↦ returns (same_station id_a)
        | false ↦
            fastest_path pops sorts net (origin a) b [] >>= λ path. travel_route net id_a id_b path
      ]
    ]
  ]
