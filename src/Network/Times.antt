-- ===== src/Network/Times.antt =====
-- Travel times: `SetTravelTime`, the two `GetTravelTime` and `FindEdgeForRoute`.
use metro_network_monitor.Base.{
  ℕ, Bytes, List, [], ◌∷◌, Bool, true, false, ◌||◌, Option, none, some, ◌==◌, if◌then◌else◌, update,
  add_u32,
}
use metro_network_monitor.Network.Types.{Network}
use metro_network_monitor.Network.Build.{get_station, get_route}

-- `edge->travelTime = travelTime`
unfoldable pub put_time : Network → ℕ → ℕ → Network
put_time net e time = record net {
  edge = update net.edge e (record (net.edge e) { travel_time = time });
}

-- The lambda `setTravelTime`, over the edges of `from`; the flag is `foundAnyEdge`.
unfoldable pub set_edges : Network → List ℕ → ℕ → ℕ → Bool → Network × Bool
unfolding put_time
set_edges net [] to time found = (net, found)
set_edges net (e ∷ es) to time found =
    let hit = (net.edge e).next_stop == to in
    set_edges (if hit then put_time net e time else net) es to time (hit || found)

-- Both calls of the lambda; the edges of B are read after the first.
unfoldable pub set_between : Network → ℕ → ℕ → ℕ → Bool × Network
unfolding set_edges
set_between net a b time =
    let (net', found) = set_edges net (net.node a).edges b time false in
    let (net'', found') = set_edges net' (net'.node b).edges a time found in (found', net'')

unfoldable pub set_travel_time : Network → Bytes → Bytes → ℕ → Bool × Network
unfolding set_between
set_travel_time net id_a id_b time = elim (get_station net id_a) [
  | none ↦ (false, net)
  | some a ↦ elim (get_station net id_b) [ none ↦ (false, net) | some b ↦ set_between net a b time ]
]

-- The loop over the edges of a node for one that leads to `to`.
unfoldable pub time_to : Network → List ℕ → ℕ → Option ℕ
time_to net [] to = none
time_to net (e ∷ es) to =
    if (net.edge e).next_stop == to then some (net.edge e).travel_time else time_to net es to

-- The two loops.
unfoldable pub time_between : Network → ℕ → ℕ → ℕ
unfolding time_to
time_between net a b = elim (time_to net (net.node a).edges b) [
  | some t ↦ t
  | none ↦ elim (time_to net (net.node b).edges a) [ some t ↦ t | none ↦ 0 ]
]

unfoldable pub get_travel_time : Network → Bytes → Bytes → ℕ
unfolding time_between
get_travel_time net id_a id_b = elim (get_station net id_a) [
  | none ↦ 0
  | some a ↦ elim (get_station net id_b) [ none ↦ 0 | some b ↦ time_between net a b ]
]

-- `GraphNode::FindEdgeForRoute`, over the edges of the node.
unfoldable pub find_edge_for_route : Network → List ℕ → ℕ → Option ℕ
find_edge_for_route net [] r = none
find_edge_for_route net (e ∷ es) r =
    if (net.edge e).route == r then some e else find_edge_for_route net es r

-- The time after a stop: once A is found, that of the edge of the route is added, and `none` stands
-- for an edge that is missing.
unfoldable pub advance : Network → ℕ → ℕ → ℕ → Bool → Option ℕ
unfolding find_edge_for_route
advance net r stop time false = some time
advance net r stop time true = elim (find_edge_for_route net (net.node stop).edges r) [
  | none ↦ none
  | some e ↦ some (add_u32 time (net.edge e).travel_time)
]

-- The walk over the stops of the route `r`; `time` and `found` are `travelTime` and `foundA`.
unfoldable pub walk_route : Network → ℕ → ℕ → ℕ → List ℕ → ℕ → Bool → ℕ
unfolding advance
walk_route net r a b [] time found = 0
walk_route net r a b (stop ∷ stops) time found =
    let found' = stop == a || found in
    elim (stop == b) [
      | true ↦ time
      | false ↦ elim (advance net r stop time found') [
        | none ↦ 0
        | some time' ↦ walk_route net r a b stops time' found'
      ]
    ]

unfoldable pub get_route_travel_time : Network → Bytes → Bytes → Bytes → Bytes → ℕ
unfolding walk_route
get_route_travel_time net line_id route_id id_a id_b = elim (get_route net line_id route_id) [
  | none ↦ 0
  | some r ↦ elim (get_station net id_a) [
    | none ↦ 0
    | some a ↦ elim (get_station net id_b) [
      | none ↦ 0
      | some b ↦ walk_route net r a b (net.route r).stops 0 false
    ]
  ]
]
