-- ===== src/Network/Build.antt =====
-- Building the network: `GetStation`, `GetLine`, `GetRoute`, `AddStation`, `AddLine` and
-- `AddRouteToLine`.
use metro_network_monitor.Base.{
  ℕ, suc, Bytes, List, [], ◌∷◌, ◌++◌, Bool, true, false, Option, none, some, lookup, insert, update,
  if◌then◌else◌, bytes_eq,
}
use metro_network_monitor.Base.Int.{pos}
use metro_network_monitor.Network.Types.{
  Station, Route, Line, Network, Outcome, returns, undefined, ◌>>=◌,
}

unfoldable pub get_station : Network → Bytes → Option ℕ
get_station net id = lookup id net.stations

unfoldable pub get_line : Network → Bytes → Option ℕ
get_line net id = lookup id net.lines

-- `GetRoute`
unfoldable pub get_route : Network → Bytes → Bytes → Option ℕ
unfolding get_line
get_route net line_id route_id = elim (get_line net line_id) [
  | none ↦ none
  | some l ↦ lookup route_id (net.line l).routes
]

-- `make_shared<GraphNode>`, and `stations_.emplace`
unfoldable pub new_node : Network → Station → Network
new_node net s = record net {
  node =
      update net.node net.node_count
        (record { id = s.id; name = s.name; passenger_count = pos 0; edges = [] });
  node_count = suc net.node_count;
  stations = insert s.id net.node_count net.stations;
}

unfoldable pub add_station : Network → Station → Bool × Network
unfolding get_station new_node
add_station net s = elim (get_station net s.id) [
  | some _ ↦ (false, net)
  | none ↦ (true, new_node net s)
]

-- The loop that gathers the nodes of the stops; `none` when a station is missing.
unfoldable pub gather_stops : Network → List Bytes → Option (List ℕ)
unfolding get_station
gather_stops net [] = some []
gather_stops net (id ∷ ids) = elim (get_station net id) [
  | none ↦ none
  | some p ↦ elim (gather_stops net ids) [ none ↦ none | some ps ↦ some (p ∷ ps) ]
]

-- `thisStop->edges.emplace_back(make_shared<GraphEdge>({routeInternal, nextStop, 0}))`
unfoldable pub add_edge : Network → ℕ → ℕ → ℕ → Network
add_edge net r this next = record net {
  edge = update net.edge net.edge_count (record { route = r; next_stop = next; travel_time = 0 });
  edge_count = suc net.edge_count;
  node =
      update net.node this
        (record (net.node this) { edges = (net.node this).edges ++ net.edge_count ∷ [] });
}

-- The walk over the stops of a route that adds an edge from each stop to the next.
unfoldable pub link_stops : Network → ℕ → List ℕ → Network
unfolding add_edge
link_stops net r [] = net
link_stops net r (p ∷ []) = net
link_stops net r (p ∷ q ∷ ps) = link_stops (add_edge net r p q) r (q ∷ ps)

-- `make_shared<RouteInternal>`
unfoldable pub new_route : Network → Bytes → ℕ → List ℕ → Network
new_route net id l ps = record net {
  route = update net.route net.route_count (record { id = id; line = l; stops = ps });
  route_count = suc net.route_count;
}

-- `lineInternal->routes[route.id] = routeInternal`
unfoldable pub put_route : Network → ℕ → Bytes → ℕ → Network
put_route net l id r = record net {
  line = update net.line l (record (net.line l) { routes = insert id r (net.line l).routes });
}

-- The part of `AddRouteToLine` below the gathering of the stops. Without stops,
-- `stops.size() - 1` wraps around and the loop reads past the end of the vector.
unfoldable pub install_route : Network → Bytes → ℕ → List ℕ → Outcome (Bool × Network)
unfolding new_route put_route link_stops
install_route net id l [] = undefined
install_route net id l (p ∷ ps) =
    let r = net.route_count in
    returns (true, put_route (link_stops (new_route net id l (p ∷ ps)) r (p ∷ ps)) l id r)

unfoldable pub add_route_to_line : Network → Route → ℕ → Outcome (Bool × Network)
unfolding gather_stops install_route
add_route_to_line net route l = elim (lookup route.id (net.line l).routes) [
  | some _ ↦ returns (false, net)
  | none ↦ elim (gather_stops net route.stops) [
    | none ↦ returns (false, net)
    | some ps ↦ install_route net route.id l ps
  ]
]

-- The loop of `AddLine` over the routes.
unfoldable pub add_routes : Network → List Route → ℕ → Outcome (Bool × Network)
add_routes net [] l = returns (true, net)
add_routes net (r ∷ rs) l = add_route_to_line net r l >>= λ (added, net').
    let rest = add_routes net' rs l in if added then rest else returns (false, net')

-- `make_shared<LineInternal>`
unfoldable pub new_line : Network → Line → Network
new_line net line = record net {
  line = update net.line net.line_count (record { id = line.id; name = line.name; routes = [] });
  line_count = suc net.line_count;
}

-- `lines_.emplace`, after the last route.
unfoldable pub put_line : Network → Bytes → ℕ → Network
put_line net id l = record net { lines = insert id l net.lines }

unfoldable pub add_line : Network → Line → Outcome (Bool × Network)
unfolding get_line new_line put_line
add_line net line = elim (get_line net line.id) [
  | some _ ↦ returns (false, net)
  | none ↦ add_routes (new_line net line) line.routes net.line_count >>= λ (added, net').
      returns (if added then (true, put_line net' line.id net.line_count) else (false, net'))
]
