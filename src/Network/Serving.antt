-- ===== src/Network/Serving.antt =====
-- `GetRoutesServingStation`.
use metro_network_monitor.Base.{
  ℕ, Bytes, List, [], ◌∷◌, ◌++◌, map, Option, none, some, ◌==◌, if◌then◌else◌,
}
use metro_network_monitor.Network.Types.{Network, Outcome, returns, undefined, ◌>>=◌}
use metro_network_monitor.Network.Build.{get_station}

-- `stops[stops.size() - 1]`, out of bounds without stops.
unfoldable pub end_stop : List ℕ → Option ℕ
end_stop [] = none
end_stop (p ∷ []) = some p
end_stop (p ∷ q ∷ ps) = end_stop (q ∷ ps)

-- The first loop: one route for each edge that leaves the node.
unfoldable pub leaving_routes : Network → ℕ → List Bytes
leaving_routes net p = map (λ e. (net.route (net.edge e).route).id) (net.node p).edges

-- The loops over the lines and their routes, for the routes that end at the node.
unfoldable pub ending_routes : Network → ℕ → List (Bytes × ℕ) → Outcome (List Bytes)
unfolding end_stop
ending_routes net p [] = returns []
ending_routes net p ((_, r) ∷ rs) = elim (end_stop (net.route r).stops) [
  | none ↦ undefined
  | some q ↦
      ending_routes net p rs >>= λ ids. returns (if p == q then (net.route r).id ∷ ids else ids)
]

unfoldable pub ending_lines : Network → ℕ → List (Bytes × ℕ) → Outcome (List Bytes)
unfolding ending_routes
ending_lines net p [] = returns []
ending_lines net p ((_, l) ∷ ls) = do
  ids ← ending_routes net p (net.line l).routes
  rest ← ending_lines net p ls
  returns (ids ++ rest)

unfoldable pub get_routes_serving_station : Network → Bytes → Outcome (List Bytes)
unfolding leaving_routes ending_lines
get_routes_serving_station net id = elim (get_station net id) [
  | none ↦ returns []
  | some p ↦ ending_lines net p net.lines >>= λ ids. returns (leaving_routes net p ++ ids)
]
