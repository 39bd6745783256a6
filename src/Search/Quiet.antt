-- ===== src/Search/Quiet.antt =====
-- `GetPathCrowding` and `GetQuietTravelRoute`.
pub mod Crowding
pub mod Quietest
use metro_network_monitor.Base.{
  ℕ, ◌-◌, ◌%◌, Bytes, List, [], ◌∷◌, true, false, ◌||◌, not, none, some, ◌==◌, ltb, if◌then◌else◌,
  u32_mod,
}
use metro_network_monitor.Base.Int.{ℤ, pos, negsuc, ◌+ℤ◌}
use metro_network_monitor.Network.Types.{
  TravelRoute, no_travel_route, Network, Outcome, returns, ◌>>=◌,
}
use metro_network_monitor.Network.Build.{get_station}
use metro_network_monitor.Search.Stops.{dist_of, FoundPath}
use metro_network_monitor.Search.Queue.{PopRule, SortRule}
use metro_network_monitor.Search.Fastest.{same_station, no_path, travel_route}
use metro_network_monitor.Search.Alternatives.{path_time, get_fastest_travel_routes}

-- What the source uses of `double`.
pub record Float : Type 1 where
  pub Double : Type 0
  pub one : Double
  pub of_unsigned : ℕ → Double
  pub add : Double → Double → Double
  pub sub : Double → Double → Double
  pub mul : Double → Double → Double
  -- `static_cast<unsigned int>`
  pub to_unsigned : Double → ℕ

-- The conversion of a `long long int` to `unsigned int`.
unfoldable pub to_u32 : ℤ → ℕ
to_u32 (pos n) = n % u32_mod
to_u32 (negsuc n) = u32_mod - 1 - n % u32_mod

-- `GetPathCrowding`, with the total so far.
unfoldable pub add_crowding : Network → ℕ → FoundPath → ℕ
unfolding to_u32
add_crowding net total [] = total
add_crowding net total ((s, _) ∷ path) =
    add_crowding net (to_u32 (pos total +ℤ (net.node s.node).passenger_count)) path

unfoldable pub path_crowding : Network → FoundPath → ℕ
unfolding add_crowding
path_crowding net path = add_crowding net 0 path

-- The loop over the other paths, with the least crowding and its path so far.
unfoldable pub most_quiet : Network → ℕ → ℕ → FoundPath → List FoundPath → FoundPath
unfolding path_crowding
most_quiet net limit least best [] = best
most_quiet net limit least best (path ∷ paths) =
    let c = path_crowding net path in
    let keep = ltb limit c || not (ltb c least) in
    most_quiet net limit (if keep then least else c) (if keep then best else path) paths

module _ (float : Float) (pops : PopRule dist_of) (sorts : SortRule dist_of)
    (later : PopRule path_time) where
  open float use {Double, one, of_unsigned, add, sub, mul, to_unsigned}

  unfoldable pub get_quiet_travel_route :
      Network → Bytes → Bytes → Double → Double → ℕ → Outcome TravelRoute
  unfolding get_station get_fastest_travel_routes most_quiet travel_route
  get_quiet_travel_route net id_a id_b max_slowdown min_quietness max_paths =
      elim (get_station net id_a) [
        | none ↦ returns no_travel_route
        | some a ↦ elim (get_station net id_b) [
          | none ↦ returns no_travel_route
          | some b ↦ elim (a == b) [
            | true ↦ returns (same_station id_a)
            | false ↦
                get_fastest_travel_routes pops sorts later net a b
                  (λ t. to_unsigned (mul (of_unsigned t) (add one max_slowdown))) max_paths
                >>= λ paths. elim paths [
                  | [] ↦ returns (no_path id_a id_b)
                  | p ∷ ps ↦
                      let least = path_crowding net p in
                      let limit = to_unsigned (mul (of_unsigned least) (sub one min_quietness)) in
                      travel_route net id_a id_b (most_quiet net limit least p ps)
                ]
          ]
        ]
      ]
