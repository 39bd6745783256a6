-- ===== src/Examples/Witnesses.antt =====
-- The theorems at the small network.
use metro_network_monitor.Base.{
  ℕ, Bytes, bytes, ◌≡◌, refl, List, [], ◌∷◌, Bool, false, bytes_eq, lookup, insert, eq_bytes,
  update, arith, some, ◌↔◌, IsUnique, nat_eq,
}
use metro_network_monitor.Base.Int.{ℤ, pos, negsuc, ◌+ℤ◌}
use metro_network_monitor.Network.Types.{Network, TravelRoute, enter, PassengerEvent, returns}
use metro_network_monitor.Network.Build.{
  get_station, add_station, add_line, add_routes, add_route_to_line,
}
use metro_network_monitor.Network.Passengers.{
  record_passenger_event, get_passenger_count, set_network_crowding,
}
use metro_network_monitor.Network.Times.{set_travel_time}
use metro_network_monitor.Network.WellFormed.{IsWellFormed}
use metro_network_monitor.Network.WellFormed.Build.{add_line-IsWellFormed}
use metro_network_monitor.Network.Stations.{AddsStation, add_station-AddsStation}
use metro_network_monitor.Network.Adjacent.Edges.{SetsTimes, set_travel_time-SetsTimes}
use metro_network_monitor.Network.Counts.{
  get_passenger_count-record_passenger_event, get_passenger_count-set_network_crowding,
}
use metro_network_monitor.Network.Adjacent.Both.{
  IsReadBack, set_travel_time-get_travel_time, set_travel_time-none,
}
use metro_network_monitor.Search.Stops.{PathStop, dist_of, FoundPath, stop_eq}
use metro_network_monitor.Search.Dijkstra.{State, loop, rounds, start, fastest_path}
use metro_network_monitor.Search.Dijkstra.Loop.{loop_returns}
use metro_network_monitor.Search.Dijkstra.Correct.{IsLeast, search_exact}
use metro_network_monitor.Search.Dijkstra.Links.{IsFastest}
use metro_network_monitor.Search.Dijkstra.Paths.{fastest_path_correct}
use metro_network_monitor.Search.Fastest.{origin, get_fastest_travel_route}
use metro_network_monitor.Search.Fastest.Steps.{IsWellFormed-EdgesInRange}
use metro_network_monitor.Search.Fastest.Correct.{IsFastestRoute, get_fastest_travel_route_correct}
use metro_network_monitor.Examples.Rules.{least_first, greatest_first}
use metro_network_monitor.Examples.Small.{
  id_a, id_b, id_c, id_d, station, stations, stations-IsWellFormed, line_1, lines,
  lines-IsWellFormed, small, small-IsWellFormed, small-IsSmall, small-station_a, small-station_b,
  small-station_d,
}

get_fastest_travel_route_correct_example :
    (r : TravelRoute) × (get_fastest_travel_route
        (least_first dist_of)
        (greatest_first dist_of)
        small
        id_a
        id_d
      ≡ returns r)
    × IsFastestRoute small id_a id_d 0 3 r
get_fastest_travel_route_correct_example =
    get_fastest_travel_route_correct (least_first dist_of) (greatest_first dist_of) small id_a id_d
      0 3 9 small-IsWellFormed small-IsSmall small-station_a small-station_d
      (λ e. absurd (omega (arith, e)))

fastest_path_correct_example :
    (path : FoundPath) × (fastest_path
        (least_first dist_of)
        (greatest_first dist_of)
        small
        (origin 0)
        3
        []
      ≡ returns path)
    × IsFastest small [] 3 (origin 0).0 0 path
fastest_path_correct_example =
    fastest_path_correct (least_first dist_of) (greatest_first dist_of) small [] 3 (origin 0).0 0 9
      (IsWellFormed-EdgesInRange small-IsWellFormed) small-IsSmall (λ e. absurd (omega (arith, e)))

search_exact_example :
    (st : State) × (loop (least_first dist_of) (rounds small) small [] 3 (start (origin 0))
      ≡ returns st)
    × ((t : PathStop) (k : ℕ) → (lookup t st.dist ≡ some k) ↔ IsLeast small [] 3 (origin 0).0 0 t k)
search_exact_example =
    search_exact (least_first dist_of) small [] 3 (origin 0).0 0 9
      (IsWellFormed-EdgesInRange small-IsWellFormed) small-IsSmall

loop_returns_example :
    (st : State) × (loop (least_first dist_of) (rounds small) small [] 3 (start (origin 0))
      ≡ returns st)
loop_returns_example =
    loop_returns (least_first dist_of) small [] 3 (origin 0).0 0
      (IsWellFormed-EdgesInRange small-IsWellFormed) (omega arith)

add_line-IsWellFormed_example :
    (added : Bool) × (net : Network) × (add_line stations line_1 ≡ returns (added, net))
    × IsWellFormed net
add_line-IsWellFormed_example =
    add_line-IsWellFormed stations line_1 stations-IsWellFormed (λ e. cc, tt)

add_station-AddsStation_example : AddsStation lines (station (bytes "E"))
add_station-AddsStation_example =
    add_station-AddsStation lines (station (bytes "E")) lines-IsWellFormed

set_travel_time-SetsTimes_example : SetsTimes small 0 1 7 (set_travel_time small id_a id_b 7)
set_travel_time-SetsTimes_example =
    set_travel_time-SetsTimes small id_a id_b 0 1 7 small-station_a small-station_b

abbrev entering_a : PassengerEvent
entering_a = record { station_id = id_a; type = enter; timestamp = [] }

abbrev crowd : List (Bytes × ℤ)
crowd = (id_a, pos 3) ∷ (id_d, negsuc 1) ∷ []

get_passenger_count-record_passenger_event_example :
    get_passenger_count (record_passenger_event small entering_a).1 id_a ≡ returns (pos 1)
unfolding add_station add_line add_routes add_route_to_line set_travel_time get_station lookup
    insert eq_bytes update ◌+ℤ◌
get_passenger_count-record_passenger_event_example =
    get_passenger_count-record_passenger_event small entering_a id_a 0 small-IsWellFormed
      small-station_a

crowd-IsUnique : IsUnique crowd
unfolding lookup eq_bytes
crowd-IsUnique = (refl, (refl, tt))

get_passenger_count-set_network_crowding_example :
    get_passenger_count (set_network_crowding small crowd) id_d ≡ returns (negsuc 1)
unfolding add_station add_line add_routes add_route_to_line set_travel_time get_station lookup
    insert eq_bytes update ◌+ℤ◌
get_passenger_count-set_network_crowding_example =
    get_passenger_count-set_network_crowding small crowd id_d 3 small-IsWellFormed crowd-IsUnique
      small-station_d

set_travel_time-get_travel_time_example : IsReadBack id_c id_b 8 (set_travel_time small id_c id_b 8)
set_travel_time-get_travel_time_example = set_travel_time-get_travel_time small id_c id_b 8

apart_a_d : (set_travel_time small id_a id_d 8).0 ≡ false
unfolding add_station add_line add_routes add_route_to_line set_travel_time lookup insert eq_bytes
    update
apart_a_d = refl

set_travel_time-none_example : (set_travel_time small id_a id_d 8).1 ≡ small
set_travel_time-none_example = set_travel_time-none small id_a id_d 8 apart_a_d
