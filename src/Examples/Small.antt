-- ===== src/Examples/Small.antt =====
-- A small network, built by the operations: line 1 goes from A over B to C, line 2 from B to C and on
-- to D.
use metro_network_monitor.Base.{
  ℕ, zero, suc, Bytes, bytes, ◌≡◌, ◌≤◌, refl, sym, subst, List, [], ◌∷◌, Bool, bytes_eq, lookup,
  insert, eq_bytes, update, arith, some,
}
use metro_network_monitor.Network.Types.{
  Station, Route, Line, Network, empty, Outcome, returns, throws, undefined, unfinished,
}
use metro_network_monitor.Network.Build.{
  get_station, add_station, add_route_to_line, add_routes, add_line,
}
use metro_network_monitor.Network.Times.{set_travel_time, get_travel_time}
use metro_network_monitor.Network.WellFormed.{IsWellFormed, empty-IsWellFormed}
use metro_network_monitor.Network.WellFormed.Build.{add_station-IsWellFormed, add_line-IsWellFormed}
use metro_network_monitor.Network.WellFormed.Updates.{set_travel_time-IsWellFormed}
use metro_network_monitor.Search.Dijkstra.Trails.{IsSmall}

abbrev pub id_a : Bytes
id_a = bytes "A"

abbrev pub id_b : Bytes
id_b = bytes "B"

abbrev pub id_c : Bytes
id_c = bytes "C"

abbrev pub id_d : Bytes
id_d = bytes "D"

abbrev pub station : Bytes → Station
station id = record { id = id; name = id }

abbrev pub route : Bytes → Bytes → List Bytes → Route
route id line stops = record {
  id = id;
  direction = [];
  line_id = line;
  start_station_id = [];
  end_station_id = [];
  stops = stops;
}

abbrev pub line_1 : Line
line_1 = record {
  id = bytes "1";
  name = bytes "one";
  routes = route (bytes "1a") (bytes "1") (id_a ∷ id_b ∷ id_c ∷ []) ∷ [];
}

abbrev pub line_2 : Line
line_2 = record {
  id = bytes "2";
  name = bytes "two";
  routes = route (bytes "2a") (bytes "2") (id_b ∷ id_c ∷ id_d ∷ []) ∷ [];
}

-- The network that a call leaves.
abbrev pub built : Outcome (Bool × Network) → Network
built (returns (_, net)) = net
built (throws _) = empty
built undefined = empty
built unfinished = empty

abbrev pub stations : Network
stations =
    let net1 = (add_station empty (station id_a)).1 in
    let net2 = (add_station net1 (station id_b)).1 in
    let net3 = (add_station net2 (station id_c)).1 in (add_station net3 (station id_d)).1

abbrev pub lines : Network
lines = built (add_line (built (add_line stations line_1)) line_2)

-- With the times 3 from A to B, 4 from B to C and 2 from C to D.
abbrev pub small : Network
small =
    let net1 = (set_travel_time lines id_a id_b 3).1 in
    let net2 = (set_travel_time net1 id_b id_c 4).1 in (set_travel_time net2 id_c id_d 2).1

pub small-edges : small.edge_count ≡ 4
unfolding add_station add_line add_routes add_route_to_line set_travel_time lookup insert eq_bytes
    update
small-edges = refl

time_c_b : get_travel_time small id_c id_b ≡ 4
unfolding add_station add_line add_routes add_route_to_line set_travel_time get_travel_time lookup
    insert eq_bytes update
time_c_b = refl

pub small-station_a : get_station small id_a ≡ some 0
unfolding add_station add_line add_routes add_route_to_line set_travel_time get_station lookup
    insert eq_bytes update
small-station_a = refl

pub small-station_b : get_station small id_b ≡ some 1
unfolding add_station add_line add_routes add_route_to_line set_travel_time get_station lookup
    insert eq_bytes update
small-station_b = refl

pub small-station_d : get_station small id_d ≡ some 3
unfolding add_station add_line add_routes add_route_to_line set_travel_time get_station lookup
    insert eq_bytes update
small-station_d = refl

pub stations-IsWellFormed : IsWellFormed stations
stations-IsWellFormed =
    let net1 = (add_station empty (station id_a)).1 in
    let net2 = (add_station net1 (station id_b)).1 in
    let net3 = (add_station net2 (station id_c)).1 in
    add_station-IsWellFormed net3 (station id_d) (
      add_station-IsWellFormed net2 (station id_c) (
        add_station-IsWellFormed net1 (station id_b)
          (add_station-IsWellFormed empty (station id_a) empty-IsWellFormed)))

built-IsWellFormed :
    (o : Outcome (Bool × Network)) (added : Bool) (net : Network)
    → o ≡ returns (added, net)
    → IsWellFormed net
    → IsWellFormed (built o)
built-IsWellFormed o added net e h = subst (λ v. IsWellFormed (built v)) (sym e) h

pub lines-IsWellFormed : IsWellFormed lines
lines-IsWellFormed =
    let (added1, net1, e1, h1) =
      add_line-IsWellFormed stations line_1 stations-IsWellFormed (λ e. cc, tt) in
    let first = built-IsWellFormed (add_line stations line_1) added1 net1 e1 h1 in
    let (added2, net2, e2, h2) =
      add_line-IsWellFormed (built (add_line stations line_1)) line_2 first (λ e. cc, tt) in
    built-IsWellFormed (add_line (built (add_line stations line_1)) line_2) added2 net2 e2 h2

pub small-IsWellFormed : IsWellFormed small
small-IsWellFormed =
    let net1 = (set_travel_time lines id_a id_b 3).1 in
    let net2 = (set_travel_time net1 id_b id_c 4).1 in
    set_travel_time-IsWellFormed net2 id_c id_d 2 (
      set_travel_time-IsWellFormed net1 id_b id_c 4
        (set_travel_time-IsWellFormed lines id_a id_b 3 lines-IsWellFormed))

times_small : (e : ℕ) → (small.edge e).travel_time ≤ 9
unfolding add_station add_line add_routes add_route_to_line set_travel_time lookup insert eq_bytes
    update
times_small zero = omega arith
times_small (suc zero) = omega arith
times_small (suc (suc zero)) = omega arith
times_small (suc (suc (suc zero))) = omega arith
times_small (suc (suc (suc (suc e)))) = grind arith

pub small-IsSmall : IsSmall small 0 9
small-IsSmall = record { times = times_small; fits = omega (arith, small-edges) }
