-- ===== src/Network/Json.antt =====
-- The conversions from and to JSON, and `FromJson` (src/transport-network.cpp).
pub mod Layout
pub mod Loading
pub mod RoundTrip
use metro_network_monitor.Base.{
  ℕ, ◌-◌, Bytes, bytes, List, [], ◌∷◌, Bool, true, false, ◌&&◌, Option, none, some, map, length,
  take, eq_bytes, if◌then◌else◌,
}
use metro_network_monitor.Json.{Json, each_of, ◌>>=◌}
use metro_network_monitor.Network.Types.{
  Station, Route, Line, EventType, enter, leave, PassengerEvent, Step, TravelRoute, Network,
  Outcome, returns, throws, undefined, unfinished,
}
use metro_network_monitor.Network.Build.{add_station, add_line}
use metro_network_monitor.Network.Times.{set_travel_time}

-- How `FromJson` ends: with its result, or with an exception, and with the network that it leaves.
pub data Loaded : Type 0 where
  loaded : Bool → Network → Loaded
  bad_json : Network → Loaded
  bad_station : Bytes → Network → Loaded
  bad_line : Bytes → Network → Loaded

-- The network that is left.
abbrev pub network_left : Loaded → Network
network_left (loaded ok net) = net
network_left (bad_json net) = net
network_left (bad_station id net) = net
network_left (bad_line id net) = net

-- A part of the loading, from the network that the part before it leaves.
abbrev pub then_load : Outcome Loaded → (Network → Outcome Loaded) → Outcome Loaded
then_load (returns (loaded true net)) k = k net
then_load r k = r

-- `datetimeZ.substr(0, datetimeZ.size() - 1)`: an empty text stays empty.
abbrev pub without_last : Bytes → Bytes
without_last text = take (length text - 1) text

module _ (json : Json) where
  open json use {
    Value, parse, at, string_of, unsigned_of, vector_of, range_of, of_string, of_unsigned,
    of_vector, of_object,
  }

  abbrev pub string_at : Value → Bytes → Option Bytes
  string_at src key = do v ← at src key; string_of v

  abbrev pub unsigned_at : Value → Bytes → Option ℕ
  unsigned_at src key = do v ← at src key; unsigned_of v

  abbrev pub vector_at : Value → Bytes → Option (List Value)
  vector_at src key = do v ← at src key; vector_of v

  -- `from_json` of a passenger event; `parse_time` is `from_iso_extended_string`, `none` when it
  -- throws.
  unfoldable pub event_of_json : (Bytes → Option Bytes) → Value → Option PassengerEvent
  event_of_json parse_time src = do
    id ← string_at src (bytes "station_id")
    kind ← string_at src (bytes "passenger_event")
    datetime ← string_at src (bytes "datetime")
    timestamp ← parse_time (without_last datetime)
    some (record {
      station_id = id;
      type = if eq_bytes kind (bytes "in") then enter else leave;
      timestamp = timestamp;
    })

  abbrev pub step_members : Step → List (Bytes × Value)
  step_members src =
      (bytes "start_station_id", of_string src.start_station_id)
      ∷ (bytes "end_station_id", of_string src.end_station_id)
      ∷ (bytes "line_id", of_string src.line_id)
      ∷ (bytes "route_id", of_string src.route_id)
      ∷ (bytes "travel_time", of_unsigned src.travel_time)
      ∷ []

  unfoldable pub step_to_json : Step → Value
  step_to_json src = of_object (step_members src)

  unfoldable pub step_of_json : Value → Option Step
  step_of_json src = do
    start ← string_at src (bytes "start_station_id")
    end_id ← string_at src (bytes "end_station_id")
    line ← string_at src (bytes "line_id")
    route ← string_at src (bytes "route_id")
    time ← unsigned_at src (bytes "travel_time")
    some (record {
      start_station_id = start;
      end_station_id = end_id;
      line_id = line;
      route_id = route;
      travel_time = time;
    })

  abbrev pub route_members : TravelRoute → List (Bytes × Value)
  route_members src =
      (bytes "start_station_id", of_string src.start_station_id)
      ∷ (bytes "end_station_id", of_string src.end_station_id)
      ∷ (bytes "total_travel_time", of_unsigned src.total_travel_time)
      ∷ (bytes "steps", of_vector (map step_to_json src.steps))
      ∷ []

  unfoldable pub route_to_json : TravelRoute → Value
  route_to_json src = of_object (route_members src)

  unfoldable pub route_of_json : Value → Option TravelRoute
  unfolding step_of_json
  route_of_json src = do
    start ← string_at src (bytes "start_station_id")
    end_id ← string_at src (bytes "end_station_id")
    total ← unsigned_at src (bytes "total_travel_time")
    values ← vector_at src (bytes "steps")
    steps ← each_of step_of_json values
    some (record {
      start_station_id = start;
      end_station_id = end_id;
      total_travel_time = total;
      steps = steps;
    })

  unfoldable pub station_of_json : Value → Option Station
  station_of_json src = do
    id ← string_at src (bytes "station_id")
    name ← string_at src (bytes "name")
    some (record { id = id; name = name })

  unfoldable pub line_route_of_json : Value → Option Route
  line_route_of_json src = do
    id ← string_at src (bytes "route_id")
    direction ← string_at src (bytes "direction")
    line ← string_at src (bytes "line_id")
    start ← string_at src (bytes "start_station_id")
    end_id ← string_at src (bytes "end_station_id")
    values ← vector_at src (bytes "route_stops")
    stops ← each_of string_of values
    some (record {
      id = id;
      direction = direction;
      line_id = line;
      start_station_id = start;
      end_station_id = end_id;
      stops = stops;
    })

  unfoldable pub line_of_json : Value → Option Line
  unfolding line_route_of_json
  line_of_json src = do
    id ← string_at src (bytes "line_id")
    name ← string_at src (bytes "name")
    values ← at src (bytes "routes")
    routes ← each_of line_route_of_json (range_of values)
    some (record { id = id; name = name; routes = routes })

  -- The loop over the stations.
  unfoldable pub load_stations : Network → List Value → Loaded
  unfolding station_of_json
  load_stations net [] = loaded true net
  load_stations net (v ∷ vs) = elim (station_of_json v) [
    | none ↦ bad_json net
    | some s ↦
        let (added, net') = add_station net s in
        let rest = load_stations net' vs in if added then rest else bad_station s.id net'
  ]

  -- The loop over the lines.
  unfoldable pub load_lines : Network → List Value → Outcome Loaded
  unfolding line_of_json
  load_lines net [] = returns (loaded true net)
  load_lines net (v ∷ vs) = elim (line_of_json v) [
    | none ↦ returns (bad_json net)
    | some l ↦ elim (add_line net l) [
      | throws m ↦ throws m
      | undefined ↦ undefined
      | unfinished ↦ unfinished
      | returns (added, net') ↦
          let rest = load_lines net' vs in if added then rest else returns (bad_line l.id net')
    ]
  ]

  -- The arguments of `SetTravelTime`.
  unfoldable pub time_of_json : Value → Option (Bytes × (Bytes × ℕ))
  time_of_json src = do
    start ← string_at src (bytes "start_station_id")
    end_id ← string_at src (bytes "end_station_id")
    time ← unsigned_at src (bytes "travel_time")
    some (start, (end_id, time))

  -- The loop over the travel times, with `ok` so far.
  unfoldable pub load_times : Bool → Network → List Value → Loaded
  unfolding time_of_json
  load_times so_far net [] = loaded so_far net
  load_times so_far net (v ∷ vs) = elim (time_of_json v) [
    | none ↦ bad_json net
    | some (start, (end_id, time)) ↦
        let (was_set, net') = set_travel_time net start end_id time in
        load_times (so_far && was_set) net' vs
  ]

  -- The loops one after the other, each over the member with its name.
  abbrev pub load_member : Value → Bytes → Network → (List Value → Loaded) → Loaded
  load_member src key net k = elim (at src key) [ none ↦ bad_json net | some vs ↦ k (range_of vs) ]

  unfoldable pub load_lines_of : Value → Network → Outcome Loaded
  unfolding load_lines
  load_lines_of src net = elim (at src (bytes "lines")) [
    | none ↦ returns (bad_json net)
    | some vs ↦ load_lines net (range_of vs)
  ]

  -- `FromJson`
  unfoldable pub network_of_json : Network → Value → Outcome Loaded
  unfolding load_stations load_lines_of load_times
  network_of_json net src =
      let stations = load_member src (bytes "stations") net (load_stations net) in
      let lines = then_load (returns stations) (load_lines_of src) in
      then_load lines
        (λ net'. returns (load_member src (bytes "travel_times") net' (load_times true net')))
