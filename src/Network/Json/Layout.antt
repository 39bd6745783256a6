-- ===== src/Network/Json/Layout.antt =====
-- The loading of a layout of the network from its JSON.
use metro_network_monitor.Base.{
  ℕ, ◌≡◌, Bool, true, ◌&&◌, List, [], ◌∷◌, map, if◌then◌else◌, nat_eq, Bytes, bytes, bytes_eq,
}
use metro_network_monitor.Json.{Json}
use metro_network_monitor.Network.Types.{
  Station, Route, Line, Network, Outcome, returns, throws, undefined, unfinished,
}
use metro_network_monitor.Network.Build.{add_station, add_line}
use metro_network_monitor.Network.Times.{set_travel_time}
use metro_network_monitor.Network.Json.{Loaded, loaded, bad_station, bad_line, then_load}

-- A travel time between two stations.
pub record TravelTime : Type 0 where
  pub start : Bytes
  pub end_id : Bytes
  pub time : ℕ

-- What a file with a layout describes.
pub record Layout : Type 0 where
  pub stations : List Station
  pub lines : List Line
  pub times : List TravelTime

-- The stations one after the other, up to the first that the network refuses.
unfoldable pub add_stations : Network → List Station → Loaded
add_stations net [] = loaded true net
add_stations net (s ∷ ss) =
    let (added, net') = add_station net s in
    let rest = add_stations net' ss in if added then rest else bad_station s.id net'

-- The lines one after the other, up to the first that the network refuses.
unfoldable pub add_lines : Network → List Line → Outcome Loaded
add_lines net [] = returns (loaded true net)
add_lines net (l ∷ ls) = elim (add_line net l) [
  | throws m ↦ throws m
  | undefined ↦ undefined
  | unfinished ↦ unfinished
  | returns (added, net') ↦
      let rest = add_lines net' ls in if added then rest else returns (bad_line l.id net')
]

-- All the travel times, and whether each of them was set.
unfoldable pub set_travel_times : Network → List TravelTime → Bool × Network
set_travel_times net [] = (true, net)
set_travel_times net (t ∷ ts) =
    let (was_set, net') = set_travel_time net t.start t.end_id t.time in
    let (all_set, net'') = set_travel_times net' ts in (was_set && all_set, net'')

-- The stations, the lines and the travel times of a layout.
unfoldable pub add_layout : Network → Layout → Outcome Loaded
unfolding add_stations add_lines set_travel_times
add_layout net layout =
    then_load
      (then_load (returns (add_stations net layout.stations)) (λ net'. add_lines net' layout.lines))
      (λ net'.
        let (all_set, net'') = set_travel_times net' layout.times in returns (loaded all_set net''))

module _ (json : Json) where
  open json use {Value, of_string, of_unsigned, of_vector, of_object}

  abbrev pub station_members : Station → List (Bytes × Value)
  station_members s = (bytes "station_id", of_string s.id) ∷ (bytes "name", of_string s.name) ∷ []

  abbrev pub line_route_members : Route → List (Bytes × Value)
  line_route_members r =
      (bytes "route_id", of_string r.id)
      ∷ (bytes "direction", of_string r.direction)
      ∷ (bytes "line_id", of_string r.line_id)
      ∷ (bytes "start_station_id", of_string r.start_station_id)
      ∷ (bytes "end_station_id", of_string r.end_station_id)
      ∷ (bytes "route_stops", of_vector (map of_string r.stops))
      ∷ []

  abbrev pub line_members : Line → List (Bytes × Value)
  line_members l =
      (bytes "line_id", of_string l.id)
      ∷ (bytes "name", of_string l.name)
      ∷ (bytes "routes", of_vector (map (λ r. of_object (line_route_members r)) l.routes))
      ∷ []

  abbrev pub time_members : TravelTime → List (Bytes × Value)
  time_members t =
      (bytes "start_station_id", of_string t.start)
      ∷ (bytes "end_station_id", of_string t.end_id)
      ∷ (bytes "travel_time", of_unsigned t.time)
      ∷ []

  abbrev pub layout_members : Layout → List (Bytes × Value)
  layout_members layout =
      (bytes "stations", of_vector (map (λ s. of_object (station_members s)) layout.stations))
      ∷ (bytes "lines", of_vector (map (λ l. of_object (line_members l)) layout.lines))
      ∷ (bytes "travel_times", of_vector (map (λ t. of_object (time_members t)) layout.times))
      ∷ []

  -- The JSON of a layout, as the files with a layout have it.
  unfoldable pub layout_to_json : Layout → Value
  layout_to_json layout = of_object (layout_members layout)

-- A loop over a vector goes over its elements.
unfoldable pub RangesOver : Json → Type 0
RangesOver json = (vs : List json.Value) → json.range_of (json.of_vector vs) ≡ vs
