-- ===== src/Network/Json/Loading.antt =====
-- The loading of the JSON of a layout against the layout (src/transport-network.cpp).
use metro_network_monitor.Base.{
  ◌<◌, ◌≡◌, refl, ap, ◌∙◌, Bool, true, false, ◌&&◌, some, List, [], ◌∷◌, map, u32_mod, All,
  if◌then◌else◌, nat_eq, lookup, IsUnique, Bytes, bytes, eq_bytes, bytes_eq,
}
use metro_network_monitor.Json.{Json, ReadsBack, each_of}
use metro_network_monitor.Network.Types.{
  Station, Route, Line, Network, Outcome, returns, throws, undefined, unfinished,
}
use metro_network_monitor.Network.Build.{add_station, add_line}
use metro_network_monitor.Network.Times.{set_travel_time}
use metro_network_monitor.Network.Json.{
  Loaded, loaded, bad_json, bad_station, bad_line, then_load, station_of_json, line_route_of_json,
  line_of_json, time_of_json, load_stations, load_lines, load_times, load_member, load_lines_of,
  network_of_json,
}
use metro_network_monitor.Network.Json.RoundTrip.{
  string_at-member, unsigned_at-member, vector_at-member,
}
use metro_network_monitor.Network.Json.Layout.{
  TravelTime, Layout, add_stations, add_lines, set_travel_times, add_layout, station_members,
  line_route_members, line_members, time_members, layout_members, layout_to_json, RangesOver,
}

module _ (json : Json) (law : ReadsBack json) where
  station-read :
      (s : Station) → station_of_json json (json.of_object (station_members json s)) ≡ some s
  unfolding station_of_json lookup eq_bytes
  station-read s =
      let u : IsUnique (station_members json s) = (refl, (refl, tt)) in
      rw
        (
          string_at-member json law (station_members json s) (bytes "station_id") s.id u refl,
          string_at-member json law (station_members json s) (bytes "name") s.name u refl,
          station_of_json,
        )
        refl

  time-read :
      (t : TravelTime)
      → t.time < u32_mod
      → time_of_json json (json.of_object (time_members json t))
        ≡ some (t.start, (t.end_id, t.time))
  unfolding time_of_json lookup eq_bytes
  time-read t small =
      let u : IsUnique (time_members json t) = (refl, (refl, (refl, tt))) in
      rw
        (
          string_at-member json law (time_members json t) (bytes "start_station_id") t.start u refl,
          string_at-member json law (time_members json t) (bytes "end_station_id") t.end_id u refl,
          unsigned_at-member json law (time_members json t) (bytes "travel_time") t.time u refl
              small,
          time_of_json,
        )
        refl

  stops-read : (ids : List Bytes) → each_of json.string_of (map json.of_string ids) ≡ some ids
  unfolding each_of
  stops-read [] = refl
  stops-read (id ∷ ids) = rw (law.string_of-of_string id, stops-read ids, each_of) refl

  line_route-read :
      (r : Route) → line_route_of_json json (json.of_object (line_route_members json r)) ≡ some r
  unfolding line_route_of_json lookup eq_bytes
  line_route-read r =
      let ms = line_route_members json r in
      let u : IsUnique ms = (refl, (refl, (refl, (refl, (refl, (refl, tt)))))) in
      rw
        (
          string_at-member json law ms (bytes "route_id") r.id u refl,
          string_at-member json law ms (bytes "direction") r.direction u refl,
          string_at-member json law ms (bytes "line_id") r.line_id u refl,
          string_at-member json law ms (bytes "start_station_id") r.start_station_id u refl,
          string_at-member json law ms (bytes "end_station_id") r.end_station_id u refl,
          vector_at-member json law ms (bytes "route_stops") (map json.of_string r.stops) u refl,
          stops-read r.stops,
          line_route_of_json,
        )
        refl

  at-member :
      (members : List (Bytes × json.Value)) (key : Bytes) (v : json.Value)
      → IsUnique members
      → lookup key members ≡ some v
      → json.at (json.of_object members) key ≡ some v
  at-member members key v unique found = law.at-of_object members key unique ∙ found

  line_routes-read :
      (rs : List Route)
      → each_of (line_route_of_json json) (map (λ r. json.of_object (line_route_members json r)) rs)
        ≡ some rs
  unfolding each_of
  line_routes-read [] = refl
  line_routes-read (r ∷ rs) = rw (line_route-read r, line_routes-read rs, each_of) refl

  module _ (ranges : RangesOver json) where
    line-read : (l : Line) → line_of_json json (json.of_object (line_members json l)) ≡ some l
    unfolding line_of_json RangesOver lookup eq_bytes
    line-read l =
        let ms = line_members json l in
        let u : IsUnique ms = (refl, (refl, (refl, tt))) in
        rw
          (
            string_at-member json law ms (bytes "line_id") l.id u refl,
            string_at-member json law ms (bytes "name") l.name u refl,
            at-member ms (bytes "routes") _ u refl,
            ranges (map (λ r. json.of_object (line_route_members json r)) l.routes),
            line_routes-read l.routes,
            line_of_json,
          )
          refl

    load_stations-map :
        (net : Network) (ss : List Station)
        → load_stations json net (map (λ s. json.of_object (station_members json s)) ss)
          ≡ add_stations net ss
    unfolding load_stations add_stations
    load_stations-map net [] = refl
    load_stations-map net (s ∷ ss) =
        rw (station-read s, load_stations-map (add_station net s).1 ss, load_stations) refl

    load_lines-map :
        (net : Network) (ls : List Line)
        → load_lines json net (map (λ l. json.of_object (line_members json l)) ls)
          ≡ add_lines net ls
    unfolding load_lines add_lines
    load_lines-map net [] = refl
    load_lines-map net (l ∷ ls) =
        rw (line-read l, load_lines) (by_result (λ net'. load_lines-map net' ls) (add_line net l))
      where
        values : List json.Value
        values = map (λ l. json.of_object (line_members json l)) ls

        by_result :
            ((net' : Network) → load_lines json net' values ≡ add_lines net' ls)
            → (r : Outcome (Bool × Network))
            → (elim r as (λ _. Outcome Loaded) [
              | throws m ↦ throws m
              | undefined ↦ undefined
              | unfinished ↦ unfinished
              | returns (added, net') ↦
                  let rest = load_lines json net' values in
                  if added then rest else returns (bad_line l.id net')
            ])
              ≡ (elim r as (λ _. Outcome Loaded) [
                | throws m ↦ throws m
                | undefined ↦ undefined
                | unfinished ↦ unfinished
                | returns (added, net') ↦
                    let rest = add_lines net' ls in
                    if added then rest else returns (bad_line l.id net')
              ])
        by_result same (returns (added, net')) =
            ap (λ rest. if added then rest else returns (bad_line l.id net')) (same net')
        by_result same (throws m) = refl
        by_result same undefined = refl
        by_result same unfinished = refl

    load_times-map :
        (so_far : Bool) (net : Network) (ts : List TravelTime)
        → All (λ (t : TravelTime). t.time < u32_mod) ts
        → load_times json so_far net (map (λ t. json.of_object (time_members json t)) ts)
          ≡ (let (all_set, net') = set_travel_times net ts in loaded (so_far && all_set) net')
    unfolding load_times set_travel_times
    load_times-map true net [] small = refl
    load_times-map false net [] small = refl
    load_times-map so_far net (t ∷ ts) (one, more) =
        let r = set_travel_time net t.start t.end_id t.time in
        rw (time-read t one, load_times)
          (load_times-map (so_far && r.0) r.1 ts more
            ∙ ap (λ b. loaded b (set_travel_times r.1 ts).1)
                (regroup so_far r.0 (set_travel_times r.1 ts).0))
      where
        regroup : (a b c : Bool) → ((a && b) && c) ≡ (a && (b && c))
        regroup true b c = refl
        regroup false b c = refl

    load_member-vector :
        (src : json.Value) (key : Bytes) (net : Network) (k : List json.Value → Loaded)
        (vs : List json.Value)
        → json.at src key ≡ some (json.of_vector vs)
        → load_member json src key net k ≡ k vs
    unfolding RangesOver
    load_member-vector src key net k vs found = rw (found, load_member) (ap k (ranges vs))

    then_load-same :
        (r : Outcome Loaded) (j k : Network → Outcome Loaded)
        → ((net : Network) → j net ≡ k net)
        → then_load r j ≡ then_load r k
    then_load-same (returns (loaded true net)) j k h = h net
    then_load-same (returns (loaded false net)) j k h = refl
    then_load-same (returns (bad_json net)) j k h = refl
    then_load-same (returns (bad_station id net)) j k h = refl
    then_load-same (returns (bad_line id net)) j k h = refl
    then_load-same (throws m) j k h = refl
    then_load-same undefined j k h = refl
    then_load-same unfinished j k h = refl

    -- With a JSON library that reads back what it has written and whose loops go over the elements of a
    -- vector, and with times that fit into an `unsigned int`, `FromJson` of the JSON of a layout does
    -- to any network what the calls of `AddStation` for its stations, of `AddLine` for its lines, with
    -- all their routes and stops, and of `SetTravelTime` for its travel times do one after the other:
    -- it ends with the exception for the first station or line that is refused, and else returns
    -- whether each travel time was set.
    pub network_of_json-layout_to_json :
        (net : Network) (layout : Layout)
        → All (λ (t : TravelTime). t.time < u32_mod) layout.times
        → network_of_json json net (layout_to_json json layout) ≡ add_layout net layout
    unfolding network_of_json load_lines_of layout_to_json add_layout RangesOver lookup eq_bytes
    network_of_json-layout_to_json net layout small =
        let ms = layout_members json layout in
        let u : IsUnique ms = (refl, (refl, (refl, tt))) in
        let src = json.of_object ms in
        let times = λ (net' : Network).
          returns (load_member json src (bytes "travel_times") net' (load_times json true net')) in
        let stations_same =
          load_member-vector src (bytes "stations") net (load_stations json net) _
            (at-member ms (bytes "stations") _ u refl)
          ∙ load_stations-map net layout.stations in
        ap (λ l. then_load (then_load (returns l) (load_lines_of json src)) times) stations_same
        ∙ (ap (λ r. then_load r times)
              (then_load-same (returns (add_stations net layout.stations)) _ _
                (λ net'. lines_same net' src (at-member ms (bytes "lines") _ u refl)))
            ∙ then_load-same _ _ _ (λ net'. ap returns (
                load_member-vector src (bytes "travel_times") net' (load_times json true net') _
                  (at-member ms (bytes "travel_times") _ u refl)
                ∙ load_times-map true net' layout.times small)))
      where
        lines_same :
            (net' : Network) (src : json.Value)
            → json.at src (bytes "lines")
              ≡ some (json.of_vector (map (λ l. json.of_object (line_members json l)) layout.lines))
            → load_lines_of json src net' ≡ add_lines net' layout.lines
        lines_same net' src found =
            rw (found, load_lines_of)
              (ap (load_lines json net')
                  (ranges (map (λ l. json.of_object (line_members json l)) layout.lines))
                ∙ load_lines-map net' layout.lines)
