-- ===== src/Examples/Layouts.antt =====
-- The loading of a small layout.
use metro_network_monitor.Base.{◌≡◌, Option, none, [], ◌∷◌, arith, Bytes, bytes_eq}
use metro_network_monitor.Network.Types.{empty}
use metro_network_monitor.Network.Json.{network_of_json}
use metro_network_monitor.Network.Json.Layout.{Layout, add_layout, layout_to_json}
use metro_network_monitor.Network.Json.Loading.{network_of_json-layout_to_json}
use metro_network_monitor.Examples.Small.{id_a, id_b, id_c, station, line_1}
use metro_network_monitor.Examples.Values.{Tree, trees, trees-ReadsBack, trees-RangesOver}

abbrev no_text : Bytes → Option Tree
no_text msg = none

-- Line 1 over A, B and C, with the time from A to B.
abbrev small_layout : Layout
small_layout = record {
  stations = station id_a ∷ station id_b ∷ station id_c ∷ [];
  lines = line_1 ∷ [];
  times = record { start = id_a; end_id = id_b; time = 3 } ∷ [];
}

network_of_json-layout_to_json_example :
    network_of_json (trees no_text) empty (layout_to_json (trees no_text) small_layout)
    ≡ add_layout empty small_layout
network_of_json-layout_to_json_example =
    network_of_json-layout_to_json (trees no_text) (trees-ReadsBack no_text)
      (trees-RangesOver no_text) empty small_layout (omega arith, tt)
