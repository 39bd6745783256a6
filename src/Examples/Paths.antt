-- ===== src/Examples/Paths.antt =====
-- The crowding of paths in the small network.
use metro_network_monitor.Base.{◌≡◌, none, some, List, [], ◌∷◌}
use metro_network_monitor.Search.Stops.{FoundPath}
use metro_network_monitor.Search.Quiet.{to_u32, path_crowding, most_quiet}
use metro_network_monitor.Search.Quiet.Crowding.{passengers, path_crowding-passengers}
use metro_network_monitor.Search.Quiet.Quietest.{IsQuietest, most_quiet-IsQuietest}
use metro_network_monitor.Examples.Small.{small}

abbrev first_path : FoundPath
first_path = (record { node = 0; edge = none }, 0) ∷ (record { node = 1; edge = some 0 }, 3) ∷ []

abbrev other_paths : List FoundPath
other_paths =
    ((record { node = 1; edge = none }, 0) ∷ (record { node = 2; edge = some 1 }, 4) ∷ []) ∷ []

path_crowding-passengers_example :
    path_crowding small first_path ≡ to_u32 (passengers small first_path)
path_crowding-passengers_example = path_crowding-passengers small first_path

most_quiet-IsQuietest_example :
    IsQuietest small 5 first_path other_paths
      (most_quiet small 5 (path_crowding small first_path) first_path other_paths)
most_quiet-IsQuietest_example = most_quiet-IsQuietest small 5 first_path other_paths
