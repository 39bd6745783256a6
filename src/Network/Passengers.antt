-- ===== src/Network/Passengers.antt =====
-- Passenger counts: `RecordPassengerEvent`, `GetPassengerCount` and `SetNetworkCrowding`.
use metro_network_monitor.Base.{
  ℕ, zero, suc, Bytes, bytes, List, [], ◌∷◌, ◌++◌, Bool, true, false, none, some, update,
  if◌then◌else◌, ltb,
}
use metro_network_monitor.Base.Int.{ℤ, pos, negsuc, pos_part, abs, ◌+ℤ◌}
use metro_network_monitor.Network.Types.{
  EventType, enter, leave, PassengerEvent, Network, Outcome, returns, throws,
}
use metro_network_monitor.Network.Build.{get_station}

-- What an event adds to the count.
abbrev pub delta : EventType → ℤ
delta enter = pos 1
delta leave = negsuc 0

-- `++stationNode->passengerCount` and `--stationNode->passengerCount`
unfoldable pub add_passengers : Network → ℕ → ℤ → Network
add_passengers net p d = record net {
  node =
      update net.node p
        (record (net.node p) { passenger_count = (net.node p).passenger_count +ℤ d });
}

unfoldable pub record_passenger_event : Network → PassengerEvent → Bool × Network
unfolding add_passengers
record_passenger_event net event = elim (get_station net event.station_id) [
  | none ↦ (false, net)
  | some p ↦ (true, add_passengers net p (delta event.type))
]

unfoldable pub get_passenger_count : Network → Bytes → Outcome ℤ
get_passenger_count net id = elim (get_station net id) [
  | none ↦ throws (bytes "Could not find station in the network: " ++ id)
  | some p ↦ returns (net.node p).passenger_count
]

-- The inner loop of `SetNetworkCrowding`, over the rounds left.
unfoldable pub record_times : ℕ → Network → PassengerEvent → Network
record_times zero net event = net
record_times (suc n) net event = record_times n (record_passenger_event net event).1 event

abbrev pub crowding_event : Bytes → ℤ → PassengerEvent
crowding_event id count = record {
  station_id = id;
  type = if ltb 0 (pos_part count) then enter else leave;
  timestamp = [];
}

-- The map is the list of its entries, in the order of the iteration.
unfoldable pub set_network_crowding : Network → List (Bytes × ℤ) → Network
unfolding record_times
set_network_crowding net [] = net
set_network_crowding net ((id, count) ∷ counts) =
    set_network_crowding (record_times (abs count) net (crowding_event id count)) counts
