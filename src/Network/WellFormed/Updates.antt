-- ===== src/Network/WellFormed/Updates.antt =====
-- The invariant under passenger events and travel times.
use metro_network_monitor.Base.{
  ℕ, zero, suc, inl, inr, Bool, true, false, ◌||◌, List, [], ◌∷◌, ◌==◌, if◌then◌else◌, Option-cases,
  nat_eq, Bytes, bytes_eq,
}
use metro_network_monitor.Network.Types.{PassengerEvent, Network}
use metro_network_monitor.Network.Build.{get_station}
use metro_network_monitor.Network.Passengers.{delta, record_passenger_event, record_times}
use metro_network_monitor.Network.Times.{put_time, set_edges, set_between, set_travel_time}
use metro_network_monitor.Network.WellFormed.{IsWellFormed}
use metro_network_monitor.Network.WellFormed.Cells.{
  add_passengers-IsWellFormed, put_time-IsWellFormed,
}

-- `RecordPassengerEvent` keeps the invariant on both branches.
pub record_passenger_event-IsWellFormed :
    (net : Network) (event : PassengerEvent)
    → IsWellFormed net
    → IsWellFormed (record_passenger_event net event).1
unfolding record_passenger_event
record_passenger_event-IsWellFormed net event h =
    elim (Option-cases (get_station net event.station_id)) [
      | inl missing ↦ rw (missing, record_passenger_event) h
      | inr (p, found) ↦
          rw (found, record_passenger_event)
            (add_passengers-IsWellFormed net h p (delta event.type))
    ]

pub record_times-IsWellFormed :
    (n : ℕ) (net : Network) (event : PassengerEvent)
    → IsWellFormed net
    → IsWellFormed (record_times n net event)
unfolding record_times
record_times-IsWellFormed zero net event h = h
record_times-IsWellFormed (suc n) net event h =
    record_times-IsWellFormed n (record_passenger_event net event).1 event
      (record_passenger_event-IsWellFormed net event h)

set_edges-IsWellFormed :
    (net : Network) (es : List ℕ) (to time : ℕ) (found : Bool)
    → IsWellFormed net
    → IsWellFormed (set_edges net es to time found).0
unfolding set_edges
set_edges-IsWellFormed net [] to time found h = h
set_edges-IsWellFormed net (e ∷ es) to time found h =
    let hit = (net.edge e).next_stop == to in
    set_edges-IsWellFormed (if hit then put_time net e time else net) es to time (hit || found)
      (write hit)
  where
    write : (hit : Bool) → IsWellFormed (if hit then put_time net e time else net)
    write true = put_time-IsWellFormed net h e time
    write false = h

-- `SetTravelTime` keeps the invariant on every branch.
pub set_travel_time-IsWellFormed :
    (net : Network) (id_a id_b : Bytes) (time : ℕ)
    → IsWellFormed net
    → IsWellFormed (set_travel_time net id_a id_b time).1
unfolding set_travel_time set_between
set_travel_time-IsWellFormed net id_a id_b time h = elim (Option-cases (get_station net id_a)) [
  | inl missing ↦ rw (missing, set_travel_time) h
  | inr (a, found_a) ↦ elim (Option-cases (get_station net id_b)) [
    | inl missing ↦ rw (found_a, missing, set_travel_time) h
    | inr (b, found_b) ↦
        let first = set_edges net (net.node a).edges b time false in
        rw (found_a, found_b, set_travel_time)
          (set_edges-IsWellFormed first.0 (first.0.node b).edges a time first.1
            (set_edges-IsWellFormed net (net.node a).edges b time false h))
  ]
]
