-- ===== src/Network/Counts.antt =====
-- What the passenger events do to the counts (`RecordPassengerEvent`, `SetNetworkCrowding`).
use metro_network_monitor.Base.{
  ℕ, zero, suc, ◌≡◌, refl, sym, ap, subst, ◌∙◌, ◌↔◌, inl, inr, Bool, true, false, Option, none,
  some, List, [], ◌∷◌, arith, if◌then◌else◌, Bool-cases, Option-cases, update_ind, nat_eq, lookup,
  IsUnique, Bytes, eq_bytes, eq_bytes_iff, bytes_eq,
}
use metro_network_monitor.Base.Int.{ℤ, pos, negsuc, sub_ℕ, abs, ◌+ℤ◌, +ℤ_zero, +ℤ_assoc}
use metro_network_monitor.Network.Types.{
  EventType, enter, leave, GraphNode, PassengerEvent, Network, returns,
}
use metro_network_monitor.Network.Build.{get_station}
use metro_network_monitor.Network.Passengers.{
  delta, add_passengers, record_passenger_event, get_passenger_count, record_times,
  set_network_crowding, crowding_event,
}
use metro_network_monitor.Network.WellFormed.{IsWellFormed}
use metro_network_monitor.Network.WellFormed.Updates.{
  record_passenger_event-IsWellFormed, record_times-IsWellFormed,
}

-- In a well-formed network two IDs name one node exactly when they are equal.
pub get_station_iff :
    (net : Network) (id id' : Bytes) (p q : ℕ)
    → IsWellFormed net
    → get_station net id ≡ some p
    → get_station net id' ≡ some q
    → (q ≡ p) ↔ (id ≡ id')
unfolding get_station
get_station_iff net id id' p q h e e' = (
  λ same.
      sym (h.stations id p e).1 ∙ ap (λ v. (net.node v).id) (sym same) ∙ (h.stations id' q e').1,
  λ same. let e'' : lookup id net.stations ≡ some q = rw same e' in cc,
)

pub stations-record :
    (net : Network) (event : PassengerEvent) (id : Bytes)
    → get_station (record_passenger_event net event).1 id ≡ get_station net id
unfolding record_passenger_event get_station add_passengers
stations-record net event id = elim (Option-cases (lookup event.station_id net.stations)) [
  | inl missing ↦ rw (missing, record_passenger_event)
  | inr (p, found) ↦ rw (found, record_passenger_event)
]

-- The count of a node after an event.
pub count-record :
    (net : Network) (event : PassengerEvent) (id : Bytes) (q : ℕ)
    → IsWellFormed net
    → get_station net id ≡ some q
    → ((record_passenger_event net event).1.node q).passenger_count
      ≡ (net.node q).passenger_count
        +ℤ (if eq_bytes event.station_id id then delta event.type else pos 0)
unfolding record_passenger_event add_passengers
count-record net event id q h e =
    let d = delta event.type in
    let before = (net.node q).passenger_count in
    elim (Option-cases (get_station net event.station_id)) [
      | inl missing ↦
          let differ : ¬ (event.station_id ≡ id) = λ same. cc (ap (get_station net) same) in
          let no' : eq_bytes event.station_id id ≡ false =
            ground (arith, eq_bytes_iff event.station_id id) in
          rw (missing, no', record_passenger_event) (sym (+ℤ_zero before))
      | inr (p, found) ↦
          let same = get_station_iff net event.station_id id p q h found e in
          rw (found, record_passenger_event)
            (update_ind
              (λ (n : GraphNode).
                n.passenger_count ≡ before +ℤ (if eq_bytes event.station_id id then d else pos 0))
              net.node p _ q
              (λ at_p.
                let yes' = (eq_bytes_iff event.station_id id).1 (same.0 at_p) in
                rw yes' (ap (λ v. (net.node v).passenger_count +ℤ d) (sym at_p)))
              (λ other.
                let no' : eq_bytes event.station_id id ≡ false =
                  ground (arith, eq_bytes_iff event.station_id id, same) in
                rw no' (sym (+ℤ_zero before))))
    ]

-- The change that `n` events of one type make.
abbrev change : ℕ → EventType → ℤ
change n enter = pos n
change n leave = sub_ℕ 0 n

change-suc : (n : ℕ) (t : EventType) → delta t +ℤ change n t ≡ change (suc n) t
unfolding ◌+ℤ◌
change-suc n enter = ground arith
change-suc n leave = ground arith

stations-record_times :
    (n : ℕ) (net : Network) (event : PassengerEvent) (id : Bytes)
    → get_station (record_times n net event) id ≡ get_station net id
unfolding record_times
stations-record_times zero net event id = refl
stations-record_times (suc n) net event id =
    stations-record_times n (record_passenger_event net event).1 event id
    ∙ stations-record net event id

count-record_times :
    (n : ℕ) (net : Network) (event : PassengerEvent) (id : Bytes) (q : ℕ)
    → IsWellFormed net
    → get_station net id ≡ some q
    → ((record_times n net event).node q).passenger_count
      ≡ (net.node q).passenger_count
        +ℤ (if eq_bytes event.station_id id then change n event.type else pos 0)
unfolding record_times
count-record_times zero net event id q h e = zero_times event.type (eq_bytes event.station_id id)
  where
    zero_times :
        (t : EventType) (b : Bool)
        → (net.node q).passenger_count
          ≡ (net.node q).passenger_count +ℤ (if b then change 0 t else pos 0)
    zero_times enter true = sym (+ℤ_zero _)
    zero_times leave true = sym (+ℤ_zero _)
    zero_times t false = sym (+ℤ_zero _)
count-record_times (suc n) net event id q h e =
    let net1 = (record_passenger_event net event).1 in
    let hit = eq_bytes event.station_id id in
    count-record_times n net1 event id q (record_passenger_event-IsWellFormed net event h)
      (stations-record net event id ∙ e)
    ∙ ap (λ v. v +ℤ (if hit then change n event.type else pos 0)) (count-record net event id q h e)
    ∙ +ℤ_assoc (net.node q).passenger_count (if hit then delta event.type else pos 0)
        (if hit then change n event.type else pos 0)
    ∙ ap (◌+ℤ◌ (net.node q).passenger_count) (joined hit)
  where
    joined :
        (b : Bool)
        → (if b then delta event.type else pos 0) +ℤ (if b then change n event.type else pos 0)
          ≡ (if b then change (suc n) event.type else pos 0)
    joined true = change-suc n event.type
    joined false = +ℤ_zero (pos 0)

-- The rounds of the loop for one entry add up to the entry.
change-abs : (count : ℤ) (id : Bytes) → change (abs count) (crowding_event id count).type ≡ count
change-abs (pos zero) id = refl
change-abs (pos (suc n)) id = ground arith
change-abs (negsuc n) id = ground arith

stations-set_network_crowding :
    (net : Network) (counts : List (Bytes × ℤ)) (id : Bytes)
    → get_station (set_network_crowding net counts) id ≡ get_station net id
unfolding set_network_crowding
stations-set_network_crowding net [] id = refl
stations-set_network_crowding net ((j, count) ∷ counts) id =
    stations-set_network_crowding (record_times (abs count) net (crowding_event j count)) counts id
    ∙ stations-record_times (abs count) net (crowding_event j count) id

-- The entry of a map, or 0.
abbrev pub entry : Option ℤ → ℤ
entry none = pos 0
entry (some count) = count

count-set_network_crowding :
    (net : Network) (counts : List (Bytes × ℤ)) (id : Bytes) (q : ℕ)
    → IsWellFormed net
    → IsUnique counts
    → get_station net id ≡ some q
    → ((set_network_crowding net counts).node q).passenger_count
      ≡ (net.node q).passenger_count +ℤ entry (lookup id counts)
unfolding set_network_crowding lookup
count-set_network_crowding net [] id q h u e = sym (+ℤ_zero _)
count-set_network_crowding net ((j, count) ∷ counts) id q h (new, u) e =
    let event = crowding_event j count in
    let net1 = record_times (abs count) net event in
    let before = (net.node q).passenger_count in
    let one = count-record_times (abs count) net event id q h e in
    let ih =
      count-set_network_crowding net1 counts id q
        (record_times-IsWellFormed (abs count) net event h) u
        (stations-record_times (abs count) net event id ∙ e) in
    elim (Bool-cases (eq_bytes j id)) [
      | inl same ↦
          let p : j ≡ id = (eq_bytes_iff j id).0 same in
          let gone : lookup id counts ≡ none = subst (λ v. lookup v counts ≡ none) p new in
          let one' = (rw (same, change-abs count j) at one) in
          rw same (ih ∙ rw gone (+ℤ_zero (net1.node q).passenger_count ∙ one'))
      | inr other ↦
          let one' = (rw other at one) in
          rw other (ih ∙ ap (λ v. v +ℤ entry (lookup id counts)) (one' ∙ +ℤ_zero before))
    ]

-- One for a passenger that enters, and minus one for one that leaves.
abbrev pub one : EventType → ℤ
one enter = pos 1
one leave = negsuc 0

pub delta_one : (t : EventType) → delta t ≡ one t
delta_one enter = refl
delta_one leave = refl

-- An event at a station adds one to the count of that station or takes one from it, and the counts of
-- all other stations of a well-formed network stay; an event at an unknown station changes none.
pub get_passenger_count-record_passenger_event :
    (net : Network) (event : PassengerEvent) (id : Bytes) (q : ℕ)
    → IsWellFormed net
    → get_station net id ≡ some q
    → get_passenger_count (record_passenger_event net event).1 id
      ≡ returns (
          (net.node q).passenger_count
          +ℤ (if eq_bytes event.station_id id then one event.type else pos 0))
unfolding get_passenger_count
get_passenger_count-record_passenger_event net event id q h e =
    let known = stations-record net event id ∙ e in
    rw (known, get_passenger_count)
      (ap returns (
        count-record net event id q h e
        ∙ ap
            (λ d.
              (net.node q).passenger_count +ℤ (if eq_bytes event.station_id id then d else pos 0))
            (delta_one event.type)))

-- After `SetNetworkCrowding` each station of a well-formed network counts as many passengers more as
-- the map has for it, or less where that is negative, and no other where it has no entry.
pub get_passenger_count-set_network_crowding :
    (net : Network) (counts : List (Bytes × ℤ)) (id : Bytes) (q : ℕ)
    → IsWellFormed net
    → IsUnique counts
    → get_station net id ≡ some q
    → get_passenger_count (set_network_crowding net counts) id
      ≡ returns ((net.node q).passenger_count +ℤ entry (lookup id counts))
unfolding get_passenger_count
get_passenger_count-set_network_crowding net counts id q h u e =
    let known = stations-set_network_crowding net counts id ∙ e in
    rw (known, get_passenger_count) (ap returns (count-set_network_crowding net counts id q h u e))
