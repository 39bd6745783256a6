-- ===== src/Network/Stations.antt =====
-- What `AddStation` does to the stations of the network (src/transport-network.cpp).
use metro_network_monitor.Base.{
  ℕ, ◌≡◌, refl, ap, subst, ◌⊎◌, inl, inr, Bool, true, false, none, some, [], arith, if◌then◌else◌,
  Option-cases, lookup-insert, lookup-insert_self, update_self, update_ind, nat_eq, lookup, Bytes,
  eq_bytes, bytes_eq,
}
use metro_network_monitor.Base.Int.{pos}
use metro_network_monitor.Network.Types.{Station, GraphNode, Network, returns}
use metro_network_monitor.Network.Build.{get_station, new_node, add_station}
use metro_network_monitor.Network.Passengers.{get_passenger_count}
use metro_network_monitor.Network.WellFormed.{IsWellFormed}
use metro_network_monitor.Network.WellFormed.Build.{add_station-IsWellFormed}

-- The station was unknown and is known now.
pub record NewStation (net : Network) (s : Station) (net' : Network) : Type 0 where
  pub unknown : get_station net s.id ≡ none
  -- its node has the name of the station and no edges, and it counts no passengers
  pub p : ℕ
  pub known : get_station net' s.id ≡ some p
  pub same_name : (net'.node p).name ≡ s.name
  pub no_edges : (net'.node p).edges ≡ []
  pub no_passengers : get_passenger_count net' s.id ≡ returns (pos 0)
  -- the other IDs lead where they led, to the nodes as they were
  pub others :
      (id : Bytes) → get_station net' id ≡ (if eq_bytes s.id id then some p else get_station net id)
  pub kept : (id : Bytes) (q : ℕ) → get_station net id ≡ some q → net'.node q ≡ net.node q
  pub well_formed : IsWellFormed net'

-- What `AddStation` returns and leaves.
pub AddsStation : Network → Station → Type 0
AddsStation net s =
    ((p : ℕ) × (get_station net s.id ≡ some p) × (add_station net s ≡ (false, net)))
    ⊎ ((net' : Network) × (add_station net s ≡ (true, net')) × NewStation net s net')

new_node-NewStation :
    (net : Network) (s : Station)
    → IsWellFormed net
    → IsWellFormed (new_node net s)
    → get_station net s.id ≡ none
    → NewStation net s (new_node net s)
unfolding new_node get_station get_passenger_count
new_node-NewStation net s h h' new =
    let fresh : GraphNode = record {
      id = s.id;
      name = s.name;
      passenger_count = pos 0;
      edges = [];
    } in
    let at_p : (new_node net s).node net.node_count ≡ fresh =
      update_self net.node net.node_count fresh in
    let here : lookup s.id (new_node net s).stations ≡ some net.node_count =
      lookup-insert_self s.id net.node_count net.stations in
    record {
      unknown = new;
      p = net.node_count;
      known = here;
      same_name = ap (λ (n : GraphNode). n.name) at_p;
      no_edges = ap (λ (n : GraphNode). n.edges) at_p;
      no_passengers =
          rw (here, get_passenger_count) (ap (λ (n : GraphNode). returns n.passenger_count) at_p);
      others = λ id. lookup-insert s.id id net.node_count net.stations;
      kept = λ id q found.
          update_ind (λ (n : GraphNode). n ≡ net.node q) net.node net.node_count fresh q
            (λ same. (let less = (h.stations id q found).0 in absurd (omega arith))) (λ _. refl);
      well_formed = h';
    }

-- `AddStation` refuses a station whose ID is known to the network and changes nothing; a station whose
-- ID is unknown it adds: the ID leads to a node with the name of the station, without edges and
-- without passengers, all other IDs lead where they led, to the same nodes as before, and the network
-- stays well formed.
pub add_station-AddsStation : (net : Network) (s : Station) → IsWellFormed net → AddsStation net s
unfolding AddsStation add_station
add_station-AddsStation net s h = elim (Option-cases (get_station net s.id)) [
  | inr (p, old) ↦ inl (p, old, rw (old, add_station) refl)
  | inl new ↦
      let made : add_station net s ≡ (true, new_node net s) = rw (new, add_station) refl in
      inr (
        new_node net s,
        made,
        new_node-NewStation net s h
            (subst (λ (r : Bool × Network). IsWellFormed r.1) made
              (add_station-IsWellFormed net s h))
            new,
      )
]
