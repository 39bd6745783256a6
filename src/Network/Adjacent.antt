-- ===== src/Network/Adjacent.antt =====
-- The loops of `SetTravelTime` against those of `GetTravelTime`, over one list of edges.
use metro_network_monitor.Base.{
  ℕ, zero, suc, ◌+◌, ◌-◌, ◌*◌, ◌/◌, ◌%◌, ◌^◌, ◌≤◌, ◌<◌, String, ◌≡◌, refl, sym, ap, subst, ◌∙◌, ◌≢◌,
  ◌↔◌, ◌⊎◌, inl, inr, Bool, true, false, not, ◌&&◌, ◌||◌, Option, none, some, List, [], ◌∷◌, ◌++◌,
  map, reverse, arith, ltb, leb, ◌==◌, if◌then◌else◌, ltb→lt, lt→ltb, le→not_ltb, not_ltb→le, ==→eq,
  ==_refl, not_==→ne, ne→not_==, Bool-cases, Option-cases, u32_mod, add_u32, add_u32-lt,
  add_u32_of_lt, update, update_self, update_ne, update_ind, length, take, drop, length-append,
  List-cases, Elem, All, Distinct, length-le_of_Distinct, length-map, Elem-map, Elem-append, Eq,
  ==_iff, nat_eq, lookup, insert, erase, lookup-insert, lookup-erase, lookup-insert_self,
  lookup-insert_ne, lookup-insert_cases, insert_new, IsUnique, insert-IsUnique, lookup_of_Elem,
  Elem-of_lookup, Bytes, bytes, eq_bytes, eq_bytes_refl, eq_bytes_iff, bytes_eq,
}
pub mod Both
pub mod Edges
use metro_network_monitor.Network.Types.{GraphNode, GraphEdge, Network}
use metro_network_monitor.Network.Build.{get_station}
use metro_network_monitor.Network.Times.{
  put_time, set_edges, set_between, set_travel_time, time_to, time_between, get_travel_time,
}

-- What setting travel times leaves alone.
pub record SameButTimes (net net' : Network) : Type 0 where
  node : net'.node ≡ net.node
  stations : net'.stations ≡ net.stations
  next_stop : (e : ℕ) → (net'.edge e).next_stop ≡ (net.edge e).next_stop

put_time-SameButTimes :
    (net : Network) (e time : ℕ) (hit : Bool)
    → SameButTimes net (if hit then put_time net e time else net)
unfolding put_time
put_time-SameButTimes net e time true = record {
  node = refl;
  stations = refl;
  next_stop = λ x.
      update_ind (λ (y : GraphEdge). y.next_stop ≡ (net.edge x).next_stop) net.edge e _ x
        (λ same. ap (λ v. (net.edge v).next_stop) (sym same)) (λ _. refl);
}
put_time-SameButTimes net e time false = record {
  node = refl;
  stations = refl;
  next_stop = λ x. refl;
}

pub set_edges-SameButTimes :
    (net : Network) (es : List ℕ) (to time : ℕ) (found : Bool)
    → SameButTimes net (set_edges net es to time found).0
unfolding set_edges
set_edges-SameButTimes net [] to time found = record {
  node = refl;
  stations = refl;
  next_stop = λ x. refl;
}
set_edges-SameButTimes net (e ∷ es) to time found =
    let hit = (net.edge e).next_stop == to in
    let net1 = if hit then put_time net e time else net in
    let first = put_time-SameButTimes net e time hit in
    let rest = set_edges-SameButTimes net1 es to time (hit || found) in
    record {
      node = rest.node ∙ first.node;
      stations = rest.stations ∙ first.stations;
      next_stop = λ x. rest.next_stop x ∙ first.next_stop x;
    }

-- An edge that has the time keeps it.
put_time-keeps :
    (net : Network) (e x time : ℕ) (hit : Bool)
    → (net.edge x).travel_time ≡ time
    → ((if hit then put_time net e time else net).edge x).travel_time ≡ time
unfolding put_time
put_time-keeps net e x time true h =
    update_ind (λ (y : GraphEdge). y.travel_time ≡ time) net.edge e _ x (λ _. refl) (λ _. h)
put_time-keeps net e x time false h = h

pub set_edges-keeps :
    (net : Network) (es : List ℕ) (to time : ℕ) (found : Bool) (x : ℕ)
    → (net.edge x).travel_time ≡ time
    → ((set_edges net es to time found).0.edge x).travel_time ≡ time
unfolding set_edges
set_edges-keeps net [] to time found x h = h
set_edges-keeps net (e ∷ es) to time found x h =
    let hit = (net.edge e).next_stop == to in
    set_edges-keeps (if hit then put_time net e time else net) es to time (hit || found) x
      (put_time-keeps net e x time hit h)

-- Each edge of the list that leads to the stop gets the time.
pub set_edges-sets :
    (net : Network) (es : List ℕ) (to time : ℕ) (found : Bool) (x : ℕ)
    → Elem x es
    → (net.edge x).next_stop ≡ to
    → ((set_edges net es to time found).0.edge x).travel_time ≡ time
unfolding set_edges put_time
set_edges-sets net [] to time found x m h = absurd m.1
set_edges-sets net (e ∷ es) to time found x (inl p) h =
    let hit = (net.edge e).next_stop == to in
    let yes' : hit ≡ true = ground arith in
    set_edges-keeps (if hit then put_time net e time else net) es to time (hit || found) x
      (rw yes' (written p))
  where
    written : x ≡ e → ((put_time net e time).edge x).travel_time ≡ time
    written q =
        update_ind (λ (y : GraphEdge). y.travel_time ≡ time) net.edge e _ x (λ _. refl)
          (λ other. absurd (other q))
set_edges-sets net (e ∷ es) to time found x (inr m) h =
    let hit = (net.edge e).next_stop == to in
    set_edges-sets (if hit then put_time net e time else net) es to time (hit || found) x m
      ((put_time-SameButTimes net e time hit).next_stop x ∙ h)

-- Some edge of the list leads to the stop.
unfoldable pub leads : Network → List ℕ → ℕ → Bool
leads net [] to = false
leads net (e ∷ es) to = (net.edge e).next_stop == to || leads net es to

pub leads-SameButTimes :
    (net net' : Network) (es : List ℕ) (to : ℕ)
    → SameButTimes net net'
    → leads net' es to ≡ leads net es to
unfolding leads
leads-SameButTimes net net' [] to h = refl
leads-SameButTimes net net' (e ∷ es) to h =
    rw (h.next_stop e)
      (ap (λ v. (net.edge e).next_stop == to || v) (leads-SameButTimes net net' es to h))

pub set_edges-found :
    (net : Network) (es : List ℕ) (to time : ℕ) (found : Bool)
    → (set_edges net es to time found).1 ≡ (leads net es to || found)
unfolding set_edges leads
set_edges-found net [] to time found = refl
set_edges-found net (e ∷ es) to time found =
    let hit = (net.edge e).next_stop == to in
    let net1 = if hit then put_time net e time else net in
    let rest = set_edges-found net1 es to time (hit || found) in
    let same = leads-SameButTimes net net1 es to (put_time-SameButTimes net e time hit) in
    rest ∙ rw same (regroup hit (leads net es to))
  where
    regroup : (a b : Bool) → (b || (a || found)) ≡ ((a || b) || found)
    regroup a b = ground arith

-- With no edge to the stop nothing changes.
pub set_edges-none :
    (net : Network) (es : List ℕ) (to time : ℕ) (found : Bool)
    → leads net es to ≡ false
    → (set_edges net es to time found).0 ≡ net
unfolding set_edges leads
set_edges-none net [] to time found h = refl
set_edges-none net (e ∷ es) to time found h =
    let hit = (net.edge e).next_stop == to in
    let no' : hit ≡ false = ground arith in
    subst
      (λ (b : Bool).
        (set_edges (if b then put_time net e time else net) es to time (b || found)).0 ≡ net)
      (sym no') (set_edges-none net es to time found (ground arith))

-- The loop of `GetTravelTime` over edges that all have one time.
pub time_to-leads :
    (net : Network) (es : List ℕ) (to time : ℕ)
    → ((x : ℕ) → Elem x es → (net.edge x).next_stop ≡ to → (net.edge x).travel_time ≡ time)
    → time_to net es to ≡ (if leads net es to then some time else none)
unfolding time_to leads
time_to-leads net [] to time h = refl
time_to-leads net (e ∷ es) to time h = ground (
  arith,
  time_to-leads net es to time (λ x m. h x (inr m)),
  ==→eq (net.edge e).next_stop to,
  h e (inl refl),
)

pub time_to-none :
    (net : Network) (es : List ℕ) (to : ℕ) → leads net es to ≡ false → time_to net es to ≡ none
unfolding time_to leads
time_to-none net [] to h = refl
time_to-none net (e ∷ es) to h = ground (arith, time_to-none net es to)
