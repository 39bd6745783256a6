-- ===== src/Network/Adjacent/Edges.antt =====
-- What `SetTravelTime` does to each edge (src/transport-network.cpp).
use metro_network_monitor.Base.{
  ℕ, ◌≡◌, refl, sym, ap, ◌∙◌, inl, inr, Bool, true, false, ◌&&◌, ◌||◌, some, List, [], ◌∷◌, arith,
  ◌==◌, if◌then◌else◌, ==→eq, ==_refl, ne→not_==, Bool-cases, update_ind, nat_eq, Bytes, bytes_eq,
}
use metro_network_monitor.Network.Types.{GraphEdge, Network}
use metro_network_monitor.Network.Build.{get_station}
use metro_network_monitor.Network.Times.{put_time, set_edges, set_between, set_travel_time}
use metro_network_monitor.Network.Adjacent.{
  set_edges-SameButTimes, leads, leads-SameButTimes, set_edges-found,
}

-- The edge is one of the list.
unfoldable pub has : ℕ → List ℕ → Bool
has x [] = false
has x (e ∷ es) = e == x || has x es

-- The edge leads from one of the two nodes to the other.
unfoldable pub joins : Network → ℕ → ℕ → ℕ → Bool
joins net a b x =
    (has x (net.node a).edges && (net.edge x).next_stop == b)
    || (has x (net.node b).edges && (net.edge x).next_stop == a)

-- The edge with another time.
abbrev pub timed : ℕ → GraphEdge → GraphEdge
timed time e = record e { travel_time = time }

put_time-edge :
    (net : Network) (e time x : ℕ) (hit : Bool)
    → (if hit then put_time net e time else net).edge x
      ≡ (if hit && e == x then timed time (net.edge x) else net.edge x)
unfolding put_time
put_time-edge net e time x true =
    update_ind (λ (y : GraphEdge). y ≡ (if e == x then timed time (net.edge x) else net.edge x))
      net.edge e _ x (λ same. rw (same, ==_refl e) refl)
      (λ other. (let no' : (e == x) ≡ false = ne→not_== e x (λ p. other (sym p)) in rw no' refl))
put_time-edge net e time x false = refl

-- To give the time twice is to give it once.
again :
    (to time : ℕ) (y : GraphEdge) (b : Bool)
    → (let z = if y.next_stop == to then timed time y else y in
        if b && z.next_stop == to then timed time z else z)
      ≡ (if y.next_stop == to then timed time y else y)
again to time y b = twice (y.next_stop == to) refl b
  where
    twice :
        (hit : Bool)
        → (y.next_stop == to) ≡ hit
        → (b : Bool)
        → (let z = if hit then timed time y else y in
            if b && z.next_stop == to then timed time z else z)
          ≡ (if hit then timed time y else y)
    twice true e true = rw e refl
    twice true e false = refl
    twice false e true = rw e refl
    twice false e false = refl

-- The loop gives the time to the edges of the list that lead to the stop, and to no other.
set_edges-edge :
    (net : Network) (es : List ℕ) (to time : ℕ) (found : Bool) (x : ℕ)
    → (set_edges net es to time found).0.edge x
      ≡ (if has x es && (net.edge x).next_stop == to then timed time (net.edge x) else net.edge x)
unfolding set_edges has
set_edges-edge net [] to time found x = refl
set_edges-edge net (e ∷ es) to time found x =
    let hit = (net.edge e).next_stop == to in
    let net1 = if hit then put_time net e time else net in
    let rest = set_edges-edge net1 es to time (hit || found) x in
    elim (Bool-cases (e == x)) [
      | inl same ↦
          let first : net1.edge x
              ≡ (if (net.edge x).next_stop == to then timed time (net.edge x) else net.edge x) =
            put_time-edge net e time x hit
            ∙ here hit same (ap (λ v. (net.edge v).next_stop == to) (==→eq e x same)) in
          rest
          ∙ (ap (λ (y : GraphEdge). if has x es && y.next_stop == to then timed time y else y) first
              ∙ (again to time (net.edge x) (has x es) ∙ rw same refl))
      | inr other ↦
          let first : net1.edge x ≡ net.edge x = put_time-edge net e time x hit ∙ there hit other in
          rest
          ∙ (ap (λ (y : GraphEdge). if has x es && y.next_stop == to then timed time y else y) first
              ∙ rw other refl)
    ]
  where
    here :
        (b : Bool) {c : Bool}
        → (e == x) ≡ true
        → b ≡ c
        → (if b && e == x then timed time (net.edge x) else net.edge x)
          ≡ (if c then timed time (net.edge x) else net.edge x)
    here true same q = rw (same, sym q) refl
    here false same q = rw (sym q) refl

    there :
        (b : Bool)
        → (e == x) ≡ false
        → (if b && e == x then timed time (net.edge x) else net.edge x) ≡ net.edge x
    there true other = rw other refl
    there false other = refl

-- The network with other edges.
abbrev pub with_edges : (ℕ → GraphEdge) → Network → Network
with_edges edge net = record net { edge = edge }

-- All but the edges stays.
set_edges-frame :
    (net : Network) (es : List ℕ) (to time : ℕ) (found : Bool)
    → with_edges net.edge (set_edges net es to time found).0 ≡ net
unfolding set_edges put_time
set_edges-frame net [] to time found = refl
set_edges-frame net (e ∷ es) to time found =
    let hit = (net.edge e).next_stop == to in
    ap (λ (n : Network). with_edges net.edge n)
      (set_edges-frame (if hit then put_time net e time else net) es to time (hit || found))
    ∙ one hit
  where
    one : (b : Bool) → with_edges net.edge (if b then put_time net e time else net) ≡ net
    one true = refl
    one false = refl

-- What is left when both stations are known.
pub record SetsTimes (net : Network) (a b time : ℕ) (r : Bool × Network) : Type 0 where
  -- the edges that join the stations have the time, and all else of them and all other edges are as
  -- they were
  pub edges :
      (x : ℕ) → r.1.edge x ≡ (if joins net a b x then timed time (net.edge x) else net.edge x)
  -- so is all else of the network
  pub frame : with_edges net.edge r.1 ≡ net
  -- the flag says whether some edge joins the stations
  pub flag : r.0 ≡ leads net (net.node b).edges a || leads net (net.node a).edges b

-- `SetTravelTime` of two known stations gives the time to each edge that leads from one of the
-- stations to the other, on any route, and changes neither the route nor the end of an edge, nor any
-- other edge, nor anything else of the network; it returns whether there is such an edge.
pub set_travel_time-SetsTimes :
    (net : Network) (id_a id_b : Bytes) (a b time : ℕ)
    → get_station net id_a ≡ some a
    → get_station net id_b ≡ some b
    → SetsTimes net a b time (set_travel_time net id_a id_b time)
unfolding set_travel_time set_between joins
set_travel_time-SetsTimes net id_a id_b a b time found_a found_b =
    let ea = (net.node a).edges in
    let first = set_edges net ea b time false in
    let net1 = first.0 in
    let s = set_edges-SameButTimes net ea b time false in
    let eb : (net1.node b).edges ≡ (net.node b).edges = ap (λ v. (v b).edges) s.node in
    rw (found_a, found_b, set_travel_time)
      (record {
        edges = λ x.
            set_edges-edge net1 (net1.node b).edges a time first.1 x
            ∙ (ap
                  (λ es.
                    if has x es && (net1.edge x).next_stop == a
                    then timed time (net1.edge x)
                    else net1.edge x)
                  eb
                ∙ (ap
                      (λ (y : GraphEdge).
                        if has x (net.node b).edges && y.next_stop == a then timed time y else y)
                      (set_edges-edge net ea b time false x)
                    ∙ either_way (has x ea && (net.edge x).next_stop == b)
                        (has x (net.node b).edges) a time (net.edge x)));
        frame =
            ap (with_edges net.edge) (set_edges-frame net1 (net1.node b).edges a time first.1)
            ∙ set_edges-frame net ea b time false;
        flag =
            set_edges-found net1 (net1.node b).edges a time first.1
            ∙ (ap (λ es. leads net1 es a || first.1) eb
                ∙ (ap (λ v. v || first.1) (leads-SameButTimes net net1 (net.node b).edges a s)
                    ∙ ap (λ v. leads net (net.node b).edges a || v)
                        (set_edges-found net ea b time false ∙ plain (leads net ea b))));
      })
  where
    plain : (b : Bool) → (b || false) ≡ b
    plain b = ground arith

    either_way :
        (p q : Bool) (to time : ℕ) (y : GraphEdge)
        → (let z = if p then timed time y else y in
            if q && z.next_stop == to then timed time z else z)
          ≡ (if p || (q && y.next_stop == to) then timed time y else y)
    either_way true q to time y = twice (q && y.next_stop == to)
      where
        twice : (b : Bool) → (if b then timed time (timed time y) else timed time y) ≡ timed time y
        twice true = refl
        twice false = refl
    either_way false q to time y = refl
