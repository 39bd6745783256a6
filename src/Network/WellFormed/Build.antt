-- ===== src/Network/WellFormed/Build.antt =====
-- The invariant under `AddStation`, `AddRouteToLine` and `AddLine`.
use metro_network_monitor.Base.{
  ℕ, ◌<◌, ◌≡◌, refl, sym, ap, subst, ◌∙◌, ◌≢◌, inl, inr, Bool, true, false, some, List, [], ◌∷◌,
  arith, Bool-cases, Option-cases, update_self, update_ind, List-cases, Elem, All, nat_eq, lookup,
  Bytes, bytes_eq,
}
use metro_network_monitor.Network.Types.{
  Station, Route, Line, RouteInternal, LineInternal, Network, Outcome, returns,
}
use metro_network_monitor.Network.Build.{
  get_station, get_line, add_station, gather_stops, add_edge, link_stops, new_route, put_route,
  install_route, add_route_to_line, add_routes, new_line, put_line, add_line,
}
use metro_network_monitor.Network.WellFormed.{Next, IsWellFormed}
use metro_network_monitor.Network.WellFormed.Cells.{
  new_node-IsWellFormed, new_line-IsWellFormed, new_route-IsWellFormed, put_route-IsWellFormed,
  put_line-IsWellFormed, add_edge-IsWellFormed,
}

-- `AddStation` keeps the invariant on both branches.
pub add_station-IsWellFormed :
    (net : Network) (s : Station) → IsWellFormed net → IsWellFormed (add_station net s).1
unfolding add_station
add_station-IsWellFormed net s h = elim (Option-cases (get_station net s.id)) [
  | inl new ↦ rw (new, add_station) (new_node-IsWellFormed net h s)
  | inr (p, old) ↦ rw (old, add_station) h
]

gather_stops_valid :
    (net : Network) (ids : List Bytes) (ps : List ℕ)
    → IsWellFormed net
    → gather_stops net ids ≡ some ps
    → (p : ℕ) → Elem p ps
    → p < net.node_count
unfolding gather_stops get_station
gather_stops_valid net [] ps h e p m =
    let q : ps ≡ [] = ground arith in absurd (subst (Elem p) q m).1
gather_stops_valid net (id ∷ ids) ps h e p m = elim (Option-cases (lookup id net.stations)) [
  | inl missing ↦ absurd (ground arith)
  | inr (x, found) ↦ elim (Option-cases (gather_stops net ids)) [
    | inl missing ↦ absurd (ground arith)
    | inr (xs, rest) ↦
        let q : ps ≡ x ∷ xs = ground arith in
        elim (subst (Elem p) q m) [
          | inl here ↦ omega (arith, here, (h.stations id x found).0)
          | inr there ↦ gather_stops_valid net ids xs h rest p there
        ]
  ]
]

gather_stops-nil :
    (net : Network) (ids : List Bytes) (ps : List ℕ)
    → gather_stops net ids ≡ some ps
    → ps ≡ []
    → ids ≡ []
unfolding gather_stops
gather_stops-nil net [] ps e n = refl
gather_stops-nil net (id ∷ ids) ps e n = ground arith

-- What the edges added for a route leave alone.
record SameButEdges (net net' : Network) : Type 0 where
  node_count : net'.node_count ≡ net.node_count
  route : net'.route ≡ net.route
  route_count : net'.route_count ≡ net.route_count
  line : net'.line ≡ net.line
  line_count : net'.line_count ≡ net.line_count

link_stops-SameButEdges :
    (net : Network) (r : ℕ) (ps : List ℕ) → SameButEdges net (link_stops net r ps)
unfolding link_stops add_edge
link_stops-SameButEdges net r [] = record {
  node_count = refl;
  route = refl;
  route_count = refl;
  line = refl;
  line_count = refl;
}
link_stops-SameButEdges net r (p ∷ []) = record {
  node_count = refl;
  route = refl;
  route_count = refl;
  line = refl;
  line_count = refl;
}
link_stops-SameButEdges net r (p ∷ q ∷ ps) =
    let same = link_stops-SameButEdges (add_edge net r p q) r (q ∷ ps) in
    record {
      node_count = same.node_count;
      route = same.route;
      route_count = same.route_count;
      line = same.line;
      line_count = same.line_count;
    }

link_stops-IsWellFormed :
    (net : Network) (r : ℕ) (ps : List ℕ)
    → IsWellFormed net
    → r < net.route_count
    → ((p : ℕ) → Elem p ps → p < net.node_count)
    → ((p q : ℕ) → Next p q ps → Next p q (net.route r).stops)
    → IsWellFormed (link_stops net r ps)
unfolding link_stops add_edge
link_stops-IsWellFormed net r [] h less valid follows = h
link_stops-IsWellFormed net r (p ∷ []) h less valid follows = h
link_stops-IsWellFormed net r (p ∷ q ∷ ps) h less valid follows =
    link_stops-IsWellFormed (add_edge net r p q) r (q ∷ ps)
      (add_edge-IsWellFormed net h r p q less (valid q (inr (inl refl)))
        (follows p q (inl (refl, refl))))
      less (λ x m. valid x (inr m)) (λ x y n. follows x y (inr n))

-- The result of adding routes to the line `l`.
record Grown (l : ℕ) (net net' : Network) : Type 0 where
  valid : IsWellFormed net'
  line_count : net'.line_count ≡ net.line_count
  line_id : (net'.line l).id ≡ (net.line l).id

install_route-Grown :
    (net : Network) (id : Bytes) (l p : ℕ) (ps : List ℕ)
    → IsWellFormed net
    → l < net.line_count
    → ((x : ℕ) → Elem x (p ∷ ps) → x < net.node_count)
    → (net' : Network) × (install_route net id l (p ∷ ps) ≡ returns (true, net')) × Grown l net net'
unfolding install_route
install_route-Grown net id l p ps h in_lines valid =
    let r = net.route_count in
    let net1 = new_route net id l (p ∷ ps) in
    let net2 = link_stops net1 r (p ∷ ps) in
    let same = link_stops-SameButEdges net1 r (p ∷ ps) in
    let cell : RouteInternal = record { id = id; line = l; stops = p ∷ ps } in
    let at1 : net1.route r ≡ cell = update_self net.route r cell in
    let at2 : net2.route r ≡ cell = ap (λ (f : ℕ → RouteInternal). f r) same.route ∙ at1 in
    let h1 = new_route-IsWellFormed net h id l (p ∷ ps) in_lines (λ e. cc) valid in
    let h2 =
      link_stops-IsWellFormed net1 r (p ∷ ps) h1 (omega arith) valid
        (λ x y n. subst (λ (c : RouteInternal). Next x y c.stops) (sym at1) n) in
    (
      put_route net2 l id r,
      refl,
      record {
        valid =
            put_route-IsWellFormed net2 h2 l id r (omega (arith, same.route_count))
              (ap (λ (c : RouteInternal). c.id) at2) (ap (λ (c : RouteInternal). c.line) at2);
        line_count = same.line_count;
        line_id =
            update_ind (λ (x : LineInternal). x.id ≡ (net.line l).id) net2.line l _ l
              (λ _. ap (λ (f : ℕ → LineInternal). (f l).id) same.line)
              (λ other. absurd (other refl));
      },
    )

module _ (net : Network) (l : ℕ) where
  -- A step that returns a flag and a network grown from `net`.
  abbrev GrowsTo : Outcome (Bool × Network) → Type 0
  GrowsTo o = (added : Bool) × (net' : Network) × (o ≡ returns (added, net')) × Grown l net net'

  refused : IsWellFormed net → Grown l net net
  refused h = record { valid = h; line_count = refl; line_id = refl }

  add_route_to_line-Grown :
      (route : Route)
      → IsWellFormed net
      → l < net.line_count
      → route.stops ≢ []
      → GrowsTo (add_route_to_line net route l)
  unfolding add_route_to_line
  add_route_to_line-Grown route h in_lines some_stop =
      elim (Option-cases (lookup route.id (net.line l).routes)) [
        | inr (r, old) ↦ (false, net, rw (old, add_route_to_line), refused h)
        | inl new ↦ elim (Option-cases (gather_stops net route.stops)) [
          | inl missing ↦ (false, net, rw (new, missing, add_route_to_line), refused h)
          | inr (ps, found) ↦
              let valid = gather_stops_valid net route.stops ps h found in
              elim (List-cases ps) [
                | inl empty' ↦ absurd (some_stop (gather_stops-nil net route.stops ps found empty'))
                | inr (p, qs, e) ↦
                    let (net', e', g) =
                      install_route-Grown net route.id l p qs h in_lines
                        (λ x m. valid x (subst (Elem x) (sym e) m)) in
                    (true, net', rw (new, found, e, add_route_to_line) e', g)
              ]
        ]
      ]

add_routes-Grown :
    (net : Network) (l : ℕ) (rs : List Route)
    → IsWellFormed net
    → l < net.line_count
    → All (λ (r : Route). r.stops ≢ []) rs
    → GrowsTo net l (add_routes net rs l)
unfolding add_routes
add_routes-Grown net l [] h in_lines stops = (true, net, refl, refused net l h)
add_routes-Grown net l (r ∷ rs) h in_lines (stop, stops) =
    let (added, net1, e, g) = add_route_to_line-Grown net l r h in_lines stop in
    elim (Bool-cases added) [
      | inl yes' ↦
          let (all, net2, e', g') =
            add_routes-Grown net1 l rs g.valid (omega (arith, g.line_count)) stops in
          (
            all,
            net2,
            rw (e, yes') e',
            record {
              valid = g'.valid;
              line_count = g'.line_count ∙ g.line_count;
              line_id = g'.line_id ∙ g.line_id;
            },
          )
      | inr no' ↦ (false, net1, rw (e, no'), g)
    ]

-- `AddLine`, for a line each of whose routes has a stop, returns on every branch with the invariant
-- kept, also where it refuses after some of the routes have been added.
pub add_line-IsWellFormed :
    (net : Network) (line : Line)
    → IsWellFormed net
    → All (λ (r : Route). r.stops ≢ []) line.routes
    → (added : Bool) × (net' : Network) × (add_line net line ≡ returns (added, net'))
      × IsWellFormed net'
unfolding add_line
add_line-IsWellFormed net line h stops = elim (Option-cases (get_line net line.id)) [
  | inr (l, old) ↦ (false, net, rw (old, add_line), h)
  | inl new ↦
      let l = net.line_count in
      let net0 = new_line net line in
      let named : (net0.line l).id ≡ line.id =
        ap (λ (c : LineInternal). c.id) (update_self net.line l _) in
      let (added, net1, e, g) =
        add_routes-Grown net0 l line.routes (new_line-IsWellFormed net h line) (omega arith)
          stops in
      elim (Bool-cases added) [
        | inl yes' ↦ (
          true,
          put_line net1 line.id l,
          rw (new, e, yes', add_line),
          put_line-IsWellFormed net1 g.valid line.id l (omega (arith, g.line_count))
              (g.line_id ∙ named),
        )
        | inr no' ↦ (false, net1, rw (new, e, no', add_line), g.valid)
      ]
]
