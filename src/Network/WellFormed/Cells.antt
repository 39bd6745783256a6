-- ===== src/Network/WellFormed/Cells.antt =====
-- The invariant under each single write to the network.
use metro_network_monitor.Base.{
  ℕ, suc, ◌<◌, ◌≡◌, sym, ap, subst, ◌∙◌, ◌≢◌, inl, inr, some, List, [], ◌∷◌, arith, update,
  update_ind, Elem, Elem-append, nat_eq, lookup, lookup-insert_cases, Bytes, bytes_eq,
}
use metro_network_monitor.Base.Int.{ℤ}
use metro_network_monitor.Network.Types.{
  Station, Line, GraphNode, GraphEdge, RouteInternal, LineInternal, Network,
}
use metro_network_monitor.Network.Build.{
  new_node, new_route, add_edge, put_route, new_line, put_line,
}
use metro_network_monitor.Network.Passengers.{add_passengers}
use metro_network_monitor.Network.Times.{put_time}
use metro_network_monitor.Network.WellFormed.{Next, IsWellFormed}

module _ (net : Network) (h : IsWellFormed net) where
  open h use {stations, leaving, edges, routes, line_routes, lines}

  pub new_node-IsWellFormed : (s : Station) → IsWellFormed (new_node net s)
  unfolding new_node
  new_node-IsWellFormed s = record {
    stations = λ id p l.
        let named = λ (n : GraphNode). n.id ≡ id in
        elim (lookup-insert_cases s.id id net.node_count p net.stations l) [
          | inl (e, q) ↦ (
            omega (arith, q),
            update_ind named net.node net.node_count _ p (λ _. e) (λ other. absurd (other (sym q))),
          )
          | inr old ↦
              let (less, e) = stations id p old in
              (
                omega (arith, less),
                update_ind named net.node net.node_count _ p (λ same. absurd (omega arith))
                    (λ _. e),
              )
        ];
    leaving = λ p e.
        update_ind
          (λ (n : GraphNode).
            Elem e n.edges
            → (e < net.edge_count)
              × Next p (net.edge e).next_stop (net.route (net.edge e).route).stops)
          net.node net.node_count _ p (λ _ m. absurd m.1) (λ _. leaving p e);
    edges = λ e l. let (a, b) = edges e l in (a, omega arith);
    routes = λ r l. let (a, b, c) = routes r l in (a, b, λ p m. omega (arith, c p m));
    line_routes = line_routes;
    lines = lines;
  }

  pub new_line-IsWellFormed : (l : Line) → IsWellFormed (new_line net l)
  unfolding new_line lookup
  new_line-IsWellFormed line = record {
    stations = stations;
    leaving = leaving;
    edges = edges;
    routes = λ r l. let (a, b, c) = routes r l in (omega (arith, a), b, c);
    line_routes = λ l id r less.
        update_ind
          (λ (x : LineInternal).
            lookup id x.routes ≡ some r
            → (r < net.route_count) × ((net.route r).id ≡ id) × ((net.route r).line ≡ l))
          net.line net.line_count _ l (λ _ q. cc) (λ other. line_routes l id r (omega arith));
    lines = λ id l q.
        let (less, e) = lines id l q in
        (
          omega (arith, less),
          update_ind (λ (x : LineInternal). x.id ≡ id) net.line net.line_count _ l
              (λ same. absurd (omega arith)) (λ _. e),
        );
  }

  pub new_route-IsWellFormed :
      (id : Bytes) (l : ℕ) (ps : List ℕ)
      → l < net.line_count
      → ps ≢ []
      → ((p : ℕ) → Elem p ps → p < net.node_count)
      → IsWellFormed (new_route net id l ps)
  unfolding new_route
  new_route-IsWellFormed id l ps in_lines some_stop valid = record {
    stations = stations;
    leaving = λ p e m.
        let (less, next) = leaving p e m in
        (
          less,
          update_ind (λ (x : RouteInternal). Next p (net.edge e).next_stop x.stops) net.route
              net.route_count _ (net.edge e).route
              (λ same. absurd (omega (arith, (edges e less).0))) (λ _. next),
        );
    edges = λ e less. let (a, b) = edges e less in (omega arith, b);
    routes = λ r less.
        update_ind
          (λ (x : RouteInternal).
            (x.line < net.line_count)
            × (x.stops ≢ [])
            × ((p : ℕ) → Elem p x.stops → p < net.node_count))
          net.route net.route_count _ r (λ _. (in_lines, some_stop, valid))
          (λ other. routes r (omega arith));
    line_routes = λ k i r less q.
        let (a, b, c) = line_routes k i r less q in
        let (b', c') =
          update_ind (λ (x : RouteInternal). (x.id ≡ i) × (x.line ≡ k)) net.route net.route_count
            (record { id = id; line = l; stops = ps }) r (λ same. absurd (omega arith))
            (λ _. (b, c)) in
        (omega arith, b', c');
    lines = lines;
  }

  pub put_route-IsWellFormed :
      (l : ℕ) (id : Bytes) (r : ℕ)
      → r < net.route_count
      → (net.route r).id ≡ id
      → (net.route r).line ≡ l
      → IsWellFormed (put_route net l id r)
  unfolding put_route
  put_route-IsWellFormed l id r less named owned = record {
    stations = stations;
    leaving = leaving;
    edges = edges;
    routes = routes;
    line_routes = λ k i x in_lines.
        update_ind
          (λ (y : LineInternal).
            lookup i y.routes ≡ some x
            → (x < net.route_count) × ((net.route x).id ≡ i) × ((net.route x).line ≡ k))
          net.line l _ k
          (λ same q. elim (lookup-insert_cases id i r x (net.line l).routes q) [
            | inl (e, e') ↦ (
              omega (arith, e'),
              subst (λ v. (net.route v).id ≡ i) e' (named ∙ e),
              subst (λ v. (net.route v).line ≡ k) e' (owned ∙ sym same),
            )
            | inr old ↦
                let (a, b, c) = line_routes l i x (omega (arith, same)) old in (a, b, c ∙ sym same)
          ])
          (λ _. line_routes k i x in_lines);
    lines = λ i k q.
        let (a, e) = lines i k q in
        (
          a,
          update_ind (λ (y : LineInternal). y.id ≡ i) net.line l _ k
              (λ same. ap (λ v. (net.line v).id) (sym same) ∙ e) (λ _. e),
        );
  }

  pub put_line-IsWellFormed :
      (id : Bytes) (l : ℕ)
      → l < net.line_count
      → (net.line l).id ≡ id
      → IsWellFormed (put_line net id l)
  unfolding put_line
  put_line-IsWellFormed id l less named = record {
    stations = stations;
    leaving = leaving;
    edges = edges;
    routes = routes;
    line_routes = line_routes;
    lines = λ i k q. elim (lookup-insert_cases id i l k net.lines q) [
      | inl (e, e') ↦ (omega (arith, e'), subst (λ v. (net.line v).id ≡ i) e' (named ∙ e))
      | inr old ↦ lines i k old
    ];
  }

  pub add_passengers-IsWellFormed : (p : ℕ) (d : ℤ) → IsWellFormed (add_passengers net p d)
  unfolding add_passengers
  add_passengers-IsWellFormed p d = record {
    stations = λ id q l.
        let (less, e) = stations id q l in
        (
          less,
          update_ind (λ (n : GraphNode). n.id ≡ id) net.node p _ q
              (λ same. ap (λ v. (net.node v).id) (sym same) ∙ e) (λ _. e),
        );
    leaving = λ q e.
        update_ind
          (λ (n : GraphNode).
            Elem e n.edges
            → (e < net.edge_count)
              × Next q (net.edge e).next_stop (net.route (net.edge e).route).stops)
          net.node p _ q
          (λ same m. leaving q e (subst (λ v. Elem e (net.node v).edges) (sym same) m))
          (λ _. leaving q e);
    edges = edges;
    routes = routes;
    line_routes = line_routes;
    lines = lines;
  }

  pub put_time-IsWellFormed : (e t : ℕ) → IsWellFormed (put_time net e t)
  unfolding put_time
  put_time-IsWellFormed e t = record {
    stations = stations;
    leaving = λ p x m.
        let (less, next) = leaving p x m in
        (
          less,
          update_ind (λ (y : GraphEdge). Next p y.next_stop (net.route y.route).stops) net.edge e _
              x
              (λ same.
                subst (λ v. Next p (net.edge v).next_stop (net.route (net.edge v).route).stops) same
                  next)
              (λ _. next),
        );
    edges = λ x less.
        update_ind (λ (y : GraphEdge). (y.route < net.route_count) × (y.next_stop < net.node_count))
          net.edge e _ x
          (λ same.
            subst
              (λ v.
                ((net.edge v).route < net.route_count) × ((net.edge v).next_stop < net.node_count))
              same (edges x less))
          (λ _. edges x less);
    routes = routes;
    line_routes = line_routes;
    lines = lines;
  }

  pub add_edge-IsWellFormed :
      (r this next : ℕ)
      → r < net.route_count
      → next < net.node_count
      → Next this next (net.route r).stops
      → IsWellFormed (add_edge net r this next)
  unfolding add_edge
  add_edge-IsWellFormed r this next r_valid next_valid follows =
      let new : GraphEdge = record { route = r; next_stop = next; travel_time = 0 } in
      let edge' = update net.edge net.edge_count new in
      let Leads = λ (p : ℕ) (y : GraphEdge). Next p y.next_stop (net.route y.route).stops in
      let Fits = λ (p e : ℕ). (e < suc net.edge_count) × Leads p (edge' e) in
      let kept : (p e : ℕ) → Elem e (net.node p).edges → Fits p e = λ p e m.
        let (less, n) = leaving p e m in
        (
          omega (arith, less),
          update_ind (Leads p) net.edge net.edge_count new e (λ same. absurd (omega arith))
              (λ _. n),
        ) in
      let added : (p e : ℕ) → p ≡ this → e ≡ net.edge_count → Fits p e = λ p e same last. (
        omega (arith, last),
        update_ind (Leads p) net.edge net.edge_count new e
            (λ _. subst (λ v. Next v next (net.route r).stops) (sym same) follows)
            (λ other. absurd (other last)),
      ) in
      record {
        stations = λ id q l.
            let (less, e) = stations id q l in
            (
              less,
              update_ind (λ (n : GraphNode). n.id ≡ id) net.node this _ q
                  (λ same. ap (λ v. (net.node v).id) (sym same) ∙ e) (λ _. e),
            );
        leaving = λ p e.
            update_ind (λ (n : GraphNode). Elem e n.edges → Fits p e) net.node this _ p
              (λ same m. elim ((Elem-append e (net.node this).edges (net.edge_count ∷ [])).0 m) [
                | inl old ↦ kept p e (subst (λ v. Elem e (net.node v).edges) (sym same) old)
                | inr (inl last) ↦ added p e same last
                | inr (inr none') ↦ absurd none'.1
              ])
              (λ _. kept p e);
        edges = λ x less.
            update_ind
              (λ (y : GraphEdge). (y.route < net.route_count) × (y.next_stop < net.node_count))
              net.edge net.edge_count new x (λ _. (r_valid, next_valid))
              (λ other. edges x (omega arith));
        routes = routes;
        line_routes = line_routes;
        lines = lines;
      }
