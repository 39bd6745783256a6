-- ===== src/Search/Dijkstra/Walks.antt =====
-- What the search is about: the walks over the edges of the network and their cost.
use metro_network_monitor.Base.{
  ℕ, ◌+◌, ◌≤◌, ◌<◌, ◌≡◌, List, false, Option, some, arith, Elem, u32_mod, if◌then◌else◌, lookup,
  add_u32_of_lt,
}
use metro_network_monitor.Network.Types.{Network}
use metro_network_monitor.Search.Stops.{PathStop, stop_eq}
use metro_network_monitor.Search.Dijkstra.{contains, changes_route, neighbor, neighbor_dist}

-- The travel time of an edge, and five minutes more where the route changes.
abbrev pub weight : Network → Option ℕ → ℕ → ℕ
weight net before e = (net.edge e).travel_time + (if changes_route net before e then 5 else 0)

-- The walks from a stop with a distance, with their cost. A walk does not go on from station `b` and
-- does not lead to a stop that is excluded.
pub data Walk (net : Network) (excluded : List PathStop) (b : ℕ) (s : PathStop) (d : ℕ)
    : PathStop → ℕ → Type 0 where
  here : Walk net excluded b s d s d
  go :
      {t : PathStop} {c : ℕ} (e : ℕ)
      → Walk net excluded b s d t c
      → ¬ (t.node ≡ b)
      → Elem e (net.node t.node).edges
      → contains excluded (neighbor net e) ≡ false
      → Walk net excluded b s d (neighbor net e) (c + weight net t.edge e)

-- A distance of at most `n` is recorded for the stop.
abbrev pub AtMost : List (PathStop × ℕ) → PathStop → ℕ → Type 0
AtMost dist s n = (d : ℕ) × (lookup s dist ≡ some d) × (d ≤ n)

-- Below 2^32 the code computes the sum.
pub neighbor_dist_of_lt :
    (net : Network) (s : PathStop) (d e : ℕ)
    → d + weight net s.edge e < u32_mod
    → neighbor_dist net (s, d) e ≡ d + weight net s.edge e
unfolding neighbor_dist
neighbor_dist_of_lt net s d e h =
    let t = (net.edge e).travel_time in ground (arith, add_u32_of_lt d t, add_u32_of_lt (d + t) 5)
