-- ===== src/Search/Dijkstra.antt =====
-- The internal `GetFastestTravelRoute`: the search over stops and the path that it assembles.
pub mod Loop
pub mod Walks
pub mod Optimal
pub mod Trails
pub mod Sound
pub mod Chains
pub mod Linked
pub mod Correct
pub mod Links
pub mod Paths
use metro_network_monitor.Base.{
  ℕ, zero, suc, ◌+◌, ◌*◌, List, [], ◌∷◌, Bool, true, false, not, Option, none, some, ◌==◌, ltb,
  if◌then◌else◌, add_u32, u32_mod, lookup, insert, length, bytes,
}
use metro_network_monitor.Network.Types.{Network, Outcome, returns, throws, unfinished, ◌>>=◌}
use metro_network_monitor.Search.Stops.{PathStop, eq_stop, stop_eq, StopDist, dist_of, FoundPath}
use metro_network_monitor.Search.Queue.{PopRule, SortRule, back}

-- `distFromA`, `previousStop` and `nodesToVisit`
pub record State : Type 0 where
  pub dist : List (PathStop × ℕ)
  pub previous : List (PathStop × PathStop)
  pub queue : List StopDist

-- `excludedStops.find(stop) != excludedStops.end()`
unfoldable pub contains : List PathStop → PathStop → Bool
contains [] s = false
contains (x ∷ xs) s = if eq_stop x s then true else contains xs s

-- The edge to the current stop is of another route than the edge to the neighbor.
abbrev pub changes_route : Network → Option ℕ → ℕ → Bool
changes_route net none e = false
changes_route net (some c) e = not ((net.edge c).route == (net.edge e).route)

-- `neighborDistFromA`
unfoldable pub neighbor_dist : Network → StopDist → ℕ → ℕ
neighbor_dist net (s, d) e =
    let d' = add_u32 d (net.edge e).travel_time in
    if changes_route net s.edge e then add_u32 d' 5 else d'

abbrev pub neighbor : Network → ℕ → PathStop
neighbor net e = record { node = (net.edge e).next_stop; edge = some e }

-- A neighbor is recorded when it is new or when the new distance is smaller.
abbrev pub improves : ℕ → Option ℕ → Bool
improves d none = true
improves d (some old) = ltb d old

abbrev pub record_neighbor : State → PathStop → PathStop → ℕ → State
record_neighbor st curr n d = record {
  dist = insert n d st.dist;
  previous = insert n curr st.previous;
  queue = (n, d) ∷ st.queue;
}

-- The body of the loop over the edges that leave the current stop.
unfoldable pub relax : Network → List PathStop → StopDist → State → ℕ → State
relax net excluded (s, d) st e =
    let n = neighbor net e in
    let d' = neighbor_dist net (s, d) e in
    if contains excluded n
    then st
    else if improves d' (lookup n st.dist)
    then record_neighbor st s n d'
    else st

unfoldable pub explore : Network → List PathStop → StopDist → State → List ℕ → State
unfolding relax
explore net excluded curr st [] = st
explore net excluded curr st (e ∷ es) = explore net excluded curr (relax net excluded curr st e) es

-- One round of the `while` loop, after the pop: a stop at station B is not explored.
unfoldable pub visit : Network → List PathStop → ℕ → State → StopDist → State
unfolding explore
visit net excluded b st (s, d) =
    if s.node == b then st else explore net excluded (s, d) st (net.node s.node).edges

abbrev pub start : StopDist → State
start (s, d) = record { dist = (s, d) ∷ []; previous = []; queue = (s, d) ∷ [] }

-- The entries of `distFromA` at station B: `pathsToB`.
unfoldable pub paths_to : ℕ → List (PathStop × ℕ) → List StopDist
paths_to b [] = []
paths_to b ((s, d) ∷ m) = let rest = paths_to b m in if s.node == b then (s, d) ∷ rest else rest

-- `at`
abbrev at {ℓ} : {A : Type ℓ} → Option A → Outcome A
at none = throws (bytes "_Map_base::at")
at (some a) = returns a

-- The loop that assembles the path. The vector is the list read from its back, so the final
-- `reverse` gives the list itself.
unfoldable pub walk_back : ℕ → State → ℕ → PathStop → FoundPath → Outcome FoundPath
walk_back zero st a stop path = unfinished
walk_back (suc fuel) st a stop path = elim (stop.node == a) [
  | true ↦ returns path
  | false ↦ at (lookup stop st.previous) >>= λ before.
      at (lookup before st.dist) >>= λ d. walk_back fuel st a before ((before, d) ∷ path)
]

-- More rounds than the loop ever makes: every push lowers the distance recorded for a stop.
unfoldable pub rounds : Network → ℕ
rounds net = suc ((net.edge_count + 2) * u32_mod)

module _ (pops : PopRule dist_of) where
  unfoldable pub loop : ℕ → Network → List PathStop → ℕ → State → Outcome State
  unfolding visit
  loop zero net excluded b st = unfinished
  loop (suc fuel) net excluded b st = elim (pops.pop st.queue) [
    | none ↦ returns st
    | some (curr, rest) ↦
        loop fuel net excluded b (visit net excluded b (record st { queue = rest }) curr)
  ]

  module _ (sorts : SortRule dist_of) where
    -- The best of `pathsToB` with the path to it; an empty path when there is none.
    unfoldable pub assemble : State → ℕ → ℕ → Outcome FoundPath
    unfolding paths_to walk_back back
    assemble st a b = elim (back (sorts.sort (paths_to b st.dist))) [
      | none ↦ returns []
      | some (s, d) ↦ walk_back (suc (length st.dist)) st a s ((s, d) ∷ [])
    ]

    -- From a stop with a distance, so that a path can go on from another.
    unfoldable pub fastest_path : Network → StopDist → ℕ → List PathStop → Outcome FoundPath
    unfolding loop assemble rounds
    fastest_path net (s, d) b excluded = elim (s.node == b) [
      | true ↦ returns ((record { node = s.node; edge = none }, 0) ∷ [])
      | false ↦ loop (rounds net) net excluded b (start (s, d)) >>= λ st. assemble st s.node b
    ]
