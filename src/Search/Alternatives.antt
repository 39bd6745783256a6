-- ===== src/Search/Alternatives.antt =====
-- `GetFastestTravelRoutes`: the variant of Yen's algorithm that looks for all paths within a travel
-- time.
use metro_network_monitor.Base.{
  ℕ, zero, suc, ◌-◌, List, [], ◌∷◌, ◌++◌, Bool, true, false, ◌&&◌, Option, none, some, ◌==◌, ltb,
  if◌then◌else◌, length, take,
}
use metro_network_monitor.Network.Types.{Network, Outcome, returns, ◌>>=◌}
use metro_network_monitor.Search.Stops.{PathStop, eq_stop, dist_of, FoundPath}
use metro_network_monitor.Search.Queue.{PopRule, SortRule, back}
use metro_network_monitor.Search.Dijkstra.{fastest_path}
use metro_network_monitor.Search.Fastest.{origin}

-- `path.back().second`
unfoldable pub path_time : FoundPath → ℕ
unfolding back
path_time path = elim (back path) [ none ↦ 0 | some (_, d) ↦ d ]

-- `operator==` of `Path`
unfoldable pub eq_path : FoundPath → FoundPath → Bool
unfolding eq_stop
eq_path [] [] = true
eq_path [] (y ∷ ys) = false
eq_path (x ∷ xs) [] = false
eq_path ((s, d) ∷ xs) ((t, c) ∷ ys) = (eq_stop s t && d == c) && eq_path xs ys

-- The stop at an index.
stop_at : FoundPath → ℕ → List PathStop
stop_at [] i = []
stop_at ((s, _) ∷ path) zero = s ∷ []
stop_at (_ ∷ path) (suc i) = stop_at path i

-- `removedStops`: the stops that follow the root in the paths that share it.
unfoldable pub removed_stops : List FoundPath → FoundPath → List PathStop
unfolding eq_path stop_at
removed_stops [] root = []
removed_stops (path ∷ paths) root =
    let rest = removed_stops paths root in
    if ltb (length root) (length path - 1) && eq_path (take (length root) path) root
    then stop_at path (suc (length root)) ++ rest
    else rest

-- `std::find` over the paths found
unfoldable pub is_found : List FoundPath → FoundPath → Bool
unfolding eq_path
is_found [] path = false
is_found (p ∷ paths) path = if eq_path p path then true else is_found paths path

module _ (later : PopRule path_time) where
  -- The loop that takes the next path from the queue: the path found, if any, and the queue.
  unfoldable pub select :
      ℕ → List FoundPath → List FoundPath → ℕ → Option FoundPath × List FoundPath
  unfolding is_found
  select zero found potential limit = (none, potential)
  select (suc n) found potential limit = elim (later.pop potential) [
    | none ↦ (none, potential)
    | some (path, rest) ↦ elim (ltb limit (path_time path)) [
      | true ↦ (none, rest)
      | false ↦ elim (is_found found path) [
        | true ↦ select n found rest limit
        | false ↦ (some path, rest)
      ]
    ]
  ]

module _ (pops : PopRule dist_of) (sorts : SortRule dist_of) where
  -- The loop over the spur stops of the last path; `root` is the part of the path before them.
  unfoldable pub spurs :
      Network
      → ℕ
      → List FoundPath
      → FoundPath
      → FoundPath
      → List FoundPath
      → Outcome (List FoundPath)
  unfolding fastest_path removed_stops
  spurs net b found root [] potential = returns potential
  spurs net b found root (spur ∷ []) potential = returns potential
  spurs net b found root (spur ∷ next ∷ path) potential =
      fastest_path pops sorts net spur b (removed_stops found root) >>= λ tail.
      spurs net b found (root ++ spur ∷ []) (next ∷ path)
        (elim tail [ [] ↦ potential | s ∷ ss ↦ (root ++ (s ∷ ss)) ∷ potential ])

  module _ (later : PopRule path_time) where
    -- The outer loop, over the paths that may still be found; `last` is `fastestPaths.back()`.
    unfoldable pub more_paths :
        ℕ → Network → ℕ → ℕ → List FoundPath → FoundPath → List FoundPath → Outcome (List FoundPath)
    unfolding spurs select
    more_paths zero net b limit found last potential = returns found
    more_paths (suc n) net b limit found last potential =
        spurs net b found [] last potential >>= λ potential'.
        let (next, rest) = select later (length potential') found potential' limit in
        elim next [
          | none ↦ returns found
          | some path ↦ more_paths n net b limit (found ++ path ∷ []) path rest
        ]

    -- `slower` is the function from the least travel time to the limit.
    unfoldable pub get_fastest_travel_routes :
        Network → ℕ → ℕ → (ℕ → ℕ) → ℕ → Outcome (List FoundPath)
    unfolding fastest_path more_paths path_time
    get_fastest_travel_routes net a b slower max_paths =
        fastest_path pops sorts net (origin a) b [] >>= λ path. elim path [
          | [] ↦ returns []
          | s ∷ ss ↦
              more_paths (max_paths - 1) net b (slower (path_time (s ∷ ss))) ((s ∷ ss) ∷ [])
                (s ∷ ss) []
        ]
