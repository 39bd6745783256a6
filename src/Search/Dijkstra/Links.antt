-- ===== src/Search/Dijkstra/Links.antt =====
-- What a path promises: its steps and its cost.
use metro_network_monitor.Base.{
  ℕ, ◌+◌, ◌≤◌, ◌≡◌, refl, sym, ap, ◌∙◌, ◌↔◌, inl, inr, false, some, List, [], ◌∷◌, ◌==◌, ==→eq,
  not_==→ne, Bool-cases, Elem, nat_eq, bytes_eq,
}
use metro_network_monitor.Network.Types.{Network}
use metro_network_monitor.Search.Stops.{PathStop, StopDist, stop_eq, FoundPath}
use metro_network_monitor.Search.Queue.{back}
use metro_network_monitor.Search.Dijkstra.{contains, neighbor, paths_to}
use metro_network_monitor.Search.Dijkstra.Walks.{Walk, weight}
use metro_network_monitor.Search.Dijkstra.Correct.{IsLeast}

-- An edge leads from the stop `p` to `t`, and the distance grows by its weight.
pub record IsStep (net : Network) (excluded : List PathStop) (b : ℕ) (p : PathStop) (j : ℕ)
    (t : PathStop) (k : ℕ) : Type 0 where
  pub by : ℕ
  pub leads : t ≡ neighbor net by
  pub away : ¬ (p.node ≡ b)
  pub leaves : Elem by (net.node p.node).edges
  pub kept : contains excluded (neighbor net by) ≡ false
  pub costs : j + weight net p.edge by ≡ k

-- The rest of a path is a chain of such steps that ends at station `b`.
abbrev pub IsLinked : Network → List PathStop → ℕ → StopDist → FoundPath → Type 0
IsLinked net excluded b (p, j) [] = p.node ≡ b
IsLinked net excluded b (p, j) ((t, k) ∷ rest) =
    IsStep net excluded b p j t k × IsLinked net excluded b (t, k) rest

-- What the internal `GetFastestTravelRoute` promises of its result.
pub data IsFastest (net : Network) (excluded : List PathStop) (b : ℕ) (s : PathStop) (d : ℕ)
    : FoundPath → Type 0 where
  -- No walk leads to the station.
  unreachable :
      ((t : PathStop) (c : ℕ) → t.node ≡ b → ¬ Walk net excluded b s d t c)
      → IsFastest net excluded b s d []
  -- A path over edges from the start's station to `b`, with the least cost of any walk there.
  reached :
      (x : PathStop) (j : ℕ) (rest : FoundPath) (t : PathStop) (k : ℕ)
      → x.node ≡ s.node
      → IsLeast net excluded b s d x j
      → IsLinked net excluded b (x, j) rest
      → back ((x, j) ∷ rest) ≡ some (t, k)
      → Walk net excluded b s d t k
      → ((u : PathStop) (c : ℕ) → u.node ≡ b → Walk net excluded b s d u c → k ≤ c)
      → IsFastest net excluded b s d ((x, j) ∷ rest)

pub Elem-paths_to :
    (b : ℕ) (m : List (PathStop × ℕ)) (t : PathStop) (k : ℕ)
    → Elem (t, k) (paths_to b m) ↔ (Elem (t, k) m × (t.node ≡ b))
unfolding paths_to
Elem-paths_to b [] t k = (λ q. absurd q.1, λ q. absurd q.0.1)
Elem-paths_to b ((u, j) ∷ m) t k =
    let ih = Elem-paths_to b m t k in
    elim (Bool-cases (u.node == b)) [
      | inl at' ↦ rw at' (
        λ q. elim q [
          | inl p ↦ (inl p, ap (λ (x : StopDist). x.0.node) p ∙ ==→eq u.node b at')
          | inr q' ↦ (inr (ih.0 q').0, (ih.0 q').1)
        ],
        λ (q, n). elim q [ inl p ↦ inl p | inr q' ↦ inr (ih.1 (q', n)) ],
      )
      | inr off ↦ rw off (
        λ q. (inr (ih.0 q).0, (ih.0 q).1),
        λ (q, n). elim q [
          | inl p ↦ absurd (not_==→ne u.node b off (sym (ap (λ (x : StopDist). x.0.node) p) ∙ n))
          | inr q' ↦ ih.1 (q', n)
        ],
      )
    ]

pub back-cons {ℓ} : {A : Type ℓ} (x y : A) (xs : List A) → back (x ∷ y ∷ xs) ≡ back (y ∷ xs)
unfolding back
back-cons x y xs = refl

pub back-single {ℓ} : {A : Type ℓ} (x : A) → back (x ∷ []) ≡ some x
unfolding back
back-single x = refl
