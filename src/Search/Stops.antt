-- ===== src/Search/Stops.antt =====
-- `PathStop`, `PathStopDist` and `Path`.
use metro_network_monitor.Base.{
  ℕ, List, Bool, true, false, ◌&&◌, Option, none, some, ◌==◌, ◌≡◌, ◌↔◌, arith, Eq,
}

-- A node and the edge that leads to it; `none` is the null pointer.
pub record PathStop : Type 0 where
  pub node : ℕ
  pub edge : Option ℕ

abbrev pub eq_edge : Option ℕ → Option ℕ → Bool
eq_edge none none = true
eq_edge none (some b) = false
eq_edge (some a) none = false
eq_edge (some a) (some b) = a == b

-- `PathStop::operator==`
unfoldable pub eq_stop : PathStop → PathStop → Bool
eq_stop s t = s.node == t.node && eq_edge s.edge t.edge

eq_edge_iff : (a b : Option ℕ) → (eq_edge a b ≡ true) ↔ (a ≡ b)
eq_edge_iff none none = ground arith
eq_edge_iff none (some b) = ground arith
eq_edge_iff (some a) none = ground arith
eq_edge_iff (some a) (some b) = ground arith

pub eq_stop_iff : (s t : PathStop) → (eq_stop s t ≡ true) ↔ (s ≡ t)
unfolding eq_stop
eq_stop_iff s t = ground (arith, eq_edge_iff s.edge t.edge)

instance abbrev pub stop_eq : Eq PathStop
stop_eq = record { beq = eq_stop; beq_iff = eq_stop_iff }

-- `PathStopDist`
abbrev pub StopDist : Type 0
StopDist = PathStop × ℕ

abbrev pub dist_of : StopDist → ℕ
dist_of (s, d) = d

abbrev pub FoundPath : Type 0
FoundPath = List StopDist
