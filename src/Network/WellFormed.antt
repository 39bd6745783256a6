-- ===== src/Network/WellFormed.antt =====
-- The invariant of the network: every pointer leads to an allocated object, the maps agree with the
-- IDs of the objects, and an edge leads from a stop of its route to the next.
pub mod Cells
pub mod Build
pub mod Updates
use metro_network_monitor.Base.{
  ℕ, zero, suc, ◌+◌, ◌-◌, ◌*◌, ◌/◌, ◌%◌, ◌^◌, ◌≤◌, ◌<◌, String, ◌≡◌, refl, sym, ap, subst, ◌∙◌, ◌≢◌,
  ◌↔◌, ◌⊎◌, inl, inr, Bool, true, false, not, ◌&&◌, ◌||◌, Option, none, some, List, [], ◌∷◌, ◌++◌,
  map, reverse, arith, ltb, leb, ◌==◌, if◌then◌else◌, ltb→lt, lt→ltb, le→not_ltb, not_ltb→le, ==→eq,
  ==_refl, not_==→ne, ne→not_==, Bool-cases, Option-cases, u32_mod, add_u32, add_u32-lt,
  add_u32_of_lt, update, update_self, update_ne, update_ind, length, take, drop, length-append,
  List-cases, Elem, All, Distinct, length-le_of_Distinct, length-map, Elem-map, Eq, ==_iff, nat_eq,
  lookup, insert, erase, lookup-insert, lookup-erase, lookup-insert_self, lookup-insert_ne,
  lookup-insert_cases, insert_new, IsUnique, insert-IsUnique, lookup_of_Elem, Elem-of_lookup, Bytes,
  bytes, eq_bytes, eq_bytes_refl, eq_bytes_iff, bytes_eq,
}
use metro_network_monitor.Network.Types.{Network, empty}

-- `q` follows `p` somewhere in the list.
abbrev pub Next : ℕ → ℕ → List ℕ → Type 0
Next p q [] = ⊥
Next p q (x ∷ []) = ⊥
Next p q (x ∷ y ∷ xs) = ((p ≡ x) × (q ≡ y)) ⊎ Next p q (y ∷ xs)

pub record IsWellFormed (net : Network) : Type 0 where
  pub stations :
      (id : Bytes) (p : ℕ)
      → lookup id net.stations ≡ some p
      → (p < net.node_count) × ((net.node p).id ≡ id)
  pub leaving :
      (p e : ℕ)
      → Elem e (net.node p).edges
      → (e < net.edge_count) × Next p (net.edge e).next_stop (net.route (net.edge e).route).stops
  pub edges :
      (e : ℕ)
      → e < net.edge_count
      → ((net.edge e).route < net.route_count) × ((net.edge e).next_stop < net.node_count)
  pub routes :
      (r : ℕ)
      → r < net.route_count
      → ((net.route r).line < net.line_count)
        × ((net.route r).stops ≢ [])
        × ((p : ℕ) → Elem p (net.route r).stops → p < net.node_count)
  pub line_routes :
      (l : ℕ) (id : Bytes) (r : ℕ)
      → l < net.line_count
      → lookup id (net.line l).routes ≡ some r
      → (r < net.route_count) × ((net.route r).id ≡ id) × ((net.route r).line ≡ l)
  pub lines :
      (id : Bytes) (l : ℕ)
      → lookup id net.lines ≡ some l
      → (l < net.line_count) × ((net.line l).id ≡ id)

pub empty-IsWellFormed : IsWellFormed empty
unfolding lookup
empty-IsWellFormed = record {
  stations = λ id p h. cc;
  leaving = λ p e m. absurd m.1;
  edges = λ e h. absurd (omega arith);
  routes = λ r h. absurd (omega arith);
  line_routes = λ l id r h. absurd (omega arith);
  lines = λ id l h. cc;
}
