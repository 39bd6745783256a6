-- ===== src/Examples/Values.antt =====
-- JSON values as trees.
use metro_network_monitor.Base.{
  ℕ, ◌≡◌, refl, ap, Bytes, bytes, List, [], ◌∷◌, Bool, true, false, Option, none, some, lookup,
  bytes_eq,
}
use metro_network_monitor.Json.{Json, ReadsBack}
use metro_network_monitor.Network.Json.Layout.{RangesOver}

mutual
  pub data Tree : Type 0 where
    nothing : Tree
    text : Bytes → Tree
    natural : ℕ → Tree
    vector : Trees → Tree
    object : Members → Tree

  pub data Trees : Type 0 where
    no_trees : Trees
    tree : Tree → Trees → Trees

  pub data Members : Type 0 where
    no_members : Members
    member : Bytes → Tree → Members → Members

unfoldable pub to_trees : List Tree → Trees
to_trees [] = no_trees
to_trees (v ∷ vs) = tree v (to_trees vs)

unfoldable pub of_trees : Trees → List Tree
of_trees no_trees = []
of_trees (tree v vs) = v ∷ of_trees vs

unfoldable pub to_members : List (Bytes × Tree) → Members
to_members [] = no_members
to_members ((k, v) ∷ m) = member k v (to_members m)

unfoldable pub of_members : Members → List (Bytes × Tree)
of_members no_members = []
of_members (member k v m) = (k, v) ∷ of_members m

of_trees-to_trees : (vs : List Tree) → of_trees (to_trees vs) ≡ vs
unfolding of_trees to_trees
of_trees-to_trees [] = refl
of_trees-to_trees (v ∷ vs) = ap (λ r. v ∷ r) (of_trees-to_trees vs)

of_members-to_members : (m : List (Bytes × Tree)) → of_members (to_members m) ≡ m
unfolding of_members to_members
of_members-to_members [] = refl
of_members-to_members ((k, v) ∷ m) = ap (λ r. (k, v) ∷ r) (of_members-to_members m)

unfoldable pub string_in : Tree → Option Bytes
string_in (text s) = some s
string_in _ = none

unfoldable pub natural_in : Tree → Option ℕ
natural_in (natural n) = some n
natural_in _ = none

unfoldable pub vector_in : Tree → Option (List Tree)
unfolding of_trees
vector_in (vector vs) = some (of_trees vs)
vector_in _ = none

unfoldable pub range_in : Tree → List Tree
unfolding of_trees
range_in (vector vs) = of_trees vs
range_in _ = []

unfoldable pub member_in : Tree → Bytes → Option Tree
unfolding of_members lookup
member_in (object m) key = lookup key (of_members m)
member_in _ key = none

unfoldable pub is_nothing : Tree → Bool
is_nothing nothing = true
is_nothing _ = false

-- The texts that can be parsed are given; every tree is written as the same text.
abbrev pub trees : (Bytes → Option Tree) → Json
trees parse = record {
  Value = Tree;
  parse = parse;
  dump = λ v. some (bytes "{}");
  at = member_in;
  string_of = string_in;
  unsigned_of = natural_in;
  vector_of = vector_in;
  range_of = range_in;
  is_empty = is_nothing;
  null = nothing;
  of_string = text;
  of_unsigned = natural;
  of_vector = λ vs. vector (to_trees vs);
  of_object = λ m. object (to_members m);
}

pub trees-ReadsBack : (parse : Bytes → Option Tree) → ReadsBack (trees parse)
unfolding string_in natural_in vector_in member_in to_trees to_members of_trees of_members
trees-ReadsBack parse = record {
  string_of-of_string = λ s. refl;
  unsigned_of-of_unsigned = λ n small. refl;
  vector_of-of_vector = λ vs. ap some (of_trees-to_trees vs);
  at-of_object = λ m key unique. ap (lookup key) (of_members-to_members m);
}

pub trees-RangesOver : (parse : Bytes → Option Tree) → RangesOver (trees parse)
unfolding RangesOver range_in to_trees of_trees
trees-RangesOver parse = of_trees-to_trees
