-- ===== src/Base/Maps.antt =====
-- `std::unordered_map` as an association list, over keys with a Boolean equality.
use Prim.Native.Nat.{ℕ}
use mathlib.Core.Path.{◌≡◌, refl, sym, ap, ◌∙◌}
use mathlib.Core.Logic.{◌↔◌, ◌⊎◌, inl, inr}
use mathlib.Core.Bool.{Bool, true}
use mathlib.Core.Option.{Option, none, some}
use mathlib.Core.List.{List, [], ◌∷◌, ◌++◌}
use native.Mathlib.Omega.{arith}
use metro_network_monitor.Base.Lists.{Elem}
use metro_network_monitor.Base.Tests.{Bool-cases, ◌==◌, if◌then◌else◌}

pub record Eq {ℓ} (A : Type ℓ) : Type ℓ where
  pub beq : A → A → Bool
  pub beq_iff : (a b : A) → (beq a b ≡ true) ↔ (a ≡ b)

pub ==_iff : (a b : ℕ) → ((a == b) ≡ true) ↔ (a ≡ b)
==_iff a b = ground arith

-- Addresses.
instance abbrev pub nat_eq : Eq ℕ
nat_eq = record { beq = λ a b. a == b; beq_iff = ==_iff }

module _ {ℓ κ} {K : Type ℓ} {V : Type κ} ⦃e : Eq K⦄ where
  -- `find`
  unfoldable pub lookup : K → List (K × V) → Option V
  lookup k [] = none
  lookup k ((j, v) ∷ m) = if e.beq j k then some v else lookup k m

  -- `m[k] = v`
  unfoldable pub insert : K → V → List (K × V) → List (K × V)
  insert k v [] = (k, v) ∷ []
  insert k v ((j, w) ∷ m) = if e.beq j k then (k, v) ∷ m else (j, w) ∷ insert k v m

  -- `erase`
  unfoldable pub erase : K → List (K × V) → List (K × V)
  erase k [] = []
  erase k ((j, w) ∷ m) = if e.beq j k then erase k m else (j, w) ∷ erase k m

  pub lookup-insert :
      (k j : K) (v : V) (m : List (K × V))
      → lookup j (insert k v m) ≡ (if e.beq k j then some v else lookup j m)
  unfolding lookup insert
  lookup-insert k j v [] = refl
  lookup-insert k j v ((i, w) ∷ m) =
      ground (arith, e.beq_iff k j, e.beq_iff i k, e.beq_iff i j, lookup-insert k j v m)

  pub lookup-erase :
      (k j : K) (m : List (K × V)) → lookup j (erase k m) ≡ (if e.beq k j then none else lookup j m)
  unfolding lookup erase
  lookup-erase k j [] = ground arith
  lookup-erase k j ((i, w) ∷ m) =
      ground (arith, e.beq_iff k j, e.beq_iff i k, e.beq_iff i j, lookup-erase k j m)

  pub lookup-insert_self : (k : K) (v : V) (m : List (K × V)) → lookup k (insert k v m) ≡ some v
  lookup-insert_self k v m = rw (lookup-insert k k v m, (e.beq_iff k k).1 refl)

  pub lookup-insert_ne :
      (k j : K) (v : V) (m : List (K × V)) → ¬ (k ≡ j) → lookup j (insert k v m) ≡ lookup j m
  lookup-insert_ne k j v m h = ground (arith, lookup-insert k j v m, e.beq_iff k j)

  pub lookup-erase_ne : (k j : K) (m : List (K × V)) → ¬ (k ≡ j) → lookup j (erase k m) ≡ lookup j m
  lookup-erase_ne k j m h = ground (arith, lookup-erase k j m, e.beq_iff k j)

  pub lookup-erase_self : (k : K) (m : List (K × V)) → lookup k (erase k m) ≡ none
  lookup-erase_self k m = rw (lookup-erase k k m, (e.beq_iff k k).1 refl)

  -- An entry that is left was there before, under another key.
  pub lookup-erase-some :
      (k j : K) (v : V) (m : List (K × V))
      → lookup j (erase k m) ≡ some v
      → (¬ (k ≡ j)) × (lookup j m ≡ some v)
  lookup-erase-some k j v m h = elim (Bool-cases (e.beq k j)) [
    | inl same ↦
        let gone : lookup j (erase k m) ≡ none = lookup-erase k j m ∙ rw same refl in
        let clash : none ≡ some v = sym gone ∙ h in cc
    | inr other ↦
        let kept : lookup j (erase k m) ≡ lookup j m = lookup-erase k j m ∙ rw other refl in
        (λ same. (let same' = (e.beq_iff k j).1 same in cc), sym kept ∙ h)
  ]

  -- An entry found after a write is the one written or was there before.
  pub lookup-insert_cases :
      (k j : K) (v w : V) (m : List (K × V))
      → lookup j (insert k v m) ≡ some w
      → ((k ≡ j) × (v ≡ w)) ⊎ (lookup j m ≡ some w)
  lookup-insert_cases k j v w m h = ground (arith, lookup-insert k j v m, e.beq_iff k j)

  -- A new key goes to the end.
  pub insert_new :
      (k : K) (v : V) (m : List (K × V)) → lookup k m ≡ none → insert k v m ≡ m ++ (k, v) ∷ []
  unfolding lookup insert
  insert_new k v [] h = refl
  insert_new k v ((i, w) ∷ m) h = ground (arith, insert_new k v m)

-- Maps with one entry to a key, as all maps that `insert` builds from the empty one are.
module _ {ℓ κ} {K : Type ℓ} {V : Type κ} ⦃e : Eq K⦄ where
  abbrev pub IsUnique : List (K × V) → Type κ
  IsUnique [] = Unit
  IsUnique ((k, v) ∷ m) = (lookup k m ≡ none) × IsUnique m

  pub insert-IsUnique : (k : K) (v : V) (m : List (K × V)) → IsUnique m → IsUnique (insert k v m)
  unfolding insert lookup
  insert-IsUnique k v [] u = (refl, tt)
  insert-IsUnique k v ((j, w) ∷ m) (new, u) =
      ground (arith, insert-IsUnique k v m u, lookup-insert k j v m, e.beq_iff k j, e.beq_iff j k)

  pub lookup_of_Elem :
      (k : K) (v : V) (m : List (K × V)) → IsUnique m → Elem (k, v) m → lookup k m ≡ some v
  unfolding lookup
  lookup_of_Elem k v [] u q = absurd q.1
  lookup_of_Elem k v ((j, w) ∷ m) (new, u) (inl p) =
      let pk : k ≡ j = ap (λ x. x.0) p in
      let pv : v ≡ w = ap (λ x. x.1) p in ground (arith, e.beq_iff j k)
  lookup_of_Elem k v ((j, w) ∷ m) (new, u) (inr q) =
      ground (arith, lookup_of_Elem k v m u q, e.beq_iff j k)

  pub Elem-of_lookup : (k : K) (v : V) (m : List (K × V)) → lookup k m ≡ some v → Elem (k, v) m
  unfolding lookup
  Elem-of_lookup k v [] h = cc
  Elem-of_lookup k v ((j, w) ∷ m) h = elim (Bool-cases (e.beq j k)) [
    | inl same ↦
        let p : j ≡ k = (e.beq_iff j k).0 same in
        let q : w ≡ v = ground arith in inl (λ i. (sym p i, sym q i))
    | inr other ↦ inr (Elem-of_lookup k v m (ground arith))
  ]
