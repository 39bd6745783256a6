-- ===== src/Base/Lists.antt =====
-- Lists measured and indexed by native numbers, and the predicates on lists the components share.
use Prim.Native.Nat.{ℕ, zero, suc, ◌+◌, ◌≤◌}
use mathlib.Core.Path.{ap, ◌≡◌, refl, sym, subst, ◌∙◌}
use mathlib.Core.Logic.{◌↔◌, ◌⊎◌, inl, inr}
use mathlib.Core.List.{List, [], ◌∷◌, ◌++◌, map}
use native.Mathlib.Omega.{arith}

module _ {ℓ} {A : Type ℓ} where
  abbrev pub length : List A → ℕ
  length [] = 0
  length (x ∷ xs) = suc (length xs)

  abbrev pub take : ℕ → List A → List A
  take zero xs = []
  take (suc n) [] = []
  take (suc n) (x ∷ xs) = x ∷ take n xs

  abbrev pub drop : ℕ → List A → List A
  drop zero xs = xs
  drop (suc n) [] = []
  drop (suc n) (x ∷ xs) = drop n xs

  pub length-append : (xs ys : List A) → length (xs ++ ys) ≡ length xs + length ys
  length-append [] ys = omega arith
  length-append (x ∷ xs) ys = omega (arith, length-append xs ys)

  pub List-cases : (xs : List A) → (xs ≡ []) ⊎ ((x : A) × (rest : List A) × (xs ≡ x ∷ rest))
  List-cases [] = inl refl
  List-cases (x ∷ xs) = inr (x, xs, refl)

  -- `Elem a xs` by recursion, so that the tactics take it apart.
  abbrev pub Elem : A → List A → Type ℓ
  Elem a [] = Unit {ℓ} × ⊥
  Elem a (x ∷ xs) = (a ≡ x) ⊎ Elem a xs

  abbrev pub All {κ} : (A → Type κ) → List A → Type κ
  All P [] = Unit
  All P (x ∷ xs) = P x × All P xs

module _ {ℓ} {A : Type ℓ} where
  abbrev pub Distinct : List A → Type ℓ
  Distinct [] = Unit
  Distinct (x ∷ xs) = (¬ Elem x xs) × Distinct xs

  -- A list without one occurrence of an element that it has.
  remove_elem : (x : A) (ys : List A) → Elem x ys → List A
  remove_elem x [] m = []
  remove_elem x (y ∷ ys) (inl e) = ys
  remove_elem x (y ∷ ys) (inr m) = y ∷ remove_elem x ys m

  length-remove_elem :
      (x : A) (ys : List A) (m : Elem x ys) → suc (length (remove_elem x ys m)) ≡ length ys
  unfolding remove_elem
  length-remove_elem x [] m = absurd m.1
  length-remove_elem x (y ∷ ys) (inl e) = refl
  length-remove_elem x (y ∷ ys) (inr m) = omega (arith, length-remove_elem x ys m)

  Elem-remove_elem :
      (x z : A) (ys : List A) (m : Elem x ys) → Elem z ys → ¬ (z ≡ x) → Elem z (remove_elem x ys m)
  unfolding remove_elem
  Elem-remove_elem x z [] m k n = k
  Elem-remove_elem x z (y ∷ ys) (inl e) (inl p) n = absurd (n (p ∙ sym e))
  Elem-remove_elem x z (y ∷ ys) (inl e) (inr k) n = k
  Elem-remove_elem x z (y ∷ ys) (inr m) (inl p) n = inl p
  Elem-remove_elem x z (y ∷ ys) (inr m) (inr k) n = inr (Elem-remove_elem x z ys m k n)

  -- Distinct elements of a list are at most as many as the list is long.
  pub length-le_of_Distinct :
      (xs ys : List A) → Distinct xs → ((z : A) → Elem z xs → Elem z ys) → length xs ≤ length ys
  length-le_of_Distinct [] ys d h = omega arith
  length-le_of_Distinct (x ∷ xs) ys (new, d) h =
      let m = h x (inl refl) in
      omega (
        arith,
        length-remove_elem x ys m,
        length-le_of_Distinct xs (remove_elem x ys m) d (λ z k.
            Elem-remove_elem x z ys m (h z (inr k)) (λ e. new (subst (λ w. Elem w xs) e k))),
      )

module _ {ℓ κ} {A : Type ℓ} {B : Type κ} (f : A → B) where
  pub length-map : (xs : List A) → length (map f xs) ≡ length xs
  length-map [] = refl
  length-map (x ∷ xs) = ap suc (length-map xs)

  pub Elem-map : (x : A) (xs : List A) → Elem x xs → Elem (f x) (map f xs)
  Elem-map x [] m = absurd m.1
  Elem-map x (y ∷ xs) (inl e) = inl (ap f e)
  Elem-map x (y ∷ xs) (inr m) = inr (Elem-map x xs m)

module _ {ℓ} {A : Type ℓ} where
  pub Elem-append : (z : A) (xs ys : List A) → Elem z (xs ++ ys) ↔ (Elem z xs ⊎ Elem z ys)
  Elem-append z [] ys = (inr, λ q. elim q [ inl m ↦ absurd m.1 | inr m ↦ m ])
  Elem-append z (x ∷ xs) ys = ground (arith, Elem-append z xs ys)

-- The element at an index, or the default.
unfoldable pub value_at {ℓ} : {A : Type ℓ} → A → List A → ℕ → A
value_at d [] n = d
value_at d (x ∷ xs) zero = x
value_at d (x ∷ xs) (suc n) = value_at d xs n
