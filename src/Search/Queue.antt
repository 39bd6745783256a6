-- ===== src/Search/Queue.antt =====
-- What the searches rely on of `std::priority_queue` and `std::sort`. Which of several elements with
-- the same key comes first is left open by the standard: the rules are parameters of the searches.
use metro_network_monitor.Base.{
  arith, refl, inl, inr, sym, ap, ℕ, ◌≤◌, ◌≡◌, ◌↔◌, List, [], ◌∷◌, Option, none, some, length, Elem,
}

-- `top` and `pop`: an element with the least key leaves, all others stay.
pub record PopRule {ℓ} {A : Type ℓ} (key : A → ℕ) : Type ℓ where
  pub pop : List A → Option (A × List A)
  pub pop_nil : pop [] ≡ none
  pub pop_cons :
      (x : A) (xs : List A)
      → (y : A) × (rest : List A) × (pop (x ∷ xs) ≡ some (y, rest))
        × (length rest ≡ length xs)
        × ((z : A) → Elem z (x ∷ xs) ↔ Elem z (y ∷ rest))
        × ((z : A) → Elem z rest → key y ≤ key z)

-- Keys fall along the list.
abbrev pub IsDescending {ℓ} : {A : Type ℓ} → (A → ℕ) → List A → Type ℓ
IsDescending key [] = Unit
IsDescending key (x ∷ xs) = ((z : _) → Elem z xs → key z ≤ key x) × IsDescending key xs

-- `std::sort` by the comparator `a.second > b.second`
pub record SortRule {ℓ} {A : Type ℓ} (key : A → ℕ) : Type ℓ where
  pub sort : List A → List A
  pub sort_elem : (xs : List A) (z : A) → Elem z (sort xs) ↔ Elem z xs
  pub sort_descending : (xs : List A) → IsDescending key (sort xs)

-- `back()`
unfoldable pub back {ℓ} : {A : Type ℓ} → List A → Option A
back [] = none
back (x ∷ []) = some x
back (x ∷ y ∷ xs) = back (y ∷ xs)

-- The last element of a list that falls is a least one.
pub back-least {ℓ} :
    {A : Type ℓ} (key : A → ℕ) (xs : List A) (y : A)
    → IsDescending key xs
    → back xs ≡ some y
    → Elem y xs × ((z : A) → Elem z xs → key y ≤ key z)
unfolding back
back-least key [] y d h = absurd (ground arith)
back-least key (x ∷ []) y d h =
    let p : x ≡ y = ground arith in
    (
      inl (sym p),
      λ z q. elim q [ inl e ↦ omega (arith, ap key p, ap key e) | inr q' ↦ absurd q'.1 ],
    )
back-least key (x ∷ w ∷ xs) y (low, d) h =
    let (m, least) = back-least key (w ∷ xs) y d h in
    (inr m, λ z q. elim q [ inl e ↦ omega (arith, low y m, ap key e) | inr q' ↦ least z q' ])

pub back-none {ℓ} : {A : Type ℓ} (xs : List A) → back xs ≡ none → xs ≡ []
unfolding back
back-none [] h = refl
back-none (x ∷ []) h = cc
back-none (x ∷ y ∷ xs) h = let p : y ∷ xs ≡ [] = back-none (y ∷ xs) h in cc
