-- ===== src/Examples/Rules.antt =====
-- A queue that finds a least element by a scan, and insertion sort.
use metro_network_monitor.Base.{
  ℕ, suc, ◌≤◌, ◌≡◌, refl, ap, ◌↔◌, ◌⊎◌, inl, inr, Option, none, some, List, [], ◌∷◌, arith, ltb,
  if◌then◌else◌, ltb→lt, not_ltb→le, Bool-cases, length, Elem, nat_eq, bytes_eq,
}
use metro_network_monitor.Search.Queue.{PopRule, SortRule, IsDescending}

regroup {ℓ} : {P Q R S : Type ℓ} → (S ↔ (Q ⊎ R)) → ((P ⊎ S) ↔ (Q ⊎ (P ⊎ R)))
regroup h = (
  λ m. elim m [
    | inl p ↦ inr (inl p)
    | inr s ↦ elim (h.0 s) [ inl q ↦ inl q | inr r ↦ inr (inr r) ]
  ],
  λ m. elim m [
    | inl q ↦ inr (h.1 (inl q))
    | inr m' ↦ elim m' [ inl p ↦ inl p | inr r ↦ inr (h.1 (inr r)) ]
  ],
)

module _ {ℓ} {A : Type ℓ} (key : A → ℕ) where
  unfoldable pub pop_least : List A → Option (A × List A)
  pop_least [] = none
  pop_least (x ∷ xs) = elim (pop_least xs) [
    | none ↦ some (x, [])
    | some (y, rest) ↦ if ltb (key y) (key x) then some (y, x ∷ rest) else some (x, xs)
  ]

  pub record IsPopped (x : A) (xs : List A) (y : A) (rest : List A) : Type ℓ where
    pub found : pop_least (x ∷ xs) ≡ some (y, rest)
    pub count : length rest ≡ length xs
    pub same : (z : A) → Elem z (x ∷ xs) ↔ Elem z (y ∷ rest)
    pub low : (z : A) → Elem z rest → key y ≤ key z

  pub pop_least-IsPopped : (x : A) (xs : List A) → (y : A) × (rest : List A) × IsPopped x xs y rest
  unfolding pop_least
  pop_least-IsPopped x [] = (
    x,
    [],
    record { found = refl; count = refl; same = λ z. (λ m. m, λ m. m); low = λ z m. absurd m.1 },
  )
  pop_least-IsPopped x (w ∷ ws) =
      let (y, rest, h) = pop_least-IsPopped w ws in
      elim (Bool-cases (ltb (key y) (key x))) [
        | inl less ↦ (
          y,
          x ∷ rest,
          record {
            found = rw (h.found, less) refl;
            count = ap suc h.count;
            same = λ z. regroup (h.same z);
            low = λ z m. elim m [
              | inl e ↦ omega (arith, ltb→lt (key y) (key x) less, ap key e)
              | inr m' ↦ h.low z m'
            ];
          },
        )
        | inr not_less ↦ (
          x,
          w ∷ ws,
          record {
            found = rw (h.found, not_less) refl;
            count = refl;
            same = λ z. (λ m. m, λ m. m);
            low = λ z m. elim ((h.same z).0 m) [
              | inl e ↦ omega (arith, not_ltb→le (key y) (key x) not_less, ap key e)
              | inr m' ↦ omega (arith, not_ltb→le (key y) (key x) not_less, h.low z m')
            ];
          },
        )
      ]

  pub pop_least-nil : pop_least [] ≡ none
  unfolding pop_least
  pop_least-nil = refl

  abbrev pub least_first : PopRule key
  least_first = record {
    pop = pop_least;
    pop_nil = pop_least-nil;
    pop_cons = λ x xs.
        let (y, rest, h) = pop_least-IsPopped x xs in (y, rest, h.found, h.count, h.same, h.low);
  }

  unfoldable pub put_in : A → List A → List A
  put_in x [] = x ∷ []
  put_in x (y ∷ ys) = let rest = put_in x ys in if ltb (key y) (key x) then x ∷ y ∷ ys else y ∷ rest

  unfoldable pub put_all : List A → List A
  unfolding put_in
  put_all [] = []
  put_all (x ∷ xs) = put_in x (put_all xs)

  put_in-Elem : (x : A) (ys : List A) (z : A) → Elem z (put_in x ys) ↔ Elem z (x ∷ ys)
  unfolding put_in
  put_in-Elem x [] z = (λ m. m, λ m. m)
  put_in-Elem x (y ∷ ys) z =
      let h = put_in-Elem x ys z in
      elim (Bool-cases (ltb (key y) (key x))) [
        | inl less ↦ rw less (λ m. m, λ m. m)
        | inr not_less ↦ rw not_less (regroup h)
      ]

  pub put_all-Elem : (xs : List A) (z : A) → Elem z (put_all xs) ↔ Elem z xs
  unfolding put_all
  put_all-Elem [] z = (λ m. m, λ m. m)
  put_all-Elem (x ∷ xs) z =
      let ih = put_all-Elem xs z in
      let h = put_in-Elem x (put_all xs) z in
      (
        λ m. elim (h.0 m) [ inl e ↦ inl e | inr q ↦ inr (ih.0 q) ],
        λ m. h.1 (elim m [ inl e ↦ inl e | inr q ↦ inr (ih.1 q) ]),
      )

  put_in-IsDescending : (x : A) (ys : List A) → IsDescending key ys → IsDescending key (put_in x ys)
  unfolding put_in
  put_in-IsDescending x [] d = (λ z m. absurd m.1, tt)
  put_in-IsDescending x (y ∷ ys) (low, d) = elim (Bool-cases (ltb (key y) (key x))) [
    | inl less ↦ rw less (
      λ z m. elim m [
        | inl e ↦ omega (arith, ltb→lt (key y) (key x) less, ap key e)
        | inr m' ↦ omega (arith, ltb→lt (key y) (key x) less, low z m')
      ],
      (low, d),
    )
    | inr not_less ↦ rw not_less (
      λ z m. elim ((put_in-Elem x ys z).0 m) [
        | inl e ↦ omega (arith, not_ltb→le (key y) (key x) not_less, ap key e)
        | inr m' ↦ low z m'
      ],
      put_in-IsDescending x ys d,
    )
  ]

  pub put_all-IsDescending : (xs : List A) → IsDescending key (put_all xs)
  unfolding put_all
  put_all-IsDescending [] = tt
  put_all-IsDescending (x ∷ xs) = put_in-IsDescending x (put_all xs) (put_all-IsDescending xs)

  abbrev pub greatest_first : SortRule key
  greatest_first = record {
    sort = put_all;
    sort_elem = put_all-Elem;
    sort_descending = put_all-IsDescending;
  }
