-- ===== src/Sort/Members.antt =====
-- `sort_by_key` of the standard library keeps the members, and they determine a sorted list.
use mathlib.Core.List.{Memᴰ}
use mathlib.Core.List.Memᴰ
use ryther_core.Base.{
  ℕ, ◌<◌, ◌≡◌, refl, inl, inr, List, [], ◌∷◌, leb, arith, Bool-cases, ap, sym, ◌∙◌, All,
}
use ryther_core.Sort.{insert_by, sort_by_key, StrictAscending}

module _ {ℓ} {A : Type ℓ} (key : A → ℕ) where
  All-Memᴰ : (n : ℕ) (xs : List A) (x : A) → All (λ y. n < key y) xs → Memᴰ x xs → n < key x
  All-Memᴰ n [] x a m = absurd (Memᴰ.not-nil m)
  All-Memᴰ n (y ∷ xs) x a m = elim (Memᴰ.cases_cons m) [
    | inl e ↦ rw e a.0
    | inr later ↦ All-Memᴰ n xs x a.1 later
  ]

  -- A strictly ascending list is determined by its members.
  pub StrictAscending-unique :
      (xs ys : List A)
      → StrictAscending key xs
      → StrictAscending key ys
      → ((x : A) → Memᴰ x xs → Memᴰ x ys)
      → ((x : A) → Memᴰ x ys → Memᴰ x xs)
      → xs ≡ ys
  StrictAscending-unique [] [] a b f g = refl
  StrictAscending-unique [] (y ∷ ys) a b f g = absurd (Memᴰ.not-nil (g y (Memᴰ.head refl)))
  StrictAscending-unique (x ∷ xs) [] a b f g = absurd (Memᴰ.not-nil (f x (Memᴰ.head refl)))
  StrictAscending-unique (x ∷ xs) (y ∷ ys) a b f g =
      let heads : x ≡ y = elim (Memᴰ.cases_cons (f x (Memᴰ.head refl))) [
        | inl e ↦ e
        | inr later ↦ elim (Memᴰ.cases_cons (g y (Memᴰ.head refl))) [
          | inl e ↦ sym e
          | inr later' ↦
              let above = All-Memᴰ (key y) ys x b.0 later in
              let above' = All-Memᴰ (key x) xs y a.0 later' in absurd (omega arith)
        ]
      ] in
      let f' : (z : A) → Memᴰ z xs → Memᴰ z ys = λ z m. elim (Memᴰ.cases_cons (f z (Memᴰ.tail m))) [
        | inl e ↦
            let above = All-Memᴰ (key x) xs z a.0 m in
            let same : key z ≡ key x = ap key (e ∙ sym heads) in absurd (omega arith)
        | inr later ↦ later
      ] in
      let g' : (z : A) → Memᴰ z ys → Memᴰ z xs = λ z m. elim (Memᴰ.cases_cons (g z (Memᴰ.tail m))) [
        | inl e ↦
            let above = All-Memᴰ (key y) ys z b.0 m in
            let same : key z ≡ key y = ap key (e ∙ heads) in absurd (omega arith)
        | inr later ↦ later
      ] in
      rw (heads, StrictAscending-unique xs ys a.1 b.1 f' g') refl

  Memᴰ-insert_by : (x z : A) (xs : List A) → Memᴰ z (insert_by key x xs) → Memᴰ z (x ∷ xs)
  unfolding insert_by
  Memᴰ-insert_by x z [] m = m
  Memᴰ-insert_by x z (y ∷ ys) m = elim (Bool-cases (leb (key x) (key y))) [
    | inl e ↦ rw e at m
    | inr e ↦
        let m' : Memᴰ z (y ∷ insert_by key x ys) = rw e at m in
        elim (Memᴰ.cases_cons m') [
          | inl eq ↦ Memᴰ.tail (Memᴰ.head eq)
          | inr later ↦ elim (Memᴰ.cases_cons (Memᴰ-insert_by x z ys later)) [
            | inl eq ↦ Memᴰ.head eq
            | inr old ↦ Memᴰ.tail (Memᴰ.tail old)
          ]
        ]
  ]

  insert_by-Memᴰ : (x z : A) (xs : List A) → Memᴰ z (x ∷ xs) → Memᴰ z (insert_by key x xs)
  unfolding insert_by
  insert_by-Memᴰ x z [] m = m
  insert_by-Memᴰ x z (y ∷ ys) m = elim (Bool-cases (leb (key x) (key y))) [
    | inl e ↦ rw e m
    | inr e ↦ rw e (elim (Memᴰ.cases_cons m) [
      | inl eq ↦ Memᴰ.tail (insert_by-Memᴰ x z ys (Memᴰ.head eq))
      | inr old ↦ elim (Memᴰ.cases_cons old) [
        | inl eq ↦ Memᴰ.head eq
        | inr later ↦ Memᴰ.tail (insert_by-Memᴰ x z ys (Memᴰ.tail later))
      ]
    ])
  ]

  pub Memᴰ-sort_by_key : (z : A) (xs : List A) → Memᴰ z (sort_by_key key xs) → Memᴰ z xs
  unfolding sort_by_key
  Memᴰ-sort_by_key z [] m = m
  Memᴰ-sort_by_key z (x ∷ xs) m =
      elim (Memᴰ.cases_cons (Memᴰ-insert_by x z (sort_by_key key xs) m)) [
        | inl eq ↦ Memᴰ.head eq
        | inr later ↦ Memᴰ.tail (Memᴰ-sort_by_key z xs later)
      ]

  pub sort_by_key-Memᴰ : (z : A) (xs : List A) → Memᴰ z xs → Memᴰ z (sort_by_key key xs)
  unfolding sort_by_key
  sort_by_key-Memᴰ z [] m = m
  sort_by_key-Memᴰ z (x ∷ xs) m =
      insert_by-Memᴰ x z (sort_by_key key xs) (elim (Memᴰ.cases_cons m) [
        | inl eq ↦ Memᴰ.head eq
        | inr later ↦ Memᴰ.tail (sort_by_key-Memᴰ z xs later)
      ])
