-- ===== src/Search/Correct.antt =====
-- The bisection finds a position that splits a sorted slice.
use Prim.Native.Nat.{Ordering}
use Prim.Native.Nat.Ordering.{lt, eq, gt}
use ryther_core.Base.{
  ℕ, zero, suc, ◌+◌, ◌-◌, ◌/◌, ◌≤◌, ◌<◌, ◌≡◌, refl, ◌⊎◌, inl, inr, Bool, true, false, List, [], ◌∷◌,
  some, leb, length, get_elem?, arith, Bool-cases, All, eqb, eqb_iff, subst, ap, leb→le,
  lt→leb-false, leb-false→lt,
}
use ryther_core.Search.{unwrap_or_else_pos, is_gt, bisect, conclude, compare_at, binary_search_by}

-- All that the loop knows of its result.
abbrev Lands : (ℕ → Ordering) → ℕ → ℕ → Type 0
Lands c n b =
    (b < n) × ((b ≡ 0) ⊎ (is_gt (c b) ≡ false)) × ((j : ℕ) → b < j → j < n → is_gt (c j) ≡ true)

bisect_lem :
    (c : ℕ → Ordering) (n : ℕ)
    → ((i j : ℕ) → i ≤ j → j < n → is_gt (c i) ≡ true → is_gt (c j) ≡ true)
    → (fuel size base : ℕ) → size ≤ suc fuel
    → 0 < size
    → base + size ≤ n
    → (base ≡ 0) ⊎ (is_gt (c base) ≡ false)
    → ((j : ℕ) → base + size ≤ j → j < n → is_gt (c j) ≡ true)
    → Lands c n (bisect c fuel size base)
unfolding bisect
bisect_lem c n up zero size base f p h lower upper =
    (omega arith, lower, λ j k l. upper j (omega arith) l)
bisect_lem c n up (suc fuel) size base f p h lower upper = elim (Bool-cases (leb size 1)) [
  | inl small ↦
      let one = leb→le size 1 small in
      rw small (omega arith, lower, λ j k l. upper j (omega arith) l)
  | inr large ↦
      let big = leb-false→lt size 1 large in
      elim (Bool-cases (is_gt (c (base + size / 2)))) [
        | inl over ↦
            rw (large, over)
              (bisect_lem c n up fuel (size - size / 2) base (omega arith) (omega arith)
                (omega arith) lower (λ j k l. up (base + size / 2) j (omega arith) l over))
        | inr under ↦
            rw (large, under)
              (bisect_lem c n up fuel (size - size / 2) (base + size / 2) (omega arith)
                (omega arith) (omega arith) (inr under) (λ j k l. upper j (omega arith) l))
      ]
]

abbrev pub is_lt : Ordering → Bool
is_lt lt = true
is_lt _ = false

module _ {ℓ} {A : Type ℓ} (f : A → Ordering) where
  -- Once an element is greater than what is sought, all later ones are; and likewise for less.
  abbrev pub Follows : A → A → Type 0
  Follows x y =
      (is_gt (f x) ≡ true → is_gt (f y) ≡ true) × (is_lt (f y) ≡ true → is_lt (f x) ≡ true)

  abbrev pub Ordered : List A → Type 0
  Ordered [] = Unit {0}
  Ordered (x ∷ xs) = All (λ y. Follows x y) xs × Ordered xs

  -- The elements before a position are not greater, those from it on are not less.
  abbrev pub Splits : ℕ → List A → Type 0
  Splits zero xs = All (λ x. is_lt (f x) ≡ false) xs
  Splits (suc i) [] = ⊥
  Splits (suc i) (x ∷ xs) = (is_gt (f x) ≡ false) × Splits i xs

  All-get_elem? {κ} :
      (P : A → Type κ) (xs : List A) (j : ℕ)
      → All P xs
      → j < length xs
      → (x : A) × (get_elem? xs j ≡ some x) × P x
  All-get_elem? P [] j a h = absurd (omega arith)
  All-get_elem? P (x ∷ xs) zero a h = (x, refl, a.0)
  All-get_elem? P (x ∷ xs) (suc j) a h = All-get_elem? P xs j a.1 (omega arith)

  up :
      (xs : List A)
      → Ordered xs
      → (i j : ℕ) → i ≤ j
      → j < length xs
      → is_gt (compare_at f xs i) ≡ true
      → is_gt (compare_at f xs j) ≡ true
  up [] o i j h k g = absurd (omega arith)
  up (x ∷ xs) o zero zero h k g = g
  up (x ∷ xs) o (suc i) zero h k g = absurd (omega arith)
  up (x ∷ xs) o zero (suc j) h k g =
      let (y, e, follows) = All-get_elem? (λ y. Follows x y) xs j o.0 (omega arith) in
      rw (e, compare_at) (follows.0 g)
  up (x ∷ xs) o (suc i) (suc j) h k g = up xs o.1 i j (omega arith) (omega arith) g

  All-not_less :
      (xs : List A)
      → ((j : ℕ) → j < length xs → is_lt (compare_at f xs j) ≡ false)
      → All (λ x. is_lt (f x) ≡ false) xs
  All-not_less [] h = tt
  All-not_less (x ∷ xs) h = (h 0 (omega arith), All-not_less xs (λ j k. h (suc j) (omega arith)))

  Splits-of_index :
      (xs : List A) (p : ℕ)
      → p ≤ length xs
      → ((j : ℕ) → j < p → is_gt (compare_at f xs j) ≡ false)
      → ((j : ℕ) → p ≤ j → j < length xs → is_lt (compare_at f xs j) ≡ false)
      → Splits p xs
  Splits-of_index xs zero h low high = All-not_less xs (λ j k. high j (omega arith) k)
  Splits-of_index [] (suc p) h low high = absurd (omega arith)
  Splits-of_index (x ∷ xs) (suc p) h low high = (
    low 0 (omega arith),
    Splits-of_index xs p (omega arith) (λ j k. low (suc j) (omega arith))
        (λ j k l. high (suc j) (omega arith) (omega arith)),
  )

  not_less_of_greater : (o : Ordering) → is_gt o ≡ true → is_lt o ≡ false
  not_less_of_greater o h = ground arith

  before :
      (xs : List A) (b j : ℕ)
      → Ordered xs
      → b < length xs
      → is_gt (compare_at f xs b) ≡ false
      → j ≤ b
      → is_gt (compare_at f xs j) ≡ false
  before xs b j o h g k = elim (Bool-cases (is_gt (compare_at f xs j))) [
    | inl over ↦ absurd (cc (up xs o j b k h over))
    | inr under ↦ under
  ]

  after :
      (xs : List A) (b j : ℕ)
      → Lands (compare_at f xs) (length xs) b
      → b < j
      → j < length xs
      → is_lt (compare_at f xs j) ≡ false
  after xs b j l h k = not_less_of_greater (compare_at f xs j) (l.2 j h k)

  from :
      (xs : List A) (b j : ℕ)
      → Lands (compare_at f xs) (length xs) b
      → is_lt (compare_at f xs b) ≡ false
      → b ≤ j
      → j < length xs
      → is_lt (compare_at f xs j) ≡ false
  from xs b j l g h k = elim (Bool-cases (eqb b j)) [
    | inl same ↦ subst (λ i. is_lt (compare_at f xs i) ≡ false) ((eqb_iff b j).0 same) g
    | inr other ↦ after xs b j l (ground arith) k
  ]

  concluded :
      (xs : List A) (b : ℕ) (o : Ordering)
      → Ordered xs
      → compare_at f xs b ≡ o
      → Lands (compare_at f xs) (length xs) b
      → Splits (unwrap_or_else_pos (conclude o b)) xs
  unfolding conclude
  concluded xs b eq ord e l =
      Splits-of_index xs b (omega arith) (λ j k. before xs b j ord l.0 (ap is_gt e) (omega arith))
        (λ j k m. from xs b j l (ap is_lt e) k m)
  concluded xs b lt ord e l =
      Splits-of_index xs (b + 1) (omega arith)
        (λ j k. before xs b j ord l.0 (ap is_gt e) (omega arith))
        (λ j k m. after xs b j l (omega arith) m)
  concluded xs b gt ord e l =
      let first : b ≡ 0 = elim l.1 [ inl z ↦ z | inr under ↦ absurd (ground (arith, under)) ] in
      Splits-of_index xs b (omega arith) (λ j k. absurd (omega arith))
        (λ j k m. from xs b j l (ap is_lt e) k m)

  -- On a slice sorted by the comparison, `binary_search_by` gives a position that splits it.
  pub binary_search_by-Splits :
      (xs : List A) → Ordered xs → Splits (unwrap_or_else_pos (binary_search_by f xs)) xs
  unfolding binary_search_by
  binary_search_by-Splits [] o = tt
  binary_search_by-Splits (x ∷ xs) o =
      let n = length (x ∷ xs) in
      rw (lt→leb-false n 0 (omega arith)) (
        concluded (x ∷ xs) (bisect (compare_at f (x ∷ xs)) n n 0)
          (compare_at f (x ∷ xs) (bisect (compare_at f (x ∷ xs)) n n 0)) o refl
          (bisect_lem (compare_at f (x ∷ xs)) n (up (x ∷ xs) o) n n 0 (omega arith) (omega arith)
            (omega arith) (inl refl) (λ j h k. absurd (omega arith))))

  -- What the search has compared: a match at the position it gives, or an element less than what is
  -- sought just before it, unless it is the first position.
  abbrev pub Hits : ℕ → List A → Type 0
  Hits p xs =
      (p ≡ 0) ⊎ ((compare_at f xs p ≡ eq) ⊎ ((b : ℕ) × (p ≡ b + 1) × (compare_at f xs b ≡ lt)))

  concluded-Hits :
      (xs : List A) (b : ℕ) (o : Ordering)
      → compare_at f xs b ≡ o
      → Lands (compare_at f xs) (length xs) b
      → Hits (unwrap_or_else_pos (conclude o b)) xs
  unfolding conclude
  concluded-Hits xs b eq e l = inr (inl e)
  concluded-Hits xs b lt e l = inr (inr (b, refl, e))
  concluded-Hits xs b gt e l = elim l.1 [
    | inl z ↦ inl z
    | inr under ↦ absurd (ground (arith, under))
  ]

  pub binary_search_by-Hits :
      (xs : List A) → Ordered xs → Hits (unwrap_or_else_pos (binary_search_by f xs)) xs
  unfolding binary_search_by
  binary_search_by-Hits [] o = inl refl
  binary_search_by-Hits (x ∷ xs) o =
      let n = length (x ∷ xs) in
      rw (lt→leb-false n 0 (omega arith)) (
        concluded-Hits (x ∷ xs) (bisect (compare_at f (x ∷ xs)) n n 0)
          (compare_at f (x ∷ xs) (bisect (compare_at f (x ∷ xs)) n n 0)) refl
          (bisect_lem (compare_at f (x ∷ xs)) n (up (x ∷ xs) o) n n 0 (omega arith) (omega arith)
            (omega arith) (inl refl) (λ j h k. absurd (omega arith))))
