-- ===== src/Sort.antt =====
-- `slice::sort_by_key` of the standard library on a numeric key: a stable sort, written as the
-- insertion sort that gives the same result.
pub mod Members
use mathlib.Core.List.{Perm}
use mathlib.Core.List.Perm
use ryther_core.Base.{
  ℕ, ◌≤◌, ◌<◌, ◌≡◌, ◌≢◌, List, [], ◌∷◌, Bool, true, false, if◌then◌else◌, leb, arith, All,
  All-map_imp, Bool-cases, inl, inr,
}

module _ {ℓ} {A : Type ℓ} (key : A → ℕ) where
  unfoldable pub insert_by : A → List A → List A
  insert_by x [] = x ∷ []
  insert_by x (y ∷ ys) = if leb (key x) (key y) then x ∷ y ∷ ys else y ∷ insert_by x ys

  unfoldable pub sort_by_key : List A → List A
  unfolding insert_by
  sort_by_key [] = []
  sort_by_key (x ∷ xs) = insert_by x (sort_by_key xs)

  abbrev pub Ascending : List A → Type 0
  Ascending [] = Unit {0}
  Ascending (x ∷ xs) = All (λ y. key x ≤ key y) xs × Ascending xs

  -- Ascending, with no key twice.
  abbrev pub StrictAscending : List A → Type 0
  StrictAscending [] = Unit {0}
  StrictAscending (x ∷ xs) = All (λ y. key x < key y) xs × StrictAscending xs

  abbrev pub DistinctKeys : List A → Type 0
  DistinctKeys [] = Unit {0}
  DistinctKeys (x ∷ xs) = All (λ y. key x ≢ key y) xs × DistinctKeys xs

  All-insert_by {κ} :
      (P : A → Type κ) (x : A) (xs : List A) → P x → All P xs → All P (insert_by x xs)
  unfolding insert_by
  All-insert_by P x [] h a = (h, tt)
  All-insert_by P x (y ∷ ys) h a = elim (Bool-cases (leb (key x) (key y))) [
    | inl e ↦ rw e (h, a)
    | inr e ↦ rw e (a.0, All-insert_by P x ys h a.1)
  ]

  All-sort_by_key {κ} : (P : A → Type κ) (xs : List A) → All P xs → All P (sort_by_key xs)
  unfolding sort_by_key
  All-sort_by_key P [] a = tt
  All-sort_by_key P (x ∷ xs) a = All-insert_by P x (sort_by_key xs) a.0 (All-sort_by_key P xs a.1)

  insert_by-Ascending : (x : A) (xs : List A) → Ascending xs → Ascending (insert_by x xs)
  unfolding insert_by
  insert_by-Ascending x [] a = (tt, tt)
  insert_by-Ascending x (y ∷ ys) a = elim (Bool-cases (leb (key x) (key y))) [
    | inl e ↦ rw e ((ground arith, All-map_imp (λ z h. ground arith) ys a.0), a)
    | inr e ↦
        rw e
          (All-insert_by (λ z. key y ≤ key z) x ys (ground arith) a.0, insert_by-Ascending x ys a.1)
  ]

  sort_by_key-Ascending : (xs : List A) → Ascending (sort_by_key xs)
  unfolding sort_by_key
  sort_by_key-Ascending [] = tt
  sort_by_key-Ascending (x ∷ xs) = insert_by-Ascending x (sort_by_key xs) (sort_by_key-Ascending xs)

  insert_by-StrictAscending :
      (x : A) (xs : List A)
      → All (λ y. key x ≢ key y) xs
      → StrictAscending xs
      → StrictAscending (insert_by x xs)
  unfolding insert_by
  insert_by-StrictAscending x [] d a = (tt, tt)
  insert_by-StrictAscending x (y ∷ ys) d a = elim (Bool-cases (leb (key x) (key y))) [
    | inl e ↦
        let below : key x < key y = ground (arith, d.0) in
        rw e ((below, All-map_imp (λ z h. omega arith) ys a.0), a)
    | inr e ↦ rw e (
      All-insert_by (λ z. key y < key z) x ys (ground arith) a.0,
      insert_by-StrictAscending x ys d.1 a.1,
    )
  ]

  pub sort_by_key-StrictAscending :
      (xs : List A) → DistinctKeys xs → StrictAscending (sort_by_key xs)
  unfolding sort_by_key
  sort_by_key-StrictAscending [] d = tt
  sort_by_key-StrictAscending (x ∷ xs) d =
      insert_by-StrictAscending x (sort_by_key xs) (All-sort_by_key (λ y. key x ≢ key y) xs d.0)
        (sort_by_key-StrictAscending xs d.1)

  insert_by-perm : (x : A) (xs : List A) → Perm (insert_by x xs) (x ∷ xs)
  unfolding insert_by
  insert_by-perm x [] = Perm.refl (x ∷ [])
  insert_by-perm x (y ∷ ys) = elim (Bool-cases (leb (key x) (key y))) [
    | inl e ↦ rw e (Perm.refl (x ∷ y ∷ ys))
    | inr e ↦ rw e (Perm.trans (Perm.cons y (insert_by-perm x ys)) (Perm.swap x y ys))
  ]

  pub sort_by_key-perm : (xs : List A) → Perm (sort_by_key xs) xs
  unfolding sort_by_key
  sort_by_key-perm [] = Perm.nil
  sort_by_key-perm (x ∷ xs) =
      Perm.trans (insert_by-perm x (sort_by_key xs)) (Perm.cons x (sort_by_key-perm xs))
