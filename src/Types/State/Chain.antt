-- ===== src/Types/State/Chain.antt =====
-- The order of a version chain, and what `add_version` does to later reads.
use ryther_core.Base.{
  ℕ, zero, suc, ◌≤◌, ◌<◌, ◌≢◌, List, [], ◌∷◌, arith, All, All-map_imp, insert_at,
}
use ryther_core.Search.{binary_search_by, unwrap_or_else_pos}
use ryther_core.Search.Correct.{Ordered, Splits, Follows, binary_search_by-Splits}
use ryther_core.Types.State.{StateVersion, VersionChain, by_sequence, add_version}

-- Newest first, repetitions allowed.
abbrev pub Descending : List StateVersion → Type 0
Descending [] = Unit {0}
Descending (x ∷ xs) = All (λ y. y.tx_sequence ≤ x.tx_sequence) xs × Descending xs

-- Newest first, no sequence number twice.
abbrev pub Strict : List StateVersion → Type 0
Strict [] = Unit {0}
Strict (x ∷ xs) = All (λ y. y.tx_sequence < x.tx_sequence) xs × Strict xs

-- No version has the sequence number.
abbrev pub Fresh : ℕ → List StateVersion → Type 0
Fresh q = All (λ y. y.tx_sequence ≢ q)

pub Descending-Strict : (xs : List StateVersion) → Strict xs → Descending xs
Descending-Strict [] s = tt
Descending-Strict (x ∷ xs) s = (All-map_imp (λ y h. omega arith) xs s.0, Descending-Strict xs s.1)

pub Ordered-Descending :
    (v : StateVersion) (xs : List StateVersion) → Descending xs → Ordered (by_sequence v) xs
Ordered-Descending v [] d = tt
Ordered-Descending v (x ∷ xs) d = (
  All-map_imp {Q = Follows (by_sequence v) x} (λ y h. (λ g. ground arith, λ g. ground arith)) xs
      d.0,
  Ordered-Descending v xs d.1,
)

module _ (v : StateVersion) where
  abbrev pub position : List StateVersion → ℕ
  position xs = unwrap_or_else_pos (binary_search_by (by_sequence v) xs)

  pub position-Splits :
      (xs : List StateVersion) → Descending xs → Splits (by_sequence v) (position xs) xs
  position-Splits xs d = binary_search_by-Splits (by_sequence v) xs (Ordered-Descending v xs d)

  All-insert_at {κ} :
      (P : StateVersion → Type κ) (p : ℕ) (xs : List StateVersion)
      → P v
      → All P xs
      → All P (insert_at p v xs)
  All-insert_at P zero xs h a = (h, a)
  All-insert_at P (suc p) [] h a = (h, tt)
  All-insert_at P (suc p) (x ∷ xs) h a = (a.0, All-insert_at P p xs h a.1)

  pub insert_at-Descending :
      (p : ℕ) (xs : List StateVersion)
      → Splits (by_sequence v) p xs
      → Descending xs
      → Descending (insert_at p v xs)
  insert_at-Descending zero xs s d = (All-map_imp (λ y h. ground arith) xs s, d)
  insert_at-Descending (suc p) [] s d = absurd s
  insert_at-Descending (suc p) (x ∷ xs) s d = (
    All-insert_at (λ y. y.tx_sequence ≤ x.tx_sequence) p xs (ground arith) d.0,
    insert_at-Descending p xs s.1 d.1,
  )

  insert_at-Strict :
      (p : ℕ) (xs : List StateVersion)
      → Splits (by_sequence v) p xs
      → Fresh v.tx_sequence xs
      → Strict xs
      → Strict (insert_at p v xs)
  insert_at-Strict zero xs s f d = (below xs s f, d)
    where
      below :
          (ys : List StateVersion)
          → Splits (by_sequence v) 0 ys
          → Fresh v.tx_sequence ys
          → All (λ y. y.tx_sequence < v.tx_sequence) ys
      below [] a b = tt
      below (y ∷ ys) a b = (ground (arith, a.0, b.0), below ys a.1 b.1)
  insert_at-Strict (suc p) [] s f d = absurd s
  insert_at-Strict (suc p) (x ∷ xs) s f d = (
    All-insert_at (λ y. y.tx_sequence < x.tx_sequence) p xs (ground (arith, s.0, f.0)) d.0,
    insert_at-Strict p xs s.1 f.1 d.1,
  )

-- `add_version` keeps a chain sorted from the newest to the oldest.
add_version-Descending :
    (c : VersionChain) (v : StateVersion)
    → Descending c.versions
    → Descending (add_version c v).versions
unfolding add_version
add_version-Descending c v d =
    insert_at-Descending v (position v c.versions) c.versions (position-Splits v c.versions d) d

-- A version with a new sequence number keeps a chain sorted and without a repeated number.
pub add_version-Strict :
    (c : VersionChain) (v : StateVersion)
    → Fresh v.tx_sequence c.versions
    → Strict c.versions
    → Strict (add_version c v).versions
unfolding add_version
add_version-Strict c v f s =
    let sorted = Descending-Strict c.versions s in
    insert_at-Strict v (position v c.versions) c.versions (position-Splits v c.versions sorted) f s
