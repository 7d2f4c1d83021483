-- ===== src/Search.antt =====
-- `slice::binary_search_by` of the standard library, which types/state.rs calls: the bisection that
-- looks at one element of each half and returns the position of a match or of an insertion.
pub mod Correct
use Prim.Native.Nat.{Ordering}
use Prim.Native.Nat.Ordering.{lt, eq, gt}
use ryther_core.Base.{
  ℕ, zero, suc, ◌+◌, ◌-◌, ◌/◌, Bool, true, false, List, Option, none, some, leb, length, get_elem?,
  if◌then◌else◌,
}

-- `Ok(i)` and `Err(i)`.
pub data Found : Type 0 where
  at : ℕ → Found
  missing : ℕ → Found

abbrev pub unwrap_or_else_pos : Found → ℕ
unwrap_or_else_pos (at i) = i
unwrap_or_else_pos (missing i) = i

abbrev pub is_gt : Ordering → Bool
is_gt gt = true
is_gt _ = false

-- The loop `while size > 1`. The fuel is the size at first, which at least one falls each round.
unfoldable pub bisect : (ℕ → Ordering) → ℕ → ℕ → ℕ → ℕ
bisect c zero size base = base
bisect c (suc fuel) size base =
    let rest =
      bisect c fuel (size - size / 2)
        (if is_gt (c (base + size / 2)) then base else base + size / 2) in
    if leb size 1 then base else rest

unfoldable pub conclude : Ordering → ℕ → Found
conclude eq base = at base
conclude lt base = missing (base + 1)
conclude gt base = missing base

module _ {ℓ} {A : Type ℓ} (f : A → Ordering) where
  -- The comparison at an index; the loop stays within the slice.
  abbrev pub compare_at : List A → ℕ → Ordering
  compare_at xs i = elim (get_elem? xs i) [ none ↦ gt | some x ↦ f x ]

  unfoldable pub binary_search_by : List A → Found
  unfolding bisect conclude
  binary_search_by xs =
      let base = bisect (compare_at xs) (length xs) (length xs) 0 in
      if leb (length xs) 0 then missing 0 else conclude (compare_at xs base) base
