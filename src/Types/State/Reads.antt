-- ===== src/Types/State/Reads.antt =====
-- What reads of a version chain see after `add_version` and after marking.
use mathlib.Core.List.{Memᴰ}
use Prim.Native.Nat.{compare, Ordering}
use ryther_core.Base.{
  ℕ, zero, suc, ◌≤◌, ◌<◌, ◌≡◌, refl, ◌⊎◌, inl, inr, Bool, true, false, not, ◌&&◌, List, [], ◌∷◌,
  Option, none, some, arith, All, All-map_imp, Bool-cases, insert_at, ltb, if◌then◌else◌, ◌∙◌, sym,
  subst,
}
use ryther_core.Search.Correct.{Splits}
use ryther_core.Types.Uint.{U256}
use ryther_core.Types.State.{
  StateVersion, VersionChain, TxStatus, aborted, is_aborted, by_sequence, add_version, scan,
  read_for, mark, mark_aborted, mark_committed, committed,
}
use ryther_core.Types.State.Chain.{
  Descending, Strict, Fresh, Descending-Strict, position, position-Splits, insert_at-Descending,
}

-- What a read gives once a version is there beside those that gave `before`.
abbrev pub is_visible : ℕ → StateVersion → Bool
is_visible r v = ltb v.tx_sequence r && not (is_aborted v.status)

abbrev pub prefer : ℕ → StateVersion → Option (Option U256 × ℕ) → Option (Option U256 × ℕ)
prefer r v none = if is_visible r v then some (v.value, v.tx_sequence) else none
prefer r v (some (value, q)) =
    if is_visible r v && ltb q v.tx_sequence then some (v.value, v.tx_sequence) else some (value, q)

scan-lt :
    (r n : ℕ) (xs : List StateVersion) (value : Option U256) (q : ℕ)
    → All (λ y. y.tx_sequence < n) xs
    → scan r xs ≡ some (value, q)
    → q < n
unfolding scan
scan-lt r n [] value q a e = absurd (ground arith)
scan-lt r n (x ∷ xs) value q a e = ground (arith, scan-lt r n xs value q a.1)

-- All that `scan` can say of versions below a number.
scan-cases :
    (r n : ℕ) (xs : List StateVersion)
    → All (λ y. y.tx_sequence < n) xs
    → (scan r xs ≡ none)
      ⊎ ((value : Option U256) × (q : ℕ) × (scan r xs ≡ some (value, q)) × (q < n))
scan-cases r n xs a = split (scan r xs) refl
  where
    split :
        (o : Option (Option U256 × ℕ))
        → scan r xs ≡ o
        → (scan r xs ≡ none)
          ⊎ ((value : Option U256) × (q : ℕ) × (scan r xs ≡ some (value, q)) × (q < n))
    split none e = inl e
    split (some (value, q)) e = inr (value, q, e, scan-lt r n xs value q a e)

All-below :
    (v : StateVersion) (ys : List StateVersion)
    → Splits (by_sequence v) 0 ys
    → Fresh v.tx_sequence ys
    → All (λ y. y.tx_sequence < v.tx_sequence) ys
All-below v [] a b = tt
All-below v (y ∷ ys) a b = (ground (arith, a.0, b.0), All-below v ys a.1 b.1)

scan-insert_at :
    (r : ℕ) (v : StateVersion) (p : ℕ) (xs : List StateVersion)
    → Splits (by_sequence v) p xs
    → Fresh v.tx_sequence xs
    → scan r (insert_at p v xs) ≡ prefer r v (scan r xs)
unfolding scan
scan-insert_at r v zero xs s f = ground (arith, scan-cases r v.tx_sequence xs (All-below v xs s f))
scan-insert_at r v (suc p) [] s f = absurd s
scan-insert_at r v (suc p) (x ∷ xs) s f = ground (arith, s.0, f.0, scan-insert_at r v p xs s.1 f.1)

-- A read from a sorted chain to which a version with a new sequence number was added gives that
-- version, if the reader comes after it, it is not aborted, and the earlier answer is older; and
-- the earlier answer otherwise.
pub read_for-add_version :
    (c : VersionChain) (v : StateVersion) (r : ℕ)
    → Descending c.versions
    → Fresh v.tx_sequence c.versions
    → read_for (add_version c v) r ≡ prefer r v (read_for c r)
unfolding read_for add_version
read_for-add_version c v r d f =
    scan-insert_at r v (position v c.versions) c.versions (position-Splits v c.versions d) f

module _ (v w : StateVersion) (same : w.tx_sequence ≡ v.tx_sequence) (r : ℕ) where
  duplicate :
      (p p' : ℕ) (xs : List StateVersion)
      → Splits (by_sequence v) p xs
      → Fresh v.tx_sequence xs
      → Splits (by_sequence w) p' (insert_at p v xs)
      → (scan r (mark aborted v.tx_sequence (insert_at p' w (insert_at p v xs)))
          ≡ scan r (insert_at p v xs))
        ⊎ (scan r (mark aborted v.tx_sequence (insert_at p' w (insert_at p v xs)))
            ≡ scan r (insert_at p w xs))
  unfolding scan mark
  duplicate zero zero xs s f s' = inl (ground (arith, same))
  duplicate zero (suc zero) xs s f s' = inr (ground (arith, same))
  duplicate zero (suc (suc p')) [] s f s' = absurd s'.1
  duplicate zero (suc (suc p')) (x ∷ xs) s f s' = absurd (ground (arith, s'.1.0, s.0, f.0, same))
  duplicate (suc p) p' [] s f s' = absurd s
  duplicate (suc p) zero (x ∷ xs) s f s' = absurd (ground (arith, s'.0, s.0, f.0, same))
  duplicate (suc p) (suc p') (x ∷ xs) s f s' = elim (duplicate p p' xs s.1 f.1 s'.1) [
    | inl e ↦ inl (ground (arith, e, s.0, f.0))
    | inr e ↦ inr (ground (arith, e, s.0, f.0))
  ]

-- When a transaction writes one slot twice, under its one sequence number, on a sorted chain that
-- repeats no number and does not have this one, and is then aborted, one of the two writes is
-- still read as if it had never been aborted.
pub aborted_write_survives :
    (c : VersionChain) (v w : StateVersion) (r : ℕ)
    → w.tx_sequence ≡ v.tx_sequence
    → Strict c.versions
    → Fresh v.tx_sequence c.versions
    → let c' = mark_aborted (add_version (add_version c v) w) v.tx_sequence in
      (read_for c' r ≡ prefer r v (read_for c r)) ⊎ (read_for c' r ≡ prefer r w (read_for c r))
unfolding read_for add_version mark_aborted
aborted_write_survives c v w r same st f =
    let xs = c.versions in
    let d = Descending-Strict xs st in
    let p = position v xs in
    let s = position-Splits v xs d in
    let d' = insert_at-Descending v p xs s d in
    let s' = position-Splits w (insert_at p v xs) d' in
    elim (duplicate v w same r p (position w (insert_at p v xs)) xs s f s') [
      | inl e ↦ inl (e ∙ scan-insert_at r v p xs s f)
      | inr e ↦ inr (
          e
          ∙ scan-insert_at r w p xs (subst (λ q. Splits (q-order q) p xs) (sym same) s)
              (subst (λ q. Fresh q xs) (sym same) f))
    ]
  where
    q-order : ℕ → StateVersion → Ordering
    q-order q y = compare q y.tx_sequence

mark-insert_at :
    (status : TxStatus) (v : StateVersion) (p : ℕ) (xs : List StateVersion)
    → Splits (by_sequence v) p xs
    → Fresh v.tx_sequence xs
    → mark status v.tx_sequence (insert_at p v xs) ≡ insert_at p (record v { status = status }) xs
unfolding mark
mark-insert_at status v zero xs s f = ground arith
mark-insert_at status v (suc p) [] s f = absurd s
mark-insert_at status v (suc p) (x ∷ xs) s f =
    ground (arith, f.0, mark-insert_at status v p xs s.1 f.1)

read_for-mark :
    (status : TxStatus) (c : VersionChain) (v : StateVersion) (r : ℕ)
    → Descending c.versions
    → Fresh v.tx_sequence c.versions
    → read_for (record { versions = mark status v.tx_sequence (add_version c v).versions }) r
      ≡ prefer r (record v { status = status }) (read_for c r)
unfolding read_for add_version
read_for-mark status c v r d f =
    let s = position-Splits v c.versions d in
    rw (mark-insert_at status v (position v c.versions) c.versions s f)
      (scan-insert_at r (record v { status = status }) (position v c.versions) c.versions s f)

prefer_aborted :
    (r : ℕ) (v : StateVersion) (o : Option (Option U256 × ℕ))
    → prefer r (record v { status = aborted }) o ≡ o
prefer_aborted r v none = ground arith
prefer_aborted r v (some (value, q)) = ground arith

-- In a sorted chain, a version whose sequence number no other has is read, once committed, as a
-- committed version by every later reader that has no newer one; once aborted, every read is as
-- before it was added.
pub read_for-marked :
    (c : VersionChain) (v : StateVersion) (r : ℕ)
    → Descending c.versions
    → Fresh v.tx_sequence c.versions
    → (read_for (mark_committed (add_version c v) v.tx_sequence) r
        ≡ prefer r (record v { status = committed }) (read_for c r))
      × (read_for (mark_aborted (add_version c v) v.tx_sequence) r ≡ read_for c r)
unfolding mark_committed mark_aborted
read_for-marked c v r d f = (
  read_for-mark committed c v r d f,
  read_for-mark aborted c v r d f ∙ prefer_aborted r v (read_for c r),
)

-- The versions that a reader may see.
abbrev pub IsHidden : ℕ → StateVersion → Type 0
IsHidden r v = is_visible r v ≡ false

-- What a read should give: nothing if every version is hidden, and else a version that is not
-- hidden and at least as new as all the others that are not.
abbrev pub IsLatest : ℕ → List StateVersion → Option (Option U256 × ℕ) → Type 0
IsLatest r xs none = All (IsHidden r) xs
IsLatest r xs (some (value, q)) =
    (v : StateVersion) × Memᴰ v xs
    × (is_visible r v ≡ true)
    × (v.value ≡ value)
    × (v.tx_sequence ≡ q)
    × All (λ w. IsHidden r w ⊎ (w.tx_sequence ≤ q)) xs

scan_visible :
    (r : ℕ) (x : StateVersion) (xs : List StateVersion)
    → is_visible r x ≡ true
    → scan r (x ∷ xs) ≡ some (x.value, x.tx_sequence)
unfolding scan
scan_visible r x xs h = ground arith

scan_hidden :
    (r : ℕ) (x : StateVersion) (xs : List StateVersion)
    → is_visible r x ≡ false
    → scan r (x ∷ xs) ≡ scan r xs
unfolding scan
scan_hidden r x xs h = ground arith

IsLatest-cons :
    (r : ℕ) (x : StateVersion) (xs : List StateVersion) (o : Option (Option U256 × ℕ))
    → IsHidden r x
    → IsLatest r xs o
    → IsLatest r (x ∷ xs) o
IsLatest-cons r x xs none h l = (h, l)
IsLatest-cons r x xs (some (value, q)) h (v, m, seen, e, e', rest) =
    (v, Memᴰ.tail m, seen, e, e', (inl h, rest))

scan-IsLatest : (r : ℕ) (xs : List StateVersion) → Descending xs → IsLatest r xs (scan r xs)
unfolding scan
scan-IsLatest r [] d = tt
scan-IsLatest r (x ∷ xs) d = elim (Bool-cases (is_visible r x)) [
  | inl seen ↦
      rw (scan_visible r x xs seen) (
        x,
        Memᴰ.head refl,
        seen,
        refl,
        refl,
        (inr (omega arith), All-map_imp (λ y h. inr h) xs d.0),
      )
  | inr hidden ↦
      rw (scan_hidden r x xs hidden)
        (IsLatest-cons r x xs (scan r xs) hidden (scan-IsLatest r xs d.1))
]

-- A read from a sorted chain gives the newest version that is older than the reader and not
-- aborted, and nothing if there is none.
pub read_for-IsLatest :
    (c : VersionChain) (r : ℕ) → Descending c.versions → IsLatest r c.versions (read_for c r)
unfolding read_for
read_for-IsLatest c r d = scan-IsLatest r c.versions d
