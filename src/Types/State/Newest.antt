-- ===== src/Types/State/Newest.antt =====
-- types/state.rs: what the transaction with the next number reads after `add_version`, also where
-- the writer has written before.
use Prim.Native.Nat.{compare, Ordering}
use Prim.Native.Nat.Ordering.{lt, eq, gt}
use ryther_core.Base.{
  ℕ, zero, suc, ◌≤◌, ◌<◌, ◌≡◌, ◌≢◌, refl, inl, inr, false, List, [], ◌∷◌, some, arith, insert_at,
  get_elem?, All, Option-cases, subst, sym,
}
use ryther_core.Search.{compare_at}
use ryther_core.Search.Correct.{binary_search_by-Hits}
use ryther_core.Types.State.{
  StateVersion, VersionChain, is_aborted, by_sequence, add_version, scan, read_for,
}
use ryther_core.Types.State.Chain.{Strict, Fresh, Descending-Strict, Ordered-Descending, position}

-- The versions before a position are newer than `q`.
Clear : ℕ → ℕ → List StateVersion → Type 0
Clear q zero xs = Unit
Clear q (suc p) [] = ⊥
Clear q (suc p) (x ∷ xs) = (q < x.tx_sequence) × Clear q p xs

All-at :
    (q p : ℕ) (xs : List StateVersion) (y : StateVersion)
    → All (λ z. z.tx_sequence < q) xs
    → get_elem? xs p ≡ some y
    → y.tx_sequence < q
All-at q p [] y a e = absurd (cc e)
All-at q zero (x ∷ xs) y a e = let same : x ≡ y = cc e in subst (λ z. z.tx_sequence < q) same a.0
All-at q (suc p) (x ∷ xs) y a e = All-at q p xs y a.1 e

-- In a strict chain the versions before one that is not older than `q` are newer than `q`.
Clear-Strict :
    (q p : ℕ) (xs : List StateVersion) (y : StateVersion)
    → Strict xs
    → get_elem? xs p ≡ some y
    → q ≤ y.tx_sequence
    → Clear q p xs
unfolding Clear
Clear-Strict q zero xs y s e h = tt
Clear-Strict q (suc p) [] y s e h = absurd (cc e)
Clear-Strict q (suc p) (x ∷ xs) y s e h =
    let older = All-at x.tx_sequence p xs y s.0 e in (omega arith, Clear-Strict q p xs y s.1 e h)

-- And so are those up to one that is newer.
Clear-suc :
    (q p : ℕ) (xs : List StateVersion) (y : StateVersion)
    → Strict xs
    → get_elem? xs p ≡ some y
    → q < y.tx_sequence
    → Clear q (suc p) xs
unfolding Clear
Clear-suc q p [] y s e h = absurd (cc e)
Clear-suc q zero (x ∷ xs) y s e h = let same : x ≡ y = cc e in (rw (same) h, tt)
Clear-suc q (suc p) (x ∷ xs) y s e h =
    let older = All-at x.tx_sequence p xs y s.0 e in (omega arith, Clear-suc q p xs y s.1 e h)

scan-insert_at_next :
    (v : StateVersion) (p : ℕ) (xs : List StateVersion)
    → Clear v.tx_sequence p xs
    → is_aborted v.status ≡ false
    → scan (suc v.tx_sequence) (insert_at p v xs) ≡ some (v.value, v.tx_sequence)
unfolding scan Clear
scan-insert_at_next v zero xs c h = ground (arith, h)
scan-insert_at_next v (suc p) [] c h = absurd c
scan-insert_at_next v (suc p) (x ∷ xs) c h = ground (arith, c.0, scan-insert_at_next v p xs c.1 h)

compared :
    (v : StateVersion) (xs : List StateVersion) (p : ℕ) (o : Ordering)
    → compare_at (by_sequence v) xs p ≡ o
    → gt ≢ o
    → (y : StateVersion) × (get_elem? xs p ≡ some y) × (compare v.tx_sequence y.tx_sequence ≡ o)
compared v xs p o e other = elim (Option-cases (get_elem? xs p)) [
  | inl missing ↦ absurd (other (let over : gt ≡ o = rw (missing, compare_at) at e in over))
  | inr (y, found) ↦ (
    y,
    found,
    let here : compare v.tx_sequence y.tx_sequence ≡ o = rw (found, compare_at) at e in here,
  )
]

position-Clear :
    (v : StateVersion) (xs : List StateVersion) → Strict xs → Clear v.tx_sequence (position v xs) xs
unfolding Clear
position-Clear v xs s =
    let q = v.tx_sequence in
    elim (binary_search_by-Hits (by_sequence v) xs
      (Ordered-Descending v xs (Descending-Strict xs s))) [
        | inl first ↦ subst (λ n. Clear q n xs) (sym first) tt
        | inr (inl same) ↦
            let (y, found, e) = compared v xs (position v xs) eq same (λ h. absurd (cc h)) in
            Clear-Strict q (position v xs) xs y s found (ground (arith, e))
        | inr (inr (b, next, less)) ↦
            let (y, found, e) = compared v xs b lt less (λ h. absurd (cc h)) in
            let after : position v xs ≡ suc b = omega (arith, next) in
            subst (λ n. Clear q n xs) (sym after) (Clear-suc q b xs y s found (ground (arith, e)))
      ]

-- What the transaction after the writer reads of a strict chain is what was written last.
pub read_for-add_version_next :
    (c : VersionChain) (v : StateVersion)
    → Strict c.versions
    → is_aborted v.status ≡ false
    → read_for (add_version c v) (suc v.tx_sequence) ≡ some (v.value, v.tx_sequence)
unfolding read_for add_version
read_for-add_version_next c v s h =
    scan-insert_at_next v (position v c.versions) c.versions (position-Clear v c.versions s) h

-- Where no version has a number, its writer and the next transaction read the same.
pub read_for_next :
    (c : VersionChain) (q : ℕ) → Fresh q c.versions → read_for c (suc q) ≡ read_for c q
unfolding read_for scan
read_for_next c q f = scan_next c.versions f
  where
    scan_next : (xs : List StateVersion) → Fresh q xs → scan (suc q) xs ≡ scan q xs
    scan_next [] f = refl
    scan_next (x ∷ xs) f = ground (arith, f.0, scan_next xs f.1)
