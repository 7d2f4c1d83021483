-- ===== src/Execution/Conflict/Serial.antt =====
-- What a validated batch of execution/conflict.rs guarantees.
use mathlib.Core.List.{Memᴰ, Perm, perm_middle, append-nil}
use mathlib.Core.List.Memᴰ
use mathlib.Core.List.Perm
use ryther_core.Base.{
  ◌<◌, ◌≡◌, refl, ◌⊎◌, ◌∙◌, inl, inr, List, [], ◌∷◌, ◌++◌, map, arith, Bool-cases, All, All-map_imp,
  sym, ap,
}
use ryther_core.Dict
use ryther_core.Dict.{contains_key}
use ryther_core.Sort.{
  sort_by_key, StrictAscending, DistinctKeys, sort_by_key-StrictAscending, sort_by_key-perm,
}
use ryther_core.Sort.Members.{sort_by_key-Memᴰ}
use ryther_core.Types.Uint.{key_eq}
use ryther_core.Types.State.{ExecutionResult}
use ryther_core.Execution.Conflict.{new_detector, validate_batch, seq_of}
use ryther_core.Execution.Conflict.Judge.{latest, stale, judge, validate_sorted-judge}
use ryther_core.Execution.Conflict.Stale.{
  IsSerial, IsBlocked, Falling, Overwrites, clean, blocked, All-Memᴰ,
}

All-judge {κ} :
    (P : ExecutionResult → Type κ) (history results : List ExecutionResult)
    → All P results
    → All P (judge history results).0
unfolding judge
All-judge P history [] a = tt
All-judge P history (r ∷ results) a = elim (Bool-cases (stale history r.tx_seq r.read_set.reads)) [
  | inl e ↦ rw e (All-judge P history results a.1)
  | inr e ↦ rw e (a.0, All-judge P (r ∷ history) results a.1)
]

judge-StrictAscending :
    (history results : List ExecutionResult)
    → StrictAscending seq_of results
    → StrictAscending seq_of (judge history results).0
unfolding judge
judge-StrictAscending history [] a = tt
judge-StrictAscending history (r ∷ results) a =
    elim (Bool-cases (stale history r.tx_seq r.read_set.reads)) [
      | inl e ↦ rw e (judge-StrictAscending history results a.1)
      | inr e ↦ rw e (
        All-judge (λ s. r.tx_seq < s.tx_seq) (r ∷ history) results a.0,
        judge-StrictAscending (r ∷ history) results a.1,
      )
    ]

judge-perm :
    (history results : List ExecutionResult)
    → Perm ((judge history results).0 ++ (judge history results).1) results
unfolding judge
judge-perm history [] = Perm.nil
judge-perm history (r ∷ results) = elim (Bool-cases (stale history r.tx_seq r.read_set.reads)) [
  | inl e ↦
      let j = judge history results in
      rw e (Perm.trans (perm_middle {a = r} j.0 j.1) (Perm.cons r (judge-perm history results)))
  | inr e ↦ rw e (Perm.cons r (judge-perm (r ∷ history) results))
]

-- The next result comes after those committed so far.
abbrev After : List ExecutionResult → List ExecutionResult → Type 0
After history results = All (λ r. All (λ s. s.tx_seq < r.tx_seq) history) results

After-cons :
    (history : List ExecutionResult) (r : ExecutionResult) (results : List ExecutionResult)
    → All (λ t. r.tx_seq < t.tx_seq) results
    → After history results
    → After (r ∷ history) results
After-cons history r [] above a = tt
After-cons history r (t ∷ results) above a =
    ((above.0, a.0), After-cons history r results above.1 a.1)

judge-IsSerial :
    (history results : List ExecutionResult)
    → Falling history
    → After history results
    → StrictAscending seq_of results
    → IsSerial history (judge history results).0
unfolding judge
judge-IsSerial history [] f a s = tt
judge-IsSerial history (r ∷ results) f a s =
    elim (Bool-cases (stale history r.tx_seq r.read_set.reads)) [
      | inl e ↦ rw e (judge-IsSerial history results f a.1 s.1)
      | inr e ↦ rw e (
        clean history r f a.0 e,
        judge-IsSerial (r ∷ history) results (a.0, f) (After-cons history r results s.0 a.1) s.1,
      )
    ]

-- A result is blocked by one that is committed, either before or in the list.
IsBlocked-weaken :
    (xs ys : List ExecutionResult) (r : ExecutionResult)
    → ((s : ExecutionResult) → Memᴰ s xs → Memᴰ s ys)
    → IsBlocked xs r
    → IsBlocked ys r
IsBlocked-weaken xs ys r sub (s, m, o) = (s, sub s m, o)

in_middle :
    (xs ys : List ExecutionResult) (r s : ExecutionResult)
    → Memᴰ s (xs ++ r ∷ ys)
    → Memᴰ s (r ∷ xs ++ ys)
in_middle xs ys r s m = elim (Memᴰ.append_cases xs m) [
  | inl front ↦ Memᴰ.tail (Memᴰ.append_left ys front)
  | inr back ↦ elim (Memᴰ.cases_cons back) [
    | inl eq ↦ Memᴰ.head eq
    | inr old ↦ Memᴰ.tail (Memᴰ.append_right xs old)
  ]
]

judge-IsBlocked :
    (history results : List ExecutionResult)
    → All (IsBlocked ((judge history results).0 ++ history)) (judge history results).1
unfolding judge
judge-IsBlocked history [] = tt
judge-IsBlocked history (r ∷ results) =
    elim (Bool-cases (stale history r.tx_seq r.read_set.reads)) [
      | inl e ↦
          let j = judge history results in
          rw e (
            IsBlocked-weaken history (j.0 ++ history) r (λ s m. Memᴰ.append_right j.0 m)
                (blocked history r e),
            judge-IsBlocked history results,
          )
      | inr e ↦
          let j = judge (r ∷ history) results in
          rw e (
            All-map_imp
              (λ t.
                IsBlocked-weaken (j.0 ++ r ∷ history) (r ∷ j.0 ++ history) t
                  (λ s m. in_middle j.0 history r s m))
              j.1 (judge-IsBlocked (r ∷ history) results))
    ]

After-nil : (results : List ExecutionResult) → After [] results
After-nil [] = tt
After-nil (r ∷ results) = (tt, After-nil results)

judge-Memᴰ :
    (history results : List ExecutionResult) (r : ExecutionResult)
    → Memᴰ r results
    → Memᴰ r (judge history results).0 ⊎ Memᴰ r (judge history results).1
unfolding judge
judge-Memᴰ history [] r m = absurd (Memᴰ.not-nil m)
judge-Memᴰ history (x ∷ results) r m = elim (Bool-cases (stale history x.tx_seq x.read_set.reads)) [
  | inl e ↦ rw e (elim (Memᴰ.cases_cons m) [
    | inl eq ↦ inr (Memᴰ.head eq)
    | inr later ↦ elim (judge-Memᴰ history results r later) [
      | inl c ↦ inl c
      | inr b ↦ inr (Memᴰ.tail b)
    ]
  ])
  | inr e ↦ rw e (elim (Memᴰ.cases_cons m) [
    | inl eq ↦ inl (Memᴰ.head eq)
    | inr later ↦ elim (judge-Memᴰ (x ∷ history) results r later) [
      | inl c ↦ inl (Memᴰ.tail c)
      | inr b ↦ inr b
    ]
  ])
]

-- In a serial list no result overwrites what another one read.
IsSerial-pair :
    (history results : List ExecutionResult) (s r : ExecutionResult)
    → IsSerial history results
    → StrictAscending seq_of results
    → Memᴰ s history ⊎ Memᴰ s results
    → Memᴰ r results
    → ¬ Overwrites s r
IsSerial-pair history [] s r i a ms mr o = Memᴰ.not-nil mr
IsSerial-pair history (x ∷ results) s r i a ms mr o = elim (Memᴰ.cases_cons mr) [
  | inl eq ↦ elim ms [
    | inl old ↦ i.0 s old (rw eq at o)
    | inr new ↦
        let earlier = o.earlier in
        elim (Memᴰ.cases_cons new) [
          | inl same ↦ let equal : s.tx_seq ≡ r.tx_seq = ap seq_of (same ∙ sym eq) in omega arith
          | inr later ↦
              let above = All-Memᴰ (λ t. x.tx_seq < t.tx_seq) results s a.0 later in
              let equal : r.tx_seq ≡ x.tx_seq = ap seq_of eq in omega arith
        ]
  ]
  | inr later ↦
      let from : Memᴰ s (x ∷ history) ⊎ Memᴰ s results = elim ms [
        | inl old ↦ inl (Memᴰ.tail old)
        | inr new ↦ elim (Memᴰ.cases_cons new) [
          | inl same ↦ inl (Memᴰ.head same)
          | inr back ↦ inr back
        ]
      ] in
      IsSerial-pair (x ∷ history) results s r i.1 a.1 from later o
]

-- The split in a form that keeps the members apart.
pub validate_batch-split :
    (results : List ExecutionResult)
    → DistinctKeys seq_of results
    → (committed : List ExecutionResult) × (aborted : List ExecutionResult) × (validate_batch
          results
        ≡ record { committed = map seq_of committed; aborted = map seq_of aborted })
      × ((r : ExecutionResult) → Memᴰ r results → Memᴰ r committed ⊎ Memᴰ r aborted)
      × ((s r : ExecutionResult) → Memᴰ s committed → Memᴰ r committed → ¬ Overwrites s r)
unfolding validate_batch new_detector latest Dict.get
validate_batch-split results distinct =
    let sorted = sort_by_key seq_of results in
    let ascending = sort_by_key-StrictAscending seq_of results distinct in
    let j = judge [] sorted in
    (
      j.0,
      j.1,
      validate_sorted-judge new_detector [] sorted (record { committed = []; aborted = [] })
          (λ key. refl),
      λ r m. judge-Memᴰ [] sorted r (sort_by_key-Memᴰ seq_of r results m),
      λ s r ms mr.
          IsSerial-pair [] j.0 s r (judge-IsSerial [] sorted tt (After-nil sorted) ascending)
            (judge-StrictAscending [] sorted ascending) (inr ms) mr,
    )

-- When no two results have the same sequence number, `validate_batch` splits them into committed
-- and aborted ones, every result once. The committed ones are in ascending order of sequence
-- number, none of them read a version that a committed result before it has overwritten, and each
-- aborted one read a version that some committed result of a lower sequence number has overwritten.
pub validate_batch-IsSerial :
    (results : List ExecutionResult)
    → DistinctKeys seq_of results
    → (committed : List ExecutionResult) × (aborted : List ExecutionResult) × (validate_batch
          results
        ≡ record { committed = map seq_of committed; aborted = map seq_of aborted })
      × Perm (committed ++ aborted) results
      × StrictAscending seq_of committed
      × IsSerial [] committed
      × All (IsBlocked committed) aborted
unfolding validate_batch new_detector latest Dict.get
validate_batch-IsSerial results distinct =
    let sorted = sort_by_key seq_of results in
    let ascending = sort_by_key-StrictAscending seq_of results distinct in
    let j = judge [] sorted in
    (
      j.0,
      j.1,
      validate_sorted-judge new_detector [] sorted (record { committed = []; aborted = [] })
          (λ key. refl),
      Perm.trans (judge-perm [] sorted) (sort_by_key-perm seq_of results),
      judge-StrictAscending [] sorted ascending,
      judge-IsSerial [] sorted tt (After-nil sorted) ascending,
      rw (sym (append-nil j.0)) (judge-IsBlocked [] sorted),
    )
