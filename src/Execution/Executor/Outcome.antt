-- ===== src/Execution/Executor/Outcome.antt =====
-- What execution/executor.rs returns.
use mathlib.Core.List.{Memᴰ}
use mathlib.Core.List.Memᴰ
use ryther_core.Base.{
  ℕ, zero, suc, ◌≡◌, ◌≢◌, refl, inl, inr, true, false, none, List, [], ◌∷◌, map, All, eqb, eqb_iff,
  nat_eq, arith, Bool-cases, ap, sym,
}
use ryther_core.Dict
use ryther_core.Dict.{contains, Distinct, values}
use ryther_core.Dict.Laws.{insert-Distinct, remove-Distinct}
use ryther_core.Sort.{sort_by_key, StrictAscending, DistinctKeys, sort_by_key-StrictAscending}
use ryther_core.Sort.Members.{Memᴰ-sort_by_key}
use ryther_core.Types.State.{ExecutionResult}
use ryther_core.Types.Transaction.{DecryptedTransaction}
use ryther_core.Types.Event.{identity}
use ryther_core.Execution.Mvcc.{MultiVersionState}
use ryther_core.Execution.Conflict.{validate_batch, seq_of}
use ryther_core.Execution.Conflict.Serial.{validate_batch-split}
use ryther_core.Execution.Conflict.Stale.{Overwrites}
use ryther_core.Execution.Executor.{
  ExecutorConfig, Batch, by_number, store_results, commit_all, abort_one, abort_all,
  execute_parallel, attempt, attempts, execute_batch,
}

-- Each result stands under its own sequence number.
abbrev IsKeyed : List (ℕ × ExecutionResult) → Type 0
IsKeyed = All (λ e. e.1.tx_seq ≡ e.0)

insert-IsKeyed :
    (r : ExecutionResult) (m : List (ℕ × ExecutionResult))
    → IsKeyed m
    → IsKeyed (Dict.insert r.tx_seq r m)
unfolding Dict.insert
insert-IsKeyed r [] k = (refl, tt)
insert-IsKeyed r ((j, s) ∷ m) k = elim (Bool-cases (eqb j r.tx_seq)) [
  | inl e ↦ rw e (refl, k.1)
  | inr e ↦ rw e (k.0, insert-IsKeyed r m k.1)
]

store_results-IsKeyed :
    (rs : List ExecutionResult) (m : List (ℕ × ExecutionResult))
    → IsKeyed m
    → Distinct m
    → IsKeyed (store_results rs m) × Distinct (store_results rs m)
unfolding store_results
store_results-IsKeyed [] m k d = (k, d)
store_results-IsKeyed (r ∷ rs) m k d =
    store_results-IsKeyed rs (Dict.insert r.tx_seq r m) (insert-IsKeyed r m k)
      (insert-Distinct r.tx_seq r m d)

values-absent :
    (j : ℕ) (m : List (ℕ × ExecutionResult))
    → Dict.get j m ≡ none
    → IsKeyed m
    → All (λ r. j ≢ r.tx_seq) (values m)
unfolding Dict.get
values-absent j [] h k = tt
values-absent j ((i, s) ∷ m) h k =
    (λ same. ground (arith, h, same, k.0, eqb_iff i j), values-absent j m (ground (arith, h)) k.1)

values-DistinctKeys :
    (m : List (ℕ × ExecutionResult)) → IsKeyed m → Distinct m → DistinctKeys seq_of (values m)
values-DistinctKeys [] k d = tt
values-DistinctKeys ((j, r) ∷ m) k d =
    (rw k.0 (values-absent j m d.0 k.1), values-DistinctKeys m k.1 d.1)

remove-IsKeyed : (j : ℕ) (m : List (ℕ × ExecutionResult)) → IsKeyed m → IsKeyed (Dict.remove j m)
unfolding Dict.remove
remove-IsKeyed j [] k = tt
remove-IsKeyed j ((i, r) ∷ m) k = elim (Bool-cases (eqb i j)) [
  | inl e ↦ rw e (remove-IsKeyed j m k.1)
  | inr e ↦ rw e (k.0, remove-IsKeyed j m k.1)
]

Memᴰ-remove :
    (j : ℕ) (m : List (ℕ × ExecutionResult)) (r : ExecutionResult)
    → IsKeyed m
    → Memᴰ r (values (Dict.remove j m))
    → Memᴰ r (values m) × (eqb j r.tx_seq ≡ false)
unfolding Dict.remove
Memᴰ-remove j [] r k h = absurd (Memᴰ.not-nil h)
Memᴰ-remove j ((i, s) ∷ m) r k h = elim (Bool-cases (eqb i j)) [
  | inl e ↦ let found = Memᴰ-remove j m r k.1 (rw e at h) in (Memᴰ.tail found.0, found.1)
  | inr e ↦
      let h' : Memᴰ r (s ∷ values (Dict.remove j m)) = rw e at h in
      elim (Memᴰ.cases_cons h') [
        | inl eq ↦
            let number : r.tx_seq ≡ i = rw eq k.0 in (Memᴰ.head eq, ground (arith, e, number))
        | inr later ↦ let found = Memᴰ-remove j m r k.1 later in (Memᴰ.tail found.0, found.1)
      ]
]

module _ {Tree : Type 0} where
  -- What is left after the aborted numbers are taken out.
  abort_all-kept :
      (seqs : List ℕ) (m : List (ℕ × ExecutionResult)) (state : MultiVersionState Tree)
      → IsKeyed m
      → Distinct m
      → IsKeyed (abort_all seqs m state).1
        × Distinct (abort_all seqs m state).1
        × ((r : ExecutionResult)
            → Memᴰ r (values (abort_all seqs m state).1)
            → Memᴰ r (values m) × (contains r.tx_seq seqs ≡ false))
  unfolding abort_all contains
  abort_all-kept [] m state k d = (k, d, λ r h. (h, refl))
  abort_all-kept (seq ∷ seqs) m state k d =
      let state' = abort_one seq (Dict.get seq m) state in
      let (k', d', kept) =
        abort_all-kept seqs (Dict.remove seq m) state' (remove-IsKeyed seq m k)
          (remove-Distinct seq m d) in
      (
        k',
        d',
        λ r h.
            let (there, left) = kept r h in
            let (before, other) = Memᴰ-remove seq m r k there in
            (before, ground (arith, left, other)),
      )

contains-map :
    (r : ExecutionResult) (rs : List ExecutionResult)
    → Memᴰ r rs
    → contains r.tx_seq (map seq_of rs) ≡ true
unfolding contains
contains-map r [] m = absurd (Memᴰ.not-nil m)
contains-map r (s ∷ rs) m = elim (Memᴰ.cases_cons m) [
  | inl eq ↦ rw eq (ground (arith, eqb_iff s.tx_seq s.tx_seq))
  | inr later ↦ ground (arith, contains-map r rs later)
]

-- No result of the list overwrites what another one of it read.
abbrev pub IsConsistent : List ExecutionResult → Type 0
IsConsistent rs = (s r : ExecutionResult) → Memᴰ s rs → Memᴰ r rs → ¬ Overwrites s r

record Inv (m : List (ℕ × ExecutionResult)) : Type 0 where
  keyed : IsKeyed m
  distinct : Distinct m
  consistent : IsConsistent (values m)

module _ {Tree Block : Type 0}
    (vm : DecryptedTransaction
      → MultiVersionState Tree
      → Block
      → MultiVersionState Tree × ExecutionResult)
    (block : Block) where
  attempt-Inv :
      (tx_map : List (ℕ × DecryptedTransaction)) (b : Batch Tree)
      → Inv b.results
      → Inv (attempt vm block tx_map b).results
  unfolding attempt
  attempt-Inv tx_map b i =
      let ran = execute_parallel vm block tx_map b.pending b.state in
      let results = store_results ran.1 b.results in
      let stored = store_results-IsKeyed ran.1 b.results i.keyed i.distinct in
      let (committed, aborted, split, either, clean) =
        validate_batch-split (values results) (values-DistinctKeys results stored.0 stored.1) in
      let validation = validate_batch (values results) in
      let (k, d, kept) =
        abort_all-kept validation.aborted results (commit_all validation.committed results ran.0)
          stored.0 stored.1 in
      let numbers : validation.aborted ≡ map seq_of aborted = ap (λ v. v.aborted) split in
      let stays : (r : ExecutionResult)
          → Memᴰ r (
              values
                (abort_all validation.aborted results
                  (commit_all validation.committed results ran.0)).1)
          → Memᴰ r committed =
        λ r m. elim (either r (kept r m).0) [
          | inl c ↦ c
          | inr a ↦
              let out : contains r.tx_seq (map seq_of aborted) ≡ false =
                rw (sym numbers) (kept r m).1 in
              let held = contains-map r aborted a in absurd (cc (out, held))
        ] in
      record {
        keyed = k;
        distinct = d;
        consistent = λ s r ms mr. clean s r (stays s ms) (stays r mr);
      }

  attempts-Inv :
      (tx_map : List (ℕ × DecryptedTransaction)) (left : ℕ) (b : Batch Tree)
      → Inv b.results
      → Inv (attempts vm block tx_map left b).results
  unfolding attempts
  attempts-Inv tx_map zero b i = i
  attempts-Inv tx_map (suc left) b i =
      ground
        (arith, i, attempts-Inv tx_map left (attempt vm block tx_map b) (attempt-Inv tx_map b i))

  -- Whatever the virtual machine does, the results that `execute_batch` returns are in strictly
  -- ascending order of sequence number, and none of them read a version that another returned
  -- result of a lower sequence number has overwritten.
  pub execute_batch-IsConsistent :
      (config : ExecutorConfig) (state : MultiVersionState Tree) (txs : List DecryptedTransaction)
      → let returned = (execute_batch vm config state txs block).1 in
        StrictAscending seq_of returned × IsConsistent returned
  unfolding execute_batch
  execute_batch-IsConsistent config state [] = (tt, λ s r ms mr o. Memᴰ.not-nil ms)
  execute_batch-IsConsistent config state (tx ∷ txs) =
      let tx_map = by_number (tx ∷ txs) [] in
      let pending = sort_by_key identity (Dict.keys tx_map) in
      let first : Batch Tree = record { state = state; results = []; pending = pending } in
      let b = attempts vm block tx_map (suc config.max_retries) first in
      let i =
        attempts-Inv tx_map (suc config.max_retries) first
          (record { keyed = tt; distinct = tt; consistent = λ s r ms mr o. Memᴰ.not-nil ms }) in
      (
        sort_by_key-StrictAscending seq_of (values b.results)
            (values-DistinctKeys b.results i.keyed i.distinct),
        λ s r ms mr.
            i.consistent s r (Memᴰ-sort_by_key seq_of s (values b.results) ms)
              (Memᴰ-sort_by_key seq_of r (values b.results) mr),
      )
