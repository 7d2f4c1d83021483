-- ===== src/Execution/Conflict/Judge.antt =====
-- The decisions of `validate_batch` in terms of the results committed so far, newest first, in
-- place of the detector's map.
use mathlib.Core.List.{append-nil, append_assoc}
use ryther_core.Base.{
  ℕ, ◌≡◌, refl, List, [], ◌∷◌, ◌++◌, map, Option, none, some, Bool, true, false, if◌then◌else◌,
  arith, Bool-cases, inl, inr, ap, ◌∙◌,
}
use ryther_core.Dict
use ryther_core.Dict.{contains, contains_key, keys}
use ryther_core.Dict.Laws.{get-insert, contains-keys}
use ryther_core.Types.Uint.{U256, StateKey, key_eq}
use ryther_core.Types.State.{ExecutionResult, written_keys}
use ryther_core.Execution.Conflict.{
  ConflictDetector, ValidationResult, is_stale, any_stale, has_conflict, record_keys, record_commit,
  validate_sorted, seq_of,
}

-- The newest committed writer of a key.
unfoldable pub latest : StateKey → List ExecutionResult → Option ℕ
latest key [] = none
latest key (r ∷ history) =
    if contains_key key r.write_set.writes then some r.tx_seq else latest key history

unfoldable pub stale : List ExecutionResult → ℕ → List (StateKey × (Option U256 × ℕ)) → Bool
stale history tx_seq [] = false
stale history tx_seq ((key, (_, read_version)) ∷ reads) =
    if is_stale tx_seq read_version (latest key history) then true else stale history tx_seq reads

-- The committed results and the aborted ones, in order.
unfoldable pub judge :
    List ExecutionResult → List ExecutionResult → List ExecutionResult × List ExecutionResult
judge history [] = ([], [])
judge history (r ∷ results) =
    let abort = judge history results in
    let commit = judge (r ∷ history) results in
    if stale history r.tx_seq r.read_set.reads
    then (abort.0, r ∷ abort.1)
    else (r ∷ commit.0, commit.1)

-- The detector's map holds the newest committed writer of each key.
abbrev pub Agrees : ConflictDetector → List ExecutionResult → Type 0
Agrees d history = (key : StateKey) → Dict.get key d.committed_writes ≡ latest key history

get-record_keys :
    (tx_seq : ℕ) (ks : List StateKey) (writes : List (StateKey × ℕ)) (key : StateKey)
    → Dict.get key (record_keys tx_seq ks writes)
      ≡ (if contains key ks then some tx_seq else Dict.get key writes)
unfolding record_keys contains
get-record_keys tx_seq [] writes key = refl
get-record_keys tx_seq (k ∷ ks) writes key = ground (
  arith,
  get-record_keys tx_seq ks (Dict.insert k tx_seq writes) key,
  get-insert key k tx_seq writes,
)

record_commit-Agrees :
    (d : ConflictDetector) (history : List ExecutionResult) (r : ExecutionResult)
    → Agrees d history
    → Agrees (record_commit d r.tx_seq r.write_set) (r ∷ history)
unfolding record_commit latest
record_commit-Agrees d history r a key = ground (
  arith,
  get-record_keys r.tx_seq (written_keys r.write_set) d.committed_writes key,
  contains-keys key r.write_set.writes,
  a key,
)

any_stale-stale :
    (d : ConflictDetector) (history : List ExecutionResult) (tx_seq : ℕ)
    (reads : List (StateKey × (Option U256 × ℕ)))
    → Agrees d history
    → any_stale d.committed_writes tx_seq reads ≡ stale history tx_seq reads
unfolding any_stale stale
any_stale-stale d history tx_seq [] a = refl
any_stale-stale d history tx_seq ((key, (value, version)) ∷ reads) a =
    rw (a key, any_stale-stale d history tx_seq reads a)

-- The sequence numbers that the loop appends.
abbrev pub appended :
    ValidationResult → List ExecutionResult × List ExecutionResult → ValidationResult
appended v (committed, aborted) = record {
  committed = v.committed ++ map seq_of committed;
  aborted = v.aborted ++ map seq_of aborted;
}

pub validate_sorted-judge :
    (d : ConflictDetector) (history results : List ExecutionResult) (v : ValidationResult)
    → Agrees d history
    → validate_sorted d results v ≡ appended v (judge history results)
unfolding validate_sorted judge has_conflict
validate_sorted-judge d history [] v a =
    ground (arith, append-nil v.committed, append-nil v.aborted)
validate_sorted-judge d history (r ∷ results) v a =
    let aborts : ValidationResult = record v { aborted = v.aborted ++ r.tx_seq ∷ [] } in
    let commits : ValidationResult = record v { committed = v.committed ++ r.tx_seq ∷ [] } in
    let d' = record_commit d r.tx_seq r.write_set in
    let abort = judge history results in
    let commit = judge (r ∷ history) results in
    rw (any_stale-stale d history r.tx_seq r.read_set.reads a)
      (elim (Bool-cases (stale history r.tx_seq r.read_set.reads)) [
        | inl conflict ↦ rw conflict (
            validate_sorted-judge d history results aborts a
            ∙ ap (λ l. record { committed = v.committed ++ map seq_of abort.0; aborted = l })
                (append_assoc v.aborted (r.tx_seq ∷ []) (map seq_of abort.1)))
        | inr clean ↦ rw clean (
            validate_sorted-judge d' (r ∷ history) results commits
              (record_commit-Agrees d history r a)
            ∙ ap (λ l. record { committed = l; aborted = v.aborted ++ map seq_of commit.1 })
                (append_assoc v.committed (r.tx_seq ∷ []) (map seq_of commit.0)))
      ])
