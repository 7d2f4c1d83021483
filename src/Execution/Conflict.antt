-- ===== src/Execution/Conflict.antt =====
-- execution/conflict.rs: which speculative results stand.
pub mod Judge
pub mod Stale
pub mod Serial
use ryther_core.Base.{
  ℕ, List, [], ◌∷◌, ◌++◌, Option, none, some, Bool, true, false, ◌&&◌, if◌then◌else◌, ltb,
}
use ryther_core.Dict
use ryther_core.Sort.{sort_by_key}
use ryther_core.Types.Uint.{U256, StateKey, key_eq}
use ryther_core.Types.State.{ReadSet, WriteSet, ExecutionResult, written_keys}

pub record ConflictDetector : Type 0 where
  pub committed_writes : List (StateKey × ℕ)

unfoldable pub new_detector : ConflictDetector
new_detector = record { committed_writes = [] }

-- The test in the loop of `has_conflict`.
abbrev pub is_stale : ℕ → ℕ → Option ℕ → Bool
is_stale tx_seq read_version none = false
is_stale tx_seq read_version (some write_seq) = ltb read_version write_seq && ltb write_seq tx_seq

unfoldable pub any_stale : List (StateKey × ℕ) → ℕ → List (StateKey × (Option U256 × ℕ)) → Bool
any_stale writes tx_seq [] = false
any_stale writes tx_seq ((key, (_, read_version)) ∷ reads) =
    if is_stale tx_seq read_version (Dict.get key writes)
    then true
    else any_stale writes tx_seq reads

unfoldable pub has_conflict : ConflictDetector → ℕ → ReadSet → Bool
unfolding any_stale
has_conflict d tx_seq read_set = any_stale d.committed_writes tx_seq read_set.reads

unfoldable pub record_keys : ℕ → List StateKey → List (StateKey × ℕ) → List (StateKey × ℕ)
record_keys tx_seq [] writes = writes
record_keys tx_seq (key ∷ keys) writes = record_keys tx_seq keys (Dict.insert key tx_seq writes)

unfoldable pub record_commit : ConflictDetector → ℕ → WriteSet → ConflictDetector
unfolding record_keys
record_commit d tx_seq write_set = record {
  committed_writes = record_keys tx_seq (written_keys write_set) d.committed_writes;
}

unfoldable pub committed_keys : ConflictDetector → List StateKey
committed_keys d = Dict.keys d.committed_writes

unfoldable pub reset : ConflictDetector → ConflictDetector
reset d = record { committed_writes = [] }

pub record ValidationResult : Type 0 where
  pub committed : List ℕ
  pub aborted : List ℕ

-- The loop of `validate_batch`.
unfoldable pub validate_sorted :
    ConflictDetector → List ExecutionResult → ValidationResult → ValidationResult
validate_sorted d [] v = v
validate_sorted d (r ∷ results) v =
    let abort = validate_sorted d results (record v { aborted = v.aborted ++ r.tx_seq ∷ [] }) in
    let commit =
      validate_sorted (record_commit d r.tx_seq r.write_set) results
        (record v { committed = v.committed ++ r.tx_seq ∷ [] }) in
    if has_conflict d r.tx_seq r.read_set then abort else commit

abbrev pub seq_of : ExecutionResult → ℕ
seq_of r = r.tx_seq

unfoldable pub validate_batch : List ExecutionResult → ValidationResult
unfolding validate_sorted new_detector
validate_batch results =
    validate_sorted new_detector (sort_by_key seq_of results)
      (record { committed = []; aborted = [] })
