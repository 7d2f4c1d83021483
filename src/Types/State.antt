-- ===== src/Types/State.antt =====
-- types/state.rs: the versions of a storage slot, the read and write sets, and execution results.
pub mod Chain
pub mod Reads
pub mod Newest
use Prim.Native.Nat.{compare, Ordering}
use ryther_core.Base.{
  ℕ, ◌+◌, ◌<◌, Bool, true, false, not, List, [], ◌∷◌, Option, none, some, ltb, eqb, length,
  insert_at, if◌then◌else◌,
}
use ryther_core.Dict
use ryther_core.Search.{binary_search_by, unwrap_or_else_pos}
use ryther_core.Types.Uint.{U256, StateKey, key_eq}

pub data TxStatus : Type 0 where
  pending committed aborted : TxStatus

pub record StateVersion : Type 0 where
  pub tx_sequence : ℕ
  pub value : Option U256
  pub status : TxStatus

pub record VersionChain : Type 0 where
  pub versions : List StateVersion

unfoldable pub new_chain : VersionChain
new_chain = record { versions = [] }

-- `|v| version.tx_sequence.cmp(&v.tx_sequence)`
abbrev pub by_sequence : StateVersion → StateVersion → Ordering
by_sequence version v = compare version.tx_sequence v.tx_sequence

unfoldable pub add_version : VersionChain → StateVersion → VersionChain
add_version c version = record {
  versions =
      insert_at (unwrap_or_else_pos (binary_search_by (by_sequence version) c.versions)) version
        c.versions;
}

abbrev pub is_aborted : TxStatus → Bool
is_aborted aborted = true
is_aborted _ = false

-- The loop of `read_for`.
unfoldable pub scan : ℕ → List StateVersion → Option (Option U256 × ℕ)
scan reader_seq [] = none
scan reader_seq (v ∷ versions) =
    if ltb v.tx_sequence reader_seq
    then (if is_aborted v.status then scan reader_seq versions else some (v.value, v.tx_sequence))
    else scan reader_seq versions

unfoldable pub read_for : VersionChain → ℕ → Option (Option U256 × ℕ)
unfolding scan
read_for c reader_seq = scan reader_seq c.versions

-- The loops of `mark_committed` and `mark_aborted`, which stop at the first version that fits.
unfoldable pub mark : TxStatus → ℕ → List StateVersion → List StateVersion
mark status tx_seq [] = []
mark status tx_seq (v ∷ versions) =
    if eqb v.tx_sequence tx_seq
    then record v { status = status } ∷ versions
    else v ∷ mark status tx_seq versions

unfoldable pub mark_committed : VersionChain → ℕ → VersionChain
unfolding mark
mark_committed c tx_seq = record { versions = mark committed tx_seq c.versions }

unfoldable pub mark_aborted : VersionChain → ℕ → VersionChain
unfolding mark
mark_aborted c tx_seq = record { versions = mark aborted tx_seq c.versions }

unfoldable pub retain_live : List StateVersion → List StateVersion
retain_live [] = []
retain_live (v ∷ versions) =
    if is_aborted v.status then retain_live versions else v ∷ retain_live versions

unfoldable pub gc_aborted : VersionChain → VersionChain
unfolding retain_live
gc_aborted c = record { versions = retain_live c.versions }

unfoldable pub chain_len : VersionChain → ℕ
chain_len c = length c.versions

-- Key ↦ the value read and the version that it came from.
pub record ReadSet : Type 0 where
  pub reads : List (StateKey × (Option U256 × ℕ))

unfoldable pub new_read_set : ReadSet
new_read_set = record { reads = [] }

unfoldable pub record_read : ReadSet → StateKey → Option U256 → ℕ → ReadSet
record_read r key value version = record { reads = Dict.insert key (value, version) r.reads }

pub record WriteSet : Type 0 where
  pub writes : List (StateKey × Option U256)

unfoldable pub new_write_set : WriteSet
new_write_set = record { writes = [] }

unfoldable pub record_write : WriteSet → StateKey → Option U256 → WriteSet
record_write w key value = record { writes = Dict.insert key value w.writes }

abbrev pub written_keys : WriteSet → List StateKey
written_keys w = Dict.keys w.writes

unfoldable pub insert_writes :
    List (StateKey × Option U256) → List (StateKey × Option U256) → List (StateKey × Option U256)
insert_writes [] writes = writes
insert_writes ((key, value) ∷ other) writes = insert_writes other (Dict.insert key value writes)

unfoldable pub merge : WriteSet → WriteSet → WriteSet
unfolding insert_writes
merge w other = record { writes = insert_writes other.writes w.writes }

pub data ExecutionStatus : Type 0 where
  success revert failure : ExecutionStatus

pub record Log : Type 0 where
  pub address : ℕ
  pub topics : List ℕ
  pub payload : List ℕ

pub record ExecutionResult : Type 0 where
  pub tx_seq : ℕ
  pub status : ExecutionStatus
  pub read_set : ReadSet
  pub write_set : WriteSet
  pub gas_used : ℕ
  pub logs : List Log
  pub output : List ℕ
