-- ===== src/Execution/Mvcc.antt =====
-- execution/mvcc.rs. The maps behind `Arc` and locks are fields of one record, and each method is
-- one atomic step. The Merkle tree is a type with its `put`: storage/jmt.rs.
pub mod Reads
pub mod Own
pub mod Next
pub mod Abort
pub mod Finalize
use ryther_core.Base.{ℕ, ◌≡◌, List, [], ◌∷◌, Option, none, some, if◌then◌else◌, u64_max, length}
use ryther_core.Dict
use ryther_core.Types.Uint.{U256, StateKey, key_eq}
use ryther_core.Types.State.{
  TxStatus, pending, StateVersion, VersionChain, new_chain, add_version, read_for, mark_committed,
  mark_aborted, ReadSet, WriteSet, record_read, record_write, written_keys,
}

pub record MultiVersionState (Tree : Type 0) : Type 0 where
  pub chains : List (StateKey × VersionChain)
  pub base_state : List (StateKey × U256)
  pub jmt : Tree

unfoldable pub insert_all : List (StateKey × U256) → List (StateKey × U256) → List (StateKey × U256)
insert_all [] base_state = base_state
insert_all ((key, value) ∷ rest) base_state = insert_all rest (Dict.insert key value base_state)

module _ {Tree : Type 0} where
  unfoldable pub empty_state : Tree → MultiVersionState Tree
  empty_state jmt = record { chains = []; base_state = []; jmt = jmt }

  -- The tree stays empty.
  unfoldable pub with_base_state : Tree → List (StateKey × U256) → MultiVersionState Tree
  unfolding insert_all
  with_base_state jmt base = record { chains = []; base_state = insert_all base []; jmt = jmt }

-- What a chain, if there is one, holds for a reader.
unfoldable pub chain_read : Option VersionChain → ℕ → Option (Option U256 × ℕ)
chain_read none reader_seq = none
chain_read (some chain) reader_seq = read_for chain reader_seq

abbrev pub or_base : Option U256 → Option (Option U256 × ℕ) → Option U256 × ℕ
or_base base none = (base, 0)
or_base base (some (value, version)) = (value, version)

abbrev pub or_new : Option VersionChain → VersionChain
or_new none = new_chain
or_new (some chain) = chain

module _ {Tree : Type 0} where
  unfoldable pub get_base : MultiVersionState Tree → StateKey → Option U256
  get_base s key = Dict.get key s.base_state

  unfoldable pub read : MultiVersionState Tree → StateKey → ℕ → Option U256 × ℕ
  unfolding chain_read get_base
  read s key reader_seq = or_base (get_base s key) (chain_read (Dict.get key s.chains) reader_seq)

  unfoldable pub read_tracked :
      MultiVersionState Tree → StateKey → ℕ → ReadSet → ReadSet × Option U256
  unfolding read
  read_tracked s key reader_seq read_set =
      let (value, version) = read s key reader_seq in
      (record_read read_set key value version, value)

  unfoldable pub write :
      MultiVersionState Tree → StateKey → ℕ → Option U256 → MultiVersionState Tree
  write s key writer_seq value = record s {
    chains =
        Dict.insert key
          (add_version (or_new (Dict.get key s.chains))
            (record { tx_sequence = writer_seq; value = value; status = pending }))
          s.chains;
  }

  unfoldable pub write_tracked :
      MultiVersionState Tree
      → StateKey
      → ℕ
      → Option U256
      → WriteSet
      → MultiVersionState Tree × WriteSet
  unfolding write
  write_tracked s key writer_seq value write_set =
      (write s key writer_seq value, record_write write_set key value)

  -- `if let Some(mut chain) = self.data.get_mut(key)`
  unfoldable pub update_chain :
      (VersionChain → VersionChain)
      → StateKey
      → Option VersionChain
      → MultiVersionState Tree
      → MultiVersionState Tree
  update_chain f key none s = s
  update_chain f key (some chain) s = record s { chains = Dict.insert key (f chain) s.chains }

  unfoldable pub mark_key_committed : MultiVersionState Tree → StateKey → ℕ → MultiVersionState Tree
  unfolding update_chain
  mark_key_committed s key tx_seq =
      update_chain (λ c. mark_committed c tx_seq) key (Dict.get key s.chains) s

  unfoldable pub mark_key_aborted : MultiVersionState Tree → StateKey → ℕ → MultiVersionState Tree
  unfolding update_chain
  mark_key_aborted s key tx_seq =
      update_chain (λ c. mark_aborted c tx_seq) key (Dict.get key s.chains) s

  unfoldable pub commit_keys : ℕ → List StateKey → MultiVersionState Tree → MultiVersionState Tree
  unfolding mark_key_committed
  commit_keys tx_seq [] s = s
  commit_keys tx_seq (key ∷ keys) s = commit_keys tx_seq keys (mark_key_committed s key tx_seq)

  unfoldable pub abort_keys : ℕ → List StateKey → MultiVersionState Tree → MultiVersionState Tree
  unfolding mark_key_aborted
  abort_keys tx_seq [] s = s
  abort_keys tx_seq (key ∷ keys) s = abort_keys tx_seq keys (mark_key_aborted s key tx_seq)

  unfoldable pub commit_write_set : MultiVersionState Tree → ℕ → WriteSet → MultiVersionState Tree
  unfolding commit_keys
  commit_write_set s tx_seq write_set = commit_keys tx_seq (written_keys write_set) s

  unfoldable pub abort_write_set : MultiVersionState Tree → ℕ → WriteSet → MultiVersionState Tree
  unfolding abort_keys
  abort_write_set s tx_seq write_set = abort_keys tx_seq (written_keys write_set) s

  module _ (put : Tree → StateKey → U256 → Tree) where
    -- The body of the loop in `finalize`.
    unfoldable pub publish :
        StateKey → Option (Option U256 × ℕ) → MultiVersionState Tree → MultiVersionState Tree
    publish key none s = s
    publish key (some (some value, version)) s = record s {
      base_state = Dict.insert key value s.base_state;
      jmt = put s.jmt key value;
    }
    publish key (some (none, version)) s = record s { base_state = Dict.remove key s.base_state }

    unfoldable pub publish_all :
        List (StateKey × VersionChain) → MultiVersionState Tree → MultiVersionState Tree
    unfolding publish
    publish_all [] s = s
    publish_all ((key, chain) ∷ rest) s = publish_all rest (publish key (read_for chain u64_max) s)

    unfoldable pub finalize : MultiVersionState Tree → MultiVersionState Tree
    unfolding publish_all
    finalize s = record (publish_all s.chains s) { chains = [] }

  unfoldable pub mvcc_key_count : MultiVersionState Tree → ℕ
  mvcc_key_count s = length s.chains

  unfoldable pub base_key_count : MultiVersionState Tree → ℕ
  base_key_count s = length s.base_state
