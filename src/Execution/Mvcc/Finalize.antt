-- ===== src/Execution/Mvcc/Finalize.antt =====
-- `finalize` moves what the last reader would see into the base state.
use ryther_core.Base.{
  ℕ, ◌<◌, ◌≡◌, refl, List, [], ◌∷◌, Option, none, some, if◌then◌else◌, arith, ◌==◌, u64_max, ap,
  ◌∙◌,
}
use ryther_core.Dict
use ryther_core.Dict.{Distinct}
use ryther_core.Dict.Laws.{get-insert, get-remove}
use ryther_core.Types.Uint.{U256, StateKey, key_eq, key-eq_iff}
use ryther_core.Types.State.{VersionChain, read_for}
use ryther_core.Execution.Mvcc.{
  MultiVersionState, chain_read, or_base, get_base, read, write, publish, publish_all, finalize,
  mvcc_key_count,
}
use ryther_core.Execution.Mvcc.Reads.{write-Distinct, read-write_first}

module _ {Tree : Type 0} (put : Tree → StateKey → U256 → Tree) where
  get-publish :
      (s : MultiVersionState Tree) (k key : StateKey) (o : Option (Option U256 × ℕ))
      → Dict.get key (publish put k o s).base_state ≡ (
          if k == key then (or_base (Dict.get key s.base_state) o).0 else Dict.get key s.base_state)
  unfolding publish
  get-publish s k key none = ground arith
  get-publish s k key (some (some value, version)) =
      ground (arith, get-insert key k value s.base_state)
  get-publish s k key (some (none, version)) = ground (arith, get-remove key k s.base_state)

  get-publish_all :
      (s : MultiVersionState Tree) (m : List (StateKey × VersionChain)) (key : StateKey)
      → Distinct m
      → Dict.get key (publish_all put m s).base_state
        ≡ (or_base (Dict.get key s.base_state) (chain_read (Dict.get key m) u64_max)).0
  unfolding publish_all chain_read Dict.get
  get-publish_all s [] key d = refl
  get-publish_all s ((k, chain) ∷ m) key d = ground (
    arith,
    key-eq_iff k key,
    get-publish s k key (read_for chain u64_max),
    get-publish_all (publish put k (read_for chain u64_max) s) m key d.1,
  )

  get_base-finalize :
      (s : MultiVersionState Tree) (key : StateKey)
      → Distinct s.chains
      → get_base (finalize put s) key ≡ (read s key u64_max).0
  unfolding read finalize get_base
  get_base-finalize s key d = get-publish_all s s.chains key d

  -- If no key has two chains, then after `finalize` no key has a version left, and every reader
  -- reads, as base state, the value that a reader at the largest sequence number read before.
  pub read-finalize :
      (s : MultiVersionState Tree) (key : StateKey) (r : ℕ)
      → Distinct s.chains
      → (read (finalize put s) key r ≡ ((read s key u64_max).0, 0))
        × (mvcc_key_count (finalize put s) ≡ 0)
  unfolding read finalize get_base mvcc_key_count chain_read Dict.get
  read-finalize s key r d = (ap (λ v. (v, 0)) (get-publish_all s s.chains key d), refl)

  -- A write that was never committed is published all the same: if no key has two chains, the key
  -- had no version and the writer's number is below the largest, the pending value is the base
  -- state after `finalize`.
  pub finalize_publishes_pending :
      (s : MultiVersionState Tree) (key : StateKey) (q : ℕ) (value : U256)
      → Distinct s.chains
      → Dict.get key s.chains ≡ none
      → q < u64_max
      → get_base (finalize put (write s key q (some value))) key ≡ some value
  finalize_publishes_pending s key q value d absent h =
      get_base-finalize (write s key q (some value)) key (write-Distinct s key q (some value) d)
      ∙ ap (λ a. a.0) (read-write_first s key q u64_max (some value) absent h)
