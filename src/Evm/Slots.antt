-- ===== src/Evm/Slots.antt =====
-- evm/vm.rs: the slots of an account. The state, the read set and the write set, which the code passes
-- by reference, are one record that each step returns.
use ryther_core.Base.{ℕ, Option, none, some, nat_eq}
use ryther_core.Execution.Mvcc.{MultiVersionState, read_tracked, write_tracked}
use ryther_core.Types.State.{ReadSet, WriteSet}
use ryther_core.Types.Uint.{U256, StateKey, zero_u256, from_u64, u256_eq}

abbrev pub slot_balance : ℕ
slot_balance = 0

abbrev pub slot_nonce : ℕ
slot_nonce = 1

abbrev pub slot_code_hash : ℕ
slot_code_hash = 2

abbrev pub balance_key : ℕ → StateKey
balance_key address = record { address = address; slot = from_u64 slot_balance }

abbrev pub nonce_key : ℕ → StateKey
nonce_key address = record { address = address; slot = from_u64 slot_nonce }

abbrev pub code_hash_key : ℕ → StateKey
code_hash_key address = record { address = address; slot = from_u64 slot_code_hash }

abbrev pub or_zero_u256 : Option U256 → U256
or_zero_u256 none = zero_u256
or_zero_u256 (some value) = value

abbrev pub limb0_or_zero : Option U256 → ℕ
limb0_or_zero none = 0
limb0_or_zero (some value) = value.l0

-- What a step of the machine may change.
pub record Effects (Tree : Type 0) : Type 0 where
  pub state : MultiVersionState Tree
  pub read_set : ReadSet
  pub write_set : WriteSet

module _ {Tree : Type 0} where
  unfoldable pub read_slot : StateKey → ℕ → Effects Tree → Effects Tree × Option U256
  read_slot key seq e =
      let (read_set, value) = read_tracked e.state key seq e.read_set in
      (record e { read_set = read_set }, value)

  unfoldable pub write_slot : StateKey → ℕ → U256 → Effects Tree → Effects Tree
  write_slot key seq value e =
      let (state, write_set) = write_tracked e.state key seq (some value) e.write_set in
      record e { state = state; write_set = write_set }

  unfoldable pub read_balance : ℕ → ℕ → Effects Tree → Effects Tree × U256
  unfolding read_slot
  read_balance addr seq e =
      let (e', value) = read_slot (balance_key addr) seq e in (e', or_zero_u256 value)

  unfoldable pub read_nonce : ℕ → ℕ → Effects Tree → Effects Tree × ℕ
  unfolding read_slot
  read_nonce addr seq e =
      let (e', value) = read_slot (nonce_key addr) seq e in (e', limb0_or_zero value)

  unfoldable pub write_balance : ℕ → ℕ → U256 → Effects Tree → Effects Tree
  unfolding write_slot
  write_balance addr seq value e = write_slot (balance_key addr) seq value e

  unfoldable pub write_nonce : ℕ → ℕ → ℕ → Effects Tree → Effects Tree
  unfolding write_slot
  write_nonce addr seq nonce e = write_slot (nonce_key addr) seq (from_u64 nonce) e
