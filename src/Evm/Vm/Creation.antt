-- ===== src/Evm/Vm/Creation.antt =====
-- evm/vm.rs: the code hash that a creation writes, and its abort.
use ryther_core.Base.{
  ℕ, nat_eq, ◌≡◌, ◌≤◌, ◌<◌, refl, Option, none, some, List, arith, beq_refl, lt→ltb, add64,
}
use ryther_core.Bytes.{be_bytes}
use ryther_core.Dict
use ryther_core.Dict.Laws.{get-insert, contains-keys}
use ryther_core.Evm.Slots.{
  Effects, read_slot, write_balance, write_nonce, balance_key, nonce_key, code_hash_key,
}
use ryther_core.Evm.Words.{sub_u256}
use ryther_core.Evm.Vm.{
  RytherVm, BlockContext, VmError, execute, execute_create, run_transaction, compute_create_address,
}
use ryther_core.Evm.Vm.Checks.{total_cost, balance_of, nonce_of, execute-runs, checked_reads}
use ryther_core.Evm.Vm.Recorded.{
  Apart, Apart-write_slot, code_is_no_balance, code_is_no_nonce, to_result_lem, settle-Keeps,
  created_balance-Keeps,
}
use ryther_core.Execution.Mvcc.{
  MultiVersionState, read, read_tracked, write, abort_write_set, chain_read,
}
use ryther_core.Execution.Mvcc.Abort.{get-abort_keys}
use ryther_core.Search.{binary_search_by}
use ryther_core.Types.State.{
  VersionChain, pending, new_chain, add_version, read_for, scan, new_write_set, written_keys,
}
use ryther_core.Types.Transaction.{DecryptedTransaction}
use ryther_core.Types.Uint.{U256, StateKey, key_eq, from_u64, from_be_bytes}
use ryther_core.Types.Uint.Arithmetic.{IsWord, value}

one_version :
    (v : U256) (q r : ℕ)
    → q < r
    → chain_read
        (some
          (add_version new_chain (record { tx_sequence = q; value = some v; status = pending })))
        r
      ≡ some (some v, q)
unfolding chain_read read_for add_version new_chain scan binary_search_by
one_version v q r h = ground (arith, lt→ltb q r h)

module _ (keccak256 : List ℕ → ℕ) (display : VmError → List ℕ) {Tree : Type 0} (vm : RytherVm)
    (tx : DecryptedTransaction) (state : MultiVersionState Tree) (block : BlockContext) where
  abbrev address : ℕ
  address = compute_create_address keccak256 tx.from tx.nonce

  abbrev pub code_hash : U256
  code_hash = from_be_bytes (be_bytes 32 (keccak256 tx.calldata))

  abbrev Unseen : Option VersionChain → Effects Tree → Type 0
  Unseen chain = Apart chain (code_hash_key address) state.base_state

  abbrev code_chain : VersionChain
  code_chain =
      add_version new_chain
        (record { tx_sequence = tx.sequence_number; value = some code_hash; status = pending })

  after_read :
      (chain : Option VersionChain) (k : StateKey) (e : Effects Tree)
      → Unseen chain e
      → Unseen chain (read_slot k tx.sequence_number e).0
  unfolding read_slot read_tracked
  after_read chain k e h = record {
    same_chain = h.same_chain;
    same_base = h.same_base;
    unrecorded = h.unrecorded;
  }

  after_balance :
      (chain : Option VersionChain) (addr : ℕ) (v : U256) (e : Effects Tree)
      → Unseen chain e
      → Unseen chain (write_balance addr tx.sequence_number v e)
  unfolding write_balance
  after_balance chain addr v e h =
      Apart-write_slot chain (code_hash_key address) state.base_state tx.sequence_number
        (balance_key addr) v e (code_is_no_balance addr address) h

  after_nonce :
      (chain : Option VersionChain) (addr n : ℕ) (e : Effects Tree)
      → Unseen chain e
      → Unseen chain (write_nonce addr tx.sequence_number n e)
  unfolding write_nonce
  after_nonce chain addr n e h =
      Apart-write_slot chain (code_hash_key address) state.base_state tx.sequence_number
        (nonce_key addr) (from_u64 n) e (code_is_no_nonce addr address) h

  after_create :
      (e : Effects Tree)
      → Unseen none e
      → Unseen (some code_chain) (execute_create keccak256 tx e).0
  unfolding execute_create write
  after_create e h =
      let kept =
        created_balance-Keeps (Unseen none) tx (after_read none) (after_balance none)
          (after_nonce none) keccak256 block address e h in
      record {
        same_chain = rw (get-insert, beq_refl (code_hash_key address), kept.same_chain) refl;
        same_base = kept.same_base;
        unrecorded = kept.unrecorded;
      }

  run_create :
      (balance : U256) (n : ℕ) (e : Effects Tree)
      → tx.recipient ≡ none
      → Unseen none e
      → Unseen (some code_chain) (run_transaction keccak256 vm tx block balance n e).0
  unfolding run_transaction
  run_create balance n e nobody h =
      let left = sub_u256 balance (total_cost tx) in
      let e1 = write_balance tx.from tx.sequence_number left e in
      let e2 = write_nonce tx.from tx.sequence_number (add64 n 1) e1 in
      let paid = after_nonce none tx.from (add64 n 1) e1 (after_balance none tx.from left e h) in
      simp (nobody) (
        settle-Keeps (Unseen (some code_chain)) tx (after_read (some code_chain))
          (after_balance (some code_chain)) (after_nonce (some code_chain)) keccak256 block left
          (execute_create keccak256 tx e2) (after_create e2 paid))

  -- When a creation whose nonce is the sender's and whose cost the sender can pay has run, on a state
  -- that has no version of the new account's code hash, and its write set is then aborted, later
  -- transactions still read the code hash that it wrote. The value and the sender's balance have
  -- 64-bit limbs.
  pub aborted_creation_survives :
      (r : ℕ)
      → IsWord tx.value
      → IsWord (balance_of state tx.from tx.sequence_number)
      → nonce_of state tx.from tx.sequence_number ≡ tx.nonce
      → value (total_cost tx) ≤ value (balance_of state tx.from tx.sequence_number)
      → tx.recipient ≡ none
      → Dict.get (code_hash_key (compute_create_address keccak256 tx.from tx.nonce)) state.chains
        ≡ none
      → tx.sequence_number < r
      → let ran = execute keccak256 display vm tx state block in
        read
          (abort_write_set ran.0 tx.sequence_number ran.1.write_set)
          (code_hash_key (compute_create_address keccak256 tx.from tx.nonce))
          r
        ≡ (some code_hash, tx.sequence_number)
  unfolding read abort_write_set Dict.contains_key new_write_set
  aborted_creation_survives r words held same enough nobody fresh later =
      let start : Effects Tree = record {
        state = state;
        read_set = checked_reads state tx.from tx.sequence_number;
        write_set = new_write_set;
      } in
      let run =
        run_transaction keccak256 vm tx block (balance_of state tx.from tx.sequence_number)
          (nonce_of state tx.from tx.sequence_number) start in
      let kept =
        run_create (balance_of state tx.from tx.sequence_number)
          (nonce_of state tx.from tx.sequence_number) start nobody
          (record { same_chain = fresh; same_base = refl; unrecorded = refl }) in
      let ended = to_result_lem display tx run in
      rw
        (
          execute-runs keccak256 display vm tx state block words held same enough,
          ended.0,
          ended.1,
          get-abort_keys run.0.state tx.sequence_number (written_keys run.0.write_set)
              (code_hash_key address),
          contains-keys (code_hash_key address) run.0.write_set.writes,
          kept.unrecorded,
          kept.same_chain,
          one_version code_hash tx.sequence_number r later,
        )
        refl
