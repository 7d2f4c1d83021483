-- ===== src/Evm/Vm/Recorded.antt =====
-- evm/vm.rs: which writes to the state the write set records.
use ryther_core.Base.{
  add64, ℕ, nat_eq, ◌≡◌, ◌≢◌, refl, ap, inl, inr, true, false, not, Option, none, some, List,
  if◌then◌else◌, arith, eqb, Bool-cases, Option-cases, ◌==◌,
}
use ryther_core.Dict
use ryther_core.Dict.Laws.{get-insert, contains_key-insert}
use ryther_core.Evm.Slots.{
  Effects, read_balance, read_nonce, read_slot, write_slot, write_balance, write_nonce, balance_key,
  nonce_key, code_hash_key,
}
use ryther_core.Evm.Words.{compare_u256, is_below, sub_u256}
use ryther_core.Evm.Vm.{
  RytherVm, BlockContext, VmError, Result, ok, err, VmResult, CallResult, execute, execute_inner,
  execute_call, execute_create, call_code, transfer_value, settle, run_transaction, to_result,
  compute_create_address,
}
use ryther_core.Evm.Vm.Checks.{total_cost, balance_of, nonce_of}
use ryther_core.Execution.Mvcc.{MultiVersionState, read_tracked, write, write_tracked}
use ryther_core.Types.State.{VersionChain, new_write_set, record_write, new_read_set}
use ryther_core.Types.Transaction.{DecryptedTransaction}
use ryther_core.Types.Uint.{U256, StateKey, key_eq, key-eq_iff, zero_u256, beq_u256, from_u64}

-- What the reads and writes of a transaction keep, the transaction keeps.
module _ {Tree : Type 0} (P : Effects Tree → Type 0) (tx : DecryptedTransaction)
    (after_read : (key : StateKey) (e : Effects Tree)
      → P e
      → P (read_slot key tx.sequence_number e).0)
    (after_balance : (addr : ℕ) (v : U256) (e : Effects Tree)
      → P e
      → P (write_balance addr tx.sequence_number v e))
    (after_nonce : (addr n : ℕ) (e : Effects Tree)
      → P e
      → P (write_nonce addr tx.sequence_number n e)) where
  transfer_value-Keeps : (to : ℕ) (e : Effects Tree) → P e → P (transfer_value tx to e)
  unfolding transfer_value read_balance
  transfer_value-Keeps to e h = elim (Bool-cases (beq_u256 tx.value zero_u256)) [
    | inl none_sent ↦ rw (none_sent) h
    | inr some_sent ↦ rw (some_sent) (
        after_balance to _ (read_slot (balance_key to) tx.sequence_number e).0
          (after_read (balance_key to) e h))
  ]

  module _ (keccak256 : List ℕ → ℕ) (block : BlockContext) where
    -- The created account is given the value.
    pub created_balance-Keeps :
        (address : ℕ) (e : Effects Tree)
        → P e
        → P (
            if not (beq_u256 tx.value zero_u256)
            then write_balance address tx.sequence_number tx.value e
            else e)
    created_balance-Keeps address e h = elim (Bool-cases (beq_u256 tx.value zero_u256)) [
      | inl none_sent ↦ rw (none_sent) h
      | inr some_sent ↦ rw (some_sent) (after_balance address tx.value e h)
    ]

    pub settle-Keeps :
        (left : U256) (r : Effects Tree × Result CallResult) → P r.0 → P (settle tx block left r).0
    unfolding settle read_balance
    settle-Keeps left (e, err problem) h = h
    settle-Keeps left (e, ok (succeeded, gas, output, logs)) h =
        after_balance block.coinbase _ _
          (after_read (balance_key block.coinbase) _ (after_balance tx.from _ e h))

    run_transaction-Keeps :
        (vm : RytherVm) (balance : U256) (n : ℕ) (e : Effects Tree)
        → ((start : Effects Tree)
            → P start
            → tx.recipient ≡ none
            → P (execute_create keccak256 tx start).0)
        → P e
        → P (run_transaction keccak256 vm tx block balance n e).0
    unfolding run_transaction execute_call
    run_transaction-Keeps vm balance n e create h =
        let left = sub_u256 balance (total_cost tx) in
        let e1 = write_balance tx.from tx.sequence_number left e in
        let e2 = write_nonce tx.from tx.sequence_number (add64 n 1) e1 in
        let paid = after_nonce tx.from (add64 n 1) e1 (after_balance tx.from left e h) in
        elim (Option-cases tx.recipient) [
          | inl nobody ↦
              simp (nobody)
                (settle-Keeps left (execute_create keccak256 tx e2) (create e2 paid nobody))
          | inr (to, somebody) ↦ simp (somebody) (
              settle-Keeps left
                (transfer_value tx to e2, call_code tx (Dict.get to vm.code_storage))
                (transfer_value-Keeps to e2 paid))
        ]

    execute_inner-Keeps :
        (vm : RytherVm) (e : Effects Tree)
        → ((start : Effects Tree)
            → P start
            → tx.recipient ≡ none
            → P (execute_create keccak256 tx start).0)
        → P e
        → P (execute_inner keccak256 vm tx block e).0
    unfolding execute_inner read_balance read_nonce read_slot read_tracked
    execute_inner-Keeps vm e create h =
        let e1 = (read_slot (balance_key tx.from) tx.sequence_number e).0 in
        let e2 = (read_slot (nonce_key tx.from) tx.sequence_number e1).0 in
        let read_both = after_read (nonce_key tx.from) e1 (after_read (balance_key tx.from) e h) in
        let balance = balance_of e.state tx.from tx.sequence_number in
        let nonce = nonce_of e.state tx.from tx.sequence_number in
        elim (Bool-cases (eqb nonce tx.nonce)) [
          | inr differs ↦ rw (differs) read_both
          | inl same ↦ elim (Bool-cases (is_below (compare_u256 balance (total_cost tx)))) [
            | inl poor ↦ rw (same, poor) read_both
            | inr rich ↦
                rw (same, rich) (run_transaction-Keeps vm balance nonce e2 create read_both)
          ]
        ]

module _ {Tree : Type 0} (chain : Option VersionChain) (key : StateKey) where
  -- Unless the write set holds the key, its chain is still this one.
  abbrev pub Tracked : Effects Tree → Type 0
  Tracked e = Dict.contains_key key e.write_set.writes ≡ false → Dict.get key e.state.chains ≡ chain

  Tracked-write_slot :
      (seq : ℕ) (k : StateKey) (v : U256) (e : Effects Tree)
      → Tracked e
      → Tracked (write_slot k seq v e)
  unfolding write_slot write_tracked write record_write
  Tracked-write_slot seq k v e h absent = elim (Bool-cases (k == key)) [
    | inl same ↦
        let held : true ≡ false =
          rw (contains_key-insert key k (some v) e.write_set.writes, same) at absent in
        absurd (cc)
    | inr other ↦
        let before = rw (contains_key-insert key k (some v) e.write_set.writes, other) at absent in
        rw (get-insert, other) (h before)
  ]

  Tracked-read_slot :
      (seq : ℕ) (k : StateKey) (e : Effects Tree) → Tracked e → Tracked (read_slot k seq e).0
  unfolding read_slot read_tracked
  Tracked-read_slot seq k e h = h

  Tracked-write_balance :
      (seq addr : ℕ) (v : U256) (e : Effects Tree)
      → Tracked e
      → Tracked (write_balance addr seq v e)
  unfolding write_balance
  Tracked-write_balance seq addr v e h = Tracked-write_slot seq (balance_key addr) v e h

  Tracked-write_nonce :
      (seq addr n : ℕ) (e : Effects Tree) → Tracked e → Tracked (write_nonce addr seq n e)
  unfolding write_nonce
  Tracked-write_nonce seq addr n e h = Tracked-write_slot seq (nonce_key addr) (from_u64 n) e h

  -- The chain is this one, the base state too, and the write set does not hold the key.
  pub record Apart (base : List (StateKey × U256)) (e : Effects Tree) : Type 0 where
    pub same_chain : Dict.get key e.state.chains ≡ chain
    pub same_base : e.state.base_state ≡ base
    pub unrecorded : Dict.contains_key key e.write_set.writes ≡ false

  pub Apart-write_slot :
      (base : List (StateKey × U256)) (seq : ℕ) (k : StateKey) (v : U256) (e : Effects Tree)
      → (k == key) ≡ false
      → Apart base e
      → Apart base (write_slot k seq v e)
  unfolding write_slot write_tracked write record_write
  Apart-write_slot base seq k v e other h = record {
    same_chain = rw (get-insert, other) h.same_chain;
    same_base = h.same_base;
    unrecorded = rw (contains_key-insert key k (some v) e.write_set.writes, other) h.unrecorded;
  }

pub code_is_no_balance : (a b : ℕ) → (balance_key a == code_hash_key b) ≡ false
code_is_no_balance a b = elim (Bool-cases (balance_key a == code_hash_key b)) [
  | inl same ↦ absurd (
      zero_is_not_two
        (ap (λ (k : StateKey). k.slot.l0) ((key-eq_iff (balance_key a) (code_hash_key b)).0 same)))
  | inr differ ↦ differ
]
  where
    zero_is_not_two : ◌≢◌ {A = ℕ} 0 2
    zero_is_not_two h = omega arith

pub code_is_no_nonce : (a b : ℕ) → (nonce_key a == code_hash_key b) ≡ false
code_is_no_nonce a b = elim (Bool-cases (nonce_key a == code_hash_key b)) [
  | inl same ↦ absurd (
      one_is_not_two
        (ap (λ (k : StateKey). k.slot.l0) ((key-eq_iff (nonce_key a) (code_hash_key b)).0 same)))
  | inr differ ↦ differ
]
  where
    one_is_not_two : ◌≢◌ {A = ℕ} 1 2
    one_is_not_two h = omega arith

pub to_result_lem :
    {Tree : Type 0} (display : VmError → List ℕ) (tx : DecryptedTransaction)
    (r : Effects Tree × Result VmResult)
    → ((to_result display tx r).0 ≡ r.0.state)
      × ((to_result display tx r).1.write_set ≡ r.0.write_set)
unfolding to_result
to_result_lem display tx (e, ok done) = (refl, refl)
to_result_lem display tx (e, err problem) = (refl, refl)

module _ (keccak256 : List ℕ → ℕ) (display : VmError → List ℕ) {Tree : Type 0} (vm : RytherVm)
    (tx : DecryptedTransaction) (state : MultiVersionState Tree) (block : BlockContext) where
  abbrev pub created_key : StateKey
  created_key = code_hash_key (compute_create_address keccak256 tx.from tx.nonce)

  created :
      (key : StateKey) (e : Effects Tree)
      → Tracked (Dict.get key state.chains) key e
      → (created_key == key) ≡ false
      → Tracked (Dict.get key state.chains) key (execute_create keccak256 tx e).0
  unfolding execute_create write
  created key e h other absent =
      let kept =
        created_balance-Keeps (Tracked (Dict.get key state.chains) key) tx
          (Tracked-read_slot (Dict.get key state.chains) key tx.sequence_number)
          (Tracked-write_balance (Dict.get key state.chains) key tx.sequence_number)
          (Tracked-write_nonce (Dict.get key state.chains) key tx.sequence_number) keccak256 block
          (compute_create_address keccak256 tx.from tx.nonce) e h in
      rw (get-insert, other) (kept absent)

  -- Whatever becomes of a transaction, a key that its write set does not hold keeps its chain of
  -- versions, unless the transaction is a creation and the key is that of the new code hash.
  pub execute-Records :
      (key : StateKey)
      → (tx.recipient ≡ none → (created_key == key) ≡ false)
      → Dict.contains_key key (execute keccak256 display vm tx state block).1.write_set.writes
        ≡ false
      → Dict.get key (execute keccak256 display vm tx state block).0.chains
        ≡ Dict.get key state.chains
  unfolding execute
  execute-Records key other absent =
      let start : Effects Tree = record {
        state = state;
        read_set = new_read_set;
        write_set = new_write_set;
      } in
      let creates : (e : Effects Tree)
          → Tracked (Dict.get key state.chains) key e
          → tx.recipient ≡ none
          → Tracked (Dict.get key state.chains) key (execute_create keccak256 tx e).0 =
        λ e h nobody. created key e h (other nobody) in
      let kept =
        execute_inner-Keeps (Tracked (Dict.get key state.chains) key) tx
          (Tracked-read_slot (Dict.get key state.chains) key tx.sequence_number)
          (Tracked-write_balance (Dict.get key state.chains) key tx.sequence_number)
          (Tracked-write_nonce (Dict.get key state.chains) key tx.sequence_number) keccak256 block
          vm start creates (λ h. refl) in
      let ended = to_result_lem display tx (execute_inner keccak256 vm tx block start) in
      rw (ended.0) (kept (rw (ended.1) at absent))
