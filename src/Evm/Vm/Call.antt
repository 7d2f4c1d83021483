-- ===== src/Evm/Vm/Call.antt =====
-- evm/vm.rs: what a transaction with a recipient writes.
use ryther_core.Base.{
  ℕ, nat_eq, ◌≡◌, ◌≤◌, refl, ◌∙◌, ap, inl, inr, Bool, true, false, not, ◌&&◌, Option, none, some,
  List, [], ◌∷◌, if◌then◌else◌, arith, Bool-cases, min, length, add64, mul64, sub64, ◌==◌,
}
use ryther_core.Dict
use ryther_core.Dict.Laws.{get-insert}
use ryther_core.Evm.Slots.{
  Effects, read_balance, read_slot, write_slot, write_balance, write_nonce, or_zero_u256,
  balance_key, nonce_key,
}
use ryther_core.Evm.Words.{add_u256, sub_u256, u256_to_u64}
use ryther_core.Evm.Vm.{
  RytherVm, BlockContext, VmError, ok, call_code, transfer_value, execute_call, settle, execute,
  run_transaction, to_result,
}
use ryther_core.Evm.Vm.Checks.{balance_of, nonce_of, checked_reads, total_cost, execute-runs}
use ryther_core.Execution.Mvcc.{MultiVersionState, read, write, read_tracked, write_tracked}
use ryther_core.Execution.Mvcc.Own.{read-write_own}
use ryther_core.Types.State.{ReadSet, new_write_set, record_write, success}
use ryther_core.Types.Transaction.{DecryptedTransaction}
use ryther_core.Types.Uint.{U256, StateKey, key_eq, zero_u256, beq_u256, from_u64}
use ryther_core.Types.Uint.Arithmetic.{IsWord, value}

-- The gas of a call.
abbrev pub call_gas : DecryptedTransaction → Option (List ℕ) → ℕ
call_gas tx none = 21000
call_gas tx (some []) = 21000
call_gas tx (some (b ∷ code)) = min (add64 21000 (mul64 (length tx.calldata) 16)) tx.gas_limit

call_code_lem :
    (tx : DecryptedTransaction) (code : Option (List ℕ))
    → call_code tx code ≡ ok (true, call_gas tx code, [], [])
unfolding call_code
call_code_lem tx none = refl
call_code_lem tx (some []) = refl
call_code_lem tx (some (b ∷ code)) = refl

-- What stands at a key after writes at four keys, one of them twice and one of them only sometimes.
five_writes :
    (some_sent : Bool) (k1 k2 k3 k4 key : StateKey) (v1 v2 v3 v4 v5 : Option U256)
    → let last = Dict.insert k4 v4 (Dict.insert k2 v5 []) in
      Dict.get key
        (Dict.insert k1 v1 (Dict.insert k2 v2 (if some_sent then Dict.insert k3 v3 last else last)))
      ≡ (if k1 == key
          then some v1
          else (if k2 == key
              then some v2
              else (if some_sent && (k3 == key)
                  then some v3
                  else (if k4 == key then some v4 else none))))
unfolding Dict.get
five_writes true k1 k2 k3 k4 key v1 v2 v3 v4 v5 =
    rw (get-insert, get-insert, get-insert, get-insert, get-insert) (ground arith)
five_writes false k1 k2 k3 k4 key v1 v2 v3 v4 v5 =
    rw (get-insert, get-insert, get-insert, get-insert) (ground arith)

module _ {Tree : Type 0} where
  own_read :
      (s : MultiVersionState Tree) (key other : StateKey) (seq : ℕ) (v : Option U256)
      → read (write s key seq v) other seq ≡ read s other seq
  own_read s key other seq v = read-write_own s key other seq seq v (omega arith)

abbrev pub fee : DecryptedTransaction → ℕ → U256
fee tx gas = from_u64 (mul64 gas (u256_to_u64 tx.gas_price))

abbrev pub refund : DecryptedTransaction → ℕ → U256
refund tx gas = from_u64 (mul64 (sub64 tx.gas_limit gas) (u256_to_u64 tx.gas_price))

module _ (keccak256 : List ℕ → ℕ) (display : VmError → List ℕ) {Tree : Type 0} (vm : RytherVm)
    (tx : DecryptedTransaction) (state : MultiVersionState Tree) (block : BlockContext) where
  -- The balances and nonces that the transaction reads.
  abbrev pub had : ℕ → U256
  had addr = balance_of state addr tx.sequence_number

  abbrev pub left_over : U256
  left_over = sub_u256 (had tx.from) (total_cost tx)

  abbrev sent : ℕ → List (StateKey × Option U256) → List (StateKey × Option U256)
  sent to writes =
      if not (beq_u256 tx.value zero_u256)
      then Dict.insert (balance_key to) (some (add_u256 (had to) tx.value)) writes
      else writes

  -- The writes of a call, in their order.
  abbrev call_writes : ℕ → ℕ → ℕ → List (StateKey × Option U256)
  call_writes to n gas =
      Dict.insert (balance_key block.coinbase) (some (add_u256 (had block.coinbase) (fee tx gas))) (
        Dict.insert (balance_key tx.from) (some (add_u256 left_over (refund tx gas))) (
          sent to (
            Dict.insert (nonce_key tx.from) (some (from_u64 (add64 n 1)))
              (Dict.insert (balance_key tx.from) (some left_over) []))))

  abbrev put : StateKey → U256 → MultiVersionState Tree → MultiVersionState Tree
  put key v s = write s key tx.sequence_number (some v)

  abbrev pub sent_state : ℕ → MultiVersionState Tree → MultiVersionState Tree
  sent_state to s =
      if not (beq_u256 tx.value zero_u256)
      then put (balance_key to) (add_u256 (had to) tx.value) s
      else s

  -- The state after the writes of a call, in their order.
  abbrev pub call_state : ℕ → ℕ → ℕ → MultiVersionState Tree
  call_state to n gas =
      put (balance_key block.coinbase) (add_u256 (had block.coinbase) (fee tx gas)) (
        put (balance_key tx.from) (add_u256 left_over (refund tx gas)) (
          sent_state to (
            put (nonce_key tx.from) (from_u64 (add64 n 1))
              (put (balance_key tx.from) left_over state))))

  -- The writes so far, the state that they leave, and that what the transaction reads is as it was.
  record Wrote (e : Effects Tree) (writes : List (StateKey × Option U256))
      (s : MultiVersionState Tree) : Type 0 where
    writes_lem : e.write_set.writes ≡ writes
    state_lem : e.state ≡ s
    unseen :
        (key : StateKey) → read e.state key tx.sequence_number ≡ read state key tx.sequence_number

  Wrote-write_slot :
      (key : StateKey) (v : U256) (e : Effects Tree) (writes : List (StateKey × Option U256))
      (s : MultiVersionState Tree)
      → Wrote e writes s
      → Wrote
          (write_slot key tx.sequence_number v e)
          (Dict.insert key (some v) writes)
          (put key v s)
  unfolding write_slot write_tracked record_write
  Wrote-write_slot key v e writes s h = record {
    writes_lem = rw (h.writes_lem) refl;
    state_lem = ap (put key v) h.state_lem;
    unseen = λ other. own_read e.state key other tx.sequence_number (some v) ∙ h.unseen other;
  }

  Wrote-read_balance :
      (addr : ℕ) (e : Effects Tree) (writes : List (StateKey × Option U256))
      (s : MultiVersionState Tree)
      → Wrote e writes s
      → Wrote (read_balance addr tx.sequence_number e).0 writes s
        × ((read_balance addr tx.sequence_number e).1 ≡ had addr)
  unfolding read_balance read_slot read_tracked
  Wrote-read_balance addr e writes s h = (
    record { writes_lem = h.writes_lem; state_lem = h.state_lem; unseen = h.unseen },
    ap (λ (r : Option U256 × ℕ). or_zero_u256 r.0) (h.unseen (balance_key addr)),
  )

  Wrote-transfer_value :
      (to : ℕ) (e : Effects Tree) (writes : List (StateKey × Option U256))
      (s : MultiVersionState Tree)
      → Wrote e writes s
      → Wrote (transfer_value tx to e) (sent to writes) (sent_state to s)
  unfolding transfer_value write_balance
  Wrote-transfer_value to e writes s h = elim (Bool-cases (beq_u256 tx.value zero_u256)) [
    | inl none_sent ↦ rw (none_sent) h
    | inr some_sent ↦
        let r = Wrote-read_balance to e writes s h in
        let w =
          Wrote-write_slot (balance_key to) (add_u256 (had to) tx.value)
            (read_balance to tx.sequence_number e).0 writes s r.0 in
        rw (some_sent, r.1) w
  ]

  settle_lem :
      (gas : ℕ) (e : Effects Tree) (writes : List (StateKey × Option U256))
      (s : MultiVersionState Tree)
      → Wrote e writes s
      → let r = to_result display tx (settle tx block left_over (e, ok (true, gas, [], []))) in
        (r.1.status ≡ success)
        × (r.1.gas_used ≡ gas)
        × (r.1.write_set.writes
            ≡ Dict.insert
                (balance_key block.coinbase)
                (some (add_u256 (had block.coinbase) (fee tx gas)))
                (Dict.insert
                  (balance_key tx.from)
                  (some (add_u256 left_over (refund tx gas)))
                  writes))
        × (r.0
            ≡ put
                (balance_key block.coinbase)
                (add_u256 (had block.coinbase) (fee tx gas))
                (put (balance_key tx.from) (add_u256 left_over (refund tx gas)) s))
  unfolding to_result settle write_balance
  settle_lem gas e writes s h =
      let e1 =
        write_slot (balance_key tx.from) tx.sequence_number (add_u256 left_over (refund tx gas))
          e in
      let w1 =
        Wrote-write_slot (balance_key tx.from) (add_u256 left_over (refund tx gas)) e writes s h in
      let r = Wrote-read_balance block.coinbase e1 _ _ w1 in
      let w2 =
        Wrote-write_slot (balance_key block.coinbase) (add_u256 (had block.coinbase) (fee tx gas))
          (read_balance block.coinbase tx.sequence_number e1).0 _ _ r.0 in
      (refl, refl, rw (r.1) w2.writes_lem, rw (r.1) w2.state_lem)

  run_call :
      (to n : ℕ) (reads : ReadSet)
      → tx.recipient ≡ some to
      → let r = to_result display tx (
          run_transaction keccak256 vm tx block
            (had tx.from)
            n
            (record { state = state; read_set = reads; write_set = new_write_set })) in
        let gas = call_gas tx (Dict.get to vm.code_storage) in
        (r.1.status ≡ success)
        × (r.1.gas_used ≡ gas)
        × (r.1.write_set.writes ≡ call_writes to n gas)
        × (r.0 ≡ call_state to n gas)
  unfolding run_transaction execute_call write_balance write_nonce new_write_set
  run_call to n reads e =
      let start : Effects Tree = record {
        state = state;
        read_set = reads;
        write_set = new_write_set;
      } in
      let e1 = write_slot (balance_key tx.from) tx.sequence_number left_over start in
      let w1 =
        Wrote-write_slot (balance_key tx.from) left_over start [] state
          (record { writes_lem = refl; state_lem = refl; unseen = λ key. refl }) in
      let e2 = write_slot (nonce_key tx.from) tx.sequence_number (from_u64 (add64 n 1)) e1 in
      let w2 = Wrote-write_slot (nonce_key tx.from) (from_u64 (add64 n 1)) e1 _ _ w1 in
      let w3 = Wrote-transfer_value to e2 _ _ w2 in
      simp (e, call_code_lem tx (Dict.get to vm.code_storage))
        (settle_lem (call_gas tx (Dict.get to vm.code_storage)) (transfer_value tx to e2) _ _ w3)

  -- A transaction to a recipient whose nonce is the sender's and whose cost, computed as the code
  -- does, is within the sender's balance, succeeds, uses the gas of the call, and its write set holds
  -- these values and no others: at the producer's balance the balance before and the fee; at the
  -- sender's balance, if the sender is not the producer, the refund added to what `sub_u256` leaves
  -- of the balance before, which subtracts only the lowest limb of the cost and may miss a borrow; at
  -- the recipient's balance, if it is neither and the value is not zero, the balance before and the
  -- value; at the sender's nonce the nonce after. The cost, the fee and the refund take the lowest
  -- limb of the price and wrap around at 2 ^ 64, and the sums are `wrapping_add`. The value and the
  -- sender's balance have 64-bit limbs.
  pub execute-writes :
      (to : ℕ)
      → IsWord tx.value
      → IsWord (had tx.from)
      → nonce_of state tx.from tx.sequence_number ≡ tx.nonce
      → value (total_cost tx) ≤ value (had tx.from)
      → tx.recipient ≡ some to
      → let r = (execute keccak256 display vm tx state block).1 in
        let gas = call_gas tx (Dict.get to vm.code_storage) in
        (r.status ≡ success)
        × (r.gas_used ≡ gas)
        × ((key : StateKey)
            → Dict.get key r.write_set.writes ≡ (
                if balance_key block.coinbase == key
                then some (some (add_u256 (had block.coinbase) (fee tx gas)))
                else (if balance_key tx.from == key
                    then some (some (add_u256 left_over (refund tx gas)))
                    else (if not (beq_u256 tx.value zero_u256) && (balance_key to == key)
                        then some (some (add_u256 (had to) tx.value))
                        else (if nonce_key tx.from == key
                            then some (some (from_u64 (add64 tx.nonce 1)))
                            else none)))))
  execute-writes to words held same enough e =
      let gas = call_gas tx (Dict.get to vm.code_storage) in
      let r = run_call to tx.nonce (checked_reads state tx.from tx.sequence_number) e in
      simp (same, execute-runs keccak256 display vm tx state block words held same enough)
        (
          r.0,
          r.1,
          λ key. rw (r.2) (
              five_writes (not (beq_u256 tx.value zero_u256)) (balance_key block.coinbase)
                (balance_key tx.from) (balance_key to) (nonce_key tx.from) key
                (some (add_u256 (had block.coinbase) (fee tx gas)))
                (some (add_u256 left_over (refund tx gas))) (some (add_u256 (had to) tx.value))
                (some (from_u64 (add64 tx.nonce 1))) (some left_over)),
        )

  -- The state that such a transaction leaves.
  pub execute-call_state :
      (to : ℕ)
      → IsWord tx.value
      → IsWord (had tx.from)
      → nonce_of state tx.from tx.sequence_number ≡ tx.nonce
      → value (total_cost tx) ≤ value (had tx.from)
      → tx.recipient ≡ some to
      → (execute keccak256 display vm tx state block).0
        ≡ call_state to tx.nonce (call_gas tx (Dict.get to vm.code_storage))
  execute-call_state to words held same enough e =
      let r = run_call to tx.nonce (checked_reads state tx.from tx.sequence_number) e in
      simp (same, execute-runs keccak256 display vm tx state block words held same enough) r.3
