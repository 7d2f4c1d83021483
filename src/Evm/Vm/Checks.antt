-- ===== src/Evm/Vm/Checks.antt =====
-- evm/vm.rs, `execute`: the checks of nonce and balance.
use ryther_core.Base.{
  ℕ, ◌+◌, ◌*◌, ◌^◌, u64_mod, ap, ◌≡◌, ◌≢◌, ◌<◌, ◌≤◌, refl, ◌⊎◌, inl, inr, true, false, List, [],
  if◌then◌else◌, arith, eqb, eqb_iff, Bool-cases,
}
use ryther_core.Evm.Slots.{
  Effects, read_balance, read_nonce, read_slot, or_zero_u256, limb0_or_zero, balance_key, nonce_key,
}
use ryther_core.Evm.Words.{add_u256, compare_u256, is_below, Comparison, above, equal, below}
use ryther_core.Evm.Words.Values.{compare_u256-Says, Says}
use ryther_core.Evm.Vm.{
  RytherVm, BlockContext, VmError, invalid_nonce, insufficient_balance, calculate_gas_cost, execute,
  execute_inner, run_transaction, to_result,
}
use ryther_core.Execution.Mvcc.{MultiVersionState, read, read_tracked}
use ryther_core.Types.State.{
  ReadSet, new_read_set, new_write_set, record_read, failure, ExecutionResult,
}
use ryther_core.Types.Transaction.{DecryptedTransaction}
use ryther_core.Types.Uint.{U256}
use ryther_core.Types.Uint.Arithmetic.{IsWord, value, value-wrapping_add, wrapping_add-IsWord}

module _ {Tree : Type 0} where
  -- What a transaction of this number reads as the balance and the nonce of an account.
  abbrev pub balance_of : MultiVersionState Tree → ℕ → ℕ → U256
  balance_of state addr seq = or_zero_u256 (read state (balance_key addr) seq).0

  abbrev pub nonce_of : MultiVersionState Tree → ℕ → ℕ → ℕ
  nonce_of state addr seq = limb0_or_zero (read state (nonce_key addr) seq).0

  -- The reads of the checks.
  abbrev pub checked_reads : MultiVersionState Tree → ℕ → ℕ → ReadSet
  checked_reads state addr seq =
      let balance = read state (balance_key addr) seq in
      let nonce = read state (nonce_key addr) seq in
      record_read (record_read new_read_set (balance_key addr) balance.0 balance.1) (nonce_key addr)
        nonce.0 nonce.1

abbrev pub total_cost : DecryptedTransaction → U256
total_cost tx = add_u256 tx.value (calculate_gas_cost tx)

is_below-lt :
    (a b : U256) → IsWord a → IsWord b → value a < value b → is_below (compare_u256 a b) ≡ true
is_below-lt a b h k lt = decided (compare_u256 a b) (compare_u256-Says a b h k)
  where
    decided : (c : Comparison) → Says c (value a) (value b) → is_below c ≡ true
    decided above s = absurd (omega arith)
    decided equal s = absurd (omega arith)
    decided below s = refl

is_below-le :
    (a b : U256) → IsWord a → IsWord b → value b ≤ value a → is_below (compare_u256 a b) ≡ false
is_below-le a b h k le = decided (compare_u256 a b) (compare_u256-Says a b h k)
  where
    decided : (c : Comparison) → Says c (value a) (value b) → is_below c ≡ false
    decided above s = refl
    decided equal s = refl
    decided below s = absurd (omega arith)

pub total_cost-IsWord : (tx : DecryptedTransaction) → IsWord tx.value → IsWord (total_cost tx)
total_cost-IsWord tx h = wrapping_add-IsWord tx.value (calculate_gas_cost tx) h cost
  where
    cost : IsWord (calculate_gas_cost tx)
    cost =
        unfold calculate_gas_cost in
        record { w0 = omega arith; w1 = omega arith; w2 = omega arith; w3 = omega arith }

-- The cost without wrapping: the value, and the gas limit at the price.
abbrev pub full_cost : DecryptedTransaction → ℕ
full_cost tx = value tx.value + tx.gas_limit * value tx.gas_price

-- Where the price and the price of all the gas fit in 64 bits and the whole cost in 256, the cost
-- that the code computes is the full one.
total_cost_lem :
    (tx : DecryptedTransaction)
    → IsWord tx.value
    → value tx.gas_price < u64_mod
    → tx.gas_limit * value tx.gas_price < u64_mod
    → full_cost tx < 2 ^ 256
    → value (total_cost tx) ≡ full_cost tx
unfolding calculate_gas_cost
total_cost_lem tx words price_fits gas_fits fits =
    let low : value tx.gas_price ≡ tx.gas_price.l0 = omega arith in
    let product : tx.gas_limit * value tx.gas_price ≡ tx.gas_limit * tx.gas_price.l0 =
      ap (λ (t : ℕ). tx.gas_limit * t) low in
    let cost : IsWord (calculate_gas_cost tx) = record {
      w0 = omega arith;
      w1 = omega arith;
      w2 = omega arith;
      w3 = omega arith;
    } in
    rw (value-wrapping_add tx.value (calculate_gas_cost tx) words cost) (omega (arith, product))

module _ (keccak256 : List ℕ → ℕ) (display : VmError → List ℕ) {Tree : Type 0} (vm : RytherVm)
    (tx : DecryptedTransaction) (state : MultiVersionState Tree) (block : BlockContext) where
  abbrev before : Effects Tree
  before = record {
    state = state;
    read_set = checked_reads state tx.from tx.sequence_number;
    write_set = new_write_set;
  }

  -- The result of a transaction that is refused.
  abbrev pub refusal : VmError → MultiVersionState Tree × ExecutionResult
  refusal problem = (
    state,
    record {
      tx_seq = tx.sequence_number;
      status = failure;
      read_set = checked_reads state tx.from tx.sequence_number;
      write_set = new_write_set;
      gas_used = tx.gas_limit;
      logs = [];
      output = display problem;
    },
  )

  module _ (words : IsWord tx.value)
      (held : IsWord (balance_of state tx.from tx.sequence_number)) where
    -- A transaction whose nonce is not the sender's, or, if it is, whose sender holds less than the
    -- value and the gas limit times the gas price, is refused: the state is as before, nothing is
    -- written, the whole gas limit is used, the text of the error is the output, and the two reads
    -- of the sender's balance and nonce are recorded. The value and the sender's balance have 64-bit
    -- limbs, the price and the price of all the gas fit in 64 bits, where the code's products do not
    -- wrap around, and the whole cost fits in 256 bits.
    pub execute-refuses :
        value tx.gas_price < u64_mod
        → tx.gas_limit * value tx.gas_price < u64_mod
        → value tx.value + tx.gas_limit * value tx.gas_price < 2 ^ 256
        → (nonce_of state tx.from tx.sequence_number ≢ tx.nonce)
          ⊎ (value (balance_of state tx.from tx.sequence_number)
              < value tx.value + tx.gas_limit * value tx.gas_price)
        → execute keccak256 display vm tx state block ≡ (
            if eqb (nonce_of state tx.from tx.sequence_number) tx.nonce
            then refusal insufficient_balance
            else refusal (invalid_nonce (nonce_of state tx.from tx.sequence_number) tx.nonce))
    unfolding execute execute_inner read_balance read_nonce read_slot read_tracked to_result
    execute-refuses price_fits gas_fits fits wrong =
        let cost = total_cost_lem tx words price_fits gas_fits fits in
        elim (Bool-cases (eqb (nonce_of state tx.from tx.sequence_number) tx.nonce)) [
          | inl same ↦ elim wrong [
            | inl differs ↦ absurd (differs ((eqb_iff _ _).0 same))
            | inr poor ↦
                rw
                  (
                    same,
                    is_below-lt _ _ held (total_cost-IsWord tx words) (omega (arith, cost, poor)),
                  )
                  refl
          ]
          | inr differs ↦ rw (differs) refl
        ]

    -- And otherwise it runs.
    pub execute-runs :
        nonce_of state tx.from tx.sequence_number ≡ tx.nonce
        → value (total_cost tx) ≤ value (balance_of state tx.from tx.sequence_number)
        → execute keccak256 display vm tx state block
          ≡ to_result display tx (
              run_transaction keccak256 vm tx block
                (balance_of state tx.from tx.sequence_number)
                (nonce_of state tx.from tx.sequence_number)
                before)
    unfolding execute execute_inner read_balance read_nonce read_slot read_tracked
    execute-runs same enough =
        rw ((eqb_iff _ _).1 same, is_below-le _ _ held (total_cost-IsWord tx words) enough) refl
