-- ===== src/Evm/Vm/Conserve.antt =====
-- evm/vm.rs: the sum of the balances that a call changes.
use ryther_core.Base.{
  ltb, ℕ, suc, refl, ◌∙◌, not, true, Bool, if◌then◌else◌, add64, nat_eq, ◌≡◌, ◌≢◌, ◌≤◌, ◌<◌, ◌+◌,
  ◌-◌, ◌*◌, ◌^◌, sym, ap, inl, inr, false, ◌&&◌, Option, some, List, arith, Bool-cases, sub64,
  u64_mod, ◌⊎◌,
}
use ryther_core.Dict
use ryther_core.Evm.Slots.{balance_key, nonce_key, or_zero_u256}
use ryther_core.Evm.Words.{add_u256, sub_u256}
use ryther_core.Evm.Words.Values.{sub_u256_lem, sub_u256-IsWord}
use ryther_core.Evm.Vm.{RytherVm, BlockContext, VmError, calculate_gas_cost, execute}
use ryther_core.Evm.Vm.Checks.{balance_of, nonce_of, total_cost, total_cost-IsWord}
use ryther_core.Evm.Vm.Call.{had, left_over, call_gas, fee, refund, execute-call_state}
use ryther_core.Evm.Vm.Balances.{IsNew, balance_keys_differ, nonce_is_no_balance, five_writes_reads}
use ryther_core.Execution.Mvcc.{MultiVersionState, read}
use ryther_core.Types.Transaction.{DecryptedTransaction}
use ryther_core.Types.Uint.{U256, key_eq, zero_u256, beq_u256, beq_u256_iff, from_u64, wrapping_add}
use ryther_core.Types.Uint.Arithmetic.{IsWord, value, value-wrapping_add}

-- Where no product overflows, the cost, the fee and the refund are what they should be.
module _ (tx : DecryptedTransaction) (gas : ℕ) (words : IsWord tx.value) (value1 : tx.value.l1 ≡ 0)
    (value2 : tx.value.l2 ≡ 0) (value3 : tx.value.l3 ≡ 0) (limit : tx.gas_limit < u64_mod)
    (cost_fits : tx.value.l0 + tx.gas_limit * tx.gas_price.l0 < u64_mod)
    (gas_fits : gas ≤ tx.gas_limit) where
  abbrev pub price : ℕ
  price = tx.gas_price.l0

  products : (tx.gas_limit - gas) * price + gas * price ≡ tx.gas_limit * price
  products =
      let whole : tx.gas_limit - gas + gas ≡ tx.gas_limit = omega arith in
      omega (arith, ap (λ (t : ℕ). t * price) whole)

  unused : sub64 tx.gas_limit gas ≡ tx.gas_limit - gas
  unused = omega arith

  total_cost_limb0 : (total_cost tx).l0 ≡ tx.value.l0 + tx.gas_limit * price
  unfolding wrapping_add calculate_gas_cost
  total_cost_limb0 = omega arith

  total_cost_within :
      (h : U256) → value tx.value + tx.gas_limit * price ≤ value h → value (total_cost tx) ≤ value h
  unfolding calculate_gas_cost
  total_cost_within h afford =
      let cost : IsWord (calculate_gas_cost tx) = record {
        w0 = omega arith;
        w1 = omega arith;
        w2 = omega arith;
        w3 = omega arith;
      } in
      rw (value-wrapping_add tx.value (calculate_gas_cost tx) words cost)
        (omega (arith, value1, value2, value3))

  value-fee : value (fee tx gas) ≡ gas * price
  value-fee = omega (arith, products)

  value-refund : value (refund tx gas) ≡ tx.gas_limit * price - gas * price
  value-refund = rw (unused) (omega (arith, products))

  from_u64-IsWord : (x : ℕ) → x < u64_mod → IsWord (from_u64 x)
  from_u64-IsWord x h = record { w0 = h; w1 = omega arith; w2 = omega arith; w3 = omega arith }

  payer_lem :
      (h : U256)
      → IsWord h
      → value (total_cost tx) ≤ value h
      → ((tx.value.l0 + tx.gas_limit * price ≤ h.l0) ⊎ (0 < h.l1))
      → value (add_u256 (sub_u256 h (total_cost tx)) (refund tx gas)) + tx.value.l0 + gas * price
        ≡ value h
  payer_lem h wh enough covered =
      let cost_word = total_cost-IsWord tx words in
      let paid = sub_u256_lem h (total_cost tx) wh cost_word in
      let borrowed : (ltb h.l0 (total_cost tx).l0 && ltb h.l1 1) ≡ false =
        ground (arith, total_cost_limb0) in
      let rest : value (sub_u256 h (total_cost tx)) ≡ value h - (total_cost tx).l0 =
        rw (borrowed) at paid in
      let sum =
        value-wrapping_add (sub_u256 h (total_cost tx)) (refund tx gas)
          (sub_u256-IsWord h (total_cost tx) wh cost_word) (from_u64-IsWord _ (omega arith)) in
      omega (arith, sum, rest, value-refund, total_cost_limb0, products)

  receiver_lem :
      (h : U256)
      → IsWord h
      → value h + tx.value.l0 < 2 ^ 256
      → value (add_u256 h tx.value) ≡ value h + tx.value.l0
  receiver_lem h wh room =
      rw (value-wrapping_add h tx.value wh words) (omega (arith, value1, value2, value3))

  producer_lem :
      (h : U256)
      → IsWord h
      → value h + gas * price < 2 ^ 256
      → value (add_u256 h (fee tx gas)) ≡ value h + gas * price
  producer_lem h wh room =
      rw (value-wrapping_add h (fee tx gas) wh (from_u64-IsWord _ (omega arith)), value-fee)
        (omega arith)

module _ (keccak256 : List ℕ → ℕ) (display : VmError → List ℕ) {Tree : Type 0} (vm : RytherVm)
    (tx : DecryptedTransaction) (state : MultiVersionState Tree) (block : BlockContext) where
  -- The balance of an account that the transaction reads, and the one that the transaction with the
  -- next number reads in the state that it leaves.
  abbrev pub held_by : ℕ → U256
  held_by addr = had keccak256 display vm tx state block addr

  abbrev pub after : ℕ → U256
  after addr =
      balance_of (execute keccak256 display vm tx state block).0 addr (suc tx.sequence_number)

  -- The three balances in the state after a call, as words.
  balances_after :
      (to : ℕ)
      → IsWord tx.value
      → IsWord (held_by tx.from)
      → nonce_of state tx.from tx.sequence_number ≡ tx.nonce
      → value (total_cost tx) ≤ value (held_by tx.from)
      → tx.recipient ≡ some to
      → (tx.from ≢ to) × (tx.from ≢ block.coinbase) × (to ≢ block.coinbase)
      → IsNew state tx.sequence_number (balance_key tx.from)
        × IsNew state tx.sequence_number (balance_key to)
        × IsNew state tx.sequence_number (balance_key block.coinbase)
      → let gas = call_gas tx (Dict.get to vm.code_storage) in
        (after tx.from ≡ add_u256 (sub_u256 (held_by tx.from) (total_cost tx)) (refund tx gas))
        × (after to
            ≡ (if beq_u256 tx.value zero_u256 then held_by to else add_u256 (held_by to) tx.value))
        × (after block.coinbase ≡ add_u256 (held_by block.coinbase) (fee tx gas))
  balances_after to words wa same enough e (ab, ac, bc) (new_from, new_to, new_producer) =
      let gas = call_gas tx (Dict.get to vm.code_storage) in
      let q = tx.sequence_number in
      let left = left_over keccak256 display vm tx state block in
      let reached =
        execute-call_state keccak256 display vm tx state block to words wa same enough e in
      let balance : ℕ → MultiVersionState Tree → U256 = λ addr s. balance_of s addr (suc q) in
      let word : Option U256 × ℕ → U256 = λ r. or_zero_u256 r.0 in
      let k = balance_keys_differ in
      let n = nonce_is_no_balance tx.from in
      let old = read state (balance_key to) q in
      let sum = add_u256 (held_by to) tx.value in
      let reads =
        five_writes_reads state q (not (beq_u256 tx.value zero_u256)) (balance_key tx.from)
          (nonce_key tx.from) (balance_key to) (balance_key block.coinbase) (some left)
          (some (from_u64 (add64 tx.nonce 1))) (some sum) (some (add_u256 left (refund tx gas)))
          (some (add_u256 (held_by block.coinbase) (fee tx gas))) (n tx.from) (n to)
          (n block.coinbase) (k tx.from to ab) (k tx.from block.coinbase ac)
          (k to tx.from (λ h. ab (sym h))) (k to block.coinbase bc)
          (k block.coinbase tx.from (λ h. ac (sym h))) (k block.coinbase to (λ h. bc (sym h)))
          new_from new_to new_producer in
      (
        ap (balance tx.from) reached ∙ ap word reads.0,
        ap (balance to) reached
            ∙ (ap word reads.1 ∙ word_if old (some sum, q) (beq_u256 tx.value zero_u256)),
        ap (balance block.coinbase) reached ∙ ap word reads.2,
      )
    where
      word_if :
          (old new : Option U256 × ℕ) (b : Bool)
          → or_zero_u256 (if◌then◌else◌ {A = Option U256 × ℕ} (not b) new old).0
            ≡ (if b then or_zero_u256 old.0 else or_zero_u256 new.0)
      word_if old new true = refl
      word_if old new false = refl

  -- A call between three different accounts, the sender, the recipient and the block's producer,
  -- moves the value to the recipient and the fee of the gas used to the producer, exactly: so the
  -- balances stand in the state that it leaves, as the transaction with the next number reads them.
  -- The value and the whole cost fit in 64 bits and the gas used is within the limit; the nonce is
  -- the sender's, the sender can pay, and the lowest limb of its balance covers the cost or limb 1
  -- is not zero; the balances have 64-bit limbs, and those that grow do not overflow. The price
  -- is the lowest limb of the gas price, the only one that the code reads. The version chains of
  -- the three balances are sorted without a repeated number, and have no version of the
  -- transaction's number yet.
  pub execute-Moves :
      (to : ℕ)
      → tx.recipient ≡ some to
      → (nonce_of state tx.from tx.sequence_number ≡ tx.nonce)
        × (value tx.value + tx.gas_limit * tx.gas_price.l0 ≤ value (held_by tx.from))
        × ((tx.value.l0 + tx.gas_limit * tx.gas_price.l0 ≤ (held_by tx.from).l0)
            ⊎ (0 < (held_by tx.from).l1))
      → (tx.from ≢ to) × (tx.from ≢ block.coinbase) × (to ≢ block.coinbase)
      → (tx.value.l1 ≡ 0) × (tx.value.l2 ≡ 0) × (tx.value.l3 ≡ 0)
      → (tx.gas_limit < u64_mod) × (tx.value.l0 + tx.gas_limit * tx.gas_price.l0 < u64_mod)
      → call_gas tx (Dict.get to vm.code_storage) ≤ tx.gas_limit
      → IsWord (held_by tx.from) × IsWord (held_by to) × IsWord (held_by block.coinbase)
      → (value (held_by to) + tx.value.l0 < 2 ^ 256)
        × (value (held_by block.coinbase)
              + call_gas tx (Dict.get to vm.code_storage) * tx.gas_price.l0
            < 2 ^ 256)
      → IsNew state tx.sequence_number (balance_key tx.from)
        × IsNew state tx.sequence_number (balance_key to)
        × IsNew state tx.sequence_number (balance_key block.coinbase)
      → let paid = call_gas tx (Dict.get to vm.code_storage) * tx.gas_price.l0 in
        (value (after tx.from) + tx.value.l0 + paid ≡ value (held_by tx.from))
        × (value (after to) ≡ value (held_by to) + tx.value.l0)
        × (value (after block.coinbase) ≡ value (held_by block.coinbase) + paid)
  execute-Moves to e (same, afford, covered) apart (v1, v2, v3) (limit, fits) within (wa, wb, wc)
        (room, room') new =
      let gas = call_gas tx (Dict.get to vm.code_storage) in
      let words : IsWord tx.value = record {
        w0 = omega arith;
        w1 = omega arith;
        w2 = omega arith;
        w3 = omega arith;
      } in
      let enough : value (total_cost tx) ≤ value (held_by tx.from) =
        total_cost_within tx gas words v1 v2 v3 limit fits within (held_by tx.from) afford in
      let (payer, receiver, producer) = balances_after to words wa same enough e apart new in
      (
        rw (payer)
            (payer_lem tx gas words v1 v2 v3 limit fits within (held_by tx.from) wa enough covered),
        elim (Bool-cases (beq_u256 tx.value zero_u256)) [
          | inl none_sent ↦
              let nothing : tx.value ≡ zero_u256 = (beq_u256_iff tx.value zero_u256).0 none_sent in
              let no_limb : tx.value.l0 ≡ 0 = ap (λ (u : U256). u.l0) nothing in
              rw (receiver, none_sent) (omega (arith, no_limb))
          | inr some_sent ↦
              rw (receiver, some_sent)
                (receiver_lem tx gas words v1 v2 v3 limit fits within (held_by to) wb room)
        ],
        rw (producer) (
            producer_lem tx gas words v1 v2 v3 limit fits within (held_by block.coinbase) wc room'),
      )
