-- ===== src/Tests/Evm.antt =====
-- The theorems about evm/vm.rs at concrete inputs.
use native.Mathlib.Omega.{arith}
use ryther_core.Base.{
  ℕ, nat_eq, ◌+◌, ◌-◌, ◌*◌, ◌%◌, ◌^◌, ◌<◌, ◌≡◌, refl, inl, false, not, ◌&&◌, none, some, List, [],
  ◌∷◌, eqb, ltb, if◌then◌else◌, ◌==◌, u64_mod, add64,
}
use ryther_core.Bytes.{from_be_bytes as be_number}
use ryther_core.Dict
use ryther_core.Evm.Slots.{balance_key, nonce_key, code_hash_key, write_nonce}
use ryther_core.Evm.Words.{sub_u256, add_u256, compare_u256}
use ryther_core.Evm.Words.Values.{sub_u256_lem}
use ryther_core.Evm.Vm.{
  RytherVm, BlockContext, VmError, insufficient_balance, invalid_nonce, execute,
  compute_create_address, calculate_gas_cost,
}
use ryther_core.Evm.Vm.Checks.{nonce_of, refusal, execute-refuses}
use ryther_core.Evm.Vm.Call.{had, left_over, call_gas, fee, refund, execute-writes}
use ryther_core.Evm.Vm.Conserve.{held_by, after, execute-Moves}
use ryther_core.Evm.Vm.Recorded.{execute-Records}
use ryther_core.Evm.Vm.Creation.{code_hash, aborted_creation_survives}
use ryther_core.Execution.Mvcc.{
  MultiVersionState, read, read_tracked, write_tracked, abort_write_set,
}
use ryther_core.Types.State.{new_chain, success, record_write, new_write_set}
use ryther_core.Types.Transaction.{DecryptedTransaction}
use ryther_core.Types.Uint.{StateKey, key_eq, from_u64, zero_u256, beq_u256, wrapping_add}
use ryther_core.Types.Uint.Arithmetic.{IsWord, value}

abbrev hash : List ℕ → ℕ
hash bytes = be_number bytes % (2 ^ 255 - 19)

abbrev text : VmError → List ℕ
text (invalid_nonce expected got) = expected ∷ got ∷ []
text _ = []

abbrev state : MultiVersionState ℕ
state = record {
  chains = [];
  base_state = (balance_key 170, from_u64 1000000000000000000) ∷ [];
  jmt = 0;
}

abbrev block : BlockContext
block = record {
  number = 0;
  timestamp = 0;
  coinbase = 204;
  gas_limit = 30000000;
  base_fee = from_u64 1000000000;
  chain_id = 1;
}

abbrev vm : RytherVm
vm = record { chain_id = 1; code_storage = [] }

abbrev transfer : DecryptedTransaction
transfer = record {
  from = 170;
  recipient = some 187;
  value = from_u64 100000000000000000;
  gas_limit = 100000;
  gas_price = from_u64 1000000000;
  nonce = 0;
  calldata = [];
  source_commitment = 0;
  sequence_number = 1;
}

abbrev late_nonce : DecryptedTransaction
late_nonce = record transfer { nonce = 5 }

abbrev creation : DecryptedTransaction
creation = record transfer { recipient = none; value = zero_u256; calldata = 96 ∷ 0 ∷ [] }

small-IsWord : (x : ℕ) → x < u64_mod → IsWord (from_u64 x)
small-IsWord x h = record { w0 = h; w1 = omega arith; w2 = omega arith; w3 = omega arith }

execute-refuses_example : execute hash text vm late_nonce state block ≡ (
    if eqb (nonce_of state 170 1) 5
    then refusal hash text vm late_nonce state block insufficient_balance
    else refusal hash text vm late_nonce state block (invalid_nonce (nonce_of state 170 1) 5))
unfolding read Dict.get key_eq
execute-refuses_example =
    execute-refuses hash text vm late_nonce state block
      (small-IsWord 100000000000000000 (omega arith))
      (small-IsWord 1000000000000000000 (omega arith)) (omega arith) (omega arith) (omega arith)
      (inl (λ e. omega (arith, e)))

execute-writes_example :
    ((execute hash text vm transfer state block).1.status ≡ success)
    × ((execute hash text vm transfer state block).1.gas_used
        ≡ call_gas transfer (Dict.get 187 vm.code_storage))
    × ((key : StateKey)
        → Dict.get key (execute hash text vm transfer state block).1.write_set.writes ≡ (
            if balance_key 204 == key
            then some (
                some (
                  add_u256
                    (had hash text vm transfer state block 204)
                    (fee transfer (call_gas transfer (Dict.get 187 vm.code_storage)))))
            else (if balance_key 170 == key
                then some (
                    some (
                      add_u256
                        (left_over hash text vm transfer state block)
                        (refund transfer (call_gas transfer (Dict.get 187 vm.code_storage)))))
                else (if not (beq_u256 transfer.value zero_u256) && (balance_key 187 == key)
                    then some
                        (some (add_u256 (had hash text vm transfer state block 187) transfer.value))
                    else (if nonce_key 170 == key
                        then some (some (from_u64 (add64 0 1)))
                        else none)))))
unfolding read Dict.get key_eq wrapping_add calculate_gas_cost
execute-writes_example =
    execute-writes hash text vm transfer state block 187
      (small-IsWord 100000000000000000 (omega arith))
      (small-IsWord 1000000000000000000 (omega arith)) refl (omega arith) refl

execute-Moves_example :
    (value (after hash text vm transfer state block 170)
        + 100000000000000000
        + call_gas transfer (Dict.get 187 vm.code_storage) * 1000000000
      ≡ value (held_by hash text vm transfer state block 170))
    × (value (after hash text vm transfer state block 187)
        ≡ value (held_by hash text vm transfer state block 187) + 100000000000000000)
    × (value (after hash text vm transfer state block 204)
        ≡ value (held_by hash text vm transfer state block 204)
          + call_gas transfer (Dict.get 187 vm.code_storage) * 1000000000)
unfolding read Dict.get key_eq wrapping_add calculate_gas_cost new_chain
execute-Moves_example =
    execute-Moves hash text vm transfer state block 187 refl (refl, omega arith, inl (omega arith))
      ((λ e. omega (arith, e)), (λ e. omega (arith, e)), (λ e. omega (arith, e))) (refl, refl, refl)
      (omega arith, omega arith) (omega arith)
      (
        small-IsWord 1000000000000000000 (omega arith),
        small-IsWord 0 (omega arith),
        small-IsWord 0 (omega arith),
      )
      (omega arith, omega arith) ((tt, tt), (tt, tt), (tt, tt))

unwritten :
    Dict.contains_key (balance_key 9) (execute hash text vm transfer state block).1.write_set.writes
    ≡ false
unfolding execute Dict.contains_key Dict.get read_tracked key_eq compare_u256 wrapping_add
    calculate_gas_cost write_tracked record_write Dict.insert write_nonce new_write_set
unwritten = refl

execute-Records_example :
    Dict.get (balance_key 9) (execute hash text vm transfer state block).0.chains
    ≡ Dict.get (balance_key 9) state.chains
execute-Records_example =
    execute-Records hash text vm transfer state block (balance_key 9) (λ e. absurd (cc)) unwritten

aborted_creation_survives_example :
    read
      (abort_write_set
        (execute hash text vm creation state block).0
        1
        (execute hash text vm creation state block).1.write_set)
      (code_hash_key (compute_create_address hash 170 0))
      2
    ≡ (some (code_hash hash text vm creation state block), 1)
unfolding read Dict.get key_eq wrapping_add calculate_gas_cost
aborted_creation_survives_example =
    aborted_creation_survives hash text vm creation state block 2 (small-IsWord 0 (omega arith))
      (small-IsWord 1000000000000000000 (omega arith)) refl (omega arith) refl refl (omega arith)

sub_u256_example : value (sub_u256 (record { l0 = 1; l1 = 0; l2 = 1; l3 = 0 }) (from_u64 2)) ≡ (
    if ltb 1 2 && ltb 0 1
    then value (record { l0 = 1; l1 = 0; l2 = 1; l3 = 0 }) + 2 ^ 64 - 2
    else value (record { l0 = 1; l1 = 0; l2 = 1; l3 = 0 }) - 2)
sub_u256_example =
    sub_u256_lem (record { l0 = 1; l1 = 0; l2 = 1; l3 = 0 }) (from_u64 2)
      (record { w0 = omega arith; w1 = omega arith; w2 = omega arith; w3 = omega arith })
      (small-IsWord 2 (omega arith))
