-- ===== src/Evm/Vm.antt =====
-- evm/vm.rs: the execution of one transaction on the versioned state. `keccak256` and the text of an error (its derived `Display`) are parameters; arithmetic on `u64`
-- wraps around.
pub mod Checks
pub mod Call
pub mod Balances
pub mod Conserve
pub mod Recorded
pub mod Creation
use ryther_core.Base.{
  ℕ, ◌+◌, ◌%◌, ◌^◌, Bool, true, false, not, Option, none, some, List, [], ◌∷◌, ◌++◌, ltb, eqb,
  if◌then◌else◌, add64, sub64, mul64, min, length, nat_eq,
}
use ryther_core.Bytes.{be_bytes}
use ryther_core.Dict
use ryther_core.Execution.Mvcc.{MultiVersionState, write}
use ryther_core.Types.State.{
  new_read_set, new_write_set, Log, ExecutionResult, success, revert, failure,
}
use ryther_core.Types.Transaction.{DecryptedTransaction}
use ryther_core.Types.Uint.{U256, StateKey, zero_u256, from_u64, wrapping_add, u256_eq, beq_u256}
use ryther_core.Types.Uint as Uint
use ryther_core.Evm.Words.{u256_to_u64, add_u256, sub_u256, compare_u256, is_below}
use ryther_core.Evm.Slots.{
  code_hash_key, Effects, read_balance, read_nonce, write_balance, write_nonce,
}

pub data VmError : Type 0 where
  insufficient_balance : VmError
  invalid_nonce : ℕ → ℕ → VmError
  out_of_gas : VmError
  invalid_opcode : ℕ → VmError
  stack_underflow : VmError
  stack_overflow : VmError
  invalid_jump : VmError
  reverted : List ℕ → VmError
  internal_error : List ℕ → VmError

-- `Result<A, VmError>`
pub data Result (A : Type 0) : Type 0 where
  ok : A → Result A
  err : VmError → Result A

pub record VmResult : Type 0 where
  pub succeeded : Bool
  pub gas_used : ℕ
  pub output : List ℕ
  pub logs : List Log
  pub error : Option (List ℕ)

pub record BlockContext : Type 0 where
  pub number : ℕ
  pub timestamp : ℕ
  pub coinbase : ℕ
  pub gas_limit : ℕ
  pub base_fee : U256
  pub chain_id : ℕ

unfoldable pub default_block : BlockContext
default_block = record {
  number = 0;
  timestamp = 0;
  coinbase = 0;
  gas_limit = 30000000;
  base_fee = from_u64 1000000000;
  chain_id = 1;
}

pub record RytherVm : Type 0 where
  pub chain_id : ℕ
  pub code_storage : List (ℕ × List ℕ)

unfoldable pub new_vm : ℕ → RytherVm
new_vm chain_id = record { chain_id = chain_id; code_storage = [] }

unfoldable pub deploy_code : RytherVm → ℕ → List ℕ → RytherVm
deploy_code vm address code = record vm { code_storage = Dict.insert address code vm.code_storage }

unfoldable pub get_code : RytherVm → ℕ → Option (List ℕ)
get_code vm address = Dict.get address vm.code_storage

unfoldable pub calculate_gas_cost : DecryptedTransaction → U256
calculate_gas_cost tx = from_u64 (mul64 tx.gas_limit (u256_to_u64 tx.gas_price))

-- What a call or a creation returns: success, gas used, output and logs.
abbrev pub CallResult : Type 0
CallResult = Bool × ℕ × List ℕ × List Log

abbrev pub is_empty_code : List ℕ → Bool
is_empty_code [] = true
is_empty_code (b ∷ code) = false

-- The end of `execute_call`, for the code that stands at the address.
unfoldable pub call_code : DecryptedTransaction → Option (List ℕ) → Result CallResult
call_code tx none = ok (true, 21000, [], [])
call_code tx (some code) =
    if not (is_empty_code code)
    then ok (true, min (add64 21000 (mul64 (length tx.calldata) 16)) tx.gas_limit, [], [])
    else ok (true, 21000, [], [])

module _ {Tree : Type 0} where
  unfoldable pub transfer_value : DecryptedTransaction → ℕ → Effects Tree → Effects Tree
  unfolding read_balance write_balance
  transfer_value tx to e =
      if not (beq_u256 tx.value zero_u256)
      then (let (e', to_balance) = read_balance to tx.sequence_number e in
          write_balance to tx.sequence_number (add_u256 to_balance tx.value) e')
      else e

  unfoldable pub execute_call :
      RytherVm → DecryptedTransaction → ℕ → Effects Tree → Effects Tree × Result CallResult
  unfolding call_code transfer_value
  execute_call vm tx to e = (transfer_value tx to e, call_code tx (Dict.get to vm.code_storage))

-- `&nonce_bytes[leading_zeros..]`: the bytes from the first that is not 0.
unfoldable pub without_leading_zeros : List ℕ → List ℕ
without_leading_zeros [] = []
without_leading_zeros (b ∷ bytes) = if eqb b 0 then without_leading_zeros bytes else b ∷ bytes

unfoldable pub rlp_nonce : ℕ → List ℕ
unfolding without_leading_zeros
rlp_nonce nonce =
    let nonce_bytes = without_leading_zeros (be_bytes 8 nonce) in
    if eqb nonce 0
    then 0x80 ∷ []
    else (if ltb nonce 128 then nonce ∷ [] else (0x80 + length nonce_bytes) ∷ nonce_bytes)

module _ {Tree : Type 0} where
  -- The end of `execute_inner`: the refund and the fee of the block's producer.
  unfoldable pub settle :
      DecryptedTransaction
      → BlockContext
      → U256
      → Effects Tree × Result CallResult
      → Effects Tree × Result VmResult
  unfolding write_balance read_balance
  settle tx block new_sender_balance (e, err problem) = (e, err problem)
  settle tx block new_sender_balance (e, ok (succeeded, gas_used, output, logs)) =
      let gas_refund = mul64 (sub64 tx.gas_limit gas_used) (u256_to_u64 tx.gas_price) in
      let final_balance = add_u256 new_sender_balance (from_u64 gas_refund) in
      let e1 = write_balance tx.from tx.sequence_number final_balance e in
      let (e2, coinbase_balance) = read_balance block.coinbase tx.sequence_number e1 in
      let coinbase_fee = from_u64 (mul64 gas_used (u256_to_u64 tx.gas_price)) in
      let e3 =
        write_balance block.coinbase tx.sequence_number (add_u256 coinbase_balance coinbase_fee)
          e2 in
      (
        e3,
        ok (record {
          succeeded = succeeded;
          gas_used = gas_used;
          output = output;
          logs = logs;
          error = none;
        }),
      )

module _ (keccak256 : List ℕ → ℕ) where
  -- The last 20 of the 32 bytes of the hash.
  unfoldable pub compute_create_address : ℕ → ℕ → ℕ
  unfolding rlp_nonce
  compute_create_address sender nonce =
      keccak256 (0xd6 ∷ 0x94 ∷ (be_bytes 20 sender ++ rlp_nonce nonce)) % 256 ^ 20

  module _ {Tree : Type 0} where
    unfoldable pub execute_create :
        DecryptedTransaction → Effects Tree → Effects Tree × Result CallResult
    unfolding compute_create_address write_balance
    execute_create tx e =
        let contract_address = compute_create_address tx.from tx.nonce in
        let e1 =
          if not (beq_u256 tx.value zero_u256)
          then write_balance contract_address tx.sequence_number tx.value e
          else e in
        let state2 =
          write e1.state (code_hash_key contract_address) tx.sequence_number
            (some (Uint.from_be_bytes (be_bytes 32 (keccak256 tx.calldata)))) in
        (
          record e1 { state = state2 },
          ok (
            true,
            min (add64 32000 (mul64 (length tx.calldata) 200)) tx.gas_limit,
            be_bytes 20 contract_address,
            [],
          ),
        )

    -- `execute_inner` once the sender's balance and nonce have been read.
    unfoldable pub run_transaction :
        RytherVm
        → DecryptedTransaction
        → BlockContext
        → U256
        → ℕ
        → Effects Tree
        → Effects Tree × Result VmResult
    unfolding execute_call execute_create settle
    run_transaction vm tx block sender_balance sender_nonce e =
        let total_cost = add_u256 tx.value (calculate_gas_cost tx) in
        let new_sender_balance = sub_u256 sender_balance total_cost in
        let e1 = write_balance tx.from tx.sequence_number new_sender_balance e in
        let e2 = write_nonce tx.from tx.sequence_number (add64 sender_nonce 1) e1 in
        settle tx block new_sender_balance
          (elim tx.recipient [ some to ↦ execute_call vm tx to e2 | none ↦ execute_create tx e2 ])

    unfoldable pub execute_inner :
        RytherVm
        → DecryptedTransaction
        → BlockContext
        → Effects Tree
        → Effects Tree × Result VmResult
    unfolding read_balance read_nonce run_transaction
    execute_inner vm tx block e =
        let (e1, sender_balance) = read_balance tx.from tx.sequence_number e in
        let (e2, sender_nonce) = read_nonce tx.from tx.sequence_number e1 in
        let total_cost = add_u256 tx.value (calculate_gas_cost tx) in
        if not (eqb sender_nonce tx.nonce)
        then (e2, err (invalid_nonce sender_nonce tx.nonce))
        else (if is_below (compare_u256 sender_balance total_cost)
            then (e2, err insufficient_balance)
            else run_transaction vm tx block sender_balance sender_nonce e2)

module _ (display : VmError → List ℕ) {Tree : Type 0} where
  unfoldable pub to_result :
      DecryptedTransaction
      → Effects Tree × Result VmResult
      → MultiVersionState Tree × ExecutionResult
  to_result tx (e, ok r) = (
    e.state,
    record {
      tx_seq = tx.sequence_number;
      status = if r.succeeded then success else revert;
      read_set = e.read_set;
      write_set = e.write_set;
      gas_used = r.gas_used;
      logs = r.logs;
      output = r.output;
    },
  )
  to_result tx (e, err problem) = (
    e.state,
    record {
      tx_seq = tx.sequence_number;
      status = failure;
      read_set = e.read_set;
      write_set = e.write_set;
      gas_used = tx.gas_limit;
      logs = [];
      output = display problem;
    },
  )

module _ (keccak256 : List ℕ → ℕ) (display : VmError → List ℕ) {Tree : Type 0} where
  unfoldable pub execute :
      RytherVm
      → DecryptedTransaction
      → MultiVersionState Tree
      → BlockContext
      → MultiVersionState Tree × ExecutionResult
  unfolding execute_inner to_result
  execute vm tx state block = to_result display tx (
      execute_inner keccak256 vm tx block
        (record { state = state; read_set = new_read_set; write_set = new_write_set }))
