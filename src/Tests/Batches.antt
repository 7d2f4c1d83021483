-- ===== src/Tests/Batches.antt =====
-- The theorems about batches, events and the executor at concrete inputs.
use native.Mathlib.Omega.{arith}
use ryther_core.Base.{ℕ, ◌≡◌, refl, none, some, [], ◌∷◌}
use ryther_core.Sort.{StrictAscending}
use ryther_core.Types.Uint.{from_u64}
use ryther_core.Types.State.{ExecutionResult}
use ryther_core.Types.Event.{EventBuilder, new_builder, add_strong_parent}
use ryther_core.Types.Event.Build.{with_parents}
use ryther_core.Types.Transaction.{EncryptedTransaction, DecryptedTransaction, compute_merkle_root}
use ryther_core.Types.Transaction.Batch.{compute_merkle_root_duplicate}
use ryther_core.Execution.Mvcc.{MultiVersionState, write}
use ryther_core.Execution.Conflict.{seq_of}
use ryther_core.Execution.Executor.{execute_batch}
use ryther_core.Execution.Executor.Outcome.{IsConsistent, execute_batch-IsConsistent}
use ryther_core.Tests.Consensus.{sha256}
use ryther_core.Tests.Execution.{slot, Entries, state, result_of}

abbrev pub encrypted : ℕ → EncryptedTransaction
encrypted commitment = record {
  ciphertext = [];
  capsule = record { ephemeral_pubkey = []; encrypted_shares = [] };
  commitment = commitment;
}

compute_merkle_root_duplicate_example :
    compute_merkle_root sha256 (encrypted 5 ∷ encrypted 6 ∷ encrypted 7 ∷ [])
    ≡ compute_merkle_root sha256 (encrypted 5 ∷ encrypted 6 ∷ encrypted 7 ∷ encrypted 7 ∷ [])
compute_merkle_root_duplicate_example =
    compute_merkle_root_duplicate sha256 1 (encrypted 5 ∷ encrypted 6 ∷ []) (encrypted 7) refl
      (omega arith)

abbrev transfer : ℕ → ℕ → DecryptedTransaction
transfer nonce number = record {
  from = 1;
  recipient = some 2;
  value = from_u64 3;
  gas_limit = 21000;
  gas_price = from_u64 1;
  nonce = nonce;
  calldata = [];
  source_commitment = 0;
  sequence_number = number;
}

-- A machine that writes one slot and says that it read another at its base version.
abbrev machine :
    DecryptedTransaction
    → MultiVersionState Entries
    → ℕ
    → MultiVersionState Entries × ExecutionResult
machine tx s block = (
  write s (slot tx.nonce) tx.sequence_number (some tx.value),
  result_of tx.sequence_number ((slot 0, (none, 0)) ∷ []) ((slot tx.nonce, some tx.value) ∷ []),
)

execute_batch-IsConsistent_example :
    let returned =
      (execute_batch machine
        (record { worker_threads = 4; max_retries = 3 })
        state
        (transfer 1 8 ∷ transfer 0 7 ∷ [])
        5).1 in
    StrictAscending seq_of returned × IsConsistent returned
execute_batch-IsConsistent_example =
    execute_batch-IsConsistent machine 5 (record { worker_threads = 4; max_retries = 3 }) state
      (transfer 1 8 ∷ transfer 0 7 ∷ [])

-- Three strong parents with their Lamport times.
abbrev ready : EventBuilder
ready = with_parents (add_strong_parent (new_builder 7) 11 4) ((12, 6) ∷ (13, 5) ∷ [])
