-- ===== src/Execution/Executor.antt =====
-- execution/executor.rs. The virtual machine is a parameter: a function of the transaction, the
-- state and the block, which may write to the state. The source runs the transactions of an attempt
-- one after the other.
pub mod Outcome
use ryther_core.Base.{
  ℕ, zero, suc, Bool, true, false, Option, none, some, List, [], ◌∷◌, nat_eq, if◌then◌else◌, eqb,
  length,
}
use ryther_core.Dict
use ryther_core.Sort.{sort_by_key}
use ryther_core.Types.State.{ExecutionResult}
use ryther_core.Types.Transaction.{DecryptedTransaction}
use ryther_core.Types.Event.{identity}
use ryther_core.Execution.Mvcc.{MultiVersionState, commit_write_set, abort_write_set}
use ryther_core.Execution.Conflict.{ValidationResult, validate_batch, seq_of}

pub record ExecutorConfig : Type 0 where
  pub worker_threads : ℕ
  pub max_retries : ℕ

-- The map from sequence numbers to transactions.
unfoldable pub by_number :
    List DecryptedTransaction → List (ℕ × DecryptedTransaction) → List (ℕ × DecryptedTransaction)
by_number [] m = m
by_number (tx ∷ txs) m = by_number txs (Dict.insert tx.sequence_number tx m)

unfoldable pub store_results :
    List ExecutionResult → List (ℕ × ExecutionResult) → List (ℕ × ExecutionResult)
store_results [] results = results
store_results (r ∷ rs) results = store_results rs (Dict.insert r.tx_seq r results)

-- What the loop of `execute_batch` changes.
pub record Batch (Tree : Type 0) : Type 0 where
  pub state : MultiVersionState Tree
  pub results : List (ℕ × ExecutionResult)
  pub pending : List ℕ

module _ {Tree : Type 0} where
  abbrev pub commit_one :
      ℕ → Option ExecutionResult → MultiVersionState Tree → MultiVersionState Tree
  commit_one seq none state = state
  commit_one seq (some result) state = commit_write_set state seq result.write_set

  unfoldable pub commit_all :
      List ℕ → List (ℕ × ExecutionResult) → MultiVersionState Tree → MultiVersionState Tree
  commit_all [] results state = state
  commit_all (seq ∷ seqs) results state =
      commit_all seqs results (commit_one seq (Dict.get seq results) state)

  abbrev pub abort_one :
      ℕ → Option ExecutionResult → MultiVersionState Tree → MultiVersionState Tree
  abort_one seq none state = state
  abort_one seq (some result) state = abort_write_set state seq result.write_set

  unfoldable pub abort_all :
      List ℕ
      → List (ℕ × ExecutionResult)
      → MultiVersionState Tree
      → MultiVersionState Tree × List (ℕ × ExecutionResult)
  abort_all [] results state = (state, results)
  abort_all (seq ∷ seqs) results state =
      abort_all seqs (Dict.remove seq results) (abort_one seq (Dict.get seq results) state)

  module _ {Block : Type 0}
      (vm : DecryptedTransaction
        → MultiVersionState Tree
        → Block
        → MultiVersionState Tree × ExecutionResult)
      (block : Block) (tx_map : List (ℕ × DecryptedTransaction)) where
    unfoldable pub execute_single :
        DecryptedTransaction → MultiVersionState Tree → MultiVersionState Tree × ExecutionResult
    execute_single tx state = vm tx state block

    -- One transaction of the batch, if the map holds it, in front of the rest.
    abbrev pub execute_one :
        Option DecryptedTransaction
        → MultiVersionState Tree
        → (MultiVersionState Tree → MultiVersionState Tree × List ExecutionResult)
        → MultiVersionState Tree × List ExecutionResult
    execute_one none state rest = rest state
    execute_one (some tx) state rest =
        let ran = vm tx state block in let others = rest ran.0 in (others.0, ran.1 ∷ others.1)

    unfoldable pub execute_parallel :
        List ℕ → MultiVersionState Tree → MultiVersionState Tree × List ExecutionResult
    execute_parallel [] state = (state, [])
    execute_parallel (seq ∷ sequences) state =
        execute_one (Dict.get seq tx_map) state (execute_parallel sequences)

    -- One round of the loop.
    unfoldable pub attempt : Batch Tree → Batch Tree
    unfolding execute_parallel
    attempt b =
        let ran = execute_parallel b.pending b.state in
        let results = store_results ran.1 b.results in
        let validation = validate_batch (Dict.values results) in
        let done = commit_all validation.committed results ran.0 in
        let undone = abort_all validation.aborted results done in
        record { state = undone.0; results = undone.1; pending = validation.aborted }

    abbrev pub is_done : List ℕ → Bool
    is_done [] = true
    is_done (seq ∷ seqs) = false

    -- The loop over the attempts that are left.
    unfoldable pub attempts : ℕ → Batch Tree → Batch Tree
    unfolding attempt
    attempts zero b = b
    attempts (suc left) b =
        let next = attempts left (attempt b) in if is_done b.pending then b else next

  unfoldable pub execute_batch :
      {Block : Type 0}
      → (DecryptedTransaction
          → MultiVersionState Tree
          → Block
          → MultiVersionState Tree × ExecutionResult)
      → ExecutorConfig
      → MultiVersionState Tree
      → List DecryptedTransaction
      → Block
      → MultiVersionState Tree × List ExecutionResult
  unfolding attempts
  execute_batch vm config state [] block = (state, [])
  execute_batch vm config state (tx ∷ txs) block =
      let tx_map = by_number (tx ∷ txs) [] in
      let pending = sort_by_key identity (Dict.keys tx_map) in
      let b =
        attempts vm block tx_map (suc config.max_retries)
          (record { state = state; results = []; pending = pending }) in
      (b.state, sort_by_key seq_of (Dict.values b.results))
