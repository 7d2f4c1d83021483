-- ===== src/Tests/Execution.antt =====
-- The theorems about execution/ at concrete inputs.
use native.Mathlib.Omega.{arith}
use mathlib.Core.List.{Perm}
use ryther_core.Base.{ℕ, ◌≡◌, refl, Option, none, some, List, [], ◌∷◌, ◌++◌, map, All, u64_max}
use ryther_core.Dict
use ryther_core.Sort.{StrictAscending}
use ryther_core.Types.Uint.{U256, StateKey, from_u64, key_eq}
use ryther_core.Types.State.{committed, new_write_set, ExecutionResult, success}
use ryther_core.Execution.Mvcc.{
  MultiVersionState, get_base, read, write, abort_write_set, finalize, mvcc_key_count,
}
use ryther_core.Execution.Mvcc.Abort.{run_writes, aborted_transaction_invisible}
use ryther_core.Execution.Mvcc.Finalize.{read-finalize, finalize_publishes_pending}
use ryther_core.Execution.Conflict.{validate_batch, seq_of}
use ryther_core.Execution.Conflict.Stale.{IsSerial, IsBlocked}
use ryther_core.Execution.Conflict.Serial.{validate_batch-IsSerial}

abbrev pub slot : ℕ → StateKey
slot n = record { address = 7; slot = from_u64 n }

-- One key has a committed version, another a base value; the tree is a list of entries.
abbrev pub Entries : Type 0
Entries = List (StateKey × U256)

abbrev put : Entries → StateKey → U256 → Entries
put entries key value = (key, value) ∷ entries

abbrev pub state : MultiVersionState Entries
state = record {
  chains =
      (
        slot 1,
        record {
          versions =
              record { tx_sequence = 2; value = some (from_u64 20); status = committed } ∷ [];
        },
      )
      ∷ [];
  base_state = (slot 2, from_u64 5) ∷ [];
  jmt = [];
}

abbrev writes : List (StateKey × Option U256)
writes = (slot 1, some (from_u64 30)) ∷ (slot 2, none) ∷ []

aborted_transaction_invisible_example :
    let after = run_writes state new_write_set 3 writes in
    read (abort_write_set after.0 3 after.1) (slot 1) 6 ≡ read state (slot 1) 6
unfolding Dict.get key_eq
aborted_transaction_invisible_example =
    aborted_transaction_invisible state 3 writes (slot 1) 6 (refl, (refl, tt)) (tt, tt)
      (omega arith, tt)

read-finalize_example :
    (read (finalize put state) (slot 1) 9 ≡ ((read state (slot 1) u64_max).0, 0))
    × (mvcc_key_count (finalize put state) ≡ 0)
unfolding Dict.get key_eq
read-finalize_example = read-finalize put state (slot 1) 9 (refl, tt)

finalize_publishes_pending_example :
    get_base (finalize put (write state (slot 2) 3 (some (from_u64 6)))) (slot 2)
    ≡ some (from_u64 6)
unfolding Dict.get key_eq
finalize_publishes_pending_example =
    finalize_publishes_pending put state (slot 2) 3 (from_u64 6) (refl, tt) refl (omega arith)

abbrev pub result_of :
    ℕ → List (StateKey × (Option U256 × ℕ)) → List (StateKey × Option U256) → ExecutionResult
result_of q reads writes = record {
  tx_seq = q;
  status = success;
  read_set = record { reads = reads };
  write_set = record { writes = writes };
  gas_used = 21000;
  logs = [];
  output = [];
}

-- Transaction 2 read the slot that transaction 1 writes, before it was written.
abbrev results : List ExecutionResult
results =
    result_of 2 ((slot 1, (none, 0)) ∷ []) ((slot 2, none) ∷ [])
    ∷ result_of 1 [] ((slot 1, some (from_u64 1)) ∷ [])
    ∷ result_of 3 ((slot 2, (none, 0)) ∷ []) []
    ∷ []

validate_batch-IsSerial_example :
    (cs : List ExecutionResult) × (as' : List ExecutionResult) × (validate_batch results
      ≡ record { committed = map seq_of cs; aborted = map seq_of as' })
    × Perm (cs ++ as') results
    × StrictAscending seq_of cs
    × IsSerial [] cs
    × All (IsBlocked cs) as'
validate_batch-IsSerial_example =
    validate_batch-IsSerial results
      ((omega arith, (omega arith, tt)), ((omega arith, tt), (tt, tt)))
