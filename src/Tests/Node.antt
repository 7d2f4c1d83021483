-- ===== src/Tests/Node.antt =====
-- The theorems about node/ at concrete inputs.
use native.Mathlib.Omega.{arith}
use mathlib.Core.List.{Memᴰ}
use ryther_core.Base.{
  Option, List, ℕ, ◌≤◌, ◌≡◌, ◌↔◌, refl, false, none, some, [], ◌∷◌, nat_eq, pair_eq,
}
use ryther_core.Dict
use ryther_core.Types.Uint.{from_u64, u256_eq}
use ryther_core.Types.Block.{Log}
use ryther_core.Node.Mempool.{TransactionPool, new, add, refused, already_known}
use ryther_core.Node.Mempool.Pool.{IsPool, add-IsPool}
use ryther_core.Node.Mempool.Once.{removes, prunes, run, admitted_once}
use ryther_core.Node.Blocks.{
  BlockStore, insert_block, latest_block, latest_number, get_by_number, is_allowed, match_topics,
  get_logs,
}
use ryther_core.Node.Blocks
use ryther_core.Node.Blocks.Logs.{IsLogged, get_logs-Memᴰ}
use ryther_core.Node.Blocks.Topics.{HasAddress, HasTopics}
use ryther_core.Tests.Batches.{encrypted}

-- A pool of one transaction that is full.
abbrev full_pool : TransactionPool
full_pool = record {
  transactions =
      (
        5,
        record {
          transaction = encrypted 5;
          gas_price = from_u64 1;
          received_at = 0;
          broadcast_count = 0;
        },
      )
      ∷ [];
  by_price = ((from_u64 1, 5), 5) ∷ [];
  known = 5 ∷ [];
  max_size = 1;
  max_age_secs = 3600;
}

full_pool-IsPool : IsPool full_pool
unfolding Dict.get Dict.contains u256_eq
full_pool-IsPool = record {
  indexed = λ price c. ground arith;
  all_known = λ c tx h. ground (arith, h);
  bounded = omega arith;
}

add-IsPool_example : IsPool (add full_pool (encrypted 6) (from_u64 2) 9).0
add-IsPool_example = add-IsPool full_pool (encrypted 6) (from_u64 2) 9 full_pool-IsPool

admitted_once_example :
    let q = run (add (new 4) (encrypted 6) (from_u64 2) 9).0 (removes 6 ∷ prunes 99 ∷ []) in
    add q (encrypted 6) (from_u64 3) 100 ≡ (q, refused already_known)
unfolding add new Dict.contains
admitted_once_example =
    admitted_once (new 4) (encrypted 6) (encrypted 6) (from_u64 2) (from_u64 3) 9 100
      (removes 6 ∷ prunes 99 ∷ []) refl refl

abbrev log : Log
log = record {
  address = 7;
  topics = 2 ∷ 9 ∷ [];
  payload = [];
  block_number = 3;
  transaction_hash = 1;
  transaction_index = 0;
  block_hash = 4;
  log_index = 0;
  removed = false;
}

abbrev logged : BlockStore
logged = record Blocks.new { logs_by_block = (3, log ∷ []) ∷ [] }

-- Any topic first, and 5 or 9 in the second place.
abbrev wanted : List (Option (List ℕ))
wanted = none ∷ some (5 ∷ 9 ∷ []) ∷ []

get_logs-Memᴰ_example : Memᴰ log (get_logs logged 2 4 (some (7 ∷ [])) (some wanted)) ↔ (
    (n : ℕ) × (2 ≤ n)
    × (n ≤ 4)
    × IsLogged logged n log
    × HasAddress (some (7 ∷ [])) log
    × HasTopics (some wanted) log)
get_logs-Memᴰ_example = get_logs-Memᴰ (some (7 ∷ [])) (some wanted) logged 2 4 log
