-- ===== src/Types/Block.antt =====
-- types/block.rs: blocks, receipts and logs. The bloom filter is the number of its bytes; `sha256` is
-- a parameter.
use ryther_core.Base.{
  ℕ, zero, suc, ◌+◌, ◌*◌, ◌/◌, ◌%◌, Bool, Option, List, [], ◌∷◌, ◌++◌, if◌then◌else◌, ltb, length,
  u64_mod,
}
use ryther_core.Bytes.{le_bytes, be_bytes}
use ryther_core.Types.Event.{hash_bytes}

pub record Block : Type 0 where
  pub number : ℕ
  pub hash : ℕ
  pub parent_hash : ℕ
  pub state_root : ℕ
  pub transactions_root : ℕ
  pub receipts_root : ℕ
  pub logs_bloom : ℕ
  pub miner : ℕ
  pub difficulty : ℕ
  pub total_difficulty : ℕ
  pub extra_data : List ℕ
  pub size : ℕ
  pub gas_limit : ℕ
  pub gas_used : ℕ
  pub timestamp : ℕ
  pub transactions : List ℕ
  pub uncles : List ℕ
  pub base_fee_per_gas : ℕ
  pub dag_events : List ℕ

pub record Log : Type 0 where
  pub address : ℕ
  pub topics : List ℕ
  pub payload : List ℕ
  pub block_number : ℕ
  pub transaction_hash : ℕ
  pub transaction_index : ℕ
  pub block_hash : ℕ
  pub log_index : ℕ
  pub removed : Bool

pub record TransactionReceipt : Type 0 where
  pub transaction_hash : ℕ
  pub transaction_index : ℕ
  pub block_hash : ℕ
  pub block_number : ℕ
  pub from : ℕ
  pub recipient : Option ℕ
  pub cumulative_gas_used : ℕ
  pub gas_used : ℕ
  pub contract_address : Option ℕ
  pub logs : List Log
  pub logs_bloom : ℕ
  pub status : ℕ
  pub effective_gas_price : ℕ
  pub tx_type : ℕ

-- The decimal digits of a `u64`, which has at most 20.
unfoldable pub digits : ℕ → ℕ → List ℕ → List ℕ
digits zero n acc = acc
digits (suc fuel) n acc =
    let rest = digits fuel (n / 10) ((48 + n % 10) ∷ acc) in
    if ltb n 10 then (48 + n % 10) ∷ acc else rest

-- "Ryther Genesis - Chain "
abbrev pub genesis_text : List ℕ
genesis_text =
    82 ∷ 121 ∷ 116 ∷ 104 ∷ 101 ∷ 114 ∷ 32 ∷ 71 ∷ 101 ∷ 110 ∷ 101 ∷ 115 ∷ 105 ∷ 115 ∷ 32 ∷ 45 ∷ 32
    ∷ 67 ∷ 104 ∷ 97 ∷ 105 ∷ 110 ∷ 32 ∷ []

unfoldable pub genesis : ℕ → Block
unfolding digits
genesis chain_id = record {
  number = 0;
  hash = 0;
  parent_hash = 0;
  state_root = 0;
  transactions_root = 0;
  receipts_root = 0;
  logs_bloom = 0;
  miner = 0;
  difficulty = 0;
  total_difficulty = 0;
  extra_data = genesis_text ++ digits 20 chain_id [];
  size = 0;
  gas_limit = 30000000;
  gas_used = 0;
  timestamp = 0;
  transactions = [];
  uncles = [];
  base_fee_per_gas = 1000000000;
  dag_events = [];
}

abbrev pub root_of : (List ℕ → ℕ) → List ℕ → ℕ
root_of sha256 [] = 0
root_of sha256 (tx ∷ txs) = sha256 (hash_bytes (tx ∷ txs))

unfoldable pub from_round : (List ℕ → ℕ) → ℕ → ℕ → ℕ → List ℕ → List ℕ → ℕ → ℕ → ℕ → Block
from_round sha256 number parent_hash state_root transactions dag_events leader gas_used timestamp =
    record {
      number = number;
      hash = sha256 (le_bytes 8 number ++ be_bytes 32 parent_hash ++ be_bytes 32 state_root);
      parent_hash = parent_hash;
      state_root = state_root;
      transactions_root = root_of sha256 transactions;
      receipts_root = 0;
      logs_bloom = 0;
      miner = leader;
      difficulty = 0;
      total_difficulty = 0;
      extra_data = [];
      size = length transactions * 32 % u64_mod;
      gas_limit = 30000000;
      gas_used = gas_used;
      timestamp = timestamp;
      transactions = transactions;
      uncles = [];
      base_fee_per_gas = 1000000000;
      dag_events = dag_events;
    }
