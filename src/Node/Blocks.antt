-- ===== src/Node/Blocks.antt =====
-- node/blocks.rs. Each method is one step; a shared block is its value.
pub mod Logs
pub mod Topics
pub mod Latest
use ryther_core.Base.{
  ℕ, zero, suc, ◌+◌, ◌-◌, Bool, true, false, ◌&&◌, Option, none, some, List, [], ◌∷◌, ◌++◌,
  if◌then◌else◌, ltb, length, get_elem?, nat_eq,
}
use ryther_core.Dict
use ryther_core.Types.Block.{Block, Log, TransactionReceipt}

pub record BlockStore : Type 0 where
  pub by_number : List (ℕ × Block)
  pub by_hash : List (ℕ × Block)
  pub receipts : List (ℕ × TransactionReceipt)
  pub tx_to_block : List (ℕ × ℕ)
  pub logs_by_block : List (ℕ × List Log)
  pub latest : ℕ

unfoldable pub new : BlockStore
new = record {
  by_number = [];
  by_hash = [];
  receipts = [];
  tx_to_block = [];
  logs_by_block = [];
  latest = 0;
}

unfoldable pub map_transactions : ℕ → List ℕ → List (ℕ × ℕ) → List (ℕ × ℕ)
map_transactions number [] m = m
map_transactions number (tx ∷ txs) m = map_transactions number txs (Dict.insert tx number m)

unfoldable pub insert_block : BlockStore → Block → BlockStore
unfolding map_transactions
insert_block s block = record s {
  tx_to_block = map_transactions block.number block.transactions s.tx_to_block;
  by_number = Dict.insert block.number block s.by_number;
  by_hash = Dict.insert block.hash block s.by_hash;
  latest = if ltb s.latest block.number then block.number else s.latest;
}

unfoldable pub get_by_number : BlockStore → ℕ → Option Block
get_by_number s number = Dict.get number s.by_number

unfoldable pub get_by_hash : BlockStore → ℕ → Option Block
get_by_hash s hash = Dict.get hash s.by_hash

unfoldable pub latest_number : BlockStore → ℕ
latest_number s = s.latest

unfoldable pub latest_block : BlockStore → Option Block
unfolding get_by_number latest_number
latest_block s = get_by_number s (latest_number s)

abbrev pub or_empty : Option (List Log) → List Log
or_empty none = []
or_empty (some logs) = logs

unfoldable pub insert_receipt : BlockStore → ℕ → TransactionReceipt → BlockStore
insert_receipt s tx_hash receipt = record s {
  logs_by_block =
      Dict.insert receipt.block_number
        (or_empty (Dict.get receipt.block_number s.logs_by_block) ++ receipt.logs) s.logs_by_block;
  receipts = Dict.insert tx_hash receipt s.receipts;
}

unfoldable pub get_receipt : BlockStore → ℕ → Option TransactionReceipt
get_receipt s tx_hash = Dict.get tx_hash s.receipts

unfoldable pub get_tx_block : BlockStore → ℕ → Option ℕ
get_tx_block s tx_hash = Dict.get tx_hash s.tx_to_block

abbrev pub address_matches : Option (List ℕ) → Log → Bool
address_matches none log = true
address_matches (some addresses) log = Dict.contains log.address addresses

abbrev pub is_allowed : List ℕ → Option ℕ → Bool
is_allowed allowed none = false
is_allowed allowed (some topic) = Dict.contains topic allowed

-- The loop over the topic filters from position `i` on.
unfoldable pub match_topics : ℕ → List (Option (List ℕ)) → List ℕ → Bool
match_topics i [] topics = true
match_topics i (none ∷ filters) topics = match_topics (suc i) filters topics
match_topics i (some allowed ∷ filters) topics =
    is_allowed allowed (get_elem? topics i) && match_topics (suc i) filters topics

abbrev pub topics_match : Option (List (Option (List ℕ))) → Log → Bool
topics_match none log = true
topics_match (some filters) log = match_topics 0 filters log.topics

unfoldable pub filter_logs : Option (List ℕ) → Option (List (Option (List ℕ))) → List Log → List Log
unfolding match_topics
filter_logs addresses topics [] = []
filter_logs addresses topics (log ∷ logs) =
    let rest = filter_logs addresses topics logs in
    if address_matches addresses log && topics_match topics log then log ∷ rest else rest

-- The loop over `count` blocks from `number` on.
unfoldable pub collect_logs :
    BlockStore → Option (List ℕ) → Option (List (Option (List ℕ))) → ℕ → ℕ → List Log
unfolding filter_logs
collect_logs s addresses topics zero number = []
collect_logs s addresses topics (suc count) number =
    filter_logs addresses topics (or_empty (Dict.get number s.logs_by_block))
    ++ collect_logs s addresses topics count (suc number)

unfoldable pub get_logs :
    BlockStore → ℕ → ℕ → Option (List ℕ) → Option (List (Option (List ℕ))) → List Log
unfolding collect_logs
get_logs s from_block to_block addresses topics =
    collect_logs s addresses topics (suc to_block - from_block) from_block

unfoldable pub block_count : BlockStore → ℕ
block_count s = length s.by_number
