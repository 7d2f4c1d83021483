-- ===== src/Types/Transaction.antt =====
-- types/transaction.rs. `sha256` and `keccak256` are parameters.
pub mod Batch
use ryther_core.Base.{
  ℕ, zero, suc, ◌+◌, Bool, true, false, Option, none, some, List, [], ◌∷◌, ◌++◌, map, eqb, length,
  add64,
}
use ryther_core.Bytes.{be_bytes, le_bytes}
use ryther_core.Types.Uint.{U256, to_be_bytes}

pub record ThresholdCapsule : Type 0 where
  pub ephemeral_pubkey : List ℕ
  pub encrypted_shares : List ℕ

pub record EncryptedTransaction : Type 0 where
  pub ciphertext : List ℕ
  pub capsule : ThresholdCapsule
  pub commitment : ℕ

pub record EncryptedBatch : Type 0 where
  pub transactions : List EncryptedTransaction
  pub batch_root : ℕ

unfoldable pub empty : EncryptedBatch
empty = record { transactions = []; batch_root = 0 }

-- The hash of a chunk of two, or of one that stands for both.
abbrev pub pair_hash : (List ℕ → ℕ) → ℕ → ℕ → ℕ
pair_hash sha256 a b = sha256 (be_bytes 32 a ++ be_bytes 32 b)

-- The loop over `layer.chunks(2)`.
unfoldable pub next_layer : (List ℕ → ℕ) → List ℕ → List ℕ
next_layer sha256 [] = []
next_layer sha256 (a ∷ []) = pair_hash sha256 a a ∷ []
next_layer sha256 (a ∷ b ∷ layer) = pair_hash sha256 a b ∷ next_layer sha256 layer

-- The loop over the layers, and the index `layer[0]` at its end: none when the fuel is used up, or
-- where the index of an empty layer would panic.
unfoldable pub reduce_layer : (List ℕ → ℕ) → ℕ → List ℕ → Option ℕ
unfolding next_layer
reduce_layer sha256 zero layer = none
reduce_layer sha256 (suc fuel) [] = none
reduce_layer sha256 (suc fuel) (root ∷ []) = some root
reduce_layer sha256 (suc fuel) (a ∷ b ∷ layer) =
    reduce_layer sha256 fuel (next_layer sha256 (a ∷ b ∷ layer))

-- The commitments' root, none if the loop did not end.
unfoldable pub root_of_layer : (List ℕ → ℕ) → List ℕ → Option ℕ
unfolding reduce_layer
root_of_layer sha256 [] = some 0
root_of_layer sha256 (commitment ∷ []) = some commitment
root_of_layer sha256 (a ∷ b ∷ layer) = reduce_layer sha256 (length (a ∷ b ∷ layer)) (a ∷ b ∷ layer)

abbrev pub commitment_of : EncryptedTransaction → ℕ
commitment_of tx = tx.commitment

abbrev pub or_zero_root : Option ℕ → ℕ
or_zero_root none = 0
or_zero_root (some root) = root

unfoldable pub compute_merkle_root : (List ℕ → ℕ) → List EncryptedTransaction → ℕ
unfolding root_of_layer
compute_merkle_root sha256 txs = or_zero_root (root_of_layer sha256 (map commitment_of txs))

unfoldable pub from_transactions : (List ℕ → ℕ) → List EncryptedTransaction → EncryptedBatch
unfolding compute_merkle_root
from_transactions sha256 txs = record {
  transactions = txs;
  batch_root = compute_merkle_root sha256 txs;
}

unfoldable pub batch_len : EncryptedBatch → ℕ
batch_len b = length b.transactions

unfoldable pub batch_is_empty : EncryptedBatch → Bool
batch_is_empty b = eqb (length b.transactions) 0

pub record DecryptedTransaction : Type 0 where
  pub from : ℕ
  pub recipient : Option ℕ
  pub value : U256
  pub gas_limit : ℕ
  pub gas_price : U256
  pub nonce : ℕ
  pub calldata : List ℕ
  pub source_commitment : ℕ
  pub sequence_number : ℕ

abbrev pub recipient_bytes : Option ℕ → List ℕ
recipient_bytes none = 0 ∷ []
recipient_bytes (some to) = 1 ∷ be_bytes 20 to

unfoldable pub compute_hash : (List ℕ → ℕ) → DecryptedTransaction → ℕ
compute_hash keccak256 tx = keccak256 (
    be_bytes 20 tx.from
    ++ recipient_bytes tx.recipient
    ++ to_be_bytes tx.value
    ++ le_bytes 8 tx.gas_limit
    ++ to_be_bytes tx.gas_price
    ++ le_bytes 8 tx.nonce
    ++ tx.calldata)

unfoldable pub verify_commitment : (List ℕ → ℕ) → DecryptedTransaction → Bool
unfolding compute_hash
verify_commitment keccak256 tx = eqb (compute_hash keccak256 tx) tx.source_commitment

abbrev pub is_none_recipient : Option ℕ → Bool
is_none_recipient none = true
is_none_recipient (some to) = false

unfoldable pub is_create : DecryptedTransaction → Bool
is_create tx = is_none_recipient tx.recipient

pub record OrderedBatch : Type 0 where
  pub transactions : List DecryptedTransaction
  pub start_sequence : ℕ
  pub round : ℕ

-- The loop over the transactions from position `i` on.
unfoldable pub assign : ℕ → ℕ → List DecryptedTransaction → List DecryptedTransaction
assign start i [] = []
assign start i (tx ∷ txs) = record tx { sequence_number = add64 start i } ∷ assign start (suc i) txs

unfoldable pub ordered : List DecryptedTransaction → ℕ → ℕ → OrderedBatch
unfolding assign
ordered txs start round = record {
  transactions = assign start 0 txs;
  start_sequence = start;
  round = round;
}

unfoldable pub end_sequence : OrderedBatch → ℕ
end_sequence b = add64 b.start_sequence (length b.transactions)
