-- ===== src/Types/Event.antt =====
-- types/event.rs. Identifiers and hashes are the numbers of their bytes, big end first; `sha256` is a
-- parameter.
pub mod Build
use ryther_core.Base.{
  ℕ, Bool, true, false, ◌&&◌, List, [], ◌∷◌, ◌++◌, if◌then◌else◌, eqb, maximum, add64,
}
use ryther_core.Bytes.{be_bytes, le_bytes}
use ryther_core.Sort.{sort_by_key}
use ryther_core.Types.Transaction.{EncryptedBatch, empty}

pub record DagEvent : Type 0 where
  pub id : ℕ
  pub creator : ℕ
  pub lamport_time : ℕ
  pub round : ℕ
  pub strong_parents : List ℕ
  pub weak_parents : List ℕ
  pub payload : EncryptedBatch
  pub signature : ℕ

abbrev pub identity : ℕ → ℕ
identity x = x

abbrev pub hash_bytes : List ℕ → List ℕ
hash_bytes [] = []
hash_bytes (h ∷ hashes) = be_bytes 32 h ++ hash_bytes hashes

unfoldable pub compute_id : (List ℕ → ℕ) → ℕ → ℕ → ℕ → List ℕ → ℕ
compute_id sha256 creator round payload_hash strong_parents = sha256 (
    be_bytes 48 creator
    ++ le_bytes 8 round
    ++ be_bytes 32 payload_hash
    ++ hash_bytes (sort_by_key identity strong_parents))

unfoldable pub signing_message : DagEvent → List ℕ
signing_message e =
    be_bytes 32 e.id
    ++ le_bytes 8 e.lamport_time
    ++ le_bytes 8 e.round
    ++ hash_bytes e.strong_parents
    ++ be_bytes 32 e.payload.batch_root

abbrev pub is_none_left : List ℕ → Bool
is_none_left [] = true
is_none_left (x ∷ xs) = false

unfoldable pub is_genesis : DagEvent → Bool
is_genesis e = is_none_left e.strong_parents && eqb e.round 0

pub data EventValidationError : Type 0 where
  invalid_genesis_timestamp no_parents zero_lamport_time zero_round : EventValidationError
  lamport_violation : ℕ → ℕ → EventValidationError
  missing_self_parent : EventValidationError
  missing_parent : ℕ → EventValidationError
  invalid_signature : EventValidationError

pub data Verdict : Type 0 where
  ok : Verdict
  err : EventValidationError → Verdict

unfoldable pub validate_structure : DagEvent → Verdict
unfolding is_genesis
validate_structure e =
    if is_genesis e
    then (if eqb e.lamport_time 0 then ok else err invalid_genesis_timestamp)
    else if is_none_left e.strong_parents
    then err no_parents
    else if eqb e.lamport_time 0
    then err zero_lamport_time
    else if eqb e.round 0
    then err zero_round
    else ok

pub record EventBuilder : Type 0 where
  pub creator : ℕ
  pub strong_parents : List ℕ
  pub weak_parents : List ℕ
  pub payload : EncryptedBatch
  pub parent_times : List ℕ

unfoldable pub new_builder : ℕ → EventBuilder
unfolding empty
new_builder creator = record {
  creator = creator;
  strong_parents = [];
  weak_parents = [];
  payload = empty;
  parent_times = [];
}

unfoldable pub add_strong_parent : EventBuilder → ℕ → ℕ → EventBuilder
add_strong_parent b id lamport_time = record b {
  strong_parents = b.strong_parents ++ id ∷ [];
  parent_times = b.parent_times ++ lamport_time ∷ [];
}

unfoldable pub add_weak_parent : EventBuilder → ℕ → EventBuilder
add_weak_parent b id = record b { weak_parents = b.weak_parents ++ id ∷ [] }

unfoldable pub with_payload : EventBuilder → EncryptedBatch → EventBuilder
with_payload b payload = record b { payload = payload }

unfoldable pub compute_round : List ℕ → ℕ
compute_round parent_rounds = add64 (maximum parent_rounds) 1

unfoldable pub build : (List ℕ → ℕ) → EventBuilder → List ℕ → DagEvent × List ℕ
unfolding compute_id compute_round signing_message
build sha256 b parent_rounds =
    let lamport_time = add64 (maximum b.parent_times) 1 in
    let round = compute_round parent_rounds in
    let event : DagEvent = record {
      id = compute_id sha256 b.creator round b.payload.batch_root b.strong_parents;
      creator = b.creator;
      lamport_time = lamport_time;
      round = round;
      strong_parents = b.strong_parents;
      weak_parents = b.weak_parents;
      payload = b.payload;
      signature = 0;
    } in
    (event, signing_message event)
