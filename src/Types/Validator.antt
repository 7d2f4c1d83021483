-- ===== src/Types/Validator.antt =====
-- types/validator.rs. A public key or an address is the number of its bytes, big end first, which
-- has the same equality and order. Stakes are `u64` and wrap around.
pub mod Stakes
pub mod Quorum
pub mod Tracker
use ryther_core.Base.{
  ℕ, ◌+◌, ◌/◌, ◌-◌, Bool, true, false, ◌&&◌, not, Option, none, some, List, [], ◌∷◌, map,
  if◌then◌else◌, leb, eqb, length, add64, sub64, mul64, nat_eq,
}
use ryther_core.Dict.{get, contains_key, insert, remove, add as set_insert}
use ryther_core.Dict

pub record ValidatorData : Type 0 where
  pub stake : ℕ
  pub address : ℕ

pub record ValidatorSet : Type 0 where
  pub validators : List (ℕ × ValidatorData)
  pub total_stake : ℕ

unfoldable pub new : ValidatorSet
new = record { validators = []; total_stake = 0 }

-- The total after an insertion that replaced `existing`, if any.
unfoldable pub total_after : ℕ → ℕ → Option ValidatorData → ℕ
total_after total stake (some existing) = add64 (sub64 total existing.stake) stake
total_after total stake none = add64 total stake

unfoldable pub add : ValidatorSet → ℕ → ℕ → ℕ → ValidatorSet
unfolding total_after
add s id stake address = if eqb stake 0 then s else record {
  validators = insert id (record { stake = stake; address = address }) s.validators;
  total_stake = total_after s.total_stake stake (get id s.validators);
}

unfoldable pub add_all : ValidatorSet → List (ℕ × ℕ × ℕ) → ValidatorSet
add_all s [] = s
add_all s ((id, stake, address) ∷ rest) = add_all (add s id stake address) rest

unfoldable pub from_validators : List (ℕ × ℕ × ℕ) → ValidatorSet
unfolding add_all new
from_validators validators = add_all new validators

unfoldable pub remove_found : ValidatorSet → ℕ → Option ValidatorData → ValidatorSet × Option ℕ
remove_found s id none = (s, none)
remove_found s id (some found) = (
  record { validators = remove id s.validators; total_stake = sub64 s.total_stake found.stake },
  some found.stake,
)

unfoldable pub remove_validator : ValidatorSet → ℕ → ValidatorSet × Option ℕ
unfolding remove_found
remove_validator s id = remove_found s id (get id s.validators)

unfoldable pub contains : ValidatorSet → ℕ → Bool
contains s id = contains_key id s.validators

abbrev pub stake_of : Option ValidatorData → Option ℕ
stake_of none = none
stake_of (some found) = some found.stake

abbrev pub address_of : Option ValidatorData → Option ℕ
address_of none = none
address_of (some found) = some found.address

unfoldable pub stake : ValidatorSet → ℕ → Option ℕ
stake s id = stake_of (get id s.validators)

unfoldable pub get_address : ValidatorSet → ℕ → Option ℕ
get_address s id = address_of (get id s.validators)

unfoldable pub len : ValidatorSet → ℕ
len s = length s.validators

unfoldable pub is_empty : ValidatorSet → Bool
is_empty s = eqb (length s.validators) 0

-- `iter`: the pairs of a validator and its stake.
unfoldable pub iter : ValidatorSet → List (ℕ × ℕ)
iter s = map (λ e. (e.0, e.1.stake)) s.validators

unfoldable pub validator_ids : ValidatorSet → List ℕ
validator_ids s = Dict.keys s.validators

unfoldable pub quorum_threshold : ValidatorSet → ℕ
quorum_threshold s = add64 (mul64 s.total_stake 2 / 3) 1

unfoldable pub fault_threshold : ValidatorSet → ℕ
fault_threshold s = s.total_stake / 3

abbrev pub or_zero : Option ℕ → ℕ
or_zero none = 0
or_zero (some n) = n

-- `filter_map(stake).sum()` over a set of voters.
unfoldable pub stake_for : ValidatorSet → List ℕ → ℕ
unfolding stake
stake_for s [] = 0
stake_for s (v ∷ voters) = add64 (or_zero (stake s v)) (stake_for s voters)

unfoldable pub has_quorum : ValidatorSet → List ℕ → Bool
has_quorum s voters = leb (quorum_threshold s) (stake_for s voters)

pub record QuorumTracker : Type 0 where
  pub target : ℕ
  pub supporters : List ℕ
  pub validator_set : ValidatorSet

unfoldable pub new_tracker : ℕ → ValidatorSet → QuorumTracker
new_tracker target s = record { target = target; supporters = []; validator_set = s }

unfoldable pub reached : QuorumTracker → Bool
reached t = has_quorum t.validator_set t.supporters

unfoldable pub add_support : QuorumTracker → ℕ → QuorumTracker × Bool
unfolding reached
add_support t validator =
    let t' : QuorumTracker = record t { supporters = set_insert validator t.supporters } in
    (t', not (reached t) && reached t')

unfoldable pub current_stake : QuorumTracker → ℕ
current_stake t = stake_for t.validator_set t.supporters

-- `saturating_sub` is subtraction on ℕ.
unfoldable pub stake_needed : QuorumTracker → ℕ
unfolding current_stake
stake_needed t = quorum_threshold t.validator_set - current_stake t

unfoldable pub supporter_count : QuorumTracker → ℕ
supporter_count t = length t.supporters
