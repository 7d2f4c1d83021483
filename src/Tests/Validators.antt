-- ===== src/Tests/Validators.antt =====
-- The theorems about types/validator.rs at concrete inputs.
use native.Mathlib.Omega.{arith}
use ryther_core.Base.{ℕ, ◌≡◌, refl, true, false, [], ◌∷◌, if◌then◌else◌, nat_eq}
use ryther_core.Dict
use ryther_core.Dict.{contains}
use ryther_core.Types.Validator.{
  ValidatorSet, ValidatorData, from_validators, has_quorum, stake_for, fault_threshold, new_tracker,
  reached,
}
use ryther_core.Types.Validator
use ryther_core.Types.Validator.Stakes.{IsValid, adds, removes, apply_all, from_validators-IsValid}
use ryther_core.Types.Validator.Quorum.{quorums_share_honest}
use ryther_core.Types.Validator.Tracker.{support_all, announced_once}

-- Three validators of stake 10.
abbrev pub three : ValidatorSet
three = record {
  validators =
      (1, record { stake = 10; address = 101 })
      ∷ (2, record { stake = 10; address = 102 })
      ∷ (3, record { stake = 10; address = 103 })
      ∷ [];
  total_stake = 30;
}

pub three-IsValid : IsValid three
unfolding Dict.get
three-IsValid = record {
  distinct = (refl, (refl, (refl, tt)));
  positive = (omega arith, omega arith, (omega arith, omega arith, (omega arith, omega arith, tt)));
  cached = refl;
}

quorums_share_honest_example :
    (k : ℕ) × (Validator.contains three k ≡ true)
    × (contains k (1 ∷ 2 ∷ 3 ∷ []) ≡ true)
    × (contains k (3 ∷ 2 ∷ 1 ∷ []) ≡ true)
    × (contains k (2 ∷ []) ≡ false)
unfolding has_quorum Dict.get contains Validator.quorum_threshold stake_for fault_threshold
quorums_share_honest_example =
    quorums_share_honest three three-IsValid (omega arith) (1 ∷ 2 ∷ 3 ∷ []) (3 ∷ 2 ∷ 1 ∷ [])
      (2 ∷ []) (refl, (refl, (refl, tt))) (refl, (refl, (refl, tt))) (refl, tt) refl refl
      (omega arith)

announced_once_example :
    let ended = support_all (new_tracker 7 three) (1 ∷ 2 ∷ 1 ∷ 3 ∷ []) in
    ended.1 ≡ (if reached ended.0 then 1 else 0)
announced_once_example = announced_once three three-IsValid (omega arith) 7 (1 ∷ 2 ∷ 1 ∷ 3 ∷ [])

from_validators-IsValid_example : IsValid (
    apply_all
      (from_validators ((1, 10, 101) ∷ (1, 5, 104) ∷ (2, 0, 102) ∷ []))
      (removes 1 ∷ adds 3 7 103 ∷ []))
from_validators-IsValid_example =
    from_validators-IsValid ((1, 10, 101) ∷ (1, 5, 104) ∷ (2, 0, 102) ∷ [])
      (removes 1 ∷ adds 3 7 103 ∷ []) (omega arith, (omega arith, (omega arith, tt)))
      (tt, (omega arith, tt))
