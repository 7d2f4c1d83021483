-- ===== src/Types/Validator/Stakes.antt =====
-- The cached total is the sum of the stakes, and every stake is positive.
use ryther_core.Base.{
  ℕ, ◌+◌, ◌%◌, ◌<◌, ◌≡◌, refl, List, [], ◌∷◌, Option, none, some, arith, u64_mod, eqb, Bool-cases,
  inl, inr, eqb_iff, Option-cases, nat_eq, All, ap,
}
use ryther_core.Dict.{get, insert, remove, Distinct}
use ryther_core.Dict.Laws.{insert-Distinct, remove-Distinct, remove_absent}
use ryther_core.Types.Validator.{
  ValidatorSet, ValidatorData, new, add, add_all, from_validators, total_after, remove_found,
  remove_validator, stake_of, or_zero,
}

-- The stakes of a map, added up without wrapping.
abbrev pub total : List (ℕ × ValidatorData) → ℕ
total [] = 0
total ((_, d) ∷ m) = d.stake + total m

-- Each stake is a positive `u64`.
abbrev pub Positive : List (ℕ × ValidatorData) → Type 0
Positive [] = Unit {0}
Positive ((_, d) ∷ m) = (0 < d.stake) × (d.stake < u64_mod) × Positive m

pub record IsValid (s : ValidatorSet) : Type 0 where
  pub distinct : Distinct s.validators
  pub positive : Positive s.validators
  pub cached : s.total_stake ≡ total s.validators % u64_mod

abbrev pub weight : Option ValidatorData → ℕ
weight o = or_zero (stake_of o)

total-insert :
    (id : ℕ) (d : ValidatorData) (m : List (ℕ × ValidatorData))
    → total (insert id d m) + weight (get id m) ≡ total m + d.stake
unfolding insert get
total-insert id d [] = omega arith
total-insert id d ((j, w) ∷ m) = ground (arith, total-insert id d m)

total-remove :
    (id : ℕ) (m : List (ℕ × ValidatorData))
    → Distinct m
    → total (remove id m) + weight (get id m) ≡ total m
unfolding remove get
total-remove id [] h = refl
total-remove id ((j, w) ∷ m) h =
    ground (arith, total-remove id m h.1, remove_absent id m, eqb_iff j id)

insert-Positive :
    (id : ℕ) (d : ValidatorData) (m : List (ℕ × ValidatorData))
    → 0 < d.stake
    → d.stake < u64_mod
    → Positive m
    → Positive (insert id d m)
unfolding insert
insert-Positive id d [] h k p = (h, k, tt)
insert-Positive id d ((j, w) ∷ m) h k p = ground (arith, insert-Positive id d m)

remove-Positive : (id : ℕ) (m : List (ℕ × ValidatorData)) → Positive m → Positive (remove id m)
unfolding remove
remove-Positive id [] p = tt
remove-Positive id ((j, w) ∷ m) p = ground (arith, remove-Positive id m)

total_after_lem :
    (sum sum' stake : ℕ) (old : Option ValidatorData)
    → weight old < u64_mod
    → sum' + weight old ≡ sum + stake
    → total_after (sum % u64_mod) stake old ≡ sum' % u64_mod
unfolding total_after
total_after_lem sum sum' stake none k h = omega arith
total_after_lem sum sum' stake (some d) k h = omega arith

new-IsValid : IsValid new
unfolding new
new-IsValid = record { distinct = tt; positive = tt; cached = refl }

weight-lt : (id : ℕ) (m : List (ℕ × ValidatorData)) → Positive m → weight (get id m) < u64_mod
unfolding get
weight-lt id [] p = omega arith
weight-lt id ((j, w) ∷ m) p = ground (arith, weight-lt id m)

add-IsValid :
    (s : ValidatorSet) (id stake address : ℕ)
    → stake < u64_mod
    → IsValid s
    → IsValid (add s id stake address)
unfolding add
add-IsValid s id stake address k v = elim (Bool-cases (eqb stake 0)) [
  | inl zero ↦ rw zero v
  | inr more ↦
      let d : ValidatorData = record { stake = stake; address = address } in
      rw more (record {
        distinct = insert-Distinct id d s.validators v.distinct;
        positive = insert-Positive id d s.validators (ground arith) k v.positive;
        cached = rw v.cached (
            total_after_lem (total s.validators) (total (insert id d s.validators)) stake
              (get id s.validators) (weight-lt id s.validators v.positive)
              (total-insert id d s.validators));
      })
]

remove_validator-IsValid :
    (s : ValidatorSet) (id : ℕ) → IsValid s → IsValid (remove_validator s id).0
unfolding remove_validator
remove_validator-IsValid s id v = elim (Option-cases (get id s.validators)) [
  | inl absent ↦ rw (absent, remove_found) v
  | inr (d, e) ↦
      rw (e, remove_found)
        (record {
          distinct = remove-Distinct id s.validators v.distinct;
          positive = remove-Positive id s.validators v.positive;
          cached = omega (
            arith,
            v.cached,
            ap weight e,
            weight-lt id s.validators v.positive,
            total-remove id s.validators v.distinct,
          );
        })
]

add_all-IsValid :
    (s : ValidatorSet) (entries : List (ℕ × ℕ × ℕ))
    → All (λ e. e.1 < u64_mod) entries
    → IsValid s
    → IsValid (add_all s entries)
unfolding add_all
add_all-IsValid s [] k v = v
add_all-IsValid s ((id, stake, address) ∷ rest) k v =
    add_all-IsValid (add s id stake address) rest k.1 (add-IsValid s id stake address k.0 v)

-- A change to a validator set.
pub data Change : Type 0 where
  adds : ℕ → ℕ → ℕ → Change
  removes : ℕ → Change

abbrev pub IsWord : Change → Type 0
IsWord (adds id stake address) = stake < u64_mod
IsWord (removes id) = Unit {0}

apply : ValidatorSet → Change → ValidatorSet
apply s (adds id stake address) = add s id stake address
apply s (removes id) = (remove_validator s id).0

pub apply_all : ValidatorSet → List Change → ValidatorSet
unfolding apply
apply_all s [] = s
apply_all s (c ∷ changes) = apply_all (apply s c) changes

apply_all-IsValid :
    (s : ValidatorSet) (changes : List Change)
    → All IsWord changes
    → IsValid s
    → IsValid (apply_all s changes)
unfolding apply_all
apply_all-IsValid s [] k v = v
apply_all-IsValid s (adds id stake address ∷ changes) k v =
    apply_all-IsValid (add s id stake address) changes k.1 (add-IsValid s id stake address k.0 v)
apply_all-IsValid s (removes id ∷ changes) k v =
    apply_all-IsValid (remove_validator s id).0 changes k.1 (remove_validator-IsValid s id v)

-- A set built by `from_validators` and changed by any sequence of `add` and `remove` has no
-- validator twice, only positive stakes, and a cached total equal to the sum of the stakes modulo
-- 2 ^ 64, provided that the stakes given are `u64` values.
pub from_validators-IsValid :
    (entries : List (ℕ × ℕ × ℕ)) (changes : List Change)
    → All (λ e. e.1 < u64_mod) entries
    → All IsWord changes
    → IsValid (apply_all (from_validators entries) changes)
unfolding from_validators
from_validators-IsValid entries changes h k =
    apply_all-IsValid (add_all new entries) changes k (add_all-IsValid new entries h new-IsValid)
