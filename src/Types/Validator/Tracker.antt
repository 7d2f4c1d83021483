-- ===== src/Types/Validator/Tracker.antt =====
-- The quorum tracker announces a quorum once.
use ryther_core.Base.{
  ℕ, ◌+◌, ◌*◌, ◌≤◌, ◌<◌, ◌≡◌, List, [], ◌∷◌, true, false, arith, u64_mod, if◌then◌else◌, nat_eq,
  leb→le, le→leb,
}
use ryther_core.Dict.{add as set_insert, contains, Unique}
use ryther_core.Dict.Laws.{contains-add, add-Unique}
use ryther_core.Types.Validator.{
  ValidatorSet, QuorumTracker, new_tracker, reached, add_support, stake_for, has_quorum,
  quorum_threshold,
}
use ryther_core.Types.Validator.Stakes.{total, IsValid}
use ryther_core.Types.Validator.Quorum.{masked_mono, stake_for-masked}

-- The supports recorded one after another, with the number of calls that returned true.
pub support_all : QuorumTracker → List ℕ → QuorumTracker × ℕ
support_all t [] = (t, 0)
support_all t (v ∷ voters) =
    let later = support_all (add_support t v).0 voters in
    (later.0, (if (add_support t v).1 then 1 else 0) + later.1)

module _ (s : ValidatorSet) (v : IsValid s) (fits : total s.validators * 2 < u64_mod) where
  stake_for-add :
      (voter : ℕ) (voters : List ℕ)
      → Unique voters
      → stake_for s voters ≤ stake_for s (set_insert voter voters)
  stake_for-add voter voters u = omega (
    arith,
    stake_for-masked s v fits voters u,
    stake_for-masked s v fits (set_insert voter voters) (add-Unique voter voters u),
    masked_mono (λ k. contains k voters) (λ k. contains k (set_insert voter voters)) s.validators
        (λ k h. ground (arith, contains-add voter k voters)),
  )

  has_quorum-add :
      (voter : ℕ) (voters : List ℕ)
      → Unique voters
      → has_quorum s voters ≡ true
      → has_quorum s (set_insert voter voters) ≡ true
  unfolding has_quorum
  has_quorum-add voter voters u h =
      le→leb (quorum_threshold s) (stake_for s (set_insert voter voters)) (
        omega
          (arith, stake_for-add voter voters u, leb→le (quorum_threshold s) (stake_for s voters) h))

  abbrev tracker : ℕ → List ℕ → QuorumTracker
  tracker target supporters = record { target = target; supporters = supporters; validator_set = s }

  support_all-counts :
      (target : ℕ) (supporters voters : List ℕ)
      → Unique supporters
      → (if reached (tracker target supporters) then 1 else 0)
          + (support_all (tracker target supporters) voters).1
        ≡ (if reached (support_all (tracker target supporters) voters).0 then 1 else 0)
  unfolding support_all add_support reached
  support_all-counts target xs [] u = ground arith
  support_all-counts target xs (voter ∷ voters) u = ground (
    arith,
    has_quorum-add voter xs u,
    support_all-counts target (set_insert voter xs) voters (add-Unique voter xs u),
  )

  none_reached : (target : ℕ) → reached (tracker target []) ≡ false
  unfolding reached has_quorum quorum_threshold stake_for
  none_reached target = ground arith

  -- For a valid set whose doubled total stake fits in 64 bits: however the supports arrive, and
  -- however often one is repeated, `add_support` returns true exactly once if the tracker ends with
  -- a quorum, and never if it does not.
  pub announced_once :
      (target : ℕ) (voters : List ℕ)
      → let ended = support_all (new_tracker target s) voters in
        ended.1 ≡ (if reached ended.0 then 1 else 0)
  unfolding new_tracker
  announced_once target voters =
      ground (arith, support_all-counts target [] voters tt, none_reached target)
