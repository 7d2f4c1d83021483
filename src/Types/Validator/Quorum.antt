-- ===== src/Types/Validator/Quorum.antt =====
-- Quorums weigh more than two thirds of the stake, so two of them share an honest validator.
use ryther_core.Base.{
  ℕ, ◌+◌, ◌*◌, ◌/◌, ◌≤◌, ◌<◌, ◌≡◌, refl, sym, ◌∙◌, List, [], ◌∷◌, some, Bool, true, false, ◌&&◌,
  not, arith, u64_mod, if◌then◌else◌, eqb_iff, nat_eq, leb→le, Bool-cases, inl, inr,
}
use ryther_core.Dict.{get, Distinct, contains, Unique}
use ryther_core.Dict.Laws.{contains_key-eq-true}
use ryther_core.Types.Validator.{
  ValidatorSet, ValidatorData, stake_for, has_quorum, quorum_threshold, fault_threshold,
  contains as has_validator,
}
use ryther_core.Types.Validator.Stakes.{total, weight, IsValid}

-- The stake of the validators that a test selects.
pub masked : (ℕ → Bool) → List (ℕ × ValidatorData) → ℕ
masked p [] = 0
masked p ((k, d) ∷ m) = (if p k then d.stake else 0) + masked p m

-- The stake of a list of voters, without wrapping.
pub voted : List (ℕ × ValidatorData) → List ℕ → ℕ
voted m [] = 0
voted m (v ∷ voters) = weight (get v m) + voted m voters

pub masked-le-total : (p : ℕ → Bool) (m : List (ℕ × ValidatorData)) → masked p m ≤ total m
unfolding masked
masked-le-total p [] = omega arith
masked-le-total p ((k, d) ∷ m) = ground (arith, masked-le-total p m)

masked-and :
    (p q : ℕ → Bool) (m : List (ℕ × ValidatorData))
    → masked p m + masked q m ≤ total m + masked (λ k. p k && q k) m
unfolding masked
masked-and p q [] = omega arith
masked-and p q ((k, d) ∷ m) = ground (arith, masked-and p q m)

pub masked_mono :
    (p q : ℕ → Bool) (m : List (ℕ × ValidatorData))
    → ((k : ℕ) → p k ≡ true → q k ≡ true)
    → masked p m ≤ masked q m
unfolding masked
masked_mono p q [] h = omega arith
masked_mono p q ((k, d) ∷ m) h = ground (arith, h k, masked_mono p q m h)

masked-cons :
    (v : ℕ) (voters : List ℕ) (m : List (ℕ × ValidatorData))
    → contains v voters ≡ false
    → Distinct m
    → masked (λ k. contains k (v ∷ voters)) m ≡ weight (get v m) + masked (λ k. contains k voters) m
unfolding masked get contains
masked-cons v voters [] h d = refl
masked-cons v voters ((j, w) ∷ m) h d =
    ground (arith, eqb_iff v j, eqb_iff j v, masked-cons v voters m h d.1)

masked_none : (m : List (ℕ × ValidatorData)) → masked (λ k. contains k []) m ≡ 0
unfolding masked contains
masked_none [] = refl
masked_none ((j, w) ∷ m) = omega (arith, masked_none m)

pub voted-masked :
    (m : List (ℕ × ValidatorData)) (voters : List ℕ)
    → Distinct m
    → Unique voters
    → voted m voters ≡ masked (λ k. contains k voters) m
unfolding voted
voted-masked m [] d u = sym (masked_none m)
voted-masked m (v ∷ voters) d u =
    omega (arith, masked-cons v voters m u.0 d, voted-masked m voters d u.1)

-- With a total that fits in 64 bits no sum of distinct voters wraps.
pub stake_for-voted :
    (s : ValidatorSet) (voters : List ℕ)
    → Distinct s.validators
    → total s.validators < u64_mod
    → Unique voters
    → stake_for s voters ≡ voted s.validators voters
unfolding stake_for voted
stake_for-voted s [] d h u = refl
stake_for-voted s (v ∷ voters) d h u = omega (
  arith,
  stake_for-voted s voters d h u.1,
  voted-masked s.validators (v ∷ voters) d u,
  masked-le-total (λ k. contains k (v ∷ voters)) s.validators,
)

-- Where one test selects more stake than another, some validator passes the first alone.
selected_alone :
    (p q : ℕ → Bool) (m : List (ℕ × ValidatorData))
    → Distinct m
    → masked q m < masked p m
    → (k : ℕ) × (d : ValidatorData) × (get k m ≡ some d) × (p k ≡ true) × (q k ≡ false)
unfolding masked get
selected_alone p q [] d h = absurd (omega arith)
selected_alone p q ((j, w) ∷ m) d h = elim (Bool-cases (p j && not (q j))) [
  | inl here ↦ (j, w, ground (arith, eqb_iff j j), ground arith, ground arith)
  | inr there ↦
      let (k, e, found, yes_p, no_q) = selected_alone p q m d.1 (ground arith) in
      (k, e, ground (arith, eqb_iff j k), yes_p, no_q)
]

module _ (s : ValidatorSet) (v : IsValid s) (fits : total s.validators * 2 < u64_mod) where
  pub threshold-eq : quorum_threshold s ≡ total s.validators * 2 / 3 + 1
  unfolding quorum_threshold
  threshold-eq = omega (arith, v.cached)

  pub stake_for-masked :
      (voters : List ℕ)
      → Unique voters
      → stake_for s voters ≡ masked (λ k. contains k voters) s.validators
  stake_for-masked voters u =
      stake_for-voted s voters v.distinct (omega arith) u
      ∙ voted-masked s.validators voters v.distinct u

  quorum_weight :
      (voters : List ℕ)
      → Unique voters
      → has_quorum s voters ≡ true
      → total s.validators * 2 / 3 + 1 ≤ masked (λ k. contains k voters) s.validators
  unfolding has_quorum
  quorum_weight voters u h = omega (
    arith,
    leb→le (quorum_threshold s) (stake_for s voters) h,
    threshold-eq,
    stake_for-masked voters u,
  )

  -- In a valid set whose doubled total stake fits in 64 bits, any two quorums have a member of the
  -- set in common that lies outside any given set of voters whose stake is within the fault
  -- threshold: a third of the stake may be faulty, and the quorums still share an honest validator.
  pub quorums_share_honest :
      (first second faulty : List ℕ)
      → Unique first
      → Unique second
      → Unique faulty
      → has_quorum s first ≡ true
      → has_quorum s second ≡ true
      → stake_for s faulty ≤ fault_threshold s
      → (k : ℕ) × (has_validator s k ≡ true)
        × (contains k first ≡ true)
        × (contains k second ≡ true)
        × (contains k faulty ≡ false)
  unfolding fault_threshold has_validator
  quorums_share_honest first second faulty u₁ u₂ u₃ q₁ q₂ f =
      let (k, d, found, both, honest) =
        selected_alone (λ k. contains k first && contains k second) (λ k. contains k faulty)
          s.validators v.distinct
          (omega (
            arith,
            v.cached,
            quorum_weight first u₁ q₁,
            quorum_weight second u₂ q₂,
            stake_for-masked faulty u₃,
            masked-and (λ k. contains k first) (λ k. contains k second) s.validators,
          )) in
      (k, contains_key-eq-true k s.validators d found, ground arith, ground arith, honest)
