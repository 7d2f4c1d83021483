-- ===== src/Consensus/Leader/Election.antt =====
-- The election of consensus/leader.rs: it always elects, each validator by its stake.
use native.Mathlib.Nat.{mod-lt}
use ryther_core.Base.{
  ℕ, ◌+◌, ◌%◌, ◌<◌, ◌≤◌, ◌≡◌, refl, inl, inr, false, some, List, [], ◌∷◌, ◌++◌, map, ltb, eqb,
  arith, u64_mod, add64, Bool-cases, ap, ◌∙◌, nat_eq, length,
}
use ryther_core.Sort.{insert_by, sort_by_key}
use ryther_core.Types.Validator.{ValidatorSet, ValidatorData, is_empty, iter}
use ryther_core.Types.Validator.Stakes.{total, Positive, IsValid}
use ryther_core.Consensus.Leader.{select, elect_leader, random_value, id_of}

-- The stakes of a list, added up without wrapping.
pub weight : List (ℕ × ℕ) → ℕ
weight [] = 0
weight ((_, stake) ∷ validators) = stake + weight validators

weight-insert_by : (v : ℕ × ℕ) (vs : List (ℕ × ℕ)) → weight (insert_by id_of v vs) ≡ weight (v ∷ vs)
unfolding insert_by weight
weight-insert_by v [] = refl
weight-insert_by v (w ∷ vs) = ground (arith, weight-insert_by v vs)

pub weight-sort_by_key : (vs : List (ℕ × ℕ)) → weight (sort_by_key id_of vs) ≡ weight vs
unfolding sort_by_key weight
weight-sort_by_key [] = refl
weight-sort_by_key (v ∷ vs) =
    omega (arith, weight-insert_by v (sort_by_key id_of vs), weight-sort_by_key vs)

pub weight-iter : (m : List (ℕ × ValidatorData)) → weight (map (λ e. (e.0, e.1.stake)) m) ≡ total m
unfolding weight
weight-iter [] = refl
weight-iter ((id, d) ∷ m) = omega (arith, weight-iter m)

-- The elected validator is the one whose share of the stakes, in canonical order, holds the
-- target.
abbrev pub Elects : List (ℕ × ℕ) → ℕ → ℕ → Type 0
Elects validators target id =
    (before after : List (ℕ × ℕ)) × (stake : ℕ) × (validators ≡ before ++ (id, stake) ∷ after)
    × (weight before ≤ target)
    × (target < weight before + stake)

select-eq-some :
    (vs : List (ℕ × ℕ)) (cumulative target : ℕ)
    → cumulative + weight vs < u64_mod
    → cumulative ≤ target
    → target < cumulative + weight vs
    → (id : ℕ) × (select vs cumulative target ≡ some id)
      × (before after : List (ℕ × ℕ)) × (stake : ℕ) × (vs ≡ before ++ (id, stake) ∷ after)
      × (cumulative + weight before ≤ target)
      × (target < cumulative + weight before + stake)
unfolding select weight
select-eq-some [] c t fits low high = absurd (omega arith)
select-eq-some ((id, stake) ∷ vs) c t fits low high =
    let c' = add64 c stake in
    let exact : c' ≡ c + stake = omega arith in
    elim (Bool-cases (ltb t c')) [
      | inl here ↦
          (id, rw here refl, [], vs, stake, refl, ground arith, ground (arith, here, exact))
      | inr there ↦
          let reached : c' ≤ t = ground (arith, there, exact) in
          let (i, found, before, after, share, eq, above, below) =
            select-eq-some vs c' t (omega arith) reached (omega arith) in
          (
            i,
            rw there found,
            (id, stake) ∷ before,
            after,
            share,
            ap (λ l. (id, stake) ∷ l) eq,
            omega (arith, above),
            omega (arith, below),
          )
    ]

total-Positive :
    (s : ValidatorSet) → Positive s.validators → is_empty s ≡ false → 0 < total s.validators
unfolding is_empty
total-Positive s p h = go s.validators p h
  where
    go : (m : List (ℕ × ValidatorData)) → Positive m → eqb (length m) 0 ≡ false → 0 < total m
    go [] p h = absurd (ground (arith, h))
    go ((id, d) ∷ m) p h = omega (arith, p.0)

-- In a valid set that is not empty, whose stakes add up below 2 ^ 64, every round and seed elect a
-- leader: the validator whose share of the stakes, in the order of the identifiers, holds the
-- random value's remainder by the total stake.
pub elect_leader-Elects :
    (sha256 : List ℕ → ℕ) (s : ValidatorSet) (round seed : ℕ)
    → IsValid s
    → total s.validators < u64_mod
    → is_empty s ≡ false
    → (id : ℕ) × (elect_leader sha256 s round seed ≡ some id)
      × Elects (sort_by_key id_of (iter s)) (random_value sha256 round seed % total s.validators) id
unfolding elect_leader iter
elect_leader-Elects sha256 s round seed valid fits nonempty =
    let stakes = total s.validators in
    let positive = total-Positive s valid.positive nonempty in
    let cached : s.total_stake ≡ stakes = omega (arith, valid.cached) in
    let sorted = sort_by_key id_of (iter s) in
    let sum : weight sorted ≡ stakes = weight-sort_by_key (iter s) ∙ weight-iter s.validators in
    let target = random_value sha256 round seed % stakes in
    let below : target < stakes = mod-lt (random_value sha256 round seed) positive in
    let elected : elect_leader sha256 s round seed ≡ select sorted 0 target =
      rw (nonempty, cached) refl in
    let (id, found, before, after, stake, eq, above, below') =
      select-eq-some sorted 0 target (omega arith) (omega arith) (omega arith) in
    (id, elected ∙ found, (before, after, stake, eq, omega arith, omega arith))
