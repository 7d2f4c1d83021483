-- ===== src/Consensus/Leader/Order.antt =====
-- The election of consensus/leader.rs does not depend on the order of the validators' map.
use mathlib.Core.List.{Memᴰ}
use mathlib.Core.List.Memᴰ
use ryther_core.Base.{
  ℕ, ◌≡◌, ◌≢◌, refl, inl, inr, none, some, List, [], ◌∷◌, map, eqb, eqb_iff, arith, Bool-cases, ap,
  sym, ◌∙◌, nat_eq, u64_mod, All, ◌%◌, if◌then◌else◌, length,
}
use ryther_core.Dict.{get, Distinct}
use ryther_core.Sort.Members.{StrictAscending-unique, Memᴰ-sort_by_key, sort_by_key-Memᴰ}
use ryther_core.Sort.{sort_by_key, DistinctKeys, sort_by_key-StrictAscending}
use ryther_core.Types.Validator.{ValidatorSet, ValidatorData, is_empty, iter, stake, stake_of}
use ryther_core.Types.Validator.Stakes.{total, IsValid}
use ryther_core.Consensus.Leader.{elect_leader, id_of, select, random_value}
use ryther_core.Consensus.Leader.Election.{weight, weight-sort_by_key, weight-iter}

abbrev pairs : List (ℕ × ValidatorData) → List (ℕ × ℕ)
pairs = map (λ e. (e.0, e.1.stake))

stake_of-Memᴰ :
    (id share : ℕ) (m : List (ℕ × ValidatorData))
    → stake_of (get id m) ≡ some share
    → Memᴰ (id, share) (pairs m)
unfolding get
stake_of-Memᴰ id share [] h = absurd (cc h)
stake_of-Memᴰ id share ((j, d) ∷ m) h = elim (Bool-cases (eqb j id)) [
  | inl e ↦
      let same : id ≡ j = sym ((eqb_iff j id).0 e) in
      let found : some d.stake ≡ some share = rw e at h in
      let stakes : share ≡ d.stake = cc found in Memᴰ.head (rw (same, stakes) refl)
  | inr e ↦ Memᴰ.tail (stake_of-Memᴰ id share m (rw e at h))
]

Memᴰ-stake_of :
    (id share : ℕ) (m : List (ℕ × ValidatorData))
    → Distinct m
    → Memᴰ (id, share) (pairs m)
    → stake_of (get id m) ≡ some share
unfolding get
Memᴰ-stake_of id share [] u h = absurd (Memᴰ.not-nil h)
Memᴰ-stake_of id share ((j, d) ∷ m) u h = elim (Memᴰ.cases_cons h) [
  | inl e ↦
      let same : id ≡ j = ap (λ p. p.0) e in
      let stakes : share ≡ d.stake = ap (λ p. p.1) e in ground (arith, same, stakes, eqb_iff j id)
  | inr later ↦
      let found = Memᴰ-stake_of id share m u.1 later in
      elim (Bool-cases (eqb j id)) [
        | inl same ↦
            let absent : get id m ≡ none = rw (sym ((eqb_iff j id).0 same)) u.0 in
            absurd (ground (arith, found, absent))
        | inr other ↦ rw other found
      ]
]

pairs-absent :
    (j : ℕ) (n : List (ℕ × ValidatorData)) → get j n ≡ none → All (λ p. j ≢ id_of p) (pairs n)
unfolding get
pairs-absent j [] h = tt
pairs-absent j ((k, e) ∷ n) h =
    (λ same. ground (arith, h, same, eqb_iff k j), pairs-absent j n (ground (arith, h)))

pairs-DistinctKeys : (m : List (ℕ × ValidatorData)) → Distinct m → DistinctKeys id_of (pairs m)
pairs-DistinctKeys [] u = tt
pairs-DistinctKeys ((j, d) ∷ m) u = (pairs-absent j m u.0, pairs-DistinctKeys m u.1)

sorted_iter-eq :
    (s t : ValidatorSet)
    → IsValid s
    → IsValid t
    → ((id : ℕ) → stake s id ≡ stake t id)
    → sort_by_key id_of (iter s) ≡ sort_by_key id_of (iter t)
unfolding iter stake
sorted_iter-eq s t vs vt same =
    StrictAscending-unique id_of (sort_by_key id_of (iter s)) (sort_by_key id_of (iter t))
      (sort_by_key-StrictAscending id_of (iter s) (pairs-DistinctKeys s.validators vs.distinct))
      (sort_by_key-StrictAscending id_of (iter t) (pairs-DistinctKeys t.validators vt.distinct))
      (carry s.validators t.validators vs.distinct (λ id. same id))
      (carry t.validators s.validators vt.distinct (λ id. sym (same id)))
  where
    carry :
        (m n : List (ℕ × ValidatorData))
        → Distinct m
        → ((id : ℕ) → stake_of (get id m) ≡ stake_of (get id n))
        → (x : ℕ × ℕ) → Memᴰ x (sort_by_key id_of (pairs m))
        → Memᴰ x (sort_by_key id_of (pairs n))
    carry m n u h x p =
        let there = Memᴰ-sort_by_key id_of x (pairs m) p in
        let found : stake_of (get x.0 m) ≡ some x.1 = Memᴰ-stake_of x.0 x.1 m u there in
        sort_by_key-Memᴰ id_of x (pairs n) (stake_of-Memᴰ x.0 x.1 n (sym (h x.0) ∙ found))

elect_leader-select :
    (sha256 : List ℕ → ℕ) (s : ValidatorSet) (round seed : ℕ)
    → elect_leader sha256 s round seed
      ≡ select (sort_by_key id_of (iter s)) 0 (random_value sha256 round seed % s.total_stake)
unfolding elect_leader iter is_empty sort_by_key
elect_leader-select sha256 s round seed = go s.validators
  where
    go :
        (m : List (ℕ × ValidatorData))
        → (if eqb (length m) 0
            then none
            else select
                (sort_by_key id_of (pairs m))
                0
                (random_value sha256 round seed % s.total_stake))
          ≡ select (sort_by_key id_of (pairs m)) 0 (random_value sha256 round seed % s.total_stake)
    go [] = refl
    go (e ∷ m) = ground arith

-- Two valid sets with the same stake for every validator elect the same leader for every round and
-- seed, in whatever order their maps hold the validators.
pub elect_leader-same :
    (sha256 : List ℕ → ℕ) (s t : ValidatorSet) (round seed : ℕ)
    → IsValid s
    → IsValid t
    → ((id : ℕ) → stake s id ≡ stake t id)
    → elect_leader sha256 s round seed ≡ elect_leader sha256 t round seed
unfolding iter
elect_leader-same sha256 s t round seed vs vt same =
    let sorted = sorted_iter-eq s t vs vt same in
    let totals : total s.validators ≡ total t.validators =
      sym (weight-sort_by_key (iter s) ∙ weight-iter s.validators)
      ∙ ap weight sorted
      ∙ weight-sort_by_key (iter t)
      ∙ weight-iter t.validators in
    let cached : s.total_stake ≡ t.total_stake =
      vs.cached ∙ ap (λ n. n % u64_mod) totals ∙ sym vt.cached in
    elect_leader-select sha256 s round seed
    ∙ rw (sorted, cached) refl
    ∙ sym (elect_leader-select sha256 t round seed)
