-- ===== src/Consensus/Commit/Advance.antt =====
-- `try_advance` of consensus/commit.rs: it commits consecutive rounds as far as the rule allows.
use ryther_core.Base.{
  ℕ, zero, suc, ◌+◌, ◌-◌, ◌<◌, ◌≡◌, refl, inl, inr, true, Option, some, List, [], ◌∷◌, leb, ltb,
  arith, add64, u64_mod, Bool-cases, length, sym, ◌∙◌, ap,
}
use ryther_core.Bytes.{be_bytes}
use ryther_core.Types.Validator.{ValidatorSet}
use ryther_core.Dag.Store.{DagStore, max_round}
use ryther_core.Consensus.Commit.{
  CommitDetector, CommitResult, confirm_commit, advance, try_advance, with_commit,
}
use ryther_core.Consensus.Commit.Chain.{IsJustified, check_commit_lem}

-- Consecutive rounds after `last`, each justified by the seed that the anchor before it gives.
abbrev pub IsChain : (List ℕ → ℕ) → ValidatorSet → ℕ → ℕ → DagStore → List CommitResult → Type 0
IsChain sha256 s last seed dag [] = Unit {0}
IsChain sha256 s last seed dag (r ∷ commits) =
    (r.round ≡ suc last)
    × IsJustified sha256 s seed dag r
    × IsChain sha256 s r.round (sha256 (be_bytes 32 r.anchor_id)) dag commits

-- The detector cannot commit its next round.
abbrev pub IsStuck : (List ℕ → ℕ) → CommitDetector → DagStore → Type 0
IsStuck sha256 d dag =
    (r : CommitResult)
    → r.round ≡ suc d.last_committed
    → ¬ IsJustified sha256 d.validator_set d.seed dag r

abbrev pub Advances :
    (List ℕ → ℕ) → CommitDetector → DagStore → Option (CommitDetector × List CommitResult) → Type 0
Advances sha256 d dag o =
    (d' : CommitDetector) × (commits : List CommitResult) × (o ≡ some (d', commits))
    × IsChain sha256 d.validator_set d.last_committed d.seed dag commits
    × (d'.validator_set ≡ d.validator_set)
    × (d'.last_committed ≡ d.last_committed + length commits)
    × IsStuck sha256 d' dag

module _ (sha256 : List ℕ → ℕ) (dag : DagStore) (fits : suc (max_round dag) < u64_mod) where
  advance-Advances :
      (fuel : ℕ) (d : CommitDetector) (round : ℕ)
      → round ≡ suc d.last_committed
      → suc (max_round dag) - round < fuel
      → Advances sha256 d dag (advance sha256 fuel d dag round)
  unfolding advance confirm_commit
  advance-Advances zero d round at room = absurd (omega arith)
  advance-Advances (suc fuel) d round at room = elim (Bool-cases (leb round (max_round dag))) [
    | inr past ↦ (
      d,
      [],
      rw past refl,
      tt,
      refl,
      omega arith,
      λ r eq j. let later = j.later in let within = j.within in absurd (ground (arith, past)),
    )
    | inl open_round ↦
        elim (check_commit_lem sha256 d dag round (ground (arith, open_round)) (omega arith)) [
          | inr (nothing, none_justified) ↦ (
            d,
            [],
            rw (open_round, nothing) refl,
            tt,
            refl,
            omega arith,
            λ r eq j. none_justified r (eq ∙ sym at) j,
          )
          | inl (r, found, is_round, justified) ↦
              let d1 : CommitDetector = record d {
                last_committed = r.round;
                seed = sha256 (be_bytes 32 r.anchor_id);
              } in
              let next : add64 round 1 ≡ suc round = ground (arith, open_round) in
              let newer : ltb d.last_committed r.round ≡ true = ground arith in
              let (d', commits, ran, chain, same, count, stuck) =
                advance-Advances fuel d1 (add64 round 1) (omega arith)
                  (ground (arith, open_round)) in
              (
                d',
                r ∷ commits,
                rw (open_round, found, newer) (ap (with_commit r) ran),
                (is_round ∙ at, justified, chain),
                same,
                omega (arith, count),
                stuck,
              )
        ]
  ]

  -- `try_advance` always returns, with fuel one above the number of rounds after the last committed
  -- one: it commits the consecutive rounds after the last committed one, each under the commit rule
  -- with the seed that the anchor before it gives, moves the last committed round by their number,
  -- and stops where the next round cannot be committed. The rounds are below 2 ^ 64 - 1.
  pub try_advance-Advances :
      (d : CommitDetector)
      → suc d.last_committed < u64_mod
      → Advances sha256 d dag (try_advance sha256 d dag)
  unfolding try_advance
  try_advance-Advances d low =
      let first : add64 d.last_committed 1 ≡ suc d.last_committed = omega arith in
      advance-Advances (suc (suc (max_round dag) - add64 d.last_committed 1)) d
        (add64 d.last_committed 1) first (omega arith)
