-- ===== src/Consensus/Commit/Chain.antt =====
-- What consensus/commit.rs commits, and how far `try_advance` goes.
use ryther_core.Base.{
  ℕ, zero, suc, ◌+◌, ◌-◌, ◌<◌, ◌≤◌, ◌≡◌, refl, inl, inr, true, false, none, some, List, [], leb,
  arith, add64, u64_mod, Bool-cases, Option-cases, nat_eq, sym, ◌⊎◌,
}
use ryther_core.Types.Event.{DagEvent}
use ryther_core.Types.Validator.{ValidatorSet, has_quorum}
use ryther_core.Dag.Store.{DagStore, event_at, events_at_round, max_round}
use ryther_core.Consensus.Leader.{elect_leader}
use ryther_core.Consensus.Commit.Support.{HasSupport, has_quorum-HasSupport}
use ryther_core.Consensus.Commit.{
  CommitDetector, CommitResult, supporters_of, first_support, check_commit,
}

-- The commit rule: the leader elected by the seed has an anchor at the round, and at a later round
-- the creators of the events that reach the anchor form a quorum.
pub record IsJustified (sha256 : List ℕ → ℕ) (s : ValidatorSet) (seed : ℕ) (dag : DagStore)
    (result : CommitResult) : Type 0 where
  pub elected : elect_leader sha256 s result.round seed ≡ some result.leader
  pub anchor : DagEvent
  pub stands : event_at dag result.leader result.round ≡ some anchor
  pub named : anchor.id ≡ result.anchor_id
  pub later : result.round < result.support_round
  pub within : result.support_round ≤ max_round dag
  pub supported : HasSupport s dag result.anchor_id result.support_round

module _ (d : CommitDetector) (dag : DagStore) (anchor_id : ℕ) where
  first_support-some :
      (count start r : ℕ)
      → first_support d dag anchor_id count start ≡ some r
      → (start ≤ r) × (r < start + count) × HasSupport d.validator_set dag anchor_id r
  unfolding first_support
  first_support-some zero start r h = absurd (cc h)
  first_support-some (suc count) start r h =
      let supporters = supporters_of dag anchor_id (events_at_round dag start) [] in
      elim (Bool-cases (has_quorum d.validator_set supporters)) [
        | inl e ↦
            let found : some start ≡ some r = rw e at h in
            let eq : start ≡ r = cc found in
            let support = (has_quorum-HasSupport d.validator_set dag anchor_id start).0 e in
            (omega arith, omega arith, rw (sym eq) support)
        | inr e ↦
            let (low, high, support) = first_support-some count (suc start) r (rw e at h) in
            (omega arith, omega arith, support)
      ]

  first_support-none :
      (count start r : ℕ)
      → first_support d dag anchor_id count start ≡ none
      → start ≤ r
      → r < start + count
      → ¬ HasSupport d.validator_set dag anchor_id r
  unfolding first_support
  first_support-none zero start r h low high = absurd (omega arith)
  first_support-none (suc count) start r h low high =
      let supporters = supporters_of dag anchor_id (events_at_round dag start) [] in
      elim (Bool-cases (has_quorum d.validator_set supporters)) [
        | inl e ↦ let found : some start ≡ none = rw e at h in absurd (cc found)
        | inr e ↦ elim (Bool-cases (leb r start)) [
          | inl le ↦ λ support.
              let eq : r ≡ start = ground (arith, le) in
              let there : has_quorum d.validator_set supporters ≡ true =
                (has_quorum-HasSupport d.validator_set dag anchor_id start).1 (rw eq at support) in
              absurd (cc (there, e))
          | inr gt ↦
              first_support-none count (suc start) r (rw e at h) (ground (arith, gt)) (omega arith)
        ]
      ]

justified-anchor :
    {sha256 : List ℕ → ℕ} {s : ValidatorSet} {seed : ℕ} {dag : DagStore} (round leader : ℕ)
    (r : CommitResult)
    → r.round ≡ round
    → elect_leader sha256 s round seed ≡ some leader
    → IsJustified sha256 s seed dag r
    → (a : DagEvent) × (event_at dag leader round ≡ some a) × (a.id ≡ r.anchor_id)
justified-anchor {sha256} {s} {seed} {dag} round leader r eq elected j =
    let here : elect_leader sha256 s round seed ≡ some r.leader = rw (sym eq) j.elected in
    let same : leader ≡ r.leader = cc (here, elected) in
    (j.anchor, rw (same, sym eq) j.stands, j.named)

-- For a round above the last committed one and below 2 ^ 64 - 1, `check_commit` returns a result
-- exactly when the commit rule holds at the round: what it returns is justified and is about that
-- round, and when it returns nothing, no result about that round is justified.
pub check_commit_lem :
    (sha256 : List ℕ → ℕ) (d : CommitDetector) (dag : DagStore) (round : ℕ)
    → suc round < u64_mod
    → d.last_committed < round
    → ((r : CommitResult) × (check_commit sha256 d dag round ≡ some r)
        × (r.round ≡ round)
        × IsJustified sha256 d.validator_set d.seed dag r)
      ⊎ ((check_commit sha256 d dag round ≡ none)
          × ((r : CommitResult)
              → r.round ≡ round
              → ¬ IsJustified sha256 d.validator_set d.seed dag r))
unfolding check_commit
check_commit_lem sha256 d dag round fits fresh =
    let next : add64 round 1 ≡ suc round = omega arith in
    let open_round : leb round d.last_committed ≡ false = ground arith in
    elim (Option-cases (elect_leader sha256 d.validator_set round d.seed)) [
      | inl nobody ↦ inr (
        rw (open_round, nobody) refl,
        λ r eq j. let e = rw eq at j.elected in absurd (cc (e, nobody)),
      )
      | inr (leader, elected) ↦ elim (Option-cases (event_at dag leader round)) [
        | inl missing ↦ inr (
          rw (open_round, elected, missing) refl,
          λ r eq j.
              let (a, stands, named) = justified-anchor round leader r eq elected j in
              absurd (cc (stands, missing)),
        )
        | inr (anchor, stands) ↦
            elim (Option-cases
              (first_support d dag anchor.id (suc (max_round dag) - suc round) (suc round))) [
                | inl unsupported ↦ inr (
                  rw (open_round, elected, stands, next, unsupported) refl,
                  λ r eq j.
                      let (a, there, named) = justified-anchor round leader r eq elected j in
                      let same : a ≡ anchor = cc (there, stands) in
                      let id_same : anchor.id ≡ r.anchor_id = rw (sym same) named in
                      let later = j.later in
                      let within = j.within in
                      first_support-none d dag anchor.id (suc (max_round dag) - suc round)
                        (suc round) r.support_round unsupported (omega arith) (omega arith)
                        (rw id_same j.supported),
                )
                | inr (support_round, found) ↦
                    let (low, high, support) =
                      first_support-some d dag anchor.id (suc (max_round dag) - suc round)
                        (suc round) support_round found in
                    inl (
                      record {
                        round = round;
                        anchor_id = anchor.id;
                        leader = leader;
                        support_round = support_round;
                      },
                      rw (open_round, elected, stands, next, found) refl,
                      refl,
                      record {
                        elected = elected;
                        anchor = anchor;
                        stands = stands;
                        named = refl;
                        later = omega arith;
                        within = omega arith;
                        supported = support;
                      },
                    )
              ]
      ]
    ]
