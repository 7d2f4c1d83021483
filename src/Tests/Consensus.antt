-- ===== src/Tests/Consensus.antt =====
-- The theorems about consensus/ at concrete inputs.
use native.Mathlib.Omega.{arith}
use ryther_core.Base.{ℕ, ◌%◌, ◌≡◌, ◌⊎◌, refl, none, some, List, [], ◌∷◌, nat_eq, pair_eq}
use ryther_core.Dict
use ryther_core.Sort.{sort_by_key}
use ryther_core.Types.Validator.{ValidatorSet, iter, stake, is_empty}
use ryther_core.Types.Validator.Stakes.{total, IsValid}
use ryther_core.Dag.Store.{DagStore, new, insert, max_round, event_at}
use ryther_core.Consensus.Leader.{elect_leader, random_value, id_of}
use ryther_core.Consensus.Leader.Election.{Elects, elect_leader-Elects}
use ryther_core.Consensus.Leader.Order.{elect_leader-same}
use ryther_core.Consensus.Commit.{CommitDetector, CommitResult, check_commit, try_advance}
use ryther_core.Consensus.Commit.Chain.{IsJustified, check_commit_lem}
use ryther_core.Consensus.Commit.Advance.{Advances, try_advance-Advances}
use ryther_core.Consensus.Commit.Agreement.{IsConsistent, SameAnchors, try_advance-SameAnchors}
use ryther_core.Tests.Validators.{three, three-IsValid}
use ryther_core.Tests.Store.{event_of}

-- A stand-in for the hash: the first byte of its input.
abbrev pub sha256 : List ℕ → ℕ
sha256 [] = 0
sha256 (b ∷ bytes) = b

elect_leader-Elects_example :
    (id : ℕ) × (elect_leader sha256 three 4 9 ≡ some id)
    × Elects (sort_by_key id_of (iter three)) (random_value sha256 4 9 % total three.validators) id
unfolding is_empty
elect_leader-Elects_example = elect_leader-Elects sha256 three 4 9 three-IsValid (omega arith) refl

-- The validators of `three` in another order.
abbrev turned : ValidatorSet
turned = record {
  validators =
      (3, record { stake = 10; address = 103 })
      ∷ (1, record { stake = 10; address = 101 })
      ∷ (2, record { stake = 10; address = 102 })
      ∷ [];
  total_stake = 30;
}

turned-IsValid : IsValid turned
unfolding Dict.get
turned-IsValid = record {
  distinct = (refl, (refl, (refl, tt)));
  positive = (omega arith, omega arith, (omega arith, omega arith, (omega arith, omega arith, tt)));
  cached = refl;
}

same_stakes : (id : ℕ) → stake three id ≡ stake turned id
unfolding stake Dict.get
same_stakes id = ground arith

elect_leader-same_example : elect_leader sha256 three 4 9 ≡ elect_leader sha256 turned 4 9
elect_leader-same_example =
    elect_leader-same sha256 three turned 4 9 three-IsValid turned-IsValid same_stakes

-- Every validator has an event at round 1 and, above it, one at round 2.
abbrev dag : DagStore
dag =
    insert
      (insert
        (insert
          (insert (insert (insert new (event_of 11 1 1 [])) (event_of 12 2 1 []))
            (event_of 13 3 1 []))
          (event_of 21 1 2 (11 ∷ 12 ∷ 13 ∷ [])))
        (event_of 22 2 2 (11 ∷ 12 ∷ 13 ∷ [])))
      (event_of 23 3 2 (11 ∷ 12 ∷ 13 ∷ []))

abbrev detector : CommitDetector
detector = record { validator_set = three; last_committed = 0; seed = 9 }

check_commit_example :
    ((r : CommitResult) × (check_commit sha256 detector dag 1 ≡ some r)
      × (r.round ≡ 1)
      × IsJustified sha256 three 9 dag r)
    ⊎ ((check_commit sha256 detector dag 1 ≡ none)
        × ((r : CommitResult) → r.round ≡ 1 → ¬ IsJustified sha256 three 9 dag r))
check_commit_example = check_commit_lem sha256 detector dag 1 (omega arith) (omega arith)

try_advance-Advances_example : Advances sha256 detector dag (try_advance sha256 detector dag)
unfolding max_round insert new
try_advance-Advances_example = try_advance-Advances sha256 dag (omega arith) detector (omega arith)

-- A view that misses an event of round 2.
abbrev partial : DagStore
partial = insert (insert new (event_of 11 1 1 [])) (event_of 21 1 2 (11 ∷ []))

consistent : IsConsistent dag partial
unfolding event_at insert new Dict.get Dict.insert
consistent creator round e f h k = ground (arith, h, k)

try_advance-SameAnchors_example :
    (e e' : CommitDetector) × (commits commits' : List CommitResult) × (try_advance sha256 detector
        dag
      ≡ some (e, commits))
    × (try_advance sha256 (record detector { validator_set = turned }) partial
        ≡ some (e', commits'))
    × SameAnchors commits commits'
unfolding max_round insert new
try_advance-SameAnchors_example =
    try_advance-SameAnchors sha256 detector (record detector { validator_set = turned }) dag partial
      three-IsValid turned-IsValid same_stakes refl refl (omega arith) (omega arith) (omega arith)
      consistent
