-- ===== src/Consensus/Commit.antt =====
-- consensus/commit.rs. `sha256` is a parameter; rounds are `u64` and wrap around.
pub mod Support
pub mod Chain
pub mod Advance
pub mod Agreement
use ryther_core.Base.{
  ℕ, zero, suc, ◌-◌, Bool, true, false, Option, none, some, List, [], ◌∷◌, if◌then◌else◌, leb, ltb,
  add64, nat_eq,
}
use ryther_core.Bytes.{be_bytes}
use ryther_core.Dict.{add}
use ryther_core.Types.Event.{DagEvent}
use ryther_core.Types.Validator.{ValidatorSet, has_quorum}
use ryther_core.Dag.Store.{DagStore, event_at, events_at_round, can_reach, max_round}
use ryther_core.Consensus.Leader.{elect_leader}

pub record CommitDetector : Type 0 where
  pub validator_set : ValidatorSet
  pub last_committed : ℕ
  pub seed : ℕ

unfoldable pub new : ValidatorSet → ℕ → CommitDetector
new s initial_seed = record { validator_set = s; last_committed = 0; seed = initial_seed }

pub record CommitResult : Type 0 where
  pub round : ℕ
  pub anchor_id : ℕ
  pub leader : ℕ
  pub support_round : ℕ

-- The creators of those events that reference the anchor.
unfoldable pub supporters_of : DagStore → ℕ → List DagEvent → List ℕ → List ℕ
supporters_of dag anchor [] supporters = supporters
supporters_of dag anchor (event ∷ events) supporters =
    let counted = supporters_of dag anchor events (add event.creator supporters) in
    let skipped = supporters_of dag anchor events supporters in
    if can_reach dag event.id anchor then counted else skipped

unfoldable pub check_quorum_support : CommitDetector → DagStore → ℕ → ℕ → Option ℕ
unfolding supporters_of
check_quorum_support d dag anchor future_round =
    if has_quorum d.validator_set (supporters_of dag anchor (events_at_round dag future_round) [])
    then some future_round
    else none

abbrev pub or_next : Option ℕ → Option ℕ → Option ℕ
or_next (some r) next = some r
or_next none next = next

-- The loop over `count` rounds from `future_round` on.
unfoldable pub first_support : CommitDetector → DagStore → ℕ → ℕ → ℕ → Option ℕ
unfolding check_quorum_support
first_support d dag anchor zero future_round = none
first_support d dag anchor (suc count) future_round =
    or_next (check_quorum_support d dag anchor future_round)
      (first_support d dag anchor count (suc future_round))

abbrev pub supported_result : ℕ → ℕ → ℕ → Option ℕ → Option CommitResult
supported_result round anchor_id leader none = none
supported_result round anchor_id leader (some support_round) = some (record {
  round = round;
  anchor_id = anchor_id;
  leader = leader;
  support_round = support_round;
})

unfoldable pub check_anchor :
    CommitDetector → DagStore → ℕ → ℕ → Option DagEvent → Option CommitResult
unfolding first_support
check_anchor d dag round leader none = none
check_anchor d dag round leader (some anchor) =
    let start = add64 round 1 in
    supported_result round anchor.id leader
      (first_support d dag anchor.id (suc (max_round dag) - start) start)

unfoldable pub check_leader : CommitDetector → DagStore → ℕ → Option ℕ → Option CommitResult
unfolding check_anchor
check_leader d dag round none = none
check_leader d dag round (some leader) = check_anchor d dag round leader (event_at dag leader round)

unfoldable pub check_commit : (List ℕ → ℕ) → CommitDetector → DagStore → ℕ → Option CommitResult
unfolding check_leader
check_commit sha256 d dag round =
    if leb round d.last_committed
    then none
    else check_leader d dag round (elect_leader sha256 d.validator_set round d.seed)

unfoldable pub confirm_commit : (List ℕ → ℕ) → CommitDetector → ℕ → ℕ → CommitDetector
confirm_commit sha256 d round anchor_id =
    if ltb d.last_committed round
    then record d { last_committed = round; seed = sha256 (be_bytes 32 anchor_id) }
    else d

unfoldable pub last_committed : CommitDetector → ℕ
last_committed d = d.last_committed

unfoldable pub current_seed : CommitDetector → ℕ
current_seed d = d.seed

abbrev pub with_commit :
    CommitResult
    → Option (CommitDetector × List CommitResult)
    → Option (CommitDetector × List CommitResult)
with_commit result none = none
with_commit result (some (d, commits)) = some (d, result ∷ commits)

-- What follows a check of `round`: the rest of the loop is given for the detector that the commit
-- leaves.
abbrev pub after_check :
    (List ℕ → ℕ)
    → CommitDetector
    → Option CommitResult
    → (CommitDetector → Option (CommitDetector × List CommitResult))
    → Option (CommitDetector × List CommitResult)
after_check sha256 d none rest = some (d, [])
after_check sha256 d (some result) rest =
    with_commit result (rest (confirm_commit sha256 d result.round result.anchor_id))

-- The loop of `try_advance`; none when the fuel is used up.
unfoldable pub advance :
    (List ℕ → ℕ) → ℕ → CommitDetector → DagStore → ℕ → Option (CommitDetector × List CommitResult)
advance sha256 zero d dag round = none
advance sha256 (suc fuel) d dag round =
    let next =
      after_check sha256 d (check_commit sha256 d dag round)
        (λ d'. advance sha256 fuel d' dag (add64 round 1)) in
    if leb round (max_round dag) then next else some (d, [])

-- The detector and the commits that `try_advance` leaves.
unfoldable pub try_advance :
    (List ℕ → ℕ) → CommitDetector → DagStore → Option (CommitDetector × List CommitResult)
unfolding advance
try_advance sha256 d dag =
    let first = add64 d.last_committed 1 in
    advance sha256 (suc (suc (max_round dag) - first)) d dag first
