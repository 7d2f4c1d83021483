-- ===== src/Consensus/Commit/Agreement.antt =====
-- Two nodes that run consensus/commit.rs on different views of the DAG do not commit different
-- anchors.
use ryther_core.Base.{ℕ, suc, ◌<◌, ◌≡◌, some, List, [], ◌∷◌, u64_mod, sym, ◌∙◌, arith}
use ryther_core.Bytes.{be_bytes}
use ryther_core.Types.Event.{DagEvent}
use ryther_core.Types.Validator.{ValidatorSet, stake}
use ryther_core.Types.Validator.Stakes.{IsValid}
use ryther_core.Dag.Store.{DagStore, event_at, max_round}
use ryther_core.Consensus.Leader.{elect_leader}
use ryther_core.Consensus.Leader.Order.{elect_leader-same}
use ryther_core.Consensus.Commit.{CommitDetector, CommitResult, try_advance}
use ryther_core.Consensus.Commit.Advance.{IsChain, try_advance-Advances}

-- No creator has two events at a round, one in each view.
abbrev pub IsConsistent : DagStore → DagStore → Type 0
IsConsistent dag dag' =
    (creator round : ℕ) (e f : DagEvent)
    → event_at dag creator round ≡ some e
    → event_at dag' creator round ≡ some f
    → e.id ≡ f.id

-- As far as both lists go, they name the same rounds, leaders and anchors.
abbrev pub SameAnchors : List CommitResult → List CommitResult → Type 0
SameAnchors [] commits' = Unit {0}
SameAnchors (r ∷ commits) [] = Unit {0}
SameAnchors (r ∷ commits) (q ∷ commits') =
    (r.round ≡ q.round)
    × (r.leader ≡ q.leader)
    × (r.anchor_id ≡ q.anchor_id)
    × SameAnchors commits commits'

module _ (sha256 : List ℕ → ℕ) (s s' : ValidatorSet) (dag dag' : DagStore)
    (elects : (round seed : ℕ)
      → elect_leader sha256 s round seed ≡ elect_leader sha256 s' round seed)
    (consistent : IsConsistent dag dag') where
  IsChain-SameAnchors :
      (last seed : ℕ) (commits commits' : List CommitResult)
      → IsChain sha256 s last seed dag commits
      → IsChain sha256 s' last seed dag' commits'
      → SameAnchors commits commits'
  IsChain-SameAnchors last seed [] commits' c c' = tt
  IsChain-SameAnchors last seed (r ∷ commits) [] c c' = tt
  IsChain-SameAnchors last seed (r ∷ commits) (q ∷ commits') (at, j, rest) (at', j', rest') =
      let rounds : r.round ≡ q.round = at ∙ sym at' in
      let elected' : elect_leader sha256 s r.round seed ≡ some q.leader =
        elects r.round seed ∙ rw rounds j'.elected in
      let first = j.elected in
      let leaders : r.leader ≡ q.leader = cc (first, elected') in
      let stands' : event_at dag' r.leader r.round ≡ some j'.anchor =
        rw (leaders, rounds) j'.stands in
      let anchors : r.anchor_id ≡ q.anchor_id =
        sym j.named ∙ consistent r.leader r.round j.anchor j'.anchor j.stands stands' ∙ j'.named in
      (
        rounds,
        leaders,
        anchors,
        IsChain-SameAnchors r.round (sha256 (be_bytes 32 r.anchor_id)) commits commits' rest
            (rw (rounds, anchors) rest'),
      )

-- Two detectors on valid validator sets with the same stake for every validator, with the same
-- last committed round and seed, and on views of the DAG in which no creator has different events
-- at one round, commit the same rounds, leaders and anchors, as far as both go. The rounds are
-- below 2 ^ 64 - 1.
pub try_advance-SameAnchors :
    (sha256 : List ℕ → ℕ) (d d' : CommitDetector) (dag dag' : DagStore)
    → IsValid d.validator_set
    → IsValid d'.validator_set
    → ((id : ℕ) → stake d.validator_set id ≡ stake d'.validator_set id)
    → d.last_committed ≡ d'.last_committed
    → d.seed ≡ d'.seed
    → suc (max_round dag) < u64_mod
    → suc (max_round dag') < u64_mod
    → suc d.last_committed < u64_mod
    → IsConsistent dag dag'
    → (e e' : CommitDetector) × (commits commits' : List CommitResult) × (try_advance sha256 d dag
        ≡ some (e, commits))
      × (try_advance sha256 d' dag' ≡ some (e', commits'))
      × SameAnchors commits commits'
try_advance-SameAnchors sha256 d d' dag dag' v v' stakes lasts seeds fits fits' low consistent =
    let (e, commits, ran, chain, _, _, _) = try_advance-Advances sha256 dag fits d low in
    let (e', commits', ran', chain', _, _, _) =
      try_advance-Advances sha256 dag' fits' d' (omega arith) in
    let same = λ (round seed : ℕ).
      elect_leader-same sha256 d.validator_set d'.validator_set round seed v v' stakes in
    (
      e,
      e',
      commits,
      commits',
      ran,
      ran',
      IsChain-SameAnchors sha256 d.validator_set d'.validator_set dag dag' same consistent
          d.last_committed d.seed commits commits' chain (rw (lasts, seeds) chain'),
    )
