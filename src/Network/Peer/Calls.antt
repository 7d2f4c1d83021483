-- ===== src/Network/Peer/Calls.antt =====
-- network/peer.rs: what holds of a manager however it is called.
use ryther_core.Base.{ℕ, ◌≤◌, ◌≡◌, none, List, [], ◌∷◌, length, nat_eq}
use ryther_core.Dict
use ryther_core.Network.Peer.{
  PeerState, PeerManager, add_peer, remove_peer, set_state, record_sent, record_received,
  reward_peer, penalize_peer, ban_peer, prune_stale,
}

-- The calls that change a manager.
pub data Call : Type 0 where
  add : (now id addr : ℕ) → Call
  remove : (id : ℕ) → Call
  change : (now id : ℕ) → PeerState → Call
  sent : (now id : ℕ) → Call
  received : (now id : ℕ) → Call
  rewarded : (id amount : ℕ) → Call
  penalized : (id amount : ℕ) → Call
  ban : (now id : ℕ) → Call
  prune : (now : ℕ) → Call

abbrev pub run_call : Call → PeerManager → PeerManager
run_call (add now id addr) m = (add_peer now id addr m).1
run_call (remove id) m = (remove_peer id m).1
run_call (change now id state) m = set_state now id state m
run_call (sent now id) m = record_sent now id m
run_call (received now id) m = record_received now id m
run_call (rewarded id amount) m = reward_peer id amount m
run_call (penalized id amount) m = penalize_peer id amount m
run_call (ban now id) m = ban_peer now id m
run_call (prune now) m = (prune_stale now m).1

abbrev pub run_calls : List Call → PeerManager → PeerManager
run_calls [] m = m
run_calls (c ∷ calls) m = run_calls calls (run_call c m)

-- A manager of the node `local_id` for `max_peers` peers that knows each peer once, not more of
-- them than it may, and never itself.
pub record IsManager (local_id max_peers : ℕ) (m : PeerManager) : Type 0 where
  pub local_lem : m.local_id ≡ local_id
  pub max_lem : m.max_peers ≡ max_peers
  pub distinct : Dict.Distinct m.peers
  pub bounded : length m.peers ≤ max_peers
  pub other : Dict.get local_id m.peers ≡ none
