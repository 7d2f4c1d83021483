-- ===== src/Network/Peer.antt =====
-- network/peer.rs. The time is an argument, in nanoseconds; a socket address is a number. An `i32`
-- stands as the number 2 ^ 31 above it, which has the same order.
pub mod Calls
use ryther_core.Base.{
  ℕ, ◌+◌, ◌-◌, ◌*◌, ◌^◌, min, Bool, true, false, Option, none, some, List, [], ◌∷◌, ◌&&◌, not, leb,
  ltb, eqb, if◌then◌else◌, add64, length, take, nat_eq,
}
use ryther_core.Dict

pub data PeerState : Type 0 where
  disconnected : PeerState
  connecting : PeerState
  connected : PeerState
  banned : PeerState

pub record PeerInfo : Type 0 where
  pub id : ℕ
  pub addr : ℕ
  pub state : PeerState
  pub last_seen : ℕ
  pub rtt : Option ℕ
  pub messages_sent : ℕ
  pub messages_received : ℕ
  pub reputation : ℕ

unfoldable pub new_peer : ℕ → ℕ → ℕ → PeerInfo
new_peer now id addr = record {
  id = id;
  addr = addr;
  state = disconnected;
  last_seen = now;
  rtt = none;
  messages_sent = 0;
  messages_received = 0;
  reputation = 2 ^ 31;
}

unfoldable pub touch : ℕ → PeerInfo → PeerInfo
touch now p = record p { last_seen = now }

unfoldable pub is_stale : ℕ → ℕ → PeerInfo → Bool
is_stale now timeout p = ltb timeout (now - p.last_seen)

-- `saturating_add`.
unfoldable pub reward : ℕ → PeerInfo → PeerInfo
reward amount p = record p { reputation = min (p.reputation + amount - 2 ^ 31) (2 ^ 32 - 1) }

-- `saturating_sub`.
unfoldable pub penalize : ℕ → PeerInfo → PeerInfo
penalize amount p = record p { reputation = min (p.reputation + 2 ^ 31 - amount) (2 ^ 32 - 1) }

pub record PeerManager : Type 0 where
  pub peers : List (ℕ × PeerInfo)
  pub max_peers : ℕ
  pub stale_timeout : ℕ
  pub local_id : ℕ

unfoldable pub new_manager : ℕ → ℕ → PeerManager
new_manager local_id max_peers = record {
  peers = [];
  max_peers = max_peers;
  stale_timeout = 300 * 10 ^ 9;
  local_id = local_id;
}

-- `entry(id).and_modify(..).or_insert_with(..)`.
unfoldable pub add_or_modify : ℕ → ℕ → ℕ → List (ℕ × PeerInfo) → List (ℕ × PeerInfo)
unfolding new_peer touch
add_or_modify now id addr peers = elim (Dict.get id peers) [
  | none ↦ Dict.insert id (new_peer now id addr) peers
  | some p ↦ Dict.insert id (touch now (record p { addr = addr })) peers
]

unfoldable pub add_peer : ℕ → ℕ → ℕ → PeerManager → Bool × PeerManager
unfolding add_or_modify
add_peer now id addr m =
    if eqb id m.local_id
    then (false, m)
    else (if leb m.max_peers (length m.peers) && not (Dict.contains_key id m.peers)
        then (false, m)
        else (true, record m { peers = add_or_modify now id addr m.peers }))

unfoldable pub remove_peer : ℕ → PeerManager → Option PeerInfo × PeerManager
remove_peer id m = (Dict.get id m.peers, record m { peers = Dict.remove id m.peers })

unfoldable pub get_peer : ℕ → PeerManager → Option PeerInfo
get_peer id m = Dict.get id m.peers

-- `if let Some(peer) = peers.get_mut(id)`, and what is done with it.
unfoldable pub update_peer : (PeerInfo → PeerInfo) → ℕ → List (ℕ × PeerInfo) → List (ℕ × PeerInfo)
update_peer f id peers = elim (Dict.get id peers) [
  | none ↦ peers
  | some p ↦ Dict.insert id (f p) peers
]

unfoldable pub set_state : ℕ → ℕ → PeerState → PeerManager → PeerManager
unfolding update_peer touch
set_state now id state m = record m {
  peers = update_peer (λ p. touch now (record p { state = state })) id m.peers;
}

abbrev pub is_connected : PeerState → Bool
is_connected connected = true
is_connected _ = false

abbrev pub connected_of : List (ℕ × PeerInfo) → List PeerInfo
connected_of [] = []
connected_of ((id, p) ∷ peers) =
    if is_connected p.state then p ∷ connected_of peers else connected_of peers

unfoldable pub connected_peers : PeerManager → List PeerInfo
connected_peers m = connected_of m.peers

unfoldable pub all_peer_ids : PeerManager → List ℕ
all_peer_ids m = Dict.keys m.peers

unfoldable pub peer_count : PeerManager → ℕ
peer_count m = length m.peers

unfoldable pub connected_count : PeerManager → ℕ
connected_count m = length (connected_of m.peers)

unfoldable pub record_sent : ℕ → ℕ → PeerManager → PeerManager
unfolding update_peer touch
record_sent now id m = record m {
  peers =
      update_peer (λ p. touch now (record p { messages_sent = add64 p.messages_sent 1 })) id
        m.peers;
}

unfoldable pub record_received : ℕ → ℕ → PeerManager → PeerManager
unfolding update_peer touch
record_received now id m = record m {
  peers =
      update_peer (λ p. touch now (record p { messages_received = add64 p.messages_received 1 })) id
        m.peers;
}

unfoldable pub reward_peer : ℕ → ℕ → PeerManager → PeerManager
unfolding update_peer reward
reward_peer id amount m = record m { peers = update_peer (reward amount) id m.peers }

unfoldable pub penalize_peer : ℕ → ℕ → PeerManager → PeerManager
unfolding update_peer penalize
penalize_peer id amount m = record m { peers = update_peer (penalize amount) id m.peers }

unfoldable pub ban_peer : ℕ → ℕ → PeerManager → PeerManager
unfolding set_state
ban_peer now id m = set_state now id banned m

unfoldable pub stale_ids : ℕ → ℕ → List (ℕ × PeerInfo) → List ℕ
unfolding is_stale
stale_ids now timeout [] = []
stale_ids now timeout ((id, p) ∷ peers) =
    if is_stale now timeout p then id ∷ stale_ids now timeout peers else stale_ids now timeout peers

-- The loop over the stale identifiers.
unfoldable pub remove_all : List ℕ → List (ℕ × PeerInfo) → List (ℕ × PeerInfo)
remove_all [] peers = peers
remove_all (id ∷ ids) peers = remove_all ids (Dict.remove id peers)

unfoldable pub prune_stale : ℕ → PeerManager → List ℕ × PeerManager
unfolding remove_all stale_ids
prune_stale now m =
    let stale = stale_ids now m.stale_timeout m.peers in
    (stale, record m { peers = remove_all stale m.peers })

-- `sort_by` with the higher reputation first: a stable sort.
unfoldable pub insert_descending : PeerInfo → List PeerInfo → List PeerInfo
insert_descending p [] = p ∷ []
insert_descending p (q ∷ peers) =
    if leb q.reputation p.reputation then p ∷ q ∷ peers else q ∷ insert_descending p peers

unfoldable pub descending : List PeerInfo → List PeerInfo
unfolding insert_descending
descending [] = []
descending (p ∷ peers) = insert_descending p (descending peers)

unfoldable pub best_peers : ℕ → PeerManager → List PeerInfo
unfolding descending
best_peers count m = take count (descending (connected_of m.peers))
