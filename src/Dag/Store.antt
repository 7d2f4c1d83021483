-- ===== src/Dag/Store.antt =====
-- dag/store.rs. The maps are association lists; `insert` is one step, as the node calls it.
pub mod Index
pub mod Latest
pub mod Rounds
pub mod Insert
pub mod Reach
use ryther_core.Base.{
  ℕ, suc, zero, ◌+◌, max, Bool, true, false, not, Option, none, some, List, [], ◌∷◌, ◌++◌, map,
  if◌then◌else◌, ltb, eqb, length, nat_eq, pair_eq,
}
use ryther_core.Dict
use ryther_core.Dict.{add}
use ryther_core.Types.Event.{DagEvent}

pub record DagStore : Type 0 where
  pub events : List (ℕ × DagEvent)
  pub by_creator_round : List ((ℕ × ℕ) × ℕ)
  pub by_round : List (ℕ × List ℕ)
  pub latest_by_creator : List (ℕ × ℕ)
  pub max_seen : ℕ

unfoldable pub new : DagStore
new = record {
  events = [];
  by_creator_round = [];
  by_round = [];
  latest_by_creator = [];
  max_seen = 0;
}

abbrev pub or_empty : Option (List ℕ) → List ℕ
or_empty none = []
or_empty (some ids) = ids

-- The `existing` event of the creator, if it is stored, keeps its place unless the new one is of
-- a later round.
abbrev pub replace_latest : List (ℕ × ℕ) → DagEvent → Option DagEvent → List (ℕ × ℕ)
replace_latest latest event none = latest
replace_latest latest event (some existing) =
    if ltb existing.round event.round then Dict.insert event.creator event.id latest else latest

abbrev pub update_latest : List (ℕ × DagEvent) → List (ℕ × ℕ) → DagEvent → Option ℕ → List (ℕ × ℕ)
update_latest events latest event none = Dict.insert event.creator event.id latest
update_latest events latest event (some id) = replace_latest latest event (Dict.get id events)

unfoldable pub insert : DagStore → DagEvent → DagStore
insert d event = record {
  max_seen = max d.max_seen event.round;
  by_creator_round = Dict.insert (event.creator, event.round) event.id d.by_creator_round;
  by_round =
      Dict.insert event.round (or_empty (Dict.get event.round d.by_round) ++ event.id ∷ [])
        d.by_round;
  latest_by_creator =
      update_latest d.events d.latest_by_creator event (Dict.get event.creator d.latest_by_creator);
  events = Dict.insert event.id event d.events;
}

unfoldable pub get : DagStore → ℕ → Option DagEvent
get d id = Dict.get id d.events

unfoldable pub contains : DagStore → ℕ → Bool
contains d id = Dict.contains_key id d.events

unfoldable pub latest_from : DagStore → ℕ → Option ℕ
latest_from d creator = Dict.get creator d.latest_by_creator

abbrev pub cons_some : Option DagEvent → List DagEvent → List DagEvent
cons_some none events = events
cons_some (some event) events = event ∷ events

abbrev pub stored : List (ℕ × DagEvent) → List ℕ → List DagEvent
stored events [] = []
stored events (id ∷ ids) = cons_some (Dict.get id events) (stored events ids)

unfoldable pub events_at_round : DagStore → ℕ → List DagEvent
events_at_round d round = stored d.events (or_empty (Dict.get round d.by_round))

abbrev pub lookup : List (ℕ × DagEvent) → Option ℕ → Option DagEvent
lookup events none = none
lookup events (some id) = Dict.get id events

unfoldable pub event_at : DagStore → ℕ → ℕ → Option DagEvent
event_at d creator round = lookup d.events (Dict.get (creator, round) d.by_creator_round)

unfoldable pub max_round : DagStore → ℕ
max_round d = d.max_seen

abbrev pub strong_parents_of : Option DagEvent → List ℕ
strong_parents_of none = []
strong_parents_of (some event) = event.strong_parents

-- The parents that the inner loop pushes.
unfoldable pub unvisited : List ℕ → List ℕ → List ℕ
unvisited visited [] = []
unvisited visited (parent ∷ parents) =
    let rest = unvisited visited parents in
    if not (Dict.contains parent visited) then parent ∷ rest else rest

-- The loop of `can_reach`; none when the fuel is used up.
unfoldable pub bfs : ℕ → List (ℕ × DagEvent) → ℕ → List ℕ → List ℕ → Option Bool
unfolding unvisited
bfs zero events to visited queue = none
bfs (suc fuel) events to visited [] = some false
bfs (suc fuel) events to visited (current ∷ queue) =
    let visited' = add current visited in
    let parents = strong_parents_of (Dict.get current events) in
    let again = bfs fuel events to visited queue in
    let visit = bfs fuel events to visited' (queue ++ unvisited visited' parents) in
    if eqb current to then some true else if Dict.contains current visited then again else visit

-- The parent links of the events that are not visited.
unfoldable pub links_left : List ℕ → List (ℕ × DagEvent) → ℕ
links_left visited [] = 0
links_left visited ((id, event) ∷ events) =
    (if Dict.contains id visited then 0 else length event.strong_parents)
    + links_left visited events

-- What `can_reach` returns, none if the fuel did not suffice.
unfoldable pub run_can_reach : DagStore → ℕ → ℕ → Option Bool
unfolding bfs links_left
run_can_reach d from to =
    if eqb from to
    then some true
    else bfs (suc (suc (links_left [] d.events))) d.events to [] (from ∷ [])

abbrev pub or_false : Option Bool → Bool
or_false none = false
or_false (some b) = b

unfoldable pub can_reach : DagStore → ℕ → ℕ → Bool
unfolding run_can_reach
can_reach d from to = or_false (run_can_reach d from to)

unfoldable pub len : DagStore → ℕ
len d = length d.events

unfoldable pub is_empty : DagStore → Bool
is_empty d = eqb (length d.events) 0

unfoldable pub all_events : DagStore → List DagEvent
all_events d = Dict.values d.events
