-- ===== src/Tests/Store.antt =====
-- The theorems about dag/store.rs at concrete inputs.
use ryther_core.Base.{ℕ, ◌≡◌, ◌↔◌, some, true, List, [], ◌∷◌, nat_eq}
use ryther_core.Dict
use ryther_core.Types.Event.{DagEvent}
use ryther_core.Dag.Store.{DagStore, new, insert, run_can_reach, can_reach}
use ryther_core.Dag.Store.Index.{IsIndexed, IsConsistent}
use ryther_core.Dag.Store.Insert.{new-IsIndexed, insert-IsIndexed}
use ryther_core.Dag.Store.Reach.{Reach, can_reach_lem}

abbrev pub event_of : ℕ → ℕ → ℕ → List ℕ → DagEvent
event_of id creator round parents = record {
  id = id;
  creator = creator;
  lamport_time = round;
  round = round;
  strong_parents = parents;
  weak_parents = [];
  payload = record { transactions = []; batch_root = 0 };
  signature = 0;
}

-- Validator 1 has an event at rounds 1 and 2.
abbrev first : DagEvent
first = event_of 11 1 1 []

abbrev second : DagEvent
second = event_of 12 1 2 (11 ∷ [])

abbrev one_event : DagStore
one_event = insert new first

first-IsConsistent : IsConsistent new first
unfolding new Dict.get
first-IsConsistent e h = absurd (cc h)

second-IsConsistent : IsConsistent one_event second
unfolding new insert Dict.get Dict.insert
second-IsConsistent e h = absurd (cc h)

insert-IsIndexed_example : IsIndexed (insert one_event second)
insert-IsIndexed_example =
    insert-IsIndexed one_event second second-IsConsistent
      (insert-IsIndexed new first first-IsConsistent new-IsIndexed)

can_reach_example :
    (run_can_reach (insert one_event second) 12 11
      ≡ some (can_reach (insert one_event second) 12 11))
    × ((can_reach (insert one_event second) 12 11 ≡ true)
        ↔ Reach (insert one_event second).events 12 11)
can_reach_example = can_reach_lem (insert one_event second) 12 11
