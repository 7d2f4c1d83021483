-- ===== src/Dag/Store/Insert.antt =====
-- `insert` of dag/store.rs keeps the indexes.
use ryther_core.Base.{ℕ, ◌≤◌, inl, inr, nat_eq, pair_eq, arith, sym}
use ryther_core.Types.Event.{DagEvent}
use ryther_core.Dag.Store.{DagStore, new, insert}
use ryther_core.Dict
use ryther_core.Dict.{contains}
use ryther_core.Dag.Store.Index.{IsStored, IsIndexed, IsConsistent, IsStored-cases}
use ryther_core.Dag.Store.Latest.{insert-newest, insert-grounded}
use ryther_core.Dag.Store.Rounds.{insert-listed, insert-held, insert-placed, insert-located}

module _ (d : DagStore) (event : DagEvent) (same : IsConsistent d event) where
  insert-bounded :
      IsIndexed d
      → (id : ℕ) (e : DagEvent) → IsStored (insert d event) id e
      → e.round ≤ (insert d event).max_seen
  unfolding insert
  insert-bounded i id e h = elim (IsStored-cases d event same id e h) [
    | inl (_, eq) ↦ rw (sym eq) (omega arith)
    | inr (_, old) ↦ omega (arith, i.bounded id e old)
  ]

  -- Inserting an event under whose identifier no other event is stored keeps the indexes in step
  -- with the stored events, among them that the latest event of a creator is one of its highest
  -- round.
  pub insert-IsIndexed : IsIndexed d → IsIndexed (insert d event)
  insert-IsIndexed i = record {
    bounded = insert-bounded i;
    newest = insert-newest d event same i;
    grounded = insert-grounded d event same i;
    listed = insert-listed d event same i;
    held = insert-held d event same i;
    placed = insert-placed d event same i;
    located = insert-located d event same i;
  }

pub new-IsIndexed : IsIndexed new
unfolding new Dict.get contains
new-IsIndexed = record {
  bounded = λ id e h. absurd (cc h);
  newest = λ id e h. absurd (cc h);
  grounded = λ c l h. absurd (cc h);
  listed = λ id e h. absurd (cc h);
  held = λ r id h. absurd (ground (arith, h));
  placed = λ c r id h. absurd (cc h);
  located = λ id e h. absurd (cc h);
}
