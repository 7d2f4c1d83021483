-- ===== src/Dag/Store/Rounds.antt =====
-- The rounds of dag/store.rs, over an insertion.
use ryther_core.Base.{
  ℕ, ◌≡◌, refl, inl, inr, true, some, List, [], ◌∷◌, ◌++◌, eqb, eqb_iff, nat_eq, pair_eq, arith,
  Bool-cases, ◌==◌, ap, sym, ◌∙◌, ◌||◌,
}
use ryther_core.Dict
use ryther_core.Dict.{contains}
use ryther_core.Dict.Laws.{get-insert, get-insert_self, get-insert_ne, get-insert_cases}
use ryther_core.Types.Event.{DagEvent}
use ryther_core.Dag.Store.{DagStore, insert, or_empty}
use ryther_core.Dag.Store.Index.{
  IsStored, IsIndexed, IsConsistent, IsStored-new, IsStored-old, IsStored-cases,
}

contains_last : (v u : ℕ) (xs : List ℕ) → contains v (xs ++ u ∷ []) ≡ (contains v xs || eqb u v)
unfolding contains
contains_last v u [] = ground arith
contains_last v u (x ∷ xs) = ground (arith, contains_last v u xs)

module _ (d : DagStore) (event : DagEvent) (same : IsConsistent d event) where
  pub insert-listed :
      IsIndexed d
      → (id : ℕ) (e : DagEvent) → IsStored (insert d event) id e
      → contains id (or_empty (Dict.get e.round (insert d event).by_round)) ≡ true
  unfolding insert
  insert-listed i id e h =
      let old_ids = or_empty (Dict.get event.round d.by_round) in
      let added = λ (r : ℕ). get-insert r event.round (old_ids ++ event.id ∷ []) d.by_round in
      let grown = contains_last id event.id old_ids in
      elim (IsStored-cases d event same id e h) [
        | inl (eq, same_event) ↦
            rw (sym same_event, added event.round)
              (ground (arith, grown, eq, eqb_iff event.round event.round, eqb_iff event.id id))
        | inr (_, old) ↦
            let before = i.listed id e old in
            elim (Bool-cases (eqb event.round e.round)) [
              | inl here ↦
                  let eq : event.round ≡ e.round = (eqb_iff event.round e.round).0 here in
                  let before' : contains id old_ids ≡ true = rw eq before in
                  rw (added e.round, here) (ground (arith, grown, before'))
              | inr there ↦ rw (added e.round, there) before
            ]
      ]

  pub insert-held :
      IsIndexed d
      → (r id : ℕ) → contains id (or_empty (Dict.get r (insert d event).by_round)) ≡ true
      → (e : DagEvent) × IsStored (insert d event) id e × (e.round ≡ r)
  unfolding insert
  insert-held i r id h =
      let old_ids = or_empty (Dict.get event.round d.by_round) in
      let added = get-insert r event.round (old_ids ++ event.id ∷ []) d.by_round in
      let grown = contains_last id event.id old_ids in
      let older : contains id (or_empty (Dict.get r d.by_round)) ≡ true
          → (e : DagEvent) × IsStored (insert d event) id e × (e.round ≡ r) =
        λ m. let (e, held, at) = i.held r id m in (e, IsStored-old d event same id e held, at) in
      elim (Bool-cases (eqb event.round r)) [
        | inr there ↦ older (rw (added, there) at h)
        | inl here ↦
            let eq : event.round ≡ r = (eqb_iff event.round r).0 here in
            let either : (contains id old_ids || eqb event.id id) ≡ true =
              sym grown ∙ rw (added, here) at h in
            elim (Bool-cases (eqb event.id id)) [
              | inl mine ↦
                  let eid : event.id ≡ id = (eqb_iff event.id id).0 mine in
                  (event, rw (sym eid) (IsStored-new d event same), eq)
              | inr other ↦ older (rw (sym eq) (ground (arith, either, other)))
            ]
      ]

  pub insert-placed :
      IsIndexed d
      → (c r id : ℕ) → Dict.get (c, r) (insert d event).by_creator_round ≡ some id
      → (e : DagEvent) × IsStored (insert d event) id e × (e.creator ≡ c) × (e.round ≡ r)
  unfolding insert
  insert-placed i c r id h =
      elim (get-insert_cases (c, r) (event.creator, event.round) event.id d.by_creator_round id h) [
        | inl (eq, eid) ↦
            (event, rw (sym eid) (IsStored-new d event same), ap (λ p. p.0) eq, ap (λ p. p.1) eq)
        | inr (_, old) ↦
            let (e, held, by, at) = i.placed c r id old in
            (e, IsStored-old d event same id e held, by, at)
      ]

  pub insert-located :
      IsIndexed d
      → (id : ℕ) (e : DagEvent) → IsStored (insert d event) id e
      → (j : ℕ) × (Dict.get (e.creator, e.round) (insert d event).by_creator_round ≡ some j)
  unfolding insert
  insert-located i id e h =
      let key : ℕ × ℕ = (event.creator, event.round) in
      elim (IsStored-cases d event same id e h) [
        | inl (_, eq) ↦ rw (sym eq) (event.id, get-insert_self key event.id d.by_creator_round)
        | inr (_, old) ↦ elim (Bool-cases (key == (e.creator, e.round))) [
          | inl mine ↦ (
            event.id,
            rw (get-insert (e.creator, e.round) key event.id d.by_creator_round, mine) refl,
          )
          | inr other ↦
              let (j, found) = i.located id e old in
              (j, get-insert_ne (e.creator, e.round) key event.id d.by_creator_round other ∙ found)
        ]
      ]
