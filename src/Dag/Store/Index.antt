-- ===== src/Dag/Store/Index.antt =====
-- The indexes of dag/store.rs agree with the stored events.
use ryther_core.Base.{
  ℕ, ◌≤◌, ◌≡◌, inl, inr, true, false, some, eqb, eqb_iff, nat_eq, pair_eq, arith, Bool-cases, ap,
  sym, ◌⊎◌,
}
use ryther_core.Dict
use ryther_core.Dict.{contains}
use ryther_core.Dict.Laws.{get-insert, get-insert_cases}
use ryther_core.Types.Event.{DagEvent}
use ryther_core.Dag.Store.{DagStore, insert, or_empty}

abbrev pub IsStored : DagStore → ℕ → DagEvent → Type 0
IsStored d id e = Dict.get id d.events ≡ some e

-- Each event is listed at its round and has an event at its creator and round; the newest entry of
-- its creator is stored and of no lower round.
pub record IsIndexed (d : DagStore) : Type 0 where
  pub bounded : (id : ℕ) (e : DagEvent) → IsStored d id e → e.round ≤ d.max_seen
  pub newest :
      (id : ℕ) (e : DagEvent)
      → IsStored d id e
      → (l : ℕ) × (f : DagEvent) × (Dict.get e.creator d.latest_by_creator ≡ some l)
        × IsStored d l f
        × (e.round ≤ f.round)
  pub grounded :
      (c l : ℕ)
      → Dict.get c d.latest_by_creator ≡ some l
      → (f : DagEvent) × IsStored d l f × (f.creator ≡ c)
  pub listed :
      (id : ℕ) (e : DagEvent)
      → IsStored d id e
      → contains id (or_empty (Dict.get e.round d.by_round)) ≡ true
  pub held :
      (r id : ℕ)
      → contains id (or_empty (Dict.get r d.by_round)) ≡ true
      → (e : DagEvent) × IsStored d id e × (e.round ≡ r)
  pub placed :
      (c r id : ℕ)
      → Dict.get (c, r) d.by_creator_round ≡ some id
      → (e : DagEvent) × IsStored d id e × (e.creator ≡ c) × (e.round ≡ r)
  pub located :
      (id : ℕ) (e : DagEvent)
      → IsStored d id e
      → (j : ℕ) × (Dict.get (e.creator, e.round) d.by_creator_round ≡ some j)

-- No other event is stored under the identifier.
abbrev pub IsConsistent : DagStore → DagEvent → Type 0
IsConsistent d event = (e : DagEvent) → IsStored d event.id e → e ≡ event

module _ (d : DagStore) (event : DagEvent) (same : IsConsistent d event) where
  pub IsStored-new : IsStored (insert d event) event.id event
  unfolding insert
  IsStored-new =
      rw (get-insert event.id event.id event d.events) (ground (arith, eqb_iff event.id event.id))

  pub IsStored-old : (id : ℕ) (e : DagEvent) → IsStored d id e → IsStored (insert d event) id e
  unfolding insert
  IsStored-old id e h = elim (Bool-cases (eqb event.id id)) [
    | inl k ↦
        let here : event.id ≡ id = (eqb_iff event.id id).0 k in
        rw (get-insert id event.id event d.events, k) (ap some (sym (same e (rw here h))))
    | inr k ↦ rw (get-insert id event.id event d.events, k) h
  ]

  pub IsStored-cases :
      (id : ℕ) (e : DagEvent)
      → IsStored (insert d event) id e
      → ((event.id ≡ id) × (event ≡ e)) ⊎ ((eqb event.id id ≡ false) × IsStored d id e)
  unfolding insert
  IsStored-cases id e h = get-insert_cases id event.id event d.events e h
