-- ===== src/Dag/Store/Latest.antt =====
-- The latest event of a creator in dag/store.rs, over an insertion.
use ryther_core.Base.{
  ℕ, ◌≤◌, ◌≡◌, refl, inl, inr, false, some, ltb, eqb, eqb_iff, nat_eq, pair_eq, arith, Bool-cases,
  Option-cases, sym, ◌∙◌,
}
use ryther_core.Dict
use ryther_core.Dict.{contains}
use ryther_core.Dict.Laws.{get-insert_self, get-insert_ne}
use ryther_core.Types.Event.{DagEvent}
use ryther_core.Dag.Store.{DagStore, insert}
use ryther_core.Dag.Store.Index.{
  IsStored, IsIndexed, IsConsistent, IsStored-new, IsStored-old, IsStored-cases,
}

module _ (d : DagStore) (event : DagEvent) (same : IsConsistent d event) where
  -- The creator's latest entry after the insertion.
  latest_self :
      IsIndexed d
      → (l : ℕ) × (f : DagEvent) × (Dict.get event.creator (insert d event).latest_by_creator
          ≡ some l)
        × IsStored (insert d event) l f
        × (f.creator ≡ event.creator)
        × (event.round ≤ f.round)
        × ((k : ℕ) (g : DagEvent)
            → Dict.get event.creator d.latest_by_creator ≡ some k
            → IsStored d k g
            → g.round ≤ f.round)
  unfolding insert
  latest_self i = elim (Option-cases (Dict.get event.creator d.latest_by_creator)) [
    | inl first ↦ (
      event.id,
      event,
      rw first (get-insert_self event.creator event.id d.latest_by_creator),
      IsStored-new d event same,
      refl,
      omega arith,
      λ k g h m. absurd (cc (h, first)),
    )
    | inr (l, known) ↦
        let (f, held, by) = i.grounded event.creator l known in
        elim (Bool-cases (ltb f.round event.round)) [
          | inl later ↦ (
            event.id,
            event,
            rw (known, held, later) (get-insert_self event.creator event.id d.latest_by_creator),
            IsStored-new d event same,
            refl,
            omega arith,
            λ k g h m.
                let ek : k ≡ l = cc (h, known) in
                let eg : g ≡ f = cc (rw ek at m, held) in rw eg (ground (arith, later)),
          )
          | inr kept ↦ (
            l,
            f,
            rw (known, held, kept) known,
            IsStored-old d event same l f held,
            by,
            ground (arith, kept),
            λ k g h m.
                let ek : k ≡ l = cc (h, known) in
                let eg : g ≡ f = cc (rw ek at m, held) in rw eg (omega arith),
          )
        ]
  ]

  latest_other :
      (c : ℕ)
      → eqb event.creator c ≡ false
      → Dict.get c (insert d event).latest_by_creator ≡ Dict.get c d.latest_by_creator
  unfolding insert
  latest_other c ne = elim (Option-cases (Dict.get event.creator d.latest_by_creator)) [
    | inl first ↦ rw first (get-insert_ne c event.creator event.id d.latest_by_creator ne)
    | inr (l, known) ↦ elim (Option-cases (Dict.get l d.events)) [
      | inl gone ↦ rw (known, gone) refl
      | inr (f, held) ↦ elim (Bool-cases (ltb f.round event.round)) [
        | inl later ↦
            rw (known, held, later) (get-insert_ne c event.creator event.id d.latest_by_creator ne)
        | inr kept ↦ rw (known, held, kept) refl
      ]
    ]
  ]

  pub insert-newest :
      IsIndexed d
      → (id : ℕ) (e : DagEvent) → IsStored (insert d event) id e
      → (l : ℕ) × (f : DagEvent) × (Dict.get e.creator (insert d event).latest_by_creator ≡ some l)
        × IsStored (insert d event) l f
        × (e.round ≤ f.round)
  insert-newest i id e h =
      let (l, f, known, held, by, above, over) = latest_self i in
      elim (IsStored-cases d event same id e h) [
        | inl (_, eq) ↦ rw (sym eq) (l, f, known, held, above)
        | inr (_, old) ↦
            let (k, g, newest, held', le) = i.newest id e old in
            elim (Bool-cases (eqb event.creator e.creator)) [
              | inl mine ↦
                  let eq : event.creator ≡ e.creator = (eqb_iff event.creator e.creator).0 mine in
                  let le' = over k g (rw eq newest) held' in
                  (l, f, rw (sym eq) known, held, omega arith)
              | inr other ↦ (
                k,
                g,
                rw (latest_other e.creator other) newest,
                IsStored-old d event same k g held',
                le,
              )
            ]
      ]

  pub insert-grounded :
      IsIndexed d
      → (c l : ℕ) → Dict.get c (insert d event).latest_by_creator ≡ some l
      → (f : DagEvent) × IsStored (insert d event) l f × (f.creator ≡ c)
  insert-grounded i c l h = elim (Bool-cases (eqb event.creator c)) [
    | inl mine ↦
        let eq : event.creator ≡ c = (eqb_iff event.creator c).0 mine in
        let (k, f, known, held, by, _, _) = latest_self i in
        let ek : l ≡ k = cc (h, rw eq at known) in (f, rw ek held, by ∙ eq)
    | inr other ↦
        let (f, held, by) = i.grounded c l (rw (latest_other c other) at h) in
        (f, IsStored-old d event same l f held, by)
  ]
