-- ===== src/Consensus/Commit/Support.antt =====
-- consensus/commit.rs, `check_quorum_support`: the creators that the loop counts, described by
-- reachability, and that a quorum does not depend on their order.
use mathlib.Core.List.{Memᴰ}
use mathlib.Core.List.Memᴰ
use ryther_core.Base.{
  ℕ, ◌≡◌, refl, sym, ap, subst, ◌∙◌, ◌↔◌, inl, inr, ◌⊎◌, true, false, Bool, List, [], ◌∷◌, arith,
  add64, nat_eq, eqb, eqb_iff, if◌then◌else◌, leb, Bool-cases,
}
use ryther_core.Dict.{add, contains, Unique}
use ryther_core.Dict.Laws.{contains-add, add-Unique}
use ryther_core.Types.Event.{DagEvent}
use ryther_core.Types.Validator.{
  ValidatorSet, stake, or_zero, stake_for, has_quorum, quorum_threshold,
}
use ryther_core.Dag.Store.{DagStore, can_reach, events_at_round}
use ryther_core.Dag.Store.Reach.{Reach, can_reach_lem}
use ryther_core.Consensus.Commit.{supporters_of}

-- Some event of the list has this creator and a chain of strong parents down to the anchor.
abbrev pub HasSupporter : DagStore → ℕ → List DagEvent → ℕ → Type 0
HasSupporter dag anchor events creator =
    (e : DagEvent) × Memᴰ e events × (e.creator ≡ creator) × Reach dag.events e.id anchor

-- A list of the creators that support the anchor at the round, each once.
abbrev pub Supporters : DagStore → ℕ → ℕ → List ℕ → Type 0
Supporters dag anchor round creators =
    Unique creators
    × ((c : ℕ)
        → (contains c creators ≡ true) ↔ HasSupporter dag anchor (events_at_round dag round) c)

-- The creators with an event at the round that reaches the anchor form a quorum.
abbrev pub HasSupport : ValidatorSet → DagStore → ℕ → ℕ → Type 0
HasSupport s dag anchor round =
    (creators : List ℕ) × Supporters dag anchor round creators × (has_quorum s creators ≡ true)

erase : ℕ → List ℕ → List ℕ
erase x [] = []
erase x (y ∷ ys) = if eqb y x then ys else y ∷ erase x ys

contains-erase :
    (x c : ℕ) (ys : List ℕ)
    → Unique ys
    → contains c (erase x ys) ≡ (if eqb x c then false else contains c ys)
unfolding contains erase
contains-erase x c [] u = ground arith
contains-erase x c (y ∷ ys) u =
    ground (arith, eqb_iff y x, eqb_iff y c, eqb_iff x c, contains-erase x c ys u.1, u.0)

erase-Unique : (x : ℕ) (ys : List ℕ) → Unique ys → Unique (erase x ys)
unfolding erase contains
erase-Unique x [] u = tt
erase-Unique x (y ∷ ys) u =
    ground (arith, eqb_iff y x, erase-Unique x ys u.1, contains-erase x y ys u.1, u.0)

add64_swap : (a b c : ℕ) → add64 a (add64 b c) ≡ add64 b (add64 a c)
add64_swap a b c = omega arith

module _ (s : ValidatorSet) where
  stake_for-erase :
      (x : ℕ) (ys : List ℕ) → contains x ys ≡ true → stake_for s ys ≡ stake_for s (x ∷ erase x ys)
  unfolding stake_for contains erase
  stake_for-erase x [] h = absurd (cc h)
  stake_for-erase x (y ∷ ys) h = elim (Bool-cases (eqb y x)) [
    | inl same ↦
        rw (same) (ap (λ v. add64 (or_zero (stake s v)) (stake_for s ys)) ((eqb_iff y x).0 same))
    | inr other ↦ rw (other) (
        ap (add64 (or_zero (stake s y))) (stake_for-erase x ys (ground arith))
        ∙ add64_swap (or_zero (stake s y)) (or_zero (stake s x)) (stake_for s (erase x ys)))
  ]

  -- The stake of a list of voters is that of any list of the same voters.
  stake_for-same :
      (xs ys : List ℕ)
      → Unique xs
      → Unique ys
      → ((c : ℕ) → contains c xs ≡ contains c ys)
      → stake_for s xs ≡ stake_for s ys
  unfolding stake_for contains
  stake_for-same [] [] u u' same = refl
  stake_for-same [] (y ∷ ys) u u' same = absurd (ground (arith, same y, eqb_iff y y))
  stake_for-same (x ∷ xs) ys u u' same =
      let there : contains x ys ≡ true = ground (arith, same x, eqb_iff x x) in
      ap (add64 (or_zero (stake s x))) (
        stake_for-same xs (erase x ys) u.1 (erase-Unique x ys u')
          (λ c. ground (arith, contains-erase x c ys u', same c, eqb_iff x c, u.0)))
      ∙ sym (stake_for-erase x ys there)

module _ (dag : DagStore) (anchor : ℕ) where
  supporters_of-Unique :
      (events : List DagEvent) (creators : List ℕ)
      → Unique creators
      → Unique (supporters_of dag anchor events creators)
  unfolding supporters_of
  supporters_of-Unique [] creators u = u
  supporters_of-Unique (e ∷ events) creators u = elim (Bool-cases (can_reach dag e.id anchor)) [
    | inl yes' ↦
        rw (yes')
          (supporters_of-Unique events (add e.creator creators) (add-Unique e.creator creators u))
    | inr no' ↦ rw (no') (supporters_of-Unique events creators u)
  ]

  contains-supporters_of :
      (c : ℕ) (events : List DagEvent) (creators : List ℕ)
      → (contains c (supporters_of dag anchor events creators) ≡ true)
        ↔ ((contains c creators ≡ true) ⊎ HasSupporter dag anchor events c)
  unfolding supporters_of
  contains-supporters_of c [] creators =
      (inl, λ h. elim h [ inl there ↦ there | inr (e, m, same, chain) ↦ absurd (Memᴰ.not-nil m) ])
  contains-supporters_of c (e ∷ events) creators =
      let reaches = (can_reach_lem dag e.id anchor).1 in
      elim (Bool-cases (can_reach dag e.id anchor)) [
        | inl reached ↦
            let rest = contains-supporters_of c events (add e.creator creators) in
            rw (reached) (
              λ h. elim (rest.0 h) [
                | inl there ↦ elim (Bool-cases (eqb e.creator c)) [
                  | inl same ↦
                      inr (e, Memᴰ.head refl, (eqb_iff e.creator c).0 same, reaches.0 reached)
                  | inr other ↦ inl (ground (arith, contains-add e.creator c creators))
                ]
                | inr later ↦ inr (later.0, Memᴰ.tail later.1, later.2, later.3)
              ],
              λ h. rest.1 (elim h [
                | inl there ↦ inl (ground (arith, contains-add e.creator c creators))
                | inr (f, m, same, chain) ↦ elim (Memᴰ.cases_cons m) [
                  | inl it ↦ inl (
                      let named : e.creator ≡ c =
                        ap (λ (g : DagEvent). g.creator) (sym it) ∙ same in
                      ground (arith, contains-add e.creator c creators, eqb_iff e.creator c, named))
                  | inr later ↦ inr (f, later, same, chain)
                ]
              ]),
            )
        | inr apart ↦
            let rest = contains-supporters_of c events creators in
            rw (apart) (
              λ h. elim (rest.0 h) [
                | inl there ↦ inl there
                | inr later ↦ inr (later.0, Memᴰ.tail later.1, later.2, later.3)
              ],
              λ h. rest.1 (elim h [
                | inl there ↦ inl there
                | inr (f, m, same, chain) ↦ elim (Memᴰ.cases_cons m) [
                  | inl it ↦
                      let reached : can_reach dag e.id anchor ≡ true =
                        reaches.1
                          (subst (λ (g : DagEvent). Reach dag.events g.id anchor) it chain) in
                      absurd (cc (reached, apart))
                  | inr later ↦ inr (f, later, same, chain)
                ]
              ]),
            )
      ]

  -- What the loop counts at a round.
  supporters_of-Supporters :
      (round : ℕ)
      → Supporters dag anchor round (supporters_of dag anchor (events_at_round dag round) [])
  unfolding contains
  supporters_of-Supporters round =
      let events = events_at_round dag round in
      (
        supporters_of-Unique events [] tt,
        λ c. (
          λ h. elim ((contains-supporters_of c events []).0 h) [
            | inl there ↦ absurd (cc there)
            | inr found ↦ found
          ],
          λ found. (contains-supporters_of c events []).1 (inr found),
        ),
      )

same_truth {ℓ} : (a b : Bool) (P : Type ℓ) → (a ≡ true) ↔ P → (b ≡ true) ↔ P → a ≡ b
same_truth true b P h g = sym (g.1 (h.0 refl))
same_truth false true P h g = h.1 (g.0 refl)
same_truth false false P h g = refl

-- `check_quorum_support` finds a quorum exactly where one supports the anchor.
pub has_quorum-HasSupport :
    (s : ValidatorSet) (dag : DagStore) (anchor round : ℕ)
    → (has_quorum s (supporters_of dag anchor (events_at_round dag round) []) ≡ true)
      ↔ HasSupport s dag anchor round
unfolding has_quorum
has_quorum-HasSupport s dag anchor round =
    let counted = supporters_of dag anchor (events_at_round dag round) [] in
    let known = supporters_of-Supporters dag anchor round in
    (
      λ h. (counted, known, h),
      λ (creators, (unique, all), h).
          let stakes =
            stake_for-same s counted creators known.0 unique
              (λ c. same_truth (contains c counted) (contains c creators) _ (known.1 c) (all c)) in
          ap (leb (quorum_threshold s)) stakes ∙ h,
    )
