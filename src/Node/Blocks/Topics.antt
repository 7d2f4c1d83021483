-- ===== src/Node/Blocks/Topics.antt =====
-- The filters of node/blocks.rs: addresses, and topics position by position.
use mathlib.Core.List.{Memᴰ}
use mathlib.Core.List.Memᴰ
use ryther_core.Base.{
  ℕ, zero, suc, ◌+◌, ◌≡◌, ◌↔◌, refl, true, Option, none, some, List, [], ◌∷◌, arith, nat_eq,
  get_elem?, sym, subst, inl, inr, eqb, eqb_iff, Bool-cases,
}
use ryther_core.Dict
use ryther_core.Types.Block.{Log}
use ryther_core.Node.Blocks.{is_allowed, match_topics, address_matches, topics_match}

-- Every position with a filter has a topic, from position `n` on, and the filter allows it.
abbrev pub AllowsFrom : ℕ → List (Option (List ℕ)) → List ℕ → Type 0
AllowsFrom n filters topics =
    (i : ℕ) (allowed : List ℕ)
    → get_elem? filters i ≡ some (some allowed)
    → is_allowed allowed (get_elem? topics (n + i)) ≡ true

match_topics-AllowsFrom :
    (n : ℕ) (filters : List (Option (List ℕ))) (topics : List ℕ)
    → match_topics n filters topics ≡ true
    → AllowsFrom n filters topics
unfolding match_topics
match_topics-AllowsFrom n [] topics e i allowed h = absurd (cc h)
match_topics-AllowsFrom n (none ∷ filters) topics e zero allowed h = absurd (cc h)
match_topics-AllowsFrom n (none ∷ filters) topics e (suc i) allowed h =
    let next : n + suc i ≡ suc n + i = omega arith in
    rw next (match_topics-AllowsFrom (suc n) filters topics e i allowed h)
match_topics-AllowsFrom n (some a ∷ filters) topics e zero allowed h =
    let same : a ≡ allowed = cc h in
    let here : n + 0 ≡ n = omega arith in rw (here, sym same) (ground (arith, e))
match_topics-AllowsFrom n (some a ∷ filters) topics e (suc i) allowed h =
    let next : n + suc i ≡ suc n + i = omega arith in
    rw next (match_topics-AllowsFrom (suc n) filters topics (ground (arith, e)) i allowed h)

AllowsFrom-match_topics :
    (n : ℕ) (filters : List (Option (List ℕ))) (topics : List ℕ)
    → AllowsFrom n filters topics
    → match_topics n filters topics ≡ true
unfolding match_topics
AllowsFrom-match_topics n [] topics f = refl
AllowsFrom-match_topics n (none ∷ filters) topics f =
    AllowsFrom-match_topics (suc n) filters topics (λ i allowed h.
      let next : suc n + i ≡ n + suc i = omega arith in rw next (f (suc i) allowed h))
AllowsFrom-match_topics n (some a ∷ filters) topics f =
    let at : n + 0 ≡ n = omega arith in
    let here : is_allowed a (get_elem? topics n) ≡ true =
      subst (λ k. is_allowed a (get_elem? topics k) ≡ true) at (f 0 a refl) in
    let rest = AllowsFrom-match_topics (suc n) filters topics (λ i allowed h.
      let next : suc n + i ≡ n + suc i = omega arith in rw next (f (suc i) allowed h)) in
    ground (arith, here, rest)

-- A set holds what is in its list.
contains_iff : (a : ℕ) (xs : List ℕ) → (Dict.contains a xs ≡ true) ↔ Memᴰ a xs
unfolding Dict.contains
contains_iff a [] = (λ h. absurd (cc h), λ m. absurd (Memᴰ.not-nil m))
contains_iff a (x ∷ xs) = (
  λ h. elim (Bool-cases (eqb x a)) [
    | inl same ↦ Memᴰ.head (sym ((eqb_iff x a).0 same))
    | inr other ↦ Memᴰ.tail ((contains_iff a xs).0 (ground arith))
  ],
  λ m. elim (Memᴰ.cases_cons m) [
    | inl same ↦ ground (arith, eqb_iff x a, same)
    | inr later ↦ let rest = (contains_iff a xs).1 later in ground (arith, rest)
  ],
)

-- There is a topic, and it is one of the allowed ones.
abbrev pub IsOneOf : List ℕ → Option ℕ → Type 0
IsOneOf allowed topic = (t : ℕ) × (topic ≡ some t) × Memᴰ t allowed

is_allowed_iff :
    (allowed : List ℕ) (topic : Option ℕ)
    → (is_allowed allowed topic ≡ true) ↔ IsOneOf allowed topic
is_allowed_iff allowed none = (λ h. absurd (cc h), λ (t, e, m). absurd (cc e))
is_allowed_iff allowed (some t) = (
  λ h. (t, refl, (contains_iff t allowed).0 h),
  λ (u, e, m). let same : t ≡ u = cc e in rw (same) ((contains_iff u allowed).1 m),
)

-- No addresses are given, or the log's is one of them.
abbrev pub HasAddress : Option (List ℕ) → Log → Type 0
HasAddress none log = Unit
HasAddress (some addresses) log = Memᴰ log.address addresses

-- No topics are given, or at every position for which topics are listed the log has one of them.
abbrev pub HasTopics : Option (List (Option (List ℕ))) → Log → Type 0
HasTopics none log = Unit
HasTopics (some filters) log =
    (i : ℕ) (allowed : List ℕ)
    → get_elem? filters i ≡ some (some allowed)
    → IsOneOf allowed (get_elem? log.topics i)

pub address_matches_iff :
    (addresses : Option (List ℕ)) (log : Log)
    → (address_matches addresses log ≡ true) ↔ HasAddress addresses log
address_matches_iff none log = (λ h. tt, λ h. refl)
address_matches_iff (some addresses) log = contains_iff log.address addresses

pub topics_match_iff :
    (topics : Option (List (Option (List ℕ)))) (log : Log)
    → (topics_match topics log ≡ true) ↔ HasTopics topics log
topics_match_iff none log = (λ h. tt, λ h. refl)
topics_match_iff (some filters) log = (
  λ h i allowed e.
      let at : 0 + i ≡ i = omega arith in
      (is_allowed_iff allowed (get_elem? log.topics i)).0 (
        subst (λ k. is_allowed allowed (get_elem? log.topics k) ≡ true) at
          (match_topics-AllowsFrom 0 filters log.topics h i allowed e)),
  λ f. AllowsFrom-match_topics 0 filters log.topics (λ i allowed e.
      let at : 0 + i ≡ i = omega arith in
      rw at ((is_allowed_iff allowed (get_elem? log.topics i)).1 (f i allowed e))),
)
