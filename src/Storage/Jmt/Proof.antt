-- ===== src/Storage/Jmt/Proof.antt =====
-- storage/jmt.rs, `get_proof` and `verify_inclusion`.
use mathlib.Core.List.{reverse, reverse-cons, append-nil, append_assoc}
use ryther_core.Base.{
  ℕ, Bool, zero, suc, ◌-◌, ◌≡◌, refl, ◌∙◌, sym, true, false, Option, none, some, List, [], ◌∷◌,
  ◌++◌, ◌==◌, nat_eq, eqb_iff, if◌then◌else◌, inl, inr, Bool-cases, beq_refl,
}
use ryther_core.Dict.{get}
use ryther_core.Storage.Jmt.{
  JmtNode, internal, leaf, empty, Nodes, JellyfishMerkleTree, node_hash, empty_hash, bit_above,
  get_bit, Lookup, returned, out_of_bounds, get_recursive, get_node, collect_node,
  collect_proof_siblings, climb, verify_inclusion, get_proof, hash_key,
}
use ryther_core.Storage.Jmt as Tree
use ryther_core.Types.Uint.{StateKey}

collect_node_after :
    (depth : ℕ) (bit : Bool) (go : ℕ → List (ℕ × ℕ) → List (ℕ × ℕ)) (siblings : List (ℕ × ℕ))
    (found : Option JmtNode)
    → ((h : ℕ) (xs : List (ℕ × ℕ)) → go h xs ≡ xs ++ go h [])
    → collect_node depth bit go siblings found ≡ siblings ++ collect_node depth bit go [] found
unfolding collect_node
collect_node_after depth bit go siblings none ih = sym (append-nil siblings)
collect_node_after depth bit go siblings (some empty) ih = sym (append-nil siblings)
collect_node_after depth bit go siblings (some (leaf k v)) ih = sym (append-nil siblings)
collect_node_after depth true go siblings (some (internal l r)) ih =
    ih r (siblings ++ ((depth, l) ∷ []))
    ∙ rw (ih r ((depth, l) ∷ [])) (append_assoc siblings ((depth, l) ∷ []) (go r []))
collect_node_after depth false go siblings (some (internal l r)) ih =
    ih l (siblings ++ ((depth, r) ∷ []))
    ∙ rw (ih l ((depth, r) ∷ [])) (append_assoc siblings ((depth, r) ∷ []) (go l []))

-- The siblings are put behind those that are already there.
collect_after :
    (nodes : Nodes) (k left h : ℕ) (siblings : List (ℕ × ℕ))
    → collect_proof_siblings nodes k left h siblings
      ≡ siblings ++ collect_proof_siblings nodes k left h []
unfolding collect_proof_siblings
collect_after nodes k zero h siblings = sym (append-nil siblings)
collect_after nodes k (suc left) h siblings = elim (Bool-cases (h == empty_hash)) [
  | inl e ↦ rw (e) (sym (append-nil siblings))
  | inr e ↦ rw (e) (
      collect_node_after (255 - left) (bit_above left k) (collect_proof_siblings nodes k left)
        siblings (get h nodes) (collect_after nodes k left))
]

-- Every node stands under its hash.
abbrev pub IsHashed : (List ℕ → ℕ) → Nodes → Type 0
IsHashed sha256 nodes = (h : ℕ) (n : JmtNode) → get h nodes ≡ some n → node_hash sha256 n ≡ h

module _ (sha256 : List ℕ → ℕ) where
  climb-append :
      (k c depth sibling : ℕ) (xs : List (ℕ × ℕ))
      → climb sha256 k c (xs ++ ((depth, sibling) ∷ [])) ≡ (
          if get_bit k depth
          then node_hash sha256 (internal sibling (climb sha256 k c xs))
          else node_hash sha256 (internal (climb sha256 k c xs) sibling))
  unfolding climb
  climb-append k c depth sibling [] = refl
  climb-append k c depth sibling ((d, s) ∷ xs) =
      climb-append k
        (if get_bit k d then node_hash sha256 (internal s c) else node_hash sha256 (internal c s))
        depth sibling xs

  -- One level of the proof on the way up.
  climb_step :
      (nodes : Nodes) (k v left h depth sibling : ℕ)
      → climb sha256 k
          (node_hash sha256 (leaf k v))
          (reverse (collect_proof_siblings nodes k left h []))
        ≡ h
      → climb sha256 k
          (node_hash sha256 (leaf k v))
          (reverse (collect_proof_siblings nodes k left h ((depth, sibling) ∷ [])))
        ≡ (if get_bit k depth
            then node_hash sha256 (internal sibling h)
            else node_hash sha256 (internal h sibling))
  climb_step nodes k v left h depth sibling ih =
      rw
        (
          collect_after nodes k left h ((depth, sibling) ∷ []),
          reverse-cons,
          climb-append k (node_hash sha256 (leaf k v)) depth sibling
              (reverse (collect_proof_siblings nodes k left h [])),
          ih,
        )
        refl

  -- At depth 256 only a leaf gives a value.
  climb_last :
      (nodes : Nodes) (k v h : ℕ) (found : Option JmtNode)
      → IsHashed sha256 nodes
      → get h nodes ≡ found
      → get_node k false (λ child. out_of_bounds) found ≡ returned (some v)
      → node_hash sha256 (leaf k v) ≡ h
  unfolding get_node
  climb_last nodes k v h none s e r = absurd (cc)
  climb_last nodes k v h (some empty) s e r = absurd (cc)
  climb_last nodes k v h (some (internal l r)) s e f = absurd (cc)
  climb_last nodes k v h (some (leaf ek ev)) s e r = elim (Bool-cases (ek == k)) [
    | inl same ↦
        let here : returned (some ev) ≡ returned (some v) = rw (same) at r in
        let value_same : ev ≡ v = cc in
        let key_same : ek ≡ k = (eqb_iff ek k).0 same in
        let hashed : node_hash sha256 (leaf ek ev) ≡ h = s h (leaf ek ev) e in cc
    | inr other ↦ let here : returned none ≡ returned (some v) = rw (other) at r in absurd (cc)
  ]

  climb_node :
      (nodes : Nodes) (k v left h : ℕ) (found : Option JmtNode)
      → IsHashed sha256 nodes
      → get h nodes ≡ found
      → ((child : ℕ)
          → get_recursive nodes k left child ≡ returned (some v)
          → climb sha256 k
              (node_hash sha256 (leaf k v))
              (reverse (collect_proof_siblings nodes k left child []))
            ≡ child)
      → get_node k (bit_above left k) (get_recursive nodes k left) found ≡ returned (some v)
      → climb sha256 k (node_hash sha256 (leaf k v)) (
          reverse (
            collect_node
              (255 - left)
              (bit_above left k)
              (collect_proof_siblings nodes k left)
              []
              found))
        ≡ h
  unfolding get_node collect_node climb
  climb_node nodes k v left h none s e ih r = absurd (cc)
  climb_node nodes k v left h (some empty) s e ih r = absurd (cc)
  climb_node nodes k v left h (some (leaf ek ev)) s e ih r =
      climb_last nodes k v h (some (leaf ek ev)) s e r
  climb_node nodes k v left h (some (internal l r)) s e ih found =
      let hashed : node_hash sha256 (internal l r) ≡ h = s h (internal l r) e in
      elim (Bool-cases (bit_above left k)) [
        | inl on ↦
            let below : get_recursive nodes k left r ≡ returned (some v) = rw (on) at found in
            let step = climb_step nodes k v left r (255 - left) l (ih r below) in
            let up : climb sha256 k (node_hash sha256 (leaf k v))
                  (reverse (collect_proof_siblings nodes k left r ((255 - left, l) ∷ [])))
                ≡ node_hash sha256 (internal l r) =
              rw (on) at step in
            rw (on) (up ∙ hashed)
        | inr off ↦
            let below : get_recursive nodes k left l ≡ returned (some v) = rw (off) at found in
            let step = climb_step nodes k v left l (255 - left) r (ih l below) in
            let up : climb sha256 k (node_hash sha256 (leaf k v))
                  (reverse (collect_proof_siblings nodes k left l ((255 - left, r) ∷ [])))
                ≡ node_hash sha256 (internal l r) =
              rw (off) at step in
            rw (off) (up ∙ hashed)
      ]

  climb_found :
      (nodes : Nodes) (k v left h : ℕ)
      → IsHashed sha256 nodes
      → get_recursive nodes k left h ≡ returned (some v)
      → climb sha256 k
          (node_hash sha256 (leaf k v))
          (reverse (collect_proof_siblings nodes k left h []))
        ≡ h
  unfolding get_recursive collect_proof_siblings climb node_hash
  climb_found nodes k v zero h s r = elim (Bool-cases (h == empty_hash)) [
    | inl e ↦ let here : returned none ≡ returned (some v) = rw (e) at r in absurd (cc)
    | inr e ↦
        let here : get_node k false (λ child. out_of_bounds) (get h nodes) ≡ returned (some v) =
          rw (e) at r in
        climb_last nodes k v h (get h nodes) s refl here
  ]
  climb_found nodes k v (suc left) h s r = elim (Bool-cases (h == empty_hash)) [
    | inl e ↦ let here : returned none ≡ returned (some v) = rw (e) at r in absurd (cc)
    | inr e ↦
        let here : get_node k (bit_above left k) (get_recursive nodes k left) (get h nodes)
            ≡ returned (some v) =
          rw (e) at r in
        rw (e) (
          climb_node nodes k v left h (get h nodes) s refl
            (λ child. climb_found nodes k v left child s) here)
  ]

  -- If every node of the tree's store stands under its hash, a proof for a key at which a lookup finds a value verifies
  -- for that value.
  pub verify_inclusion-get_proof :
      (t : JellyfishMerkleTree) (key : StateKey) (v : ℕ)
      → IsHashed sha256 t.nodes
      → Tree.get sha256 key t ≡ returned (some v)
      → verify_inclusion sha256 (get_proof sha256 key t) v ≡ true
  unfolding verify_inclusion get_proof Tree.get
  verify_inclusion-get_proof t key v h found =
      rw (climb_found t.nodes (hash_key sha256 key) v 256 t.root h found) (beq_refl t.root)
