-- ===== src/Storage/Jmt/Update.antt =====
-- storage/jmt.rs: what an update of the tree keeps, and an update at an internal node.
use ryther_core.Base.{
  ℕ, suc, ◌≡◌, ◌<◌, ◌%◌, ◌/◌, refl, ◌∙◌, sym, true, false, none, some, List, ◌∷◌, ◌==◌, nat_eq,
  if◌then◌else◌, arith, inl, inr, Bool-cases, eqb_iff, All, eqb,
}
use ryther_core.Dict.{get}
use ryther_core.Storage.Jmt.{
  JmtNode, internal, leaf, Nodes, store, bit_above, returned, get_recursive, put_node,
}
use ryther_core.Storage.Jmt.Bits.{path_above, path_above-suc, bit_above_lem}
use ryther_core.Storage.Jmt.Nodes.{Known, IsStore}
use ryther_core.Storage.Jmt.Steps.{Steps}
use ryther_core.Storage.Jmt.Written.{written_node}
use ryther_core.Storage.Jmt.Search.{
  Extends, Within, IsApart, get_recursive_internal, get_recursive-Extends, store-Within,
  store-Extends, store_leaf_lem, store_internal_lem,
}

-- Keys that have followed the same path and go on to the same side.
pub same_path :
    (left k j : ℕ)
    → left < 256
    → path_above (suc left) k ≡ path_above (suc left) j
    → bit_above left k ≡ bit_above left j
    → path_above left k ≡ path_above left j
same_path left k j h e b =
    let halves : path_above left k / 2 ≡ path_above left j / 2 =
      sym (path_above-suc left k) ∙ e ∙ path_above-suc left j in
    let bits : eqb (path_above left k % 2) 1 ≡ eqb (path_above left j % 2) 1 =
      sym (bit_above_lem left k h) ∙ b ∙ bit_above_lem left j h in
    ground arith

pub other_key :
    (left k j : ℕ) → bit_above left k ≡ true → bit_above left j ≡ false → (k == j) ≡ false
other_key left k j a b = elim (Bool-cases (k == j)) [
  | inl e ↦ let same : k ≡ j = (eqb_iff k j).0 e in cc
  | inr e ↦ e
]

pub other_key_sym :
    (left k j : ℕ) → bit_above left k ≡ false → bit_above left j ≡ true → (k == j) ≡ false
other_key_sym left k j a b = elim (Bool-cases (k == j)) [
  | inl e ↦ let same : k ≡ j = (eqb_iff k j).0 e in cc
  | inr e ↦ e
]

module _ (sha256 : List ℕ → ℕ) (K : JmtNode → Type 0) (apart : IsApart sha256 K) (k v j : ℕ) where
  -- A step that loses no node and after which a lookup finds the new value at the key and what it
  -- found before elsewhere.
  pub record IsUpdate (left h : ℕ) (nodes : Nodes) (r : ℕ × Nodes) : Type 0 where
    pub extends : Extends nodes r.1
    pub within : Within K r.1
    pub found :
        path_above left k ≡ path_above left j
        → get_recursive r.1 j left r.0
          ≡ (if k == j then returned (some v) else get_recursive nodes j left h)

  -- A leaf takes the place of what a lookup of another key does not find.
  pub leaf-IsUpdate :
      (left h : ℕ) (nodes : Nodes)
      → IsStore sha256 nodes
      → Within K nodes
      → K (leaf k v)
      → (path_above left k ≡ path_above left j
          → (k == j) ≡ false
          → get_recursive nodes j left h ≡ returned none)
      → IsUpdate left h nodes (store sha256 (leaf k v) nodes)
  leaf-IsUpdate left h nodes s w ok before = record {
    extends = store-Extends sha256 K apart (leaf k v) nodes ok s w;
    within = store-Within sha256 K apart (leaf k v) nodes ok w;
    found = λ p.
        store_leaf_lem sha256 K apart j left k v nodes ok
        ∙ elim (Bool-cases (k == j)) [ inl e ↦ rw (e) refl | inr e ↦ rw (e, before p e) refl ];
  }

  pub Extends-trans : (a b c : Nodes) → Extends a b → Extends b c → Extends a c
  Extends-trans a b c f g h n e = g h n (f h n e)

  -- A node stored after a step.
  pub then_store :
      (n : JmtNode) (nodes later : Nodes)
      → K n
      → IsStore sha256 later
      → Extends nodes later
      → Within K later
      → Extends nodes (store sha256 n later).1 × Within K (store sha256 n later).1
  then_store n nodes later ok s ext w = (
    Extends-trans nodes later (store sha256 n later).1 ext
        (store-Extends sha256 K apart n later ok s w),
    store-Within sha256 K apart n later ok w,
  )

  abbrev pub Updates : ℕ → (ℕ → Nodes → ℕ × Nodes) → (ℕ → Nodes → List JmtNode) → Type 0
  Updates left go below =
      (h : ℕ) (nodes : Nodes)
      → IsStore sha256 nodes
      → Within K nodes
      → Known nodes h
      → All K (below h nodes)
      → IsUpdate left h nodes (go h nodes)

  module _ (left h : ℕ) (nodes : Nodes) (go : ℕ → Nodes → ℕ × Nodes)
      (below : ℕ → Nodes → List JmtNode) (small : left < 256) (stuck : (h == 0) ≡ false)
      (steps : Steps sha256 go) (ih : Updates left go below) (s : IsStore sha256 nodes)
      (w : Within K nodes) where
    pub internal-IsUpdate :
        (l r : ℕ)
        → get h nodes ≡ some (internal l r)
        → All K (written_node sha256 k v left go below nodes (some (internal l r)))
        → IsUpdate (suc left) h nodes (put_node sha256 k v left go nodes (some (internal l r)))
    unfolding put_node written_node
    internal-IsUpdate l r e ok =
        let children = s.closed h (internal l r) e in
        let before = get_recursive_internal nodes j left h l r stuck e in
        elim (Bool-cases (bit_above left k)) [
          | inl on ↦
              let listed : All K (internal l (go r nodes).0 ∷ below r nodes) = rw (on) at ok in
              let u = ih r nodes s w children.1 listed.1 in
              let t = steps r nodes s children.1 in
              let after =
                store_internal_lem sha256 K apart j left l (go r nodes).0 (go r nodes).1 listed.0
                  t.kept u.within (t.grown l children.0) (inr t.returned) in
              let kept =
                then_store (internal l (go r nodes).0) nodes (go r nodes).1 listed.0 t.kept
                  u.extends u.within in
              let left_same =
                get_recursive-Extends sha256 nodes (go r nodes).1 j left l s u.extends children.0 in
              rw (on) (record {
                extends = kept.0;
                within = kept.1;
                found = λ p. after ∙ elim (Bool-cases (bit_above left j)) [
                  | inl on' ↦ rw (before, on') (u.found (same_path left k j small p (on ∙ sym on')))
                  | inr off' ↦ rw (before, off', other_key left k j on off') left_same
                ];
              })
          | inr off ↦
              let listed : All K (internal (go l nodes).0 r ∷ below l nodes) = rw (off) at ok in
              let u = ih l nodes s w children.0 listed.1 in
              let t = steps l nodes s children.0 in
              let after =
                store_internal_lem sha256 K apart j left (go l nodes).0 r (go l nodes).1 listed.0
                  t.kept u.within (inr t.returned) (t.grown r children.1) in
              let kept =
                then_store (internal (go l nodes).0 r) nodes (go l nodes).1 listed.0 t.kept
                  u.extends u.within in
              let right_same =
                get_recursive-Extends sha256 nodes (go l nodes).1 j left r s u.extends children.1 in
              rw (off) (record {
                extends = kept.0;
                within = kept.1;
                found = λ p. after ∙ elim (Bool-cases (bit_above left j)) [
                  | inl on' ↦ rw (before, on', other_key_sym left k j off on') right_same
                  | inr off' ↦
                      rw (before, off') (u.found (same_path left k j small p (off ∙ sym off')))
                ];
              })
        ]
