-- ===== src/Storage/Jmt/Leaves.antt =====
-- storage/jmt.rs: `put_recursive` at a leaf.
use ryther_core.Base.{
  ℕ, suc, ◌≡◌, ◌<◌, refl, ◌∙◌, sym, true, false, some, List, [], ◌∷◌, ◌==◌, nat_eq, inl, inr,
  Bool-cases, eqb_iff, All,
}
use ryther_core.Dict.{get}
use ryther_core.Storage.Jmt.{
  JmtNode, internal, leaf, Nodes, node_hash, store, bit_above, put_node, same_bit,
}
use ryther_core.Storage.Jmt.Nodes.{Known, IsStore, store-IsStep}
use ryther_core.Storage.Jmt.Steps.{Steps}
use ryther_core.Storage.Jmt.Written.{written_node}
use ryther_core.Storage.Jmt.Search.{
  Within, IsApart, get_recursive_empty, get_recursive_leaf, get_recursive-Extends, store_leaf_lem,
  store_internal_lem,
}
use ryther_core.Storage.Jmt.Update.{
  same_path, other_key, other_key_sym, IsUpdate, leaf-IsUpdate, Extends-trans, then_store, Updates,
}

module _ (sha256 : List ℕ → ℕ) (K : JmtNode → Type 0) (apart : IsApart sha256 K) (k v j : ℕ) where
  module _ (left h : ℕ) (nodes : Nodes) (go : ℕ → Nodes → ℕ × Nodes)
      (below : ℕ → Nodes → List JmtNode) (small : left < 256) (stuck : (h == 0) ≡ false)
      (steps : Steps sha256 go) (ih : Updates sha256 K apart k v j left go below)
      (s : IsStore sha256 nodes) (w : Within K nodes) where
    abbrev child_of : ℕ → ℕ → ℕ × Nodes
    child_of ek ev = go (store sha256 (leaf ek ev) nodes).0 (store sha256 (leaf ek ev) nodes).1

    abbrev both : ℕ → ℕ → ℕ × Nodes
    both ek ev = store sha256 (leaf k v) (store sha256 (leaf ek ev) nodes).1

    -- The existing leaf goes on down the same side.
    together_on :
        (ek ev : ℕ)
        → get h nodes ≡ some (leaf ek ev)
        → bit_above left ek ≡ true
        → bit_above left k ≡ true
        → K (internal 0 (child_of ek ev).0)
        → All K (below (store sha256 (leaf ek ev) nodes).0 (store sha256 (leaf ek ev) nodes).1)
        → IsUpdate sha256 K apart k v j
            (suc left)
            h
            nodes
            (store sha256 (internal 0 (child_of ek ev).0) (child_of ek ev).1)
    together_on ek ev e bit_ek bit_k ok listed =
        let old = store sha256 (leaf ek ev) nodes in
        let child = child_of ek ev in
        let old_step = store-IsStep sha256 (leaf ek ev) nodes s tt in
        let ok_leaf = w h (leaf ek ev) e in
        let first =
          then_store sha256 K apart k v j (leaf ek ev) nodes nodes ok_leaf s (λ x n f. f) w in
        let u = ih old.0 old.1 old_step.kept first.1 (inr old_step.returned) listed in
        let t = steps old.0 old.1 old_step.kept (inr old_step.returned) in
        let kept =
          then_store sha256 K apart k v j (internal 0 (child_of ek ev).0) nodes child.1 ok t.kept
            (Extends-trans sha256 K apart k v j nodes old.1 child.1 first.0 u.extends) u.within in
        let before = get_recursive_leaf nodes j (suc left) h ek ev stuck e in
        let old_leaf = store_leaf_lem sha256 K apart j left ek ev nodes ok_leaf in
        record {
          extends = kept.0;
          within = kept.1;
          found = λ p.
              store_internal_lem sha256 K apart j left 0 child.0 child.1 ok t.kept u.within
                (inl refl) (inr t.returned)
              ∙ elim (Bool-cases (bit_above left j)) [
                | inl on' ↦
                    rw (before, on')
                      (u.found (same_path left k j small p (bit_k ∙ sym on'))
                        ∙ (rw (old_leaf) refl))
                | inr off' ↦
                    rw
                      (before, off', other_key left k j bit_k off', other_key left ek j bit_ek off')
                      (get_recursive_empty child.1 j left)
              ];
        }

    -- The existing leaf goes on down the same side.
    together_off :
        (ek ev : ℕ)
        → get h nodes ≡ some (leaf ek ev)
        → bit_above left ek ≡ false
        → bit_above left k ≡ false
        → K (internal (child_of ek ev).0 0)
        → All K (below (store sha256 (leaf ek ev) nodes).0 (store sha256 (leaf ek ev) nodes).1)
        → IsUpdate sha256 K apart k v j
            (suc left)
            h
            nodes
            (store sha256 (internal (child_of ek ev).0 0) (child_of ek ev).1)
    together_off ek ev e bit_ek bit_k ok listed =
        let old = store sha256 (leaf ek ev) nodes in
        let child = child_of ek ev in
        let old_step = store-IsStep sha256 (leaf ek ev) nodes s tt in
        let ok_leaf = w h (leaf ek ev) e in
        let first =
          then_store sha256 K apart k v j (leaf ek ev) nodes nodes ok_leaf s (λ x n f. f) w in
        let u = ih old.0 old.1 old_step.kept first.1 (inr old_step.returned) listed in
        let t = steps old.0 old.1 old_step.kept (inr old_step.returned) in
        let kept =
          then_store sha256 K apart k v j (internal (child_of ek ev).0 0) nodes child.1 ok t.kept
            (Extends-trans sha256 K apart k v j nodes old.1 child.1 first.0 u.extends) u.within in
        let before = get_recursive_leaf nodes j (suc left) h ek ev stuck e in
        let old_leaf = store_leaf_lem sha256 K apart j left ek ev nodes ok_leaf in
        record {
          extends = kept.0;
          within = kept.1;
          found = λ p.
              store_internal_lem sha256 K apart j left child.0 0 child.1 ok t.kept u.within
                (inr t.returned) (inl refl)
              ∙ elim (Bool-cases (bit_above left j)) [
                | inl on' ↦
                    rw
                      (
                        before,
                        on',
                        other_key_sym left k j bit_k on',
                        other_key_sym left ek j bit_ek on',
                      )
                      (get_recursive_empty child.1 j left)
                | inr off' ↦
                    rw (before, off')
                      (u.found (same_path left k j small p (bit_k ∙ sym off'))
                        ∙ (rw (old_leaf) refl))
              ];
        }

    -- The existing leaf and the new one go to different sides.
    apart_on :
        (ek ev : ℕ)
        → get h nodes ≡ some (leaf ek ev)
        → bit_above left ek ≡ false
        → bit_above left k ≡ true
        → K (leaf k v)
        → K (internal (store sha256 (leaf ek ev) nodes).0 (both ek ev).0)
        → IsUpdate sha256 K apart k v j (suc left) h nodes (
            store sha256
              (internal (store sha256 (leaf ek ev) nodes).0 (both ek ev).0)
              (both ek ev).1)
    apart_on ek ev e bit_ek bit_k ok_new ok =
        let old = store sha256 (leaf ek ev) nodes in
        let new = both ek ev in
        let old_step = store-IsStep sha256 (leaf ek ev) nodes s tt in
        let new_step = store-IsStep sha256 (leaf k v) old.1 old_step.kept tt in
        let ok_leaf = w h (leaf ek ev) e in
        let first =
          then_store sha256 K apart k v j (leaf ek ev) nodes nodes ok_leaf s (λ x n f. f) w in
        let second =
          then_store sha256 K apart k v j (leaf k v) old.1 old.1 ok_new old_step.kept (λ x n f. f)
            first.1 in
        let kept =
          then_store sha256 K apart k v j
            (internal (store sha256 (leaf ek ev) nodes).0 (both ek ev).0) nodes new.1 ok
            new_step.kept (Extends-trans sha256 K apart k v j nodes old.1 new.1 first.0 second.0)
            second.1 in
        let before = get_recursive_leaf nodes j (suc left) h ek ev stuck e in
        let old_known : Known old.1 old.0 = inr old_step.returned in
        let old_leaf =
          get_recursive-Extends sha256 old.1 new.1 j left old.0 old_step.kept second.0 old_known
          ∙ store_leaf_lem sha256 K apart j left ek ev nodes ok_leaf in
        let new_leaf = store_leaf_lem sha256 K apart j left k v old.1 ok_new in
        record {
          extends = kept.0;
          within = kept.1;
          found = λ p.
              store_internal_lem sha256 K apart j left old.0 new.0 new.1 ok new_step.kept second.1
                (new_step.grown old.0 old_known) (inr new_step.returned)
              ∙ elim (Bool-cases (bit_above left j)) [
                | inl on' ↦ rw (before, on', other_key_sym left ek j bit_ek on') new_leaf
                | inr off' ↦ rw (before, off', other_key left k j bit_k off') old_leaf
              ];
        }

    -- The existing leaf and the new one go to different sides.
    apart_off :
        (ek ev : ℕ)
        → get h nodes ≡ some (leaf ek ev)
        → bit_above left ek ≡ true
        → bit_above left k ≡ false
        → K (leaf k v)
        → K (internal (both ek ev).0 (store sha256 (leaf ek ev) nodes).0)
        → IsUpdate sha256 K apart k v j (suc left) h nodes (
            store sha256
              (internal (both ek ev).0 (store sha256 (leaf ek ev) nodes).0)
              (both ek ev).1)
    apart_off ek ev e bit_ek bit_k ok_new ok =
        let old = store sha256 (leaf ek ev) nodes in
        let new = both ek ev in
        let old_step = store-IsStep sha256 (leaf ek ev) nodes s tt in
        let new_step = store-IsStep sha256 (leaf k v) old.1 old_step.kept tt in
        let ok_leaf = w h (leaf ek ev) e in
        let first =
          then_store sha256 K apart k v j (leaf ek ev) nodes nodes ok_leaf s (λ x n f. f) w in
        let second =
          then_store sha256 K apart k v j (leaf k v) old.1 old.1 ok_new old_step.kept (λ x n f. f)
            first.1 in
        let kept =
          then_store sha256 K apart k v j
            (internal (both ek ev).0 (store sha256 (leaf ek ev) nodes).0) nodes new.1 ok
            new_step.kept (Extends-trans sha256 K apart k v j nodes old.1 new.1 first.0 second.0)
            second.1 in
        let before = get_recursive_leaf nodes j (suc left) h ek ev stuck e in
        let old_known : Known old.1 old.0 = inr old_step.returned in
        let old_leaf =
          get_recursive-Extends sha256 old.1 new.1 j left old.0 old_step.kept second.0 old_known
          ∙ store_leaf_lem sha256 K apart j left ek ev nodes ok_leaf in
        let new_leaf = store_leaf_lem sha256 K apart j left k v old.1 ok_new in
        record {
          extends = kept.0;
          within = kept.1;
          found = λ p.
              store_internal_lem sha256 K apart j left new.0 old.0 new.1 ok new_step.kept second.1
                (inr new_step.returned) (new_step.grown old.0 old_known)
              ∙ elim (Bool-cases (bit_above left j)) [
                | inl on' ↦ rw (before, on', other_key_sym left k j bit_k on') old_leaf
                | inr off' ↦ rw (before, off', other_key left ek j bit_ek off') new_leaf
              ];
        }

    pub leaf_node-IsUpdate :
        (ek ev : ℕ)
        → get h nodes ≡ some (leaf ek ev)
        → All K (written_node sha256 k v left go below nodes (some (leaf ek ev)))
        → IsUpdate sha256 K apart k v j
            (suc left)
            h
            nodes
            (put_node sha256 k v left go nodes (some (leaf ek ev)))
    unfolding put_node written_node same_bit store node_hash
    leaf_node-IsUpdate ek ev e ok = elim (Bool-cases (ek == k)) [
      | inl same ↦
          let listed : All K (leaf k v ∷ []) = rw (same) at ok in
          let before = get_recursive_leaf nodes j (suc left) h ek ev stuck e in
          rw (same) (
            leaf-IsUpdate sha256 K apart k v j (suc left) h nodes s w listed.0
              (λ p ne. before ∙ (rw ((eqb_iff ek k).0 same, ne) refl)))
      | inr other ↦ elim (Bool-cases (bit_above left ek)) [
        | inl old_on ↦ elim (Bool-cases (bit_above left k)) [
          | inl on ↦
              let listed : All K (
                  leaf ek ev
                  ∷ internal 0 (child_of ek ev).0
                  ∷ below (store sha256 (leaf ek ev) nodes).0 (store sha256 (leaf ek ev) nodes).1) =
                rw (other, old_on, on) at ok in
              rw (other, old_on, on) (together_on ek ev e old_on on listed.1.0 listed.1.1)
          | inr off ↦
              let listed : All K (
                  leaf ek ev
                  ∷ leaf k v
                  ∷ internal (both ek ev).0 (store sha256 (leaf ek ev) nodes).0
                  ∷ []) =
                rw (other, old_on, off) at ok in
              rw (other, old_on, off, same_bit)
                (apart_off ek ev e old_on off listed.1.0 listed.1.1.0)
        ]
        | inr old_off ↦ elim (Bool-cases (bit_above left k)) [
          | inl on ↦
              let listed : All K (
                  leaf ek ev
                  ∷ leaf k v
                  ∷ internal (store sha256 (leaf ek ev) nodes).0 (both ek ev).0
                  ∷ []) =
                rw (other, old_off, on) at ok in
              rw (other, old_off, on, same_bit)
                (apart_on ek ev e old_off on listed.1.0 listed.1.1.0)
          | inr off ↦
              let listed : All K (
                  leaf ek ev
                  ∷ internal (child_of ek ev).0 0
                  ∷ below (store sha256 (leaf ek ev) nodes).0 (store sha256 (leaf ek ev) nodes).1) =
                rw (other, old_off, off) at ok in
              rw (other, old_off, off, same_bit)
                (together_off ek ev e old_off off listed.1.0 listed.1.1)
        ]
      ]
    ]
