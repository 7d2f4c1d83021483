-- ===== src/Storage/Jmt/Steps.antt =====
-- storage/jmt.rs: `put_recursive` keeps the nodes under their hashes and leaves out no child.
use ryther_core.Base.{
  ℕ, zero, suc, ◌≡◌, refl, Option, none, some, List, ◌==◌, nat_eq, inl, inr, Bool-cases,
}
use ryther_core.Dict.{get}
use ryther_core.Storage.Jmt.{
  JmtNode, internal, leaf, empty, Nodes, JellyfishMerkleTree, store, put_node, put_recursive, put,
  hash_key, hash_value, empty_hash, bit_above, same_bit,
}
use ryther_core.Storage.Jmt.Nodes.{Known, IsStore, IsStep, IsTree, store-IsStep, store-IsStep_after}
use ryther_core.Types.Uint.{StateKey, U256}

module _ (sha256 : List ℕ → ℕ) where
  IsStep-trans :
      (nodes : Nodes) (r s : ℕ × Nodes)
      → IsStep sha256 nodes r
      → IsStep sha256 r.1 s
      → IsStep sha256 nodes s
  IsStep-trans nodes r s first second = record {
    kept = second.kept;
    returned = second.returned;
    grown = λ h known. second.grown h (first.grown h known);
  }

  Known-returned : (nodes : Nodes) (r : ℕ × Nodes) → IsStep sha256 nodes r → Known r.1 r.0
  Known-returned nodes r s = inr s.returned

  abbrev pub Steps : (ℕ → Nodes → ℕ × Nodes) → Type 0
  Steps go =
      (h : ℕ) (nodes : Nodes)
      → IsStore sha256 nodes
      → Known nodes h
      → IsStep sha256 nodes (go h nodes)

  put_node-IsStep :
      (k v left : ℕ) (go : ℕ → Nodes → ℕ × Nodes) (nodes : Nodes) (h : ℕ) (found : Option JmtNode)
      → Steps go
      → IsStore sha256 nodes
      → get h nodes ≡ found
      → IsStep sha256 nodes (put_node sha256 k v left go nodes found)
  unfolding put_node
  put_node-IsStep k v left go nodes h none ih s e = store-IsStep sha256 (leaf k v) nodes s tt
  put_node-IsStep k v left go nodes h (some empty) ih s e =
      store-IsStep sha256 (leaf k v) nodes s tt
  put_node-IsStep k v left go nodes h (some (internal l r)) ih s e =
      let children = s.closed h (internal l r) e in
      let right = ih r nodes s children.1 in
      let left_step = ih l nodes s children.0 in
      elim (Bool-cases (bit_above left k)) [
        | inl on ↦ rw (on) (
            store-IsStep_after sha256 (internal l (go r nodes).0) nodes (go r nodes) right
              (right.grown l children.0, Known-returned nodes (go r nodes) right))
        | inr off ↦ rw (off) (
            store-IsStep_after sha256 (internal (go l nodes).0 r) nodes (go l nodes) left_step
              (Known-returned nodes (go l nodes) left_step, left_step.grown r children.1))
      ]
  put_node-IsStep k v left go nodes h (some (leaf ek ev)) ih s e =
      let old = store sha256 (leaf ek ev) nodes in
      let old_step = store-IsStep sha256 (leaf ek ev) nodes s tt in
      let child = go old.0 old.1 in
      let child_step =
        IsStep-trans nodes old child old_step
          (ih old.0 old.1 old_step.kept (Known-returned nodes old old_step)) in
      let fresh = store sha256 (leaf k v) old.1 in
      let fresh_step = store-IsStep_after sha256 (leaf k v) nodes old old_step tt in
      let old_known = store-IsStep sha256 (leaf k v) old.1 old_step.kept tt in
      let child_known = Known-returned nodes child child_step in
      let old_in_fresh = old_known.grown old.0 (Known-returned nodes old old_step) in
      let fresh_known = Known-returned nodes fresh fresh_step in
      elim (Bool-cases (ek == k)) [
        | inl same ↦ rw (same) (store-IsStep sha256 (leaf k v) nodes s tt)
        | inr other ↦ elim (Bool-cases (same_bit (bit_above left ek) (bit_above left k))) [
          | inl together ↦ elim (Bool-cases (bit_above left k)) [
            | inl on ↦
                rw (other, together, on)
                  (store-IsStep_after sha256 (internal 0 child.0) nodes child child_step
                    (inl refl, child_known))
            | inr off ↦
                rw (other, together, off)
                  (store-IsStep_after sha256 (internal child.0 0) nodes child child_step
                    (child_known, inl refl))
          ]
          | inr apart ↦ elim (Bool-cases (bit_above left k)) [
            | inl on ↦
                rw (other, apart, on)
                  (store-IsStep_after sha256 (internal old.0 fresh.0) nodes fresh fresh_step
                    (old_in_fresh, fresh_known))
            | inr off ↦
                rw (other, apart, off)
                  (store-IsStep_after sha256 (internal fresh.0 old.0) nodes fresh fresh_step
                    (fresh_known, old_in_fresh))
          ]
        ]
      ]

  pub put_recursive-IsStep :
      (k v left h : ℕ) (nodes : Nodes)
      → IsStore sha256 nodes
      → Known nodes h
      → IsStep sha256 nodes (put_recursive sha256 k v left h nodes)
  unfolding put_recursive
  put_recursive-IsStep k v zero h nodes s known = store-IsStep sha256 (leaf k v) nodes s tt
  put_recursive-IsStep k v (suc left) h nodes s known = elim (Bool-cases (h == empty_hash)) [
    | inl e ↦ rw (e) (store-IsStep sha256 (leaf k v) nodes s tt)
    | inr e ↦ rw (e) (
        put_node-IsStep k v left (put_recursive sha256 k v left) nodes h (get h nodes)
          (put_recursive-IsStep k v left) s refl)
  ]

  -- `put` keeps a well-formed tree well formed, for every `sha256`: when every stored node is stored
  -- under its own hash and both its children are the empty hash 0 or
  -- stored, and the root is 0 or stored, all this holds after an insertion too.
  pub put-IsTree :
      (key : StateKey) (value : U256) (t : JellyfishMerkleTree)
      → IsTree sha256 t
      → IsTree sha256 (put sha256 key value t)
  unfolding put
  put-IsTree key value t h =
      let step =
        put_recursive-IsStep (hash_key sha256 key) (hash_value sha256 value) 256 t.root t.nodes
          h.nodes_lem h.root_lem in
      record { nodes_lem = step.kept; root_lem = inr step.returned }
