-- ===== src/Storage/Jmt/Put.antt =====
-- storage/jmt.rs: what a lookup finds after `put_recursive`.
use ryther_core.Base.{
  ℕ, zero, suc, ◌≡◌, ◌≤◌, ◌<◌, refl, ◌∙◌, sym, false, Option, none, some, List, [], ◌∷◌, ◌==◌,
  nat_eq, arith, inl, inr, Bool-cases, eqb_iff, All,
}
use ryther_core.Dict.{get}
use ryther_core.Storage.Jmt.{
  JmtNode, internal, leaf, empty, Nodes, empty_hash, get_recursive, get_node, put_node,
  put_recursive,
}
use ryther_core.Storage.Jmt.Bits.{path_above_none}
use ryther_core.Storage.Jmt.Nodes.{Known, IsStore}
use ryther_core.Storage.Jmt.Steps.{put_recursive-IsStep}
use ryther_core.Storage.Jmt.Written.{written, written_node}
use ryther_core.Storage.Jmt.Search.{Within, IsApart}
use ryther_core.Storage.Jmt.Update.{IsUpdate, leaf-IsUpdate, Updates}
use ryther_core.Storage.Jmt.Update.{internal-IsUpdate}
use ryther_core.Storage.Jmt.Leaves.{leaf_node-IsUpdate}

module _ (sha256 : List ℕ → ℕ) (K : JmtNode → Type 0) (apart : IsApart sha256 K) (k v j : ℕ) where
  at_node :
      (left h : ℕ) (nodes : Nodes)
      → left < 256
      → (h == 0) ≡ false
      → IsStore sha256 nodes
      → Within K nodes
      → (found : Option JmtNode) → get h nodes ≡ found
      → All K (
          written_node sha256 k v left
            (put_recursive sha256 k v left)
            (written sha256 k v left)
            nodes
            found)
      → Updates sha256 K apart k v j left (put_recursive sha256 k v left) (written sha256 k v left)
      → IsUpdate sha256 K apart k v j
          (suc left)
          h
          nodes
          (put_node sha256 k v left (put_recursive sha256 k v left) nodes found)
  unfolding put_node written_node get_recursive get_node
  at_node left h nodes small stuck s w none e ok ih =
      leaf-IsUpdate sha256 K apart k v j (suc left) h nodes s w ok.0 (λ p ne. rw (stuck, e) refl)
  at_node left h nodes small stuck s w (some empty) e ok ih =
      leaf-IsUpdate sha256 K apart k v j (suc left) h nodes s w ok.0 (λ p ne. rw (stuck, e) refl)
  at_node left h nodes small stuck s w (some (leaf ek ev)) e ok ih =
      leaf_node-IsUpdate sha256 K apart k v j left h nodes (put_recursive sha256 k v left)
        (written sha256 k v left) small stuck (put_recursive-IsStep sha256 k v left) ih s w ek ev e
        ok
  at_node left h nodes small stuck s w (some (internal l r)) e ok ih =
      internal-IsUpdate sha256 K apart k v j left h nodes (put_recursive sha256 k v left)
        (written sha256 k v left) small stuck (put_recursive-IsStep sha256 k v left) ih s w l r e ok

  pub put_recursive-IsUpdate :
      (left h : ℕ) (nodes : Nodes)
      → left ≤ 256
      → IsStore sha256 nodes
      → Within K nodes
      → Known nodes h
      → All K (written sha256 k v left h nodes)
      → IsUpdate sha256 K apart k v j left h nodes (put_recursive sha256 k v left h nodes)
  unfolding put_recursive written get_recursive
  put_recursive-IsUpdate zero h nodes small s w known ok =
      leaf-IsUpdate sha256 K apart k v j zero h nodes s w ok.0 (λ p ne.
        let same : k ≡ j = sym (path_above_none k) ∙ p ∙ path_above_none j in
        absurd (ground (arith, eqb_iff k j)))
  put_recursive-IsUpdate (suc left) h nodes small s w known ok =
      elim (Bool-cases (h == empty_hash)) [
        | inl e ↦
            let listed : All K (leaf k v ∷ []) = rw (e) at ok in
            rw (e) (
              leaf-IsUpdate sha256 K apart k v j (suc left) h nodes s w listed.0
                (λ p ne. rw (e) refl))
        | inr e ↦
            let listed : All K (
                written_node sha256 k v left (put_recursive sha256 k v left)
                  (written sha256 k v left) nodes (get h nodes)) =
              rw (e) at ok in
            rw (e) (
              at_node left h nodes (omega arith) e s w (get h nodes) refl listed
                (λ h' nodes' s' w' known' ok'.
                  put_recursive-IsUpdate left h' nodes' (omega arith) s' w' known' ok'))
      ]
