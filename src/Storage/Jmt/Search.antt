-- ===== src/Storage/Jmt/Search.antt =====
-- storage/jmt.rs: what `get_recursive` finds in a store that grows.
use ryther_core.Base.{
  ℕ, zero, suc, ◌≡◌, refl, ◌∙◌, sym, subst, false, none, some, List, ◌==◌, nat_eq, if◌then◌else◌,
  inl, inr, Bool-cases, eqb_iff,
}
use ryther_core.Dict.{get}
use ryther_core.Dict.Laws.{get-insert, get-insert_cases}
use ryther_core.Storage.Jmt.{
  JmtNode, internal, leaf, empty, Nodes, node_hash, store, bit_above, returned, get_recursive,
  get_node,
}
use ryther_core.Storage.Jmt.Nodes.{Known, IsStore, store-stored}

-- Every node stored in the one is stored in the other.
abbrev pub Extends : Nodes → Nodes → Type 0
Extends nodes nodes' = (h : ℕ) (n : JmtNode) → get h nodes ≡ some n → get h nodes' ≡ some n

pub get_recursive_empty :
    (nodes : Nodes) (k left : ℕ) → get_recursive nodes k left 0 ≡ returned none
unfolding get_recursive
get_recursive_empty nodes k zero = refl
get_recursive_empty nodes k (suc left) = refl

pub get_recursive_leaf :
    (nodes : Nodes) (k left h ek ev : ℕ)
    → (h == 0) ≡ false
    → get h nodes ≡ some (leaf ek ev)
    → get_recursive nodes k left h ≡ (if ek == k then returned (some ev) else returned none)
unfolding get_recursive get_node
get_recursive_leaf nodes k zero h ek ev e f = rw (e, f) refl
get_recursive_leaf nodes k (suc left) h ek ev e f = rw (e, f) refl

pub get_recursive_internal :
    (nodes : Nodes) (k left h l r : ℕ)
    → (h == 0) ≡ false
    → get h nodes ≡ some (internal l r)
    → get_recursive nodes k (suc left) h
      ≡ (if bit_above left k then get_recursive nodes k left r else get_recursive nodes k left l)
unfolding get_recursive get_node
get_recursive_internal nodes k left h l r e f = rw (e, f) refl

module _ (sha256 : List ℕ → ℕ) where
  pub get_recursive-Extends :
      (nodes nodes' : Nodes) (k left h : ℕ)
      → IsStore sha256 nodes
      → Extends nodes nodes'
      → Known nodes h
      → get_recursive nodes' k left h ≡ get_recursive nodes k left h
  unfolding get_recursive get_node
  get_recursive-Extends nodes nodes' k left h s ext (inl e) =
      rw (e, get_recursive_empty nodes k left) (get_recursive_empty nodes' k left)
  get_recursive-Extends nodes nodes' k zero h s ext (inr (n, e)) = rw (e, ext h n e) refl
  get_recursive-Extends nodes nodes' k (suc left) h s ext (inr (leaf ek ev, e)) =
      rw (e, ext h (leaf ek ev) e) refl
  get_recursive-Extends nodes nodes' k (suc left) h s ext (inr (empty, e)) =
      rw (e, ext h empty e) refl
  get_recursive-Extends nodes nodes' k (suc left) h s ext (inr (internal l r, e)) =
      let children = s.closed h (internal l r) e in
      rw
        (
          e,
          ext h (internal l r) e,
          get_recursive-Extends nodes nodes' k left l s ext children.0,
          get_recursive-Extends nodes nodes' k left r s ext children.1,
        )
        refl

-- A set of nodes of which none has the hash 0 and no two different ones have the same hash.
pub record IsApart (sha256 : List ℕ → ℕ) (K : JmtNode → Type 0) : Type 0 where
  pub nonzero : (n : JmtNode) → K n → (node_hash sha256 n == 0) ≡ false
  pub distinct : (n m : JmtNode) → K n → K m → node_hash sha256 n ≡ node_hash sha256 m → n ≡ m

abbrev pub Within : (JmtNode → Type 0) → Nodes → Type 0
Within K nodes = (h : ℕ) (n : JmtNode) → get h nodes ≡ some n → K n

module _ (sha256 : List ℕ → ℕ) (K : JmtNode → Type 0) (apart : IsApart sha256 K) where
  pub store-Within :
      (n : JmtNode) (nodes : Nodes) → K n → Within K nodes → Within K (store sha256 n nodes).1
  unfolding store
  store-Within n nodes k w h m e = elim (get-insert_cases h (node_hash sha256 n) n nodes m e) [
    | inl new ↦ subst K new.1 k
    | inr old ↦ w h m old.1
  ]

  pub store-Extends :
      (n : JmtNode) (nodes : Nodes)
      → K n
      → IsStore sha256 nodes
      → Within K nodes
      → Extends nodes (store sha256 n nodes).1
  unfolding store
  store-Extends n nodes k s w h m e = elim (Bool-cases (node_hash sha256 n == h)) [
    | inl same ↦
        let hash_eq : node_hash sha256 n ≡ node_hash sha256 m =
          (eqb_iff (node_hash sha256 n) h).0 same ∙ sym (s.hashed h m e) in
        let node_same : n ≡ m = apart.distinct n m k (w h m e) hash_eq in
        rw (get-insert h (node_hash sha256 n) n nodes, same, node_same) refl
    | inr other ↦ rw (get-insert h (node_hash sha256 n) n nodes, other) e
  ]

  -- What a lookup finds from a node that has just been stored.
  pub store_leaf_lem :
      (k left ek ev : ℕ) (nodes : Nodes)
      → K (leaf ek ev)
      → get_recursive (store sha256 (leaf ek ev) nodes).1 k left (store sha256 (leaf ek ev) nodes).0
        ≡ (if ek == k then returned (some ev) else returned none)
  store_leaf_lem k left ek ev nodes ok =
      let r = store sha256 (leaf ek ev) nodes in
      get_recursive_leaf r.1 k left r.0 ek ev (unfold store in apart.nonzero (leaf ek ev) ok)
        (store-stored sha256 (leaf ek ev) nodes)

  pub store_internal_lem :
      (k left l r : ℕ) (nodes : Nodes)
      → K (internal l r)
      → IsStore sha256 nodes
      → Within K nodes
      → Known nodes l
      → Known nodes r
      → get_recursive
          (store sha256 (internal l r) nodes).1
          k
          (suc left)
          (store sha256 (internal l r) nodes).0
        ≡ (if bit_above left k then get_recursive nodes k left r else get_recursive nodes k left l)
  store_internal_lem k left l r nodes ok s w kl kr =
      let t = store sha256 (internal l r) nodes in
      let ext = store-Extends (internal l r) nodes ok s w in
      rw
        (
          get_recursive_internal t.1 k left t.0 l r
              (unfold store in apart.nonzero (internal l r) ok)
              (store-stored sha256 (internal l r) nodes),
          get_recursive-Extends sha256 nodes t.1 k left l s ext kl,
          get_recursive-Extends sha256 nodes t.1 k left r s ext kr,
        )
        refl
