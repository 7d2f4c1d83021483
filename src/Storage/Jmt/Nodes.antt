-- ===== src/Storage/Jmt/Nodes.antt =====
-- storage/jmt.rs: what holds of the stored nodes, and that `put` keeps it.
use ryther_core.Base.{ℕ, ◌≡◌, refl, subst, some, List, ◌==◌, nat_eq, ◌⊎◌, inl, inr, Bool-cases}
use ryther_core.Dict.{get}
use ryther_core.Dict.Laws.{get-insert, get-insert_self, get-insert_cases}
use ryther_core.Storage.Jmt.{
  JmtNode, internal, leaf, empty, Nodes, JellyfishMerkleTree, node_hash, store,
}

-- The node at this hash is empty or stored.
abbrev pub Known : Nodes → ℕ → Type 0
Known nodes h = (h ≡ 0) ⊎ ((n : JmtNode) × (get h nodes ≡ some n))

abbrev pub KnownChildren : Nodes → JmtNode → Type 0
KnownChildren nodes (internal l r) = Known nodes l × Known nodes r
KnownChildren nodes _ = Unit

module _ (sha256 : List ℕ → ℕ) where
  -- Every node stands under its hash, and its children are empty or stored.
  pub record IsStore (nodes : Nodes) : Type 0 where
    pub hashed : (h : ℕ) (n : JmtNode) → get h nodes ≡ some n → node_hash sha256 n ≡ h
    pub closed : (h : ℕ) (n : JmtNode) → get h nodes ≡ some n → KnownChildren nodes n

  pub record IsTree (t : JellyfishMerkleTree) : Type 0 where
    pub nodes_lem : IsStore t.nodes
    pub root_lem : Known t.nodes t.root

  Known-store :
      (n : JmtNode) (nodes : Nodes) (h : ℕ) → Known nodes h → Known (store sha256 n nodes).1 h
  unfolding store
  Known-store n nodes h known = elim known [
    | inl e ↦ inl e
    | inr s ↦ elim (Bool-cases (node_hash sha256 n == h)) [
      | inl e ↦ inr (n, rw (get-insert h (node_hash sha256 n) n nodes, e) refl)
      | inr e ↦ inr (s.0, rw (get-insert h (node_hash sha256 n) n nodes, e) s.1)
    ]
  ]

  KnownChildren-store :
      (n m : JmtNode) (nodes : Nodes)
      → KnownChildren nodes m
      → KnownChildren (store sha256 n nodes).1 m
  KnownChildren-store n (internal l r) nodes h =
      (Known-store n nodes l h.0, Known-store n nodes r h.1)
  KnownChildren-store n (leaf k v) nodes h = tt
  KnownChildren-store n empty nodes h = tt

  pub store-stored :
      (n : JmtNode) (nodes : Nodes) → get (store sha256 n nodes).0 (store sha256 n nodes).1 ≡ some n
  unfolding store
  store-stored n nodes = get-insert_self (node_hash sha256 n) n nodes

  store-IsStore :
      (n : JmtNode) (nodes : Nodes)
      → IsStore nodes
      → KnownChildren nodes n
      → IsStore (store sha256 n nodes).1
  unfolding store
  store-IsStore n nodes s children = record {
    hashed = λ h m e. elim (get-insert_cases h (node_hash sha256 n) n nodes m e) [
      | inl new ↦ rw (new.1) at new.0
      | inr old ↦ s.hashed h m old.1
    ];
    closed = λ h m e.
        KnownChildren-store n m nodes (elim (get-insert_cases h (node_hash sha256 n) n nodes m e) [
          | inl new ↦ subst (KnownChildren nodes) new.1 children
          | inr old ↦ s.closed h m old.1
        ]);
  }

  -- What a step leaves: a store in which the hash it returns is stored, and what was known still is.
  pub record IsStep (nodes : Nodes) (r : ℕ × Nodes) : Type 0 where
    pub kept : IsStore r.1
    pub returned : (n : JmtNode) × (get r.0 r.1 ≡ some n)
    pub grown : (h : ℕ) → Known nodes h → Known r.1 h

  pub store-IsStep :
      (n : JmtNode) (nodes : Nodes)
      → IsStore nodes
      → KnownChildren nodes n
      → IsStep nodes (store sha256 n nodes)
  store-IsStep n nodes s children = record {
    kept = store-IsStore n nodes s children;
    returned = (n, store-stored n nodes);
    grown = Known-store n nodes;
  }

  -- A store after a step is a step from where that one began.
  pub store-IsStep_after :
      (n : JmtNode) (nodes : Nodes) (r : ℕ × Nodes)
      → IsStep nodes r
      → KnownChildren r.1 n
      → IsStep nodes (store sha256 n r.1)
  store-IsStep_after n nodes r s children = record {
    kept = store-IsStore n r.1 s.kept children;
    returned = (n, store-stored n r.1);
    grown = λ h known. Known-store n r.1 h (s.grown h known);
  }
