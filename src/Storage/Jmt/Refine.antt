-- ===== src/Storage/Jmt/Refine.antt =====
-- storage/jmt.rs: the tree as a map from key hashes to value hashes.
use ryther_core.Base.{
  ℕ, Bool, Option, ◌^◌, ◌<◌, ◌≡◌, refl, ◌∙◌, sym, true, false, some, List, [], ◌∷◌, ◌==◌, nat_eq,
  if◌then◌else◌, arith, inl, All, All-append_inv,
}
use ryther_core.Dict
use ryther_core.Dict.Laws.{get-insert}
use ryther_core.Storage.Jmt.{
  JmtNode, JellyfishMerkleTree, new_tree, put, get, returned, hash_key, hash_value,
}
use ryther_core.Storage.Jmt.Bits.{path_above_all}
use ryther_core.Storage.Jmt.Nodes.{IsTree}
use ryther_core.Storage.Jmt.Steps.{put-IsTree}
use ryther_core.Storage.Jmt.Written.{
  written, written_all, put_all, latest, collision_free, all_apart_lem, all_apart-nonzero,
  All-contains, node_eq,
}
use ryther_core.Storage.Jmt.Search.{IsApart, Within, get_recursive_empty}
use ryther_core.Storage.Jmt.Put.{put_recursive-IsUpdate}
use ryther_core.Types.Uint.{StateKey, U256}

choose_returned :
    (b : Bool) (x y : Option ℕ)
    → (if b then returned x else returned y) ≡ returned (if b then x else y)
choose_returned true x y = refl
choose_returned false x y = refl

module _ (sha256 : List ℕ → ℕ) where
  pub new_tree-IsTree : IsTree sha256 new_tree
  unfolding new_tree Dict.get
  new_tree-IsTree = record {
    nodes_lem = record { hashed = λ h n e. cc; closed = λ h n e. cc };
    root_lem = inl refl;
  }

  collision_free-IsApart :
      (ns : List JmtNode)
      → collision_free sha256 ns ≡ true
      → IsApart sha256 (λ n. Dict.contains n ns ≡ true)
  collision_free-IsApart ns h = record {
    nonzero = λ n k. all_apart-nonzero sha256 n ns ns h k;
    distinct = λ n m k l e. all_apart_lem sha256 n m ns ns h k l e;
  }

  module _ (short : (bytes : List ℕ) → sha256 bytes < 2 ^ 256) (K : JmtNode → Type 0)
      (apart : IsApart sha256 K) where
    put_lem :
        (key : StateKey) (value : U256) (t : JellyfishMerkleTree) (j : StateKey)
        → IsTree sha256 t
        → Within K t.nodes
        → All K (written sha256 (hash_key sha256 key) (hash_value sha256 value) 256 t.root t.nodes)
        → Within K (put sha256 key value t).nodes
          × (get sha256 j (put sha256 key value t) ≡ (
              if hash_key sha256 key == hash_key sha256 j
              then returned (some (hash_value sha256 value))
              else get sha256 j t))
    unfolding put get hash_key
    put_lem key value t j tree w ok =
        let k = hash_key sha256 key in
        let u =
          put_recursive-IsUpdate sha256 K apart k (hash_value sha256 value) (hash_key sha256 j) 256
            t.root t.nodes (omega arith) tree.nodes_lem w tree.root_lem ok in
        (
          u.within,
          u.found (path_above_all k (short _) ∙ sym (path_above_all (hash_key sha256 j) (short _))),
        )

    updates_lem :
        (updates : List (StateKey × U256)) (t : JellyfishMerkleTree) (m : List (ℕ × ℕ))
        (j : StateKey)
        → IsTree sha256 t
        → Within K t.nodes
        → All K (written_all sha256 updates t)
        → get sha256 j t ≡ returned (Dict.get (hash_key sha256 j) m)
        → get sha256 j (put_all sha256 updates t)
          ≡ returned (Dict.get (hash_key sha256 j) (latest sha256 updates m))
    unfolding put_all written_all latest
    updates_lem [] t m j tree w ok before = before
    updates_lem ((key, value) ∷ updates) t m j tree w ok before =
        let parts =
          All-append_inv K
            (written sha256 (hash_key sha256 key) (hash_value sha256 value) 256 t.root t.nodes)
            (written_all sha256 updates (put sha256 key value t)) ok in
        let step = put_lem key value t j tree w parts.0 in
        updates_lem updates (put sha256 key value t)
          (Dict.insert (hash_key sha256 key) (hash_value sha256 value) m) j
          (put-IsTree sha256 key value t tree) step.0 parts.1
          (step.1
            ∙ (rw (get-insert, before)
                (choose_returned (hash_key sha256 key == hash_key sha256 j)
                  (some (hash_value sha256 value)) (Dict.get (hash_key sha256 j) m))))

  -- If the hash gives 32 bytes, and among the nodes that a sequence of updates of the new tree stores
  -- none has the hash 0 and no two different ones have the same hash, then a lookup of any key stays
  -- in bounds and finds what the map of the updates, the last value of each key hash, holds: the
  -- hash of the last value put at that key hash, or nothing if there is none.
  pub put_all-Refines :
      ((bytes : List ℕ) → sha256 bytes < 2 ^ 256)
      → (updates : List (StateKey × U256)) (key : StateKey)
      → collision_free sha256 (written_all sha256 updates new_tree) ≡ true
      → get sha256 key (put_all sha256 updates new_tree)
        ≡ returned (Dict.get (hash_key sha256 key) (latest sha256 updates []))
  put_all-Refines short updates key free =
      let ns = written_all sha256 updates new_tree in
      updates_lem short (λ n. Dict.contains n ns ≡ true) (collision_free-IsApart ns free) updates
        new_tree [] key new_tree-IsTree (unfold new_tree Dict.get in λ h n e. absurd (cc))
        (All-contains sha256 ns)
        (unfold new_tree get Dict.get in get_recursive_empty [] (hash_key sha256 key) 256)
