-- ===== src/Storage/Jmt/Written.antt =====
-- storage/jmt.rs: the nodes that `put_recursive` stores, and when no two hashes meet.
use ryther_core.Base.{
  ℕ, zero, suc, ◌≡◌, Bool, true, false, ◌&&◌, not, Option, none, some, List, [], ◌∷◌, ◌++◌, ◌==◌,
  Eq, nat_eq, if◌then◌else◌, arith, eqb, ◌↔◌, All, All-map_imp,
}
use ryther_core.Dict
use ryther_core.Storage.Jmt.{
  JmtNode, internal, leaf, empty, Nodes, JellyfishMerkleTree, node_hash, store, put_recursive, put,
  empty_hash, hash_key, hash_value, bit_above, same_bit,
}
use ryther_core.Types.Uint.{StateKey, U256}

abbrev pub node_beq : JmtNode → JmtNode → Bool
node_beq (internal a b) (internal c d) = eqb a c && eqb b d
node_beq (internal a b) (leaf c d) = false
node_beq (internal a b) empty = false
node_beq (leaf a b) (internal c d) = false
node_beq (leaf a b) (leaf c d) = eqb a c && eqb b d
node_beq (leaf a b) empty = false
node_beq empty (internal c d) = false
node_beq empty (leaf c d) = false
node_beq empty empty = true

pub node_beq_iff : (n m : JmtNode) → (node_beq n m ≡ true) ↔ (n ≡ m)
node_beq_iff n m = ground arith

instance abbrev pub node_eq : Eq JmtNode
node_eq = record { beq = node_beq; beq_iff = node_beq_iff }

module _ (sha256 : List ℕ → ℕ) where
  -- The nodes that the `match` stores, where `go` recurses and `below` lists what `go` stores.
  unfoldable pub written_node :
      ℕ
      → ℕ
      → ℕ
      → (ℕ → Nodes → ℕ × Nodes)
      → (ℕ → Nodes → List JmtNode)
      → Nodes
      → Option JmtNode
      → List JmtNode
  written_node k v left go below nodes (some (leaf ek ev)) =
      let old = store sha256 (leaf ek ev) nodes in
      let child = (go old.0 old.1).0 in
      if ek == k
      then leaf k v ∷ []
      else (if same_bit (bit_above left ek) (bit_above left k)
          then leaf ek ev
            ∷ (if bit_above left k then internal 0 child else internal child 0)
            ∷ below old.0 old.1
          else leaf ek ev
            ∷ leaf k v
            ∷ (if bit_above left k
                then internal (node_hash sha256 (leaf ek ev)) (node_hash sha256 (leaf k v))
                else internal (node_hash sha256 (leaf k v)) (node_hash sha256 (leaf ek ev)))
            ∷ [])
  written_node k v left go below nodes (some (internal l r)) =
      if bit_above left k
      then internal l (go r nodes).0 ∷ below r nodes
      else internal (go l nodes).0 r ∷ below l nodes
  written_node k v left go below nodes (some empty) = leaf k v ∷ []
  written_node k v left go below nodes none = leaf k v ∷ []

  unfoldable pub written : ℕ → ℕ → ℕ → ℕ → Nodes → List JmtNode
  unfolding written_node
  written k v zero h nodes = leaf k v ∷ []
  written k v (suc left) h nodes =
      if h == empty_hash
      then leaf k v ∷ []
      else written_node k v left (put_recursive sha256 k v left) (written k v left) nodes
          (Dict.get h nodes)

  -- A sequence of updates, and all that they store.
  unfoldable pub put_all : List (StateKey × U256) → JellyfishMerkleTree → JellyfishMerkleTree
  put_all [] t = t
  put_all ((key, value) ∷ updates) t = put_all updates (put sha256 key value t)

  unfoldable pub written_all : List (StateKey × U256) → JellyfishMerkleTree → List JmtNode
  written_all [] t = []
  written_all ((key, value) ∷ updates) t =
      written (hash_key sha256 key) (hash_value sha256 value) 256 t.root t.nodes
      ++ written_all updates (put sha256 key value t)

  -- The map that the updates describe: the last value of each key.
  unfoldable pub latest : List (StateKey × U256) → List (ℕ × ℕ) → List (ℕ × ℕ)
  latest [] m = m
  latest ((key, value) ∷ updates) m =
      latest updates (Dict.insert (hash_key sha256 key) (hash_value sha256 value) m)

  -- No node among these has the hash 0, and no two different ones have the same hash.
  unfoldable pub apart_from : JmtNode → List JmtNode → Bool
  apart_from n [] = true
  apart_from n (m ∷ ms) =
      (if node_hash sha256 n == node_hash sha256 m then node_beq n m else true) && apart_from n ms

  unfoldable pub nonzero_hash : JmtNode → Bool
  nonzero_hash n = not (node_hash sha256 n == 0)

  unfoldable pub all_apart : List JmtNode → List JmtNode → Bool
  unfolding apart_from nonzero_hash
  all_apart [] ms = true
  all_apart (n ∷ ns) ms = nonzero_hash n && (apart_from n ms && all_apart ns ms)

  abbrev pub collision_free : List JmtNode → Bool
  collision_free ns = all_apart ns ns

  apart_from_lem :
      (n m : JmtNode) (ms : List JmtNode)
      → apart_from n ms ≡ true
      → Dict.contains m ms ≡ true
      → node_hash sha256 n ≡ node_hash sha256 m
      → n ≡ m
  unfolding apart_from Dict.contains
  apart_from_lem n m (x ∷ ms) h k e =
      ground (arith, node_beq_iff n x, node_beq_iff x m, apart_from_lem n m ms)
  apart_from_lem n m [] h k e = ground arith

  pub all_apart_lem :
      (n m : JmtNode) (ns ms : List JmtNode)
      → all_apart ns ms ≡ true
      → Dict.contains n ns ≡ true
      → Dict.contains m ms ≡ true
      → node_hash sha256 n ≡ node_hash sha256 m
      → n ≡ m
  unfolding all_apart Dict.contains
  all_apart_lem n m (x ∷ ns) ms h k l e =
      ground (arith, node_beq_iff x n, apart_from_lem n m ms, all_apart_lem n m ns ms)
  all_apart_lem n m [] ms h k l e = ground arith

  pub all_apart-nonzero :
      (n : JmtNode) (ns ms : List JmtNode)
      → all_apart ns ms ≡ true
      → Dict.contains n ns ≡ true
      → (node_hash sha256 n == 0) ≡ false
  unfolding all_apart nonzero_hash Dict.contains
  all_apart-nonzero n (x ∷ ns) ms h k = ground (arith, node_beq_iff x n, all_apart-nonzero n ns ms)
  all_apart-nonzero n [] ms h k = ground arith

  -- Every node of a list is in the list.
  pub All-contains : (ns : List JmtNode) → All (λ n. Dict.contains n ns ≡ true) ns
  unfolding Dict.contains
  All-contains [] = tt
  All-contains (n ∷ ns) = (
    ground (arith, node_beq_iff n n),
    All-map_imp (λ m h. ground (arith, node_beq_iff n m)) ns (All-contains ns),
  )
