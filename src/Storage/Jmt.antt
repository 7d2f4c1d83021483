-- ===== src/Storage/Jmt.antt =====
-- storage/jmt.rs: the sparse Merkle tree and its proofs. A hash is the number of its 32 bytes, and
-- the empty hash is 0. A recursion at depth d has `left = 256 - d` levels below it.
pub mod Bits
pub mod Nodes
pub mod Steps
pub mod Written
pub mod Search
pub mod Update
pub mod Leaves
pub mod Put
pub mod Refine
pub mod Proof
use mathlib.Core.List.{reverse}
use ryther_core.Base.{
  ℕ, zero, suc, ◌+◌, ◌-◌, ◌*◌, ◌/◌, ◌%◌, ◌^◌, Bool, true, false, Option, none, some, List, [], ◌∷◌,
  ◌++◌, ◌==◌, nat_eq, eqb, if◌then◌else◌, length, add64,
}
use ryther_core.Bytes.{be_bytes}
use ryther_core.Dict
use ryther_core.Types.Uint.{U256, StateKey, key_bytes, to_be_bytes}

pub data JmtNode : Type 0 where
  internal : ℕ → ℕ → JmtNode
  leaf : ℕ → ℕ → JmtNode
  empty : JmtNode

abbrev pub Nodes : Type 0
Nodes = List (ℕ × JmtNode)

abbrev pub empty_hash : ℕ
empty_hash = 0

pub record JellyfishMerkleTree : Type 0 where
  pub nodes : Nodes
  pub root : ℕ
  pub version : ℕ

unfoldable pub new_tree : JellyfishMerkleTree
new_tree = record { nodes = []; root = empty_hash; version = 0 }

-- Byte `pos / 8` of the 32 shifted to the right by `7 - pos % 8`, and its lowest bit.
unfoldable pub get_bit : ℕ → ℕ → Bool
get_bit key_hash pos = eqb (key_hash / 256 ^ (31 - pos / 8) % 256 / 2 ^ (7 - pos % 8) % 2) 1

unfoldable pub same_bit : Bool → Bool → Bool
same_bit true b = b
same_bit false true = false
same_bit false false = true

pub data Lookup : Type 0 where
  returned : Option ℕ → Lookup
  -- The bit at depth 256 is asked for: an index out of bounds.
  out_of_bounds : Lookup

pub record JmtProof : Type 0 where
  pub key_hash : ℕ
  pub siblings : List (ℕ × ℕ)
  pub root : ℕ

unfoldable pub root_hash : JellyfishMerkleTree → ℕ
root_hash t = t.root

unfoldable pub tree_version : JellyfishMerkleTree → ℕ
tree_version t = t.version

unfoldable pub node_count : JellyfishMerkleTree → ℕ
node_count t = length t.nodes

-- The bit that a step at depth `255 - left` follows.
abbrev pub bit_above : ℕ → ℕ → Bool
bit_above left key_hash = get_bit key_hash (255 - left)

unfoldable pub get_node : ℕ → Bool → (ℕ → Lookup) → Option JmtNode → Lookup
get_node key_hash bit go none = returned none
get_node key_hash bit go (some (leaf stored value_hash)) =
    if stored == key_hash then returned (some value_hash) else returned none
get_node key_hash bit go (some (internal l r)) = if bit then go r else go l
get_node key_hash bit go (some empty) = returned none

unfoldable pub get_recursive : Nodes → ℕ → ℕ → ℕ → Lookup
unfolding get_node
get_recursive nodes key_hash zero node_hash =
    if node_hash == empty_hash
    then returned none
    else get_node key_hash false (λ child. out_of_bounds) (Dict.get node_hash nodes)
get_recursive nodes key_hash (suc left) node_hash =
    if node_hash == empty_hash
    then returned none
    else get_node key_hash (bit_above left key_hash) (get_recursive nodes key_hash left)
        (Dict.get node_hash nodes)

unfoldable pub collect_node :
    ℕ → Bool → (ℕ → List (ℕ × ℕ) → List (ℕ × ℕ)) → List (ℕ × ℕ) → Option JmtNode → List (ℕ × ℕ)
collect_node depth bit go siblings (some (internal l r)) =
    if bit then go r (siblings ++ ((depth, l) ∷ [])) else go l (siblings ++ ((depth, r) ∷ []))
collect_node depth bit go siblings (some (leaf k v)) = siblings
collect_node depth bit go siblings (some empty) = siblings
collect_node depth bit go siblings none = siblings

unfoldable pub collect_proof_siblings : Nodes → ℕ → ℕ → ℕ → List (ℕ × ℕ) → List (ℕ × ℕ)
unfolding collect_node
collect_proof_siblings nodes key_hash zero node_hash siblings = siblings
collect_proof_siblings nodes key_hash (suc left) node_hash siblings =
    if node_hash == empty_hash
    then siblings
    else collect_node (255 - left) (bit_above left key_hash)
        (collect_proof_siblings nodes key_hash left) siblings (Dict.get node_hash nodes)

module _ (sha256 : List ℕ → ℕ) where
  unfoldable pub node_hash : JmtNode → ℕ
  node_hash (internal l r) = sha256 (1 ∷ (be_bytes 32 l ++ be_bytes 32 r))
  node_hash (leaf key_hash value_hash) =
      sha256 (0 ∷ (be_bytes 32 key_hash ++ be_bytes 32 value_hash))
  node_hash empty = empty_hash

  -- `let hash = node.hash(); self.nodes.insert(hash, node); hash`
  unfoldable pub store : JmtNode → Nodes → ℕ × Nodes
  store n nodes = (node_hash n, Dict.insert (node_hash n) n nodes)

  -- The `match` of `put_recursive` on the node that stands at the hash.
  unfoldable pub put_node : ℕ → ℕ → ℕ → (ℕ → Nodes → ℕ × Nodes) → Nodes → Option JmtNode → ℕ × Nodes
  put_node key_hash value_hash left go nodes (some (leaf existing_key existing_value)) =
      let new_bit = bit_above left key_hash in
      let (existing_hash, nodes1) = store (leaf existing_key existing_value) nodes in
      let (child_hash, nodes2) = go existing_hash nodes1 in
      let (new_hash, nodes3) = store (leaf key_hash value_hash) nodes1 in
      if existing_key == key_hash
      then store (leaf key_hash value_hash) nodes
      else (if same_bit (bit_above left existing_key) new_bit
          then (if new_bit
              then store (internal empty_hash child_hash) nodes2
              else store (internal child_hash empty_hash) nodes2)
          else (if new_bit
              then store (internal existing_hash new_hash) nodes3
              else store (internal new_hash existing_hash) nodes3))
  put_node key_hash value_hash left go nodes (some (internal l r)) =
      let (new_right, nodes1) = go r nodes in
      let (new_left, nodes2) = go l nodes in
      if bit_above left key_hash
      then store (internal l new_right) nodes1
      else store (internal new_left r) nodes2
  put_node key_hash value_hash left go nodes (some empty) = store (leaf key_hash value_hash) nodes
  put_node key_hash value_hash left go nodes none = store (leaf key_hash value_hash) nodes

  unfoldable pub put_recursive : ℕ → ℕ → ℕ → ℕ → Nodes → ℕ × Nodes
  unfolding put_node store
  put_recursive key_hash value_hash zero node_hash nodes = store (leaf key_hash value_hash) nodes
  put_recursive key_hash value_hash (suc left) node_hash nodes =
      if node_hash == empty_hash
      then store (leaf key_hash value_hash) nodes
      else put_node key_hash value_hash left (put_recursive key_hash value_hash left) nodes
          (Dict.get node_hash nodes)

  unfoldable pub hash_key : StateKey → ℕ
  hash_key key = sha256 (key_bytes key)

  unfoldable pub hash_value : U256 → ℕ
  hash_value value = sha256 (to_be_bytes value)

  unfoldable pub put : StateKey → U256 → JellyfishMerkleTree → JellyfishMerkleTree
  unfolding put_recursive hash_key hash_value
  put key value t =
      let (root, nodes) = put_recursive (hash_key key) (hash_value value) 256 t.root t.nodes in
      record { nodes = nodes; root = root; version = add64 t.version 1 }

  unfoldable pub get : StateKey → JellyfishMerkleTree → Lookup
  unfolding get_recursive hash_key
  get key t = get_recursive t.nodes (hash_key key) 256 t.root

  unfoldable pub get_proof : StateKey → JellyfishMerkleTree → JmtProof
  unfolding collect_proof_siblings hash_key
  get_proof key t = record {
    key_hash = hash_key key;
    siblings = collect_proof_siblings t.nodes (hash_key key) 256 t.root [];
    root = t.root;
  }

  -- The loop of `verify_inclusion`, on the siblings from the last to the first.
  unfoldable pub climb : ℕ → ℕ → List (ℕ × ℕ) → ℕ
  unfolding node_hash
  climb key_hash current [] = current
  climb key_hash current ((depth, sibling) ∷ siblings) =
      climb key_hash
        (if get_bit key_hash depth
          then node_hash (internal sibling current)
          else node_hash (internal current sibling))
        siblings

  unfoldable pub verify_inclusion : JmtProof → ℕ → Bool
  unfolding climb
  verify_inclusion p value_hash =
      climb p.key_hash (node_hash (leaf p.key_hash value_hash)) (reverse p.siblings) == p.root
