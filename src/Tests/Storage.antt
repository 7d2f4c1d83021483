-- ===== src/Tests/Storage.antt =====
-- The theorems about storage/ at concrete inputs.
use ryther_core.Base.{
  max, ℕ, nat_eq, ◌*◌, ◌%◌, ◌^◌, ◌-◌, ◌<◌, ◌≡◌, refl, true, some, List, [], ◌∷◌, arith,
}
use ryther_core.Bytes.{from_be_bytes, be_bytes}
use ryther_core.Dict
use ryther_core.Storage.Jmt.{
  JellyfishMerkleTree, new_tree, get, put, get_proof, verify_inclusion, Lookup, returned, hash_key,
  hash_value,
}
use ryther_core.Storage.Jmt as Jmt
use ryther_core.Storage.Jmt.Refine.{put_all-Refines, new_tree-IsTree}
use ryther_core.Storage.Jmt.Steps.{put-IsTree}
use ryther_core.Storage.Jmt.Nodes.{IsTree}
use ryther_core.Storage.Jmt.Written.{written_all, put_all, latest, collision_free}
use ryther_core.Storage.Jmt.Written as Written
use ryther_core.Storage.Jmt.Proof.{verify_inclusion-get_proof}
use ryther_core.Storage.Cache.{new_cache}
use ryther_core.Storage.Cache.Refine.{
  Operation, getting, putting, removing, clearing, run_cache, run_list, run_cache-Refines,
}
use ryther_core.Types.Uint.{U256, StateKey, from_u64, to_be_bytes, key_bytes}

-- A hash of 255 bits.
abbrev mix : List ℕ → ℕ
mix bytes = from_be_bytes bytes * 3 ^ 160 % (2 ^ 255 - 19)

mix_short : (bytes : List ℕ) → mix bytes < 2 ^ 256
mix_short bytes = omega arith

abbrev key_a : StateKey
key_a = record { address = 1; slot = from_u64 0 }

abbrev key_b : StateKey
key_b = record { address = 2; slot = from_u64 5 }

abbrev key_c : StateKey
key_c = record { address = 3; slot = from_u64 1 }

abbrev updates : List (StateKey × U256)
updates =
    (key_a, from_u64 10) ∷ (key_b, from_u64 20) ∷ (key_c, from_u64 30) ∷ (key_a, from_u64 40) ∷ []

updates_free : collision_free mix (written_all mix updates new_tree) ≡ true
unfolding written_all put Dict.get Dict.insert new_tree from_be_bytes Dict.contains Jmt.node_hash
    Written.all_apart Written.written be_bytes to_be_bytes key_bytes Jmt.same_bit Jmt.get_bit
updates_free = refl

put_all-Refines_example :
    get mix key_a (put_all mix updates new_tree)
    ≡ returned (Dict.get (hash_key mix key_a) (latest mix updates []))
put_all-Refines_example = put_all-Refines mix mix_short updates key_a updates_free

abbrev two_keys : JellyfishMerkleTree
two_keys = put mix key_b (from_u64 20) (put mix key_a (from_u64 10) new_tree)

two_keys-IsTree : IsTree mix two_keys
two_keys-IsTree =
    put-IsTree mix key_b (from_u64 20) (put mix key_a (from_u64 10) new_tree)
      (put-IsTree mix key_a (from_u64 10) new_tree (new_tree-IsTree mix))

put-IsTree_example : IsTree mix (put mix key_c (from_u64 30) two_keys)
put-IsTree_example = put-IsTree mix key_c (from_u64 30) two_keys two_keys-IsTree

found_a : get mix key_a two_keys ≡ returned (some (hash_value mix (from_u64 10)))
unfolding get put new_tree Dict.get Dict.insert from_be_bytes Jmt.node_hash be_bytes to_be_bytes
    key_bytes Jmt.same_bit Jmt.get_bit
found_a = refl

verify_inclusion-get_proof_example :
    verify_inclusion mix (get_proof mix key_a two_keys) (hash_value mix (from_u64 10)) ≡ true
verify_inclusion-get_proof_example =
    verify_inclusion-get_proof mix two_keys key_a (hash_value mix (from_u64 10))
      two_keys-IsTree.nodes_lem.hashed found_a

abbrev calls : List (Operation ℕ ℕ)
calls =
    putting 1 10
    ∷ putting 2 20
    ∷ getting 1
    ∷ putting 3 30
    ∷ getting 2
    ∷ putting 1 11
    ∷ removing 3
    ∷ clearing
    ∷ getting 1
    ∷ []

run_cache-Refines_example : run_cache calls (new_cache 2) ≡ some (run_list (max 2 1) calls [])
run_cache-Refines_example = run_cache-Refines 2 calls (omega arith)
