-- ===== src/Execution/Mvcc/Reads.antt =====
-- Reads of the versioned state after writes and marks.
use ryther_core.Base.{
  ℕ, ◌<◌, ◌≡◌, refl, List, Option, none, some, if◌then◌else◌, arith, Bool-cases, inl, inr, All,
  ◌==◌, ap, lt→ltb, beq_refl, sym, ◌∙◌,
}
use ryther_core.Dict
use ryther_core.Dict.{Distinct}
use ryther_core.Dict.Laws.{get-insert, insert-Distinct}
use ryther_core.Types.Uint.{U256, StateKey, key_eq, key-eq_iff}
use ryther_core.Types.State.{
  pending, StateVersion, VersionChain, new_chain, add_version, read_for, scan,
}
use ryther_core.Types.State.Chain.{Descending, Fresh}
use ryther_core.Types.State.Reads.{prefer, read_for-add_version}
use ryther_core.Execution.Mvcc.{
  MultiVersionState, chain_read, or_base, or_new, get_base, read, write,
}

-- Every chain is sorted.
abbrev pub Sorted : List (StateKey × VersionChain) → Type 0
Sorted = All (λ e. Descending e.1.versions)

abbrev pub ChainDescending : Option VersionChain → Type 0
ChainDescending o = Descending (or_new o).versions

abbrev pub ChainFresh : ℕ → Option VersionChain → Type 0
ChainFresh q o = Fresh q (or_new o).versions

pub chain_read-or_new : (o : Option VersionChain) (r : ℕ) → read_for (or_new o) r ≡ chain_read o r
unfolding chain_read read_for new_chain scan
chain_read-or_new none r = refl
chain_read-or_new (some c) r = refl

chain_read-add_version :
    (o : Option VersionChain) (v : StateVersion) (r : ℕ)
    → ChainDescending o
    → ChainFresh v.tx_sequence o
    → chain_read (some (add_version (or_new o) v)) r ≡ prefer r v (chain_read o r)
chain_read-add_version o v r d f =
    sym (chain_read-or_new (some (add_version (or_new o) v)) r)
    ∙ (read_for-add_version (or_new o) v r d f ∙ ap (prefer r v) (chain_read-or_new o r))

module _ {Tree : Type 0} where
  -- After a write, a reader of that key gets the new version if the writer comes before it and no
  -- newer version is there, and else what it got before; readers of other keys are not affected.
  -- The writer's number must be new to the key, and the key's versions sorted.
  read-write :
      (s : MultiVersionState Tree) (key other : StateKey) (q r : ℕ) (value : Option U256)
      → ChainDescending (Dict.get key s.chains)
      → ChainFresh q (Dict.get key s.chains)
      → read (write s key q value) other r ≡ (
          if key == other
          then or_base (get_base s key) (
              prefer r
                (record { tx_sequence = q; value = value; status = pending })
                (chain_read (Dict.get key s.chains) r))
          else read s other r)
  unfolding read write get_base
  read-write s key other q r value d f =
      let v : StateVersion = record { tx_sequence = q; value = value; status = pending } in
      let o = Dict.get key s.chains in
      elim (Bool-cases (key == other)) [
        | inl same ↦
            rw
              (
                get-insert other key (add_version (or_new o) v) s.chains,
                same,
                chain_read-add_version o v r d f,
              )
              (ap (λ k. or_base (Dict.get k s.base_state) (prefer r v (chain_read o r)))
                (sym ((key-eq_iff key other).0 same)))
        | inr differs ↦ rw (get-insert other key (add_version (or_new o) v) s.chains, differs)
      ]

  pub write-Distinct :
      (s : MultiVersionState Tree) (key : StateKey) (q : ℕ) (value : Option U256)
      → Distinct s.chains
      → Distinct (write s key q value).chains
  unfolding write
  write-Distinct s key q value d = insert-Distinct key _ s.chains d

  -- The first write to a key is read by whoever comes after its writer.
  pub read-write_first :
      (s : MultiVersionState Tree) (key : StateKey) (q r : ℕ) (value : Option U256)
      → Dict.get key s.chains ≡ none
      → q < r
      → read (write s key q value) key r ≡ (value, q)
  unfolding chain_read new_chain
  read-write_first s key q r value absent h =
      read-write s key key q r value (rw (absent, new_chain) tt) (rw (absent, new_chain) tt)
      ∙ rw (absent, beq_refl key) (ground (arith, lt→ltb q r h))
