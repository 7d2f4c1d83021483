-- ===== src/Execution/Mvcc/Own.antt =====
-- execution/mvcc.rs: a reader does not see what is written under its own sequence number.
use ryther_core.Base.{
  ℕ, zero, suc, ◌≤◌, ◌≡◌, refl, ◌∙◌, ap, List, [], ◌∷◌, Option, some, arith, Bool-cases, inl, inr,
  ◌==◌, insert_at,
}
use ryther_core.Dict
use ryther_core.Dict.Laws.{get-insert}
use ryther_core.Types.Uint.{U256, StateKey, key_eq, key-eq_iff}
use ryther_core.Types.State.{pending, StateVersion, VersionChain, add_version, read_for, scan}
use ryther_core.Execution.Mvcc.{
  MultiVersionState, chain_read, or_base, or_new, get_base, read, write,
}
use ryther_core.Execution.Mvcc.Reads.{chain_read-or_new}

scan-insert_at_own :
    (r : ℕ) (v : StateVersion) (p : ℕ) (xs : List StateVersion)
    → r ≤ v.tx_sequence
    → scan r (insert_at p v xs) ≡ scan r xs
unfolding scan
scan-insert_at_own r v zero xs h = ground arith
scan-insert_at_own r v (suc p) [] h = ground arith
scan-insert_at_own r v (suc p) (x ∷ xs) h = ground (arith, scan-insert_at_own r v p xs h)

read_for-add_version_own :
    (c : VersionChain) (v : StateVersion) (r : ℕ)
    → r ≤ v.tx_sequence
    → read_for (add_version c v) r ≡ read_for c r
unfolding read_for add_version
read_for-add_version_own c v r h = scan-insert_at_own r v _ c.versions h

module _ {Tree : Type 0} where
  -- A reader that does not come after the writer is not affected, whatever the chains hold.
  pub read-write_own :
      (s : MultiVersionState Tree) (key other : StateKey) (q r : ℕ) (value : Option U256)
      → r ≤ q
      → read (write s key q value) other r ≡ read s other r
  unfolding read write get_base
  read-write_own s key other q r value h =
      let v : StateVersion = record { tx_sequence = q; value = value; status = pending } in
      let o = Dict.get key s.chains in
      elim (Bool-cases (key == other)) [
        | inl same ↦
            let same_key : key ≡ other = (key-eq_iff key other).0 same in
            rw (get-insert other key (add_version (or_new o) v) s.chains, same)
              (ap (or_base (Dict.get other s.base_state)) (
                chain_read_some (add_version (or_new o) v) r
                ∙ (read_for-add_version_own (or_new o) v r h
                    ∙ (chain_read-or_new o r
                        ∙ ap (λ k. chain_read (Dict.get k s.chains) r) same_key))))
        | inr differs ↦ rw (get-insert other key (add_version (or_new o) v) s.chains, differs) refl
      ]
    where
      chain_read_some : (c : VersionChain) (n : ℕ) → chain_read (some c) n ≡ read_for c n
      chain_read_some c n = unfold chain_read in refl
