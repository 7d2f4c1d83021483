-- ===== src/Execution/Mvcc/Next.antt =====
-- execution/mvcc.rs: what the transaction with the next number reads after a write.
use ryther_core.Base.{ℕ, suc, ◌≡◌, refl, ap, ◌∙◌, sym, Option, some, false, ◌==◌, beq_refl}
use ryther_core.Dict
use ryther_core.Dict.Laws.{get-insert, get-insert_ne}
use ryther_core.Types.Uint.{U256, StateKey, key_eq}
use ryther_core.Types.State.{pending, StateVersion, VersionChain, add_version}
use ryther_core.Types.State.Chain.{Strict, add_version-Strict}
use ryther_core.Types.State.Newest.{read_for-add_version_next, read_for_next}
use ryther_core.Execution.Mvcc.{
  MultiVersionState, chain_read, or_base, or_new, get_base, read, write,
}
use ryther_core.Execution.Mvcc.Reads.{ChainFresh, chain_read-or_new}

-- The chain at a key is sorted from the newest version and repeats no number.
abbrev pub ChainStrict : Option VersionChain → Type 0
ChainStrict o = Strict (or_new o).versions

module _ {Tree : Type 0} (s : MultiVersionState Tree) (key : StateKey) (q : ℕ)
    (value : Option U256) where
  pub get-write_other :
      (other : StateKey)
      → (key == other) ≡ false
      → Dict.get other (write s key q value).chains ≡ Dict.get other s.chains
  unfolding write
  get-write_other other differs = get-insert_ne other key _ s.chains differs

  pub read-write_other :
      (other : StateKey) (r : ℕ)
      → (key == other) ≡ false
      → read (write s key q value) other r ≡ read s other r
  unfolding read write get_base
  read-write_other other r differs =
      ap (λ o. or_base (Dict.get other s.base_state) (chain_read o r))
        (get-insert_ne other key _ s.chains differs)

  pub read-write_next :
      ChainStrict (Dict.get key s.chains) → read (write s key q value) key (suc q) ≡ (value, q)
  unfolding read write get_base
  read-write_next strict =
      let v : StateVersion = record { tx_sequence = q; value = value; status = pending } in
      let o = Dict.get key s.chains in
      rw (get-insert key key (add_version (or_new o) v) s.chains, beq_refl key)
        (ap (or_base (Dict.get key s.base_state)) (
          sym (chain_read-or_new (some (add_version (or_new o) v)) (suc q))
          ∙ read_for-add_version_next (or_new o) v strict refl))

  pub write-ChainStrict :
      ChainStrict (Dict.get key s.chains)
      → ChainFresh q (Dict.get key s.chains)
      → ChainStrict (Dict.get key (write s key q value).chains)
  unfolding write
  write-ChainStrict strict fresh =
      let v : StateVersion = record { tx_sequence = q; value = value; status = pending } in
      let o = Dict.get key s.chains in
      rw (get-insert key key (add_version (or_new o) v) s.chains, beq_refl key)
        (add_version-Strict (or_new o) v fresh strict)

pub read_next :
    {Tree : Type 0} (s : MultiVersionState Tree) (key : StateKey) (q : ℕ)
    → ChainFresh q (Dict.get key s.chains)
    → read s key (suc q) ≡ read s key q
unfolding read
read_next s key q fresh =
    let o = Dict.get key s.chains in
    ap (or_base (get_base s key))
      (sym (chain_read-or_new o (suc q)) ∙ read_for_next (or_new o) q fresh ∙ chain_read-or_new o q)
