-- ===== src/Execution/Mvcc/Abort.antt =====
-- Aborting a transaction takes its writes back.
use ryther_core.Base.{
  ℕ, ◌≡◌, refl, List, [], ◌∷◌, Option, none, some, true, if◌then◌else◌, arith, inl, inr,
  Option-cases, ◌==◌, ap, sym, ◌∙◌,
}
use ryther_core.Dict
use ryther_core.Dict.{contains, contains_key, Distinct, keys}
use ryther_core.Dict.Laws.{
  get-insert, contains_key-insert, contains-keys, contains_key-eq-true, contains_key-eq-false,
}
use ryther_core.Types.Uint.{U256, StateKey, key_eq, key-eq_iff}
use ryther_core.Types.State.{
  pending, aborted, StateVersion, VersionChain, WriteSet, new_write_set, record_write, add_version,
  mark_aborted, mark,
}
use ryther_core.Types.State.Reads.{read_for-marked}
use ryther_core.Execution.Mvcc.{
  MultiVersionState, chain_read, or_new, get_base, read, write, write_tracked, update_chain,
  mark_key_aborted, abort_keys, abort_write_set,
}
use ryther_core.Execution.Mvcc.Reads.{ChainDescending, ChainFresh, chain_read-or_new}

abbrev aborted_chain : ℕ → Option VersionChain → Option VersionChain
aborted_chain q none = none
aborted_chain q (some c) = some (mark_aborted c q)

abbrev written_chain : ℕ → Option (Option U256) → Option VersionChain → Option VersionChain
written_chain q none o = o
written_chain q (some value) o =
    some (add_version (or_new o) (record { tx_sequence = q; value = value; status = pending }))

mark-mark :
    (q : ℕ) (xs : List StateVersion) → mark aborted q (mark aborted q xs) ≡ mark aborted q xs
unfolding mark
mark-mark q [] = refl
mark-mark q (x ∷ xs) = ground (arith, mark-mark q xs)

aborted_chain_twice :
    (q : ℕ) (o : Option VersionChain) → aborted_chain q (aborted_chain q o) ≡ aborted_chain q o
unfolding mark_aborted
aborted_chain_twice q none = refl
aborted_chain_twice q (some c) = ap (λ xs. some (record { versions = xs })) (mark-mark q c.versions)

-- The chain of a key that was written once and aborted reads as the chain before.
undone :
    (q r : ℕ) (value : Option U256) (o : Option VersionChain)
    → ChainDescending o
    → ChainFresh q o
    → chain_read (aborted_chain q (written_chain q (some value) o)) r ≡ chain_read o r
undone q r value o d f =
    let v : StateVersion = record { tx_sequence = q; value = value; status = pending } in
    sym (chain_read-or_new (some (mark_aborted (add_version (or_new o) v) q)) r)
    ∙ ((read_for-marked (or_new o) v r d f).1 ∙ chain_read-or_new o r)

module _ {Tree : Type 0} where
  get-update_chain :
      (s : MultiVersionState Tree) (key other : StateKey) (q : ℕ) (o : Option VersionChain)
      → Dict.get key s.chains ≡ o
      → Dict.get other (update_chain (λ c. mark_aborted c q) key o s).chains ≡ (
          if key == other
          then aborted_chain q (Dict.get other s.chains)
          else Dict.get other s.chains)
  unfolding update_chain
  get-update_chain s key other q none e = ground (arith, key-eq_iff key other)
  get-update_chain s key other q (some c) e =
      ground (arith, key-eq_iff key other, get-insert other key (mark_aborted c q) s.chains)

  get-mark_key_aborted :
      (s : MultiVersionState Tree) (key other : StateKey) (q : ℕ)
      → Dict.get other (mark_key_aborted s key q).chains ≡ (
          if key == other
          then aborted_chain q (Dict.get other s.chains)
          else Dict.get other s.chains)
  unfolding mark_key_aborted
  get-mark_key_aborted s key other q = get-update_chain s key other q (Dict.get key s.chains) refl

  pub get-abort_keys :
      (s : MultiVersionState Tree) (q : ℕ) (ks : List StateKey) (other : StateKey)
      → Dict.get other (abort_keys q ks s).chains ≡ (
          if contains other ks
          then aborted_chain q (Dict.get other s.chains)
          else Dict.get other s.chains)
  unfolding abort_keys contains
  get-abort_keys s q [] other = refl
  get-abort_keys s q (k ∷ ks) other = ground (
    arith,
    get-abort_keys (mark_key_aborted s k q) q ks other,
    get-mark_key_aborted s k other q,
    aborted_chain_twice q (Dict.get other s.chains),
  )

  base-update_chain :
      (s : MultiVersionState Tree) (key : StateKey) (q : ℕ) (o : Option VersionChain)
      → (update_chain (λ c. mark_aborted c q) key o s).base_state ≡ s.base_state
  unfolding update_chain
  base-update_chain s key q none = refl
  base-update_chain s key q (some c) = refl

  base-abort_keys :
      (s : MultiVersionState Tree) (q : ℕ) (ks : List StateKey)
      → (abort_keys q ks s).base_state ≡ s.base_state
  unfolding abort_keys mark_key_aborted
  base-abort_keys s q [] = refl
  base-abort_keys s q (k ∷ ks) =
      base-abort_keys (mark_key_aborted s k q) q ks ∙ base-update_chain s k q (Dict.get k s.chains)

  -- The writes of a transaction, recorded in its write set as it makes them.
  pub run_writes :
      MultiVersionState Tree
      → WriteSet
      → ℕ
      → List (StateKey × Option U256)
      → MultiVersionState Tree × WriteSet
  run_writes s w q [] = (s, w)
  run_writes s w q ((key, value) ∷ rest) =
      let next = write_tracked s key q value w in run_writes next.0 next.1 q rest

  get-write :
      (s : MultiVersionState Tree) (key other : StateKey) (q : ℕ) (value : Option U256)
      → Dict.get other (write s key q value).chains ≡ (
          if key == other
          then written_chain q (some value) (Dict.get other s.chains)
          else Dict.get other s.chains)
  unfolding write
  get-write s key other q value = ground (
    arith,
    key-eq_iff key other,
    get-insert other key
        (add_version (or_new (Dict.get key s.chains))
          (record { tx_sequence = q; value = value; status = pending }))
        s.chains,
  )

  get-run_writes :
      (s : MultiVersionState Tree) (w : WriteSet) (q : ℕ) (ws : List (StateKey × Option U256))
      (other : StateKey)
      → Distinct ws
      → Dict.get other (run_writes s w q ws).0.chains
        ≡ written_chain q (Dict.get other ws) (Dict.get other s.chains)
  unfolding run_writes write_tracked Dict.get
  get-run_writes s w q [] other d = refl
  get-run_writes s w q ((key, value) ∷ rest) other d = ground (
    arith,
    key-eq_iff key other,
    get-run_writes (write s key q value) (record_write w key value) q rest other d.1,
    get-write s key other q value,
  )

  base-run_writes :
      (s : MultiVersionState Tree) (w : WriteSet) (q : ℕ) (ws : List (StateKey × Option U256))
      → (run_writes s w q ws).0.base_state ≡ s.base_state
  unfolding run_writes write_tracked write
  base-run_writes s w q [] = refl
  base-run_writes s w q ((key, value) ∷ rest) =
      base-run_writes (write s key q value) (record_write w key value) q rest

  -- The write set holds every key written.
  recorded :
      (s : MultiVersionState Tree) (w : WriteSet) (q : ℕ) (ws : List (StateKey × Option U256))
      (other : StateKey)
      → contains_key other (run_writes s w q ws).1.writes
        ≡ (if contains_key other ws then true else contains_key other w.writes)
  unfolding run_writes write_tracked record_write contains_key
  recorded s w q [] other = refl
  recorded s w q ((key, value) ∷ rest) other = ground (
    arith,
    recorded (write s key q value) (record_write w key value) q rest other,
    contains_key-insert other key value w.writes,
  )

  -- A transaction that writes distinct keys and is then aborted by its write set leaves every
  -- read of a key as it was before, if the key's versions are sorted and none of them has the
  -- transaction's number yet.
  pub aborted_transaction_invisible :
      (s : MultiVersionState Tree) (q : ℕ) (ws : List (StateKey × Option U256)) (other : StateKey)
      (r : ℕ)
      → Distinct ws
      → ChainDescending (Dict.get other s.chains)
      → ChainFresh q (Dict.get other s.chains)
      → let after = run_writes s new_write_set q ws in
        read (abort_write_set after.0 q after.1) other r ≡ read s other r
  unfolding read get_base abort_write_set new_write_set contains_key
  aborted_transaction_invisible s q ws other r distinct d f =
      let none_yet : WriteSet = record { writes = [] } in
      let after = run_writes s none_yet q ws in
      let ks = keys after.1.writes in
      let chain = get-abort_keys after.0 q ks other in
      let written = get-run_writes s none_yet q ws other distinct in
      let base = base-abort_keys after.0 q ks ∙ base-run_writes s none_yet q ws in
      let held = contains-keys other after.1.writes ∙ recorded s none_yet q ws other in
      elim (Option-cases (Dict.get other ws)) [
        | inl absent ↦
            let skipped = contains_key-eq-false other ws absent in
            ground (arith, base, chain, written, held, skipped, absent)
        | inr (value, present) ↦
            let marked = contains_key-eq-true other ws value present in
            ground (
              arith,
              base,
              chain,
              written,
              held,
              marked,
              present,
              undone q r value (Dict.get other s.chains) d f,
            )
      ]
