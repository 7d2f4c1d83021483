-- ===== src/Evm/Vm/Balances.antt =====
-- evm/vm.rs: the balances that stand in the state after a call, as the next transaction reads them.
use ryther_core.Base.{
  ℕ, suc, nat_eq, ◌≡◌, ◌≢◌, refl, sym, ap, ◌∙◌, subst, inl, inr, Bool, false, Option, arith,
  Bool-cases, ◌==◌, if◌then◌else◌,
}
use ryther_core.Dict
use ryther_core.Evm.Slots.{balance_key, nonce_key}
use ryther_core.Execution.Mvcc.{MultiVersionState, read, write}
use ryther_core.Execution.Mvcc.Reads.{ChainFresh}
use ryther_core.Execution.Mvcc.Next.{
  ChainStrict, get-write_other, read-write_other, read-write_next, write-ChainStrict, read_next,
}
use ryther_core.Types.Uint.{U256, StateKey, key_eq, key-eq_iff}

pub balance_keys_differ : (a b : ℕ) → a ≢ b → (balance_key a == balance_key b) ≡ false
balance_keys_differ a b h = elim (Bool-cases (balance_key a == balance_key b)) [
  | inl same ↦
      absurd
        (h (ap (λ (k : StateKey). k.address) ((key-eq_iff (balance_key a) (balance_key b)).0 same)))
  | inr differ ↦ differ
]

pub nonce_is_no_balance : (a b : ℕ) → (nonce_key a == balance_key b) ≡ false
nonce_is_no_balance a b = elim (Bool-cases (nonce_key a == balance_key b)) [
  | inl same ↦ absurd (
      one_is_not_zero
        (ap (λ (k : StateKey). k.slot.l0) ((key-eq_iff (nonce_key a) (balance_key b)).0 same)))
  | inr differ ↦ differ
]
  where
    one_is_not_zero : ◌≢◌ {A = ℕ} 1 0
    one_is_not_zero h = omega arith

-- The chain at a key is sorted, repeats no number, and has no version of this one.
abbrev pub IsNew : {Tree : Type 0} → MultiVersionState Tree → ℕ → StateKey → Type 0
IsNew s q key = ChainStrict (Dict.get key s.chains) × ChainFresh q (Dict.get key s.chains)

-- The state after writes at four keys, one of them twice and one of them only sometimes.
module _ {Tree : Type 0} (state : MultiVersionState Tree) (q : ℕ) (some_sent : Bool)
    (payer nonce receiver producer : StateKey)
    (left number received final earned : Option U256) where
  started : MultiVersionState Tree
  started = write (write state payer q left) nonce q number

  sent : MultiVersionState Tree
  unfolding started
  sent = if some_sent then write started receiver q received else started

  abbrev pub five_writes_state : MultiVersionState Tree
  five_writes_state =
      let s = write (write state payer q left) nonce q number in
      write (write (if some_sent then write s receiver q received else s) payer q final) producer q
        earned

  module _ (a : (nonce == payer) ≡ false) (b : (nonce == receiver) ≡ false)
      (c : (nonce == producer) ≡ false) (d : (payer == receiver) ≡ false)
      (e : (payer == producer) ≡ false) (f : (receiver == payer) ≡ false)
      (g : (receiver == producer) ≡ false) (h : (producer == payer) ≡ false)
      (i : (producer == receiver) ≡ false) where
    sent_other :
        (key : StateKey)
        → (receiver == key) ≡ false
        → Dict.get key sent.chains ≡ Dict.get key started.chains
    unfolding sent
    sent_other key differs = elim (Bool-cases some_sent) [
      | inl yes' ↦ rw (yes') (get-write_other started receiver q received key differs)
      | inr no' ↦ rw (no') refl
    ]

    read_producer :
        ChainStrict (Dict.get producer state.chains)
        → read five_writes_state producer (suc q) ≡ (earned, q)
    unfolding sent started
    read_producer strict =
        let chain : Dict.get producer (write sent payer q final).chains
            ≡ Dict.get producer state.chains =
          get-write_other sent payer q final producer e
          ∙ sent_other producer g
          ∙ get-write_other (write state payer q left) nonce q number producer c
          ∙ get-write_other state payer q left producer e in
        read-write_next (write sent payer q final) producer q earned
          (subst ChainStrict (sym chain) strict)

    read_payer : IsNew state q payer → read five_writes_state payer (suc q) ≡ (final, q)
    unfolding sent started
    read_payer (strict, fresh) =
        let chain : Dict.get payer sent.chains ≡ Dict.get payer (write state payer q left).chains =
          sent_other payer f ∙ get-write_other (write state payer q left) nonce q number payer a in
        read-write_other (write sent payer q final) producer q earned payer (suc q) h
        ∙ read-write_next sent payer q final
            (subst ChainStrict (sym chain) (write-ChainStrict state payer q left strict fresh))

    read_receiver :
        IsNew state q receiver
        → read five_writes_state receiver (suc q)
          ≡ (if some_sent then (received, q) else read state receiver q)
    unfolding sent started
    read_receiver (strict, fresh) =
        let chain : Dict.get receiver started.chains ≡ Dict.get receiver state.chains =
          get-write_other (write state payer q left) nonce q number receiver b
          ∙ get-write_other state payer q left receiver d in
        read-write_other (write sent payer q final) producer q earned receiver (suc q) i
        ∙ read-write_other sent payer q final receiver (suc q) d
        ∙ elim (Bool-cases some_sent) [
          | inl yes' ↦
              rw (yes')
                (read-write_next started receiver q received (subst ChainStrict (sym chain) strict))
          | inr no' ↦ rw (no') (
              read-write_other (write state payer q left) nonce q number receiver (suc q) b
              ∙ read-write_other state payer q left receiver (suc q) d
              ∙ read_next state receiver q fresh)
        ]

    -- What the next transaction reads at the three keys that hold balances.
    pub five_writes_reads :
        IsNew state q payer
        → IsNew state q receiver
        → IsNew state q producer
        → (read five_writes_state payer (suc q) ≡ (final, q))
          × (read five_writes_state receiver (suc q)
              ≡ (if some_sent then (received, q) else read state receiver q))
          × (read five_writes_state producer (suc q) ≡ (earned, q))
    five_writes_reads x y z = (read_payer x, read_receiver y, read_producer z.0)
