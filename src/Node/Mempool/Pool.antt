-- ===== src/Node/Mempool/Pool.antt =====
-- The invariant of node/mempool.rs, and that no transaction is admitted twice.
use ryther_core.Base.{
  ℕ, suc, ◌<◌, ◌≤◌, ◌≡◌, refl, inl, inr, true, false, Option, none, some, List, [], ◌∷◌, ◌==◌,
  if◌then◌else◌, leb, eqb, eqb_iff, length, nat_eq, pair_eq, arith, Bool-cases, Option-cases, sym,
  ◌∙◌, ap, Eq, beq_refl,
}
use ryther_core.Dict
use ryther_core.Dict.Laws.{get-insert, get-remove, contains-add}
use ryther_core.Types.Uint.{U256, u256_eq, ltb_u256}
use ryther_core.Types.Transaction.{EncryptedTransaction}
use ryther_core.Node.Mempool.{
  PendingTransaction, TransactionPool, key_lt, first_key, remove, evict_lowest, admit, make_room,
  add,
}

-- The entry of `by_price` that a transaction calls for.
abbrev pub index_of : U256 → ℕ → Option PendingTransaction → Option ℕ
index_of price commitment none = none
index_of price commitment (some tx) = if tx.gas_price == price then some commitment else none

-- The price index holds the pooled transactions and nothing else, all of them are known, and there
-- are no more than the pool may hold.
pub record IsPool (p : TransactionPool) : Type 0 where
  pub indexed :
      (price : U256) (c : ℕ)
      → Dict.get (price, c) p.by_price ≡ index_of price c (Dict.get c p.transactions)
  pub all_known :
      (c : ℕ) (tx : PendingTransaction)
      → Dict.get c p.transactions ≡ some tx
      → Dict.contains c p.known ≡ true
  pub bounded : length p.transactions ≤ p.max_size

module _ {ℓ κ} {K : Type ℓ} {V : Type κ} ⦃e : Eq K⦄ where
  length-remove : (k : K) (m : List (K × V)) → length (Dict.remove k m) ≤ length m
  unfolding Dict.remove
  length-remove k [] = omega arith
  length-remove k ((j, v) ∷ m) = ground (arith, length-remove k m)

  length-remove_lt :
      (k : K) (v : V) (m : List (K × V))
      → Dict.get k m ≡ some v
      → length (Dict.remove k m) < length m
  unfolding Dict.remove Dict.get
  length-remove_lt k v [] h = absurd (cc h)
  length-remove_lt k v ((j, w) ∷ m) h = elim (Bool-cases (j == k)) [
    | inl eq ↦ rw eq (omega (arith, length-remove k m))
    | inr ne ↦ rw ne (omega (arith, length-remove_lt k v m (rw ne at h)))
  ]

  length-insert : (k : K) (v : V) (m : List (K × V)) → length (Dict.insert k v m) ≤ suc (length m)
  unfolding Dict.insert
  length-insert k v [] = omega arith
  length-insert k v ((j, w) ∷ m) = ground (arith, length-insert k v m)

get-remove-some :
    (d c : ℕ) (m : List (ℕ × PendingTransaction)) (tx : PendingTransaction)
    → Dict.get d (Dict.remove c m) ≡ some tx
    → Dict.get d m ≡ some tx
get-remove-some d c m tx h = elim (Bool-cases (eqb c d)) [
  | inl e ↦ let gone : none ≡ some tx = rw (get-remove d c m, e) at h in absurd (cc gone)
  | inr e ↦ rw (get-remove d c m, e) at h
]

first_key-stored :
    (m : List ((U256 × ℕ) × ℕ)) (k : U256 × ℕ)
    → first_key m ≡ some k
    → (c : ℕ) × (Dict.get k m ≡ some c)
unfolding first_key Dict.get
first_key-stored [] k h = absurd (cc h)
first_key-stored ((j, v) ∷ m) k h = elim (Bool-cases (j == k)) [
  | inl eq ↦ (v, rw eq refl)
  | inr ne ↦ elim (Option-cases (first_key m)) [
    | inl last ↦
        let found : some j ≡ some k = rw last at h in
        let same : j ≡ k = cc found in absurd (ground (arith, rw same at ne, beq_refl k))
    | inr (i, below) ↦ elim (Bool-cases (key_lt i j)) [
      | inl lt ↦
          let found : some i ≡ some k = rw (below, lt) at h in
          let same : i ≡ k = cc found in
          let (c, there) = first_key-stored m k (rw same at below) in (c, rw ne there)
      | inr ge ↦
          let found : some j ≡ some k = rw (below, ge) at h in
          let same : j ≡ k = cc found in absurd (ground (arith, rw same at ne, beq_refl k))
    ]
  ]
]

remove-IsPool : (p : TransactionPool) (c : ℕ) → IsPool p → IsPool (remove p c).0
unfolding remove
remove-IsPool p c i = elim (Option-cases (Dict.get c p.transactions)) [
  | inl absent ↦ rw absent i
  | inr (tx, present) ↦ rw present (record {
    indexed = λ price d.
        rw (get-remove (price, d) (tx.gas_price, c) p.by_price, get-remove d c p.transactions)
          (elim (Bool-cases (eqb c d)) [
            | inl e ↦
                let same : c ≡ d = (eqb_iff c d).0 e in
                let here : Dict.get d p.transactions ≡ some tx = rw (sym same) present in
                let entry : Dict.get (price, d) p.by_price ≡ index_of price d (some tx) =
                  i.indexed price d ∙ ap (index_of price d) here in
                ground (arith, e, entry)
            | inr e ↦ ground (arith, e, i.indexed price d)
          ]);
    all_known = λ d t h. i.all_known d t (get-remove-some d c p.transactions t h);
    bounded = omega (arith, length-remove c p.transactions, i.bounded);
  })
]

evict_lowest-IsPool :
    (p : TransactionPool) (price : U256)
    → IsPool p
    → IsPool (evict_lowest p price).0
      × ((evict_lowest p price).1 ≡ true
          → length (evict_lowest p price).0.transactions < p.max_size)
unfolding evict_lowest remove
evict_lowest-IsPool p price i = elim (Option-cases (first_key p.by_price)) [
  | inl empty ↦ rw empty (i, λ h. absurd (cc h))
  | inr ((low, c), first) ↦ elim (Bool-cases (ltb_u256 low price)) [
    | inr kept ↦ rw (first, kept) (i, λ h. absurd (cc h))
    | inl out ↦
        let (d, entry) = first_key-stored p.by_price (low, c) first in
        elim (Option-cases (Dict.get c p.transactions)) [
          | inl missing ↦
              let none_there : some d ≡ none =
                sym entry ∙ i.indexed low c ∙ ap (index_of low c) missing in
              absurd (cc none_there)
          | inr (tx, present) ↦
              let shorter = length-remove_lt c tx p.transactions present in
              let bounded = i.bounded in
              rw (first, out) (remove-IsPool p c i, λ h. rw present (omega arith))
        ]
  ]
]

admit-IsPool :
    (p : TransactionPool) (tx : EncryptedTransaction) (price : U256) (now : ℕ)
    → IsPool p
    → length p.transactions < p.max_size
    → Dict.get tx.commitment p.transactions ≡ none
    → IsPool (admit p tx price now)
unfolding admit
admit-IsPool p tx price now i room fresh =
    let c = tx.commitment in
    let new_tx : PendingTransaction = record {
      transaction = tx;
      gas_price = price;
      received_at = now;
      broadcast_count = 0;
    } in
    record {
      indexed = λ q d.
          rw (get-insert (q, d) (price, c) c p.by_price, get-insert d c new_tx p.transactions)
            (elim (Bool-cases (eqb c d)) [
              | inl e ↦
                  let same : c ≡ d = (eqb_iff c d).0 e in
                  let gone : Dict.get d p.transactions ≡ none = rw (sym same) fresh in
                  let none_there : Dict.get (q, d) p.by_price ≡ none =
                    i.indexed q d ∙ ap (index_of q d) gone in
                  ground (arith, e, same, none_there)
              | inr e ↦ ground (arith, e, i.indexed q d)
            ]);
      all_known = λ d t h. elim (Bool-cases (eqb c d)) [
        | inl e ↦ ground (arith, e, contains-add c d p.known)
        | inr e ↦
            let old : Dict.get d p.transactions ≡ some t =
              rw (get-insert d c new_tx p.transactions, e) at h in
            ground (arith, e, contains-add c d p.known, i.all_known d t old)
      ];
      bounded = omega (arith, length-insert c new_tx p.transactions);
    }

unknown_absent :
    (p : TransactionPool) (c : ℕ)
    → IsPool p
    → Dict.contains c p.known ≡ false
    → Dict.get c p.transactions ≡ none
unknown_absent p c i new = elim (Option-cases (Dict.get c p.transactions)) [
  | inl absent ↦ absent
  | inr (tx, present) ↦ let old = i.all_known c tx present in absurd (cc (old, new))
]

pub remove-same :
    (p : TransactionPool) (c : ℕ)
    → ((remove p c).0.known ≡ p.known) × ((remove p c).0.max_size ≡ p.max_size)
unfolding remove
remove-same p c = elim (Option-cases (Dict.get c p.transactions)) [
  | inl absent ↦ rw absent (refl, refl)
  | inr (tx, present) ↦ rw present (refl, refl)
]

pub evict_lowest-same :
    (p : TransactionPool) (price : U256)
    → ((evict_lowest p price).0.known ≡ p.known) × ((evict_lowest p price).0.max_size ≡ p.max_size)
unfolding evict_lowest
evict_lowest-same p price = elim (Option-cases (first_key p.by_price)) [
  | inl empty ↦ rw empty (refl, refl)
  | inr ((low, c), first) ↦ elim (Bool-cases (ltb_u256 low price)) [
    | inl out ↦ rw (first, out) (remove-same p c)
    | inr kept ↦ rw (first, kept) (refl, refl)
  ]
]

-- `add` keeps the pool well formed on every branch, also where it evicts: the price index holds the
-- pooled transactions and nothing else, all of them are known, and the pool stays within its size.
pub add-IsPool :
    (p : TransactionPool) (tx : EncryptedTransaction) (price : U256) (now : ℕ)
    → IsPool p
    → IsPool (add p tx price now).0
unfolding add make_room
add-IsPool p tx price now i = elim (Bool-cases (Dict.contains tx.commitment p.known)) [
  | inl old ↦ rw old i
  | inr new_tx ↦ elim (Bool-cases (leb p.max_size (length p.transactions))) [
    | inr space ↦
        rw (new_tx, space)
          (admit-IsPool p tx price now i (ground (arith, space))
            (unknown_absent p tx.commitment i new_tx))
    | inl full ↦
        let evicted = evict_lowest-IsPool p price i in
        let same = evict_lowest-same p price in
        elim (Bool-cases (evict_lowest p price).1) [
          | inr stuck ↦ rw (new_tx, full, stuck) i
          | inl out ↦
              let q = (evict_lowest p price).0 in
              let unknown : Dict.contains tx.commitment q.known ≡ false = rw same.0 new_tx in
              rw (new_tx, full, out)
                (admit-IsPool q tx price now evicted.0 (omega (arith, evicted.1 out, same.1))
                  (unknown_absent q tx.commitment evicted.0 unknown))
        ]
  ]
]
