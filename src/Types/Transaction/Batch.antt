-- ===== src/Types/Transaction/Batch.antt =====
-- The Merkle root of a batch, and the numbers of an ordered batch, in types/transaction.rs.
use mathlib.Core.List.{map-append}
use ryther_core.Base.{
  ℕ, zero, suc, ◌+◌, ◌<◌, ◌≤◌, ◌≡◌, refl, some, List, [], ◌∷◌, ◌++◌, map, length, arith, u64_mod,
  All, add64, length-map, length-append, All-map_imp, ap, ◌∙◌, sym, subst,
}
use ryther_core.Sort.{StrictAscending}
use ryther_core.Types.Transaction.{
  EncryptedTransaction, DecryptedTransaction, next_layer, reduce_layer, root_of_layer,
  compute_merkle_root, commitment_of, or_zero_root, pair_hash, assign, ordered, end_sequence,
}

length-next_layer :
    (sha256 : List ℕ → ℕ) (layer : List ℕ)
    → (length (next_layer sha256 layer) + length (next_layer sha256 layer) ≤ length layer + 1)
      × (length layer ≤ length (next_layer sha256 layer) + length (next_layer sha256 layer))
unfolding next_layer
length-next_layer sha256 [] = (omega arith, omega arith)
length-next_layer sha256 (a ∷ []) = (omega arith, omega arith)
length-next_layer sha256 (a ∷ b ∷ layer) =
    let ih = length-next_layer sha256 layer in (omega (arith, ih.0), omega (arith, ih.1))

-- Every round at least halves the layer, rounded up, and none gets empty.
reduce_layer-eq-some :
    (sha256 : List ℕ → ℕ) (fuel : ℕ) (layer : List ℕ)
    → length layer ≤ fuel
    → 0 < length layer
    → (root : ℕ) × (reduce_layer sha256 fuel layer ≡ some root)
unfolding reduce_layer
reduce_layer-eq-some sha256 zero layer fits some_left = absurd (omega arith)
reduce_layer-eq-some sha256 (suc fuel) [] fits some_left = absurd (omega arith)
reduce_layer-eq-some sha256 (suc fuel) (root ∷ []) fits some_left = (root, refl)
reduce_layer-eq-some sha256 (suc fuel) (a ∷ b ∷ layer) fits some_left =
    let half = length-next_layer sha256 (a ∷ b ∷ layer) in
    reduce_layer-eq-some sha256 fuel (next_layer sha256 (a ∷ b ∷ layer)) (omega (arith, half.0))
      (omega (arith, half.1))

reduce_layer-suc :
    (sha256 : List ℕ → ℕ) (fuel : ℕ) (layer : List ℕ) (root : ℕ)
    → reduce_layer sha256 fuel layer ≡ some root
    → reduce_layer sha256 (suc fuel) layer ≡ some root
unfolding reduce_layer
reduce_layer-suc sha256 zero layer root h = absurd (cc h)
reduce_layer-suc sha256 (suc fuel) [] root h = absurd (cc h)
reduce_layer-suc sha256 (suc fuel) (a ∷ []) root h = h
reduce_layer-suc sha256 (suc fuel) (a ∷ b ∷ layer) root h =
    reduce_layer-suc sha256 fuel (next_layer sha256 (a ∷ b ∷ layer)) root h

root_of_layer-eq-some :
    (sha256 : List ℕ → ℕ) (layer : List ℕ) → (root : ℕ) × (root_of_layer sha256 layer ≡ some root)
unfolding root_of_layer
root_of_layer-eq-some sha256 [] = (0, refl)
root_of_layer-eq-some sha256 (commitment ∷ []) = (commitment, refl)
root_of_layer-eq-some sha256 (a ∷ b ∷ layer) =
    reduce_layer-eq-some sha256 (length (a ∷ b ∷ layer)) (a ∷ b ∷ layer) (omega arith) (omega arith)

-- The loop of `compute_merkle_root` ends for every batch, with as many rounds of fuel as there are
-- commitments, and never indexes an empty layer.
compute_merkle_root_returns :
    (sha256 : List ℕ → ℕ) (txs : List EncryptedTransaction)
    → root_of_layer sha256 (map commitment_of txs) ≡ some (compute_merkle_root sha256 txs)
unfolding compute_merkle_root
compute_merkle_root_returns sha256 txs =
    let (root, found) = root_of_layer-eq-some sha256 (map commitment_of txs) in rw found refl

next_layer_duplicate :
    (sha256 : List ℕ → ℕ) (k : ℕ) (front : List ℕ) (c : ℕ)
    → length front ≡ k + k
    → next_layer sha256 (front ++ c ∷ []) ≡ next_layer sha256 (front ++ c ∷ c ∷ [])
unfolding next_layer
next_layer_duplicate sha256 k [] c even = refl
next_layer_duplicate sha256 k (a ∷ []) c even = absurd (omega arith)
next_layer_duplicate sha256 zero (a ∷ b ∷ front) c even = absurd (omega arith)
next_layer_duplicate sha256 (suc k) (a ∷ b ∷ front) c even =
    ap (λ l. pair_hash sha256 a b ∷ l) (next_layer_duplicate sha256 k front c (omega arith))

root_of_layer_duplicate :
    (sha256 : List ℕ → ℕ) (k : ℕ) (front : List ℕ) (c : ℕ)
    → length front ≡ k + k
    → 0 < k
    → root_of_layer sha256 (front ++ c ∷ []) ≡ root_of_layer sha256 (front ++ c ∷ c ∷ [])
unfolding root_of_layer reduce_layer
root_of_layer_duplicate sha256 k [] c even pos = absurd (omega arith)
root_of_layer_duplicate sha256 k (a ∷ []) c even pos = absurd (omega arith)
root_of_layer_duplicate sha256 k (a ∷ b ∷ front) c even pos =
    let short = a ∷ b ∷ front ++ c ∷ [] in
    let next = next_layer sha256 short in
    let fuel = length (b ∷ front ++ c ∷ []) in
    let half = length-next_layer sha256 short in
    let (root, found) =
      reduce_layer-eq-some sha256 fuel next (omega (arith, half.0)) (omega (arith, half.1)) in
    let long = a ∷ b ∷ front ++ c ∷ c ∷ [] in
    let longer : length (b ∷ front ++ c ∷ c ∷ []) ≡ suc fuel =
      omega (arith, length-append front (c ∷ []), length-append front (c ∷ c ∷ [])) in
    let same : next ≡ next_layer sha256 long =
      next_layer_duplicate sha256 k (a ∷ b ∷ front) c even in
    let grown = reduce_layer-suc sha256 fuel next root found in
    found
    ∙ sym (
        subst (λ n. reduce_layer sha256 n (next_layer sha256 long) ≡ some root) (sym longer)
          (subst (λ l. reduce_layer sha256 (suc fuel) l ≡ some root) same grown))

-- A batch of three or more transactions, odd in number, has the root of the batch in which the last
-- one is there twice: the root does not determine the transactions.
pub compute_merkle_root_duplicate :
    (sha256 : List ℕ → ℕ) (k : ℕ) (front : List EncryptedTransaction) (tx : EncryptedTransaction)
    → length front ≡ k + k
    → 0 < k
    → compute_merkle_root sha256 (front ++ tx ∷ [])
      ≡ compute_merkle_root sha256 (front ++ tx ∷ tx ∷ [])
unfolding compute_merkle_root
compute_merkle_root_duplicate sha256 k front tx even pos =
    rw (map-append commitment_of front (tx ∷ []), map-append commitment_of front (tx ∷ tx ∷ []))
      (ap or_zero_root (
        root_of_layer_duplicate sha256 k (map commitment_of front) (commitment_of tx)
          (length-map commitment_of front ∙ even) pos))

assign-Ascending :
    (start i : ℕ) (txs : List DecryptedTransaction)
    → start + i + length txs < u64_mod
    → StrictAscending (λ tx. tx.sequence_number) (assign start i txs)
      × All
          (λ tx. (start + i ≤ tx.sequence_number) × (tx.sequence_number < start + i + length txs))
          (assign start i txs)
unfolding assign
assign-Ascending start i [] fits = (tt, tt)
assign-Ascending start i (tx ∷ txs) fits =
    let rest = assign-Ascending start (suc i) txs (omega arith) in
    let number : add64 start i ≡ start + i = omega arith in
    (
      (All-map_imp (λ t h. ground (arith, number, h)) (assign start (suc i) txs) rest.1, rest.0),
      (
        (omega arith, omega arith),
        All-map_imp (λ t h. (omega (arith, h.0), omega (arith, h.1))) (assign start (suc i) txs)
            rest.1,
      ),
    )

length-assign :
    (start i : ℕ) (txs : List DecryptedTransaction) → length (assign start i txs) ≡ length txs
unfolding assign
length-assign start i [] = refl
length-assign start i (tx ∷ txs) = ap suc (length-assign start (suc i) txs)

-- An ordered batch whose numbers stay below 2 ^ 64 has strictly ascending sequence numbers, from its
-- first number up to, and not including, the number after the batch, which is the first number plus
-- the number of transactions.
ordered-StrictAscending :
    (txs : List DecryptedTransaction) (start round : ℕ)
    → start + length txs < u64_mod
    → StrictAscending (λ tx. tx.sequence_number) (ordered txs start round).transactions
      × All
          (λ tx.
            (start ≤ tx.sequence_number)
            × (tx.sequence_number < end_sequence (ordered txs start round)))
          (ordered txs start round).transactions
      × (end_sequence (ordered txs start round) ≡ start + length txs)
unfolding ordered end_sequence
ordered-StrictAscending txs start round fits =
    let numbered = assign-Ascending start 0 txs (omega arith) in
    let count = length-assign start 0 txs in
    let end : add64 start (length (assign start 0 txs)) ≡ start + length txs =
      omega (arith, count) in
    (
      numbered.0,
      All-map_imp (λ t h. (omega (arith, h.0), omega (arith, h.1, end))) (assign start 0 txs)
          numbered.1,
      end,
    )
