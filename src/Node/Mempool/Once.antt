-- ===== src/Node/Mempool/Once.antt =====
-- No transaction enters the pool of node/mempool.rs twice.
use ryther_core.Base.{
  ℕ, ◌≡◌, refl, inl, inr, true, List, [], ◌∷◌, leb, length, nat_eq, arith, Bool-cases, eqb_iff,
}
use ryther_core.Dict
use ryther_core.Dict.Laws.{contains-add}
use ryther_core.Types.Uint.{U256}
use ryther_core.Types.Transaction.{EncryptedTransaction}
use ryther_core.Node.Mempool.{
  TransactionPool, admitted, refused, already_known, remove, admit, make_room, add, remove_all,
  prune_expired, expired, mark_included,
}
use ryther_core.Node.Mempool.Pool.{remove-same, evict_lowest-same}

-- What happens to a pool, short of clearing its memory.
pub data Event : Type 0 where
  adds : EncryptedTransaction → U256 → ℕ → Event
  removes : ℕ → Event
  includes : List ℕ → Event
  prunes : ℕ → Event

happen : TransactionPool → Event → TransactionPool
happen p (adds tx price now) = (add p tx price now).0
happen p (removes c) = (remove p c).0
happen p (includes cs) = (mark_included p cs).0
happen p (prunes now) = (prune_expired p now).0

pub run : TransactionPool → List Event → TransactionPool
run p [] = p
run p (e ∷ es) = run (happen p e) es

abbrev IsKnown : ℕ → TransactionPool → Type 0
IsKnown c p = Dict.contains c p.known ≡ true

remove-IsKnown : (c d : ℕ) (p : TransactionPool) → IsKnown c p → IsKnown c (remove p d).0
remove-IsKnown c d p k = rw (remove-same p d).0 k

remove_all-IsKnown :
    (c : ℕ) (p : TransactionPool) (ds : List ℕ) → IsKnown c p → IsKnown c (remove_all p ds)
unfolding remove_all
remove_all-IsKnown c p [] k = k
remove_all-IsKnown c p (d ∷ ds) k = remove_all-IsKnown c (remove p d).0 ds (remove-IsKnown c d p k)

mark_included-IsKnown :
    (c : ℕ) (p : TransactionPool) (ds : List ℕ) → IsKnown c p → IsKnown c (mark_included p ds).0
unfolding mark_included
mark_included-IsKnown c p [] k = k
mark_included-IsKnown c p (d ∷ ds) k =
    mark_included-IsKnown c (remove p d).0 ds (remove-IsKnown c d p k)

make_room-same : (p : TransactionPool) (price : U256) → (make_room p price).0.known ≡ p.known
unfolding make_room
make_room-same p price = elim (Bool-cases (leb p.max_size (length p.transactions))) [
  | inl full ↦ rw full (evict_lowest-same p price).0
  | inr space ↦ rw space refl
]

add-IsKnown :
    (c : ℕ) (p : TransactionPool) (tx : EncryptedTransaction) (price : U256) (now : ℕ)
    → IsKnown c p
    → IsKnown c (add p tx price now).0
unfolding add admit
add-IsKnown c p tx price now k = elim (Bool-cases (Dict.contains tx.commitment p.known)) [
  | inl old ↦ rw old k
  | inr new_tx ↦ elim (Bool-cases (make_room p price).1) [
    | inl room ↦
        let same : IsKnown c (make_room p price).0 = rw (make_room-same p price) k in
        rw (new_tx, room)
          (ground (arith, same, contains-add tx.commitment c (make_room p price).0.known))
    | inr full ↦ rw (new_tx, full) k
  ]
]

run-IsKnown : (c : ℕ) (p : TransactionPool) (es : List Event) → IsKnown c p → IsKnown c (run p es)
unfolding run happen prune_expired
run-IsKnown c p [] k = k
run-IsKnown c p (adds tx price now ∷ es) k =
    run-IsKnown c (add p tx price now).0 es (add-IsKnown c p tx price now k)
run-IsKnown c p (removes d ∷ es) k = run-IsKnown c (remove p d).0 es (remove-IsKnown c d p k)
run-IsKnown c p (includes ds ∷ es) k =
    run-IsKnown c (mark_included p ds).0 es (mark_included-IsKnown c p ds k)
run-IsKnown c p (prunes now ∷ es) k =
    run-IsKnown c (prune_expired p now).0 es
      (remove_all-IsKnown c p (expired now p.max_age_secs p.transactions) k)

add-admitted :
    (p : TransactionPool) (tx : EncryptedTransaction) (price : U256) (now : ℕ)
    → (add p tx price now).1 ≡ admitted
    → IsKnown tx.commitment (add p tx price now).0
unfolding add admit
add-admitted p tx price now h = elim (Bool-cases (Dict.contains tx.commitment p.known)) [
  | inl old ↦ rw old old
  | inr new_tx ↦ elim (Bool-cases (make_room p price).1) [
    | inl room ↦
        rw (new_tx, room)
          (ground (
            arith,
            eqb_iff tx.commitment tx.commitment,
            contains-add tx.commitment tx.commitment (make_room p price).0.known,
          ))
    | inr full ↦ let refusal = rw (new_tx, full) at h in absurd (cc refusal)
  ]
]

-- Once a transaction was admitted, any transaction of the same commitment is refused as already
-- known, and leaves the pool as it is, whatever was added, removed, included or pruned in between.
pub admitted_once :
    (p : TransactionPool) (tx again : EncryptedTransaction) (price price' : U256) (now now' : ℕ)
    (events : List Event)
    → (add p tx price now).1 ≡ admitted
    → again.commitment ≡ tx.commitment
    → let q = run (add p tx price now).0 events in
      add q again price' now' ≡ (q, refused already_known)
unfolding add
admitted_once p tx again price price' now now' events h same =
    let known =
      run-IsKnown tx.commitment (add p tx price now).0 events (add-admitted p tx price now h) in
    let q = run (add p tx price now).0 events in
    let there : Dict.contains again.commitment q.known ≡ true = rw same known in rw there refl
