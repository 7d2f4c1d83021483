-- ===== src/Node/Mempool.antt =====
-- node/mempool.rs. Each method is one step; the time is an argument, in seconds. The map `by_price`
-- is ordered by its keys where the code reads it in order: its first key is the least one in the
-- derived order of a pair, price first.
pub mod Pool
pub mod Once
use ryther_core.Base.{
  ℕ, suc, ◌+◌, ◌-◌, Bool, true, false, ◌&&◌, ◌||◌, Option, none, some, List, [], ◌∷◌, ◌==◌,
  if◌then◌else◌, leb, ltb, eqb, length, take, nat_eq, pair_eq,
}
use ryther_core.Dict
use ryther_core.Types.Uint.{U256, u256_eq, ltb_u256}
use ryther_core.Types.Transaction.{EncryptedTransaction}

pub record PendingTransaction : Type 0 where
  pub transaction : EncryptedTransaction
  pub gas_price : U256
  pub received_at : ℕ
  pub broadcast_count : ℕ

pub record TransactionPool : Type 0 where
  pub transactions : List (ℕ × PendingTransaction)
  pub by_price : List ((U256 × ℕ) × ℕ)
  pub known : List ℕ
  pub max_size : ℕ
  pub max_age_secs : ℕ

pub data PoolError : Type 0 where
  already_known pool_full gas_price_too_low : PoolError
  invalid : List ℕ → PoolError

pub data Admission : Type 0 where
  admitted : Admission
  refused : PoolError → Admission

unfoldable pub new : ℕ → TransactionPool
new max_size = record {
  transactions = [];
  by_price = [];
  known = [];
  max_size = max_size;
  max_age_secs = 3600;
}

-- The order of the keys of `by_price`.
unfoldable pub key_lt : U256 × ℕ → U256 × ℕ → Bool
key_lt (p, c) (q, d) = ltb_u256 p q || ((p == q) && ltb c d)

abbrev pub least : U256 × ℕ → Option (U256 × ℕ) → Option (U256 × ℕ)
least k none = some k
least k (some j) = if key_lt j k then some j else some k

-- `keys().next()`
unfoldable pub first_key : List ((U256 × ℕ) × ℕ) → Option (U256 × ℕ)
first_key [] = none
first_key ((k, _) ∷ m) = least k (first_key m)

unfoldable pub remove_found :
    TransactionPool → ℕ → Option PendingTransaction → TransactionPool × Option PendingTransaction
remove_found p commitment none = (p, none)
remove_found p commitment (some pending) = (
  record p {
    transactions = Dict.remove commitment p.transactions;
    by_price = Dict.remove (pending.gas_price, commitment) p.by_price;
  },
  some pending,
)

unfoldable pub remove : TransactionPool → ℕ → TransactionPool × Option PendingTransaction
unfolding remove_found
remove p commitment = remove_found p commitment (Dict.get commitment p.transactions)

unfoldable pub evict_key : TransactionPool → U256 → Option (U256 × ℕ) → TransactionPool × Bool
unfolding remove
evict_key p new_price none = (p, false)
evict_key p new_price (some (price, commitment)) =
    if ltb_u256 price new_price then ((remove p commitment).0, true) else (p, false)

unfoldable pub evict_lowest : TransactionPool → U256 → TransactionPool × Bool
unfolding evict_key first_key
evict_lowest p new_price = evict_key p new_price (first_key p.by_price)

-- The end of `add`: the new entry in the three indices.
unfoldable pub admit : TransactionPool → EncryptedTransaction → U256 → ℕ → TransactionPool
admit p tx gas_price now = record p {
  transactions =
      Dict.insert tx.commitment
        (record { transaction = tx; gas_price = gas_price; received_at = now; broadcast_count = 0 })
        p.transactions;
  by_price = Dict.insert (gas_price, tx.commitment) tx.commitment p.by_price;
  known = Dict.add tx.commitment p.known;
}

-- Room is made, if there is none, by evicting the lowest entry.
unfoldable pub make_room : TransactionPool → U256 → TransactionPool × Bool
unfolding evict_lowest
make_room p gas_price =
    if leb p.max_size (length p.transactions) then evict_lowest p gas_price else (p, true)

unfoldable pub add : TransactionPool → EncryptedTransaction → U256 → ℕ → TransactionPool × Admission
unfolding make_room admit
add p tx gas_price now =
    if Dict.contains tx.commitment p.known
    then (p, refused already_known)
    else if (make_room p gas_price).1
    then (admit (make_room p gas_price).0 tx gas_price now, admitted)
    else (p, refused pool_full)

unfoldable pub get : TransactionPool → ℕ → Option PendingTransaction
get p commitment = Dict.get commitment p.transactions

unfoldable pub contains : TransactionPool → ℕ → Bool
contains p commitment = Dict.contains commitment p.known

-- The entries of `by_price`, highest key first.
unfoldable pub insert_descending : (U256 × ℕ) × ℕ → List ((U256 × ℕ) × ℕ) → List ((U256 × ℕ) × ℕ)
insert_descending e [] = e ∷ []
insert_descending e (f ∷ fs) = if key_lt e.0 f.0 then f ∷ insert_descending e fs else e ∷ f ∷ fs

unfoldable pub descending : List ((U256 × ℕ) × ℕ) → List ((U256 × ℕ) × ℕ)
unfolding insert_descending
descending [] = []
descending (e ∷ es) = insert_descending e (descending es)

abbrev pub cons_some : Option PendingTransaction → List PendingTransaction → List PendingTransaction
cons_some none txs = txs
cons_some (some tx) txs = tx ∷ txs

abbrev pub held : List (ℕ × PendingTransaction) → List ℕ → List PendingTransaction
held transactions [] = []
held transactions (c ∷ cs) = cons_some (Dict.get c transactions) (held transactions cs)

unfoldable pub best : TransactionPool → ℕ → List PendingTransaction
unfolding descending
best p limit = held p.transactions (take limit (Dict.values (descending p.by_price)))

unfoldable pub all : TransactionPool → List PendingTransaction
all p = Dict.values p.transactions

unfoldable pub len : TransactionPool → ℕ
len p = length p.transactions

unfoldable pub is_empty : TransactionPool → Bool
is_empty p = eqb (length p.transactions) 0

unfoldable pub expired : ℕ → ℕ → List (ℕ × PendingTransaction) → List ℕ
expired now max_age [] = []
expired now max_age ((k, tx) ∷ m) =
    let rest = expired now max_age m in
    if ltb max_age (now - tx.received_at) then k ∷ rest else rest

unfoldable pub remove_all : TransactionPool → List ℕ → TransactionPool
unfolding remove
remove_all p [] = p
remove_all p (c ∷ cs) = remove_all (remove p c).0 cs

unfoldable pub prune_expired : TransactionPool → ℕ → TransactionPool × ℕ
unfolding expired remove_all
prune_expired p now =
    let gone = expired now p.max_age_secs p.transactions in (remove_all p gone, length gone)

abbrev pub counted : Option PendingTransaction → ℕ → ℕ
counted none n = n
counted (some tx) n = suc n

unfoldable pub mark_included : TransactionPool → List ℕ → TransactionPool × ℕ
unfolding remove
mark_included p [] = (p, 0)
mark_included p (c ∷ cs) =
    let rest = mark_included (remove p c).0 cs in (rest.0, counted (remove p c).1 rest.1)

unfoldable pub clear_known : TransactionPool → TransactionPool
clear_known p = record p { known = [] }
