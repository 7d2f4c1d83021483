-- ===== src/Storage/Cache/Recency.antt =====
-- storage/cache.rs: the cache as a list of keys and values, the most recently used first.
use ryther_core.Base.{
  ℕ, ◌≡◌, ◌≤◌, ◌<◌, refl, ap, false, Option, none, some, List, [], ◌∷◌, ◌++◌, Eq, nat_eq, ◌==◌,
  if◌then◌else◌, leb, length, get_elem?, arith, Bool-cases, inl, inr, All, u64_mod,
}
use ryther_core.Dict
use ryther_core.Storage.Cache.{LruCache}
use ryther_core.Storage.Cache.Links.{Item}
use ryther_core.Storage.Cache.Unlink.{IsList}

-- The specification: what a list of the keys and values in the order of use becomes.
module _ {ℓ κ} {K : Type ℓ} {V : Type κ} where
  abbrev pub drop_last : List (K × V) → List (K × V)
  drop_last [] = []
  drop_last (x ∷ []) = []
  drop_last (x ∷ (y ∷ ys)) = x ∷ drop_last (y ∷ ys)

  abbrev pub last_value : List (K × V) → Option V
  last_value [] = none
  last_value (x ∷ []) = some x.1
  last_value (x ∷ (y ∷ ys)) = last_value (y ∷ ys)

  abbrev pub view : List (Item K V) → List (K × V)
  view [] = []
  view (x ∷ xs) = (x.0, x.2) ∷ view xs

module _ {ℓ κ} {K : Type ℓ} {V : Type κ} ⦃e : Eq K⦄ where
  -- The found key comes to the front.
  abbrev pub touch : K → Option V → List (K × V) → List (K × V)
  touch key none l = l
  touch key (some value) l = (key, value) ∷ Dict.remove key l

  -- A key that is there gets the value and comes to the front; a new one comes to the front after
  -- the last one has left, if there is no room.
  abbrev pub put_front : ℕ → K → V → Option V → List (K × V) → List (K × V)
  put_front capacity key value (some old) l = (key, value) ∷ Dict.remove key l
  put_front capacity key value none l =
      (key, value) ∷ (if leb capacity (length l) then drop_last l else l)

  abbrev pub put_result : ℕ → Option V → List (K × V) → Option V
  put_result capacity (some old) l = some old
  put_result capacity none l = if leb capacity (length l) then last_value l else none

  abbrev pub index_of : K → List (Item K V) → Option ℕ
  index_of key [] = none
  index_of key (x ∷ xs) = if x.0 == key then some x.1 else index_of key xs

  -- The cache holds these items.
  pub record IsLru (c : LruCache K V) (items : List (Item K V)) : Type (ℓ ⊔ κ) where
    pub list : IsList c items
    pub map_lem : (key : K) → Dict.get key c.indices ≡ index_of key items
    pub map_once : Dict.Distinct c.indices
    pub keys_once : Dict.Distinct (view items)
    pub free_lem : All (λ i. get_elem? c.entries i ≡ some none) c.free_list
    pub free_once : Dict.Unique c.free_list
    pub size_lem : c.size ≡ length items
    pub fits : length items ≤ c.capacity
    pub room : 0 < c.capacity
    pub small : c.capacity < u64_mod

  pub get-view :
      (key : K) (items : List (Item K V))
      → index_of key items ≡ none
      → Dict.get key (view items) ≡ none
  unfolding Dict.get
  get-view key [] h = refl
  get-view key (x ∷ xs) h = ground (arith, get-view key xs)

  pub index_of-view :
      (key : K) (items : List (Item K V))
      → Dict.get key (view items) ≡ none
      → index_of key items ≡ none
  unfolding Dict.get
  index_of-view key [] h = refl
  index_of-view key (x ∷ xs) h = ground (arith, index_of-view key xs)

  -- Where the key stands in the list.
  pub record IsAt (key : K) (i : ℕ) (items : List (Item K V)) : Type (ℓ ⊔ κ) where
    pub front : List (Item K V)
    pub here : Item K V
    pub back : List (Item K V)
    pub whole : items ≡ front ++ (here ∷ back)
    pub key_lem : here.0 ≡ key
    pub index_lem : here.1 ≡ i

  pub IsAt-index :
      (key : K) (i : ℕ) (items : List (Item K V)) → index_of key items ≡ some i → IsAt key i items
  IsAt-index key i [] h = absurd (cc)
  IsAt-index key i (x ∷ xs) h = elim (Bool-cases (x.0 == key)) [
    | inl same ↦
        let found : some x.1 ≡ some i = rw (same) at h in
        record {
          front = [];
          here = x;
          back = xs;
          whole = refl;
          key_lem = (e.beq_iff x.0 key).0 same;
          index_lem = cc;
        }
    | inr other ↦
        let rest = IsAt-index key i xs (rw (other) at h) in
        record {
          front = x ∷ rest.front;
          here = rest.here;
          back = rest.back;
          whole = ap (◌∷◌ x) rest.whole;
          key_lem = rest.key_lem;
          index_lem = rest.index_lem;
        }
  ]

  -- The key of an item stands neither before nor behind it.
  pub Distinct-at :
      (xs ys : List (Item K V)) (x : Item K V)
      → Dict.Distinct (view (xs ++ (x ∷ ys)))
      → (index_of x.0 xs ≡ none)
        × (Dict.get x.0 (view ys) ≡ none)
        × Dict.Distinct (view (xs ++ ys))
        × (Dict.get x.0 (view (xs ++ ys)) ≡ none)
  unfolding Dict.get
  Distinct-at [] ys x h = (refl, h.0, h.1, h.0)
  Distinct-at (y ∷ xs) ys x h =
      let rest = Distinct-at xs ys x h.1 in
      ground (arith, get_middle y.0 xs ys x, e.beq_iff x.0 y.0, e.beq_iff y.0 x.0, rest)
    where
      get_middle :
          (k : K) (ps bs : List (Item K V)) (a : Item K V)
          → Dict.get k (view (ps ++ (a ∷ bs))) ≡ none
          → ((a.0 == k) ≡ false) × (Dict.get k (view (ps ++ bs)) ≡ none)
      get_middle k [] bs a g = ground arith
      get_middle k (z ∷ ps) bs a g = ground (arith, get_middle k ps bs a)
