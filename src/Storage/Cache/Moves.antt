-- ===== src/Storage/Cache/Moves.antt =====
-- storage/cache.rs: an item that comes to the front, in `get` and where `put` finds its key.
use ryther_core.Base.{
  ℕ, suc, ◌≡◌, refl, ◌∙◌, sym, ap, subst, Option, none, some, List, [], ◌∷◌, ◌++◌, Eq, nat_eq, ◌==◌,
  if◌then◌else◌, length, length-append, get_elem?, arith, Option-cases, inl, inr, All-map_imp,
  beq_refl, add64,
}
use ryther_core.Dict
use ryther_core.Dict.Laws.{remove_absent}
use ryther_core.Storage.Cache.{LruCache, CacheEntry, get}
use ryther_core.Storage.Cache.Links.{Item, last_or, Linked}
use ryther_core.Storage.Cache.Unlink.{IsList, IndicesApart-append}
use ryther_core.Storage.Cache.Front.{move_to_front_lem}
use ryther_core.Storage.Cache.Recency.{
  view, touch, index_of, IsLru, IsAt, IsAt-index, Distinct-at, get-view,
}

module _ {ℓ κ} {K : Type ℓ} {V : Type κ} ⦃e : Eq K⦄ where
  pub index_of-moved :
      (k : K) (xs ys : List (Item K V)) (x : Item K V)
      → index_of x.0 xs ≡ none
      → index_of k (xs ++ (x ∷ ys)) ≡ (if x.0 == k then some x.1 else index_of k (xs ++ ys))
  index_of-moved k [] ys x h = refl
  index_of-moved k (y ∷ xs) ys x h =
      ground (arith, index_of-moved k xs ys x, e.beq_iff x.0 k, e.beq_iff y.0 k, e.beq_iff y.0 x.0)

  pub get_here :
      (xs ys : List (Item K V)) (x : Item K V)
      → index_of x.0 xs ≡ none
      → Dict.get x.0 (view (xs ++ (x ∷ ys))) ≡ some x.2
  unfolding Dict.get
  get_here [] ys x h = ground (arith, e.beq_iff x.0 x.0)
  get_here (y ∷ xs) ys x h = ground (arith, get_here xs ys x)

  pub remove_here :
      (xs ys : List (Item K V)) (x : Item K V)
      → index_of x.0 xs ≡ none
      → Dict.get x.0 (view ys) ≡ none
      → Dict.remove x.0 (view (xs ++ (x ∷ ys))) ≡ view (xs ++ ys)
  unfolding Dict.remove
  remove_here [] ys x h k = ground (arith, e.beq_iff x.0 x.0, remove_absent x.0 x.2 (view ys) k)
  remove_here (y ∷ xs) ys x h k = ground (arith, remove_here xs ys x)

  -- The item at some place comes to the front, with a new value.
  pub refront :
      (c : LruCache K V) (xs ys : List (Item K V)) (x : Item K V) (v : V) (hits : ℕ)
      (after : List (Option (CacheEntry V)))
      → IsLru c (xs ++ (x ∷ ys))
      → Linked after none ((x.0, x.1, v) ∷ (xs ++ ys)) none
      → ((j : ℕ) → get_elem? c.entries j ≡ some none → get_elem? after j ≡ some none)
      → IsLru
          (record c {
            entries = after;
            head = some x.1;
            tail = last_or none (x ∷ (xs ++ ys));
            hits = hits;
          })
          ((x.0, x.1, v) ∷ (xs ++ ys))
  refront c xs ys x v hits after h linked free =
      let distinct = IndicesApart-append xs ys x h.list.apart in
      let keys = Distinct-at xs ys x h.keys_once in
      let longer : length (xs ++ (x ∷ ys)) ≡ suc (length (xs ++ ys)) =
        omega (arith, length-append xs (x ∷ ys), length-append xs ys) in
      record {
        list = record {
          linked = linked;
          head_lem = refl;
          tail_lem = refl;
          apart = (distinct.5, distinct.2);
        };
        map_lem = λ k. h.map_lem k ∙ index_of-moved k xs ys x keys.0;
        map_once = h.map_once;
        keys_once = (keys.3, keys.2);
        free_lem = All-map_imp free c.free_list h.free_lem;
        free_once = h.free_once;
        size_lem = h.size_lem ∙ longer;
        fits = rw⁻¹ (longer) h.fits;
        room = h.room;
        small = h.small;
      }

  -- What an operation that refines one on lists returns.
  pub record Refined (capacity : ℕ) (r : Option (LruCache K V × Option V)) (l : List (K × V))
      (out : Option V) : Type (ℓ ⊔ κ) where
    pub after : LruCache K V
    pub items : List (Item K V)
    pub ran : r ≡ some (after, out)
    pub lru : IsLru after items
    pub same : view items ≡ l
    pub capacity_lem : after.capacity ≡ capacity

  IsLru-counts :
      (c : LruCache K V) (items : List (Item K V)) (hits misses : ℕ)
      → IsLru c items
      → IsLru (record c { hits = hits; misses = misses }) items
  IsLru-counts c items hits misses h = record {
    list = record {
      linked = h.list.linked;
      head_lem = h.list.head_lem;
      tail_lem = h.list.tail_lem;
      apart = h.list.apart;
    };
    map_lem = h.map_lem;
    map_once = h.map_once;
    keys_once = h.keys_once;
    free_lem = h.free_lem;
    free_once = h.free_once;
    size_lem = h.size_lem;
    fits = h.fits;
    room = h.room;
    small = h.small;
  }

  get_missing :
      (key : K) (c : LruCache K V)
      → Dict.get key c.indices ≡ none
      → get key c ≡ some (record c { misses = add64 c.misses 1 }, none)
  unfolding get
  get_missing key c h = rw (h, get) refl

  get_hit :
      (c : LruCache K V) (xs ys : List (Item K V)) (x : Item K V)
      → IsLru c (xs ++ (x ∷ ys))
      → Refined c.capacity
          (get x.0 c)
          ((x.0, x.2) ∷ Dict.remove x.0 (view (xs ++ (x ∷ ys))))
          (some x.2)
  unfolding get
  get_hit c xs ys x h =
      let keys = Distinct-at xs ys x h.keys_once in
      let found : Dict.get x.0 c.indices ≡ some x.1 =
        h.map_lem x.0 ∙ (index_of-moved x.0 xs ys x keys.0 ∙ (rw (beq_refl x.0) refl)) in
      let c1 : LruCache K V = record c { hits = add64 c.hits 1 } in
      let list : IsList c1 (xs ++ (x ∷ ys)) = record {
        linked = h.list.linked;
        head_lem = h.list.head_lem;
        tail_lem = h.list.tail_lem;
        apart = h.list.apart;
      } in
      let f = move_to_front_lem c1 xs ys x list in
      record {
        after = record c1 {
          entries = f.after;
          head = some x.1;
          tail = last_or none (x ∷ (xs ++ ys));
        };
        items = x ∷ (xs ++ ys);
        ran = rw (found, get) (rw (f.fronted, f.linked.0) refl);
        lru = refront c xs ys x x.2 (add64 c.hits 1) f.after h f.linked f.free;
        same = ap (◌∷◌ (x.0, x.2)) (sym (remove_here xs ys x keys.0 keys.1));
        capacity_lem = refl;
      }

  pub get_lem :
      (key : K) (c : LruCache K V) (items : List (Item K V))
      → IsLru c items
      → Refined c.capacity
          (get key c)
          (touch key (Dict.get key (view items)) (view items))
          (Dict.get key (view items))
  get_lem key c items h = elim (Option-cases (index_of key items)) [
    | inl nowhere ↦ rw (get-view key items nowhere) (record {
      after = record c { misses = add64 c.misses 1 };
      items = items;
      ran = get_missing key c (h.map_lem key ∙ nowhere);
      lru = IsLru-counts c items c.hits (add64 c.misses 1) h;
      same = refl;
      capacity_lem = refl;
    })
    | inr (i, somewhere) ↦ found (IsAt-index key i items somewhere)
  ]
    where
      found :
          {i : ℕ}
          → IsAt key i items
          → Refined c.capacity
              (get key c)
              (touch key (Dict.get key (view items)) (view items))
              (Dict.get key (view items))
      found a =
          (rw
            (
              a.whole,
              sym a.key_lem,
              get_here a.front a.back a.here
                  (Distinct-at a.front a.back a.here (
                    subst (λ (l : List (Item K V)). Dict.Distinct (view l)) a.whole h.keys_once)).0,
            )
            (get_hit c a.front a.back a.here (subst (IsLru c) a.whole h)))
