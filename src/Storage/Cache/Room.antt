-- ===== src/Storage/Cache/Room.antt =====
-- storage/cache.rs: an item that leaves, in `remove` and `evict_lru`.
use ryther_core.Base.{
  ℕ, suc, ◌≡◌, refl, ◌∙◌, sym, ap, subst, Bool, true, false, Option, none, some, List, [], ◌∷◌,
  ◌++◌, Eq, nat_eq, ◌==◌, if◌then◌else◌, length, length-append, get_elem?, arith, eqb_iff,
  Bool-cases, Option-cases, inl, inr, All, All-map_imp, beq_refl, beq_sym, sub64,
}
use ryther_core.Dict
use ryther_core.Dict.Laws.{get-remove, remove-Distinct, remove_absent}
use ryther_core.Storage.Cache.{LruCache, CacheEntry, remove, release, set_elem}
use ryther_core.Storage.Cache.Links.{
  Item, first_or, last_or, Linked, Linked-split, Linked-frame, get_elem?-set_elem,
}
use ryther_core.Storage.Cache.Unlink.{IsList, IndicesApart-append, remove_from_list_lem}
use ryther_core.Storage.Cache.Recency.{
  view, index_of, IsLru, IsAt, IsAt-index, Distinct-at, get-view, index_of-view,
}
use ryther_core.Storage.Cache.Moves.{index_of-moved, get_here, remove_here, Refined}

module _ {κ} {V : Type κ} where
  not_free :
      (es : List (Option (CacheEntry V))) (i : ℕ) (entry : CacheEntry V) (free : List ℕ)
      → All (λ j. get_elem? es j ≡ some none) free
      → get_elem? es i ≡ some (some entry)
      → Dict.contains i free ≡ false
  unfolding Dict.contains
  not_free es i entry [] h e = refl
  not_free es i entry (j ∷ free) h e = elim (Bool-cases (j == i)) [
    | inl same ↦
        let clash : some none ≡ some (some entry) =
          sym h.0 ∙ (ap (get_elem? es) ((eqb_iff j i).0 same) ∙ e) in
        absurd (cc)
    | inr other ↦ rw (other) (not_free es i entry free h.1 e)
  ]

module _ {ℓ κ} {K : Type ℓ} {V : Type κ} ⦃e : Eq K⦄ where
  -- The item at some place leaves, and the map forgets it.
  pub released :
      (c : LruCache K V) (xs ys : List (Item K V)) (x : Item K V) (indices : List (K × ℕ))
      (after : List (Option (CacheEntry V)))
      → IsLru c (xs ++ (x ∷ ys))
      → Linked after none (xs ++ ys) none
      → get_elem? after x.1 ≡ get_elem? c.entries x.1
      → ((j : ℕ) → get_elem? c.entries j ≡ some none → get_elem? after j ≡ some none)
      → ((k : K) → Dict.get k indices ≡ index_of k (xs ++ ys))
      → Dict.Distinct indices
      → IsLru
          (record c {
            indices = indices;
            entries = set_elem x.1 none after;
            free_list = x.1 ∷ c.free_list;
            head = first_or none (xs ++ ys);
            tail = last_or none (xs ++ ys);
            size = sub64 c.size 1;
          })
          (xs ++ ys)
  released c xs ys x indices after h linked kept free forgets once =
      let distinct = IndicesApart-append xs ys x h.list.apart in
      let keys = Distinct-at xs ys x h.keys_once in
      let here = (Linked-split c.entries none none xs (x ∷ ys) h.list.linked).1.0 in
      let there = kept ∙ here in
      let longer : length (xs ++ (x ∷ ys)) ≡ suc (length (xs ++ ys)) =
        omega (arith, length-append xs (x ∷ ys), length-append xs ys) in
      record {
        list = record {
          linked =
              Linked-frame after (set_elem x.1 none after) none none (xs ++ ys)
                (All-map_imp
                  (λ (y : Item K V) unused.
                    get_elem?-set_elem x.1 y.1 none _ after there
                    ∙ (rw (beq_sym x.1 y.1, unused) refl))
                  (xs ++ ys) distinct.5)
                linked;
          head_lem = refl;
          tail_lem = refl;
          apart = distinct.2;
        };
        map_lem = forgets;
        map_once = once;
        keys_once = keys.2;
        free_lem = (
          get_elem?-set_elem x.1 x.1 none _ after there ∙ (rw (beq_refl x.1) refl),
          All-map_imp
              (λ (j : ℕ) k.
                get_elem?-set_elem x.1 j none _ after there ∙ still_free (x.1 == j) (free j k))
              c.free_list h.free_lem,
        );
        free_once = (not_free c.entries x.1 _ c.free_list h.free_lem here, h.free_once);
        size_lem = let size = h.size_lem ∙ longer in omega (arith, size, h.fits, h.small, longer);
        fits = omega (arith, longer, h.fits);
        room = h.room;
        small = h.small;
      }
    where
      still_free :
          (b : Bool) {o : Option (Option (CacheEntry V))}
          → o ≡ some none
          → (if b then some none else o) ≡ some none
      still_free true h = refl
      still_free false h = h

  -- The map without the key that leaves.
  forgets :
      (c : LruCache K V) (xs ys : List (Item K V)) (x : Item K V)
      → IsLru c (xs ++ (x ∷ ys))
      → (k : K) → Dict.get k (Dict.remove x.0 c.indices) ≡ index_of k (xs ++ ys)
  forgets c xs ys x h k =
      let keys = Distinct-at xs ys x h.keys_once in
      let was = h.map_lem k ∙ index_of-moved k xs ys x keys.0 in
      elim (Bool-cases (x.0 == k)) [
        | inl same ↦
            let here : x.0 ≡ k = (e.beq_iff x.0 k).0 same in
            rw (get-remove k x.0 c.indices, same, sym here)
              (sym (index_of-view x.0 (xs ++ ys) keys.3))
        | inr other ↦ rw (get-remove k x.0 c.indices, other) (was ∙ (rw (other) refl))
      ]

  remove_hit :
      (c : LruCache K V) (xs ys : List (Item K V)) (x : Item K V)
      → IsLru c (xs ++ (x ∷ ys))
      → Refined c.capacity (remove x.0 c) (Dict.remove x.0 (view (xs ++ (x ∷ ys)))) (some x.2)
  unfolding remove release
  remove_hit c xs ys x h =
      let keys = Distinct-at xs ys x h.keys_once in
      let found : Dict.get x.0 c.indices ≡ some x.1 =
        h.map_lem x.0 ∙ (index_of-moved x.0 xs ys x keys.0 ∙ (rw (beq_refl x.0) refl)) in
      let c1 : LruCache K V = record c { indices = Dict.remove x.0 c.indices } in
      let list : IsList c1 (xs ++ (x ∷ ys)) = record {
        linked = h.list.linked;
        head_lem = h.list.head_lem;
        tail_lem = h.list.tail_lem;
        apart = h.list.apart;
      } in
      let u = remove_from_list_lem c1 xs ys x list in
      let here = (Linked-split c.entries none none xs (x ∷ ys) h.list.linked).1.0 in
      record {
        after = record c {
          indices = Dict.remove x.0 c.indices;
          entries = set_elem x.1 none u.after;
          free_list = x.1 ∷ c.free_list;
          head = first_or none (xs ++ ys);
          tail = last_or none (xs ++ ys);
          size = sub64 c.size 1;
        };
        items = xs ++ ys;
        ran = rw (found, remove) (rw (u.unlinked, u.kept, here) refl);
        lru =
            released c xs ys x (Dict.remove x.0 c.indices) u.after h u.linked u.kept u.free
              (forgets c xs ys x h) (remove-Distinct x.0 c.indices h.map_once);
        same = sym (remove_here xs ys x keys.0 keys.1);
        capacity_lem = refl;
      }

  pub remove_lem :
      (key : K) (c : LruCache K V) (items : List (Item K V))
      → IsLru c items
      → Refined c.capacity (remove key c) (Dict.remove key (view items)) (Dict.get key (view items))
  remove_lem key c items h = elim (Option-cases (index_of key items)) [
    | inl nowhere ↦
        let absent = get-view key items nowhere in
        record {
          after = c;
          items = items;
          ran = rw (absent) (remove_missing (h.map_lem key ∙ nowhere));
          lru = h;
          same = sym (nothing_removed (view items) absent);
          capacity_lem = refl;
        }
    | inr (i, somewhere) ↦ found (IsAt-index key i items somewhere)
  ]
    where
      remove_missing : Dict.get key c.indices ≡ none → remove key c ≡ some (c, none)
      remove_missing absent = unfold remove in rw (absent, remove) refl

      nothing_removed : (l : List (K × V)) → Dict.get key l ≡ none → Dict.remove key l ≡ l
      nothing_removed [] absent = unfold Dict.remove in refl
      nothing_removed ((k, v) ∷ l) absent = remove_absent key v ((k, v) ∷ l) absent

      found :
          {i : ℕ}
          → IsAt key i items
          → Refined c.capacity
              (remove key c)
              (Dict.remove key (view items))
              (Dict.get key (view items))
      found a =
          rw
            (
              a.whole,
              sym a.key_lem,
              get_here a.front a.back a.here
                  (Distinct-at a.front a.back a.here (
                    subst (λ (l : List (Item K V)). Dict.Distinct (view l)) a.whole h.keys_once)).0,
            )
            (remove_hit c a.front a.back a.here (subst (IsLru c) a.whole h))
