-- ===== src/Storage/Cache/Insert.antt =====
-- storage/cache.rs: `put`, of a key that is there and of a new one.
use ryther_core.Base.{
  ℕ, ◌≡◌, refl, ◌∙◌, sym, ap, Option, none, some, List, [], ◌∷◌, ◌++◌, Eq, nat_eq, get_elem?,
  beq_refl,
}
use ryther_core.Dict
use ryther_core.Storage.Cache.{
  LruCache, CacheEntry, put, replace, move_to_front, update_entry, map_entry,
}
use ryther_core.Storage.Cache.Links.{
  Item, first_or, last_or, Linked-append, Linked-split, Updated-Linked, Unused, IndicesApart,
}
use ryther_core.Storage.Cache.Unlink.{
  IsList, IndicesApart-append, update_entry_lem, Updated-none, last-append,
}
use ryther_core.Storage.Cache.Front.{move_to_front_lem}
use ryther_core.Storage.Cache.Recency.{view, IsLru, Distinct-at}
use ryther_core.Storage.Cache.Moves.{index_of-moved, remove_here, refront, Refined}

abbrev with_value {κ} : {V : Type κ} → V → CacheEntry V → CacheEntry V
with_value v entry = record entry { value = v }

module _ {ℓ κ} {K : Type ℓ} {V : Type κ} ⦃e : Eq K⦄ where
  apart_value :
      (xs ys : List (Item K V)) (k : K) (i : ℕ) (v w : V)
      → IndicesApart (xs ++ ((k, i, v) ∷ ys))
      → IndicesApart (xs ++ ((k, i, w) ∷ ys))
  apart_value [] ys k i v w h = h
  apart_value (x ∷ xs) ys k i v w h = (unused xs h.0, apart_value xs ys k i v w h.1)
    where
      unused :
          (zs : List (Item K V))
          → Unused x.1 (zs ++ ((k, i, v) ∷ ys))
          → Unused x.1 (zs ++ ((k, i, w) ∷ ys))
      unused [] g = g
      unused (z ∷ zs) g = (g.0, unused zs g.1)

  replace_run :
      (c c1 c2 : LruCache K V) (i : ℕ) (v : V) (slot : Option (CacheEntry V))
      → get_elem? c.entries i ≡ some slot
      → update_entry i (with_value v) c ≡ some c1
      → move_to_front i c1 ≡ some c2
      → replace i v c ≡ some (c2, map_entry (λ (entry : CacheEntry V). entry.value) slot)
  unfolding replace
  replace_run c c1 c2 i v slot h up moved = rw (up, h, moved) refl

  pub put_hit :
      (c : LruCache K V) (xs ys : List (Item K V)) (k : K) (i : ℕ) (old v : V)
      → IsLru c (xs ++ ((k, i, old) ∷ ys))
      → Refined c.capacity
          (put k v c)
          ((k, v) ∷ Dict.remove k (view (xs ++ ((k, i, old) ∷ ys))))
          (some old)
  unfolding put
  put_hit c xs ys k i old v h =
      let x : Item K V = (k, i, old) in
      let keys = Distinct-at xs ys x h.keys_once in
      let distinct = IndicesApart-append xs ys x h.list.apart in
      let found : Dict.get k c.indices ≡ some i =
        h.map_lem k ∙ (index_of-moved k xs ys x keys.0 ∙ (rw (beq_refl k) refl)) in
      let parts = Linked-split c.entries none none xs (x ∷ ys) h.list.linked in
      let up =
        update_entry_lem c i (with_value v)
          (some (record { value = old; prev = last_or none xs; next = first_or none ys }))
          parts.1.0 in
      let c1 : LruCache K V = record c { entries = up.0 } in
      let linked =
        Linked-append up.0 none none xs ((k, i, v) ∷ ys)
          (Updated-Linked c.entries up.0 i (with_value v) none (some i) xs up.2 distinct.3 parts.0)
          (
            up.2 i ∙ (rw (beq_refl i, parts.1.0) refl),
            Updated-Linked c.entries up.0 i (with_value v) (some i) none ys up.2 distinct.4
                parts.1.1,
          ) in
      let list : IsList c1 (xs ++ ((k, i, v) ∷ ys)) = record {
        linked = linked;
        head_lem = h.list.head_lem ∙ same_first xs;
        tail_lem =
            h.list.tail_lem
            ∙ (last-append none xs (x ∷ ys) ∙ sym (last-append none xs ((k, i, v) ∷ ys)));
        apart = apart_value xs ys k i old v h.list.apart;
      } in
      let f = move_to_front_lem c1 xs ys (k, i, v) list in
      record {
        after = record c1 {
          entries = f.after;
          head = some i;
          tail = last_or none (x ∷ (xs ++ ys));
        };
        items = (k, i, v) ∷ (xs ++ ys);
        ran = rw (found, put) (replace_run c c1 _ i v _ parts.1.0 up.1 f.fronted);
        lru =
            refront c xs ys x v c.hits f.after h f.linked
              (λ j free. f.free j (Updated-none c.entries up.0 i j (with_value v) up.2 free));
        same = ap (◌∷◌ (k, v)) (sym (remove_here xs ys x keys.0 keys.1));
        capacity_lem = refl;
      }
    where
      same_first :
          (zs : List (Item K V))
          → first_or none (zs ++ ((k, i, old) ∷ ys)) ≡ first_or none (zs ++ ((k, i, v) ∷ ys))
      same_first [] = refl
      same_first (z ∷ zs) = refl
