-- ===== src/Storage/Cache/Put.antt =====
-- storage/cache.rs: `put` of a new key, and `put` as a whole.
use ryther_core.Base.{
  ℕ, ◌≡◌, ◌≤◌, ◌<◌, ◌-◌, refl, ◌∙◌, sym, ap, subst, Bool, true, false, Option, none, some, List, [],
  ◌∷◌, Eq, nat_eq, if◌then◌else◌, leb, length, arith, Bool-cases, Option-cases, inl, inr,
  All-map_imp, add64, leb-false→lt,
}
use ryther_core.Dict
use ryther_core.Dict.Laws.{get-insert, insert-Distinct}
use ryther_core.Storage.Cache.{LruCache, put, make_room, link_new, and_then}
use ryther_core.Storage.Cache.Links.{Item, last_or}
use ryther_core.Storage.Cache.Unlink.{IsList}
use ryther_core.Storage.Cache.Front.{add_to_front_lem}
use ryther_core.Storage.Cache.Recency.{
  view, index_of, IsLru, IsAt, IsAt-index, Distinct-at, get-view, index_of-view, drop_last,
  last_value, put_front, put_result,
}
use ryther_core.Storage.Cache.Moves.{get_here, Refined}
use ryther_core.Storage.Cache.Evict.{make_room_lem, length-view}
use ryther_core.Storage.Cache.Insert.{put_hit}
use ryther_core.Storage.Cache.Allocate.{allocate_lem}

module _ {ℓ κ} {K : Type ℓ} {V : Type κ} ⦃e : Eq K⦄ where
  link_new_lem :
      (key : K) (v : V) (c : LruCache K V) (items : List (Item K V)) (out : Option V)
      → IsLru c items
      → index_of key items ≡ none
      → length items < c.capacity
      → Refined c.capacity
          (and_then (link_new key v c) (λ (c2 : LruCache K V). some (c2, out)))
          ((key, v) ∷ view items)
          out
  unfolding link_new
  link_new_lem key v c items out h absent fits =
      let a = allocate_lem v c items c.free_list refl h h.free_lem h.free_once in
      let c1 : LruCache K V = record c {
        free_list = a.free;
        entries = a.after;
        indices = Dict.insert key a.index c.indices;
      } in
      let list : IsList c1 items = record {
        linked = a.linked;
        head_lem = h.list.head_lem;
        tail_lem = h.list.tail_lem;
        apart = h.list.apart;
      } in
      let f = add_to_front_lem c1 (key, a.index, v) items none none list a.unused a.stored in
      let c2 : LruCache K V = record c1 {
        entries = f.after;
        head = some a.index;
        tail = last_or none ((key, a.index, v) ∷ items);
        size = add64 c.size 1;
      } in
      record {
        after = c2;
        items = (key, a.index, v) ∷ items;
        ran = rw (a.ran, f.fronted) refl;
        lru = record {
          list = record {
            linked = f.linked;
            head_lem = refl;
            tail_lem = refl;
            apart = (a.unused, h.list.apart);
          };
          map_lem = λ k. get-insert k key a.index c.indices ∙ (rw (h.map_lem k) refl);
          map_once = insert-Distinct key a.index c.indices h.map_once;
          keys_once = (get-view key items absent, h.keys_once);
          free_lem = All-map_imp f.free a.free a.free_lem;
          free_once = a.free_once;
          size_lem = omega (arith, h.size_lem, fits, h.small);
          fits = omega arith;
          room = h.room;
          small = h.small;
        };
        same = refl;
        capacity_lem = refl;
      }

  get-drop_last :
      (key : K) (l : List (K × V)) → Dict.get key l ≡ none → Dict.get key (drop_last l) ≡ none
  unfolding Dict.get
  get-drop_last key [] h = refl
  get-drop_last key (x ∷ []) h = refl
  get-drop_last key (x ∷ (y ∷ ys)) h = ground (arith, get-drop_last key (y ∷ ys))

  length-drop_last : (l : List (K × V)) → length (drop_last l) ≡ length l - 1
  length-drop_last [] = refl
  length-drop_last (x ∷ []) = refl
  length-drop_last (x ∷ (y ∷ ys)) = omega (arith, length-drop_last (y ∷ ys))

  fitting :
      (capacity : ℕ) (l : List (K × V))
      → length l ≤ capacity
      → 0 < capacity
      → length (if leb capacity (length l) then drop_last l else l) < capacity
  fitting capacity l h room = elim (Bool-cases (leb capacity (length l))) [
    | inl full ↦ rw (full) (omega (arith, length-drop_last l))
    | inr free ↦ rw (free) (leb-false→lt capacity (length l) free)
  ]

  put_miss :
      (key : K) (v : V) (c : LruCache K V) (items : List (Item K V))
      → IsLru c items
      → index_of key items ≡ none
      → Refined c.capacity
          (put key v c)
          ((key, v)
            ∷ (if leb c.capacity (length (view items)) then drop_last (view items) else view items))
          (if leb c.capacity (length (view items)) then last_value (view items) else none)
  put_miss key v c items h nowhere =
      let l = view items in
      let r = make_room_lem c items h in
      let out = if leb c.capacity (length l) then last_value l else none in
      let absent : Dict.get key (view r.items) ≡ none =
        rw (r.same) (still_absent (leb c.capacity (length l)) l (get-view key items nowhere)) in
      let shorter : length r.items < r.after.capacity =
        rw (r.capacity_lem, sym (length-view r.items), r.same)
          (fitting c.capacity l (rw (length-view items) h.fits) h.room) in
      let linked =
        link_new_lem key v r.after r.items out r.lru (index_of-view key r.items absent) shorter in
      record {
        after = linked.after;
        items = linked.items;
        ran = put_run (h.map_lem key ∙ nowhere) r.ran linked.ran;
        lru = linked.lru;
        same = linked.same ∙ ap (◌∷◌ (key, v)) r.same;
        capacity_lem = linked.capacity_lem ∙ r.capacity_lem;
      }
    where
      still_absent :
          (b : Bool) (l : List (K × V))
          → Dict.get key l ≡ none
          → Dict.get key (if b then drop_last l else l) ≡ none
      still_absent true l g = get-drop_last key l g
      still_absent false l g = g

      put_run :
          {c1 c2 : LruCache K V} {out : Option V}
          → Dict.get key c.indices ≡ none
          → make_room c ≡ some (c1, out)
          → and_then {B = LruCache K V × Option V}
              (link_new key v c1)
              (λ (c3 : LruCache K V). some (c3, out))
            ≡ some (c2, out)
          → put key v c ≡ some (c2, out)
      put_run absent roomy linked = unfold put in rw (absent, put) (rw (roomy) linked)

  pub put_lem :
      (key : K) (v : V) (c : LruCache K V) (items : List (Item K V))
      → IsLru c items
      → Refined c.capacity
          (put key v c)
          (put_front c.capacity key v (Dict.get key (view items)) (view items))
          (put_result c.capacity (Dict.get key (view items)) (view items))
  put_lem key v c items h = elim (Option-cases (index_of key items)) [
    | inl nowhere ↦ rw (get-view key items nowhere) (put_miss key v c items h nowhere)
    | inr (i, somewhere) ↦ found (IsAt-index key i items somewhere)
  ]
    where
      found :
          {i : ℕ}
          → IsAt key i items
          → Refined c.capacity
              (put key v c)
              (put_front c.capacity key v (Dict.get key (view items)) (view items))
              (put_result c.capacity (Dict.get key (view items)) (view items))
      found a =
          rw
            (
              a.whole,
              sym a.key_lem,
              get_here a.front a.back a.here
                  (Distinct-at a.front a.back a.here (
                    subst (λ (l : List (Item K V)). Dict.Distinct (view l)) a.whole h.keys_once)).0,
            )
            (put_hit c a.front a.back a.here.0 a.here.1 a.here.2 v (subst (IsLru c) a.whole h))
