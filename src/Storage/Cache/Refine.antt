-- ===== src/Storage/Cache/Refine.antt =====
-- storage/cache.rs: runs of the cache against a list in the order of use.
use ryther_core.Base.{
  ℕ, max, ◌≡◌, ◌<◌, refl, Option, none, some, List, [], ◌∷◌, Eq, nat_eq, arith, u64_mod,
}
use ryther_core.Dict
use ryther_core.Storage.Cache.{
  LruCache, CacheEntry, put, replace, make_room, link_new, allocate_entry, add_to_front,
  move_to_front, update_entry, set_elem, map_entry, and_then,
}
use ryther_core.Storage.Cache.Links.{Item}
use ryther_core.Storage.Cache.Recency.{view, IsLru, put_front, put_result}
use ryther_core.Storage.Cache.Moves.{Refined}
use ryther_core.Storage.Cache.Put.{put_lem}
use ryther_core.Storage.Cache.Moves.{get_lem}
use ryther_core.Storage.Cache.Room.{remove_lem}
use ryther_core.Storage.Cache as Cache
use ryther_core.Storage.Cache.Recency.{touch}
use ryther_core.Storage.Cache.{new_cache, clear}

-- The operations that change the cache or look into it.
pub data Operation {ℓ κ} (K : Type ℓ) (V : Type κ) : Type (ℓ ⊔ κ) where
  getting : K → Operation K V
  putting : K → V → Operation K V
  removing : K → Operation K V
  clearing : Operation K V

module _ {ℓ κ} {K : Type ℓ} {V : Type κ} ⦃e : Eq K⦄ where
  abbrev pub perform : Operation K V → LruCache K V → Option (LruCache K V × Option V)
  perform (getting key) c = Cache.get key c
  perform (putting key v) c = Cache.put key v c
  perform (removing key) c = Cache.remove key c
  perform clearing c = some (clear c, none)

  -- The results of a run, or nothing if an operation panics.
  unfoldable pub run_cache : List (Operation K V) → LruCache K V → Option (List (Option V))
  run_cache [] c = some []
  run_cache (op ∷ ops) c = and_then (perform op c) (λ (r : LruCache K V × Option V).
      and_then (run_cache ops r.0) (λ (outs : List (Option V)). some (r.1 ∷ outs)))

  -- The same on a list of the keys and values in the order of use.
  abbrev pub perform_list : ℕ → Operation K V → List (K × V) → List (K × V) × Option V
  perform_list capacity (getting key) l = (touch key (Dict.get key l) l, Dict.get key l)
  perform_list capacity (putting key v) l =
      (put_front capacity key v (Dict.get key l) l, put_result capacity (Dict.get key l) l)
  perform_list capacity (removing key) l = (Dict.remove key l, Dict.get key l)
  perform_list capacity clearing l = ([], none)

  unfoldable pub run_list : ℕ → List (Operation K V) → List (K × V) → List (Option V)
  run_list capacity [] l = []
  run_list capacity (op ∷ ops) l =
      (perform_list capacity op l).1 ∷ run_list capacity ops (perform_list capacity op l).0

  perform_lem :
      (op : Operation K V) (c : LruCache K V) (items : List (Item K V))
      → IsLru c items
      → Refined c.capacity
          (perform op c)
          (perform_list c.capacity op (view items)).0
          (perform_list c.capacity op (view items)).1
  unfolding clear
  perform_lem (getting key) c items h = get_lem key c items h
  perform_lem (putting key v) c items h = put_lem key v c items h
  perform_lem (removing key) c items h = remove_lem key c items h
  perform_lem clearing c items h = record {
    after = clear c;
    items = [];
    ran = refl;
    lru = record {
      list = record { linked = tt; head_lem = refl; tail_lem = refl; apart = tt };
      map_lem = λ k. unfold Dict.get in refl;
      map_once = tt;
      keys_once = tt;
      free_lem = tt;
      free_once = tt;
      size_lem = refl;
      fits = omega arith;
      room = h.room;
      small = h.small;
    };
    same = refl;
    capacity_lem = refl;
  }

  run_lem :
      (ops : List (Operation K V)) (c : LruCache K V) (items : List (Item K V))
      → IsLru c items
      → run_cache ops c ≡ some (run_list c.capacity ops (view items))
  unfolding run_cache run_list
  run_lem [] c items h = refl
  run_lem (op ∷ ops) c items h =
      let r = perform_lem op c items h in
      rw (r.ran, run_lem ops r.after r.items r.lru, r.capacity_lem, r.same) refl

  -- Any sequence of calls of `get`, `put`, `remove` and `clear` on a new cache panics at no index,
  -- and each call returns what it returns on a list of the keys and values in the order of use, of
  -- at most the capacity given or 1, from which a new key that finds no room drives out the last.
  -- The capacity is a number of 64 bits.
  pub run_cache-Refines :
      (capacity : ℕ) (ops : List (Operation K V))
      → capacity < u64_mod
      → run_cache ops (new_cache capacity) ≡ some (run_list (max capacity 1) ops [])
  unfolding new_cache
  run_cache-Refines capacity ops small = run_lem ops (new_cache capacity) [] (record {
    list = record { linked = tt; head_lem = refl; tail_lem = refl; apart = tt };
    map_lem = λ k. unfold Dict.get in refl;
    map_once = tt;
    keys_once = tt;
    free_lem = tt;
    free_once = tt;
    size_lem = refl;
    fits = omega arith;
    room = omega arith;
    small = omega arith;
  })
