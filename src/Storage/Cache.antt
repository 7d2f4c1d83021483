-- ===== src/Storage/Cache.antt =====
-- storage/cache.rs: the bounded cache. The entries form a list that is linked by their indices, the
-- most recently used first. Each method holds the lock, so it is one step. An index out of bounds is
-- a panic: `none` on the outside of a result. The free list's last index stands first here.
pub mod Links
pub mod Unlink
pub mod Front
pub mod Recency
pub mod Moves
pub mod Room
pub mod Evict
pub mod Insert
pub mod Allocate
pub mod Put
pub mod Refine
use ryther_core.Base.{
  ℕ, zero, suc, ◌-◌, Bool, true, false, not, Option, none, some, List, [], ◌∷◌, ◌++◌, Eq, nat_eq,
  ◌==◌, eqb, leb, if◌then◌else◌, length, get_elem?, add64, sub64, max,
}
use ryther_core.Dict

pub record CacheEntry {κ} (V : Type κ) : Type κ where
  pub value : V
  pub prev : Option ℕ
  pub next : Option ℕ

pub record LruCache {ℓ κ} (K : Type ℓ) (V : Type κ) : Type (ℓ ⊔ κ) where
  pub indices : List (K × ℕ)
  pub entries : List (Option (CacheEntry V))
  pub free_list : List ℕ
  pub head : Option ℕ
  pub tail : Option ℕ
  pub capacity : ℕ
  pub size : ℕ
  pub hits : ℕ
  pub misses : ℕ

-- `?` on a step that may panic.
abbrev pub and_then {ℓ κ} : {A : Type ℓ} {B : Type κ} → Option A → (A → Option B) → Option B
and_then none f = none
and_then (some a) f = f a

abbrev pub map_entry {ℓ κ} : {A : Type ℓ} {B : Type κ} → (A → B) → Option A → Option B
map_entry f none = none
map_entry f (some a) = some (f a)

-- `entries[index] = x`, for an index in bounds.
unfoldable pub set_elem {ℓ} : {A : Type ℓ} → ℕ → A → List A → List A
set_elem i a [] = []
set_elem zero a (x ∷ xs) = a ∷ xs
set_elem (suc i) a (x ∷ xs) = x ∷ set_elem i a xs

-- `retain(|_, v| v != index)`
unfoldable pub retain_other {ℓ} : {K : Type ℓ} → ℕ → List (K × ℕ) → List (K × ℕ)
retain_other idx [] = []
retain_other idx ((k, v) ∷ m) = if v == idx then retain_other idx m else (k, v) ∷ retain_other idx m

abbrev pub is_none : Option ℕ → Bool
is_none none = true
is_none (some i) = false

abbrev pub is_head : ℕ → Option ℕ → Bool
is_head idx none = false
is_head idx (some head) = head == idx

module _ {ℓ κ} {K : Type ℓ} {V : Type κ} where
  unfoldable pub new_cache : ℕ → LruCache K V
  new_cache capacity = record {
    indices = [];
    entries = [];
    free_list = [];
    head = none;
    tail = none;
    capacity = max capacity 1;
    size = 0;
    hits = 0;
    misses = 0;
  }

  -- `if let Some(entry) = self.entries[idx].as_mut() { … }`
  unfoldable pub update_entry :
      ℕ → (CacheEntry V → CacheEntry V) → LruCache K V → Option (LruCache K V)
  update_entry idx f c = and_then (get_elem? c.entries idx) (λ (slot : Option (CacheEntry V)).
      some (record c { entries = set_elem idx (map_entry f slot) c.entries }))

  -- The same for an index that may be absent.
  unfoldable pub update_at :
      Option ℕ → (CacheEntry V → CacheEntry V) → LruCache K V → Option (LruCache K V)
  unfolding update_entry
  update_at none f c = some c
  update_at (some idx) f c = update_entry idx f c

  unfoldable pub allocate_entry : V → LruCache K V → Option (ℕ × LruCache K V)
  allocate_entry value c = elim c.free_list [
    | idx ∷ free ↦ and_then (get_elem? c.entries idx) (λ (slot : Option (CacheEntry V)). some (
      idx,
      record c {
        free_list = free;
        entries =
            set_elem idx (some (record { value = value; prev = none; next = none })) c.entries;
      },
    ))
    | [] ↦ some (
      length c.entries,
      record c {
        entries = c.entries ++ (some (record { value = value; prev = none; next = none }) ∷ []);
      },
    )
  ]

  unfoldable pub add_to_front : ℕ → LruCache K V → Option (LruCache K V)
  unfolding update_entry update_at
  add_to_front idx c =
      and_then (update_entry idx (λ entry. record entry { prev = none; next = c.head }) c)
        (λ (c1 : LruCache K V).
          and_then (update_at c1.head (λ entry. record entry { prev = some idx }) c1)
            (λ (c2 : LruCache K V). some (record c2 {
              head = some idx;
              tail = if is_none c2.tail then some idx else c2.tail;
            })))

  unfoldable pub relink_next : Option ℕ → Option ℕ → LruCache K V → Option (LruCache K V)
  unfolding update_entry
  relink_next (some prev_idx) next c =
      update_entry prev_idx (λ entry. record entry { next = next }) c
  relink_next none next c = some (record c { head = next })

  unfoldable pub relink_prev : Option ℕ → Option ℕ → LruCache K V → Option (LruCache K V)
  unfolding update_entry
  relink_prev (some next_idx) prev c =
      update_entry next_idx (λ entry. record entry { prev = prev }) c
  relink_prev none prev c = some (record c { tail = prev })

  -- `remove_from_list`, for what stands at the index.
  unfoldable pub unlink : Option (CacheEntry V) → LruCache K V → Option (LruCache K V)
  unfolding relink_next relink_prev
  unlink none c = some c
  unlink (some entry) c =
      and_then (relink_next entry.prev entry.next c) (relink_prev entry.next entry.prev)

  unfoldable pub remove_from_list : ℕ → LruCache K V → Option (LruCache K V)
  unfolding unlink
  remove_from_list idx c =
      and_then (get_elem? c.entries idx) (λ (slot : Option (CacheEntry V)). unlink slot c)

  unfoldable pub move_to_front : ℕ → LruCache K V → Option (LruCache K V)
  unfolding remove_from_list add_to_front
  move_to_front idx c =
      if is_head idx c.head then some c else and_then (remove_from_list idx c) (add_to_front idx)

  -- The entry at the index is taken out, and the index becomes free.
  unfoldable pub release : ℕ → LruCache K V → Option (LruCache K V × Option (CacheEntry V))
  release idx c = and_then (get_elem? c.entries idx) (λ (slot : Option (CacheEntry V)). some (
    record c {
      entries = set_elem idx none c.entries;
      free_list = idx ∷ c.free_list;
      size = sub64 c.size 1;
    },
    slot,
  ))

  unfoldable pub evict_lru : LruCache K V → Option (LruCache K V × Option V)
  unfolding remove_from_list release retain_other
  evict_lru c = elim c.tail [
    | none ↦ some (c, none)
    | some tail_idx ↦ and_then (remove_from_list tail_idx c) (λ (c1 : LruCache K V).
        and_then (release tail_idx c1) (λ (r : LruCache K V × Option (CacheEntry V)). some (
          record r.0 { indices = retain_other tail_idx r.0.indices },
          map_entry (λ (e : CacheEntry V). e.value) r.1,
        )))
  ]

  unfoldable pub clear : LruCache K V → LruCache K V
  clear c = record c {
    indices = [];
    entries = [];
    free_list = [];
    head = none;
    tail = none;
    size = 0;
  }

  unfoldable pub cache_len : LruCache K V → ℕ
  cache_len c = c.size

  unfoldable pub cache_is_empty : LruCache K V → Bool
  unfolding cache_len
  cache_is_empty c = eqb (cache_len c) 0

pub record CacheStats : Type 0 where
  pub size : ℕ
  pub capacity : ℕ
  pub hits : ℕ
  pub misses : ℕ

unfoldable pub stats {ℓ κ} : {K : Type ℓ} {V : Type κ} → LruCache K V → CacheStats
stats c = record { size = c.size; capacity = c.capacity; hits = c.hits; misses = c.misses }

module _ {ℓ κ} {K : Type ℓ} {V : Type κ} ⦃e : Eq K⦄ where
  unfoldable pub get : K → LruCache K V → Option (LruCache K V × Option V)
  unfolding move_to_front
  get key c = elim (Dict.get key c.indices) [
    | none ↦ some (record c { misses = add64 c.misses 1 }, none)
    | some idx ↦
        and_then (move_to_front idx (record c { hits = add64 c.hits 1 })) (λ (c1 : LruCache K V).
          and_then (get_elem? c1.entries idx) (λ (slot : Option (CacheEntry V)).
            some (c1, map_entry (λ (entry : CacheEntry V). entry.value) slot)))
  ]

  -- `put` of a key that is there.
  unfoldable pub replace : ℕ → V → LruCache K V → Option (LruCache K V × Option V)
  unfolding update_entry move_to_front
  replace idx value c = and_then (get_elem? c.entries idx) (λ (slot : Option (CacheEntry V)).
      and_then (update_entry idx (λ entry. record entry { value = value }) c)
        (λ (c1 : LruCache K V). and_then (move_to_front idx c1) (λ (c2 : LruCache K V).
          some (c2, map_entry (λ (entry : CacheEntry V). entry.value) slot))))

  unfoldable pub make_room : LruCache K V → Option (LruCache K V × Option V)
  unfolding evict_lru
  make_room c = if leb c.capacity c.size then evict_lru c else some (c, none)

  -- `put` of a new key, once there is room.
  unfoldable pub link_new : K → V → LruCache K V → Option (LruCache K V)
  unfolding allocate_entry add_to_front
  link_new key value c = and_then (allocate_entry value c) (λ (a : ℕ × LruCache K V).
      and_then (add_to_front a.0 (record a.1 { indices = Dict.insert key a.0 a.1.indices }))
        (λ (c2 : LruCache K V). some (record c2 { size = add64 c2.size 1 })))

  unfoldable pub put : K → V → LruCache K V → Option (LruCache K V × Option V)
  unfolding replace make_room link_new
  put key value c = elim (Dict.get key c.indices) [
    | some idx ↦ replace idx value c
    | none ↦ and_then (make_room c) (λ (r : LruCache K V × Option V).
        and_then (link_new key value r.0) (λ (c2 : LruCache K V). some (c2, r.1)))
  ]

  unfoldable pub remove : K → LruCache K V → Option (LruCache K V × Option V)
  unfolding remove_from_list release
  remove key c = elim (Dict.get key c.indices) [
    | none ↦ some (c, none)
    | some idx ↦
        and_then (remove_from_list idx (record c { indices = Dict.remove key c.indices }))
          (λ (c1 : LruCache K V).
            and_then (release idx c1) (λ (r : LruCache K V × Option (CacheEntry V)).
              some (r.0, map_entry (λ (entry : CacheEntry V). entry.value) r.1)))
  ]

  unfoldable pub contains : K → LruCache K V → Bool
  contains key c = Dict.contains_key key c.indices
