-- ===== src/Storage/Cache/Evict.antt =====
-- storage/cache.rs: `evict_lru`, and that there is room after it.
use mathlib.Core.List.{append-nil}
use ryther_core.Base.{
  ℕ, suc, ◌≡◌, ◌≤◌, refl, ◌∙◌, sym, ap, subst, true, false, Option, none, some, List, [], ◌∷◌, ◌++◌,
  Eq, nat_eq, ◌==◌, if◌then◌else◌, leb, length, arith, Bool-cases, inl, inr, beq_refl, sub64,
  leb→le,
}
use ryther_core.Dict
use ryther_core.Storage.Cache.{LruCache, evict_lru, make_room, release, retain_other, set_elem}
use ryther_core.Storage.Cache.Links.{Item, first_or, last_or, Linked-split, Unused}
use ryther_core.Storage.Cache.Unlink.{IndicesApart-append, remove_from_list_lem, last-append}
use ryther_core.Storage.Cache.Recency.{
  view, index_of, IsLru, Distinct-at, index_of-view, drop_last, last_value,
}
use ryther_core.Storage.Cache.Moves.{index_of-moved, Refined}
use ryther_core.Storage.Cache.Room.{released}

-- The map without an index.
abbrev unless_index : ℕ → Option ℕ → Option ℕ
unless_index i none = none
unless_index i (some j) = if j == i then none else some j

module _ {ℓ} {K : Type ℓ} ⦃e : Eq K⦄ where
  get-retain_other :
      (i : ℕ) (k : K) (m : List (K × ℕ))
      → Dict.Distinct m
      → Dict.get k (retain_other i m) ≡ unless_index i (Dict.get k m)
  unfolding Dict.get retain_other
  get-retain_other i k [] h = refl
  get-retain_other i k ((j, v) ∷ m) h =
      ground (arith, get-retain_other i k m h.1, e.beq_iff j k, h.0)

  retain_other-Distinct :
      (i : ℕ) (m : List (K × ℕ)) → Dict.Distinct m → Dict.Distinct (retain_other i m)
  unfolding Dict.get retain_other
  retain_other-Distinct i [] h = tt
  retain_other-Distinct i ((j, v) ∷ m) h =
      ground (arith, get-retain_other i j m h.1, retain_other-Distinct i m h.1)

module _ {ℓ κ} {K : Type ℓ} {V : Type κ} ⦃e : Eq K⦄ where
  Unused-index :
      (i : ℕ) (k : K) (items : List (Item K V))
      → Unused i items
      → unless_index i (index_of k items) ≡ index_of k items
  Unused-index i k [] h = refl
  Unused-index i k (x ∷ xs) h = ground (arith, h.0, Unused-index i k xs h.1)

  -- The items before the last one, and it.
  record HasLast (items : List (Item K V)) : Type (ℓ ⊔ κ) where
    front : List (Item K V)
    end : Item K V
    whole : items ≡ front ++ (end ∷ [])

  has_last : (x : Item K V) (xs : List (Item K V)) → HasLast (x ∷ xs)
  has_last x [] = record { front = []; end = x; whole = refl }
  has_last x (y ∷ ys) =
      let rest = has_last y ys in
      record { front = x ∷ rest.front; end = rest.end; whole = ap (◌∷◌ x) rest.whole }

  drop_last-view :
      (xs : List (Item K V)) (x : Item K V) → drop_last (view (xs ++ (x ∷ []))) ≡ view xs
  drop_last-view [] x = refl
  drop_last-view (y ∷ []) x = refl
  drop_last-view (y ∷ (z ∷ zs)) x = ap (◌∷◌ (y.0, y.2)) (drop_last-view (z ∷ zs) x)

  last_value-view :
      (xs : List (Item K V)) (x : Item K V) → last_value (view (xs ++ (x ∷ []))) ≡ some x.2
  last_value-view [] x = refl
  last_value-view (y ∷ []) x = refl
  last_value-view (y ∷ (z ∷ zs)) x = last_value-view (z ∷ zs) x

  pub length-view : (xs : List (Item K V)) → length (view xs) ≡ length xs
  length-view [] = refl
  length-view (x ∷ xs) = ap suc (length-view xs)

  evict_end :
      (c : LruCache K V) (xs : List (Item K V)) (x : Item K V)
      → IsLru c (xs ++ (x ∷ []))
      → Refined c.capacity (evict_lru c) (view xs) (some x.2)
  unfolding evict_lru release
  evict_end c xs x h =
      let last : c.tail ≡ some x.1 = h.list.tail_lem ∙ last-append none xs (x ∷ []) in
      let keys = Distinct-at xs [] x h.keys_once in
      let distinct = IndicesApart-append xs [] x h.list.apart in
      let u = remove_from_list_lem c xs [] x h.list in
      let here = (Linked-split c.entries none none xs (x ∷ []) h.list.linked).1.0 in
      let forgets : (k : K) → Dict.get k (retain_other x.1 c.indices) ≡ index_of k (xs ++ []) = λ k.
        let was = h.map_lem k ∙ index_of-moved k xs [] x keys.0 in
        let kept = get-retain_other x.1 k c.indices h.map_once ∙ ap (unless_index x.1) was in
        elim (Bool-cases (x.0 == k)) [
          | inl same ↦
              let here : x.0 ≡ k = (e.beq_iff x.0 k).0 same in
              kept ∙ (rw (same, beq_refl x.1, sym here) (sym (index_of-view x.0 (xs ++ []) keys.3)))
          | inr other ↦ kept ∙ (rw (other) (Unused-index x.1 k (xs ++ []) distinct.5))
        ] in
      record {
        after = record c {
          indices = retain_other x.1 c.indices;
          entries = set_elem x.1 none u.after;
          free_list = x.1 ∷ c.free_list;
          head = first_or none (xs ++ []);
          tail = last_or none (xs ++ []);
          size = sub64 c.size 1;
        };
        items = xs ++ [];
        ran = rw (last, evict_lru) (rw (u.unlinked, u.kept, here) refl);
        lru =
            released c xs [] x (retain_other x.1 c.indices) u.after h u.linked u.kept u.free forgets
              (retain_other-Distinct x.1 c.indices h.map_once);
        same = ap view (append-nil xs);
        capacity_lem = refl;
      }

  evict_last :
      (c : LruCache K V) (items : List (Item K V))
      → HasLast items
      → IsLru c items
      → Refined c.capacity (evict_lru c) (drop_last (view items)) (last_value (view items))
  evict_last c items l h =
      rw (l.whole, drop_last-view l.front l.end, last_value-view l.front l.end)
        (evict_end c l.front l.end (subst (IsLru c) l.whole h))

  evict_some :
      (c : LruCache K V) (items : List (Item K V))
      → c.capacity ≤ length items
      → IsLru c items
      → Refined c.capacity (evict_lru c) (drop_last (view items)) (last_value (view items))
  evict_some c [] full h = absurd (omega (arith, h.room))
  evict_some c (x ∷ xs) full h = evict_last c (x ∷ xs) (has_last x xs) h

  pub make_room_lem :
      (c : LruCache K V) (items : List (Item K V))
      → IsLru c items
      → Refined c.capacity
          (make_room c)
          (if leb c.capacity (length (view items)) then drop_last (view items) else view items)
          (if leb c.capacity (length (view items)) then last_value (view items) else none)
  unfolding make_room
  make_room_lem c items h =
      let size : c.size ≡ length (view items) = h.size_lem ∙ sym (length-view items) in
      elim (Bool-cases (leb c.capacity (length (view items)))) [
        | inl full ↦
            let sized : leb c.capacity c.size ≡ true = rw (size) full in
            rw (sized, full)
              (evict_some c items
                (rw (length-view items) at (leb→le c.capacity (length (view items)) full)) h)
        | inr free ↦
            let sized : leb c.capacity c.size ≡ false = rw (size) free in
            rw (sized, free)
              (record {
                after = c;
                items = items;
                ran = refl;
                lru = h;
                same = refl;
                capacity_lem = refl;
              })
      ]
