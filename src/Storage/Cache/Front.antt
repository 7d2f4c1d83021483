-- ===== src/Storage/Cache/Front.antt =====
-- storage/cache.rs: `add_to_front` and `move_to_front`.
use ryther_core.Base.{
  ℕ, ◌≡◌, refl, ◌∙◌, ap, false, Option, none, some, List, [], ◌∷◌, ◌++◌, nat_eq, ◌==◌,
  if◌then◌else◌, get_elem?, beq_refl,
}
use ryther_core.Storage.Cache.{
  LruCache, CacheEntry, and_then, update_entry, update_at, is_none, is_head, add_to_front,
  move_to_front,
}
use ryther_core.Storage.Cache.Links.{
  Item, first_or, last_or, Linked, Unused, Linked-split, Updated-Linked, relink_first, with_prev,
}
use ryther_core.Storage.Cache.Unlink.{
  update_entry_lem, last_entry, Updated-none, IsList, IndicesApart-append, remove_from_list_lem,
}

abbrev in_front {κ} : {V : Type κ} → Option ℕ → CacheEntry V → CacheEntry V
in_front n entry = record entry { prev = none; next = n }

module _ {ℓ κ} {K : Type ℓ} {V : Type κ} where
  -- The run of `add_to_front` where the list has a head.
  front_run :
      (c : LruCache K V) (i y : ℕ) (fs gs : List (Option (CacheEntry V)))
      → c.head ≡ some y
      → is_none c.tail ≡ false
      → update_entry i (in_front c.head) c ≡ some (record c { entries = fs })
      → update_entry y (with_prev (some i)) (record c { entries = fs })
        ≡ some (record c { entries = gs })
      → add_to_front i c ≡ some (record c { entries = gs; head = some i })
  unfolding add_to_front update_at
  front_run c i y fs gs head tail up up' =
      let c1 : LruCache K V = record c { entries = fs } in
      let finish : LruCache K V → Option (LruCache K V) = λ c2.
        some (record c2 { head = some i; tail = if is_none c2.tail then some i else c2.tail }) in
      rw (up) (
        ap (λ (h : Option ℕ). and_then (update_at h (with_prev (some i)) c1) finish) head
        ∙ (rw (up', tail) refl))

  -- What a step that puts the item `x` in front of others leaves.
  pub record IsFronted (c : LruCache K V) (x : Item K V) (items : List (Item K V))
      (r : Option (LruCache K V)) : Type (ℓ ⊔ κ) where
    pub after : List (Option (CacheEntry V))
    pub fronted :
        r ≡ some (record c { entries = after; head = some x.1; tail = last_or none (x ∷ items) })
    pub linked : Linked after none (x ∷ items) none
    pub free : (j : ℕ) → get_elem? c.entries j ≡ some none → get_elem? after j ≡ some none

  pub add_to_front_lem :
      (c : LruCache K V) (x : Item K V) (items : List (Item K V)) (p n : Option ℕ)
      → IsList c items
      → Unused x.1 items
      → get_elem? c.entries x.1 ≡ some (some (record { value = x.2; prev = p; next = n }))
      → IsFronted c x items (add_to_front x.1 c)
  unfolding add_to_front update_at
  add_to_front_lem c x [] p n h unused e =
      let up =
        update_entry_lem c x.1 (in_front c.head) (some (record { value = x.2; prev = p; next = n }))
          e in
      record {
        after = up.0;
        fronted = rw (up.1) (simp (h.head_lem, h.tail_lem) refl);
        linked = (up.2 x.1 ∙ (rw (beq_refl x.1, e, h.head_lem) refl), tt);
        free = λ j k. Updated-none c.entries up.0 x.1 j (in_front c.head) up.2 k;
      }
  add_to_front_lem c x (y ∷ ys) p n h unused e =
      let up =
        update_entry_lem c x.1 (in_front c.head) (some (record { value = x.2; prev = p; next = n }))
          e in
      let others =
        Updated-Linked c.entries up.0 x.1 (in_front c.head) none none (y ∷ ys) up.2 unused
          h.linked in
      let up' =
        update_entry_lem (record c { entries = up.0 }) y.1 (with_prev (some x.1))
          (some (record { value = y.2; prev = none; next = first_or none ys })) others.0 in
      let back = relink_first up.0 up'.0 none (some x.1) none y ys up'.2 h.apart.0 others in
      let end = last_entry c.entries none none ys y h.linked in
      let other : (y.1 == x.1) ≡ false = unused.0 in
      record {
        after = up'.0;
        fronted =
            front_run c x.1 y.1 up.0 up'.0 h.head_lem (rw (h.tail_lem, end.2) refl) up.1 up'.1
            ∙ ap (λ (t : Option ℕ). some (record c { entries = up'.0; head = some x.1; tail = t }))
                h.tail_lem;
        linked =
            (up'.2 x.1 ∙ (rw (other) (up.2 x.1 ∙ (rw (beq_refl x.1, e, h.head_lem) refl))), back);
        free = λ j k.
            Updated-none up.0 up'.0 y.1 j (with_prev (some x.1)) up'.2
              (Updated-none c.entries up.0 x.1 j (in_front c.head) up.2 k);
      }

  pub move_to_front_lem :
      (c : LruCache K V) (xs ys : List (Item K V)) (x : Item K V)
      → IsList c (xs ++ (x ∷ ys))
      → IsFronted c x (xs ++ ys) (move_to_front x.1 c)
  unfolding move_to_front
  move_to_front_lem c [] ys x h = record {
    after = c.entries;
    fronted = rw (h.head_lem, beq_refl x.1, h.tail_lem) refl;
    linked = h.linked;
    free = λ j k. k;
  }
  move_to_front_lem c (x0 ∷ xs) ys x h =
      let u = remove_from_list_lem c (x0 ∷ xs) ys x h in
      let distinct = IndicesApart-append (x0 ∷ xs) ys x h.apart in
      let c1 : LruCache K V = record c {
        entries = u.after;
        head = first_or none ((x0 ∷ xs) ++ ys);
        tail = last_or none ((x0 ∷ xs) ++ ys);
      } in
      let parts = Linked-split c.entries none none (x0 ∷ xs) (x ∷ ys) h.linked in
      let list : IsList c1 ((x0 ∷ xs) ++ ys) = record {
        linked = u.linked;
        head_lem = refl;
        tail_lem = refl;
        apart = distinct.2;
      } in
      let f =
        add_to_front_lem c1 x ((x0 ∷ xs) ++ ys) (last_or none (x0 ∷ xs)) (first_or none ys) list
          distinct.5 (u.kept ∙ parts.1.0) in
      let behind : is_head x.1 c.head ≡ false = rw (h.head_lem) distinct.3.0 in
      record {
        after = f.after;
        fronted = rw (behind, u.unlinked) f.fronted;
        linked = f.linked;
        free = λ j k. f.free j (u.free j k);
      }
