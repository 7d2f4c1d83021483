-- ===== src/Storage/Cache/Unlink.antt =====
-- storage/cache.rs: `remove_from_list` takes one item out of the list.
use ryther_core.Base.{
  ℕ, ◌≡◌, refl, ◌∙◌, sym, subst, false, Option, none, some, List, [], ◌∷◌, ◌++◌, nat_eq, ◌==◌,
  get_elem?, arith, eqb_iff, Bool-cases, inl, inr, All-append_inv, All-append,
}
use ryther_core.Storage.Cache.{
  LruCache, CacheEntry, set_elem, map_entry, update_entry, relink_next, relink_prev, unlink,
  remove_from_list,
}
use ryther_core.Storage.Cache.Links.{
  Item, first_or, last_or, Linked, Unused, IndicesApart, Linked-append, Linked-split, Updated,
  Updated-Linked, Unused-last, relink_last, relink_first, with_next, with_prev, get_elem?-set_elem,
}

module _ {κ} {V : Type κ} where
  pub Updated-none :
      (es fs : List (Option (CacheEntry V))) (a j : ℕ) (f : CacheEntry V → CacheEntry V)
      → Updated es fs a f
      → get_elem? es j ≡ some none
      → get_elem? fs j ≡ some none
  Updated-none es fs a j f up h = elim (Bool-cases (a == j)) [
    | inl same ↦ let e : a ≡ j = (eqb_iff a j).0 same in up j ∙ (rw (same, e, h) refl)
    | inr other ↦ up j ∙ (rw (other) h)
  ]

module _ {ℓ κ} {K : Type ℓ} {V : Type κ} where
  pub update_entry_lem :
      (c : LruCache K V) (a : ℕ) (f : CacheEntry V → CacheEntry V) (slot : Option (CacheEntry V))
      → get_elem? c.entries a ≡ some slot
      → (fs : List (Option (CacheEntry V))) × (update_entry a f c
          ≡ some (record c { entries = fs }))
        × Updated c.entries fs a f
  unfolding update_entry
  update_entry_lem c a f slot h = (
    set_elem a (map_entry f slot) c.entries,
    (rw (h) refl),
    λ j. get_elem?-set_elem a j (map_entry f slot) slot c.entries h ∙ (rw (h) refl),
  )

  -- The last item of a list that has one.
  pub last_entry :
      (es : List (Option (CacheEntry V))) (p n : Option ℕ) (xs : List (Item K V)) (x : Item K V)
      → Linked es p (x ∷ xs) n
      → (a : ℕ) × (entry : CacheEntry V) × (last_or none (x ∷ xs) ≡ some a)
        × (get_elem? es a ≡ some (some entry))
  last_entry es p n [] x h = (x.1, record { value = x.2; prev = p; next = n }, refl, h.0)
  last_entry es p n (y ∷ ys) x h = last_entry es (some x.1) n ys y h.1

  first-append :
      (n : Option ℕ) (xs ys : List (Item K V)) → first_or n (xs ++ ys) ≡ first_or (first_or n ys) xs
  first-append n [] ys = refl
  first-append n (x ∷ xs) ys = refl

  pub last-append :
      (p : Option ℕ) (xs ys : List (Item K V)) → last_or p (xs ++ ys) ≡ last_or (last_or p xs) ys
  last-append p [] ys = refl
  last-append p (x ∷ xs) ys = last-append (some x.1) xs ys

  -- The list as the cache holds it.
  pub record IsList (c : LruCache K V) (items : List (Item K V)) : Type (ℓ ⊔ κ) where
    pub linked : Linked c.entries none items none
    pub head_lem : c.head ≡ first_or none items
    pub tail_lem : c.tail ≡ last_or none items
    pub apart : IndicesApart items

  pub IndicesApart-append :
      (xs ys : List (Item K V)) (x : Item K V)
      → IndicesApart (xs ++ (x ∷ ys))
      → IndicesApart xs
        × IndicesApart ys
        × IndicesApart (xs ++ ys)
        × Unused x.1 xs
        × Unused x.1 ys
        × Unused x.1 (xs ++ ys)
  IndicesApart-append [] ys x h = (tt, h.1, h.1, tt, h.0, h.0)
  IndicesApart-append (y ∷ xs) ys x h =
      let rest = IndicesApart-append xs ys x h.1 in
      let parts = All-append_inv (λ (z : Item K V). (z.1 == y.1) ≡ false) xs (x ∷ ys) h.0 in
      let y_other : (y.1 == x.1) ≡ false = beq_flip x.1 y.1 parts.1.0 in
      (
        (parts.0, rest.0),
        rest.1,
        (All-append (λ (z : Item K V). (z.1 == y.1) ≡ false) xs ys parts.0 parts.1.1, rest.2),
        (y_other, rest.3),
        rest.4,
        (y_other, rest.5),
      )
    where
      beq_flip : (i j : ℕ) → (i == j) ≡ false → (j == i) ≡ false
      beq_flip i j e = ground (arith, e)

  -- The last of some items is none of those behind them.
  last_apart :
      (a : ℕ) (xs ys : List (Item K V))
      → IndicesApart (xs ++ ys)
      → last_or none xs ≡ some a
      → Unused a ys
  last_apart a [] ys h e = absurd (cc)
  last_apart a (x ∷ []) ys h e = let same : x.1 ≡ a = cc in subst (λ (j : ℕ). Unused j ys) same h.0
  last_apart a (x ∷ (y ∷ xs)) ys h e = last_apart a (y ∷ xs) ys h.1 e

  -- What taking the item `x` out from between `xs` and `ys` leaves.
  pub record IsUnlinked (c : LruCache K V) (xs ys : List (Item K V)) (x : Item K V)
      : Type (ℓ ⊔ κ) where
    pub after : List (Option (CacheEntry V))
    pub unlinked :
        remove_from_list x.1 c
        ≡ some (record c {
          entries = after;
          head = first_or none (xs ++ ys);
          tail = last_or none (xs ++ ys);
        })
    pub linked : Linked after none (xs ++ ys) none
    pub kept : get_elem? after x.1 ≡ get_elem? c.entries x.1
    pub free : (j : ℕ) → get_elem? c.entries j ≡ some none → get_elem? after j ≡ some none

  pub remove_from_list_lem :
      (c : LruCache K V) (xs ys : List (Item K V)) (x : Item K V)
      → IsList c (xs ++ (x ∷ ys))
      → IsUnlinked c xs ys x
  unfolding remove_from_list unlink relink_next relink_prev
  remove_from_list_lem c [] [] x h = record {
    after = c.entries;
    unlinked = rw (h.linked.0) refl;
    linked = tt;
    kept = refl;
    free = λ j e. e;
  }
  remove_from_list_lem c [] (y ∷ ys) x h =
      let up =
        update_entry_lem (record c { head = some y.1 }) y.1 (with_prev none)
          (some (record { value = y.2; prev = some x.1; next = first_or none ys })) h.linked.1.0 in
      let other : (y.1 == x.1) ≡ false = h.apart.0.0 in
      record {
        after = up.0;
        unlinked = rw (h.linked.0, up.1, h.tail_lem) refl;
        linked = relink_first c.entries up.0 (some x.1) none none y ys up.2 h.apart.1.0 h.linked.1;
        kept = up.2 x.1 ∙ (rw (other) refl);
        free = λ j e. Updated-none c.entries up.0 y.1 j (with_prev none) up.2 e;
      }
  remove_from_list_lem c (x0 ∷ xs) [] x h =
      let parts = Linked-split c.entries none none (x0 ∷ xs) (x ∷ []) h.linked in
      let end = last_entry c.entries none (some x.1) xs x0 parts.0 in
      let distinct = IndicesApart-append (x0 ∷ xs) [] x h.apart in
      let up = update_entry_lem c end.0 (with_next none) (some end.1) end.3 in
      let relinked =
        relink_last c.entries up.0 end.0 none (some x.1) none (x0 ∷ xs) up.2 end.2 distinct.0
          parts.0 in
      let other : (end.0 == x.1) ≡ false = Unused-last x.1 end.0 (x0 ∷ xs) distinct.3 end.2 in
      record {
        after = up.0;
        unlinked =
            rw (parts.1.0, end.2, up.1, h.head_lem, last-append none (x0 ∷ xs) [], end.2) refl;
        linked = Linked-append up.0 none none (x0 ∷ xs) [] relinked tt;
        kept = up.2 x.1 ∙ (rw (other) refl);
        free = λ j e. Updated-none c.entries up.0 end.0 j (with_next none) up.2 e;
      }
  remove_from_list_lem c (x0 ∷ xs) (y ∷ ys) x h =
      let parts = Linked-split c.entries none none (x0 ∷ xs) (x ∷ (y ∷ ys)) h.linked in
      let end = last_entry c.entries none (some x.1) xs x0 parts.0 in
      let distinct = IndicesApart-append (x0 ∷ xs) (y ∷ ys) x h.apart in
      let beyond = IndicesApart-append (x0 ∷ xs) ys y distinct.2 in
      let up = update_entry_lem c end.0 (with_next (some y.1)) (some end.1) end.3 in
      let front =
        relink_last c.entries up.0 end.0 none (some x.1) (some y.1) (x0 ∷ xs) up.2 end.2 distinct.0
          parts.0 in
      let back =
        Updated-Linked c.entries up.0 end.0 (with_next (some y.1)) (some x.1) none (y ∷ ys) up.2
          (last_apart end.0 (x0 ∷ xs) (y ∷ ys) distinct.2 end.2) parts.1.1 in
      let up' =
        update_entry_lem (record c { entries = up.0 }) y.1 (with_prev (some end.0))
          (some (record { value = y.2; prev = some x.1; next = first_or none ys })) back.0 in
      let front' =
        Updated-Linked up.0 up'.0 y.1 (with_prev (some end.0)) none (some y.1) (x0 ∷ xs) up'.2
          beyond.3 front in
      let back' = relink_first up.0 up'.0 (some x.1) (some end.0) none y ys up'.2 beyond.4 back in
      let other : (end.0 == x.1) ≡ false = Unused-last x.1 end.0 (x0 ∷ xs) distinct.3 end.2 in
      let other' : (y.1 == x.1) ≡ false = distinct.4.0 in
      record {
        after = up'.0;
        unlinked =
            rw
              (
                parts.1.0,
                end.2,
                up.1,
                up'.1,
                h.head_lem,
                h.tail_lem
                    ∙ (last-append none (x0 ∷ xs) (x ∷ (y ∷ ys))
                        ∙ sym (last-append none (x0 ∷ xs) (y ∷ ys))),
              )
              refl;
        linked = Linked-append up'.0 none none (x0 ∷ xs) (y ∷ ys) front' (rw (end.2) back');
        kept = up'.2 x.1 ∙ (rw (other') (up.2 x.1 ∙ (rw (other) refl)));
        free = λ j e.
            Updated-none up.0 up'.0 y.1 j (with_prev (some end.0)) up'.2
              (Updated-none c.entries up.0 end.0 j (with_next (some y.1)) up.2 e);
      }
