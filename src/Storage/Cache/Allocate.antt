-- ===== src/Storage/Cache/Allocate.antt =====
-- storage/cache.rs, `allocate_entry`: a new entry of the arena and the links that stay.
use ryther_core.Base.{
  ℕ, zero, suc, ◌≡◌, ◌≢◌, refl, ◌∙◌, sym, ap, true, false, Option, none, some, List, [], ◌∷◌, ◌++◌,
  Eq, nat_eq, ◌==◌, length, get_elem?, eqb_iff, Bool-cases, inl, inr, All, beq_refl, beq_sym,
}
use ryther_core.Dict
use ryther_core.Storage.Cache.{LruCache, CacheEntry, allocate_entry, set_elem}
use ryther_core.Storage.Cache.Links.{Item, Linked, Unused, get_elem?-set_elem}
use ryther_core.Storage.Cache.Recency.{IsLru}

abbrev fresh_entry {κ} : {V : Type κ} → V → CacheEntry V
fresh_entry v = record { value = v; prev = none; next = none }

get_elem?-append {ℓ} :
    {A : Type ℓ} (xs : List A) (a b : A) (j : ℕ)
    → get_elem? xs j ≡ some b
    → get_elem? (xs ++ (a ∷ [])) j ≡ some b
get_elem?-append [] a b j h = absurd (cc)
get_elem?-append (x ∷ xs) a b zero h = h
get_elem?-append (x ∷ xs) a b (suc j) h = get_elem?-append xs a b j h

get_elem?-length {ℓ} :
    {A : Type ℓ} (xs : List A) (a : A)
    → (get_elem? xs (length xs) ≡ none) × (get_elem? (xs ++ (a ∷ [])) (length xs) ≡ some a)
get_elem?-length [] a = (refl, refl)
get_elem?-length (x ∷ xs) a = get_elem?-length xs a

module _ {κ} {V : Type κ} where
  others_kept :
      (es : List (Option (CacheEntry V))) (i j : ℕ) (slot : Option (CacheEntry V))
      (entry : CacheEntry V)
      → get_elem? es i ≡ some none
      → get_elem? es j ≡ some (some entry)
      → get_elem? (set_elem i slot es) j ≡ some (some entry)
  others_kept es i j slot entry here there = elim (Bool-cases (i == j)) [
    | inl same ↦
        let clash : some none ≡ some (some entry) =
          sym here ∙ (ap (get_elem? es) ((eqb_iff i j).0 same) ∙ there) in
        absurd (cc)
    | inr other ↦ get_elem?-set_elem i j slot none es here ∙ (rw (other) there)
  ]

  still_none :
      (es : List (Option (CacheEntry V))) (i : ℕ) (slot : Option (CacheEntry V)) (free : List ℕ)
      → get_elem? es i ≡ some none
      → Dict.contains i free ≡ false
      → All (λ j. get_elem? es j ≡ some none) free
      → All (λ j. get_elem? (set_elem i slot es) j ≡ some none) free
  unfolding Dict.contains
  still_none es i slot [] here absent h = tt
  still_none es i slot (j ∷ free) here absent h = elim (Bool-cases (j == i)) [
    | inl same ↦ let clash : true ≡ false = rw (same) at absent in absurd (cc)
    | inr other ↦ (
      get_elem?-set_elem i j slot none es here ∙ (rw (beq_sym i j, other) h.0),
      still_none es i slot free here (rw (other) at absent) h.1,
    )
  ]

module _ {ℓ κ} {K : Type ℓ} {V : Type κ} ⦃e : Eq K⦄ where
  -- An index at which no entry stands is no item's.
  no_item :
      (es : List (Option (CacheEntry V))) (i : ℕ) (p n : Option ℕ) (items : List (Item K V))
      → ((entry : CacheEntry V) → get_elem? es i ≢ some (some entry))
      → Linked es p items n
      → Unused i items
  no_item es i p n [] h linked = tt
  no_item es i p n (x ∷ xs) h linked = (
    elim (Bool-cases (x.1 == i)) [
      | inl same ↦ absurd (h _ (ap (get_elem? es) (sym ((eqb_iff x.1 i).0 same)) ∙ linked.0))
      | inr other ↦ other
    ],
    no_item es i (some x.1) n xs h linked.1,
  )

  items_kept :
      (es fs : List (Option (CacheEntry V))) (p n : Option ℕ) (items : List (Item K V))
      → ((j : ℕ) (entry : CacheEntry V)
          → get_elem? es j ≡ some (some entry)
          → get_elem? fs j ≡ some (some entry))
      → Linked es p items n
      → Linked fs p items n
  items_kept es fs p n [] keep linked = tt
  items_kept es fs p n (x ∷ xs) keep linked =
      (keep x.1 _ linked.0, items_kept es fs (some x.1) n xs keep linked.1)

  -- What `allocate_entry` leaves.
  pub record IsAllocated (v : V) (c : LruCache K V) (items : List (Item K V)) : Type (ℓ ⊔ κ) where
    pub index : ℕ
    pub after : List (Option (CacheEntry V))
    pub free : List ℕ
    pub ran : allocate_entry v c ≡ some (index, record c { free_list = free; entries = after })
    pub stored : get_elem? after index ≡ some (some (fresh_entry v))
    pub unused : Unused index items
    pub linked : Linked after none items none
    pub free_lem : All (λ j. get_elem? after j ≡ some none) free
    pub free_once : Dict.Unique free

  pub allocate_lem :
      (v : V) (c : LruCache K V) (items : List (Item K V)) (free : List ℕ)
      → c.free_list ≡ free
      → IsLru c items
      → All (λ j. get_elem? c.entries j ≡ some none) free
      → Dict.Unique free
      → IsAllocated v c items
  unfolding allocate_entry
  allocate_lem v c items [] list h all once =
      let ends = get_elem?-length c.entries (some (fresh_entry v)) in
      record {
        index = length c.entries;
        after = c.entries ++ (some (fresh_entry v) ∷ []);
        free = [];
        ran =
            rw (list, allocate_entry)
              (ap
                (λ (f : List ℕ). some (
                  length c.entries,
                  record c { entries = c.entries ++ (some (fresh_entry v) ∷ []); free_list = f },
                ))
                list);
        stored = ends.1;
        unused =
            no_item c.entries (length c.entries) none none items (λ entry there. cc) h.list.linked;
        linked =
            items_kept c.entries (c.entries ++ (some (fresh_entry v) ∷ [])) none none items
              (λ j entry there.
                get_elem?-append c.entries (some (fresh_entry v)) (some entry) j there)
              h.list.linked;
        free_lem = tt;
        free_once = tt;
      }
  allocate_lem v c items (i ∷ free) list h all once = record {
    index = i;
    after = set_elem i (some (fresh_entry v)) c.entries;
    free = free;
    ran = rw (list, allocate_entry) (rw (all.0) refl);
    stored =
        get_elem?-set_elem i i (some (fresh_entry v)) none c.entries all.0 ∙ (rw (beq_refl i) refl);
    unused = no_item c.entries i none none items (λ entry there. cc) h.list.linked;
    linked =
        items_kept c.entries (set_elem i (some (fresh_entry v)) c.entries) none none items
          (λ j entry there. others_kept c.entries i j (some (fresh_entry v)) entry all.0 there)
          h.list.linked;
    free_lem = still_none c.entries i (some (fresh_entry v)) free all.0 once.0 all.1;
    free_once = once.1;
  }
