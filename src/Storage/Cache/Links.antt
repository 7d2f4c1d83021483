-- ===== src/Storage/Cache/Links.antt =====
-- storage/cache.rs: the list that the entries form by their indices.
use ryther_core.Base.{
  ℕ, zero, suc, ◌≡◌, refl, ◌∙◌, subst, false, Option, none, some, List, [], ◌∷◌, ◌++◌, nat_eq, ◌==◌,
  if◌then◌else◌, get_elem?, arith, All, beq_refl,
}
use ryther_core.Storage.Cache.{CacheEntry, set_elem, map_entry}

pub get_elem?-set_elem {ℓ} :
    {A : Type ℓ} (i j : ℕ) (a old : A) (xs : List A)
    → get_elem? xs i ≡ some old
    → get_elem? (set_elem i a xs) j ≡ (if i == j then some a else get_elem? xs j)
unfolding set_elem
get_elem?-set_elem i j a old [] h = absurd (cc)
get_elem?-set_elem zero zero a old (x ∷ xs) h = refl
get_elem?-set_elem zero (suc j) a old (x ∷ xs) h = ground arith
get_elem?-set_elem (suc i) zero a old (x ∷ xs) h = ground arith
get_elem?-set_elem (suc i) (suc j) a old (x ∷ xs) h =
    ground (arith, get_elem?-set_elem i j a old xs h)

module _ {κ} {V : Type κ} where
  abbrev pub with_next : Option ℕ → CacheEntry V → CacheEntry V
  with_next n entry = record entry { next = n }

  abbrev pub with_prev : Option ℕ → CacheEntry V → CacheEntry V
  with_prev p entry = record entry { prev = p }

  -- The entry at one index is changed by a function, and no other entry.
  abbrev pub Updated :
      List (Option (CacheEntry V))
      → List (Option (CacheEntry V))
      → ℕ
      → (CacheEntry V → CacheEntry V)
      → Type κ
  Updated es fs a f =
      (j : ℕ)
      → get_elem? fs j
        ≡ (if a == j then map_entry (map_entry f) (get_elem? es a) else get_elem? es j)

-- The entries of a map's keys in the order of use: the key, the index and the value.
abbrev pub Item {ℓ κ} : Type ℓ → Type κ → Type (ℓ ⊔ κ)
Item K V = K × ℕ × V

module _ {ℓ κ} {K : Type ℓ} {V : Type κ} where
  -- The index of the first item, or what follows the list.
  abbrev pub first_or : Option ℕ → List (Item K V) → Option ℕ
  first_or n [] = n
  first_or n (x ∷ xs) = some x.1

  abbrev pub last_or : Option ℕ → List (Item K V) → Option ℕ
  last_or p [] = p
  last_or p (x ∷ xs) = last_or (some x.1) xs

  -- The items stand in the entries, linked to one another, behind `p` and before `n`.
  abbrev pub Linked : List (Option (CacheEntry V)) → Option ℕ → List (Item K V) → Option ℕ → Type κ
  Linked es p [] n = Unit
  Linked es p (x ∷ xs) n =
      (get_elem? es x.1 ≡ some (some (record { value = x.2; prev = p; next = first_or n xs })))
      × Linked es (some x.1) xs n

  -- The index is none of the items'.
  abbrev pub Unused : ℕ → List (Item K V) → Type 0
  Unused i = All (λ x. (x.1 == i) ≡ false)

  abbrev pub IndicesApart : List (Item K V) → Type 0
  IndicesApart [] = Unit
  IndicesApart (x ∷ xs) = Unused x.1 xs × IndicesApart xs

  pub Linked-frame :
      (es fs : List (Option (CacheEntry V))) (p n : Option ℕ) (xs : List (Item K V))
      → All (λ x. get_elem? fs x.1 ≡ get_elem? es x.1) xs
      → Linked es p xs n
      → Linked fs p xs n
  Linked-frame es fs p n [] same h = tt
  Linked-frame es fs p n (x ∷ xs) same h =
      (same.0 ∙ h.0, Linked-frame es fs (some x.1) n xs same.1 h.1)

  pub Linked-append :
      (es : List (Option (CacheEntry V))) (p n : Option ℕ) (xs ys : List (Item K V))
      → Linked es p xs (first_or n ys)
      → Linked es (last_or p xs) ys n
      → Linked es p (xs ++ ys) n
  Linked-append es p n [] ys h k = k
  Linked-append es p n (x ∷ []) ys h k = (h.0, k)
  Linked-append es p n (x ∷ (x' ∷ xs)) ys h k =
      (h.0, Linked-append es (some x.1) n (x' ∷ xs) ys h.1 k)

  pub Linked-split :
      (es : List (Option (CacheEntry V))) (p n : Option ℕ) (xs ys : List (Item K V))
      → Linked es p (xs ++ ys) n
      → Linked es p xs (first_or n ys) × Linked es (last_or p xs) ys n
  Linked-split es p n [] ys h = (tt, h)
  Linked-split es p n (x ∷ []) ys h = ((h.0, tt), h.1)
  Linked-split es p n (x ∷ (x' ∷ xs)) ys h =
      let rest = Linked-split es (some x.1) n (x' ∷ xs) ys h.1 in ((h.0, rest.0), rest.1)

  pub Updated-Linked :
      (es fs : List (Option (CacheEntry V))) (a : ℕ) (f : CacheEntry V → CacheEntry V)
      (p n : Option ℕ) (xs : List (Item K V))
      → Updated es fs a f
      → Unused a xs
      → Linked es p xs n
      → Linked fs p xs n
  Updated-Linked es fs a f p n [] up unused h = tt
  Updated-Linked es fs a f p n (x ∷ xs) up unused h =
      let other : (a == x.1) ≡ false = ground (arith, unused.0) in
      let same : get_elem? fs x.1 ≡ get_elem? es x.1 = up x.1 ∙ (rw (other) refl) in
      (same ∙ h.0, Updated-Linked es fs a f (some x.1) n xs up unused.1 h.1)

  pub Unused-last :
      (i a : ℕ) (xs : List (Item K V)) → Unused i xs → last_or none xs ≡ some a → (a == i) ≡ false
  Unused-last i a [] h e = absurd (cc)
  Unused-last i a (x ∷ []) h e =
      let same : x.1 ≡ a = cc in subst (λ (j : ℕ). (j == i) ≡ false) same h.0
  Unused-last i a (x ∷ (y ∷ ys)) h e = Unused-last i a (y ∷ ys) h.1 e

  -- The last item is linked to what now follows.
  pub relink_last :
      (es fs : List (Option (CacheEntry V))) (a : ℕ) (p m n : Option ℕ) (xs : List (Item K V))
      → Updated es fs a (with_next n)
      → last_or none xs ≡ some a
      → IndicesApart xs
      → Linked es p xs m
      → Linked fs p xs n
  relink_last es fs a p m n [] up e apart h = absurd (cc)
  relink_last es fs a p m n (x ∷ []) up e apart h =
      let same : a ≡ x.1 = cc in
      let here : get_elem? fs x.1 ≡ map_entry (map_entry (with_next n)) (get_elem? es a) =
        up x.1 ∙ (rw (same, beq_refl x.1) refl) in
      (here ∙ (rw (same, h.0) refl), tt)
  relink_last es fs a p m n (x ∷ (y ∷ ys)) up e apart h =
      let other : (a == x.1) ≡ false = Unused-last x.1 a (y ∷ ys) apart.0 e in
      let same : get_elem? fs x.1 ≡ get_elem? es x.1 = up x.1 ∙ (rw (other) refl) in
      (same ∙ h.0, relink_last es fs a (some x.1) m n (y ∷ ys) up e apart.1 h.1)

  -- The first item is linked to what now stands before it.
  pub relink_first :
      (es fs : List (Option (CacheEntry V))) (p q n : Option ℕ) (x : Item K V)
      (xs : List (Item K V))
      → Updated es fs x.1 (with_prev q)
      → Unused x.1 xs
      → Linked es p (x ∷ xs) n
      → Linked fs q (x ∷ xs) n
  relink_first es fs p q n x xs up unused h =
      let here : get_elem? fs x.1 ≡ map_entry (map_entry (with_prev q)) (get_elem? es x.1) =
        up x.1 ∙ (rw (beq_refl x.1) refl) in
      (here ∙ (rw (h.0) refl), Updated-Linked es fs x.1 (with_prev q) (some x.1) n xs up unused h.1)
