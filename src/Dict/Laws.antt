-- ===== src/Dict/Laws.antt =====
-- The laws of the maps and sets, with tests in place of side conditions.
use ryther_core.Base.{
  ◌≡◌, refl, true, false, none, some, List, [], ◌∷◌, Eq, ◌==◌, if◌then◌else◌, arith, beq_refl,
  Bool-cases, inl, inr, ◌⊎◌,
}
use ryther_core.Dict.{get, contains_key, insert, remove, Distinct, contains, add, Unique, keys}

module _ {ℓ κ} {K : Type ℓ} {V : Type κ} ⦃e : Eq K⦄ where
  pub get-insert :
      (j k : K) (v : V) (m : List (K × V))
      → get j (insert k v m) ≡ (if k == j then some v else get j m)
  unfolding get insert
  get-insert j k v [] = refl
  get-insert j k v ((i, w) ∷ m) =
      ground (arith, e.beq_iff k j, e.beq_iff i k, e.beq_iff i j, get-insert j k v m)

  pub get-insert_self : (k : K) (v : V) (m : List (K × V)) → get k (insert k v m) ≡ some v
  get-insert_self k v m = rw (get-insert, beq_refl)

  pub get-insert_ne :
      (j k : K) (v : V) (m : List (K × V)) → (k == j) ≡ false → get j (insert k v m) ≡ get j m
  get-insert_ne j k v m h = rw (get-insert, h)

  pub get-remove :
      (j k : K) (m : List (K × V)) → get j (remove k m) ≡ (if k == j then none else get j m)
  unfolding get remove
  get-remove j k [] = ground arith
  get-remove j k ((i, w) ∷ m) =
      ground (arith, e.beq_iff k j, e.beq_iff i k, e.beq_iff i j, get-remove j k m)

  pub contains_key-eq-true :
      (k : K) (m : List (K × V)) (v : V) → get k m ≡ some v → contains_key k m ≡ true
  unfolding get contains_key
  contains_key-eq-true k [] v h = ground arith
  contains_key-eq-true k ((j, w) ∷ m) v h = ground (arith, contains_key-eq-true k m v)

  pub contains_key-eq-false : (k : K) (m : List (K × V)) → get k m ≡ none → contains_key k m ≡ false
  unfolding get contains_key
  contains_key-eq-false k [] h = refl
  contains_key-eq-false k ((j, w) ∷ m) h = ground (arith, contains_key-eq-false k m)

  pub contains_key-insert :
      (j k : K) (v : V) (m : List (K × V))
      → contains_key j (insert k v m) ≡ (if k == j then true else contains_key j m)
  unfolding contains_key insert
  contains_key-insert j k v [] = refl
  contains_key-insert j k v ((i, w) ∷ m) =
      ground (arith, e.beq_iff k j, e.beq_iff i k, e.beq_iff i j, contains_key-insert j k v m)

  pub contains-keys : (k : K) (m : List (K × V)) → contains k (keys m) ≡ contains_key k m
  unfolding contains contains_key
  contains-keys k [] = refl
  contains-keys k ((j, w) ∷ m) = ground (arith, contains-keys k m)

  pub insert-Distinct : (k : K) (v : V) (m : List (K × V)) → Distinct m → Distinct (insert k v m)
  unfolding get insert
  insert-Distinct k v [] h = (refl, tt)
  insert-Distinct k v ((i, w) ∷ m) h =
      ground (arith, e.beq_iff i k, e.beq_iff k i, get-insert i k v m, insert-Distinct k v m h.1)

  pub remove-Distinct : (k : K) (m : List (K × V)) → Distinct m → Distinct (remove k m)
  unfolding get remove
  remove-Distinct k [] h = tt
  remove-Distinct k ((i, w) ∷ m) h =
      ground (arith, e.beq_iff i k, get-remove i k m, remove-Distinct k m h.1)

  pub remove_absent : (k : K) (v : V) (m : List (K × V)) → get k m ≡ none → remove k m ≡ m
  unfolding get remove
  remove_absent k v [] h = refl
  remove_absent k v ((i, w) ∷ m) h = ground (arith, remove_absent k v m)

module _ {ℓ} {A : Type ℓ} ⦃e : Eq A⦄ where
  pub contains-add :
      (a b : A) (xs : List A) → contains b (add a xs) ≡ (if a == b then true else contains b xs)
  unfolding add contains
  contains-add a b xs = ground (arith, e.beq_iff a b)

  pub add-Unique : (a : A) (xs : List A) → Unique xs → Unique (add a xs)
  unfolding add contains
  add-Unique a xs h = ground arith

-- An entry of a map after an insertion is the new one or an old one.
pub get-insert_cases {ℓ κ} :
    {K : Type ℓ} {V : Type κ} ⦃e : Eq K⦄ (j k : K) (v : V) (m : List (K × V)) (w : V)
    → get j (insert k v m) ≡ some w
    → ((k ≡ j) × (v ≡ w)) ⊎ (((k == j) ≡ false) × (get j m ≡ some w))
get-insert_cases ⦃e⦄ j k v m w h = elim (Bool-cases (k == j)) [
  | inl eq ↦
      let found : some v ≡ some w = rw (get-insert j k v m, eq) at h in
      inl ((e.beq_iff k j).0 eq, cc found)
  | inr ne ↦ inr (ne, rw (get-insert j k v m, ne) at h)
]
