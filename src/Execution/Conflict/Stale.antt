-- ===== src/Execution/Conflict/Stale.antt =====
-- What the conflict test of execution/conflict.rs decides about a result and those before it.
use mathlib.Core.List.{Memᴰ}
use mathlib.Core.List.Memᴰ
use ryther_core.Base.{
  ℕ, ◌<◌, ◌≤◌, ◌≡◌, refl, inl, inr, List, [], ◌∷◌, Option, some, true, false, arith, Bool-cases,
  Option-cases, All, ap,
}
use ryther_core.Dict.{contains_key}
use ryther_core.Types.Uint.{U256, StateKey, key_eq}
use ryther_core.Types.State.{ExecutionResult}
use ryther_core.Execution.Conflict.{is_stale}
use ryther_core.Execution.Conflict.Judge.{latest, stale}

-- `r` read `key` at a version that `s` has overwritten before `r`.
pub record Overwrites (s r : ExecutionResult) : Type 0 where
  pub key : StateKey
  pub value : Option U256
  pub version : ℕ
  pub was_read : Memᴰ (key, (value, version)) r.read_set.reads
  pub is_written : contains_key key s.write_set.writes ≡ true
  pub newer : version < s.tx_seq
  pub earlier : s.tx_seq < r.tx_seq

-- No earlier result in the list has overwritten what `r` read.
abbrev pub IsClean : List ExecutionResult → ExecutionResult → Type 0
IsClean history r = (s : ExecutionResult) → Memᴰ s history → ¬ Overwrites s r

-- Each result is clean with regard to those before it.
abbrev pub IsSerial : List ExecutionResult → List ExecutionResult → Type 0
IsSerial history [] = Unit {0}
IsSerial history (r ∷ results) = IsClean history r × IsSerial (r ∷ history) results

abbrev pub IsBlocked : List ExecutionResult → ExecutionResult → Type 0
IsBlocked committed r = (s : ExecutionResult) × Memᴰ s committed × Overwrites s r

-- Newest first.
abbrev pub Falling : List ExecutionResult → Type 0
Falling [] = Unit {0}
Falling (r ∷ history) = All (λ s. s.tx_seq < r.tx_seq) history × Falling history

pub All-Memᴰ {ℓ κ} :
    {A : Type ℓ} (P : A → Type κ) (xs : List A) (x : A) → All P xs → Memᴰ x xs → P x
All-Memᴰ P [] x a m = absurd (Memᴰ.not-nil m)
All-Memᴰ P (y ∷ xs) x a m = elim (Memᴰ.cases_cons m) [
  | inl e ↦ rw e a.0
  | inr later ↦ All-Memᴰ P xs x a.1 later
]

latest-origin :
    (key : StateKey) (history : List ExecutionResult) (q : ℕ)
    → latest key history ≡ some q
    → (s : ExecutionResult) × Memᴰ s history
      × (contains_key key s.write_set.writes ≡ true)
      × (s.tx_seq ≡ q)
unfolding latest
latest-origin key [] q e = absurd (cc e)
latest-origin key (r ∷ history) q e = elim (Bool-cases (contains_key key r.write_set.writes)) [
  | inl here ↦ (r, Memᴰ.head refl, here, ground (arith, e))
  | inr there ↦
      let (s, m, w, eq) = latest-origin key history q (ground (arith, e)) in (s, Memᴰ.tail m, w, eq)
]

latest-le :
    (key : StateKey) (history : List ExecutionResult) (s : ExecutionResult)
    → Falling history
    → Memᴰ s history
    → contains_key key s.write_set.writes ≡ true
    → (q : ℕ) × (latest key history ≡ some q) × (s.tx_seq ≤ q)
unfolding latest
latest-le key [] s f m w = absurd (Memᴰ.not-nil m)
latest-le key (r ∷ history) s f m w = elim (Bool-cases (contains_key key r.write_set.writes)) [
  | inl here ↦ elim (Memᴰ.cases_cons m) [
    | inl e ↦ (r.tx_seq, rw here refl, rw e (omega arith))
    | inr later ↦
        let below = All-Memᴰ (λ t. t.tx_seq < r.tx_seq) history s f.0 later in
        (r.tx_seq, rw here refl, omega arith)
  ]
  | inr there ↦ elim (Memᴰ.cases_cons m) [
    | inl e ↦ absurd (ground (arith, e, there, w))
    | inr later ↦ rw there (latest-le key history s f.1 later w)
  ]
]

stale-reason :
    (history : List ExecutionResult) (tx_seq : ℕ) (reads : List (StateKey × (Option U256 × ℕ)))
    → stale history tx_seq reads ≡ true
    → (key : StateKey) × (value : Option U256) × (version : ℕ) × Memᴰ (key, (value, version)) reads
      × (is_stale tx_seq version (latest key history) ≡ true)
unfolding stale
stale-reason history tx_seq [] e = absurd (cc e)
stale-reason history tx_seq ((key, (value, version)) ∷ reads) e =
    elim (Bool-cases (is_stale tx_seq version (latest key history))) [
      | inl here ↦ (key, value, version, Memᴰ.head refl, here)
      | inr there ↦
          let (k, v, n, m, found) = stale-reason history tx_seq reads (ground (arith, e, there)) in
          (k, v, n, Memᴰ.tail m, found)
    ]

not_stale :
    (history : List ExecutionResult) (tx_seq : ℕ) (reads : List (StateKey × (Option U256 × ℕ)))
    (key : StateKey) (value : Option U256) (version : ℕ)
    → stale history tx_seq reads ≡ false
    → Memᴰ (key, (value, version)) reads
    → is_stale tx_seq version (latest key history) ≡ false
unfolding stale
not_stale history tx_seq [] key value version e m = absurd (Memᴰ.not-nil m)
not_stale history tx_seq ((k, (v, n)) ∷ reads) key value version e m =
    elim (Bool-cases (is_stale tx_seq n (latest k history))) [
      | inl here ↦ absurd (ground (arith, e, here))
      | inr there ↦ elim (Memᴰ.cases_cons m) [
        | inl eq ↦
            let ek : key ≡ k = ap (λ t. t.0) eq in
            let en : version ≡ n = ap (λ t. t.1.1) eq in rw (ek, en) there
        | inr later ↦
            not_stale history tx_seq reads key value version (ground (arith, e, there)) later
      ]
    ]

pub clean :
    (history : List ExecutionResult) (r : ExecutionResult)
    → Falling history
    → All (λ s. s.tx_seq < r.tx_seq) history
    → stale history r.tx_seq r.read_set.reads ≡ false
    → IsClean history r
clean history r f below e s m o =
    let (q, newest, above) = latest-le o.key history s f m o.is_written in
    let (t, mt, wt, eq) = latest-origin o.key history q newest in
    let earlier = All-Memᴰ (λ u. u.tx_seq < r.tx_seq) history t below mt in
    let kept = not_stale history r.tx_seq r.read_set.reads o.key o.value o.version e o.was_read in
    let newer = o.newer in ground (arith, rw newest at kept, eq, above, earlier, newer)

pub blocked :
    (history : List ExecutionResult) (r : ExecutionResult)
    → stale history r.tx_seq r.read_set.reads ≡ true
    → IsBlocked history r
blocked history r e =
    let (key, value, version, m, found) = stale-reason history r.tx_seq r.read_set.reads e in
    elim (Option-cases (latest key history)) [
      | inl none_yet ↦ absurd (ground (arith, found, none_yet))
      | inr (q, newest) ↦
          let (s, ms, w, eq) = latest-origin key history q newest in
          let stale_at = rw newest at found in
          (
            s,
            ms,
            record {
              key = key;
              value = value;
              version = version;
              was_read = m;
              is_written = w;
              newer = ground (arith, stale_at, eq);
              earlier = ground (arith, stale_at, eq);
            },
          )
    ]
