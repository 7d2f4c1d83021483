-- ===== src/Crypto/Threshold.antt =====
-- crypto/threshold.rs: the sharing of a key and the encryption under it. `sha256` and the random
-- generator are parameters; an array of 32 bytes is a number below 2 ^ 256; `u32` and `i64` wrap
-- around, and an `i64` stands as the `u64` of the same bits.
pub mod Field
pub mod Split
pub mod Decrypt
use ryther_core.Base.{
  ℕ, zero, suc, ◌+◌, ◌-◌, ◌*◌, ◌/◌, ◌%◌, ◌^◌, ◌⊎◌, inl, inr, Bool, Option, none, some, List, [],
  ◌∷◌, ◌++◌, map, ltb, leb, eqb, if◌then◌else◌, sub64, mul64, length, take,
}
use mathlib.Core.List.{reverse}
use ryther_core.Bytes.{be_bytes, le_bytes}
use ryther_core.Crypto.Xor.{xor}

infixl 5 ◌>>=◌
abbrev ◌>>=◌ {ℓ κ} : {A : Type ℓ} {B : Type κ} → Option A → (A → Option B) → Option B
none >>= f = none
some a >>= f = f a

pub record SecretShare : Type 0 where
  pub index : ℕ
  pub value : ℕ
  pub holder : ℕ

pub record ThresholdParams : Type 0 where
  pub total_shares : ℕ
  pub threshold : ℕ

pub data ThresholdError : Type 0 where
  zero_threshold : ThresholdError
  threshold_exceeds_total : ThresholdError
  not_enough_shares : ThresholdError
  commitment_failed : ThresholdError

unfoldable pub new_params : ℕ → ℕ → ThresholdError ⊎ ThresholdParams
new_params total threshold =
    if eqb threshold 0
    then inl zero_threshold
    else (if ltb total threshold
        then inl threshold_exceeds_total
        else inr (record { total_shares = total; threshold = threshold }))

unfoldable pub bft_safe : ℕ → ThresholdParams
bft_safe validator_count = record {
  total_shares = validator_count;
  threshold = (validator_count * 2 % 2 ^ 32 / 3 + 1) % 2 ^ 32;
}

unfoldable pub field_add : ℕ → ℕ → ℕ
field_add a b = xor 256 a b

-- `while s > 0`; the first argument is the fuel.
unfoldable pub mul_loop : ℕ → ℕ → ℕ → ℕ → ℕ
unfolding field_add
mul_loop zero s acc result = result
mul_loop (suc fuel) s acc result =
    let rest =
      mul_loop fuel (s / 2) (field_add acc acc)
        (if eqb (s % 2) 1 then field_add result acc else result) in
    if eqb s 0 then result else rest

-- A `u32` is 0 after 32 halvings.
unfoldable pub field_mul_scalar : ℕ → ℕ → ℕ
unfolding mul_loop
field_mul_scalar a scalar = mul_loop 32 scalar a 0

-- The loop over the coefficients, the highest first.
unfoldable pub horner : ℕ → ℕ → List ℕ → ℕ
unfolding field_add field_mul_scalar
horner x result [] = result
horner x result (coef ∷ coefs) = horner x (field_add (field_mul_scalar result x) coef) coefs

unfoldable pub evaluate_polynomial : List ℕ → ℕ → ℕ
unfolding horner
evaluate_polynomial coefficients x = horner x 0 (reverse coefficients)

-- The loop over `0..total_shares`: `validators[i]` for one `i` after another; none where the index
-- would panic.
unfoldable pub shares_from : List ℕ → ℕ → ℕ → List ℕ → Option (List SecretShare)
unfolding evaluate_polynomial
shares_from coefs x zero validators = some []
shares_from coefs x (suc n) [] = none
shares_from coefs x (suc n) (v ∷ validators) = do
  shares ← shares_from coefs (x + 1) n validators
  some (record { index = x; value = evaluate_polynomial coefs x; holder = v } ∷ shares)

module _ {ℓ} {Rng : Type ℓ} (fill : Rng → ℕ × Rng) where
  -- The loop over `1..threshold`.
  unfoldable pub draw : ℕ → Rng → List ℕ × Rng
  draw zero rng = ([], rng)
  draw (suc n) rng =
      let (coef, rng2) = fill rng in let (coefs, rng3) = draw n rng2 in (coef ∷ coefs, rng3)

  -- None where the assertion fails.
  unfoldable pub split : ThresholdParams → Rng → ℕ → List ℕ → Option (List SecretShare × Rng)
  unfolding draw shares_from
  split params rng secret validators =
      let (coefs, rng2) = draw (params.threshold - 1) rng in
      if ltb (length validators) params.total_shares then none else do
        shares ← shares_from (secret ∷ coefs) 1 params.total_shares validators
        some (shares, rng2)

-- The sign, the absolute value and the negation of an `i64`.
abbrev pub is_negative : ℕ → Bool
is_negative n = leb (2 ^ 63) n

abbrev pub magnitude : ℕ → ℕ
magnitude n = if is_negative n then 2 ^ 64 - n else n

-- The inner loop: the numerator and the denominator of the basis polynomial of share `i` at 0.
unfoldable pub basis : ℕ → ℕ → ℕ → List SecretShare → ℕ → ℕ → ℕ × ℕ
basis i xi j [] numerator denominator = (numerator, denominator)
basis i xi j (share ∷ shares) numerator denominator =
    if eqb i j
    then basis i xi (j + 1) shares numerator denominator
    else basis i xi (j + 1) shares (mul64 numerator (sub64 0 share.index))
        (mul64 denominator (sub64 xi share.index))

-- The absolute value of the coefficient: its sign is not used after it. The remainder `num % 256`
-- has the sign of `num`.
unfoldable pub compute_lambda : ℕ → ℕ → ℕ
compute_lambda num den =
    let shifted =
      if is_negative num then 256 - magnitude num % 256 else magnitude num % 256 + 256 in
    if eqb den 0 then 0 else shifted / (magnitude den % 256 + 1)

unfoldable pub field_mul_lambda : ℕ → ℕ → ℕ
unfolding field_mul_scalar
field_mul_lambda a lambda = if eqb lambda 0 then 0 else field_mul_scalar a lambda

-- The outer loop.
unfoldable pub interpolate : List SecretShare → ℕ → List SecretShare → ℕ → ℕ
unfolding basis compute_lambda field_mul_lambda field_add
interpolate all i [] secret = secret
interpolate all i (share ∷ shares) secret =
    let (numerator, denominator) = basis i share.index 0 all 1 1 in
    let term = field_mul_lambda share.value (compute_lambda numerator denominator) in
    interpolate all (i + 1) shares (field_add secret term)

unfoldable pub reconstruct : ThresholdParams → List SecretShare → ThresholdError ⊎ ℕ
unfolding interpolate
reconstruct params shares =
    if ltb (length shares) params.threshold
    then inl not_enough_shares
    else (let used = take params.threshold shares in inr (interpolate used 0 used 0))

pub record EncryptedKeyShare : Type 0 where
  pub validator_index : ℕ
  pub encrypted_share : List ℕ

pub record EncryptedPayload : Type 0 where
  pub ciphertext : List ℕ
  pub nonce : ℕ
  pub commitment : ℕ
  pub key_shares : List EncryptedKeyShare

module _ (sha256 : List ℕ → ℕ) where
  -- The first byte of a hash.
  abbrev pub key_byte : ℕ → ℕ → ℕ → ℕ
  key_byte key nonce i =
      sha256 ((be_bytes 32 key ++ be_bytes 12 nonce) ++ le_bytes 8 i) / 256 ^ 31 % 256

  -- The loop over the enumerated bytes.
  unfoldable pub xor_from : ℕ → ℕ → ℕ → List ℕ → List ℕ
  xor_from key nonce i [] = []
  xor_from key nonce i (byte ∷ bytes) =
      xor 8 byte (key_byte key nonce i) ∷ xor_from key nonce (i + 1) bytes

  unfoldable pub xor_encrypt : List ℕ → ℕ → ℕ → List ℕ
  unfolding xor_from
  xor_encrypt plaintext key nonce = xor_from key nonce 0 plaintext

  abbrev pub encrypt_share : SecretShare → EncryptedKeyShare
  encrypt_share share = record {
    validator_index = share.index;
    encrypted_share = be_bytes 32 share.value;
  }

  abbrev pub sealed : ℕ → ℕ → List ℕ → List SecretShare → EncryptedPayload
  sealed key nonce plaintext shares = record {
    ciphertext = xor_encrypt plaintext key nonce;
    nonce = nonce;
    commitment = sha256 plaintext;
    key_shares = map encrypt_share shares;
  }

  -- `key` and `nonce` are what the thread's generator filled in.
  unfoldable pub encrypt {ℓ} :
      {Rng : Type ℓ} (fill : Rng → ℕ × Rng)
      → ThresholdParams
      → Rng
      → ℕ
      → ℕ
      → List ℕ
      → List ℕ
      → Option (EncryptedPayload × Rng)
  unfolding split xor_encrypt
  encrypt fill params rng key nonce plaintext validators = do
    done ← split fill params rng key validators
    some (sealed key nonce plaintext done.0, done.1)

  -- What `decrypt` does with the result of `reconstruct`.
  unfoldable pub opened : EncryptedPayload → ThresholdError ⊎ ℕ → ThresholdError ⊎ List ℕ
  unfolding xor_encrypt
  opened payload (inl e) = inl e
  opened payload (inr key) =
      let plaintext = xor_encrypt payload.ciphertext key payload.nonce in
      if eqb (sha256 plaintext) payload.commitment then inr plaintext else inl commitment_failed

  unfoldable pub decrypt :
      ThresholdParams → EncryptedPayload → List SecretShare → ThresholdError ⊎ List ℕ
  unfolding reconstruct opened
  decrypt params payload shares = opened payload (reconstruct params shares)
