-- ===== src/Crypto/Threshold/Split.antt =====
-- crypto/threshold.rs: the parameters and the shares of a secret.
use ryther_core.Base.{
  ℕ, zero, suc, ◌+◌, ◌-◌, ◌*◌, ◌/◌, ◌%◌, ◌^◌, ◌<◌, ◌≤◌, ◌≡◌, refl, ap, ◌∙◌, arith, inr, some, List,
  [], ◌∷◌, eqb, if◌then◌else◌, length, ltb, false,
}
use ryther_core.Crypto.Xor.{xor-xor, zero_xor}
use ryther_core.Crypto.Threshold.{
  SecretShare, ThresholdParams, new_params, bft_safe, field_add, shares_from, draw, split,
  reconstruct, interpolate, basis, compute_lambda, field_mul_lambda,
}
use ryther_core.Crypto.Threshold.Field.{
  IsElement, field_add-IsElement, field_mul_scalar_lem, evaluate_polynomial_lem, xor_all,
}

accepted :
    (n t : ℕ) → 0 < t → t ≤ n → new_params n t ≡ inr (record { total_shares = n; threshold = t })
unfolding new_params
accepted n t h g =
    let more : eqb t 0 ≡ false = ground arith in
    let enough : ltb n t ≡ false = ground arith in rw (more, enough) refl

-- For at least one and fewer than 2 ^ 31 validators, `new` accepts the parameters that `bft_safe`
-- makes, and the threshold is the least number above two thirds of the validators.
bft_safe-new_params :
    (n : ℕ)
    → 0 < n
    → n < 2 ^ 31
    → (new_params n (bft_safe n).threshold ≡ inr (bft_safe n))
      × (2 * n < 3 * (bft_safe n).threshold)
      × (3 * ((bft_safe n).threshold - 1) ≤ 2 * n)
unfolding bft_safe
bft_safe-new_params n h g = (
  accepted n ((n * 2 % 2 ^ 32 / 3 + 1) % 2 ^ 32) (omega arith) (omega arith),
  omega arith,
  omega arith,
)

-- The shares of `validators` from the point `x` on, when a share at an odd point is `common` and
-- one at an even point is `secret`.
abbrev pub two_values : ℕ → ℕ → ℕ → ℕ → List ℕ → List SecretShare
two_values secret common x zero validators = []
two_values secret common x (suc n) [] = []
two_values secret common x (suc n) (v ∷ validators) =
    record { index = x; value = if eqb (x % 2) 1 then common else secret; holder = v }
    ∷ two_values secret common (x + 1) n validators

shares_from-two_values :
    (secret x n : ℕ) (coefs validators : List ℕ)
    → IsElement secret
    → n ≤ length validators
    → shares_from (secret ∷ coefs) x n validators
      ≡ some (two_values secret (xor_all (secret ∷ coefs)) x n validators)
unfolding shares_from
shares_from-two_values secret x zero coefs validators h g = refl
shares_from-two_values secret x (suc n) coefs [] h g = absurd (omega arith)
shares_from-two_values secret x (suc n) coefs (v ∷ validators) h g =
    rw
      (
        shares_from-two_values secret (x + 1) n coefs validators h (omega arith),
        evaluate_polynomial_lem x secret coefs h,
      )
      refl

-- Between the points 1 and 2 both coefficients are 127, an odd number.
reconstruct_two :
    (n a b v w : ℕ) (shares : List SecretShare)
    → IsElement a
    → IsElement b
    → reconstruct
        (record { total_shares = n; threshold = 2 })
        (record { index = 1; value = a; holder = v }
          ∷ record { index = 2; value = b; holder = w }
          ∷ shares)
      ≡ inr (field_add a b)
unfolding reconstruct interpolate basis compute_lambda field_mul_lambda field_add
reconstruct_two n a b v w shares ha hb =
    let enough : ltb (suc (suc (length shares))) 2 ≡ false = ground arith in
    rw (enough, field_mul_scalar_lem a 127 ha, field_mul_scalar_lem b 127 hb, zero_xor 256 a ha)
      refl

module _ {ℓ} {Rng : Type ℓ} (fill : Rng → ℕ × Rng) where
  -- With a validator for every share and a secret of 32 bytes, `split` succeeds, and the shares
  -- take two values only, whatever the threshold: every share at an even index is the secret
  -- itself, and every share at an odd index is the exclusive or of all the coefficients.
  pub split-two_values :
      (params : ThresholdParams) (rng : Rng) (secret : ℕ) (validators : List ℕ)
      → IsElement secret
      → params.total_shares ≤ length validators
      → let (coefs, rng2) = draw fill (params.threshold - 1) rng in
        split fill params rng secret validators
        ≡ some (two_values secret (xor_all (secret ∷ coefs)) 1 params.total_shares validators, rng2)
  unfolding split
  split-two_values params rng secret validators h g =
      let enough : ltb (length validators) params.total_shares ≡ false = ground arith in
      let coefs = (draw fill (params.threshold - 1) rng).0 in
      rw (enough, shares_from-two_values secret 1 params.total_shares coefs validators h g) refl

  -- Of the shares of a sharing with threshold 2, in their order, `reconstruct` gives the random
  -- coefficient that was drawn, not the secret: for at least 2 shares, a validator for each, and
  -- a secret and a drawn coefficient of 32 bytes.
  pub reconstruct-split :
      (n : ℕ) (rng : Rng) (secret : ℕ) (validators : List ℕ)
      → IsElement secret
      → IsElement (fill rng).0
      → 2 ≤ n
      → n ≤ length validators
      → let params : ThresholdParams = record { total_shares = n; threshold = 2 } in
        (shares : List SecretShare) × (split fill params rng secret validators
          ≡ some (shares, (fill rng).1))
        × (reconstruct params shares ≡ inr (fill rng).0)
  unfolding draw xor_all field_add
  reconstruct-split zero rng secret validators hs hc few enough = absurd (omega arith)
  reconstruct-split (suc zero) rng secret validators hs hc few enough = absurd (omega arith)
  reconstruct-split (suc (suc n)) rng secret [] hs hc few enough = absurd (omega arith)
  reconstruct-split (suc (suc n)) rng secret (v ∷ []) hs hc few enough = absurd (omega arith)
  reconstruct-split (suc (suc n)) rng secret (v ∷ w ∷ validators) hs hc few enough =
      let all = xor_all (secret ∷ (fill rng).0 ∷ []) in
      let params : ThresholdParams = record { total_shares = suc (suc n); threshold = 2 } in
      let rest = two_values secret all 3 n validators in
      (
        two_values secret all 1 (suc (suc n)) (v ∷ w ∷ validators),
        split-two_values params rng secret (v ∷ w ∷ validators) hs enough,
        reconstruct_two (suc (suc n)) all secret v w rest
              (field_add-IsElement (xor_all ((fill rng).0 ∷ [])) secret) hs
            ∙ ap inr (
                xor-xor 256 (field_add 0 (fill rng).0) secret (field_add-IsElement 0 (fill rng).0)
                ∙ zero_xor 256 (fill rng).0 hc),
      )
