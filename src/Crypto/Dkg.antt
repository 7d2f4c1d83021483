-- ===== src/Crypto/Dkg.antt =====
-- crypto/threshold.rs, `DkgSession`: the exchange of commitments and shares. `sha256` and the
-- random generator are parameters.
pub mod Combine
use ryther_core.Base.{
  ℕ, zero, suc, ◌+◌, ◌%◌, ◌^◌, Bool, true, Option, none, some, List, [], ◌∷◌, map, leb,
  if◌then◌else◌, sub64, length, get_elem?, nat_eq,
}
use ryther_core.Bytes.{be_bytes}
use ryther_core.Dict.{insert, values}
use ryther_core.Crypto.Threshold.{
  SecretShare, ThresholdParams, bft_safe, field_add, evaluate_polynomial, draw,
}

pub record DkgSession : Type 0 where
  pub id : ℕ
  pub params : ThresholdParams
  pub validators : List ℕ
  pub commitments : List (ℕ × List ℕ)
  pub received_shares : List (ℕ × SecretShare)
  pub our_polynomial : Option (List ℕ)

unfoldable pub new_session : ℕ → List ℕ → DkgSession
unfolding bft_safe
new_session session_id validators = record {
  id = session_id;
  params = bft_safe (length validators % 2 ^ 32);
  validators = validators;
  commitments = [];
  received_shares = [];
  our_polynomial = none;
}

-- The commitments to broadcast, and the session with the polynomial.
unfoldable pub generate_contribution {ℓ} :
    {Rng : Type ℓ} (fill : Rng → ℕ × Rng) (sha256 : List ℕ → ℕ)
    → Rng
    → DkgSession
    → List ℕ × DkgSession
unfolding draw
generate_contribution fill sha256 rng d =
    let polynomial = (draw fill d.params.threshold rng).0 in
    (
      map (λ coef. sha256 (be_bytes 32 coef)) polynomial,
      record d { our_polynomial = some polynomial },
    )

unfoldable pub receive_commitment : ℕ → List ℕ → DkgSession → DkgSession
receive_commitment dealer commitments d = record d {
  commitments = insert dealer commitments d.commitments;
}

-- The loop over the enumerated validators; each insertion replaces an earlier one of the same
-- validator.
unfoldable pub shares_for : List ℕ → ℕ → List ℕ → List (ℕ × SecretShare) → List (ℕ × SecretShare)
unfolding evaluate_polynomial
shares_for polynomial i [] shares = shares
shares_for polynomial i (v ∷ validators) shares =
    let x = (i + 1) % 2 ^ 32 in
    shares_for polynomial (i + 1) validators
      (insert v (record { index = x; value = evaluate_polynomial polynomial x; holder = v }) shares)

unfoldable pub generate_shares : DkgSession → List (ℕ × SecretShare)
unfolding shares_for
generate_shares d = elim d.our_polynomial [
  | none ↦ []
  | some polynomial ↦ shares_for polynomial 0 d.validators []
]

-- The commitments are looked up and a hash is computed, and neither has an effect.
unfoldable pub receive_share : ℕ → SecretShare → DkgSession → Bool × DkgSession
receive_share dealer share d =
    (true, record d { received_shares = insert dealer share d.received_shares })

unfoldable pub is_complete : DkgSession → Bool
is_complete d = leb d.params.threshold (length d.received_shares)

-- The loop over the received shares: the exclusive or of the values, and the last index.
unfoldable pub combine : List SecretShare → ℕ → ℕ → ℕ × ℕ
unfolding field_add
combine [] combined our_index = (combined, our_index)
combine (share ∷ shares) combined our_index =
    combine shares (field_add combined share.value) share.index

-- The share with the combined value and the last index, whose holder is `validators[index - 1]`.
unfoldable pub share_at : List ℕ → ℕ × ℕ → Option SecretShare
share_at validators (combined, our_index) = elim (get_elem? validators (sub64 our_index 1)) [
  | none ↦ none
  | some holder ↦ some (record { index = our_index; value = combined; holder = holder })
]

unfoldable pub finalize : DkgSession → Option SecretShare
unfolding is_complete combine share_at
finalize d =
    if is_complete d then share_at d.validators (combine (values d.received_shares) 0 1) else none
