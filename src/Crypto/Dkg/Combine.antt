-- ===== src/Crypto/Dkg/Combine.antt =====
-- crypto/threshold.rs, `DkgSession`: what `finalize` makes of the dealers' shares.
use ryther_core.Base.{
  ℕ, suc, ◌-◌, ◌%◌, ◌^◌, ◌<◌, ◌≤◌, ◌≡◌, refl, ap, sym, ◌∙◌, arith, inl, inr, none, some, List, [],
  ◌∷◌, map, eqb, if◌then◌else◌, sub64, length, get_elem?, All, Bool-cases, le→leb, length-map,
}
use ryther_core.Dict.{values}
use ryther_core.Crypto.Xor.{xor, xor_self, xor_swap, zero_xor}
use ryther_core.Crypto.Threshold.{
  SecretShare, field_add, field_mul_scalar, horner, evaluate_polynomial,
}
use ryther_core.Crypto.Threshold.Field.{
  IsElement, field_add-IsElement, field_mul_scalar_lem, evaluate_polynomial-cons,
  evaluate_polynomial-IsElement,
}
use ryther_core.Crypto.Dkg.{DkgSession, is_complete, combine, share_at, finalize}

-- The sum of two polynomials of one degree.
abbrev pub add_polynomials : List ℕ → List ℕ → List ℕ
add_polynomials [] q = []
add_polynomials (a ∷ p) [] = []
add_polynomials (a ∷ p) (b ∷ q) = field_add a b ∷ add_polynomials p q

abbrev pub sum_polynomials : List ℕ → List (List ℕ) → List ℕ
sum_polynomials p [] = p
sum_polynomials p (q ∷ polynomials) = sum_polynomials (add_polynomials p q) polynomials

field_mul_scalar-field_add :
    (a b x : ℕ)
    → IsElement a
    → IsElement b
    → field_mul_scalar (field_add a b) x ≡ field_add (field_mul_scalar a x) (field_mul_scalar b x)
unfolding field_add
field_mul_scalar-field_add a b x ha hb =
    rw
      (
        field_mul_scalar_lem (xor 256 a b) x (field_add-IsElement a b),
        field_mul_scalar_lem a x ha,
        field_mul_scalar_lem b x hb,
      )
      (elim (Bool-cases (eqb (x % 2) 1)) [
        | inl odd ↦ rw (odd) refl
        | inr even ↦ rw (even) (sym (xor_self 256 0))
      ])

evaluate_polynomial-add_polynomials :
    (x : ℕ) (p q : List ℕ)
    → length p ≡ length q
    → evaluate_polynomial (add_polynomials p q) x
      ≡ field_add (evaluate_polynomial p x) (evaluate_polynomial q x)
unfolding field_add evaluate_polynomial horner
evaluate_polynomial-add_polynomials x [] [] h = sym (xor_self 256 0)
evaluate_polynomial-add_polynomials x [] (b ∷ q) h = absurd (omega arith)
evaluate_polynomial-add_polynomials x (a ∷ p) [] h = absurd (omega arith)
evaluate_polynomial-add_polynomials x (a ∷ p) (b ∷ q) h =
    let eval_p = evaluate_polynomial p x in
    let eval_q = evaluate_polynomial q x in
    evaluate_polynomial-cons x (field_add a b) (add_polynomials p q)
    ∙ ap (λ t. field_add (field_mul_scalar t x) (field_add a b))
        (evaluate_polynomial-add_polynomials x p q (omega arith))
    ∙ ap (λ t. field_add t (field_add a b))
        (field_mul_scalar-field_add eval_p eval_q x (evaluate_polynomial-IsElement x p)
          (evaluate_polynomial-IsElement x q))
    ∙ xor_swap 256 (field_mul_scalar eval_p x) (field_mul_scalar eval_q x) a b
    ∙ ap (λ t. field_add t (field_add (field_mul_scalar eval_q x) b))
        (sym (evaluate_polynomial-cons x a p))
    ∙ ap (field_add (evaluate_polynomial (a ∷ p) x)) (sym (evaluate_polynomial-cons x b q))

abbrev deal : ℕ → ℕ → ℕ × List ℕ → ℕ × SecretShare
deal x holder d = (d.0, record { index = x; value = evaluate_polynomial d.1 x; holder = holder })

-- The shares that one validator has from the dealers, each with its polynomial.
abbrev pub dealt : ℕ → ℕ → List (ℕ × List ℕ) → List (ℕ × SecretShare)
dealt x holder = map (deal x holder)

length-add_polynomials :
    (p q : List ℕ) → length p ≡ length q → length (add_polynomials p q) ≡ length p
length-add_polynomials [] q h = refl
length-add_polynomials (a ∷ p) [] h = absurd (omega arith)
length-add_polynomials (a ∷ p) (b ∷ q) h = ap suc (length-add_polynomials p q (omega arith))

combine-dealt :
    (x holder : ℕ) (p : List ℕ) (dealers : List (ℕ × List ℕ))
    → All (λ d. length p ≡ length d.1) dealers
    → combine (values (dealt x holder dealers)) (evaluate_polynomial p x) x
      ≡ (evaluate_polynomial (sum_polynomials p (values dealers)) x, x)
unfolding combine
combine-dealt x holder p [] h = refl
combine-dealt x holder p (d ∷ dealers) (h, hs) =
    ap (λ t. combine (values (dealt x holder dealers)) t x)
      (sym (evaluate_polynomial-add_polynomials x p d.1 h))
    ∙ combine-dealt x holder (add_polynomials p d.1) dealers
        (rw (length-add_polynomials p d.1 h) hs)

share_at_lem :
    (validators : List ℕ) (value x holder : ℕ)
    → 1 ≤ x
    → x < 2 ^ 32
    → get_elem? validators (x - 1) ≡ some holder
    → share_at validators (value, x) ≡ some (record { index = x; value = value; holder = holder })
unfolding share_at
share_at_lem validators value x holder low high found =
    let place : sub64 x 1 ≡ x - 1 = omega arith in
    let at_place : get_elem? validators (sub64 x 1) ≡ some holder =
      ap (get_elem? validators) place ∙ found in
    rw (at_place, share_at) refl

-- The shares that one validator received from the dealers add up to its share of the sum of their
-- polynomials. When the session holds, from at least `threshold` dealers and from at least one,
-- the values of their polynomials, of one degree, at the index `x` of a validator, at least 1 and
-- a `u32`, `finalize` returns the value of the sum of the polynomials at `x`, with the index and
-- that validator as its holder.
pub finalize-sum_polynomials :
    (d : DkgSession) (x holder dealer : ℕ) (p : List ℕ) (dealers : List (ℕ × List ℕ))
    → 1 ≤ x
    → x < 2 ^ 32
    → get_elem? d.validators (x - 1) ≡ some holder
    → d.params.threshold ≤ suc (length dealers)
    → All (λ e. length p ≡ length e.1) dealers
    → d.received_shares ≡ dealt x holder ((dealer, p) ∷ dealers)
    → finalize d
      ≡ some (record {
        index = x;
        value = evaluate_polynomial (sum_polynomials p (values dealers)) x;
        holder = holder;
      })
unfolding finalize is_complete combine field_add
finalize-sum_polynomials d x holder dealer p dealers low high found enough same received =
    let start = zero_xor 256 (evaluate_polynomial p x) (evaluate_polynomial-IsElement x p) in
    let combined =
      ap (λ r. combine (values r) 0 1) received
      ∙ ap (λ t. combine (values (dealt x holder dealers)) t x) start
      ∙ combine-dealt x holder p dealers same in
    let size : length d.received_shares ≡ suc (length dealers) =
      ap length received ∙ length-map (deal x holder) ((dealer, p) ∷ dealers) in
    let complete = le→leb d.params.threshold (length d.received_shares) (omega arith) in
    ap (λ b. if b then share_at d.validators (combine (values d.received_shares) 0 1) else none)
      complete
    ∙ ap (share_at d.validators) combined
    ∙ share_at_lem d.validators (evaluate_polynomial (sum_polynomials p (values dealers)) x) x
        holder low high found
