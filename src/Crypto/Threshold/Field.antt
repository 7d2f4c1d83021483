-- ===== src/Crypto/Threshold/Field.antt =====
-- crypto/threshold.rs: what the arithmetic of the "field" computes. Doubling by exclusive or gives
-- 0, so a product by a scalar is the number itself or 0.
use mathlib.Core.List.{reverse, reverse-cons}
use native.Mathlib.Nat.{pow-suc}
use ryther_core.Base.{
  ℕ, zero, suc, ◌/◌, ◌%◌, ◌^◌, ◌<◌, ◌≡◌, refl, ap, ◌∙◌, arith, inl, inr, Bool, true, false, List,
  [], ◌∷◌, ◌++◌, eqb, if◌then◌else◌, Bool-cases,
}
use ryther_core.Crypto.Xor.{xor_self, xor-lt, xor_zero, zero_xor}
use ryther_core.Crypto.Threshold.{
  field_add, mul_loop, field_mul_scalar, horner, evaluate_polynomial,
}

-- An array of 32 bytes.
abbrev pub IsElement : ℕ → Type 0
IsElement a = a < 2 ^ 256

pub field_add-IsElement : (a b : ℕ) → IsElement (field_add a b)
unfolding field_add
field_add-IsElement a b = xor-lt 256 a b

same_if : (b : Bool) (r : ℕ) → (if b then r else r) ≡ r
same_if true r = refl
same_if false r = refl

mul_loop_zero : (fuel s r : ℕ) → IsElement r → mul_loop fuel s 0 r ≡ r
unfolding mul_loop field_add
mul_loop_zero zero s r h = refl
mul_loop_zero (suc fuel) s r h = elim (Bool-cases (eqb (s % 2) 1)) [
  | inl odd ↦
      rw (odd, xor_self 256 0, xor_zero 256 r h, mul_loop_zero fuel (s / 2) r h)
        (same_if (eqb s 0) r)
  | inr even ↦ rw (even, xor_self 256 0, mul_loop_zero fuel (s / 2) r h) (same_if (eqb s 0) r)
]

-- Enough fuel for the bits of the scalar: more changes nothing.
mul_loop_enough :
    (fuel other s acc r : ℕ)
    → s < 2 ^ fuel
    → s < 2 ^ other
    → mul_loop fuel s acc r ≡ mul_loop other s acc r
unfolding mul_loop
mul_loop_enough zero zero s acc r h g = refl
mul_loop_enough zero (suc other) zero acc r h g = refl
mul_loop_enough zero (suc other) (suc s) acc r h g = absurd (omega arith)
mul_loop_enough (suc fuel) zero zero acc r h g = refl
mul_loop_enough (suc fuel) zero (suc s) acc r h g = absurd (omega arith)
mul_loop_enough (suc fuel) (suc other) s acc r h g =
    ap (λ t. if eqb s 0 then r else t)
      (mul_loop_enough fuel other (s / 2) (field_add acc acc)
        (if eqb (s % 2) 1 then field_add r acc else r) (omega (arith, pow-suc 2 fuel))
        (omega (arith, pow-suc 2 other)))

mul_loop_lem :
    (fuel a s : ℕ) → IsElement a → mul_loop (suc fuel) s a 0 ≡ (if eqb (s % 2) 1 then a else 0)
unfolding mul_loop field_add
mul_loop_lem fuel a zero h = refl
mul_loop_lem fuel a (suc s) h =
    let more : eqb (suc s) 0 ≡ false = ground arith in
    elim (Bool-cases (eqb (suc s % 2) 1)) [
      | inl odd ↦
          rw (more, odd, xor_self 256 a, zero_xor 256 a h) (mul_loop_zero fuel (suc s / 2) a h)
      | inr even ↦ rw (more, even, xor_self 256 a) (mul_loop_zero fuel (suc s / 2) 0 (omega arith))
    ]

pub field_mul_scalar_lem :
    (a s : ℕ) → IsElement a → field_mul_scalar a s ≡ (if eqb (s % 2) 1 then a else 0)
unfolding field_mul_scalar
field_mul_scalar_lem a s h = mul_loop_lem 31 a s h

pub evaluate_polynomial-cons :
    (x c : ℕ) (cs : List ℕ)
    → evaluate_polynomial (c ∷ cs) x ≡ field_add (field_mul_scalar (evaluate_polynomial cs x) x) c
unfolding evaluate_polynomial horner
evaluate_polynomial-cons x c cs = rw (reverse-cons c cs) (last_step 0 (reverse cs))
  where
    last_step :
        (r : ℕ) (l : List ℕ)
        → horner x r (l ++ (c ∷ [])) ≡ field_add (field_mul_scalar (horner x r l) x) c
    last_step r [] = refl
    last_step r (d ∷ l) = last_step (field_add (field_mul_scalar r x) d) l

pub evaluate_polynomial-IsElement : (x : ℕ) (cs : List ℕ) → IsElement (evaluate_polynomial cs x)
unfolding evaluate_polynomial horner
evaluate_polynomial-IsElement x [] = omega arith
evaluate_polynomial-IsElement x (c ∷ cs) =
    rw (evaluate_polynomial-cons x c cs)
      (field_add-IsElement (field_mul_scalar (evaluate_polynomial cs x) x) c)

unfoldable pub xor_all : List ℕ → ℕ
xor_all [] = 0
xor_all (c ∷ cs) = field_add (xor_all cs) c

-- At an odd point every power of the point counts as 1.
evaluate_polynomial_odd :
    (x : ℕ) (cs : List ℕ) → eqb (x % 2) 1 ≡ true → evaluate_polynomial cs x ≡ xor_all cs
unfolding xor_all evaluate_polynomial horner
evaluate_polynomial_odd x [] odd = refl
evaluate_polynomial_odd x (c ∷ cs) odd =
    let product =
      field_mul_scalar_lem (evaluate_polynomial cs x) x (evaluate_polynomial-IsElement x cs) in
    evaluate_polynomial-cons x c cs
    ∙ ap (λ t. field_add t c)
        (product
          ∙ ap (λ b. if b then evaluate_polynomial cs x else 0) odd
          ∙ evaluate_polynomial_odd x cs odd)

pub evaluate_polynomial_lem :
    (x c : ℕ) (cs : List ℕ)
    → IsElement c
    → evaluate_polynomial (c ∷ cs) x ≡ (if eqb (x % 2) 1 then xor_all (c ∷ cs) else c)
unfolding field_add
evaluate_polynomial_lem x c cs h = elim (Bool-cases (eqb (x % 2) 1)) [
  | inl odd ↦ rw (odd) (evaluate_polynomial_odd x (c ∷ cs) odd)
  | inr even ↦
      let product =
        field_mul_scalar_lem (evaluate_polynomial cs x) x (evaluate_polynomial-IsElement x cs) in
      rw (even, evaluate_polynomial-cons x c cs, product, even) (zero_xor 256 c h)
]
