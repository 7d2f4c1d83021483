-- ===== src/Bytes.antt =====
-- Numbers as byte strings: `to_le_bytes`, `to_be_bytes` and their inverses, for any width.
use mathlib.Core.List.{reverse, reverse-cons, reverse-reverse}
use native.Mathlib.Nat.{pow-suc}
use ryther_core.Base.{
  ℕ, zero, suc, ◌+◌, ◌*◌, ◌/◌, ◌%◌, ◌^◌, ◌<◌, ◌≡◌, refl, ap, List, [], ◌∷◌, ◌++◌, arith, length,
  take, drop, length-append,
}

unfoldable pub le_bytes : ℕ → ℕ → List ℕ
le_bytes zero x = []
le_bytes (suc n) x = x % 256 ∷ le_bytes n (x / 256)

unfoldable pub from_le_bytes : List ℕ → ℕ
from_le_bytes [] = 0
from_le_bytes (b ∷ bytes) = b + 256 * from_le_bytes bytes

unfoldable pub be_bytes : ℕ → ℕ → List ℕ
unfolding le_bytes
be_bytes n x = reverse (le_bytes n x)

unfoldable pub from_be_bytes : List ℕ → ℕ
unfolding from_le_bytes
from_be_bytes bytes = from_le_bytes (reverse bytes)

from_le_bytes-le_bytes : (n x : ℕ) → x < 256 ^ n → from_le_bytes (le_bytes n x) ≡ x
unfolding le_bytes from_le_bytes
from_le_bytes-le_bytes zero x h = omega arith
from_le_bytes-le_bytes (suc n) x h =
    omega (arith, pow-suc 256 n, from_le_bytes-le_bytes n (x / 256) (omega (arith, pow-suc 256 n)))

pub from_be_bytes-be_bytes : (n x : ℕ) → x < 256 ^ n → from_be_bytes (be_bytes n x) ≡ x
unfolding be_bytes from_be_bytes
from_be_bytes-be_bytes n x h = rw (reverse-reverse (le_bytes n x)) (from_le_bytes-le_bytes n x h)

length-le_bytes : (n x : ℕ) → length (le_bytes n x) ≡ n
unfolding le_bytes
length-le_bytes zero x = refl
length-le_bytes (suc n) x = ap suc (length-le_bytes n (x / 256))

module _ {ℓ} {A : Type ℓ} where
  length-reverse : (xs : List A) → length (reverse xs) ≡ length xs
  length-reverse [] = refl
  length-reverse (x ∷ xs) =
      rw (reverse-cons x xs, length-append (reverse xs) (x ∷ [])) (omega (arith, length-reverse xs))

  pub take-append : (n : ℕ) (xs ys : List A) → length xs ≡ n → take n (xs ++ ys) ≡ xs
  take-append zero [] ys h = refl
  take-append zero (x ∷ xs) ys h = absurd (omega arith)
  take-append (suc n) [] ys h = absurd (omega arith)
  take-append (suc n) (x ∷ xs) ys h = ap (◌∷◌ x) (take-append n xs ys (omega arith))

  pub drop-append : (m n : ℕ) (xs ys : List A) → length xs + n ≡ m → drop m (xs ++ ys) ≡ drop n ys
  drop-append m n [] ys h = rw (the_same) refl
    where
      the_same : m ≡ n
      the_same = omega arith
  drop-append zero n (x ∷ xs) ys h = absurd (omega arith)
  drop-append (suc m) n (x ∷ xs) ys h = drop-append m n xs ys (omega arith)

pub length-be_bytes : (n x : ℕ) → length (be_bytes n x) ≡ n
unfolding be_bytes
length-be_bytes n x = rw (length-reverse (le_bytes n x)) (length-le_bytes n x)
