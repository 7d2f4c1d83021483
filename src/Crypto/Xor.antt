-- ===== src/Crypto/Xor.antt =====
-- `^` on unsigned integers and on byte arrays of a fixed width: a number of `w` bits stands for
-- either, since exclusive or works bit by bit.
use native.Mathlib.Nat.{pow-suc}
use ryther_core.Base.{ℕ, zero, suc, ◌+◌, ◌*◌, ◌/◌, ◌%◌, ◌^◌, ◌<◌, ◌≡◌, refl, ap, sym, ◌∙◌, arith}

unfoldable pub xor : ℕ → ℕ → ℕ → ℕ
xor zero a b = 0
xor (suc w) a b = (a % 2 + b % 2) % 2 + 2 * xor w (a / 2) (b / 2)

pub xor_self : (w a : ℕ) → xor w a a ≡ 0
unfolding xor
xor_self zero a = refl
xor_self (suc w) a = omega (arith, xor_self w (a / 2))

pub xor-lt : (w a b : ℕ) → xor w a b < 2 ^ w
unfolding xor
xor-lt zero a b = omega arith
xor-lt (suc w) a b = omega (arith, xor-lt w (a / 2) (b / 2), pow-suc 2 w)

pub xor_zero : (w a : ℕ) → a < 2 ^ w → xor w a 0 ≡ a
unfolding xor
xor_zero zero a h = omega arith
xor_zero (suc w) a h = omega (arith, xor_zero w (a / 2) (omega (arith, pow-suc 2 w)))

pub zero_xor : (w a : ℕ) → a < 2 ^ w → xor w 0 a ≡ a
unfolding xor
zero_xor zero a h = omega arith
zero_xor (suc w) a h = omega (arith, zero_xor w (a / 2) (omega (arith, pow-suc 2 w)))

-- The same key twice gives the text back.
pub xor-xor : (w a b : ℕ) → a < 2 ^ w → xor w (xor w a b) b ≡ a
unfolding xor
xor-xor zero a b h = omega arith
xor-xor (suc w) a b h =
    let low : ((a % 2 + b % 2) % 2 + 2 * xor w (a / 2) (b / 2)) / 2 ≡ xor w (a / 2) (b / 2) =
      omega arith in
    let rest = xor-xor w (a / 2) (b / 2) (omega (arith, pow-suc 2 w)) in
    rw (low, rest) (omega arith)

xor_comm : (w a b : ℕ) → xor w a b ≡ xor w b a
unfolding xor
xor_comm zero a b = refl
xor_comm (suc w) a b = omega (arith, xor_comm w (a / 2) (b / 2))

xor_assoc : (w a b c : ℕ) → xor w (xor w a b) c ≡ xor w a (xor w b c)
unfolding xor
xor_assoc zero a b c = refl
xor_assoc (suc w) a b c =
    let left : ((a % 2 + b % 2) % 2 + 2 * xor w (a / 2) (b / 2)) / 2 ≡ xor w (a / 2) (b / 2) =
      omega arith in
    let right : ((b % 2 + c % 2) % 2 + 2 * xor w (b / 2) (c / 2)) / 2 ≡ xor w (b / 2) (c / 2) =
      omega arith in
    rw (left, right, xor_assoc w (a / 2) (b / 2) (c / 2)) (omega arith)

pub xor_swap : (w a b c d : ℕ) → xor w (xor w a b) (xor w c d) ≡ xor w (xor w a c) (xor w b d)
xor_swap w a b c d =
    xor_assoc w a b (xor w c d)
    ∙ ap (xor w a)
        (sym (xor_assoc w b c d) ∙ ap (λ t. xor w t d) (xor_comm w b c) ∙ xor_assoc w c b d)
    ∙ sym (xor_assoc w a c (xor w b d))
