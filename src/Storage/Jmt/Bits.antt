-- ===== src/Storage/Jmt/Bits.antt =====
-- storage/jmt.rs, `get_bit`: the bits of a key hash that a path of the tree has followed.
use native.Mathlib.Nat.{pow-suc, div-div-eq-div-mul}
use ryther_core.Base.{
  ℕ, zero, suc, ◌-◌, ◌*◌, ◌/◌, ◌%◌, ◌^◌, ◌<◌, ◌≡◌, ◌⊎◌, inl, inr, sym, arith, eqb, ap,
}
use ryther_core.Storage.Jmt.{get_bit, bit_above}

-- The bits above the `left` lowest.
abbrev pub path_above : ℕ → ℕ → ℕ
path_above left x = x / 256 ^ (left / 8) / 2 ^ (left % 8)

below_byte : (y b : ℕ) → b < 8 → y % 256 / 2 ^ b % 2 ≡ y / 2 ^ b % 2
below_byte y zero h = omega arith
below_byte y (suc zero) h = omega arith
below_byte y (suc (suc zero)) h = omega arith
below_byte y (suc (suc (suc zero))) h = omega arith
below_byte y (suc (suc (suc (suc zero)))) h = omega arith
below_byte y (suc (suc (suc (suc (suc zero))))) h = omega arith
below_byte y (suc (suc (suc (suc (suc (suc zero)))))) h = omega arith
below_byte y (suc (suc (suc (suc (suc (suc (suc zero))))))) h = omega arith
below_byte y (suc (suc (suc (suc (suc (suc (suc (suc b)))))))) h = absurd (omega arith)

half : (y b : ℕ) → b < 7 → y / 2 ^ suc b ≡ y / 2 ^ b / 2
half y zero h = omega arith
half y (suc zero) h = omega arith
half y (suc (suc zero)) h = omega arith
half y (suc (suc (suc zero))) h = omega arith
half y (suc (suc (suc (suc zero)))) h = omega arith
half y (suc (suc (suc (suc (suc zero))))) h = omega arith
half y (suc (suc (suc (suc (suc (suc zero)))))) h = omega arith
half y (suc (suc (suc (suc (suc (suc (suc b))))))) h = absurd (omega arith)

pub bit_above_lem : (left x : ℕ) → left < 256 → bit_above left x ≡ eqb (path_above left x % 2) 1
unfolding get_bit
bit_above_lem left x h =
    let a : 31 - (255 - left) / 8 ≡ left / 8 = omega arith in
    let b : 7 - (255 - left) % 8 ≡ left % 8 = omega arith in
    rw (a, b) (ap (λ (t : ℕ). eqb t 1) (below_byte (x / 256 ^ (left / 8)) (left % 8) (omega arith)))

pub path_above-suc : (left x : ℕ) → path_above (suc left) x ≡ path_above left x / 2
path_above-suc left x = elim (low_or_last left) [
  | inl low ↦
      let a : suc left / 8 ≡ left / 8 = omega arith in
      let b : suc left % 8 ≡ suc (left % 8) = omega arith in
      rw (a, b) (half (x / 256 ^ (left / 8)) (left % 8) low)
  | inr last ↦
      let a : suc left / 8 ≡ suc (left / 8) = omega arith in
      let b : suc left % 8 ≡ 0 = omega arith in
      let c : x / 256 ^ (left / 8) / 256 ≡ x / (256 ^ (left / 8) * 256) =
        div-div-eq-div-mul x (256 ^ (left / 8)) 256 in
      let d : 256 ^ suc (left / 8) ≡ 256 ^ (left / 8) * 256 =
        omega (arith, pow-suc 256 (left / 8)) in
      rw (a, b, last, d, sym c) (omega arith)
]
  where
    low_or_last : (n : ℕ) → (n % 8 < 7) ⊎ (n % 8 ≡ 7)
    low_or_last n = omega arith

pub path_above_all : (x : ℕ) → x < 2 ^ 256 → path_above 256 x ≡ 0
path_above_all x h = omega arith

pub path_above_none : (x : ℕ) → path_above 0 x ≡ x
path_above_none x = omega arith
