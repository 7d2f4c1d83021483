-- ===== src/Types/Uint/Arithmetic.antt =====
-- What U256 stands for, and that its sum and its bytes keep that.
use mathlib.Core.List.{append-nil}
use ryther_core.Base.{
  ℕ, ◌+◌, ◌*◌, ◌^◌, ◌%◌, ◌≤◌, ◌<◌, ◌≡◌, true, List, [], ◌++◌, arith, take, drop, u64_mod, ◌↔◌,
}
use ryther_core.Bytes.{
  be_bytes, from_be_bytes as be_number, from_be_bytes-be_bytes, length-be_bytes, take-append,
  drop-append,
}
use ryther_core.Types.Uint.{
  U256, to_be_bytes, from_be_bytes, add_limb, wrapping_add, ltb_u256, from_u64,
}

pub record IsWord (u : U256) : Type 0 where
  pub w0 : u.l0 < u64_mod
  pub w1 : u.l1 < u64_mod
  pub w2 : u.l2 < u64_mod
  pub w3 : u.l3 < u64_mod

abbrev pub value : U256 → ℕ
value u = u.l0 + 2 ^ 64 * (u.l1 + 2 ^ 64 * (u.l2 + 2 ^ 64 * u.l3))

add_limb_lem :
    (a b carry : ℕ)
    → a < u64_mod
    → b < u64_mod
    → carry ≤ 1
    → ((add_limb a b carry).0 + 2 ^ 64 * (add_limb a b carry).1 ≡ a + b + carry)
      × ((add_limb a b carry).0 < u64_mod)
      × ((add_limb a b carry).1 ≤ 1)
unfolding add_limb
add_limb_lem a b carry h k c = ground arith

pub wrapping_add-IsWord : (a b : U256) → IsWord a → IsWord b → IsWord (wrapping_add a b)
unfolding wrapping_add add_limb
wrapping_add-IsWord a b h k = omega arith

-- On numbers of 64-bit limbs `wrapping_add` is addition modulo 2 ^ 256.
pub value-wrapping_add :
    (a b : U256) → IsWord a → IsWord b → value (wrapping_add a b) ≡ (value a + value b) % 2 ^ 256
unfolding wrapping_add
value-wrapping_add a b h k =
    let s0 = add_limb_lem a.l0 b.l0 0 h.w0 k.w0 (omega arith) in
    let k0 = (add_limb a.l0 b.l0 0).1 in
    let s1 = add_limb_lem a.l1 b.l1 k0 h.w1 k.w1 s0.2 in
    let k1 = (add_limb a.l1 b.l1 k0).1 in
    let s2 = add_limb_lem a.l2 b.l2 k1 h.w2 k.w2 s1.2 in
    let k2 = (add_limb a.l2 b.l2 k1).1 in
    let s3 = add_limb_lem a.l3 b.l3 k2 h.w3 k.w3 s2.2 in omega (arith, s0, s1, s2, s3)

value_inj : (a b : U256) → IsWord a → IsWord b → value a ≡ value b → a ≡ b
value_inj a b h k e = ground arith

limb : (x : ℕ) (rest : List ℕ) → x < u64_mod → be_number (take 8 (be_bytes 8 x ++ rest)) ≡ x
limb x rest h =
    rw (take-append 8 (be_bytes 8 x) rest (length-be_bytes 8 x)) (from_be_bytes-be_bytes 8 x h)

skip : (m n x : ℕ) (rest : List ℕ) → 8 + n ≡ m → drop m (be_bytes 8 x ++ rest) ≡ drop n rest
skip m n x rest h = drop-append m n (be_bytes 8 x) rest (omega (arith, length-be_bytes 8 x))

-- The bytes of a number of 64-bit limbs read back as that number.
from_be_bytes-to_be_bytes : (u : U256) → IsWord u → from_be_bytes (to_be_bytes u) ≡ u
unfolding from_be_bytes to_be_bytes
from_be_bytes-to_be_bytes u h =
    let tail2 = be_bytes 8 u.l1 ++ be_bytes 8 u.l0 in
    let tail3 = be_bytes 8 u.l2 ++ tail2 in
    ground (
      arith,
      skip 24 16 u.l3 tail3,
      skip 16 8 u.l2 tail2,
      skip 8 0 u.l1 (be_bytes 8 u.l0),
      skip 16 8 u.l3 tail3,
      skip 8 0 u.l2 tail2,
      skip 8 0 u.l3 tail3,
      limb u.l0 [] h.w0,
      append-nil (be_bytes 8 u.l0),
      limb u.l1 (be_bytes 8 u.l0) h.w1,
      limb u.l2 tail2 h.w2,
      limb u.l3 tail3 h.w3,
    )

-- Of two numbers of 64-bit limbs, if the first has the lower lowest limb and the higher highest
-- limb, the derived order has the first one as the lesser, though its value is the greater.
ltb_u256_against_value :
    (a b : U256)
    → IsWord a
    → IsWord b
    → a.l0 < b.l0
    → b.l3 < a.l3
    → (ltb_u256 a b ≡ true) × (value b < value a)
unfolding ltb_u256
ltb_u256_against_value a b h k low high = (ground arith, omega arith)

-- Between numbers that fit in 64 bits the derived order is that of the values.
ltb_u256-from_u64 :
    (x y : ℕ)
    → (ltb_u256 (from_u64 x) (from_u64 y) ≡ true) ↔ (value (from_u64 x) < value (from_u64 y))
unfolding ltb_u256
ltb_u256-from_u64 x y = ground arith
