-- ===== src/Evm/Words/Values.antt =====
-- evm/vm.rs, `compare_u256` and `sub_u256` against the numbers that the words stand for.
use ryther_core.Base.{ℕ, ◌+◌, ◌-◌, ◌^◌, ◌<◌, ◌≡◌, ◌&&◌, arith, ltb, if◌then◌else◌}
use ryther_core.Evm.Words.{sub_u256, Comparison, above, equal, below, compare_limb, compare_u256}
use ryther_core.Types.Uint.{U256}
use ryther_core.Types.Uint.Arithmetic.{IsWord, value}

-- What a comparison says of two numbers.
abbrev pub Says : Comparison → ℕ → ℕ → Type 0
Says above x y = y < x
Says equal x y = x ≡ y
Says below x y = x < y

-- On numbers of 64-bit limbs `compare_u256` tells which of the two values is the greater, or that
-- they are equal.
pub compare_u256-Says :
    (a b : U256) → IsWord a → IsWord b → Says (compare_u256 a b) (value a) (value b)
unfolding compare_u256 compare_limb
compare_u256-Says a b h k = ground arith

-- On numbers of 64-bit limbs `sub_u256` subtracts the lowest limb of the second number and ignores
-- its others. If that limb is greater than the first number's and limb 1 of the first is 0, no
-- borrow is taken, and the result is 2 ^ 64 too large.
pub sub_u256_lem :
    (a b : U256)
    → IsWord a
    → IsWord b
    → value (sub_u256 a b)
      ≡ (if ltb a.l0 b.l0 && ltb a.l1 1 then value a + 2 ^ 64 - b.l0 else value a - b.l0)
unfolding sub_u256
sub_u256_lem a b h k = ground arith

pub sub_u256-IsWord : (a b : U256) → IsWord a → IsWord b → IsWord (sub_u256 a b)
unfolding sub_u256
sub_u256-IsWord a b h k = ground arith
