-- ===== src/Evm/Words.antt =====
-- evm/vm.rs: the arithmetic helpers on U256.
pub mod Values
use ryther_core.Base.{ℕ, Bool, true, false, ◌&&◌, ltb, if◌then◌else◌, sub64, nat_eq}
use ryther_core.Types.Uint.{U256, wrapping_add, u256_eq}

abbrev pub u256_to_u64 : U256 → ℕ
u256_to_u64 val = val.l0

abbrev pub add_u256 : U256 → U256 → U256
add_u256 a b = wrapping_add a b

-- Only the lowest limb of `b` is read, and the borrow stops at limb 1.
unfoldable pub sub_u256 : U256 → U256 → U256
sub_u256 a b = record a {
  l0 = sub64 a.l0 b.l0;
  l1 = if ltb a.l0 b.l0 && ltb 0 a.l1 then sub64 a.l1 1 else a.l1;
}

-- The three results of `compare_u256`: 1, 0 and -1.
pub data Comparison : Type 0 where
  above equal below : Comparison

-- One round of its loop, in front of the rest.
unfoldable pub compare_limb : ℕ → ℕ → Comparison → Comparison
compare_limb a b rest = if ltb b a then above else (if ltb a b then below else rest)

unfoldable pub compare_u256 : U256 → U256 → Comparison
unfolding compare_limb
compare_u256 a b =
    compare_limb a.l3 b.l3
      (compare_limb a.l2 b.l2 (compare_limb a.l1 b.l1 (compare_limb a.l0 b.l0 equal)))

abbrev pub is_below : Comparison → Bool
is_below below = true
is_below _ = false
