-- ===== src/Types/Uint.antt =====
-- types/mod.rs: U256 and StateKey. Limb 0 is the least significant.
pub mod Arithmetic
use ryther_core.Base.{
  ℕ, ◌+◌, ◌*◌, ◌^◌, ◌%◌, ◌≤◌, ◌<◌, ◌≡◌, ◌↔◌, Bool, true, false, ◌&&◌, List, ◌++◌, if◌then◌else◌,
  leb, ltb, eqb, take, drop, u64_mod, Eq, arith, eqb_iff, add64,
}
use ryther_core.Bytes.{be_bytes, from_be_bytes as be_number}

pub record U256 : Type 0 where
  pub l0 : ℕ
  pub l1 : ℕ
  pub l2 : ℕ
  pub l3 : ℕ

abbrev pub zero_u256 : U256
zero_u256 = record { l0 = 0; l1 = 0; l2 = 0; l3 = 0 }

abbrev pub one_u256 : U256
one_u256 = record { l0 = 1; l1 = 0; l2 = 0; l3 = 0 }

abbrev pub from_u64 : ℕ → U256
from_u64 val = record { l0 = val; l1 = 0; l2 = 0; l3 = 0 }

unfoldable pub to_be_bytes : U256 → List ℕ
to_be_bytes u = be_bytes 8 u.l3 ++ (be_bytes 8 u.l2 ++ (be_bytes 8 u.l1 ++ be_bytes 8 u.l0))

unfoldable pub from_be_bytes : List ℕ → U256
from_be_bytes bytes = record {
  l0 = be_number (take 8 (drop 24 bytes));
  l1 = be_number (take 8 (drop 16 bytes));
  l2 = be_number (take 8 (drop 8 bytes));
  l3 = be_number (take 8 bytes);
}

-- `overflowing_add` and `overflowing_sub`.
abbrev pub overflowing_add : ℕ → ℕ → ℕ × Bool
overflowing_add a b = ((a + b) % u64_mod, leb u64_mod (a + b))

abbrev pub bool_to_word : Bool → ℕ
bool_to_word b = if b then 1 else 0

-- One round of the loop in `wrapping_add`: the limb and the next carry.
unfoldable pub add_limb : ℕ → ℕ → ℕ → ℕ × ℕ
add_limb a b carry =
    let (sum, c1) = overflowing_add a b in
    let (sum', c2) = overflowing_add sum carry in (sum', add64 (bool_to_word c1) (bool_to_word c2))

unfoldable pub wrapping_add : U256 → U256 → U256
unfolding add_limb
wrapping_add a b =
    let (r0, k0) = add_limb a.l0 b.l0 0 in
    let (r1, k1) = add_limb a.l1 b.l1 k0 in
    let (r2, k2) = add_limb a.l2 b.l2 k1 in
    let (r3, k3) = add_limb a.l3 b.l3 k2 in record { l0 = r0; l1 = r1; l2 = r2; l3 = r3 }

-- The derived order on `[u64; 4]`: lexicographic, from limb 0.
unfoldable pub ltb_u256 : U256 → U256 → Bool
ltb_u256 a b =
    if eqb a.l0 b.l0
    then (if eqb a.l1 b.l1
        then (if eqb a.l2 b.l2 then ltb a.l3 b.l3 else ltb a.l2 b.l2)
        else ltb a.l1 b.l1)
    else ltb a.l0 b.l0

abbrev pub beq_u256 : U256 → U256 → Bool
beq_u256 a b = eqb a.l0 b.l0 && (eqb a.l1 b.l1 && (eqb a.l2 b.l2 && eqb a.l3 b.l3))

pub beq_u256_iff : (a b : U256) → (beq_u256 a b ≡ true) ↔ (a ≡ b)
beq_u256_iff a b = ground arith

instance unfoldable pub u256_eq : Eq U256
u256_eq = record { beq = beq_u256; beq_iff = beq_u256_iff }

pub record StateKey : Type 0 where
  pub address : ℕ
  pub slot : U256

unfoldable pub key_bytes : StateKey → List ℕ
unfolding to_be_bytes
key_bytes k = be_bytes 20 k.address ++ to_be_bytes k.slot

abbrev pub beq_key : StateKey → StateKey → Bool
beq_key a b = eqb a.address b.address && beq_u256 a.slot b.slot

pub beq_key_iff : (a b : StateKey) → (beq_key a b ≡ true) ↔ (a ≡ b)
beq_key_iff a b = ground arith

instance unfoldable pub key_eq : Eq StateKey
key_eq = record { beq = beq_key; beq_iff = beq_key_iff }

-- The law of the instance, which stays shut in proofs.
pub key-eq_iff : (a b : StateKey) → (key_eq.beq a b ≡ true) ↔ (a ≡ b)
key-eq_iff a b = key_eq.beq_iff a b
