-- ===== src/Crypto.antt =====
-- crypto/.
pub mod Xor
pub mod Threshold
pub mod Dkg
