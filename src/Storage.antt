-- ===== src/Storage.antt =====
-- src/storage: the Merkle tree over the state.
pub mod Jmt
pub mod Cache
