-- ===== src/Types.antt =====
-- types/: the data that the other parts share.
pub mod Lamport
pub mod Uint
pub mod State
pub mod Validator
pub mod Transaction
pub mod Event
pub mod Block
