-- ===== src/Tests.antt =====
-- Runs and witnesses: the theorems applied to concrete inputs.
mod Validators
mod Clock
mod Versions
mod Execution
mod Batches
mod Store
mod Consensus
mod Node
mod Storage
mod Evm
mod Crypto
mod Network
