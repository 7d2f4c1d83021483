-- ===== src/Evm.antt =====
-- src/evm: the virtual machine.
pub mod Words
pub mod Slots
pub mod Vm
