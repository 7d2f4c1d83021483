-- ===== src/Execution.antt =====
-- execution/: the versioned state, conflict detection and the batch executor.
pub mod Mvcc
pub mod Conflict
pub mod Executor
