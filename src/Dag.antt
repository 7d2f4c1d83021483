-- ===== src/Dag.antt =====
-- The DAG: dag/store.rs.
pub mod Store
