-- ===== src/Exec.antt =====
-- The parts of the execution of queries.
pub mod Store
pub mod Selection
