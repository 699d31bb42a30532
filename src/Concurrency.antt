-- ===== src/Concurrency.antt =====
-- Executors and results, framework/core/src/concurrency.
pub mod Manual
pub mod Pool
pub mod Result
