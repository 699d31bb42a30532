-- ===== src/Concurrency/Pool.antt =====
-- The thread pool, framework/core/src/concurrency/executor/thread_pool.cc.
pub mod Idle
pub mod Counted
pub mod Found
pub mod FoundAll
pub mod Worker
pub mod Protocol
pub mod Wake
pub mod Late
pub mod Leave
pub mod Ledger
pub mod Share
pub mod Handed
pub mod Donated
pub mod Balance
pub mod Enqueue
mod Tests
