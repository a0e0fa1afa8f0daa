-- ===== src/Pool.antt =====
-- src/pool.rs: the pool of decoder threads, the job that a thread works on, and its metrics.
pub mod Metrics
pub mod Jobs
pub mod Worker
pub mod Pipe
pub mod Fixtures
mod Tests
