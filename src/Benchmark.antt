-- ===== src/Benchmark.antt =====
-- src/bin/opus_benchmark.rs: the packet streams that its two engines write and read.
pub mod Args
pub mod Packets
pub mod Quality
pub mod Engine
pub mod Source
pub mod Main
pub mod Summary
pub mod Fixtures
mod Tests
