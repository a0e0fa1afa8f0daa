-- ===== src/Tcp.antt =====
-- src/tcp_handler.rs: the metadata frame and the decode sessions of one connection.
pub mod Meta
pub mod Session
pub mod Server
pub mod Fixtures
mod Tests
