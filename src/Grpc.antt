-- ===== src/Grpc.antt =====
-- src/grpc.rs and the messages of proto/decode.proto: what a request's options ask for.
pub mod Stream
mod Tests
pub mod Options
pub mod State
