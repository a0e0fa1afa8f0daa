-- ===== src/Grpc/State.antt =====
-- `GrpcDecodeService` of src/grpc.rs: its fields and `new`. The shutdown token is an ending of a
-- stream's messages.
use media_api.Soundkit.{DecodeOptions}
use media_api.Pool.Jobs.{Pool}

pub record GrpcDecodeService : Type 0 where
  pub decoder_pool : Pool
  pub default_options : DecodeOptions

abbrev pub new : Pool → DecodeOptions → GrpcDecodeService
new decoder_pool default_options = record {
  decoder_pool = decoder_pool;
  default_options = default_options;
}
