-- ===== src/Decode/Pipeline.antt =====
-- The three functions of src/decode.rs over a decode pipeline, and the order of their sends.
use media_api.Base.{[], Bytes}
use media_api.Soundkit.{DecodeOptions, AudioOps, Pipeline, Send}

module _ {a : AudioOps} (k : Pipeline a) where
  pub create_pipeline : DecodeOptions → k.Handle
  create_pipeline options = k.spawn_with_options options

  pub feed_pipeline : k.Handle → Bytes → Send k.Handle
  feed_pipeline pipeline chunk = k.send pipeline chunk

  pub finish_pipeline : k.Handle → Send k.Handle
  finish_pipeline pipeline = k.send pipeline []
