-- ===== src/Router/Safety.antt =====
-- Which requests can bring down the thread that decodes them, by the division in its metrics.
use media_api.Base.{
  ℕ, ◌≤◌, ◌<◌, ◌≡◌, ◌≢◌, ◌%◌, ◌⊎◌, Option, none, some, Bytes, arith, or_else, unwrap_or,
}
use media_api.Soundkit.{DecodeOptions}
use media_api.Config.{MediaApiConfig}
use media_api.Decode.{parse_decode_options}
use media_api.Decode.Fields.{Holds, parse_decode_options-IsValid}
use media_api.Pool.Metrics.{audio_ms, audio_ms_panic_iff}
use media_api.Grpc.Options.{OptionsMessage}
use media_api.Grpc
use media_api.Router.{merge_options}

whole_bytes :
    (o c : Option ℕ)
    → Holds (λ n. (n ≡ 16) ⊎ (n ≡ 24) ⊎ (n ≡ 32)) o
    → Holds (λ n. 8 ≤ n) c
    → 8 ≤ unwrap_or (or_else o c) 16
whole_bytes none none h k = omega arith
whole_bytes none (some n) h k = k
whole_bytes (some n) c h k = omega arith

-- No query makes the metrics panic, whatever is decoded, if the configured default is none or at least
-- eight bits per sample.
pub http_options_safe :
    (config : MediaApiConfig) (query : Option Bytes) (output_bytes rate channels : ℕ)
    → Holds (λ n. 8 ≤ n) config.default_output_bits
    → audio_ms (merge_options config (parse_decode_options query)) output_bytes rate channels ≢ none
unfolding merge_options
http_options_safe config query output_bytes rate channels h e =
    let o = parse_decode_options query in
    let bits =
      whole_bytes o.output_bits_per_sample config.default_output_bits
        (parse_decode_options-IsValid query).bits h in
    let (_, _, few) =
      (audio_ms_panic_iff (merge_options config o) output_bytes rate channels).0 e in
    omega arith

-- The options of a gRPC message are not checked: with a bit depth that is not zero but below eight
-- modulo 256, the metrics panic after any audio, whatever the defaults.
pub grpc_options_panic :
    (default : DecodeOptions) (o : OptionsMessage) (output_bytes rate channels : ℕ)
    → 0 < o.output_bits_per_sample
    → o.output_bits_per_sample % 256 < 8
    → 0 < rate
    → 0 < channels
    → audio_ms (Grpc.Options.merge_options default o) output_bytes rate channels ≡ none
unfolding Grpc.Options.merge_options
grpc_options_panic default o output_bytes rate channels pos few hr hc =
    (audio_ms_panic_iff _ output_bytes rate channels).1 (hr, hc, ground arith)
