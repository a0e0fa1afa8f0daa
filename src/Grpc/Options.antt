-- ===== src/Grpc/Options.antt =====
-- The options of a request, merged with the service's defaults.
use media_api.Base.{ℕ, ◌%◌, ◌<◌, ◌≡◌, ◌⊎◌, Option, some, arith, ltb, if◌then◌else◌, Bytes, Bool}
use media_api.Soundkit.{DecodeOptions}

-- The message `DecodeOptions`: three `uint32`, where 0 keeps the default.
pub record OptionsMessage : Type 0 where
  pub output_sample_rate : ℕ
  pub output_bits_per_sample : ℕ
  pub output_channels : ℕ

-- The message `DecodeRequest`.
pub record DecodeRequest : Type 0 where
  pub payload : Bytes
  pub options : Option OptionsMessage
  pub new_segment : Bool

-- `as u8`
abbrev pub to_u8 : ℕ → ℕ
to_u8 n = n % 256

unfoldable pub merge_options : DecodeOptions → OptionsMessage → DecodeOptions
merge_options default o = record {
  output_sample_rate =
      if ltb 0 o.output_sample_rate then some o.output_sample_rate else default.output_sample_rate;
  output_bits_per_sample =
      if ltb 0 o.output_bits_per_sample
      then some (to_u8 o.output_bits_per_sample)
      else default.output_bits_per_sample;
  output_channels =
      if ltb 0 o.output_channels then some (to_u8 o.output_channels) else default.output_channels;
}

-- A field left 0 keeps the default; a rate is passed on as it is, and a bit depth or channel count
-- below 256 too.
pub merge_options_fields :
    (default : DecodeOptions) (o : OptionsMessage)
    → o.output_bits_per_sample < 256
    → o.output_channels < 256
    → let m = merge_options default o in
      (((o.output_sample_rate ≡ 0) × (m.output_sample_rate ≡ default.output_sample_rate))
        ⊎ ((0 < o.output_sample_rate) × (m.output_sample_rate ≡ some o.output_sample_rate)))
      × (((o.output_bits_per_sample ≡ 0)
            × (m.output_bits_per_sample ≡ default.output_bits_per_sample))
          ⊎ ((0 < o.output_bits_per_sample)
              × (m.output_bits_per_sample ≡ some o.output_bits_per_sample)))
      × (((o.output_channels ≡ 0) × (m.output_channels ≡ default.output_channels))
          ⊎ ((0 < o.output_channels) × (m.output_channels ≡ some o.output_channels)))
unfolding merge_options
merge_options_fields default o hb hc = ground arith
