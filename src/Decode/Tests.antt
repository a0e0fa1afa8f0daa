-- ===== src/Decode/Tests.antt =====
-- The theorems about decode options at concrete queries.
use media_api.Base.{◌≡◌, refl, inl, some, ◌∷◌, ◌++◌, codes, arith}
use media_api.Decode.{
  parse_decode_options, split, rate_key, bits_key, channels_key, rate_value, bits_value,
  channels_value,
}
use media_api.Decode.Fields.{value_for, last_value, override, parse_decode_options_fields}
use media_api.Decode.RoundTrip.{
  query_of, parse_decode_options-append, parse_decode_options-query_of,
}

parse_decode_options_fields_example :
    let ps = split b'&' (codes "bits=24&bits=7") in
    let o = parse_decode_options (some (codes "bits=24&bits=7")) in
    (o.output_sample_rate ≡ last_value (value_for rate_key rate_value) ps)
    × (o.output_bits_per_sample ≡ last_value (value_for bits_key bits_value) ps)
    × (o.output_channels ≡ last_value (value_for channels_key channels_value) ps)
parse_decode_options_fields_example = parse_decode_options_fields (codes "bits=24&bits=7")

parse_decode_options-append_example :
    parse_decode_options (some (codes "bits=16" ++ b'&' ∷ codes "bits=24"))
    ≡ override
        (parse_decode_options (some (codes "bits=24")))
        (parse_decode_options (some (codes "bits=16")))
parse_decode_options-append_example =
    parse_decode_options-append (codes "bits=16") (codes "bits=24")

parse_decode_options-query_of_example : parse_decode_options (some (query_of 16000 16 1)) ≡ record {
  output_sample_rate = some 16000;
  output_bits_per_sample = some 16;
  output_channels = some 1;
}
parse_decode_options-query_of_example =
    parse_decode_options-query_of 16000 16 1 (omega arith) (inl refl) (omega arith) (omega arith)
