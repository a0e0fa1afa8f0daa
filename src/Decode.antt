-- ===== src/Decode.antt =====
-- src/decode.rs: the decode options and their parsing from a query string. A text is the list of
-- its UTF-8 bytes, and `None` for the query is `none`.
pub mod Pipeline
pub mod Fields
pub mod RoundTrip
mod Tests
use media_api.Base.{
  ℕ, ◌≡◌, refl, Bool, true, false, ◌&&◌, ◌||◌, Option, none, some, List, [], ◌∷◌, ◌++◌, Bytes,
  codes, ltb, leb, ◌==◌, text_eq, if◌then◌else◌, unwrap_or, parse_uint, u8_max, u32_max,
}
use media_api.Soundkit.{DecodeOptions}

-- `DecodeOptions::default()`.
abbrev pub default_options : DecodeOptions
default_options = record {
  output_sample_rate = none;
  output_bits_per_sample = none;
  output_channels = none;
}

abbrev pub prepend : ℕ → List Bytes → List Bytes
prepend c [] = (c ∷ []) ∷ []
prepend c (p ∷ ps) = (c ∷ p) ∷ ps

-- `str::split` at one byte: always at least one piece.
unfoldable pub split : ℕ → Bytes → List Bytes
split sep [] = [] ∷ []
split sep (c ∷ s) = let rest = split sep s in if c == sep then [] ∷ rest else prepend c rest

abbrev push_first : ℕ → Bytes × Option Bytes → Bytes × Option Bytes
push_first c (p, rest) = (c ∷ p, rest)

-- `splitn(2, sep)`: the first piece, and the second if the separator is there.
unfoldable pub split_pair : ℕ → Bytes → Bytes × Option Bytes
split_pair sep [] = ([], none)
split_pair sep (c ∷ s) = if c == sep then ([], some s) else push_first c (split_pair sep s)

-- The arms of `match key`.
pub data Key : Type 0 where
  rate_key bits_key channels_key other_key : Key

unfoldable pub classify : Bytes → Key
classify key =
    if text_eq key (codes "sample_rate") || text_eq key (codes "output_sample_rate")
    then rate_key
    else if text_eq key (codes "bits")
        || text_eq key (codes "output_bits")
        || text_eq key (codes "bits_per_sample")
    then bits_key
    else if text_eq key (codes "channels") || text_eq key (codes "output_channels")
    then channels_key
    else other_key

-- The values that the three arms store.
unfoldable pub rate_value : Bytes → Option ℕ
rate_value value = parse_uint u32_max value

abbrev pub keep_if : (ℕ → Bool) → Option ℕ → Option ℕ
keep_if ok none = none
keep_if ok (some n) = if ok n then some n else none

unfoldable pub bits_value : Bytes → Option ℕ
bits_value value = keep_if (λ n. n == 16 || n == 24 || n == 32) (parse_uint u8_max value)

unfoldable pub channels_value : Bytes → Option ℕ
channels_value value = keep_if (λ n. ltb 0 n && leb n 16) (parse_uint u8_max value)

-- `if let Ok(v) = … { options.field = Some(v) }`
abbrev pub store : Option ℕ → Option ℕ → Option ℕ
store none old = old
store (some v) old = some v

unfoldable pub apply_key : Key → Bytes → DecodeOptions → DecodeOptions
apply_key rate_key value o = record o {
  output_sample_rate = store (rate_value value) o.output_sample_rate;
}
apply_key bits_key value o = record o {
  output_bits_per_sample = store (bits_value value) o.output_bits_per_sample;
}
apply_key channels_key value o = record o {
  output_channels = store (channels_value value) o.output_channels;
}
apply_key other_key value o = o

-- One round of the loop over the pairs.
unfoldable pub apply_pair : DecodeOptions → Bytes → DecodeOptions
unfolding apply_key classify split_pair
apply_pair o pair =
    let (key, rest) = split_pair b'=' pair in apply_key (classify key) (unwrap_or rest []) o

unfoldable pub apply_pairs : DecodeOptions → List Bytes → DecodeOptions
unfolding apply_pair
apply_pairs o [] = o
apply_pairs o (pair ∷ pairs) = apply_pairs (apply_pair o pair) pairs

unfoldable pub parse_decode_options : Option Bytes → DecodeOptions
unfolding apply_pairs split
parse_decode_options none = default_options
parse_decode_options (some q) = apply_pairs default_options (split b'&' q)

abbrev options_of : ℕ → ℕ → ℕ → DecodeOptions
options_of r b c = record {
  output_sample_rate = some r;
  output_bits_per_sample = some b;
  output_channels = some c;
}

-- The unit tests of the source.
test_parse_decode_options :
    parse_decode_options (some (codes "sample_rate=16000&bits=16&channels=1"))
    ≡ options_of 16000 16 1
unfolding parse_decode_options rate_value bits_value channels_value parse_uint
test_parse_decode_options = refl

test_parse_invalid_options :
    parse_decode_options (some (codes "bits=20&channels=0&channels=17&=&a&")) ≡ default_options
unfolding parse_decode_options rate_value bits_value channels_value parse_uint
test_parse_invalid_options = refl
