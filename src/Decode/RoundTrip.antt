-- ===== src/Decode/RoundTrip.antt =====
-- A client's query and what the service reads from it.
use media_api.Base.{
  ℕ, ◌≤◌, ◌<◌, ◌≡◌, refl, ◌≢◌, ◌⊎◌, sym, ap, ◌∙◌, some, List, [], ◌∷◌, ◌++◌, Bytes, codes, arith,
  u8_max, u32_max,
}
use media_api.Base.Texts.Decimal.{decimal, IsDigits, decimal-IsDigits, parse_uint-decimal}
use media_api.Soundkit.{DecodeOptions}
use media_api.Decode.{
  default_options, prepend, split, rate_value, bits_value, channels_value, apply_pair, apply_pairs,
  parse_decode_options,
}
use media_api.Decode.Fields.{override, override-default, apply_pairs-fields}

-- The query that asks for three options, as README.md writes it.
unfoldable pub query_of : ℕ → ℕ → ℕ → Bytes
query_of rate bits channels =
    (codes "sample_rate=" ++ decimal rate)
    ++ b'&' ∷ ((codes "bits=" ++ decimal bits) ++ b'&' ∷ (codes "channels=" ++ decimal channels))

split-ne-nil : (sep : ℕ) (s : Bytes) → split sep s ≢ []
unfolding split
split-ne-nil sep [] e = cc
split-ne-nil sep (c ∷ s) e = grind (arith, split-ne-nil sep s)

prepend-append : (c : ℕ) (ps qs : List Bytes) → ps ≢ [] → prepend c (ps ++ qs) ≡ prepend c ps ++ qs
prepend-append c [] qs h = absurd (h refl)
prepend-append c (p ∷ ps) qs h = refl

split-append : (sep : ℕ) (s t : Bytes) → split sep (s ++ sep ∷ t) ≡ split sep s ++ split sep t
unfolding split
split-append sep [] t = ground arith
split-append sep (c ∷ s) t =
    ground (
      arith,
      split-append sep s t,
      prepend-append c (split sep s) (split sep t) (split-ne-nil sep s),
    )

apply_pairs-append :
    (o : DecodeOptions) (ps qs : List Bytes)
    → apply_pairs o (ps ++ qs) ≡ apply_pairs (apply_pairs o ps) qs
unfolding apply_pairs
apply_pairs-append o [] qs = refl
apply_pairs-append o (p ∷ ps) qs = apply_pairs-append (apply_pair o p) ps qs

-- Two queries joined by `&` are read as the second, with the first where the second sets nothing.
pub parse_decode_options-append :
    (q r : Bytes)
    → parse_decode_options (some (q ++ b'&' ∷ r))
      ≡ override (parse_decode_options (some r)) (parse_decode_options (some q))
unfolding parse_decode_options
parse_decode_options-append q r =
    rw
      (
        split-append b'&' q r,
        apply_pairs-append default_options (split b'&' q) (split b'&' r),
        apply_pairs-fields (apply_pairs default_options (split b'&' q)) (split b'&' r),
      )
      (ap (λ o. override o (apply_pairs default_options (split b'&' q)))
        (sym (apply_pairs-fields default_options (split b'&' r) ∙ override-default _)))

split-digits : (s : Bytes) → IsDigits s → split b'&' s ≡ s ∷ []
unfolding split
split-digits [] h = refl
split-digits (c ∷ s) (h, hs) = ground (arith, split-digits s hs)

module _ (rate bits channels : ℕ) where
  rate_only :
      rate ≤ u32_max
      → parse_decode_options (some (codes "sample_rate=" ++ decimal rate))
        ≡ record default_options { output_sample_rate = some rate }
  unfolding parse_decode_options rate_value
  rate_only h =
      rw (split-digits (decimal rate) (decimal-IsDigits rate), parse_uint-decimal u32_max rate h)

  bits_only :
      ((bits ≡ 16) ⊎ (bits ≡ 24) ⊎ (bits ≡ 32))
      → parse_decode_options (some (codes "bits=" ++ decimal bits))
        ≡ record default_options { output_bits_per_sample = some bits }
  unfolding parse_decode_options bits_value
  bits_only h =
      rw
        (
          split-digits (decimal bits) (decimal-IsDigits bits),
          parse_uint-decimal u8_max bits (omega arith),
        )
        (ground arith)

  channels_only :
      0 < channels
      → channels ≤ 16
      → parse_decode_options (some (codes "channels=" ++ decimal channels))
        ≡ record default_options { output_channels = some channels }
  unfolding parse_decode_options channels_value
  channels_only h k =
      rw
        (
          split-digits (decimal channels) (decimal-IsDigits channels),
          parse_uint-decimal u8_max channels (omega arith),
        )
        (ground arith)

-- Acceptable options are read back from the query that asks for them.
pub parse_decode_options-query_of :
    (rate bits channels : ℕ)
    → rate ≤ u32_max
    → ((bits ≡ 16) ⊎ (bits ≡ 24) ⊎ (bits ≡ 32))
    → 0 < channels
    → channels ≤ 16
    → parse_decode_options (some (query_of rate bits channels)) ≡ record {
      output_sample_rate = some rate;
      output_bits_per_sample = some bits;
      output_channels = some channels;
    }
unfolding query_of
parse_decode_options-query_of rate bits channels hr hb hc hd = rw (
  parse_decode_options-append (codes "sample_rate=" ++ decimal rate)
      ((codes "bits=" ++ decimal bits) ++ b'&' ∷ (codes "channels=" ++ decimal channels)),
  parse_decode_options-append (codes "bits=" ++ decimal bits)
      (codes "channels=" ++ decimal channels),
  rate_only rate bits channels hr,
  bits_only rate bits channels hb,
  channels_only rate bits channels hc hd,
)
