-- ===== src/Decode/Fields.antt =====
-- What `parse_decode_options` returns, field by field, and how queries compose.
use media_api.Base.{
  ℕ, ◌≤◌, ◌<◌, ◌≡◌, refl, ◌⊎◌, inl, inr, sym, ap, ◌∙◌, Bool, true, false, Option, none, some, List,
  [], ◌∷◌, Bytes, arith, if◌then◌else◌, or_else, or_else_assoc, unwrap_or, parse_uint,
  parse_uint-le, u32_max, Option-cases,
}
use media_api.Soundkit.{DecodeOptions}
use media_api.Decode.{
  default_options, split, split_pair, Key, rate_key, bits_key, channels_key, other_key, classify,
  rate_value, bits_value, channels_value, store, apply_key, apply_pair, apply_pairs,
  parse_decode_options,
}

-- What an option may hold when it comes from a query.
abbrev pub Holds : (ℕ → Type 0) → Option ℕ → Type 0
Holds P none = Unit
Holds P (some n) = P n

pub record IsValid (o : DecodeOptions) : Type 0 where
  pub rate : Holds (λ n. n ≤ u32_max) o.output_sample_rate
  pub bits : Holds (λ n. (n ≡ 16) ⊎ (n ≡ 24) ⊎ (n ≡ 32)) o.output_bits_per_sample
  pub channels : Holds (λ n. (0 < n) × (n ≤ 16)) o.output_channels

Holds-store :
    (P : ℕ → Type 0) (new old : Option ℕ) → Holds P new → Holds P old → Holds P (store new old)
Holds-store P none old h k = k
Holds-store P (some v) old h k = h

rate_value-Holds : (s : Bytes) → Holds (λ n. n ≤ u32_max) (rate_value s)
unfolding rate_value
rate_value-Holds s = elim (Option-cases (parse_uint u32_max s)) [
  | inl e ↦ rw e tt
  | inr (n, e) ↦ rw e (parse_uint-le u32_max s e)
]

bits_value-Holds : (s : Bytes) → Holds (λ n. (n ≡ 16) ⊎ (n ≡ 24) ⊎ (n ≡ 32)) (bits_value s)
unfolding bits_value
bits_value-Holds s = ground arith

channels_value-Holds : (s : Bytes) → Holds (λ n. (0 < n) × (n ≤ 16)) (channels_value s)
unfolding channels_value
channels_value-Holds s = ground arith

apply_key-IsValid :
    (k : Key) (value : Bytes) (o : DecodeOptions) → IsValid o → IsValid (apply_key k value o)
unfolding apply_key
apply_key-IsValid rate_key value o v = record {
  rate = Holds-store _ (rate_value value) _ (rate_value-Holds value) v.rate;
  bits = v.bits;
  channels = v.channels;
}
apply_key-IsValid bits_key value o v = record {
  rate = v.rate;
  bits = Holds-store _ (bits_value value) _ (bits_value-Holds value) v.bits;
  channels = v.channels;
}
apply_key-IsValid channels_key value o v = record {
  rate = v.rate;
  bits = v.bits;
  channels = Holds-store _ (channels_value value) _ (channels_value-Holds value) v.channels;
}
apply_key-IsValid other_key value o v = v

apply_pairs-IsValid : (o : DecodeOptions) (ps : List Bytes) → IsValid o → IsValid (apply_pairs o ps)
unfolding apply_pairs
apply_pairs-IsValid o [] v = v
apply_pairs-IsValid o (p ∷ ps) v =
    apply_pairs-IsValid (apply_pair o p) ps
      (apply_key-IsValid (classify (split_pair b'=' p).0) (unwrap_or (split_pair b'=' p).1 []) o v)

-- Whatever the query, a stored rate fits 32 bits, a stored bit depth is 16, 24 or 32 and a stored
-- channel count is between 1 and 16.
pub parse_decode_options-IsValid : (query : Option Bytes) → IsValid (parse_decode_options query)
unfolding parse_decode_options
parse_decode_options-IsValid none = record { rate = tt; bits = tt; channels = tt }
parse_decode_options-IsValid (some q) =
    apply_pairs-IsValid default_options (split b'&' q)
      (record { rate = tt; bits = tt; channels = tt })

-- The first options where they are set, else the second.
abbrev pub override : DecodeOptions → DecodeOptions → DecodeOptions
override a b = record {
  output_sample_rate = or_else a.output_sample_rate b.output_sample_rate;
  output_bits_per_sample = or_else a.output_bits_per_sample b.output_bits_per_sample;
  output_channels = or_else a.output_channels b.output_channels;
}

-- The value that one pair gives to the field of a key.
abbrev pub same_key : Key → Key → Bool
same_key rate_key rate_key = true
same_key bits_key bits_key = true
same_key channels_key channels_key = true
same_key other_key other_key = true
same_key _ _ = false

abbrev pub value_for : Key → (Bytes → Option ℕ) → Bytes → Option ℕ
value_for k read pair =
    if same_key (classify (split_pair b'=' pair).0) k
    then read (unwrap_or (split_pair b'=' pair).1 [])
    else none

-- The last value in the list that is there.
abbrev pub last_value : (Bytes → Option ℕ) → List Bytes → Option ℕ
last_value f [] = none
last_value f (p ∷ ps) = or_else (last_value f ps) (f p)

abbrev pub fields_of : List Bytes → DecodeOptions
fields_of ps = record {
  output_sample_rate = last_value (value_for rate_key rate_value) ps;
  output_bits_per_sample = last_value (value_for bits_key bits_value) ps;
  output_channels = last_value (value_for channels_key channels_value) ps;
}

store-or_else : (a b : Option ℕ) → store a b ≡ or_else a b
store-or_else none b = refl
store-or_else (some a) b = refl

apply_key-override :
    (k : Key) (v : Bytes) (o : DecodeOptions)
    → apply_key k v o
      ≡ override
          (record {
            output_sample_rate = if same_key k rate_key then rate_value v else none;
            output_bits_per_sample = if same_key k bits_key then bits_value v else none;
            output_channels = if same_key k channels_key then channels_value v else none;
          })
          o
unfolding apply_key
apply_key-override rate_key v o = rw (store-or_else (rate_value v) o.output_sample_rate)
apply_key-override bits_key v o = rw (store-or_else (bits_value v) o.output_bits_per_sample)
apply_key-override channels_key v o = rw (store-or_else (channels_value v) o.output_channels)
apply_key-override other_key v o = refl

pub override_assoc : (a b c : DecodeOptions) → override (override a b) c ≡ override a (override b c)
override_assoc a b c = λ i. record {
  output_sample_rate =
      or_else_assoc a.output_sample_rate b.output_sample_rate c.output_sample_rate i;
  output_bits_per_sample =
      or_else_assoc a.output_bits_per_sample b.output_bits_per_sample c.output_bits_per_sample i;
  output_channels = or_else_assoc a.output_channels b.output_channels c.output_channels i;
}

pub apply_pairs-fields :
    (o : DecodeOptions) (ps : List Bytes) → apply_pairs o ps ≡ override (fields_of ps) o
unfolding apply_pairs
apply_pairs-fields o [] = refl
apply_pairs-fields o (p ∷ ps) =
    rw
      (
        apply_pairs-fields (apply_pair o p) ps,
        apply_key-override (classify (split_pair b'=' p).0) (unwrap_or (split_pair b'=' p).1 []) o,
      )
      (sym (override_assoc (fields_of ps) (fields_of (p ∷ [])) o))

pub override-default : (a : DecodeOptions) → override a default_options ≡ a
override-default a = ground arith

-- Each field holds the last acceptable value among the pairs of the query, split at `&`, whose key
-- is one of the field's names; pairs with other keys or values that are refused change nothing.
pub parse_decode_options_fields :
    (q : Bytes)
    → let ps = split b'&' q in
      let o = parse_decode_options (some q) in
      (o.output_sample_rate ≡ last_value (value_for rate_key rate_value) ps)
      × (o.output_bits_per_sample ≡ last_value (value_for bits_key bits_value) ps)
      × (o.output_channels ≡ last_value (value_for channels_key channels_value) ps)
unfolding parse_decode_options
parse_decode_options_fields q =
    let e = apply_pairs-fields default_options (split b'&' q) in
    let all = override-default (fields_of (split b'&' q)) in
    (
      ap (λ (o : DecodeOptions). o.output_sample_rate) e
          ∙ ap (λ (o : DecodeOptions). o.output_sample_rate) all,
      ap (λ (o : DecodeOptions). o.output_bits_per_sample) e
          ∙ ap (λ (o : DecodeOptions). o.output_bits_per_sample) all,
      ap (λ (o : DecodeOptions). o.output_channels) e
          ∙ ap (λ (o : DecodeOptions). o.output_channels) all,
    )
