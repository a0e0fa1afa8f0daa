-- ===== src/Tcp/Meta.antt =====
-- `PcmEncoding`, `encode_meta` and `decode_meta` of src/tcp_handler.rs. A byte is a number below
-- 256, and an array of seven bytes is a list of seven.
use media_api.Base.{
  ℕ, ◌+◌, ◌*◌, ◌/◌, ◌%◌, ◌^◌, ◌≤◌, ◌<◌, ◌≡◌, refl, ◌⊎◌, inl, inr, Option, none, some, [], ◌∷◌, ◌++◌,
  Bytes, arith, length, All, ◌==◌, if◌then◌else◌,
}

pub data PcmEncoding : Type 0 where
  signed float : PcmEncoding

-- `encoding as u8`
abbrev pub code_of : PcmEncoding → ℕ
code_of signed = 0
code_of float = 1

-- The `match` on the last byte.
abbrev pub encoding_of : ℕ → PcmEncoding
encoding_of b = if b == 0 then signed else if b == 1 then float else signed

abbrev pub to_be_bytes : ℕ → Bytes
to_be_bytes n = (n / 2 ^ 24 % 256) ∷ (n / 2 ^ 16 % 256) ∷ (n / 2 ^ 8 % 256) ∷ (n % 256) ∷ []

abbrev pub from_be_bytes : ℕ → ℕ → ℕ → ℕ → ℕ
from_be_bytes a b c d = a * 2 ^ 24 + b * 2 ^ 16 + c * 2 ^ 8 + d

unfoldable pub encode_meta : ℕ → ℕ → ℕ → PcmEncoding → Bytes
encode_meta sample_rate channels bits encoding =
    to_be_bytes sample_rate ++ channels ∷ bits ∷ code_of encoding ∷ []

pub record Meta : Type 0 where
  pub sample_rate : ℕ
  pub channels : ℕ
  pub bits : ℕ
  pub encoding : PcmEncoding

-- Fewer than seven bytes are refused, and what follows the seventh is not read.
unfoldable pub decode_meta : Bytes → Option Meta
decode_meta (a ∷ b ∷ c ∷ d ∷ channels ∷ bits ∷ e ∷ rest) = some (record {
  sample_rate = from_be_bytes a b c d;
  channels = channels;
  bits = bits;
  encoding = encoding_of e;
})
decode_meta _ = none

encoding_of-code_of : (e : PcmEncoding) → encoding_of (code_of e) ≡ e
encoding_of-code_of signed = refl
encoding_of-code_of float = refl

be_bytes :
    (n : ℕ)
    → n < 2 ^ 32
    → from_be_bytes (n / 2 ^ 24 % 256) (n / 2 ^ 16 % 256) (n / 2 ^ 8 % 256) (n % 256) ≡ n
be_bytes n h = omega arith

-- Whatever follows it, encoded metadata with a 32-bit rate is read back.
pub decode_meta-encode_meta :
    (m : Meta) (rest : Bytes)
    → m.sample_rate < 2 ^ 32
    → decode_meta (encode_meta m.sample_rate m.channels m.bits m.encoding ++ rest) ≡ some m
unfolding decode_meta encode_meta
decode_meta-encode_meta m rest h =
    ground (arith, be_bytes m.sample_rate h, encoding_of-code_of m.encoding)

abbrev IsByte : ℕ → Type 0
IsByte b = b < 256

-- The seventh byte, as `decode_meta` understands it: all but 1 are read as 0.
abbrev normal : ℕ → ℕ
normal b = if b == 1 then 1 else 0

abbrev pub normal_meta : Bytes → Bytes
normal_meta (a ∷ b ∷ c ∷ d ∷ channels ∷ bits ∷ e ∷ rest) =
    a ∷ b ∷ c ∷ d ∷ channels ∷ bits ∷ normal e ∷ []
normal_meta _ = []

to_be-from_be :
    (a b c d : ℕ)
    → a < 256
    → b < 256
    → c < 256
    → d < 256
    → to_be_bytes (from_be_bytes a b c d) ≡ a ∷ b ∷ c ∷ d ∷ []
to_be-from_be a b c d ha hb hc hd = ground (
  arith,
  first a b c d hb hc hd ha,
  second a b c d hb hc hd,
  third a b c d hc hd,
  fourth a b c d hd,
)
  where
    first :
        (a b c d : ℕ)
        → b < 256
        → c < 256
        → d < 256
        → a < 256
        → from_be_bytes a b c d / 2 ^ 24 % 256 ≡ a
    first a b c d hb hc hd ha = omega arith

    second : (a b c d : ℕ) → b < 256 → c < 256 → d < 256 → from_be_bytes a b c d / 2 ^ 16 % 256 ≡ b
    second a b c d hb hc hd = omega arith

    third : (a b c d : ℕ) → c < 256 → d < 256 → from_be_bytes a b c d / 2 ^ 8 % 256 ≡ c
    third a b c d hc hd = omega arith

    fourth : (a b c d : ℕ) → d < 256 → from_be_bytes a b c d % 256 ≡ d
    fourth a b c d hd = omega arith

-- Of any byte string, `decode_meta` reads the metadata that encodes to its first seven bytes, with
-- an unknown encoding as signed, or nothing if there are fewer than seven.
pub decode_meta_sound :
    (s : Bytes)
    → All IsByte s
    → ((length s < 7) × (decode_meta s ≡ none))
      ⊎ ((m : Meta) × (decode_meta s ≡ some m)
          × (7 ≤ length s)
          × (encode_meta m.sample_rate m.channels m.bits m.encoding ≡ normal_meta s))
unfolding decode_meta encode_meta
decode_meta_sound (a ∷ b ∷ c ∷ d ∷ channels ∷ bits ∷ e ∷ rest) (ha, (hb, (hc, (hd, _)))) =
    inr (_, refl, omega arith, ground (arith, to_be-from_be a b c d ha hb hc hd))
decode_meta_sound _ h = inl (omega arith, refl)

meta_tests :
    (encode_meta 48000 2 16 float ≡ 0 ∷ 0 ∷ 187 ∷ 128 ∷ 2 ∷ 16 ∷ 1 ∷ [])
    × (decode_meta (1 ∷ 2 ∷ 3 ∷ []) ≡ none)
unfolding encode_meta decode_meta
meta_tests = (refl, refl)
