-- ===== src/Config.antt =====
-- src/config.rs: the configuration from the environment. A variable that is not set, or is not
-- UTF-8, is `none`. `ServerConfig` is a record of web-service, with the fields that the source names.
mod Tests
use media_api.Base.{
  ℕ, ◌+◌, ◌≤◌, ◌<◌, ◌≡◌, refl, Bool, true, false, ◌&&◌, ◌||◌, Option, none, some, [], ◌∷◌, Bytes,
  codes, map, ltb, leb, text_eq, if◌then◌else◌, unwrap_or, parse_uint, parse_uint-le, u8_max,
  u16_max, u32_max, ◌>>=◌, arith, Option-cases, inl, inr,
}

pub record ServerConfig : Type 0 where
  pub cert_pem_base64 : Bytes
  pub privkey_pem_base64 : Bytes
  pub port : ℕ
  pub enable_h2 : Bool
  pub enable_h3 : Bool
  pub enable_webtransport : Bool
  pub enable_websocket : Bool
  pub enable_raw_tcp : Bool
  pub raw_tcp_port : ℕ
  pub raw_tcp_tls : Bool

pub record MediaApiConfig : Type 0 where
  pub server : ServerConfig
  pub default_output_sample_rate : Option ℕ
  pub default_output_bits : Option ℕ
  pub default_output_channels : Option ℕ

-- `to_lowercase` of the characters of ASCII; no other character has a lower case in "true".
abbrev lower : ℕ → ℕ
lower c = if leb b'A' c && leb c b'Z' then c + 32 else c

unfoldable pub to_lowercase : Bytes → Bytes
to_lowercase = map lower

-- `.map(|v| v == "1" || v.to_lowercase() == "true").unwrap_or(default)`
unfoldable pub flag_or : Bool → Option Bytes → Bool
unfolding to_lowercase
flag_or default none = default
flag_or default (some v) = text_eq v (codes "1") || text_eq (to_lowercase v) (codes "true")

-- `.ok().and_then(|p| p.parse().ok())`
abbrev parsed : ℕ → Option Bytes → Option ℕ
parsed most v = v >>= parse_uint most

unfoldable pub from_env : (Bytes → Option Bytes) → MediaApiConfig
unfolding flag_or
from_env var = record {
  server = record {
    cert_pem_base64 = unwrap_or (var (codes "TLS_CERT_BASE64")) [];
    privkey_pem_base64 = unwrap_or (var (codes "TLS_KEY_BASE64")) [];
    port = unwrap_or (parsed u16_max (var (codes "PORT"))) 8443;
    enable_h2 = true;
    enable_h3 = true;
    enable_webtransport = false;
    enable_websocket = true;
    enable_raw_tcp = flag_or true (var (codes "ENABLE_RAW_TCP"));
    raw_tcp_port = unwrap_or (parsed u16_max (var (codes "RAW_TCP_PORT"))) 9000;
    raw_tcp_tls = flag_or false (var (codes "RAW_TCP_TLS"));
  };
  default_output_sample_rate = parsed u32_max (var (codes "DEFAULT_OUTPUT_SAMPLE_RATE"));
  default_output_bits = parsed u8_max (var (codes "DEFAULT_OUTPUT_BITS"));
  default_output_channels = parsed u8_max (var (codes "DEFAULT_OUTPUT_CHANNELS"));
}

abbrev pub Fits : ℕ → Option ℕ → Type 0
Fits most none = Unit
Fits most (some n) = n ≤ most

parsed-Fits : (most : ℕ) (v : Option Bytes) → Fits most (parsed most v)
parsed-Fits most none = tt
parsed-Fits most (some s) = elim (Option-cases (parse_uint most s)) [
  | inl e ↦ rw e tt
  | inr (n, e) ↦ rw e (parse_uint-le most s e)
]

Fits-unwrap_or : (most d : ℕ) (o : Option ℕ) → d ≤ most → Fits most o → unwrap_or o d ≤ most
Fits-unwrap_or most d none h k = h
Fits-unwrap_or most d (some n) h k = k

-- Whatever the environment holds, the two ports are 16-bit numbers and the default options fit the
-- types that they have in the source.
pub from_env-Fits :
    (var : Bytes → Option Bytes)
    → let c = from_env var in
      (c.server.port ≤ u16_max)
      × (c.server.raw_tcp_port ≤ u16_max)
      × Fits u32_max c.default_output_sample_rate
      × Fits u8_max c.default_output_bits
      × Fits u8_max c.default_output_channels
unfolding from_env
from_env-Fits var = (
  Fits-unwrap_or u16_max 8443 _ (omega arith) (parsed-Fits u16_max (var (codes "PORT"))),
  Fits-unwrap_or u16_max 9000 _ (omega arith) (parsed-Fits u16_max (var (codes "RAW_TCP_PORT"))),
  parsed-Fits u32_max (var (codes "DEFAULT_OUTPUT_SAMPLE_RATE")),
  parsed-Fits u8_max (var (codes "DEFAULT_OUTPUT_BITS")),
  parsed-Fits u8_max (var (codes "DEFAULT_OUTPUT_CHANNELS")),
)
