-- ===== src/Config/Tests.antt =====
-- The configuration of one environment.
use media_api.Base.{
  ◌≡◌, refl, true, false, Option, none, some, Bytes, codes, text_eq, if◌then◌else◌, parse_uint,
}
use media_api.Config.{from_env}

abbrev environment : Bytes → Option Bytes
environment name =
    if text_eq name (codes "PORT")
    then some (codes "70000")
    else if text_eq name (codes "RAW_TCP_TLS")
    then some (codes "TRUE")
    else if text_eq name (codes "ENABLE_RAW_TCP")
    then some (codes "no")
    else if text_eq name (codes "DEFAULT_OUTPUT_BITS")
    then some (codes "4")
    else none

environment_test :
    ((from_env environment).server.port ≡ 8443)
    × ((from_env environment).server.raw_tcp_tls ≡ true)
    × ((from_env environment).server.enable_raw_tcp ≡ false)
    × ((from_env environment).default_output_bits ≡ some 4)
unfolding from_env parse_uint
environment_test = (refl, refl, refl, refl)
