-- ===== src/Benchmark/Fixtures.antt =====
-- Opus libraries whose packets are the samples, and numbers without fractions in place of `f64`.
use media_api.Base.{
  ℕ, zero, suc, ◌+◌, ◌-◌, ◌*◌, ◌/◌, ◌≤◌, ◌≡◌, List, ◌++◌, Bytes, Result, ok, map, take, drop,
  length, length-take, arith, ltb, ◌==◌,
}
use media_api.Base.Integers.{ℤ, pos, pos_part}
use media_api.Benchmark.Packets.{Opus}
use media_api.Benchmark.Quality.{Floats}
use media_api.Benchmark.Engine.{SoundkitOpus, LibopusRust}

pub short_packet :
    (e e' : ℕ) (frame : List ℤ) (packet : Bytes)
    → ◌≡◌ {A = Result (Bytes × ℕ) Bytes} (ok (take 1500 (map pos_part frame), e)) (ok (packet, e'))
    → length packet ≤ 1500
short_packet e e' frame packet q = ground (arith, length-take {0} 1500 (map pos_part frame))

abbrev pub plain : Opus
plain = record {
  Encoder = ℕ;
  Decoder = ℕ;
  encode = λ e frame. ok (take 1500 (map pos_part frame), e);
  encode-fits = short_packet;
  decode =
      λ d packet scratch. ok (length packet, map pos packet ++ drop (length packet) scratch, d);
}

abbrev pub plain_soundkit : SoundkitOpus
plain_soundkit = record {
  opus = plain;
  init_encoder = λ sample_rate bits channels frame_size bitrate. ok 5;
  init_decoder = λ sample_rate channels. ok 6;
}

abbrev pub plain_libopus : LibopusRust
plain_libopus = record {
  opus = plain;
  create_encoder = λ sample_rate channels streams coupled mapping. ok 5;
  set_bitrate = λ e bitrate. ok e;
  create_decoder = λ sample_rate channels streams coupled mapping. ok 6;
}

abbrev div_ℕ : ℕ → ℕ → ℕ
div_ℕ a zero = 0
div_ℕ a (suc b) = a / suc b

abbrev pub whole : Floats
whole = record {
  F64 = ℕ;
  zero_f64 = 0;
  twenty = 20;
  infinity = 1000000;
  of_int = pos_part;
  add = ◌+◌;
  sub = ◌-◌;
  mul = ◌*◌;
  div = div_ℕ;
  abs = λ n. n;
  square = λ n. n * n;
  secs = λ n. n / 1000000000;
  sqrt = λ n. n;
  log10 = λ n. n;
  is_zero = λ n. n == 0;
  is_positive = λ n. ltb 0 n;
}
