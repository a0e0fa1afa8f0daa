-- ===== src/Benchmark/Engine.antt =====
-- `run_engine` and `print_row` of src/bin/opus_benchmark.rs: one track through one of the two Opus
-- libraries, which are parameters. The times that the clock measures are arguments.
pub mod Setup
pub mod Printing
pub mod Origin
use media_api.Base.{
  ℕ, ◌*◌, ◌/◌, Bool, true, false, ◌||◌, Option, none, some, List, [], ◌∷◌, ◌++◌, Bytes, codes,
  Result, ok, err, if◌then◌else◌, length, ltb, ◌==◌,
}
use media_api.Base.Integers.{ℤ, pos, sub_ℕ}
use media_api.Benchmark.Args.{Config}
use media_api.Benchmark.Packets.{
  Opus, Failure, failed, truncated, panicked, out_of_fuel, frame_size, encode_with_soundkit,
  encode_with_libopus_rust, decode_with_soundkit, decode_with_libopus_rust,
}
use media_api.Benchmark.Quality.{Floats, Quality, compare_pcm}
use media_api.Benchmark.Source.{SourceTrack}

-- How the benchmark sets up soundkit-opus: by the sample rate, the bits of a sample, the channels, the
-- size of a frame and the bit rate.
pub record SoundkitOpus : Type 1 where
  pub opus : Opus
  pub init_encoder : ℕ → ℕ → ℕ → ℕ → ℕ → Result opus.Encoder Bytes
  pub init_decoder : ℕ → ℕ → Result opus.Decoder Bytes

-- How it sets up libopus: by the sample rate, the channels, the streams, the coupled streams and the
-- mapping; the bit rate is an option of the encoder.
pub record LibopusRust : Type 1 where
  pub opus : Opus
  pub create_encoder : ℕ → ℕ → ℕ → ℕ → Bytes → Result opus.Encoder Bytes
  pub set_bitrate : opus.Encoder → ℕ → Result opus.Encoder Bytes
  pub create_decoder : ℕ → ℕ → ℕ → ℕ → Bytes → Result opus.Decoder Bytes

pub data Backend : Type 0 where
  sound_kit lib_opus_rust : Backend

abbrev pub label : Backend → Bytes
label sound_kit = codes "soundkit-opus"
label lib_opus_rust = codes "libopus-rs"

-- `?` and `map_err` on what a set-up returns.
abbrev pub and_then {ℓ κ} :
    {A : Type ℓ} {B : Type κ}
    → (Bytes → Bytes)
    → (A → Result B Failure)
    → Result A Bytes
    → Result B Failure
and_then message next (err e) = err (failed (message e))
and_then message next (ok x) = next x

abbrev pub coupled : ℕ → ℕ
coupled channels = if ltb 1 channels then 1 else 0

abbrev pub same : Bytes → Bytes
same e = e

module _ (fl : Floats) (soundkit : SoundkitOpus) (libopus : LibopusRust) where
  -- The two encoding functions, with their set-up.
  abbrev pub soundkit_encoded : Config → List ℤ → Result Bytes Failure
  soundkit_encoded c pcm =
      let size = frame_size c.sample_rate in
      and_then same (λ e. encode_with_soundkit soundkit.opus e c.channels size pcm)
        (soundkit.init_encoder c.sample_rate 16 c.channels size c.bitrate)

  abbrev pub libopus_rust_encoded : Config → List ℤ → Result Bytes Failure
  libopus_rust_encoded c pcm =
      and_then (λ e. codes "libopus-rs create encoder: " ++ e)
        (λ e.
          and_then (λ x. codes "libopus-rs set bitrate: " ++ x)
            (λ e'.
              encode_with_libopus_rust libopus.opus e' c.channels (frame_size c.sample_rate) pcm)
            (libopus.set_bitrate e c.bitrate))
        (libopus.create_encoder c.sample_rate c.channels 1 (coupled c.channels) (0 ∷ 1 ∷ []))

  unfoldable pub encode_track : Backend → Config → List ℤ → Result Bytes Failure
  encode_track sound_kit c pcm = soundkit_encoded c pcm
  encode_track lib_opus_rust c pcm = libopus_rust_encoded c pcm

  -- The two decoding functions, with their set-up.
  abbrev pub soundkit_decoded : Config → Bytes → Result (List ℤ) Failure
  soundkit_decoded c packets =
      and_then same (λ d. decode_with_soundkit soundkit.opus d c.channels packets)
        (soundkit.init_decoder c.sample_rate c.channels)

  abbrev pub libopus_rust_decoded : Config → Bytes → Result (List ℤ) Failure
  libopus_rust_decoded c packets =
      and_then (λ e. codes "libopus-rs create decoder: " ++ e)
        (λ d. decode_with_libopus_rust libopus.opus d c.channels packets)
        (libopus.create_decoder c.sample_rate c.channels 1 (coupled c.channels) (0 ∷ 1 ∷ []))

  unfoldable pub decode_track : Backend → Config → Bytes → Result (List ℤ) Failure
  decode_track sound_kit c packets = soundkit_decoded c packets
  decode_track lib_opus_rust c packets = libopus_rust_decoded c packets

  -- Times are in nanoseconds.
  pub record EngineResult : Type 0 where
    pub track : Bytes
    pub backend : Backend
    pub encode_time : ℕ
    pub decode_time : ℕ
    pub encoded_bytes : ℕ
    pub decoded_bytes : ℕ
    pub audio_secs : fl.F64
    pub quality : Option (Quality fl)
    pub output_len_match : ℤ
    pub encode_error : Option Bytes
    pub decode_error : Option Bytes

  unfoldable pub encode_rtf : EngineResult → fl.F64
  encode_rtf r =
      if (r.encode_time == 0) || (r.encoded_bytes == 0)
      then fl.zero_f64
      else fl.div r.audio_secs (fl.secs r.encode_time)

  unfoldable pub decode_rtf : EngineResult → fl.F64
  decode_rtf r =
      if r.decode_time == 0 then fl.zero_f64 else fl.div r.audio_secs (fl.secs r.decode_time)

  abbrev pub audio_secs_of : Config → List ℤ → fl.F64
  audio_secs_of c pcm =
      fl.div (fl.of_int (pos (length pcm)))
        (fl.mul (fl.of_int (pos c.sample_rate)) (fl.of_int (pos c.channels)))

  -- The text of an error. A panic is none.
  abbrev pub text_of : Backend → Failure → Option Bytes
  text_of b (failed e) = some e
  text_of sound_kit truncated = some (codes "truncated soundkit packet stream")
  text_of lib_opus_rust truncated = some (codes "truncated libopus-rs packet stream")
  text_of b panicked = none
  text_of b out_of_fuel = none

  -- What `run_engine` has at hand: whether overflow is checked, the engine, the track, the configuration
  -- and the two times.
  pub record Run : Type 0 where
    pub checks : Bool
    pub backend : Backend
    pub track : SourceTrack
    pub config : Config
    pub encode_time : ℕ
    pub decode_time : ℕ

  abbrev pub encode_failed : Run → Bytes → EngineResult
  encode_failed run error = record {
    track = run.track.name;
    backend = run.backend;
    encode_time = run.encode_time;
    decode_time = 0;
    encoded_bytes = 0;
    decoded_bytes = 0;
    audio_secs = fl.zero_f64;
    quality = none;
    output_len_match = pos 0;
    encode_error = some error;
    decode_error = none;
  }

  abbrev result_of : Run → Bytes → List ℤ → Option (Quality fl) → Option Bytes → EngineResult
  result_of run encoded decoded quality decode_error = record {
    track = run.track.name;
    backend = run.backend;
    encode_time = run.encode_time;
    decode_time = run.decode_time;
    encoded_bytes = length encoded;
    decoded_bytes = length decoded * 2;
    audio_secs = audio_secs_of run.config run.track.pcm;
    quality = quality;
    output_len_match = sub_ℕ (length decoded) (length run.track.pcm);
    encode_error = none;
    decode_error = decode_error;
  }

  pub on_compared :
      Run → Bytes → List ℤ → Result (Option (Quality fl)) Failure → Result EngineResult Failure
  on_compared run encoded decoded (err e) = err e
  on_compared run encoded decoded (ok quality) = ok (result_of run encoded decoded quality none)

  -- A failure ends in the text of an error, or is passed on as a panic.
  abbrev pub or_panic :
      Failure → (Bytes → EngineResult) → Option Bytes → Result EngineResult Failure
  or_panic failure on_error (some e) = ok (on_error e)
  or_panic failure on_error none = err failure

  pub on_decoded : Run → Bytes → Result (List ℤ) Failure → Result EngineResult Failure
  unfolding on_compared
  on_decoded run encoded (err failure) =
      or_panic failure (λ e. result_of run encoded [] none (some e)) (text_of run.backend failure)
  on_decoded run encoded (ok decoded) =
      on_compared run encoded decoded (compare_pcm fl run.checks run.track.pcm decoded)

  pub on_encoded : Run → Result Bytes Failure → Result EngineResult Failure
  unfolding on_decoded
  on_encoded run (err failure) = or_panic failure (encode_failed run) (text_of run.backend failure)
  on_encoded run (ok encoded) = on_decoded run encoded (decode_track run.backend run.config encoded)

  unfoldable pub run_engine : Run → Result EngineResult Failure
  unfolding on_encoded
  run_engine run = on_encoded run (encode_track run.backend run.config run.track.pcm)

  -- A line of the table.
  pub data Row : Type 0 where
    encode_fail : Bytes → Bytes → Bytes → Row
    decode_fail : Bytes → Bytes → ℕ → ℕ → Bytes → Row
    measured : EngineResult → fl.F64 → fl.F64 → Quality fl → Row

  pub row_of_quality : EngineResult → Option (Quality fl) → Option Row
  row_of_quality r none = none
  row_of_quality r (some quality) = some (measured r (encode_rtf r) (decode_rtf r) quality)

  row_of_decode : EngineResult → Option Bytes → Option Row
  unfolding row_of_quality
  row_of_decode r (some e) =
      some (decode_fail r.track (label r.backend) r.encoded_bytes r.encode_time e)
  row_of_decode r none = row_of_quality r r.quality

  row_of_encode : EngineResult → Option Bytes → Option Row
  unfolding row_of_decode
  row_of_encode r (some e) = some (encode_fail r.track (label r.backend) e)
  row_of_encode r none = row_of_decode r r.decode_error

  -- `print_row`, which panics where it expects a quality and finds none.
  unfoldable pub print_row : EngineResult → Option Row
  unfolding row_of_encode
  print_row r = row_of_encode r r.encode_error
