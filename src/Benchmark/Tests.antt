-- ===== src/Benchmark/Tests.antt =====
-- The benchmark's theorems at concrete arguments, and at a library whose packets are the samples.
use media_api.Base.{
  ℕ, suc, ◌*◌, ◌<◌, ◌≡◌, ◌↔◌, ◌⊎◌, refl, List, [], ◌∷◌, Bytes, ok, err, length, map, replicate,
  arith, Result,
}
use media_api.Base.Integers.{ℤ, pos, negsuc}
use media_api.Base.{codes, true, false, none, ℕ}
use media_api.Soundkit.{Pipeline, Receive, received, finished, sent}
use media_api.Fixtures.{Clip, clips, mono_clip}
use media_api.Pool.Worker.Completion.{gives, at_end}
use media_api.Benchmark.Source.{SourceTrack, TrackError, no_audio, on_output, decode_source_track}
use media_api.Benchmark.Source.Samples.{decode_source_track-samples_of}
use media_api.Benchmark.Quality.{compare_pcm}
use media_api.Benchmark.Quality.Errors.{folded}
use media_api.Benchmark.Quality.Peak.{largest, Compared, compare_pcm_max_abs}
use media_api.Benchmark.Engine.{Backend, lib_opus_rust, encode_track, Run, run_engine}
use media_api.Benchmark.Engine.Printing.{Printed, run_engine-Printed}
use media_api.Benchmark.Fixtures.{plain, plain_soundkit, plain_libopus, whole}
use media_api.Benchmark.Args.{Config, parsed, parse_args, args_of, OutcomeFits, parse_args-args_of}
use media_api.Benchmark.Packets.{panicked, chunks, encode_with, decode_with, max_frame_samples}
use media_api.Benchmark.Packets.Framing.{encode_all, decode_all, decode_with-encode_with}
use media_api.Benchmark.Engine.Setup.{IsSetUp, encode_track_panics_iff}

abbrev identity : Bytes → Bytes
identity e = e

abbrev three_samples : List ℤ
three_samples = pos 7 ∷ pos 8 ∷ pos 9 ∷ []

abbrev two_packets : Bytes
two_packets = 2 ∷ 0 ∷ 0 ∷ 0 ∷ 7 ∷ 8 ∷ 2 ∷ 0 ∷ 0 ∷ 0 ∷ 9 ∷ 0 ∷ []

two_packets_written : encode_with plain identity 5 1 2 three_samples ≡ ok two_packets
unfolding encode_with
two_packets_written = refl

decode_with-encode_with_example :
    (ps : List Bytes) × (encode_all plain identity
        (2 * 1)
        (chunks plain (suc (length three_samples)) (2 * 1) three_samples)
        5
      ≡ ok ps)
    × (decode_with plain identity 6 1 two_packets
        ≡ decode_all plain identity 1 ps 6 (replicate (max_frame_samples * 1) (pos 0)) [])
decode_with-encode_with_example =
    decode_with-encode_with plain identity identity 5 6 1 2 three_samples two_packets
      two_packets_written

abbrev mono_config : Config
mono_config = record {
  source_dir = codes "--channels";
  sample_rate = 16000;
  channels = 1;
  bitrate = 24000;
}

abbrev slow_config : Config
slow_config = record mono_config { sample_rate = 800 }

encode_track_panics_iff_example :
    (encode_track whole plain_soundkit plain_libopus lib_opus_rust slow_config three_samples
      ≡ err panicked)
    ↔ (IsSetUp whole plain_soundkit plain_libopus lib_opus_rust slow_config
        × (◌≡◌ {A = ℕ} 1 0 ⊎ (800 < 1000)))
encode_track_panics_iff_example =
    encode_track_panics_iff whole plain_soundkit plain_libopus lib_opus_rust slow_config
      three_samples

parse_args-args_of_example :
    (parse_args (args_of mono_config) ≡ parsed mono_config)
    × OutcomeFits (parse_args (codes "--channels" ∷ codes "300" ∷ []))
parse_args-args_of_example =
    parse_args-args_of mono_config (codes "--channels" ∷ codes "300" ∷ [])
      (omega arith, omega arith, omega arith)

-- Two samples at a distance of 65535, which wraps around to 1.
abbrev loud : List ℤ
loud = pos 32767 ∷ []

abbrev quiet : List ℤ
quiet = negsuc 32767 ∷ []

compare_pcm_max_abs_example : Compared whole false loud quiet (compare_pcm whole false loud quiet)
compare_pcm_max_abs_example =
    compare_pcm_max_abs whole false loud quiet ((omega arith, omega arith), tt)
      ((omega arith, omega arith), tt)

wrapped_test : largest folded loud quiet ≡ 1
wrapped_test = refl

abbrev short_track : SourceTrack
short_track = record { name = codes "a.mp3"; pcm = three_samples }

abbrev one_run : Run whole plain_soundkit plain_libopus
one_run = record {
  checks = true;
  backend = lib_opus_rust;
  track = short_track;
  config = mono_config;
  encode_time = 7;
  decode_time = 5;
}

run_engine-Printed_example :
    Printed whole plain_soundkit plain_libopus one_run
      (run_engine whole plain_soundkit plain_libopus one_run)
run_engine-Printed_example = run_engine-Printed whole plain_soundkit plain_libopus one_run

-- One of two files can be decoded.
abbrev decoded_files : Bytes → Result SourceTrack TrackError
decoded_files [] = err no_audio
decoded_files (c ∷ cs) = ok short_track

abbrev clock : Backend → ℕ → ℕ × ℕ
clock backend number = (number, 3)

abbrev two_paths : List Bytes
two_paths = [] ∷ codes "a.mp3" ∷ []

-- A pipeline that holds the file as one clip, and gives it after the end of the input.
abbrev give : List Bytes → Receive Clip (List Bytes)
give [] = finished []
give (chunk ∷ chunks) = received (ok (record mono_clip { bytes = chunk })) chunks

abbrev one_clip_pipeline : Pipeline clips
one_clip_pipeline = record {
  Handle = List Bytes;
  spawn_with_options = λ _. [];
  send = λ h chunk. elim chunk [ [] ↦ sent h | b ∷ bs ↦ sent ((b ∷ bs) ∷ h) ];
  try_recv = give;
  recv = give;
}

decode_source_track-samples_of_example :
    decode_source_track clips one_clip_pipeline (map pos) 2 [] none (ok (4 ∷ 2 ∷ [])) 16000 1
    ≡ on_output clips one_clip_pipeline (map pos) [] (ok (4 ∷ 2 ∷ []))
decode_source_track-samples_of_example =
    decode_source_track-samples_of clips one_clip_pipeline (map pos) 2 [] none (4 ∷ 2 ∷ []) 16000 1
      ((4 ∷ 2 ∷ []) ∷ []) ((4 ∷ 2 ∷ []) ∷ []) (ok (record mono_clip { bytes = 4 ∷ 2 ∷ [] }) ∷ [])
      refl refl (gives refl (at_end refl)) (omega arith)
