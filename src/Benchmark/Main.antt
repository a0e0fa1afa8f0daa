-- ===== src/Benchmark/Main.antt =====
-- `main` of src/bin/opus_benchmark.rs behind its arguments: every source track through both engines. The
-- paths are those of `discover_mp3_tracks`, `decode` is `decode_source_track` of a path, and `clock` gives
-- the two times of each run.
pub mod Runs
pub mod Results
use media_api.Base.{
  usize_mod, ℕ, zero, suc, ◌+◌, ◌*◌, ◌%◌, Bool, true, false, Option, none, some, List, [], ◌∷◌,
  ◌++◌, Bytes, length, Result, ok, err, if◌then◌else◌, is_empty,
}
use media_api.Base.Integers.{pos}
use media_api.Benchmark.Args.{Config}
use media_api.Benchmark.Packets.{Failure, panicked}
use media_api.Benchmark.Quality.{Floats}
use media_api.Benchmark.Source.{SourceTrack, TrackError}
use media_api.Benchmark.Engine.{
  SoundkitOpus, LibopusRust, Backend, sound_kit, lib_opus_rust, label, EngineResult, Run, Row,
  run_engine, print_row, audio_secs_of,
}
use media_api.Benchmark.Summary.{Summary, summarize}

-- Tracks that cannot be decoded are reported and skipped.
unfoldable pub source_tracks :
    (Bytes → Result SourceTrack TrackError) → List Bytes → List SourceTrack
source_tracks decode [] = []
source_tracks decode (path ∷ paths) =
    let rest = source_tracks decode paths in
    elim (decode path) [ ok track ↦ track ∷ rest | err e ↦ rest ]

abbrev pub is_sound_kit : Backend → Bool
is_sound_kit sound_kit = true
is_sound_kit lib_opus_rust = false

abbrev pub is_lib_opus_rust : Backend → Bool
is_lib_opus_rust sound_kit = false
is_lib_opus_rust lib_opus_rust = true

unfoldable pub source_bytes : List SourceTrack → ℕ → ℕ
source_bytes [] total = total
source_bytes (t ∷ ts) total = source_bytes ts ((total + length t.pcm * 2) % usize_mod)

module _ (fl : Floats) (soundkit : SoundkitOpus) (libopus : LibopusRust) where
  abbrev Res : Type 0
  Res = EngineResult fl soundkit libopus

  unfoldable pub source_secs : Config → List SourceTrack → fl.F64 → fl.F64
  source_secs config [] total = total
  source_secs config (t ∷ ts) total =
      source_secs config ts (fl.add total (audio_secs_of fl soundkit libopus config t.pcm))

  -- A result whose line is printed; a line that cannot be is a panic.
  pub on_row : Res → Option (Row fl soundkit libopus) → Result Res Failure
  on_row r none = err panicked
  on_row r (some row) = ok r

  pub printed : Result Res Failure → Result Res Failure
  unfolding on_row
  printed (err e) = err e
  printed (ok r) = on_row r (print_row fl soundkit libopus r)

  -- `run_engine` and `print_row` of one track.
  unfoldable pub run_track :
      Bool → Config → (Backend → ℕ → ℕ × ℕ) → Backend → ℕ → SourceTrack → Result Res Failure
  unfolding printed
  run_track checks config clock backend number track =
      let times = clock backend number in
      printed (
        run_engine fl soundkit libopus (record {
          checks = checks;
          backend = backend;
          track = track;
          config = config;
          encode_time = times.0;
          decode_time = times.1;
        }))

  -- The rest of a loop behind one track, and what both give.
  pub and_more : Result Res Failure → Result (List Res) Failure → Result (List Res) Failure
  and_more (err e) rest = err e
  and_more (ok r) (err e) = err e
  and_more (ok r) (ok rs) = ok (r ∷ rs)

  unfoldable pub run_tracks :
      Bool
      → Config
      → (Backend → ℕ → ℕ × ℕ)
      → Backend
      → ℕ
      → List SourceTrack
      → Result (List Res) Failure
  unfolding and_more
  run_tracks checks config clock backend number [] = ok []
  run_tracks checks config clock backend number (track ∷ tracks) =
      and_more (run_track checks config clock backend number track)
        (run_tracks checks config clock backend (suc number) tracks)

  pub join_results :
      Result (List Res) Failure → Result (List Res) Failure → Result (List Res) Failure
  join_results (err e) rest = err e
  join_results (ok rs) (err e) = err e
  join_results (ok rs) (ok ls) = ok (rs ++ ls)

  -- Both engines in turn.
  unfoldable pub all_results :
      Bool → Config → (Backend → ℕ → ℕ × ℕ) → List SourceTrack → Result (List Res) Failure
  unfolding join_results run_tracks
  all_results checks config clock tracks =
      join_results (run_tracks checks config clock sound_kit 0 tracks)
        (run_tracks checks config clock lib_opus_rust 0 tracks)

  -- `filter(|result| matches!(result.backend, …))`
  unfoldable pub results_by : (Backend → Bool) → List Res → List Res
  results_by is_wanted [] = []
  results_by is_wanted (r ∷ rs) =
      let rest = results_by is_wanted rs in if is_wanted r.backend then r ∷ rest else rest

  pub data Outcome : Type 0 where
    no_tracks : Outcome
    no_source_tracks : Outcome
    panics : Failure → Outcome
    summaries : Summary fl soundkit libopus → Summary fl soundkit libopus → Outcome

  abbrev pub summary_by :
      (Backend → Bool)
      → Backend
      → Config
      → List SourceTrack
      → List Res
      → Summary fl soundkit libopus
  summary_by is_wanted backend config tracks results =
      summarize fl soundkit libopus (results_by is_wanted results)
        (source_secs config tracks fl.zero_f64) (source_bytes tracks 0) (label backend)

  pub on_results : Config → List SourceTrack → Result (List Res) Failure → Outcome
  unfolding results_by source_secs source_bytes
  on_results config tracks (err e) = panics e
  on_results config tracks (ok results) =
      summaries (summary_by is_sound_kit sound_kit config tracks results)
        (summary_by is_lib_opus_rust lib_opus_rust config tracks results)

  unfoldable pub main :
      Bool
      → Config
      → (Backend → ℕ → ℕ × ℕ)
      → (Bytes → Result SourceTrack TrackError)
      → List Bytes
      → Outcome
  unfolding source_tracks on_results all_results
  main checks config clock decode paths =
      let tracks = source_tracks decode paths in
      if is_empty paths
      then no_tracks
      else if is_empty tracks
      then no_source_tracks
      else on_results config tracks (all_results checks config clock tracks)
