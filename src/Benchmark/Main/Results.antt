-- ===== src/Benchmark/Main/Results.antt =====
-- The two summaries of the benchmark, against the runs of each engine.
use media_api.Base.{ℕ, ◌≡◌, Bool, true, List, Bytes, length, Result, ok, is_empty}
use media_api.Benchmark.Args.{Config}
use media_api.Benchmark.Packets.{panicked}
use media_api.Benchmark.Quality.{Floats}
use media_api.Benchmark.Source.{SourceTrack, TrackError}
use media_api.Benchmark.Engine.{
  SoundkitOpus, LibopusRust, Backend, sound_kit, lib_opus_rust, label, EngineResult,
}
use media_api.Benchmark.Summary.{Summary, summarize}
use media_api.Benchmark.Summary.Totals.{Prints}
use media_api.Benchmark.Main.{
  source_tracks, source_bytes, source_secs, run_tracks, Outcome, no_tracks, no_source_tracks,
  panics, summaries,
}

module _ (fl : Floats) (soundkit : SoundkitOpus) (libopus : LibopusRust) where
  -- The summary of an engine over its own runs, and what it prints.
  pub record SummaryOf (checks : Bool) (config : Config) (clock : Backend → ℕ → ℕ × ℕ) (b : Backend)
      (tracks : List SourceTrack) (s : Summary fl soundkit libopus) : Type 0 where
    pub results : List (EngineResult fl soundkit libopus)
    pub are_runs : run_tracks fl soundkit libopus checks config clock b 0 tracks ≡ ok results
    pub one_each : length results ≡ length tracks
    pub prints : Prints fl soundkit libopus results (label b) s
    pub is_summary :
        s
        ≡ summarize fl soundkit libopus results
            (source_secs fl soundkit libopus config tracks fl.zero_f64)
            (source_bytes tracks 0)
            (label b)

  -- How the benchmark ends.
  abbrev pub Summarized :
      Bool
      → Config
      → (Backend → ℕ → ℕ × ℕ)
      → (Bytes → Result SourceTrack TrackError)
      → List Bytes
      → Outcome fl soundkit libopus
      → Type 0
  Summarized checks config clock decode paths no_tracks = is_empty paths ≡ true
  Summarized checks config clock decode paths no_source_tracks =
      is_empty (source_tracks decode paths) ≡ true
  Summarized checks config clock decode paths (panics e) = e ≡ panicked
  Summarized checks config clock decode paths (summaries s l) =
      SummaryOf checks config clock sound_kit (source_tracks decode paths) s
      × SummaryOf checks config clock lib_opus_rust (source_tracks decode paths) l
