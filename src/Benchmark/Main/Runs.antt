-- ===== src/Benchmark/Main/Runs.antt =====
-- The runs of one engine, and the choice of its results among all.
use media_api.Base.{
  ℕ, suc, ◌≡◌, refl, ap, sym, ◌∙◌, Bool, true, false, Option, none, some, List, [], ◌∷◌, ◌++◌,
  append-nil, length, Result, ok, err, All,
}
use media_api.Benchmark.Args.{Config}
use media_api.Benchmark.Packets.{Failure, panicked}
use media_api.Benchmark.Quality.{Floats}
use media_api.Benchmark.Source.{SourceTrack}
use media_api.Benchmark.Engine.{
  SoundkitOpus, LibopusRust, Backend, EngineResult, Run, Row, print_row,
}
use media_api.Benchmark.Engine.Printing.{Printed, run_engine-Printed}
use media_api.Benchmark.Engine.Origin.{Names, run_engine-Names}
use media_api.Benchmark.Main.{on_row, printed, run_track, and_more, run_tracks, results_by}

module _ (fl : Floats) (soundkit : SoundkitOpus) (libopus : LibopusRust) where
  -- The result of one run by a backend, or a panic.
  abbrev pub RunBy : Backend → Result (EngineResult fl soundkit libopus) Failure → Type 0
  RunBy b (err e) = e ≡ panicked
  RunBy b (ok r) = r.backend ≡ b

  pub printed-RunBy :
      (run : Run fl soundkit libopus) (r : Result (EngineResult fl soundkit libopus) Failure)
      → Printed fl soundkit libopus run r
      → Names fl soundkit libopus run r
      → RunBy run.backend (printed fl soundkit libopus r)
  unfolding printed on_row
  printed-RunBy run (err e) p h = p
  printed-RunBy run (ok r) p (_, h) = go (print_row fl soundkit libopus r)
    where
      go :
          (row : Option (Row fl soundkit libopus))
          → RunBy run.backend (on_row fl soundkit libopus r row)
      go none = refl
      go (some row) = h

  -- The results of an engine: one for each track.
  abbrev pub RunsBy :
      Backend → List SourceTrack → Result (List (EngineResult fl soundkit libopus)) Failure → Type 0
  RunsBy b tracks (err e) = e ≡ panicked
  RunsBy b tracks (ok rs) = (length rs ≡ length tracks) × All (λ r. r.backend ≡ b) rs

  pub and_more-RunsBy :
      (b : Backend) (track : SourceTrack) (tracks : List SourceTrack)
      (r : Result (EngineResult fl soundkit libopus) Failure)
      (rs : Result (List (EngineResult fl soundkit libopus)) Failure)
      → RunBy b r
      → RunsBy b tracks rs
      → RunsBy b (track ∷ tracks) (and_more fl soundkit libopus r rs)
  unfolding and_more
  and_more-RunsBy b track tracks (err e) rs h k = h
  and_more-RunsBy b track tracks (ok r) (err e) h k = k
  and_more-RunsBy b track tracks (ok r) (ok rs) h (same, all) = (ap suc same, (h, all))

  pub run_tracks-RunsBy :
      (checks : Bool) (config : Config) (clock : Backend → ℕ → ℕ × ℕ) (b : Backend) (number : ℕ)
      (tracks : List SourceTrack)
      → RunsBy b tracks (run_tracks fl soundkit libopus checks config clock b number tracks)
  unfolding run_tracks run_track
  run_tracks-RunsBy checks config clock b number [] = (refl, tt)
  run_tracks-RunsBy checks config clock b number (track ∷ tracks) =
      let run : Run fl soundkit libopus = record {
        checks = checks;
        backend = b;
        track = track;
        config = config;
        encode_time = (clock b number).0;
        decode_time = (clock b number).1;
      } in
      and_more-RunsBy b track tracks _ _
        (printed-RunBy run _ (run_engine-Printed fl soundkit libopus run)
          (run_engine-Names fl soundkit libopus run))
        (run_tracks-RunsBy checks config clock b (suc number) tracks)

  pub results_by-All :
      (f : Backend → Bool) (b : Backend) (rs ls : List (EngineResult fl soundkit libopus))
      → f b ≡ true
      → All (λ r. r.backend ≡ b) rs
      → results_by fl soundkit libopus f (rs ++ ls) ≡ rs ++ results_by fl soundkit libopus f ls
  unfolding results_by
  results_by-All f b [] ls e _ = refl
  results_by-All f b (r ∷ rs) ls e (h, all) =
      rw (ap f h ∙ e) (ap (◌∷◌ r) (results_by-All f b rs ls e all))

  pub results_by-none :
      (f : Backend → Bool) (b : Backend) (rs ls : List (EngineResult fl soundkit libopus))
      → f b ≡ false
      → All (λ r. r.backend ≡ b) rs
      → results_by fl soundkit libopus f (rs ++ ls) ≡ results_by fl soundkit libopus f ls
  unfolding results_by
  results_by-none f b [] ls e _ = refl
  results_by-none f b (r ∷ rs) ls e (h, all) = rw (ap f h ∙ e) (results_by-none f b rs ls e all)

  pub results_by-own :
      (f : Backend → Bool) (b : Backend) (rs : List (EngineResult fl soundkit libopus))
      → f b ≡ true
      → All (λ r. r.backend ≡ b) rs
      → results_by fl soundkit libopus f rs ≡ rs
  unfolding results_by
  results_by-own f b rs e all =
      ap (results_by fl soundkit libopus f) (sym (append-nil rs))
      ∙ results_by-All f b rs [] e all
      ∙ append-nil rs

  pub results_by-other :
      (f : Backend → Bool) (b : Backend) (rs : List (EngineResult fl soundkit libopus))
      → f b ≡ false
      → All (λ r. r.backend ≡ b) rs
      → results_by fl soundkit libopus f rs ≡ []
  unfolding results_by
  results_by-other f b rs e all =
      ap (results_by fl soundkit libopus f) (sym (append-nil rs)) ∙ results_by-none f b rs [] e all
