-- ===== src/Benchmark/Engine/Origin.antt =====
-- The result of a run names its track and its engine.
use media_api.Base.{◌≡◌, refl, Option, none, some, List, Bytes, Result, ok, err}
use media_api.Base.Integers.{ℤ}
use media_api.Benchmark.Packets.{Failure}
use media_api.Benchmark.Quality.{Floats, Quality, compare_pcm}
use media_api.Benchmark.Engine.{
  SoundkitOpus, LibopusRust, encode_track, decode_track, EngineResult, Run, or_panic, text_of,
  on_compared, on_decoded, on_encoded, run_engine,
}

module _ (fl : Floats) (soundkit : SoundkitOpus) (libopus : LibopusRust) where
  abbrev pub Names :
      Run fl soundkit libopus → Result (EngineResult fl soundkit libopus) Failure → Type 0
  Names run (err e) = Unit
  Names run (ok r) = (r.track ≡ run.track.name) × (r.backend ≡ run.backend)

  or_panic-Names :
      (run : Run fl soundkit libopus) (e : Failure) (f : Bytes → EngineResult fl soundkit libopus)
      (text : Option Bytes)
      → ((x : Bytes) → Names run (ok (f x)))
      → Names run (or_panic fl soundkit libopus e f text)
  or_panic-Names run e f none h = tt
  or_panic-Names run e f (some x) h = h x

  on_compared-Names :
      (run : Run fl soundkit libopus) (encoded : Bytes) (decoded : List ℤ)
      (q : Result (Option (Quality fl)) Failure)
      → Names run (on_compared fl soundkit libopus run encoded decoded q)
  unfolding on_compared
  on_compared-Names run encoded decoded (err e) = tt
  on_compared-Names run encoded decoded (ok q) = (refl, refl)

  on_decoded-Names :
      (run : Run fl soundkit libopus) (encoded : Bytes) (r : Result (List ℤ) Failure)
      → Names run (on_decoded fl soundkit libopus run encoded r)
  unfolding on_decoded
  on_decoded-Names run encoded (err e) =
      or_panic-Names run e _ (text_of fl soundkit libopus run.backend e) (λ x. (refl, refl))
  on_decoded-Names run encoded (ok decoded) =
      on_compared-Names run encoded decoded (compare_pcm fl run.checks run.track.pcm decoded)

  on_encoded-Names :
      (run : Run fl soundkit libopus) (r : Result Bytes Failure)
      → Names run (on_encoded fl soundkit libopus run r)
  unfolding on_encoded
  on_encoded-Names run (err e) =
      or_panic-Names run e _ (text_of fl soundkit libopus run.backend e) (λ x. (refl, refl))
  on_encoded-Names run (ok encoded) =
      on_decoded-Names run encoded (decode_track fl soundkit libopus run.backend run.config encoded)

  pub run_engine-Names :
      (run : Run fl soundkit libopus) → Names run (run_engine fl soundkit libopus run)
  unfolding run_engine
  run_engine-Names run =
      on_encoded-Names run (encode_track fl soundkit libopus run.backend run.config run.track.pcm)
