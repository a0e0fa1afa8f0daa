-- ===== src/Benchmark/Engine/Setup.antt =====
-- When `encode_with_soundkit` and `encode_with_libopus_rust` of src/bin/opus_benchmark.rs panic, their
-- set-up included.
use media_api.Base.{◌<◌, ◌≡◌, ◌↔◌, ◌⊎◌, refl, subst, List, [], ◌∷◌, Bytes, Result, ok, err}
use media_api.Base.Integers.{ℤ}
use media_api.Benchmark.Args.{Config}
use media_api.Benchmark.Packets.{Failure, panicked, frame_size}
use media_api.Benchmark.Packets.Frames.{encode_with_panics_iff}
use media_api.Benchmark.Quality.{Floats}
use media_api.Benchmark.Engine.{
  SoundkitOpus, LibopusRust, Backend, sound_kit, lib_opus_rust, and_then, coupled, encode_track,
}

-- A step that may fail without a panic, before one that may panic.
and_then_panics :
    {A B : Type 0} (message : Bytes → Bytes) (next : A → Result B Failure) (Q : A → Type 0)
    (P : Type 0) (r : Result A Bytes)
    → ((x : A) → (next x ≡ err panicked) ↔ (Q x × P))
    → (and_then message next r ≡ err panicked) ↔ (((x : A) × (r ≡ ok x) × Q x) × P)
and_then_panics message next Q P (err e) h =
    (λ q. absurd cc, λ z. let ((x, q, _), _) = z in absurd cc)
and_then_panics message next Q P (ok x) h = (
  λ q. let (there, panics) = (h x).0 q in ((x, refl, there), panics),
  λ z.
      let ((y, q, there), panics) = z in
      let same : y ≡ x = cc in (h x).1 (subst Q same there, panics),
)

module _ (fl : Floats) (soundkit : SoundkitOpus) (libopus : LibopusRust) where
  -- The encoder of an engine is made, and takes the bit rate.
  abbrev pub IsSetUp : Backend → Config → Type 0
  IsSetUp sound_kit c =
      (e : soundkit.opus.Encoder) × (soundkit.init_encoder c.sample_rate 16 c.channels
          (frame_size c.sample_rate) c.bitrate
        ≡ ok e)
      × Unit {0}
  IsSetUp lib_opus_rust c =
      (e : libopus.opus.Encoder) × (libopus.create_encoder c.sample_rate c.channels 1
          (coupled c.channels) (0 ∷ 1 ∷ [])
        ≡ ok e)
      × ((e' : libopus.opus.Encoder) × (libopus.set_bitrate e c.bitrate ≡ ok e') × Unit {0})

  with_unit : {P Q : Type 0} → P ↔ Q → P ↔ (Unit {0} × Q)
  with_unit (f, g) = (λ p. (tt, f p), λ z. g z.1)

  -- Encoding a track panics exactly if the engine accepts its set-up and there are no channels or the
  -- sample rate is below 1000, for which the benchmark computes a frame of no samples; a set-up that is
  -- refused is an error and no panic.
  pub encode_track_panics_iff :
      (b : Backend) (c : Config) (pcm : List ℤ)
      → (encode_track fl soundkit libopus b c pcm ≡ err panicked)
        ↔ (IsSetUp b c × ((c.channels ≡ 0) ⊎ (c.sample_rate < 1000)))
  unfolding encode_track
  encode_track_panics_iff sound_kit c pcm =
      and_then_panics _ _ _ _ _
        λ e. with_unit (encode_with_panics_iff soundkit.opus _ e c.channels c.sample_rate pcm)
  encode_track_panics_iff lib_opus_rust c pcm = and_then_panics _ _ _ _ _ λ e.
      and_then_panics _ _ _ _ _
        λ e'. with_unit (encode_with_panics_iff libopus.opus _ e' c.channels c.sample_rate pcm)
