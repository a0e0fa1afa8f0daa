-- ===== src/Benchmark/Engine/Printing.antt =====
-- What becomes of a run: its result, and whether its line of the table can be printed.
use media_api.Base.{
  ◌*◌, ◌<◌, ◌≡◌, ◌≢◌, ◌⊎◌, ◌↔◌, inl, inr, refl, ap, Bool, Option, none, some, List, [], ◌∷◌, Bytes,
  codes, ◌++◌, Result, ok, err, length, min, ◌==◌, ==_iff, Bool-cases, arith,
}
use media_api.Base.Integers.{ℤ}
use media_api.Benchmark.Args.{Config}
use media_api.Benchmark.Packets.{Failure, failed, truncated, panicked, out_of_fuel, frame_size}
use media_api.Benchmark.Packets.Total.{decode_with-Ends, encode_with-Ends}
use media_api.Benchmark.Quality.{Floats, Quality, Sums, on_sums, compare_loop, no_sums, compare_pcm}
use media_api.Benchmark.Engine.{
  SoundkitOpus, LibopusRust, Backend, sound_kit, lib_opus_rust, coupled, and_then, encode_track,
  decode_track, EngineResult, Run, on_compared, on_decoded, on_encoded, run_engine, text_of,
  print_row,
}

module _ {ℓ} {A : Type ℓ} where
  abbrev InFuel : Result A Failure → Type ℓ
  InFuel r = r ≢ err out_of_fuel

  and_then-InFuel {κ} :
      {B : Type κ} (message : Bytes → Bytes) (next : B → Result A Failure) (r : Result B Bytes)
      → ((x : B) → InFuel (next x))
      → InFuel (and_then message next r)
  and_then-InFuel message next (err e) h = λ q. cc
  and_then-InFuel message next (ok x) h = h x

compare_pcm-cases :
    (fl : Floats) (checks : Bool) (reference decoded : List ℤ)
    → let r = compare_pcm fl checks reference decoded in
      ((min (length reference) (length decoded) ≡ 0) × (r ≡ ok none))
      ⊎ ((0 < min (length reference) (length decoded))
          × ((r ≡ err panicked) ⊎ ((q : Quality fl) × (r ≡ ok (some q)))))
unfolding compare_pcm
compare_pcm-cases fl checks reference decoded =
    elim (Bool-cases (min (length reference) (length decoded) == 0)) [
      | inl b ↦ rw b (inl ((==_iff _ 0).0 b, refl))
      | inr b ↦ rw b (
          inr (ground arith, on_sums-cases (compare_loop fl checks reference decoded (no_sums fl))))
    ]
  where
    on_sums-cases :
        (s : Option (Sums fl))
        → (on_sums fl reference decoded s ≡ err panicked)
          ⊎ ((q : Quality fl) × (on_sums fl reference decoded s ≡ ok (some q)))
    on_sums-cases none = inl refl
    on_sums-cases (some s) = inr (_, refl)

module _ (fl : Floats) (soundkit : SoundkitOpus) (libopus : LibopusRust) where
  encode_track-InFuel :
      (b : Backend) (c : Config) (pcm : List ℤ) → InFuel (encode_track fl soundkit libopus b c pcm)
  unfolding encode_track
  encode_track-InFuel sound_kit c pcm =
      and_then-InFuel _ _ _ λ e. encode_with-Ends soundkit.opus _ e c.channels _ pcm
  encode_track-InFuel lib_opus_rust c pcm =
      and_then-InFuel (λ e. codes "libopus-rs create encoder: " ++ e) _
        (libopus.create_encoder c.sample_rate c.channels 1 (coupled c.channels) (0 ∷ 1 ∷ []))
        λ e.
          and_then-InFuel (λ x. codes "libopus-rs set bitrate: " ++ x) _
            (libopus.set_bitrate e c.bitrate)
            λ e'.
              encode_with-Ends libopus.opus (λ x. codes "libopus-rs encode: " ++ x) e' c.channels
                (frame_size c.sample_rate) pcm

  decode_track-InFuel :
      (b : Backend) (c : Config) (packets : Bytes)
      → InFuel (decode_track fl soundkit libopus b c packets)
  unfolding decode_track
  decode_track-InFuel sound_kit c packets =
      and_then-InFuel _ _ _ λ d. decode_with-Ends soundkit.opus _ d c.channels packets
  decode_track-InFuel lib_opus_rust c packets =
      and_then-InFuel _ _ _ λ d. decode_with-Ends libopus.opus _ d c.channels packets

  -- A run that was not an error, and of which nothing can be compared.
  abbrev Unmeasured : Run fl soundkit libopus → EngineResult fl soundkit libopus → Type 0
  Unmeasured run r =
      (r.encode_error ≡ none)
      × (r.decode_error ≡ none)
      × ((length run.track.pcm ≡ 0) ⊎ (r.decoded_bytes ≡ 0))

  -- How a run ends: in a panic, or in a result whose line panics exactly if it is not measured.
  abbrev pub Printed :
      Run fl soundkit libopus → Result (EngineResult fl soundkit libopus) Failure → Type 0
  Printed run (err e) = e ≡ panicked
  Printed run (ok r) = (print_row fl soundkit libopus r ≡ none) ↔ Unmeasured run r

  text_of-InFuel :
      (b : Backend) (e : Failure)
      → e ≢ out_of_fuel
      → (e ≡ panicked) ⊎ ((x : Bytes) × (text_of fl soundkit libopus b e ≡ some x))
  text_of-InFuel b (failed x) h = inr (x, refl)
  text_of-InFuel sound_kit truncated h = inr (_, refl)
  text_of-InFuel lib_opus_rust truncated h = inr (_, refl)
  text_of-InFuel b panicked h = inl refl
  text_of-InFuel b out_of_fuel h = absurd (h refl)

  on_compared-Printed :
      (run : Run fl soundkit libopus) (encoded : Bytes) (decoded : List ℤ)
      → Printed run (
          on_compared fl soundkit libopus run encoded decoded
            (compare_pcm fl run.checks run.track.pcm decoded))
  unfolding on_compared print_row
  on_compared-Printed run encoded decoded =
      elim (compare_pcm-cases fl run.checks run.track.pcm decoded) [
        | inl (e, q) ↦ rw q ((λ _. (refl, refl, ground arith)), λ _. refl)
        | inr (some_left, inl q) ↦ rw q refl
        | inr (some_left, inr (quality, q)) ↦ rw q ((λ h. cc), λ h. absurd (measured some_left h.2))
      ]
    where
      measured :
          0 < min (length run.track.pcm) (length decoded)
          → (length run.track.pcm ≡ 0) ⊎ (length decoded * 2 ≡ 0)
          → ⊥
      measured h (inl e) = omega arith
      measured h (inr e) = omega arith

  on_decoded-Printed :
      (run : Run fl soundkit libopus) (encoded : Bytes) (r : Result (List ℤ) Failure)
      → InFuel r
      → Printed run (on_decoded fl soundkit libopus run encoded r)
  unfolding on_decoded print_row
  on_decoded-Printed run encoded (ok decoded) h = on_compared-Printed run encoded decoded
  on_decoded-Printed run encoded (err e) h =
      elim (text_of-InFuel run.backend e (λ q. h (ap err q))) [
        | inl p ↦ rw p refl
        | inr (x, q) ↦ rw q ((λ k. cc), λ k. cc)
      ]

  on_encoded-Printed :
      (run : Run fl soundkit libopus) (r : Result Bytes Failure)
      → InFuel r
      → Printed run (on_encoded fl soundkit libopus run r)
  unfolding on_encoded print_row
  on_encoded-Printed run (ok encoded) h =
      on_decoded-Printed run encoded
        (decode_track fl soundkit libopus run.backend run.config encoded)
        (decode_track-InFuel run.backend run.config encoded)
  on_encoded-Printed run (err e) h = elim (text_of-InFuel run.backend e (λ q. h (ap err q))) [
    | inl p ↦ rw p refl
    | inr (x, q) ↦ rw q ((λ k. cc), λ k. cc)
  ]

-- For each backend, track and configuration, and whether overflow is checked or not, no loop of a run
-- exceeds its fuel: the run panics or has a result. Of a result the line of the table can be printed
-- unless it has no error and nothing was compared, since the track or what was decoded is empty: then
-- it panics.
pub run_engine-Printed :
    (fl : Floats) (soundkit : SoundkitOpus) (libopus : LibopusRust) (run : Run fl soundkit libopus)
    → Printed fl soundkit libopus run (run_engine fl soundkit libopus run)
unfolding run_engine on_encoded print_row
run_engine-Printed fl soundkit libopus run =
    on_encoded-Printed fl soundkit libopus run
      (encode_track fl soundkit libopus run.backend run.config run.track.pcm)
      (encode_track-InFuel fl soundkit libopus run.backend run.config run.track.pcm)
