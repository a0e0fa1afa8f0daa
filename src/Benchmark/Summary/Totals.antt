-- ===== src/Benchmark/Summary/Totals.antt =====
-- The sums of `summarize`, against the results that succeeded.
use media_api.Base.{
  usize_mod, ℕ, ◌+◌, ◌%◌, ◌≡◌, ◌≢◌, ◌<◌, ◌==◌, refl, Bytes, List, [], ◌∷◌, length, if◌then◌else◌,
  arith, Bool-cases, inl, inr, Option, none, some,
}
use media_api.Benchmark.Quality.{Floats, Quality}
use media_api.Benchmark.Engine.{SoundkitOpus, LibopusRust, EngineResult}
use media_api.Benchmark.Summary.{
  Summary, nothing, no_successful_runs, summary, summarize, no_results, Sums, add_quality,
  add_sizes, succeeded, add_result, sum_results,
}

module _ (fl : Floats) (soundkit : SoundkitOpus) (libopus : LibopusRust) where
  abbrev pub successes :
      List (EngineResult fl soundkit libopus) → List (EngineResult fl soundkit libopus)
  successes [] = []
  successes (r ∷ rs) = if succeeded fl soundkit libopus r then r ∷ successes rs else successes rs

  abbrev sum_of :
      (EngineResult fl soundkit libopus → ℕ) → List (EngineResult fl soundkit libopus) → ℕ
  sum_of f [] = 0
  sum_of f (r ∷ rs) = f r + sum_of f rs

  -- The sums of some results, on top of others.
  pub record Totals (s : Sums fl soundkit libopus) (rs : List (EngineResult fl soundkit libopus))
      (t : Sums fl soundkit libopus) : Type 0 where
    pub good : t.good ≡ s.good + length rs
    pub encode_time : t.total_encode ≡ s.total_encode + sum_of (λ r. r.encode_time) rs
    pub decode_time : t.total_decode ≡ s.total_decode + sum_of (λ r. r.decode_time) rs
    pub encoded :
        t.total_encoded % usize_mod
        ≡ (s.total_encoded + sum_of (λ r. r.encoded_bytes) rs) % usize_mod
    pub decoded :
        t.total_decoded % usize_mod
        ≡ (s.total_decoded + sum_of (λ r. r.decoded_bytes) rs) % usize_mod

  add_quality-Totals :
      (q : Option (Quality fl)) (s : Sums fl soundkit libopus)
      (rs : List (EngineResult fl soundkit libopus)) (t : Sums fl soundkit libopus)
      → Totals (add_quality fl soundkit libopus q s) rs t
      → Totals s rs t
  add_quality-Totals none s rs t h = h
  add_quality-Totals (some q) s rs t h = record {
    good = h.good;
    encode_time = h.encode_time;
    decode_time = h.decode_time;
    encoded = h.encoded;
    decoded = h.decoded;
  }

  add_sizes-Totals :
      (r : EngineResult fl soundkit libopus) (s : Sums fl soundkit libopus)
      (rs : List (EngineResult fl soundkit libopus)) (t : Sums fl soundkit libopus)
      → Totals (add_sizes fl soundkit libopus r s) rs t
      → Totals s (r ∷ rs) t
  add_sizes-Totals r s rs t h = record {
    good = omega (arith, h.good);
    encode_time = omega (arith, h.encode_time);
    decode_time = omega (arith, h.decode_time);
    encoded = omega (arith, h.encoded);
    decoded = omega (arith, h.decoded);
  }

  pub sum_results-Totals :
      (rs : List (EngineResult fl soundkit libopus)) (s : Sums fl soundkit libopus)
      → Totals s (successes rs) (sum_results fl soundkit libopus rs s)
  unfolding sum_results add_result
  sum_results-Totals [] s = record {
    good = omega arith;
    encode_time = omega arith;
    decode_time = omega arith;
    encoded = omega arith;
    decoded = omega arith;
  }
  sum_results-Totals (r ∷ rs) s = elim (Bool-cases (succeeded fl soundkit libopus r)) [
    | inl e ↦ rw e (
        add_sizes-Totals r s (successes rs) _ (
          add_quality-Totals r.quality (add_sizes fl soundkit libopus r s) (successes rs) _
            (sum_results-Totals rs _)))
    | inr e ↦ rw e (sum_results-Totals rs s)
  ]

  -- What a summary prints of an engine's results.
  abbrev pub Prints :
      List (EngineResult fl soundkit libopus) → Bytes → Summary fl soundkit libopus → Type 0
  Prints rs label nothing = rs ≡ []
  Prints rs label (no_successful_runs l) = (l ≡ label) × (rs ≢ []) × (successes rs ≡ [])
  Prints rs label (summary l f) =
      (l ≡ label)
      × (0 < length (successes rs))
      × (f.runs ≡ length rs)
      × Totals (no_results fl soundkit libopus) (successes rs) f.sums

  empty_of_length : (rs : List (EngineResult fl soundkit libopus)) → length rs ≡ 0 → rs ≡ []
  empty_of_length [] e = refl
  empty_of_length (r ∷ rs) e = absurd (omega arith)

  pub summarize-Prints :
      (rs : List (EngineResult fl soundkit libopus)) (audio_source_secs : fl.F64) (source_bytes : ℕ)
      (label : Bytes)
      → Prints rs label (summarize fl soundkit libopus rs audio_source_secs source_bytes label)
  unfolding summarize
  summarize-Prints [] audio_source_secs source_bytes label = refl
  summarize-Prints (r ∷ rs) audio_source_secs source_bytes label =
      let zero_sums = no_results fl soundkit libopus in
      let sums = sum_results fl soundkit libopus (r ∷ rs) zero_sums in
      let totals = sum_results-Totals (r ∷ rs) zero_sums in
      elim (Bool-cases (sums.good == 0)) [
        | inl e ↦
            rw e (
              refl,
              (λ q. cc),
              empty_of_length (successes (r ∷ rs)) (ground (arith, totals.good, e)),
            )
        | inr e ↦ rw e (refl, ground (arith, totals.good, e), refl, totals)
      ]
