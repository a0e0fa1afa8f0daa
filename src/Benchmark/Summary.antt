-- ===== src/Benchmark/Summary.antt =====
-- `summarize` of src/bin/opus_benchmark.rs: the totals of an engine's results. Times are in nanoseconds
-- and not bounded; sizes are 64-bit numbers that wrap around, as in a build without overflow checks.
pub mod Totals
use media_api.Base.{
  usize_mod, ℕ, suc, ◌+◌, ◌%◌, ◌^◌, Bool, true, false, ◌&&◌, Option, none, some, List, [], ◌∷◌,
  Bytes, length, if◌then◌else◌, is_empty, max, ◌==◌,
}
use media_api.Base.Integers.{pos}
use media_api.Benchmark.Quality.{Floats, Quality}
use media_api.Benchmark.Engine.{SoundkitOpus, LibopusRust, EngineResult}

abbrev pub is_none {ℓ} : {A : Type ℓ} → Option A → Bool
is_none none = true
is_none (some x) = false

module _ (fl : Floats) (soundkit : SoundkitOpus) (libopus : LibopusRust) where
  open fl use {F64}

  pub record Sums : Type 0 where
    pub total_encode : ℕ
    pub total_decode : ℕ
    pub total_encoded : ℕ
    pub total_decoded : ℕ
    pub good : ℕ
    pub snr_sum : F64
    pub mae_sum : F64
    pub rms_sum : F64

  abbrev pub no_results : Sums
  no_results = record {
    total_encode = 0;
    total_decode = 0;
    total_encoded = 0;
    total_decoded = 0;
    good = 0;
    snr_sum = fl.zero_f64;
    mae_sum = fl.zero_f64;
    rms_sum = fl.zero_f64;
  }

  abbrev pub add_quality : Option (Quality fl) → Sums → Sums
  add_quality none s = s
  add_quality (some q) s = record s {
    snr_sum = fl.add s.snr_sum q.snr_db;
    mae_sum = fl.add s.mae_sum q.mae;
    rms_sum = fl.add s.rms_sum q.rms_error;
  }

  abbrev pub succeeded : EngineResult fl soundkit libopus → Bool
  succeeded r = is_none r.encode_error && is_none r.decode_error

  abbrev pub add_sizes : EngineResult fl soundkit libopus → Sums → Sums
  add_sizes r s = record s {
    good = suc s.good;
    total_encode = s.total_encode + r.encode_time;
    total_decode = s.total_decode + r.decode_time;
    total_encoded = (s.total_encoded + r.encoded_bytes) % usize_mod;
    total_decoded = (s.total_decoded + r.decoded_bytes) % usize_mod;
  }

  unfoldable pub add_result : EngineResult fl soundkit libopus → Sums → Sums
  add_result r s = if succeeded r then add_quality r.quality (add_sizes r s) else s

  unfoldable pub sum_results : List (EngineResult fl soundkit libopus) → Sums → Sums
  unfolding add_result
  sum_results [] s = s
  sum_results (r ∷ rs) s = sum_results rs (add_result r s)

  -- The numbers that are printed.
  pub record Figures : Type 0 where
    pub sums : Sums
    pub runs : ℕ
    pub audio_seconds : F64
    pub enc_rtf : F64
    pub dec_rtf : F64
    pub avg_snr : F64
    pub avg_mae : F64
    pub avg_rms : F64
    pub compression_ratio : F64

  pub data Summary : Type 0 where
    nothing : Summary
    no_successful_runs : Bytes → Summary
    summary : Bytes → Figures → Summary

  abbrev pub rtf : F64 → F64 → F64
  rtf audio_seconds secs = if fl.is_positive secs then fl.div audio_seconds secs else fl.zero_f64

  abbrev figures : Sums → ℕ → F64 → ℕ → Figures
  figures s runs audio_source_secs source_bytes =
      let n = fl.of_int (pos s.good) in
      record {
        sums = s;
        runs = runs;
        audio_seconds = audio_source_secs;
        enc_rtf = rtf audio_source_secs (fl.secs s.total_encode);
        dec_rtf = rtf audio_source_secs (fl.secs s.total_decode);
        avg_snr = fl.div s.snr_sum n;
        avg_mae = fl.div s.mae_sum n;
        avg_rms = fl.div s.rms_sum n;
        compression_ratio =
            fl.div (fl.of_int (pos source_bytes)) (fl.of_int (pos (max s.total_encoded 1)));
      }

  unfoldable pub summarize : List (EngineResult fl soundkit libopus) → F64 → ℕ → Bytes → Summary
  unfolding sum_results
  summarize results audio_source_secs source_bytes label =
      let s = sum_results results no_results in
      if is_empty results
      then nothing
      else if s.good == 0
      then no_successful_runs label
      else summary label (figures s (length results) audio_source_secs source_bytes)
