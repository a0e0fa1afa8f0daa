-- ===== src/Benchmark/Quality.antt =====
-- `compare_pcm` of src/bin/opus_benchmark.rs: how far a decoded track is from its source. Floating-point
-- numbers are a parameter. The subtraction of two samples overflows in 16 bits: that panics in a build
-- that checks for overflow, which is an argument, and wraps around in one that does not.
pub mod Errors
pub mod Peak
use media_api.Base.{
  ℕ, ◌+◌, ◌≤◌, Bool, true, false, ◌&&◌, Option, none, some, List, [], ◌∷◌, length, min, max, leb,
  ltb, ◌==◌, Result, ok, err, ◌>>=◌, if◌then◌else◌,
}
use media_api.Base.Integers.{ℤ, pos, pos_part, neg_part, ltb_ℤ, wrapping_sub, wrapping_abs}
use media_api.Benchmark.Packets.{Failure, panicked}

-- What the benchmark uses of `f64`.
pub record Floats : Type 1 where
  pub F64 : Type 0
  pub zero_f64 : F64
  pub twenty : F64
  pub infinity : F64
  -- `as f64`
  pub of_int : ℤ → F64
  pub add : F64 → F64 → F64
  pub sub : F64 → F64 → F64
  pub mul : F64 → F64 → F64
  pub div : F64 → F64 → F64
  pub abs : F64 → F64
  -- `powi(2)`
  pub square : F64 → F64
  -- `as_secs_f64` of so many nanoseconds
  pub secs : ℕ → F64
  pub sqrt : F64 → F64
  pub log10 : F64 → F64
  pub is_zero : F64 → Bool
  -- `> 0.0`
  pub is_positive : F64 → Bool

-- `a - b` and `abs` of `i16`, where overflow panics.
abbrev pub checked_sub : ℤ → ℤ → Option ℤ
checked_sub a b =
    let p = pos_part a + neg_part b in
    let q = pos_part b + neg_part a in
    if leb p (q + 32767) && leb q (p + 32768) then some (wrapping_sub a b) else none

abbrev pub checked_abs : ℤ → Option ℤ
checked_abs a = if neg_part a == 32768 then none else some (wrapping_abs a)

-- `(reference[i] - decoded[i]).abs()`
unfoldable pub i16_error : Bool → ℤ → ℤ → Option ℤ
i16_error checks r d =
    if checks then checked_sub r d >>= checked_abs else some (wrapping_abs (wrapping_sub r d))

module _ (fl : Floats) where
  open fl use {F64}

  pub record Quality : Type 0 where
    pub sample_count : ℕ
    pub min_len : ℕ
    pub max_len : ℕ
    pub rms_error : F64
    pub mae : F64
    pub max_abs : ℤ
    pub snr_db : F64
    pub mse : F64

  -- The variables of the loop.
  pub record Sums : Type 0 where
    pub mse_sum : F64
    pub mae_sum : F64
    pub peak_err : ℤ
    pub signal_sum : F64

  abbrev pub no_sums : Sums
  no_sums = record {
    mse_sum = fl.zero_f64;
    mae_sum = fl.zero_f64;
    peak_err = pos 0;
    signal_sum = fl.zero_f64;
  }

  -- One round, with the error of the samples as an `i16`.
  abbrev pub add_pair : ℤ → ℤ → Sums → ℤ → Sums
  add_pair r d s err_i16 =
      let diff = fl.sub (fl.of_int r) (fl.of_int d) in
      record {
        mse_sum = fl.add s.mse_sum (fl.mul diff diff);
        mae_sum = fl.add s.mae_sum (fl.abs diff);
        signal_sum = fl.add s.signal_sum (fl.square (fl.of_int r));
        peak_err = if ltb_ℤ s.peak_err err_i16 then err_i16 else s.peak_err;
      }

  -- The loop over the samples that both have.
  unfoldable pub compare_loop : Bool → List ℤ → List ℤ → Sums → Option Sums
  compare_loop checks [] decoded s = some s
  compare_loop checks (r ∷ reference) [] s = some s
  compare_loop checks (r ∷ reference) (d ∷ decoded) s = do
    err_i16 ← i16_error checks r d
    compare_loop checks reference decoded (add_pair r d s err_i16)

  abbrev snr_of : F64 → F64 → F64
  snr_of signal_rms rms_error =
      if fl.is_zero signal_rms
      then fl.zero_f64
      else if fl.is_zero rms_error
      then fl.infinity
      else fl.mul fl.twenty (fl.log10 (fl.div signal_rms rms_error))

  abbrev quality_of : List ℤ → List ℤ → Sums → Quality
  quality_of reference decoded s =
      let compare_len = min (length reference) (length decoded) in
      let n = fl.of_int (pos compare_len) in
      let mse = fl.div s.mse_sum n in
      let rms_error = fl.sqrt mse in
      record {
        sample_count = min (length reference) (length decoded);
        min_len = compare_len;
        max_len = max (length reference) (length decoded);
        rms_error = rms_error;
        mae = fl.div s.mae_sum n;
        max_abs = s.peak_err;
        snr_db = snr_of (fl.sqrt (fl.div s.signal_sum n)) rms_error;
        mse = mse;
      }

  abbrev pub on_sums : List ℤ → List ℤ → Option Sums → Result (Option Quality) Failure
  on_sums reference decoded none = err panicked
  on_sums reference decoded (some s) = ok (some (quality_of reference decoded s))

  unfoldable pub compare_pcm : Bool → List ℤ → List ℤ → Result (Option Quality) Failure
  unfolding compare_loop
  compare_pcm checks reference decoded =
      if min (length reference) (length decoded) == 0
      then ok none
      else on_sums reference decoded (compare_loop checks reference decoded no_sums)
