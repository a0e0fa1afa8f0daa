-- ===== src/Pool/Metrics.antt =====
-- The metrics that `process_job` logs at its end. `none` is a panic, which ends the worker thread.
use media_api.Base.{
  ℕ, zero, suc, ◌*◌, ◌/◌, ◌%◌, ◌^◌, ◌≤◌, ◌<◌, ◌≡◌, ◌↔◌, refl, ap, ◌∙◌, ◌&&◌, Option, none, some,
  arith, ltb, if◌then◌else◌, unwrap_or,
}
use native.Mathlib.Nat.{mul-div_cancel, mod-eq_of_lt}
use media_api.Soundkit.{DecodeOptions}

-- A division of unsigned numbers, which panics at a zero divisor.
abbrev checked_div : ℕ → ℕ → Option ℕ
checked_div n zero = none
checked_div n (suc d) = some (n / suc d)

abbrev pub bytes_per_sample : DecodeOptions → ℕ
bytes_per_sample o = unwrap_or o.output_bits_per_sample 16 / 8

-- The duration of the output; the product of the numerator is taken in `u64`.
unfoldable pub audio_ms : DecodeOptions → ℕ → ℕ → ℕ → Option ℕ
audio_ms o output_bytes rate channels =
    if ltb 0 rate && ltb 0 channels
    then checked_div (output_bytes * 1000 % 2 ^ 64) (rate * channels * bytes_per_sample o)
    else some 0

unfoldable pub realtime_factor : ℕ → ℕ → ℕ
realtime_factor ms time_ms = if ltb 0 time_ms then ms / time_ms else 0

checked_div-none : (n d : ℕ) → (checked_div n d ≡ none) ↔ (d ≡ 0)
checked_div-none n zero = ground arith
checked_div-none n (suc d) = ground arith

product_zero : (a b c : ℕ) → 0 < a → 0 < b → a * b * c ≡ 0 → c ≡ 0
product_zero zero b c ha hb e = elim ha [ ]
product_zero (suc a) zero c ha hb e = elim hb [ ]
product_zero (suc a) (suc b) zero ha hb e = refl
product_zero (suc a) (suc b) (suc c) ha hb e = absurd (grind arith)

zero_product : (a b c : ℕ) → c ≡ 0 → a * b * c ≡ 0
zero_product a b c e = rw e (omega arith)

-- The metrics panic exactly when some audio came out and the options ask for fewer than eight bits
-- per sample.
pub audio_ms_panic_iff :
    (o : DecodeOptions) (output_bytes rate channels : ℕ)
    → (audio_ms o output_bytes rate channels ≡ none)
      ↔ ((0 < rate) × (0 < channels) × (unwrap_or o.output_bits_per_sample 16 < 8))
unfolding audio_ms
audio_ms_panic_iff o output_bytes rate channels =
    let n = output_bytes * 1000 % 2 ^ 64 in
    let d = rate * channels * bytes_per_sample o in
    ground (
      arith,
      checked_div-none n d,
      product_zero rate channels (bytes_per_sample o),
      zero_product rate channels (bytes_per_sample o),
    )

checked_div-exact : (n d : ℕ) → 0 < d → checked_div (n * d) d ≡ some n
checked_div-exact n zero h = elim h [ ]
checked_div-exact n (suc d) h = rw (mul-div_cancel n h)

product_pos : (a b c : ℕ) → 0 < a → 0 < b → 0 < c → 0 < a * b * c
product_pos a b c ha hb hc = grind arith

-- Of output that is a whole number of milliseconds long, the duration is exact, if the options ask
-- for whole bytes and the product fits 64 bits.
pub audio_ms_exact :
    (o : DecodeOptions) (ms output_bytes rate channels : ℕ)
    → 0 < rate
    → 0 < channels
    → 8 ≤ unwrap_or o.output_bits_per_sample 16
    → output_bytes * 1000 ≡ ms * (rate * channels * bytes_per_sample o)
    → output_bytes * 1000 < 2 ^ 64
    → audio_ms o output_bytes rate channels ≡ some ms
unfolding audio_ms
audio_ms_exact o ms output_bytes rate channels hr hc hb e fits =
    let d = rate * channels * bytes_per_sample o in
    let whole : output_bytes * 1000 % 2 ^ 64 ≡ ms * d = mod-eq_of_lt fits ∙ e in
    ground (
      arith,
      ap (λ n. checked_div n d) whole,
      checked_div-exact ms d (product_pos rate channels (bytes_per_sample o) hr hc (omega arith)),
    )
