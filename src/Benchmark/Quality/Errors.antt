-- ===== src/Benchmark/Quality/Errors.antt =====
-- The error of two samples in 16 bits, against their distance.
use media_api.Base.{
  ℕ, ◌+◌, ◌-◌, ◌≤◌, ◌<◌, ◌≡◌, ◌⊎◌, inl, inr, refl, ap, Bool, true, false, none, some, leb, ◌==◌,
  ◌>>=◌, max, if◌then◌else◌, arith,
}
use media_api.Base.Integers.{
  ℤ, pos, negsuc, pos_part, neg_part, ltb_ℤ, distance, IsI16, wrapping_sub, wrapping_abs, wrap_i16,
}
use media_api.Benchmark.Quality.{checked_sub, checked_abs, i16_error}

-- What a distance comes to as an `i16`.
abbrev pub wrapped : ℕ → ℤ
wrapped d = if leb d 32767 then pos d else if d == 32768 then negsuc 32767 else pos (65536 - d)

-- What is left of it in the largest error.
abbrev pub folded : ℕ → ℕ
folded d = if leb d 32767 then d else if d == 32768 then 0 else 65536 - d

abbrev pub raise : ℤ → ℤ → ℤ
raise peak e = if ltb_ℤ peak e then e else peak

pub raise-wrapped : (k d : ℕ) → d ≤ 65535 → raise (pos k) (wrapped d) ≡ pos (max k (folded d))
raise-wrapped k d h = ground arith

abs_wrapped_diff :
    (p q : ℕ) → p ≤ 65535 → q ≤ 65535 → wrapping_abs (wrap_i16 p q) ≡ wrapped (p - q + (q - p))
unfolding wrapping_abs wrap_i16
abs_wrapped_diff p q hp hq = ground arith

wrapping_error :
    (r d : ℤ) → IsI16 r → IsI16 d → wrapping_abs (wrapping_sub r d) ≡ wrapped (distance r d)
unfolding wrapping_sub
wrapping_error r d hr hd =
    abs_wrapped_diff (pos_part r + neg_part d) (pos_part d + neg_part r) (omega arith) (omega arith)

checked_error :
    (r d : ℤ)
    → IsI16 r
    → IsI16 d
    → (checked_sub r d >>= checked_abs)
      ≡ (if leb (distance r d) 32767 then some (wrapping_abs (wrapping_sub r d)) else none)
unfolding wrapping_sub wrap_i16
checked_error r d hr hd = ground arith

-- The error of two samples: in a build with checks it panics exactly from a distance of 32768 on.
pub i16_error-cases :
    (checks : Bool) (r d : ℤ)
    → IsI16 r
    → IsI16 d
    → ((checks ≡ true) × (32767 < distance r d) × (i16_error checks r d ≡ none))
      ⊎ (((checks ≡ false) ⊎ (distance r d ≤ 32767))
          × (i16_error checks r d ≡ some (wrapped (distance r d))))
unfolding i16_error
i16_error-cases true r d hr hd = ground (arith, checked_error r d hr hd, wrapping_error r d hr hd)
i16_error-cases false r d hr hd = inr (inl refl, ap some (wrapping_error r d hr hd))
