-- ===== src/Base/Texts/Decimal.antt =====
-- The decimal print of a number, which `parse_uint` reads back.
use Prim.Native.Nat.{ℕ, zero, suc, ◌+◌, ◌-◌, ◌*◌, ◌/◌, ◌%◌, ◌≤◌, ◌<◌}
use mathlib.Core.Path.{◌≡◌, refl}
use mathlib.Core.Logic.{◌≢◌}
use mathlib.Core.Option.{some}
use mathlib.Core.List.{[], ◌∷◌, ◌++◌}
use native.Mathlib.Omega.{arith}
use media_api.Base.Tests.{ltb, if◌then◌else◌, ◌>>=◌}
use media_api.Base.Lists.{All, All-append}
use media_api.Base.Texts.{Bytes, scan, parse_uint}

digits : ℕ → ℕ → Bytes
digits zero n = []
digits (suc f) n =
    let more = digits f (n / 10) in (if ltb n 10 then [] else more) ++ (b'0' + n % 10) ∷ []

-- `n + 1` digits are enough.
unfoldable pub decimal : ℕ → Bytes
unfolding digits
decimal n = digits (suc n) n

scan-append : (max m : ℕ) (s t : Bytes) → scan max m (s ++ t) ≡ (scan max m s >>= λ k. scan max k t)
unfolding scan
scan-append max m [] t = refl
scan-append max m (c ∷ s) t = ground (arith, scan-append max (m * 10 + (c - b'0')) s t)

scan_last : (max n : ℕ) → n ≤ max → scan max (n / 10) ((b'0' + n % 10) ∷ []) ≡ some n
unfolding scan
scan_last max n h = ground arith

scan_first : (max n : ℕ) → n ≤ max → n < 10 → scan max 0 ((b'0' + n % 10) ∷ []) ≡ some n
unfolding scan
scan_first max n h k = ground arith

scan-digits : (max f n : ℕ) → n ≤ max → n < f → scan max 0 (digits f n) ≡ some n
unfolding digits
scan-digits max zero n h k = elim k [ ]
scan-digits max (suc f) n h k = ground (
  arith,
  scan-append max 0 (digits f (n / 10)) ((b'0' + n % 10) ∷ []),
  scan-digits max f (n / 10),
  scan_last max n h,
  scan_first max n h,
)

abbrev pub IsDigits : Bytes → Type 0
IsDigits = All (λ c. (b'0' ≤ c) × (c ≤ b'9'))

digits-IsDigits : (f n : ℕ) → IsDigits (digits f n)
unfolding digits
digits-IsDigits zero n = tt
digits-IsDigits (suc f) n =
    All-append _ (if ltb n 10 then [] else digits f (n / 10)) _
      (ground (arith, digits-IsDigits f (n / 10))) (omega arith)

pub decimal-IsDigits : (n : ℕ) → IsDigits (decimal n)
unfolding decimal
decimal-IsDigits n = digits-IsDigits (suc n) n

parse_uint-scan :
    (max : ℕ) (s : Bytes) {n : ℕ}
    → IsDigits s
    → s ≢ []
    → scan max 0 s ≡ some n
    → parse_uint max s ≡ some n
unfolding parse_uint
parse_uint-scan max [] d h e = absurd (h refl)
parse_uint-scan max (c ∷ s) d h e = ground arith

append-ne-nil : (s : Bytes) (c : ℕ) → s ++ c ∷ [] ≢ []
append-ne-nil [] c e = cc
append-ne-nil (a ∷ s) c e = cc

decimal-ne-nil : (n : ℕ) → decimal n ≢ []
unfolding decimal
decimal-ne-nil n = append-ne-nil (if ltb n 10 then [] else digits n (n / 10)) (b'0' + n % 10)

-- A number that fits the type is read back from its print.
pub parse_uint-decimal : (max n : ℕ) → n ≤ max → parse_uint max (decimal n) ≡ some n
unfolding decimal
parse_uint-decimal max n h =
    parse_uint-scan max (decimal n) (decimal-IsDigits n) (decimal-ne-nil n)
      (scan-digits max (suc n) n h (omega arith))
