-- ===== src/Base/Texts.antt =====
-- Byte strings, their comparison, and the standard library's parsing of unsigned numbers.
pub mod Decimal
use Prim.Native.Nat.{ℕ, ◌+◌, ◌-◌, ◌*◌, ◌^◌, ◌≤◌}
use Prim.Native.Char.{code}
use Prim.Native.String.{String}
use mathlib.Core.Path.{◌≡◌, refl, subst, sym}
use mathlib.Core.Logic.{◌⊎◌, inl, inr, ◌≢◌}
use mathlib.Core.Bool.{Bool, true, false, ◌&&◌}
use mathlib.Core.Option.{Option, none, some}
use mathlib.Core.List.{List, [], ◌∷◌}
use native.Mathlib.Omega.{arith}
use media_api.Base.Tests.{Bool-cases, leb, ◌==◌, if◌then◌else◌}

abbrev pub Bytes : Type 0
Bytes = List ℕ

-- The code points of a literal: its bytes, as all literals of the program are ASCII.
abbrev pub codes : String → Bytes
codes String.[] = []
codes (String.◌∷◌ c s) = code c ∷ codes s

-- `==` of `str`.
abbrev pub text_eq : Bytes → Bytes → Bool
text_eq [] [] = true
text_eq (a ∷ s) (b ∷ t) = (a == b) && text_eq s t
text_eq _ _ = false

pub text_eq_sound : (s t : Bytes) → text_eq s t ≡ true → s ≡ t
text_eq_sound [] [] h = refl
text_eq_sound [] (b ∷ t) h = cc
text_eq_sound (a ∷ s) [] h = cc
text_eq_sound (a ∷ s) (b ∷ t) h = ground (arith, text_eq_sound s t)

pub text_eq_refl : (s : Bytes) → text_eq s s ≡ true
text_eq_refl [] = refl
text_eq_refl (a ∷ s) = ground (arith, text_eq_refl s)

abbrev pub is_digit : ℕ → Bool
is_digit c = leb b'0' c && leb c b'9'

-- The digits of `str::parse::<uN>` behind `n`, with `max` the largest value of the type: each
-- round is `checked_mul(10)` and `checked_add(digit)`.
scan : ℕ → ℕ → Bytes → Option ℕ
scan max n [] = some n
scan max n (c ∷ s) =
    let m = n * 10 + (c - b'0') in
    let rest = scan max m s in if is_digit c && leb m max then rest else none

-- A number has a digit.
scan_some : ℕ → Bytes → Option ℕ
unfolding scan
scan_some max [] = none
scan_some max (c ∷ s) = scan max 0 (c ∷ s)

-- `str::parse` of an unsigned type: one leading `+` is allowed, and `-` is no digit.
unfoldable pub parse_uint : ℕ → Bytes → Option ℕ
unfolding scan_some
parse_uint max [] = none
parse_uint max (c ∷ s) =
    let rest = scan_some max s in if c == b'+' then rest else scan max 0 (c ∷ s)

-- `usize` of a 64-bit target counts modulo this.
abbrev pub usize_mod : ℕ
usize_mod = 2 ^ 64

abbrev pub u8_max : ℕ
u8_max = 255

abbrev pub u16_max : ℕ
u16_max = 65535

abbrev pub u32_max : ℕ
u32_max = 4294967295

scan-le : (max n : ℕ) (s : Bytes) {r : ℕ} → n ≤ max → scan max n s ≡ some r → r ≤ max
unfolding scan
scan-le max n [] h e = ground arith
scan-le max n (c ∷ s) {r} h e = ground (arith, scan-le max (n * 10 + (c - b'0')) s {r = r})

scan_some-le : (max : ℕ) (s : Bytes) {r : ℕ} → scan_some max s ≡ some r → r ≤ max
unfolding scan_some
scan_some-le max [] e = cc
scan_some-le max (c ∷ s) e = scan-le max 0 (c ∷ s) (omega arith) e

-- What is parsed fits the type.
pub parse_uint-le : (max : ℕ) (s : Bytes) {r : ℕ} → parse_uint max s ≡ some r → r ≤ max
unfolding parse_uint
parse_uint-le max [] e = cc
parse_uint-le max (c ∷ s) {r} e =
    ground (arith, scan_some-le max s {r = r}, scan-le max 0 (c ∷ s) {r = r})

parse_tests :
    (parse_uint u8_max (codes "+16") ≡ some 16)
    × (parse_uint u8_max (codes "256") ≡ none)
    × (parse_uint u8_max (codes "-1") ≡ none)
    × (parse_uint u8_max (codes "+") ≡ none)
    × (parse_uint u8_max [] ≡ none)
unfolding parse_uint
parse_tests = (refl, refl, refl, refl, refl)

pub text_eq-cases :
    (s t : Bytes) → ((text_eq s t ≡ true) × (s ≡ t)) ⊎ ((text_eq s t ≡ false) × (s ≢ t))
text_eq-cases s t = elim (Bool-cases (text_eq s t)) [
  | inl same ↦ inl (same, text_eq_sound s t same)
  | inr other ↦
      inr (other, λ e. cc (text_eq_refl s, subst (λ u. text_eq s u ≡ false) (sym e) other))
]
