-- ===== src/Base/Integers.antt =====
-- Signed integers over the native numbers, and `i16`.
use Prim.Native.Nat.{ℕ, suc, ◌+◌, ◌-◌, ◌%◌, ◌≤◌}
use mathlib.Core.Bool.{Bool}
use media_api.Base.Tests.{ltb, leb, if◌then◌else◌}

-- `negsuc n` is -(n + 1).
pub data ℤ : Type 0 where
  pos : ℕ → ℤ
  negsuc : ℕ → ℤ

abbrev pub pos_part : ℤ → ℕ
pos_part (pos n) = n
pos_part (negsuc n) = 0

abbrev pub neg_part : ℤ → ℕ
neg_part (pos n) = 0
neg_part (negsuc n) = suc n

-- a - b, as an integer.
abbrev pub sub_ℕ : ℕ → ℕ → ℤ
sub_ℕ a b = if leb b a then pos (a - b) else negsuc (b - a - 1)

abbrev pub ltb_ℤ : ℤ → ℤ → Bool
ltb_ℤ a b = ltb (pos_part a + neg_part b) (pos_part b + neg_part a)

-- The distance of two integers.
abbrev pub distance : ℤ → ℤ → ℕ
distance a b = let p = pos_part a + neg_part b in let q = pos_part b + neg_part a in p - q + (q - p)

abbrev pub IsI16 : ℤ → Type 0
IsI16 a = (pos_part a ≤ 32767) × (neg_part a ≤ 32768)

-- The 16-bit number that p - q wraps around to.
unfoldable pub wrap_i16 : ℕ → ℕ → ℤ
wrap_i16 p q =
    let n = (p + (65536 - q % 65536)) % 65536 in if ltb n 32768 then pos n else negsuc (65535 - n)

-- `a - b` of two `i16`, where no overflow is checked.
unfoldable pub wrapping_sub : ℤ → ℤ → ℤ
unfolding wrap_i16
wrapping_sub a b = wrap_i16 (pos_part a + neg_part b) (pos_part b + neg_part a)

-- `abs` of an `i16`, where no overflow is checked; the least number stays as it is.
unfoldable pub wrapping_abs : ℤ → ℤ
unfolding wrap_i16
wrapping_abs a = wrap_i16 (pos_part a + neg_part a) 0
