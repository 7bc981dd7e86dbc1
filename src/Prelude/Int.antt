-- ===== src/Prelude/Int.antt =====
-- `int`, `long` and `int64_t`: integers over the native numbers, and the wrap of a cast to `int`.
use Prim.Native.Nat.{ℕ, zero, suc, ◌+◌, ◌-◌, ◌%◌, ◌^◌, ◌≤◌, ◌<◌}
use mathlib.Core.Path.{◌≡◌}
use mathlib.Core.Bool.{Bool}
use native.Mathlib.Omega.{arith}
use yirang_taskforge.Prelude.Tests.{if◌then◌else◌, ltb, leb}

-- `negsuc n` is -(n + 1).
pub data ℤ : Type 0 where
  pos : ℕ → ℤ
  negsuc : ℕ → ℤ

abbrev pub pos_part : ℤ → ℕ
pos_part (pos n) = n
pos_part (negsuc n) = 0

abbrev pub neg_part : ℤ → ℕ
neg_part (pos n) = 0
neg_part (negsuc n) = suc n

infix 50 ◌≤ℤ◌ ◌<ℤ◌
abbrev pub ◌≤ℤ◌ : ℤ → ℤ → Type 0
a ≤ℤ b = pos_part a + neg_part b ≤ pos_part b + neg_part a

abbrev pub ◌<ℤ◌ : ℤ → ℤ → Type 0
a <ℤ b = pos_part a + neg_part b < pos_part b + neg_part a

abbrev pub leb_ℤ : ℤ → ℤ → Bool
leb_ℤ a b = leb (pos_part a + neg_part b) (pos_part b + neg_part a)

abbrev pub ltb_ℤ : ℤ → ℤ → Bool
ltb_ℤ a b = ltb (pos_part a + neg_part b) (pos_part b + neg_part a)

-- The value of a 32-bit pattern as a signed `int`.
abbrev pub signed32 : ℕ → ℤ
signed32 r = if ltb r (2 ^ 31) then pos r else negsuc (2 ^ 32 - 1 - r)

-- `(int)x` of a wider integer keeps the low 32 bits.
unfoldable pub to_int32 : ℤ → ℤ
to_int32 (pos n) = signed32 (n % 2 ^ 32)
to_int32 (negsuc n) = signed32 (2 ^ 32 - 1 - n % 2 ^ 32)

abbrev pub FitsInt32 : ℤ → Type 0
FitsInt32 (pos n) = n < 2 ^ 31
FitsInt32 (negsuc n) = n < 2 ^ 31

pub to_int32_of_FitsInt32 : (z : ℤ) → FitsInt32 z → to_int32 z ≡ z
unfolding to_int32
to_int32_of_FitsInt32 (pos n) h = ground arith
to_int32_of_FitsInt32 (negsuc n) h = ground arith

pub to_int32-FitsInt32 : (z : ℤ) → FitsInt32 (to_int32 z)
unfolding to_int32
to_int32-FitsInt32 (pos n) = ground arith
to_int32-FitsInt32 (negsuc n) = ground arith

-- `x + 1` of an `int`; at the largest one C++ leaves it undefined, and this wraps.
unfoldable pub succ32 : ℤ → ℤ
unfolding to_int32
succ32 (pos n) = to_int32 (pos (n + 1))
succ32 (negsuc zero) = pos 0
succ32 (negsuc (suc n)) = negsuc n

unfoldable pub max_ℤ : ℤ → ℤ → ℤ
max_ℤ a b = if ltb_ℤ a b then b else a
