-- ===== src/Prelude/Int.antt =====
-- Signed integers over the native numbers (the library's ℤ stands on the unary ℕ), with the
-- two's-complement increments of `int32_t` and `int64_t`.
use Prim.Native.Nat.{ℕ, suc, ◌+◌, ◌-◌, ◌%◌, ◌≤◌, ◌<◌}
use mathlib.Core.Bool.{Bool}
use mathlib.Core.Path.{◌≡◌}
use native.Mathlib.Decide.{ℕ_discrete}
use native.Mathlib.Omega.{arith}
use anychat_sdk.Prelude.Tests.{ltb, leb, if◌then◌else◌}

-- `negsuc n` is -(n + 1).
pub data ℤ : Type 0 where
  pos : ℕ → ℤ
  negsuc : ℕ → ℤ

abbrev pub pos_part : ℤ → ℕ
pos_part (pos n) = n
pos_part (negsuc n) = 0

abbrev pub neg_part : ℤ → ℕ
neg_part (pos n) = 0
neg_part (negsuc n) = suc n

-- a - b, as an integer.
abbrev pub sub_ℕ : ℕ → ℕ → ℤ
sub_ℕ a b = if leb b a then pos (a - b) else negsuc (b - a - 1)

infixl 65 ◌+ℤ◌ ◌-ℤ◌
infix 50 ◌≤ℤ◌ ◌<ℤ◌
abbrev pub ◌+ℤ◌ : ℤ → ℤ → ℤ
a +ℤ b = sub_ℕ (pos_part a + pos_part b) (neg_part a + neg_part b)

abbrev pub ◌-ℤ◌ : ℤ → ℤ → ℤ
a -ℤ b = sub_ℕ (pos_part a + neg_part b) (neg_part a + pos_part b)

abbrev pub ◌≤ℤ◌ : ℤ → ℤ → Type 0
a ≤ℤ b = pos_part a + neg_part b ≤ pos_part b + neg_part a

abbrev pub ◌<ℤ◌ : ℤ → ℤ → Type 0
a <ℤ b = pos_part a + neg_part b < pos_part b + neg_part a

abbrev pub ltb_ℤ : ℤ → ℤ → Bool
ltb_ℤ a b = ltb (pos_part a + neg_part b) (pos_part b + neg_part a)

abbrev pub max_ℤ : ℤ → ℤ → ℤ
max_ℤ a b = if ltb_ℤ a b then b else a

pub ℤ-discrete : Discrete ℤ
ℤ-discrete = hlevel ℕ_discrete

pub eq_of_le_le : (a b : ℤ) → a ≤ℤ b → b ≤ℤ a → a ≡ b
eq_of_le_le a b h k = ground arith

-- `x + 1` for an `int64_t`; past the greatest value it wraps to the least.
abbrev pub inc64 : ℤ → ℤ
inc64 x = if ltb_ℤ x (pos 9223372036854775807) then x +ℤ pos 1 else negsuc 9223372036854775807

-- `x + 1` for an `int32_t`.
abbrev pub inc32 : ℤ → ℤ
inc32 x = if ltb_ℤ x (pos 2147483647) then x +ℤ pos 1 else negsuc 2147483647

-- `static_cast<int32_t>` of an integer: its low 32 bits, read as two's complement.
abbrev wrap32 : ℕ → ℤ
wrap32 r = if ltb r 2147483648 then pos r else negsuc (4294967295 - r)

abbrev pub to_int32 : ℤ → ℤ
to_int32 (pos n) = wrap32 (n % 4294967296)
to_int32 (negsuc n) = wrap32 (4294967295 - n % 4294967296)

-- The low 64 bits, read as two's complement.
abbrev wrap64 : ℕ → ℤ
wrap64 n = if ltb n 9223372036854775808 then pos n else negsuc (18446744073709551615 - n)

unfoldable pub to_int64 : ℤ → ℤ
to_int64 (pos n) = wrap64 (n % 18446744073709551616)
to_int64 (negsuc n) = wrap64 (18446744073709551615 - n % 18446744073709551616)

abbrev pub IsInt32 : ℤ → Type 0
IsInt32 z = (negsuc 2147483647 ≤ℤ z) × (z ≤ℤ pos 2147483647)

-- A value in the range of `int32_t` is kept by the cast.
pub to_int32_of_IsInt32 : (z : ℤ) → IsInt32 z → to_int32 z ≡ z
to_int32_of_IsInt32 (pos n) h = ground arith
to_int32_of_IsInt32 (negsuc n) h = ground arith

-- A value in the range of `int64_t` is kept.
pub to_int64_in_range :
    (z : ℤ) → negsuc 9223372036854775807 ≤ℤ z → z ≤ℤ pos 9223372036854775807 → to_int64 z ≡ z
unfolding to_int64
to_int64_in_range (pos n) h k = ground arith
to_int64_in_range (negsuc n) h k = ground arith
