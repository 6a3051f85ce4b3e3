-- ===== src/Common/Int.antt =====
-- Signed integers over the native numbers, under the library's names.
use mathlib.Core.Path.{◌≡◌}
use native.Mathlib.Omega.{arith}
use Prim.Native.Nat.{ℕ, ◌<◌, suc, ◌+◌, ◌-◌, ◌*◌, ◌%◌, ◌^◌}
use mathlib.Core.Bool.{Bool, true, false, not}
use kv_storage_service.Common.Tests.{leb, ◌==◌, if◌then◌else◌}

-- `negsuc n` is -(n + 1).
pub data ℤ : Type 0 where
  pos : ℕ → ℤ
  negsuc : ℕ → ℤ

abbrev pub pos_part : ℤ → ℕ
pos_part (pos n) = n
pos_part (negsuc n) = 0

abbrev pub neg_part : ℤ → ℕ
neg_part (pos n) = 0
neg_part (negsuc n) = suc n

-- a - b, as an integer.
abbrev pub sub_ℕ : ℕ → ℕ → ℤ
sub_ℕ a b = if leb b a then pos (a - b) else negsuc (b - a - 1)

infixl 65 ◌+ℤ◌ ◌-ℤ◌
unfoldable pub ◌+ℤ◌ : ℤ → ℤ → ℤ
a +ℤ b = sub_ℕ (pos_part a + pos_part b) (neg_part a + neg_part b)

-- a - b
unfoldable pub ◌-ℤ◌ : ℤ → ℤ → ℤ
a -ℤ b = sub_ℕ (pos_part a + neg_part b) (neg_part a + pos_part b)

-- The C tests on an int.
abbrev pub is_neg : ℤ → Bool
is_neg (pos n) = false
is_neg (negsuc n) = true

abbrev pub is_zero : ℤ → Bool
is_zero (pos n) = n == 0
is_zero (negsuc n) = false

-- `a == b` on two ints
abbrev pub eq_int : ℤ → ℤ → Bool
eq_int (pos a) (pos b) = a == b
eq_int (negsuc a) (negsuc b) = a == b
eq_int _ _ = false

-- The C remainder takes the sign of the dividend.
abbrev pub rem_ℕ : ℤ → ℕ → ℤ
rem_ℕ (pos a) n = pos (a % n)
rem_ℕ (negsuc a) n = sub_ℕ 0 (suc a % n)

abbrev pub minus_one : ℤ
minus_one = negsuc 0

infixl 70 ◌*ℤ◌
unfoldable pub ◌*ℤ◌ : ℤ → ℕ → ℤ
a *ℤ n = sub_ℕ (pos_part a * n) (neg_part a * n)

abbrev pub is_pos : ℤ → Bool
is_pos (pos n) = not (n == 0)
is_pos (negsuc n) = false

-- A pattern of 32 bits as an int, and the conversion of an integer to int by its low 32 bits.
abbrev pub signed32 : ℕ → ℤ
signed32 w = if leb (2 ^ 31) w then negsuc (2 ^ 32 - w - 1) else pos w

abbrev pub narrow : ℤ → ℤ
narrow (pos n) = signed32 (n % 2 ^ 32)
narrow (negsuc n) = signed32 (2 ^ 32 - 1 - n % 2 ^ 32)

-- A number that an int can hold is not changed.
pub narrow_lem : (n : ℕ) → n < 2 ^ 31 → narrow (pos n) ≡ pos n
narrow_lem n lt = ground arith
