-- ===== src/Base/Ints.antt =====
-- C's signed integers over the native numbers, under the library's names, and their casts.
use Prim.Native.Nat.{ℕ, ◌-◌, ◌^◌, ◌%◌, ◌<◌}
use mathlib.Core.Path.{◌≡◌}
use mathlib.Core.Bool.{Bool}
use native.Mathlib.Omega.{arith}
use numactl.Base.Tests.{ltb, ◌==◌, if◌then◌else◌}

-- `negsuc n` is -(n + 1).
pub data ℤ : Type 0 where
  pos : ℕ → ℤ
  negsuc : ℕ → ℤ

abbrev pub minus_one : ℤ
minus_one = negsuc 0

abbrev pub is_neg : ℤ → Bool
is_neg (pos n) = Bool.false
is_neg (negsuc n) = Bool.true

abbrev pub pos_part : ℤ → ℕ
pos_part (pos n) = n
pos_part (negsuc n) = 0

-- `a == b` and `a < b` for two ints.
abbrev pub int_eq : ℤ → ℤ → Bool
int_eq (pos m) (pos n) = m == n
int_eq (negsuc m) (negsuc n) = m == n
int_eq _ _ = Bool.false

abbrev pub int_lt : ℤ → ℤ → Bool
int_lt (pos m) (pos n) = ltb m n
int_lt (negsuc m) (pos n) = Bool.true
int_lt (pos m) (negsuc n) = Bool.false
int_lt (negsuc m) (negsuc n) = ltb n m

-- `(unsigned)i`, for an `int`.
abbrev pub to_u32 : ℤ → ℕ
to_u32 (pos n) = n % 2 ^ 32
to_u32 (negsuc n) = 2 ^ 32 - 1 - n % 2 ^ 32

-- `(int)u`, for an `unsigned long` or an `unsigned`: the low 32 bits as a two's complement number.
abbrev pub to_i32 : ℕ → ℤ
to_i32 u = if ltb (u % 2 ^ 32) (2 ^ 31) then pos (u % 2 ^ 32) else negsuc (2 ^ 32 - 1 - u % 2 ^ 32)

-- `(long)u`, for an `unsigned long`.
abbrev pub to_i64 : ℕ → ℤ
to_i64 u = if ltb (u % 2 ^ 64) (2 ^ 63) then pos (u % 2 ^ 64) else negsuc (2 ^ 64 - 1 - u % 2 ^ 64)

-- An `int` that is at least 0 and is an index survives both casts.
pub to_u32-pos : (n : ℕ) → n < 2 ^ 32 → to_u32 (pos n) ≡ n
to_u32-pos n h = omega arith
