-- ===== src/Util/Mpol.antt =====
-- numaif.h: the numbers of the memory policies.
use Prim.Native.Nat.{ℕ}

abbrev pub default : ℕ
default = 0

abbrev pub preferred : ℕ
preferred = 1

abbrev pub bind : ℕ
bind = 2

abbrev pub interleave : ℕ
interleave = 3

abbrev pub local : ℕ
local = 4

abbrev pub preferred_many : ℕ
preferred_many = 5

abbrev pub weighted_interleave : ℕ
weighted_interleave = 6

abbrev pub max : ℕ
max = 7
