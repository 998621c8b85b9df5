-- ===== src/Bitmask.antt =====
-- libnuma.c: `struct bitmask` (numa.h), the `numa_bitmask_*` routines with `_getbit` and
-- `_setbit`, `numa_find_first`, and `find_first` of util.c.
-- The words that `maskp` points to are a list; a routine that writes through the pointer returns
-- the mask as it leaves it. C truth values are `Bool`, and -1 is `minus_one`.
use numactl.Base.{
  ℕ, zero, ◌+◌, ◌-◌, ◌*◌, ◌/◌, ◌%◌, ◌^◌, ◌<◌, ◌≡◌, Bool, true, false, not, ◌||◌, List, Option, none,
  some, ltb, ◌==◌, if◌then◌else◌, length, get_or, set, replicate, bit_and, bit_or,
}
use numactl.Base.Ints.{ℤ, pos, minus_one}
use numactl.Base.Loops.{for_range, find_from}
pub mod Ops
pub mod Scan
pub mod Weight
pub mod Abstract
pub mod Copy
pub mod Words
pub mod Nodemask
pub mod NodemaskCopy

pub record Bitmask : Type 0 where
  pub size : ℕ
  pub maskp : List ℕ

-- `longsperbits(n)`: howmany(n, bitsperlong), with 64 bits to a long.
abbrev pub longs_per_bits : ℕ → ℕ
longs_per_bits n = (n + (64 - 1)) / 64

-- A mask that `numa_bitmask_alloc` may have made: the words that its size asks for, each of
-- 64 bits. Sizes are below 2^31, so that the `int` and `unsigned` counters reach every bit.
pub record IsValid (b : Bitmask) : Type 0 where
  pub fits : b.size < 2 ^ 31
  pub words : length b.maskp ≡ longs_per_bits b.size
  pub range : (i : ℕ) → get_or b.maskp i 0 < 2 ^ 64

-- The result of a search loop as the C code returns it: `return i;` in the loop, and `return -1;`
-- behind it.
abbrev pub found_or_minus_one : Option ℕ → ℤ
found_or_minus_one none = minus_one
found_or_minus_one (some i) = pos i

abbrev pub is_none : Option ℕ → Bool
is_none none = true
is_none (some i) = false

-- `_getbit`
unfoldable pub getbit : Bitmask → ℕ → ℕ
getbit bmp n = if ltb n bmp.size then bit_and (get_or bmp.maskp (n / 64) 0 / 2 ^ (n % 64)) 1 else 0

-- `_setbit`; `~x` is `2 ^ 64 - 1 - x`.
unfoldable pub setbit : Bitmask → ℕ → ℕ → Bitmask
setbit bmp n v =
    let w = get_or bmp.maskp (n / 64) 0 in
    if ltb n bmp.size
    then (if not (v == 0)
        then record bmp { maskp = set bmp.maskp (n / 64) (bit_or w (2 ^ (n % 64))) }
        else record bmp { maskp = set bmp.maskp (n / 64) (bit_and w (2 ^ 64 - 1 - 2 ^ (n % 64))) })
    else bmp

-- `numa_bitmask_isbitset`
unfoldable pub isbitset : Bitmask → ℕ → Bool
isbitset bmp i = not (getbit bmp i == 0)

-- `numa_bitmask_setall`
unfoldable pub setall : Bitmask → Bitmask
setall bmp = for_range bmp.size 0 (λ i b. setbit b i 1) bmp

-- `numa_bitmask_clearall`
unfoldable pub clearall : Bitmask → Bitmask
clearall bmp = for_range bmp.size 0 (λ i b. setbit b i 0) bmp

-- `numa_bitmask_setbit`
unfoldable pub bitmask_setbit : Bitmask → ℕ → Bitmask
bitmask_setbit bmp i = setbit bmp i 1

-- `numa_bitmask_clearbit`
unfoldable pub bitmask_clearbit : Bitmask → ℕ → Bitmask
bitmask_clearbit bmp i = setbit bmp i 0

-- `numa_bitmask_nbytes`
unfoldable pub nbytes : Bitmask → ℕ
nbytes bmp = longs_per_bits bmp.size * 8

-- `numa_bitmask_alloc`; `none` is NULL with `errno` EINVAL. (Out of memory ends the process.)
unfoldable pub alloc : ℕ → Option Bitmask
alloc n =
    if ltb n 1 then none else some (record { size = n; maskp = replicate (longs_per_bits n) 0 })

-- `numa_bitmask_equal`: the rounds are those of `i < bmp1->size || i < bmp2->size`.
unfoldable pub equal : Bitmask → Bitmask → Bool
equal bmp1 bmp2 =
    let rounds = if ltb bmp1.size bmp2.size then bmp2.size else bmp1.size in
    is_none (find_from rounds 0 (λ i. not (getbit bmp1 i == getbit bmp2 i)))

-- `numa_bitmask_weight`
unfoldable pub weight : Bitmask → ℕ
weight bmp = for_range bmp.size 0 (λ i w. if not (getbit bmp i == 0) then w + 1 else w) 0

-- `numa_find_first`, and `find_first` of util.c, which has the same text.
unfoldable pub find_first : Bitmask → ℤ
find_first mask = found_or_minus_one (find_from mask.size 0 (isbitset mask))
