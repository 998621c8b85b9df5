-- ===== src/Bitmask/Words.antt =====
-- The size macros of numaint.h and util.h, and `memcpy` and `memset` on whole words.
use numactl.Base.{
  ℕ, ◌+◌, ◌-◌, ◌*◌, ◌/◌, ◌^◌, ◌<◌, ◌≡◌, List, ◌++◌, arith, take, drop, replicate, bit_and,
}
use numactl.Base.Bits.{bit_and_high}

-- `round_up(x,y)`
abbrev pub round_up : ℕ → ℕ → ℕ
round_up x y = bit_and (x + y - 1) (2 ^ 64 - 1 - (y - 1))

-- `CPU_BYTES(x)`
unfoldable pub cpu_bytes : ℕ → ℕ
cpu_bytes x = round_up x 64 / 8

-- `CPU_LONGS(x)`
unfoldable pub cpu_longs : ℕ → ℕ
cpu_longs x = cpu_bytes x / 8

-- `memcpy(to, from, bytes)`, for a multiple of 8 bytes.
abbrev pub memcpy_words : ℕ → List ℕ → List ℕ → List ℕ
memcpy_words bytes from to = take (bytes / 8) from ++ drop (bytes / 8) to

-- `memset((char *)to + from_byte, 0, bytes)`, for multiples of 8 bytes.
abbrev pub memset_zero : ℕ → ℕ → List ℕ → List ℕ
memset_zero from_byte bytes to =
    take (from_byte / 8) to ++ (replicate (bytes / 8) 0 ++ drop ((from_byte + bytes) / 8) to)

pub cpu_bytes_lem : (x : ℕ) → x < 2 ^ 31 → cpu_bytes x ≡ (x + 63) / 64 * 8
unfolding cpu_bytes
cpu_bytes_lem x h =
    let e : x + 64 - 1 ≡ x + 63 = omega arith in
    rw e (omega (arith, bit_and_high (x + 63) (omega arith)))
