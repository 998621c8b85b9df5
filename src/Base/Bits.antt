-- ===== src/Base/Bits.antt =====
-- One bit of a word, and what `|` and `&` do to each bit, at every width.
use Prim.Native.Nat.{
  ℕ, zero, suc, ◌+◌, ◌-◌, ◌*◌, ◌/◌, ◌%◌, ◌^◌, ◌≤◌, ◌<◌, min, max, bit_and, bit_or, digits, bitwise,
  bit_and-bitwise, bit_or-bitwise,
}
use mathlib.Core.Path.{◌≡◌, refl, ap, ◌∙◌, sym}
use native.Mathlib.Nat.{le_refl, pow-suc, one-le-pow, div-div-eq-div-mul, div-one, mul_comm}
use native.Mathlib.Omega.{arith}

-- Bit `k` of `x`, from the low end.
abbrev pub nth_bit : ℕ → ℕ → ℕ
nth_bit zero x = x % 2
nth_bit (suc k) x = nth_bit k (x / 2)

-- More fuel than the first number does not change the digits.
module _ (alone : ℕ → ℕ) (join : ℕ → ℕ → ℕ) where
  saturated :
      (bound fuel x y : ℕ)
      → fuel ≤ bound
      → x ≤ fuel
      → digits alone join fuel x y ≡ digits alone join x x y
  saturated bound zero (suc x) y le enough = absurd (omega arith)
  saturated bound zero zero y le enough = refl
  saturated bound (suc fuel) zero y le enough = refl
  saturated zero (suc fuel) (suc x) y le enough = absurd (omega arith)
  saturated (suc bound) (suc fuel) (suc x) y le enough =
      let half : ℕ = suc x / 2 in
      let deep = saturated bound fuel half (y / 2) (omega arith) (omega arith) in
      let shallow = saturated bound x half (y / 2) (omega arith) (omega arith) in rw (deep, shallow)

  lowest_digit :
      (x y : ℕ)
      → 0 < x
      → bitwise alone join x y ≡ join (x % 2) (y % 2) + 2 * bitwise alone join (x / 2) (y / 2)
  lowest_digit zero y positive = absurd (omega arith)
  lowest_digit (suc x) y positive =
      let half : ℕ = suc x / 2 in
      omega (arith, saturated x x half (y / 2) (le_refl x) (omega arith))

-- `|` and `&` by the lowest bit.
bit_or_low : (a b : ℕ) → bit_or a b ≡ max (a % 2) (b % 2) + 2 * bit_or (a / 2) (b / 2)
bit_or_low zero b = simp bit_or-bitwise (omega arith)
bit_or_low (suc a) b = simp bit_or-bitwise (lowest_digit (λ t. t) max (suc a) b (omega arith))

bit_and_low : (a b : ℕ) → bit_and a b ≡ min (a % 2) (b % 2) + 2 * bit_and (a / 2) (b / 2)
bit_and_low zero b = simp bit_and-bitwise (omega arith)
bit_and_low (suc a) b = simp bit_and-bitwise (lowest_digit (λ t. 0) min (suc a) b (omega arith))

bit_or_half : (a b : ℕ) → bit_or a b / 2 ≡ bit_or (a / 2) (b / 2)
bit_or_half a b = omega (arith, bit_or_low a b)

bit_and_half : (a b : ℕ) → bit_and a b / 2 ≡ bit_and (a / 2) (b / 2)
bit_and_half a b = omega (arith, bit_and_low a b)

pub nth_bit-bit_or : (k a b : ℕ) → nth_bit k (bit_or a b) ≡ max (nth_bit k a) (nth_bit k b)
nth_bit-bit_or zero a b = omega (arith, bit_or_low a b)
nth_bit-bit_or (suc k) a b = rw (bit_or_half a b) (nth_bit-bit_or k (a / 2) (b / 2))

pub nth_bit-bit_and : (k a b : ℕ) → nth_bit k (bit_and a b) ≡ min (nth_bit k a) (nth_bit k b)
nth_bit-bit_and zero a b = omega (arith, bit_and_low a b)
nth_bit-bit_and (suc k) a b = rw (bit_and_half a b) (nth_bit-bit_and k (a / 2) (b / 2))

pub nth_bit-lt : (k x : ℕ) → nth_bit k x < 2
nth_bit-lt zero x = omega arith
nth_bit-lt (suc k) x = nth_bit-lt k (x / 2)

half_pow : (k x : ℕ) → x < 2 ^ suc k → x / 2 < 2 ^ k
half_pow k x h = omega (arith, pow-suc 2 k)

-- A word of `w` bits stays one.
pub bit_or-lt : (w a b : ℕ) → a < 2 ^ w → b < 2 ^ w → bit_or a b < 2 ^ w
bit_or-lt zero zero zero p q = omega arith
bit_or-lt zero zero (suc b) p q = absurd (omega arith)
bit_or-lt zero (suc a) b p q = absurd (omega arith)
bit_or-lt (suc w) a b p q = omega (
  arith,
  bit_or_low a b,
  pow-suc 2 w,
  bit_or-lt w (a / 2) (b / 2) (half_pow w a p) (half_pow w b q),
)

pub bit_and-lt : (w a b : ℕ) → a < 2 ^ w → bit_and a b < 2 ^ w
bit_and-lt zero zero b p = rw bit_and-bitwise (omega arith)
bit_and-lt zero (suc a) b p = absurd (omega arith)
bit_and-lt (suc w) a b p =
    omega (arith, bit_and_low a b, pow-suc 2 w, bit_and-lt w (a / 2) (b / 2) (half_pow w a p))

-- `(x >> k) & 1`.
pub shift_and_one : (k x : ℕ) → bit_and (x / 2 ^ k) 1 ≡ nth_bit k x
shift_and_one zero x = rw (div-one x) (and_one x)
  where
    and_zero : (n a : ℕ) → a ≤ n → bit_and a 0 ≡ 0
    and_zero n zero h = refl
    and_zero zero (suc a) h = absurd (omega arith)
    and_zero (suc n) (suc a) h =
        omega (arith, bit_and_low (suc a) 0, and_zero n (suc a / 2) (omega arith))

    and_one : (y : ℕ) → bit_and y 1 ≡ y % 2
    and_one y = omega (arith, bit_and_low y 1, and_zero (y / 2) (y / 2) (le_refl _))
shift_and_one (suc k) x =
    ap (λ (t : ℕ). bit_and t 1)
      (ap (λ (t : ℕ). x / t) (pow-suc 2 k ∙ mul_comm _ _) ∙ sym (div-div-eq-div-mul x 2 (2 ^ k)))
    ∙ shift_and_one k (x / 2)

-- The bits of `1UL << k`.
pub nth_bit-pow_self : (k : ℕ) → nth_bit k (2 ^ k) ≡ 1
nth_bit-pow_self zero = refl
nth_bit-pow_self (suc k) =
    let e : 2 ^ suc k / 2 ≡ 2 ^ k = omega (arith, pow-suc 2 k) in rw e (nth_bit-pow_self k)

pub nth_bit-zero : (k : ℕ) → nth_bit k 0 ≡ 0
nth_bit-zero zero = refl
nth_bit-zero (suc k) = nth_bit-zero k

pub nth_bit-pow_ne : (j k : ℕ) → (j ≡ k → ⊥) → nth_bit j (2 ^ k) ≡ 0
nth_bit-pow_ne zero zero ne = absurd (ne refl)
nth_bit-pow_ne (suc j) zero ne = nth_bit-zero j
nth_bit-pow_ne zero (suc k) ne = omega (arith, pow-suc 2 k)
nth_bit-pow_ne (suc j) (suc k) ne =
    let e : 2 ^ suc k / 2 ≡ 2 ^ k = omega (arith, pow-suc 2 k) in
    rw e (nth_bit-pow_ne j k (λ q. ne (ap suc q)))

-- `~x` in a word of `w` bits is `2 ^ w - 1 - x`.
pub nth_bit_complement :
    (w k x : ℕ) → k < w → x < 2 ^ w → nth_bit k (2 ^ w - 1 - x) ≡ 1 - nth_bit k x
nth_bit_complement zero k x h p = absurd (omega arith)
nth_bit_complement (suc w) zero x h p = omega (arith, pow-suc 2 w, one-le-pow w 2 (omega arith))
nth_bit_complement (suc w) (suc k) x h p =
    let e : (2 ^ suc w - 1 - x) / 2 ≡ 2 ^ w - 1 - x / 2 = omega (arith, pow-suc 2 w) in
    rw e (nth_bit_complement w k (x / 2) (omega arith) (half_pow w x p))

-- Two words with the same bits are one.
pub word_ext :
    (w x y : ℕ) → x < 2 ^ w → y < 2 ^ w → ((k : ℕ) → k < w → nth_bit k x ≡ nth_bit k y) → x ≡ y
word_ext zero x y p q h = omega arith
word_ext (suc w) x y p q h = omega (
  arith,
  h 0 (omega arith),
  word_ext w (x / 2) (y / 2) (half_pow w x p) (half_pow w y q) (λ k l. h (suc k) (omega arith)),
)

-- `x & mask` where `x` has no more bits than the mask has ones.
bit_and_ones : (k a : ℕ) → a < 2 ^ k → bit_and a (2 ^ k - 1) ≡ a
bit_and_ones zero zero h = refl
bit_and_ones zero (suc a) h = absurd (omega arith)
bit_and_ones (suc k) a h =
    let e : (2 ^ suc k - 1) / 2 ≡ 2 ^ k - 1 = omega (arith, pow-suc 2 k, one-le-pow k 2) in
    let step : bit_and (a / 2) ((2 ^ suc k - 1) / 2) ≡ a / 2 =
      rw e (bit_and_ones k (a / 2) (half_pow k a h)) in
    omega (arith, bit_and_low a (2 ^ suc k - 1), step, pow-suc 2 k, one-le-pow k 2)

-- Rounding down to a multiple of 64 by masking off the low six bits of a 64-bit word.
pub bit_and_high : (a : ℕ) → a < 2 ^ 64 → bit_and a (2 ^ 64 - 64) ≡ a / 64 * 64
bit_and_high a h = omega (
  arith,
  bit_and_low a (2 ^ 64 - 64),
  bit_and_low (a / 2) (2 ^ 63 - 32),
  bit_and_low (a / 2 / 2) (2 ^ 62 - 16),
  bit_and_low (a / 2 / 2 / 2) (2 ^ 61 - 8),
  bit_and_low (a / 2 / 2 / 2 / 2) (2 ^ 60 - 4),
  bit_and_low (a / 2 / 2 / 2 / 2 / 2) (2 ^ 59 - 2),
  bit_and_ones 58 (a / 2 / 2 / 2 / 2 / 2 / 2) (omega arith),
)
