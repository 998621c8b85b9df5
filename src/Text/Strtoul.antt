-- ===== src/Text/Strtoul.antt =====
-- `strtoul` moves forward whenever it reads a number, and its value fits a word.
use numactl.Base.{
  ℕ, ◌+◌, ◌*◌, ◌^◌, ◌≤◌, ◌<◌, ◌≡◌, ◌==◌, Bool, true, false, Option, refl, if◌then◌else◌, [], ◌∷◌,
  none, some, Bytes, arith, length, Option-cases, inl, inr,
}
use numactl.Text.{
  first_byte, skip_space, digit, is_some, scan, detect_base, sign, to_ulong, strtoul, to_long,
  strtol,
}

length-scan : (base acc : ℕ) (s : Bytes) → length (scan base acc s).1 ≤ length s
unfolding scan
length-scan base acc [] = omega arith
length-scan base acc (c ∷ s) = elim (Option-cases (digit base c)) [
  | inl stop ↦ rw (stop, scan) (omega arith)
  | inr (d, more) ↦ rw (more, scan) (omega (arith, length-scan base (acc * base + d) s))
]

-- No base has a digit at the end of the string.
digit-end : (base : ℕ) → digit base 0 ≡ none
unfolding digit
digit-end base = ground arith

length-scan-digit :
    (base acc : ℕ) (s : Bytes)
    → is_some (digit base (first_byte s)) ≡ true
    → length (scan base acc s).1 < length s
unfolding scan
length-scan-digit base acc [] h = absurd (cc (digit-end base))
length-scan-digit base acc (c ∷ s) h = elim (Option-cases (digit base c)) [
  | inl stop ↦ absurd (cc)
  | inr (d, more) ↦ rw (more, scan) (omega (arith, length-scan base (acc * base + d) s))
]

length-skip_space : (s : Bytes) → length (skip_space s) ≤ length s
unfolding skip_space
length-skip_space [] = omega arith
length-skip_space (c ∷ s) = ground (arith, length-skip_space s)

length-sign : (s : Bytes) → length (sign s).1 ≤ length s
unfolding sign
length-sign [] = omega arith
length-sign (c ∷ s) = ground arith

length-detect_base : (base : ℕ) (s : Bytes) → length (detect_base base s).1 ≤ length s
unfolding detect_base
length-detect_base base [] = omega arith
length-detect_base base (c ∷ []) = omega arith
length-detect_base base (c ∷ x ∷ []) = omega arith
length-detect_base base (c ∷ x ∷ h ∷ s) = ground arith

to_ulong-lt : (minus : Bool) (v : ℕ) → to_ulong minus v < 2 ^ 64
to_ulong-lt minus v = ground arith

-- Where `strtoul` reads a number, `end` is behind `s`.
pub length-strtoul :
    (base : ℕ) (s : Bytes) {v : ℕ} {end : Bytes}
    → strtoul base s ≡ some (v, end)
    → length end < length s
unfolding strtoul
length-strtoul base s {v} {end} h =
    let t = (sign (skip_space s)).1 in
    let b = (detect_base base t).0 in
    let u = (detect_base base t).1 in
    ground (
      arith,
      length-scan-digit b 0 u,
      length-detect_base base t,
      length-sign (skip_space s),
      length-skip_space s,
    )

pub strtoul-lt :
    (base : ℕ) (s : Bytes) {v : ℕ} {end : Bytes} → strtoul base s ≡ some (v, end) → v < 2 ^ 64
unfolding strtoul
strtoul-lt base s h = ground arith

-- The same for `strtol`.
pub length-strtol :
    (base : ℕ) (s : Bytes) {v : ℕ} {end : Bytes}
    → strtol base s ≡ some (v, end)
    → length end < length s
unfolding strtol
length-strtol base s {v} {end} h =
    let t = (sign (skip_space s)).1 in
    let b = (detect_base base t).0 in
    let u = (detect_base base t).1 in
    ground (
      arith,
      length-scan-digit b 0 u,
      length-detect_base base t,
      length-sign (skip_space s),
      length-skip_space s,
    )

sign_plain : (s : Bytes) → (first_byte s == b'-') ≡ false → (sign s).0 ≡ false
unfolding sign
sign_plain [] h = refl
sign_plain (c ∷ s) h = ground arith

read_signed :
    (found minus : Bool) (raw v : ℕ) (rest end : Bytes) (r : Option (ℕ × Bytes))
    → minus ≡ false
    → v < 2 ^ 63
    → r ≡ (if found then some (to_ulong minus raw, rest) else none)
    → r ≡ some (v, end)
    → ◌≡◌ {A = Option (ℕ × Bytes)}
        (if found then some (to_long minus raw, rest) else none)
        (some (v, end))
read_signed found minus raw v rest end r m l e h = ground arith

-- Without a minus sign `strtol` reads what `strtoul` does, if it fits.
pub strtol-strtoul :
    (base : ℕ) (s : Bytes) {v : ℕ} {end : Bytes}
    → (first_byte (skip_space s) == b'-') ≡ false
    → v < 2 ^ 63
    → strtoul base s ≡ some (v, end)
    → strtol base s ≡ some (v, end)
unfolding strtol strtoul
strtol-strtoul base s {v} {end} p l h =
    let t = (sign (skip_space s)).1 in
    let b = (detect_base base t).0 in
    let u = (detect_base base t).1 in
    read_signed (is_some (digit b (first_byte u))) ((sign (skip_space s)).0) ((scan b 0 u).0) v
      ((scan b 0 u).1) end (strtoul base s) (sign_plain (skip_space s) p) l refl h
