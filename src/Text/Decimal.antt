-- ===== src/Text/Decimal.antt =====
-- `strtoul` reads back what `%d` prints.
use numactl.Base.{
  ℕ, zero, suc, ◌+◌, ◌*◌, ◌/◌, ◌%◌, ◌^◌, ◌≤◌, ◌<◌, ◌≡◌, inl, inr, refl, ap, ◌∙◌, true, false, ◌||◌,
  [], ◌∷◌, ◌++◌, none, some, Bytes, ltb, ◌==◌, arith, Bool-cases, length,
}
use numactl.Base.Ints.{pos}
use native.Mathlib.Nat.{pow-suc}
use numactl.Text.{
  isdigit, first_byte, skip_space, digit, is_some, scan, detect_base, sign, strtoul, digits_onto,
  decimal, strtol, atoi, int_read,
}

-- A number that is printed in front of this text ends there: no digit follows, and no `x`, which
-- would go on with a leading 0.
abbrev pub NoDigit : Bytes → Type 0
NoDigit s =
    (isdigit (first_byte s) ≡ false) × ((first_byte s == b'x' || first_byte s == b'X') ≡ false)

digit-ten : (d : ℕ) → d < 10 → digit 10 (b'0' + d) ≡ some d
unfolding digit
digit-ten d h = ground arith

scan-NoDigit : (acc : ℕ) (rest : Bytes) → NoDigit rest → scan 10 acc rest ≡ (acc, rest)
unfolding scan digit
scan-NoDigit acc [] h = refl
scan-NoDigit acc (c ∷ s) h = ground arith

scan-cons :
    (d acc : ℕ) (rest : Bytes)
    → d < 10
    → scan 10 acc ((b'0' + d) ∷ rest) ≡ scan 10 (acc * 10 + d) rest
unfolding scan
scan-cons d acc rest h = rw (digit-ten d h, scan)

scan-digits_onto :
    (f n : ℕ) (rest : Bytes) → n < f → scan 10 0 (digits_onto f n rest) ≡ scan 10 n rest
unfolding digits_onto
scan-digits_onto zero n rest h = absurd (omega arith)
scan-digits_onto (suc f) n rest h = elim (Bool-cases (ltb n 10)) [
  | inl small ↦ rw small (
      scan-cons (n % 10) 0 rest (omega arith)
      ∙ ap (λ (t : ℕ). scan 10 t rest) (let e : 0 * 10 + n % 10 ≡ n = ground arith in e))
  | inr large ↦ rw large (
      scan-digits_onto f (n / 10) ((b'0' + n % 10) ∷ rest) (ground arith)
      ∙ scan-cons (n % 10) (n / 10) rest (omega arith)
      ∙ ap (λ (t : ℕ). scan 10 t rest) (let e : n / 10 * 10 + n % 10 ≡ n = omega arith in e))
]

digits_onto-append : (f n : ℕ) (a b : Bytes) → digits_onto f n a ++ b ≡ digits_onto f n (a ++ b)
unfolding digits_onto
digits_onto-append zero n a b = refl
digits_onto-append (suc f) n a b = elim (Bool-cases (ltb n 10)) [
  | inl small ↦ rw small
  | inr large ↦ rw large (digits_onto-append f (n / 10) _ b)
]

-- The first digit of a positive number is not 0.
abbrev pub Leads : Bytes → Type 0
Leads s = (b'1' ≤ first_byte s) × (first_byte s ≤ b'9')

digits_onto-Leads : (f n : ℕ) (rest : Bytes) → 0 < n → n < f → Leads (digits_onto f n rest)
unfolding digits_onto
digits_onto-Leads zero n rest p h = absurd (omega arith)
digits_onto-Leads (suc f) n rest p h = elim (Bool-cases (ltb n 10)) [
  | inl small ↦ rw small (ground arith)
  | inr large ↦ rw large (digits_onto-Leads f (n / 10) _ (ground arith) (ground arith))
]

plain-Leads :
    (s : Bytes)
    → Leads s
    → (skip_space s ≡ s)
      × (sign s ≡ (false, s))
      × (detect_base 0 s ≡ (10, s))
      × (is_some (digit 10 (first_byte s)) ≡ true)
unfolding skip_space sign detect_base digit
plain-Leads [] (l, h) = absurd (omega arith)
plain-Leads (c ∷ []) (l, h) = (ground arith, ground arith, ground arith, ground arith)
plain-Leads (c ∷ x ∷ []) (l, h) = (ground arith, ground arith, ground arith, ground arith)
plain-Leads (c ∷ x ∷ y ∷ s) (l, h) = (ground arith, ground arith, ground arith, ground arith)

strtoul-Leads :
    (s : Bytes) (v : ℕ) (rest : Bytes)
    → Leads s
    → scan 10 0 s ≡ (v, rest)
    → v < 2 ^ 64
    → strtoul 0 s ≡ some (v, rest)
strtoul-Leads s v rest l e h =
    let (a, b, c, d) = plain-Leads s l in unfold strtoul in rw (a, b, c, d, e) (ground arith)

-- Leading blanks are skipped.
pub strtoul_blank : (base : ℕ) (s : Bytes) → strtoul base (b' ' ∷ s) ≡ strtoul base s
unfolding strtoul skip_space
strtoul_blank base s = refl

strtoul-decimal_zero : (rest : Bytes) → NoDigit rest → strtoul 0 (b'0' ∷ rest) ≡ some (0, rest)
unfolding strtoul skip_space sign detect_base digit scan
strtoul-decimal_zero [] h = refl
strtoul-decimal_zero (c ∷ []) h = ground arith
strtoul-decimal_zero (c ∷ d ∷ s) h = ground arith

-- What `%d` prints is read back by `strtoul`, up to the text behind it.
pub strtoul-decimal :
    (n : ℕ) (rest : Bytes)
    → n < 2 ^ 64
    → NoDigit rest
    → strtoul 0 (decimal n ++ rest) ≡ some (n, rest)
unfolding decimal
strtoul-decimal zero rest h nd = unfold digits_onto in strtoul-decimal_zero rest nd
strtoul-decimal (suc n) rest h nd = rw (digits_onto-append (suc (suc n)) (suc n) [] rest) (
    strtoul-Leads _ (suc n) rest
      (digits_onto-Leads (suc (suc n)) (suc n) rest (omega arith) (omega arith))
      (scan-digits_onto (suc (suc n)) (suc n) rest (omega arith) ∙ scan-NoDigit (suc n) rest nd) h)

-- The first character of a number is a digit.
pub first_byte-decimal : (n : ℕ) (rest : Bytes) → isdigit (first_byte (decimal n ++ rest)) ≡ true
unfolding decimal
first_byte-decimal zero rest = unfold digits_onto in refl
first_byte-decimal (suc n) rest =
    rw (digits_onto-append (suc (suc n)) (suc n) [] rest)
      (ground (arith, digits_onto-Leads (suc (suc n)) (suc n) rest (omega arith) (omega arith)))

-- There is no number in front of a newline.
pub strtoul_newline : strtoul 0 (b'\n' ∷ []) ≡ none
unfolding strtoul skip_space sign detect_base digit
strtoul_newline = refl

length-digits_onto :
    (k f n : ℕ) (rest : Bytes)
    → n < 10 ^ suc k
    → length (digits_onto f n rest) ≤ suc k + length rest
unfolding digits_onto
length-digits_onto k zero n rest h = omega arith
length-digits_onto zero (suc f) n rest h =
    let small : ltb n 10 ≡ true = ground (arith, pow-suc 10 0) in rw small (omega arith)
length-digits_onto (suc k) (suc f) n rest h =
    let more =
      length-digits_onto k f (n / 10) ((b'0' + n % 10) ∷ rest)
        (let p = pow-suc 10 (suc k) in omega (arith, p, h)) in
    ground (arith, more)

-- A number below 10^(k+1) has at most k+1 digits.
pub length-decimal : (k n : ℕ) → n < 10 ^ suc k → length (decimal n) ≤ suc k
unfolding decimal
length-decimal k n h = let l = length-digits_onto k (suc n) n [] h in omega (arith, l)

plain_digit :
    (s : Bytes)
    → isdigit (first_byte s) ≡ true
    → (skip_space s ≡ s)
      × (sign s ≡ (false, s))
      × (detect_base 10 s ≡ (10, s))
      × (is_some (digit 10 (first_byte s)) ≡ true)
unfolding skip_space sign detect_base digit
plain_digit [] h = cc h
plain_digit (c ∷ []) h = (ground arith, ground arith, ground arith, ground arith)
plain_digit (c ∷ x ∷ []) h = (ground arith, ground arith, ground arith, ground arith)
plain_digit (c ∷ x ∷ y ∷ s) h = (ground arith, ground arith, ground arith, ground arith)

scan-decimal : (n : ℕ) (rest : Bytes) → NoDigit rest → scan 10 0 (decimal n ++ rest) ≡ (n, rest)
unfolding decimal
scan-decimal n rest h =
    rw (digits_onto-append (suc n) n [] rest)
      (scan-digits_onto (suc n) n rest (omega arith) ∙ scan-NoDigit n rest h)

-- `strtol` reads decimal digits in base 10, up to the text behind them.
pub strtol-decimal :
    (n : ℕ) (rest : Bytes)
    → n < 2 ^ 63
    → NoDigit rest
    → strtol 10 (decimal n ++ rest) ≡ some (n, rest)
unfolding strtol
strtol-decimal n rest h d =
    let (a, b, c, e) = plain_digit (decimal n ++ rest) (first_byte-decimal n rest) in
    rw (a, b, c, e, scan-decimal n rest d) (ground (arith, h))

pub append_nothing : (s : Bytes) → s ≡ s ++ []
append_nothing [] = refl
append_nothing (c ∷ s) = ap (λ t. c ∷ t) (append_nothing s)

-- `atoi` reads back what `%d` prints.
pub atoi-decimal : (n : ℕ) → n < 2 ^ 31 → atoi (decimal n) ≡ pos n
unfolding atoi
atoi-decimal n h =
    ap (λ t. int_read (strtol 10 t)) (append_nothing (decimal n))
    ∙ ap int_read (strtol-decimal n [] (omega (arith, h)) (refl, refl))
    ∙ ground (arith, h)

-- Only digits.
abbrev pub Digits : Bytes → Type 0
Digits [] = Unit
Digits (c ∷ s) = (isdigit c ≡ true) × Digits s

digits_onto-Digits : (f n : ℕ) (rest : Bytes) → Digits rest → Digits (digits_onto f n rest)
unfolding digits_onto
digits_onto-Digits zero n rest d = d
digits_onto-Digits (suc f) n rest d = elim (Bool-cases (ltb n 10)) [
  | inl small ↦ rw small (ground arith, d)
  | inr large ↦ rw large (digits_onto-Digits f (n / 10) ((b'0' + n % 10) ∷ rest) (ground arith, d))
]

pub decimal-Digits : (n : ℕ) → Digits (decimal n)
unfolding decimal
decimal-Digits n = digits_onto-Digits (suc n) n [] tt
