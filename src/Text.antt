-- ===== src/Text.antt =====
-- What the sources use of the C library on text: `isspace`, `isdigit`, `isalpha`, `toupper`,
-- `strtoul`, `strtol`, `atoi` and `%d` of `printf`. A string is its bytes up to the NUL.
use numactl.Base.{
  ℕ, zero, suc, ◌+◌, ◌-◌, ◌*◌, ◌/◌, ◌%◌, ◌^◌, Bool, true, false, ◌&&◌, ◌||◌, List, [], ◌∷◌, ◌++◌,
  Option, none, some, Bytes, ltb, leb, ◌==◌, if◌then◌else◌,
}
use numactl.Base.Ints.{ℤ, pos, negsuc, to_i32}
pub mod Strtoul
pub mod Decimal

abbrev pub within : ℕ → ℕ → ℕ → Bool
within lo hi c = leb lo c && leb c hi

-- In the C locale.
abbrev pub isspace : ℕ → Bool
isspace c = c == b' ' || within 9 13 c

abbrev pub isdigit : ℕ → Bool
isdigit c = within b'0' b'9' c

abbrev pub isalpha : ℕ → Bool
isalpha c = within b'a' b'z' c || within b'A' b'Z' c

abbrev pub toupper : ℕ → ℕ
toupper c = if within b'a' b'z' c then c - 32 else c

-- `*s`: 0 at the end of the string.
abbrev pub first_byte : Bytes → ℕ
first_byte [] = 0
first_byte (c ∷ s) = c

unfoldable pub skip_space : Bytes → Bytes
skip_space [] = []
skip_space (c ∷ s) = if isspace c then skip_space s else c ∷ s

-- The digit that a character stands for in a base.
unfoldable pub digit : ℕ → ℕ → Option ℕ
digit base c =
    let v =
      if isdigit c
      then c - b'0'
      else if within b'a' b'z' c
      then c - b'a' + 10
      else if within b'A' b'Z' c
      then c - b'A' + 10
      else base in
    if ltb v base then some v else none

abbrev pub is_some {ℓ} : {A : Type ℓ} → Option A → Bool
is_some none = false
is_some (some a) = true

-- The number that the leading digits of `s` make after `acc`, and what follows them.
unfoldable pub scan : ℕ → ℕ → Bytes → ℕ × Bytes
scan base acc [] = (acc, [])
scan base acc (c ∷ s) = elim (digit base c) [
  | none ↦ (acc, c ∷ s)
  | some d ↦ scan base (acc * base + d) s
]

-- The base that `strtoul` reads in, and where its digits begin.
unfoldable pub detect_base : ℕ → Bytes → ℕ × Bytes
unfolding digit
detect_base base (c ∷ x ∷ h ∷ s) =
    if (base == 0 || base == 16) && c == b'0' && (x == b'x' || x == b'X') && is_some (digit 16 h)
    then (16, h ∷ s)
    else if base == 0
    then (if c == b'0' then 8 else 10, c ∷ x ∷ h ∷ s)
    else (base, c ∷ x ∷ h ∷ s)
detect_base base s = (if base == 0 then (if first_byte s == b'0' then 8 else 10) else base, s)

-- An optional sign: whether it is `-`, and what follows.
unfoldable pub sign : Bytes → Bool × Bytes
sign [] = (false, [])
sign (c ∷ s) = if c == b'-' then (true, s) else if c == b'+' then (false, s) else (false, c ∷ s)

-- ULONG_MAX if the digits overflow; a minus sign negates in the word.
abbrev pub to_ulong : Bool → ℕ → ℕ
to_ulong minus v = if leb (2 ^ 64) v then 2 ^ 64 - 1 else if minus then (2 ^ 64 - v) % 2 ^ 64 else v

-- `strtoul(s, &end, base)`: the value and `end`; `none` if there is no number, where the value
-- is 0 and `end` is `s`.
unfoldable pub strtoul : ℕ → Bytes → Option (ℕ × Bytes)
strtoul base s =
    let (minus, t) = sign (skip_space s) in
    let (b, u) = detect_base base t in
    let (v, end) = scan b 0 u in
    if is_some (digit b (first_byte u)) then some (to_ulong minus v, end) else none

-- `strtol`, as a word: LONG_MAX and LONG_MIN where the number does not fit.
abbrev pub to_long : Bool → ℕ → ℕ
to_long minus v =
    if minus
    then (if leb (2 ^ 63) v then 2 ^ 63 else (2 ^ 64 - v) % 2 ^ 64)
    else if leb (2 ^ 63) v
    then 2 ^ 63 - 1
    else v

unfoldable pub strtol : ℕ → Bytes → Option (ℕ × Bytes)
strtol base s =
    let (minus, t) = sign (skip_space s) in
    let (b, u) = detect_base base t in
    let (v, end) = scan b 0 u in
    if is_some (digit b (first_byte u)) then some (to_long minus v, end) else none

abbrev pub int_read : Option (ℕ × Bytes) → ℤ
int_read none = pos 0
int_read (some (v, end)) = to_i32 v

-- `atoi`
unfoldable pub atoi : Bytes → ℤ
atoi s = int_read (strtol 10 s)

-- Decimal digits of `n`, most significant first, in front of `rest`; the fuel is more than the
-- number of digits.
unfoldable pub digits_onto : ℕ → ℕ → Bytes → Bytes
digits_onto zero n rest = rest
digits_onto (suc f) n rest =
    let c = b'0' + n % 10 in
    let more = digits_onto f (n / 10) (c ∷ rest) in if ltb n 10 then c ∷ rest else more

-- What `%d` prints for an `int` that is not negative.
unfoldable pub decimal : ℕ → Bytes
unfolding digits_onto
decimal n = digits_onto (suc n) n []
