-- ===== src/Bitmask/Ops.antt =====
-- `_getbit` and `_setbit`: no access leaves the words, and a read after a write.
use numactl.Base.{
  ℕ, zero, suc, ◌-◌, ◌/◌, ◌%◌, ◌^◌, ◌≤◌, ◌<◌, ◌≡◌, ◌≢◌, sym, true, false, not, ◌&&◌, arith, ltb,
  lt→ltb, le→ltb, ◌==◌, if◌then◌else◌, Bool-cases, inl, inr, ◌⊎◌, List, [], ◌∷◌, length, get_or,
  set, length-set, get_or-set_self, get_or-set_ne, bit_and, bit_or, ap,
}
use numactl.Base.Bits.{
  nth_bit, nth_bit-bit_or, nth_bit-bit_and, nth_bit-lt, bit_or-lt, bit_and-lt, shift_and_one,
  nth_bit-pow_self, nth_bit-pow_ne, nth_bit_complement,
}
use numactl.Bitmask.{Bitmask, IsValid, getbit, setbit, isbitset}
use native.Mathlib.Nat.{pow-le-pow_right}

-- The word that holds a bit of the mask is one of its words.
pub word-lt : (b : Bitmask) (n : ℕ) → IsValid b → n < b.size → n / 64 < length b.maskp
word-lt b n v h = omega (arith, v.words)

pow-lt : (k : ℕ) → k < 64 → 2 ^ k < 2 ^ 64
pow-lt k h = omega (arith, pow-le-pow_right {n = 2} (omega arith) {i = k} {j = 63} (omega arith))

-- What `_setbit` stores in place of the word `w`.
abbrev pub store_bit : ℕ → ℕ → ℕ → ℕ
store_bit w k v = if not (v == 0) then bit_or w (2 ^ k) else bit_and w (2 ^ 64 - 1 - 2 ^ k)

nth_bit-store_bit_self :
    (w k v : ℕ) → k < 64 → nth_bit k (store_bit w k v) ≡ (if v == 0 then 0 else 1)
nth_bit-store_bit_self w k v h = elim (Bool-cases (v == 0)) [
  | inl z ↦ rw z (
      omega (
        arith,
        nth_bit-bit_and k w (2 ^ 64 - 1 - 2 ^ k),
        nth_bit_complement 64 k (2 ^ k) h (pow-lt k h),
        nth_bit-pow_self k,
      ))
  | inr s ↦ rw s (omega (arith, nth_bit-bit_or k w (2 ^ k), nth_bit-pow_self k, nth_bit-lt k w))
]

nth_bit-store_bit_ne :
    (w j k v : ℕ) → j < 64 → k < 64 → j ≢ k → nth_bit j (store_bit w k v) ≡ nth_bit j w
nth_bit-store_bit_ne w j k v hj hk ne = elim (Bool-cases (v == 0)) [
  | inl z ↦ rw z (
      omega (
        arith,
        nth_bit-bit_and j w (2 ^ 64 - 1 - 2 ^ k),
        nth_bit_complement 64 j (2 ^ k) hj (pow-lt k hk),
        nth_bit-pow_ne j k ne,
        nth_bit-lt j w,
      ))
  | inr s ↦ rw s (omega (arith, nth_bit-bit_or j w (2 ^ k), nth_bit-pow_ne j k ne))
]

store_bit-lt : (w k v : ℕ) → w < 2 ^ 64 → k < 64 → store_bit w k v < 2 ^ 64
store_bit-lt w k v h hk = elim (Bool-cases (v == 0)) [
  | inl z ↦ rw z (bit_and-lt 64 w (2 ^ 64 - 1 - 2 ^ k) h)
  | inr s ↦ rw s (bit_or-lt 64 w (2 ^ k) h (pow-lt k hk))
]

-- The bit of the words that stands for `n`, whether or not `n` is below the size.
abbrev pub word_bit : Bitmask → ℕ → ℕ
word_bit b n = nth_bit (n % 64) (get_or b.maskp (n / 64) 0)

pub getbit_lem : (b : Bitmask) (n : ℕ) → getbit b n ≡ (if ltb n b.size then word_bit b n else 0)
unfolding getbit
getbit_lem b n = rw (shift_and_one (n % 64) (get_or b.maskp (n / 64) 0))

pub getbit-lt : (b : Bitmask) (n : ℕ) → getbit b n < 2
getbit-lt b n = ground (arith, getbit_lem b n, nth_bit-lt (n % 64) (get_or b.maskp (n / 64) 0))

-- A bit at or past the size reads as 0.
pub isbitset_beyond : (b : Bitmask) (n : ℕ) → b.size ≤ n → isbitset b n ≡ false
unfolding isbitset getbit
isbitset_beyond b n h = rw (le→ltb n b.size h)

pub isbitset-lt : (b : Bitmask) (n : ℕ) → isbitset b n ≡ true → n < b.size
unfolding isbitset getbit
isbitset-lt b n h = ground arith

pub size-setbit : (b : Bitmask) (n v : ℕ) → (setbit b n v).size ≡ b.size
unfolding setbit
size-setbit b n v = ground arith

words-setbit :
    (b : Bitmask) (n v : ℕ)
    → n < b.size
    → (setbit b n v).maskp ≡ set b.maskp (n / 64) (store_bit (get_or b.maskp (n / 64) 0) (n % 64) v)
unfolding setbit
words-setbit b n v h = rw (lt→ltb n b.size h) (ground arith)

setbit_outside : (b : Bitmask) (n v : ℕ) → b.size ≤ n → setbit b n v ≡ b
unfolding setbit
setbit_outside b n v h = rw (le→ltb n b.size h)

range-set :
    (xs : List ℕ) (i v j : ℕ)
    → v < 2 ^ 64
    → ((k : ℕ) → get_or xs k 0 < 2 ^ 64)
    → get_or (set xs i v) j 0 < 2 ^ 64
range-set [] i v j hv h = h j
range-set (x ∷ xs) zero v zero hv h = hv
range-set (x ∷ xs) zero v (suc j) hv h = h (suc j)
range-set (x ∷ xs) (suc i) v zero hv h = h 0
range-set (x ∷ xs) (suc i) v (suc j) hv h = range-set xs i v j hv (λ k. h (suc k))

pub setbit-IsValid : (b : Bitmask) (n v : ℕ) → IsValid b → IsValid (setbit b n v)
setbit-IsValid b n v ok = elim (split n b.size) [
  | inr out ↦ rw (setbit_outside b n v out) ok
  | inl inside ↦ record {
    fits = rw (size-setbit b n v) ok.fits;
    words = rw (words-setbit b n v inside, size-setbit b n v, length-set) ok.words;
    range = λ i. rw (words-setbit b n v inside) (
        range-set b.maskp (n / 64) _ i (store_bit-lt _ (n % 64) v (ok.range (n / 64)) (omega arith))
          ok.range);
  }
]
  where
    split : (x y : ℕ) → (x < y) ⊎ (y ≤ x)
    split x y = omega arith

word_bit-setbit_self :
    (b : Bitmask) (n v : ℕ)
    → IsValid b
    → n < b.size
    → word_bit (setbit b n v) n ≡ (if v == 0 then 0 else 1)
word_bit-setbit_self b n v ok h =
    rw (words-setbit b n v h, get_or-set_self b.maskp (n / 64) _ 0 (word-lt b n ok h))
      (nth_bit-store_bit_self _ (n % 64) v (omega arith))

word_bit-setbit_ne :
    (b : Bitmask) (n v m : ℕ)
    → IsValid b
    → n < b.size
    → m ≢ n
    → word_bit (setbit b n v) m ≡ word_bit b m
word_bit-setbit_ne b n v m ok h ne = elim (cases (m / 64) (n / 64)) [
  | inr other ↦
      rw (words-setbit b n v h)
        (ap (nth_bit (m % 64)) (get_or-set_ne b.maskp (n / 64) (m / 64) _ 0 (λ e. other (sym e))))
  | inl same ↦
      rw (words-setbit b n v h, same, get_or-set_self b.maskp (n / 64) _ 0 (word-lt b n ok h))
        (nth_bit-store_bit_ne _ (m % 64) (n % 64) v (omega arith) (omega arith) (omega arith))
]
  where
    cases : (x y : ℕ) → (x ≡ y) ⊎ (x ≢ y)
    cases x y = ground arith

-- Reading after writing: bit `n` has the new value if it is in the mask, and no other changes.
pub isbitset-setbit :
    (b : Bitmask) (n v m : ℕ)
    → IsValid b
    → isbitset (setbit b n v) m ≡ (if m == n && ltb n b.size then not (v == 0) else isbitset b m)
unfolding isbitset
isbitset-setbit b n v m ok = ground (
  arith,
  getbit_lem (setbit b n v) m,
  getbit_lem b m,
  size-setbit b n v,
  setbit_outside b n v,
  word_bit-setbit_self b n v ok,
  word_bit-setbit_ne b n v m ok,
)
