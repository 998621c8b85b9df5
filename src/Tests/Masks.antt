-- ===== src/Tests/Masks.antt =====
-- The theorems on masks at concrete masks.
use numactl.Base.{
  ℕ, zero, suc, ◌-◌, ◌^◌, ◌/◌, ◌%◌, ◌⊎◌, inl, inr, ◌≤◌, ◌<◌, ◌≡◌, refl, true, false, ◌&&◌, [], ◌∷◌,
  arith, ltb, get_or,
}
use numactl.Base.Bits.{nth_bit, nth_bit-zero}
use numactl.Bitmask.{Bitmask, IsValid, isbitset, setbit, getbit}
use numactl.Bitmask.Abstract.{IsTidy}
use numactl.Bitmask.Copy.{copy_bitmask_to_bitmask, isbitset-copy, copy-copy_leak}
use numactl.Bitmask.Ops.{isbitset-setbit}

-- Bits 0, 2 and 3 of 8.
abbrev pub eight : Bitmask
eight = record { size = 8; maskp = 13 ∷ [] }

pub eight-IsValid : IsValid eight
eight-IsValid = record { fits = omega arith; words = refl; range = range }
  where
    range : (i : ℕ) → get_or (13 ∷ []) i 0 < 2 ^ 64
    range zero = omega arith
    range (suc i) = omega arith

-- A mask of one word has no bit past its size if the word has none.
pub one_word-IsTidy :
    (n w : ℕ) → ((k : ℕ) → n ≤ k → nth_bit k w ≡ 0) → IsTidy (record { size = n; maskp = w ∷ [] })
one_word-IsTidy n w high i l = elim (place i) [
  | inl (q, r) ↦ rw (q, r) (high i l)
  | inr (k, q) ↦ rw q (nth_bit-zero (i % 64))
]
  where
    place : (i : ℕ) → ((i / 64 ≡ 0) × (i % 64 ≡ i)) ⊎ ((k : ℕ) × (i / 64 ≡ suc k))
    place i = elim (split i) [
      | inl a ↦ inl (omega arith, omega arith)
      | inr b ↦ inr (i / 64 - 1, omega arith)
    ]
      where
        split : (x : ℕ) → (x < 64) ⊎ (64 ≤ x)
        split x = omega arith

pub eight-IsTidy : IsTidy eight
eight-IsTidy = one_word-IsTidy 8 13 high
  where
    high : (k : ℕ) → 8 ≤ k → nth_bit k 13 ≡ 0
    high zero l = absurd (omega arith)
    high (suc zero) l = absurd (omega arith)
    high (suc (suc zero)) l = absurd (omega arith)
    high (suc (suc (suc zero))) l = absurd (omega arith)
    high (suc (suc (suc (suc k)))) l = nth_bit-zero k

-- Bits 1 and 6 of 7.
abbrev seven : Bitmask
seven = record { size = 7; maskp = 66 ∷ [] }

seven-IsValid : IsValid seven
seven-IsValid = record { fits = omega arith; words = refl; range = range }
  where
    range : (i : ℕ) → get_or (66 ∷ []) i 0 < 2 ^ 64
    range zero = omega arith
    range (suc i) = omega arith

-- Bit 2 of 3.
abbrev three : Bitmask
three = record { size = 3; maskp = 4 ∷ [] }

three-IsValid : IsValid three
three-IsValid = record { fits = omega arith; words = refl; range = range }
  where
    range : (i : ℕ) → get_or (4 ∷ []) i 0 < 2 ^ 64
    range zero = omega arith
    range (suc i) = omega arith

isbitset-setbit_example : isbitset (setbit eight 5 1) 5 ≡ true
isbitset-setbit_example = isbitset-setbit eight 5 1 5 eight-IsValid

isbitset-copy_example :
    isbitset (copy_bitmask_to_bitmask eight seven) 3 ≡ (ltb 3 7 && isbitset eight 3)
isbitset-copy_example = isbitset-copy eight seven 3 eight-IsValid seven-IsValid eight-IsTidy

copy-copy_leak_example :
    (isbitset (copy_bitmask_to_bitmask eight three) 3 ≡ false)
    × (isbitset (copy_bitmask_to_bitmask (copy_bitmask_to_bitmask eight three) seven) 3 ≡ true)
unfolding isbitset getbit
copy-copy_leak_example =
    copy-copy_leak eight three seven 3 eight-IsValid three-IsValid seven-IsValid refl (omega arith)
      (omega arith) (omega arith)
