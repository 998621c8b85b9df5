-- ===== src/Bitmask/Abstract.antt =====
-- A mask as the set of its bit numbers, and the words as a representation of that set.
use numactl.Base.{
  ℕ, ◌+◌, ◌*◌, ◌/◌, ◌%◌, ◌≤◌, ◌<◌, ◌≡◌, ◌↔◌, sym, ap, ◌∙◌, Bool, true, arith, if◌then◌else◌, get_or,
  get_or_ext,
}
use numactl.Base.Bits.{nth_bit, nth_bit-lt, word_ext}
use numactl.Bitmask.{Bitmask, IsValid, longs_per_bits, isbitset, equal}
use numactl.Bitmask.Ops.{word_bit, getbit_lem}
use numactl.Bitmask.Scan.{equal_iff}

-- No bit of the last word past the size is set.
abbrev pub IsTidy : Bitmask → Type 0
IsTidy b = (i : ℕ) → b.size ≤ i → word_bit b i ≡ 0

pub word_bit-isbitset :
    (b : Bitmask) (i : ℕ) → IsTidy b → word_bit b i ≡ (if isbitset b i then 1 else 0)
unfolding isbitset
word_bit-isbitset b i t =
    ground (arith, getbit_lem b i, t i, nth_bit-lt (i % 64) (get_or b.maskp (i / 64) 0))

bit_of_word :
    (a : Bitmask) (i k : ℕ) → k < 64 → word_bit a (i * 64 + k) ≡ nth_bit k (get_or a.maskp i 0)
bit_of_word a i k h =
    let q : (i * 64 + k) / 64 ≡ i = omega arith in
    let r : (i * 64 + k) % 64 ≡ k = omega arith in rw (q, r)

-- Two valid masks of one size with no bit past it hold the same words exactly if
-- `numa_bitmask_equal` accepts them.
pub equal-maskp :
    (a b : Bitmask)
    → IsValid a
    → IsValid b
    → IsTidy a
    → IsTidy b
    → a.size ≡ b.size
    → (equal a b ≡ true) ↔ (a.maskp ≡ b.maskp)
equal-maskp a b va vb ta tb s = (there, back)
  where
    words :
        ((i : ℕ) → isbitset a i ≡ isbitset b i) → (i : ℕ) → get_or a.maskp i 0 ≡ get_or b.maskp i 0
    words h i =
        word_ext 64 (get_or a.maskp i 0) (get_or b.maskp i 0) (va.range i) (vb.range i) λ k l.
          sym (bit_of_word a i k l)
          ∙ word_bit-isbitset a (i * 64 + k) ta
          ∙ ap (λ (t : Bool). if t then 1 else 0) (h (i * 64 + k))
          ∙ sym (word_bit-isbitset b (i * 64 + k) tb)
          ∙ bit_of_word b i k l

    there : equal a b ≡ true → a.maskp ≡ b.maskp
    there e =
        get_or_ext 0 a.maskp b.maskp (va.words ∙ ap longs_per_bits s ∙ sym vb.words)
          (λ i l. words ((equal_iff a b).0 e) i)

    back : a.maskp ≡ b.maskp → equal a b ≡ true
    back e = (equal_iff a b).1 λ i. ground (
      arith,
      word_bit-isbitset a i ta,
      word_bit-isbitset b i tb,
      ap (λ (m : _). nth_bit (i % 64) (get_or m (i / 64) 0)) e,
    )
