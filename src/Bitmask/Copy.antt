-- ===== src/Bitmask/Copy.antt =====
-- libnuma.c: `copy_bitmask_to_bitmask`. The two masks are different objects.
use numactl.Base.{
  ℕ, ◌+◌, ◌-◌, ◌/◌, ◌%◌, ◌^◌, ◌≤◌, ◌<◌, ◌≡◌, ◌⊎◌, inl, inr, sym, ap, ◌∙◌, true, false, not, ◌&&◌,
  List, ◌++◌, arith, ltb, leb, ◌==◌, if◌then◌else◌, Bool-cases, length, get_or, take, drop,
  replicate, length-append, length-take, length-drop, length-replicate, get_or-append_left,
  get_or-append_right, get_or-take, get_or-drop, get_or-replicate, get_or_beyond,
}
use numactl.Base.Bits.{nth_bit, nth_bit-lt}
use numactl.Bitmask.{Bitmask, IsValid, longs_per_bits, isbitset}
use numactl.Bitmask.Ops.{word_bit, getbit_lem, isbitset_beyond}
use numactl.Bitmask.Abstract.{IsTidy, word_bit-isbitset}
use numactl.Bitmask.Words.{cpu_bytes, cpu_bytes_lem, memcpy_words, memset_zero}

-- `copy_bitmask_to_bitmask`
unfoldable pub copy_bitmask_to_bitmask : Bitmask → Bitmask → Bitmask
copy_bitmask_to_bitmask bmpfrom bmpto =
    if leb bmpto.size bmpfrom.size
    then record bmpto { maskp = memcpy_words (cpu_bytes bmpto.size) bmpfrom.maskp bmpto.maskp }
    else (let bytes = cpu_bytes bmpfrom.size in
        let copied = memcpy_words bytes bmpfrom.maskp bmpto.maskp in
        record bmpto { maskp = memset_zero bytes (cpu_bytes bmpto.size - bytes) copied })

-- The first `n` words of `from` and then those of `to`.
module _ (n : ℕ) (from to : List ℕ) (hf : n ≤ length from) (ht : n ≤ length to) where
  length-splice : length (take n from ++ drop n to) ≡ length to
  length-splice =
      omega (arith, length-append (take n from) (drop n to), length-take n from, length-drop n to)

  get_or-splice_left : (i : ℕ) → i < n → get_or (take n from ++ drop n to) i 0 ≡ get_or from i 0
  get_or-splice_left i h =
      get_or-append_left (take n from) (drop n to) i 0 (omega (arith, length-take n from))
      ∙ get_or-take n from i 0 h

  get_or-splice_right : (i : ℕ) → n ≤ i → get_or (take n from ++ drop n to) i 0 ≡ get_or to i 0
  get_or-splice_right i h =
      get_or-append_right (take n from) (drop n to) i 0 (omega (arith, length-take n from))
      ∙ get_or-drop n to (i - length (take n from)) 0
      ∙ ap (λ (t : ℕ). get_or to t 0) (omega (arith, length-take n from))

-- The words of a mask that copies `from` into one of `m` words.
record Copied (from out : List ℕ) (m : ℕ) : Type 0 where
  same_length : length out ≡ m
  each : (i : ℕ) → i < m → get_or out i 0 ≡ get_or from i 0

fill :
    (n k : ℕ) (from to : List ℕ)
    → n ≤ k
    → length from ≡ n
    → length to ≡ k
    → Copied from
        (take n (take n from ++ drop n to)
          ++ (replicate (k - n) 0 ++ drop k (take n from ++ drop n to)))
        k
fill n k from to h hf ht = record {
  same_length = omega (
    arith,
    lt,
    length-append (take n t) (replicate (k - n) 0 ++ drop k t),
    length-append (replicate (k - n) 0) (drop k t),
    length-take n t,
    length-drop k t,
    length-replicate {A = ℕ} (k - n) 0,
  );
  each = λ i l. elim (split i n) [
    | inl low ↦
        get_or-append_left (take n t) _ i 0 (omega (arith, length-take n t, lt))
        ∙ get_or-take n t i 0 low
        ∙ get_or-splice_left n from to (omega arith) (omega arith) i low
    | inr high ↦
        get_or-append_right (take n t) _ i 0 (omega (arith, length-take n t, lt))
        ∙ get_or-append_left (replicate (k - n) 0) (drop k t) (i - length (take n t)) 0
            (omega (arith, length-take n t, lt, length-replicate {A = ℕ} (k - n) 0))
        ∙ get_or-replicate {A = ℕ} (k - n) (i - length (take n t)) 0
        ∙ sym (get_or_beyond from i 0 (omega arith))
  ];
}
  where
    t : List ℕ
    t = take n from ++ drop n to

    lt : length t ≡ k
    lt = length-splice n from to (omega arith) (omega arith) ∙ ht

    split : (x y : ℕ) → (x < y) ⊎ (y ≤ x)
    split x y = omega arith

size-copy : (from to : Bitmask) → (copy_bitmask_to_bitmask from to).size ≡ to.size
unfolding copy_bitmask_to_bitmask
size-copy from to = ground arith

copy-Copied :
    (from to : Bitmask)
    → IsValid from
    → IsValid to
    → Copied from.maskp (copy_bitmask_to_bitmask from to).maskp (longs_per_bits to.size)
unfolding copy_bitmask_to_bitmask
copy-Copied from to vf vt = elim (Bool-cases (leb to.size from.size)) [
  | inl shrink ↦
      let bytes : cpu_bytes to.size / 8 ≡ longs_per_bits to.size =
        omega (arith, cpu_bytes_lem to.size vt.fits) in
      let le : longs_per_bits to.size ≤ longs_per_bits from.size = ground arith in
      rw (shrink, bytes)
        (record {
          same_length =
              length-splice _ from.maskp to.maskp (omega (arith, vf.words))
                (omega (arith, vt.words))
              ∙ vt.words;
          each =
              get_or-splice_left _ from.maskp to.maskp (omega (arith, vf.words))
                (omega (arith, vt.words));
        })
  | inr grow ↦
      let n : ℕ = longs_per_bits from.size in
      let k : ℕ = longs_per_bits to.size in
      let le : n ≤ k = ground arith in
      let first : cpu_bytes from.size / 8 ≡ n = omega (arith, cpu_bytes_lem from.size vf.fits) in
      let rest : (cpu_bytes to.size - cpu_bytes from.size) / 8 ≡ k - n =
        omega (arith, cpu_bytes_lem from.size vf.fits, cpu_bytes_lem to.size vt.fits) in
      let all : (cpu_bytes from.size + (cpu_bytes to.size - cpu_bytes from.size)) / 8 ≡ k =
        omega (arith, cpu_bytes_lem from.size vf.fits, cpu_bytes_lem to.size vt.fits) in
      rw (grow, first, rest, all) (fill n k from.maskp to.maskp le vf.words vt.words)
]

-- The copy is a valid mask of the destination's size.
pub copy-IsValid :
    (from to : Bitmask)
    → IsValid from
    → IsValid to
    → IsValid (copy_bitmask_to_bitmask from to) × ((copy_bitmask_to_bitmask from to).size ≡ to.size)
copy-IsValid from to vf vt = (valid, size-copy from to)
  where
    c : Copied from.maskp (copy_bitmask_to_bitmask from to).maskp (longs_per_bits to.size)
    c = copy-Copied from to vf vt

    range : (i : ℕ) → get_or (copy_bitmask_to_bitmask from to).maskp i 0 < 2 ^ 64
    range i = elim (Bool-cases (ltb i (longs_per_bits to.size))) [
      | inl low ↦ omega (arith, c.each i (ground arith), vf.range i)
      | inr high ↦ omega (
        arith,
        get_or_beyond (copy_bitmask_to_bitmask from to).maskp i 0 (ground (arith, c.same_length)),
      )
    ]

    valid : IsValid (copy_bitmask_to_bitmask from to)
    valid = record {
      fits = rw (size-copy from to) vt.fits;
      words = c.same_length ∙ ap longs_per_bits (sym (size-copy from to));
      range = range;
    }

word_bit-copy :
    (from to : Bitmask) (i : ℕ)
    → IsValid from
    → IsValid to
    → i / 64 < longs_per_bits to.size
    → word_bit (copy_bitmask_to_bitmask from to) i ≡ word_bit from i
word_bit-copy from to i vf vt h =
    ap (nth_bit (i % 64)) ((copy-Copied from to vf vt).each (i / 64) h)

isbitset-word_bit : (b : Bitmask) (i : ℕ) → isbitset b i ≡ (ltb i b.size && not (word_bit b i == 0))
unfolding isbitset
isbitset-word_bit b i = ground (arith, getbit_lem b i)

-- From a mask with no bit past its size, the copy reads as the source does at every bit of the
-- destination: what does not fit is cut off and what is missing reads as 0.
pub isbitset-copy :
    (from to : Bitmask) (i : ℕ)
    → IsValid from
    → IsValid to
    → IsTidy from
    → isbitset (copy_bitmask_to_bitmask from to) i ≡ (ltb i to.size && isbitset from i)
isbitset-copy from to i vf vt t = ground (
  arith,
  isbitset-word_bit (copy_bitmask_to_bitmask from to) i,
  size-copy from to,
  word_bit-copy from to i vf vt,
  word_bit-isbitset from i t,
  nth_bit-lt (i % 64) (get_or from.maskp (i / 64) 0),
)

-- Without that condition a bit that a copy cut off comes back: copied from `a` into a smaller
-- mask `b`, and from there into a larger mask `c`, a bit of `a` past the size of `b`, in the last
-- word of `b`, is set in the result.
pub copy-copy_leak :
    (a b c : Bitmask) (i : ℕ)
    → IsValid a
    → IsValid b
    → IsValid c
    → isbitset a i ≡ true
    → b.size ≤ i
    → i / 64 < longs_per_bits b.size
    → i < c.size
    → (isbitset (copy_bitmask_to_bitmask a b) i ≡ false)
      × (isbitset (copy_bitmask_to_bitmask (copy_bitmask_to_bitmask a b) c) i ≡ true)
copy-copy_leak a b c i va vb vc set past word fits =
    let m = copy_bitmask_to_bitmask a b in
    let (vm, sm) = copy-IsValid a b va vb in
    (
      isbitset_beyond m i (rw sm past),
      ground (
        arith,
        isbitset-word_bit a i,
        isbitset-word_bit (copy_bitmask_to_bitmask m c) i,
        size-copy m c,
        word_bit-copy a b i va vb word,
        word_bit-copy m c i vm vc (omega arith),
      ),
    )
