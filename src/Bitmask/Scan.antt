-- ===== src/Bitmask/Scan.antt =====
-- The loops over all bits of a mask: `numa_bitmask_setall`, `numa_bitmask_clearall`,
-- `numa_bitmask_equal`, `numa_find_first`, and the mask that `numa_bitmask_alloc` makes.
use numactl.Base.{
  ℕ, suc, ◌/◌, ◌%◌, ◌^◌, ◌≤◌, ◌<◌, ◌≡◌, refl, ◌∙◌, true, false, not, ◌&&◌, Option, none, some,
  arith, ltb, ◌==◌, if◌then◌else◌, Bool-cases, inl, inr, ◌↔◌, replicate, length-replicate,
  get_or-replicate,
}
use numactl.Base.Ints.{ℤ, pos, negsuc}
use numactl.Base.Bits.{nth_bit-zero}
use numactl.Base.Loops.{for_range, for_range_inv, find_from, FoundBy, find_from-FoundBy}
use numactl.Bitmask.{
  Bitmask, IsValid, longs_per_bits, getbit, setbit, isbitset, setall, clearall, alloc, equal,
  find_first, is_none, found_or_minus_one,
}
use numactl.Bitmask.Ops.{
  isbitset-setbit, setbit-IsValid, size-setbit, isbitset_beyond, isbitset-lt, getbit_lem, getbit-lt,
}

-- What a loop of `_setbit(bmp, i, v)` has done when its counter is `j`.
record Written (b : Bitmask) (v : ℕ) (j : ℕ) (c : Bitmask) : Type 0 where
  valid : IsValid c
  same_size : c.size ≡ b.size
  bits : (m : ℕ) → isbitset c m ≡ (if ltb m j && ltb m b.size then not (v == 0) else isbitset b m)

write_step :
    (b : Bitmask) (v i : ℕ) (c : Bitmask) → Written b v i c → Written b v (suc i) (setbit c i v)
write_step b v i c w = record {
  valid = setbit-IsValid c i v w.valid;
  same_size = size-setbit c i v ∙ w.same_size;
  bits = λ m. ground (arith, w.bits m, isbitset-setbit c i v m w.valid, w.same_size);
}

write_all :
    (b : Bitmask) (v : ℕ)
    → IsValid b
    → Written b v b.size (for_range b.size 0 (λ i c. setbit c i v) b)
write_all b v ok =
    for_range_inv (Written b v) (λ i c. setbit c i v) b.size (λ i c l w. write_step b v i c w)
      b.size 0 b (omega arith) (record { valid = ok; same_size = refl; bits = λ m. ground arith })

-- `numa_bitmask_setall` sets exactly the bits below the size.
pub setall_lem :
    (b : Bitmask)
    → IsValid b
    → IsValid (setall b)
      × ((setall b).size ≡ b.size)
      × ((m : ℕ) → isbitset (setall b) m ≡ ltb m b.size)
unfolding setall
setall_lem b ok =
    let w = write_all b 1 ok in
    (w.valid, w.same_size, λ m. ground (arith, w.bits m, isbitset_beyond b m))

-- `numa_bitmask_clearall` leaves no bit set.
pub clearall_lem :
    (b : Bitmask)
    → IsValid b
    → IsValid (clearall b)
      × ((clearall b).size ≡ b.size)
      × ((m : ℕ) → isbitset (clearall b) m ≡ false)
unfolding clearall
clearall_lem b ok =
    let w = write_all b 0 ok in
    (w.valid, w.same_size, λ m. ground (arith, w.bits m, isbitset_beyond b m))

isbitset_of_getbit : (b : Bitmask) (m : ℕ) → getbit b m ≡ 0 → isbitset b m ≡ false
unfolding isbitset
isbitset_of_getbit b m h = ground arith

-- `numa_bitmask_alloc` gives, for a size above 0 and below 2^31, a valid mask of that size with no
-- bit set.
pub alloc_lem :
    (n : ℕ)
    → 0 < n
    → n < 2 ^ 31
    → (b : Bitmask) × (alloc n ≡ some b)
      × IsValid b
      × (b.size ≡ n)
      × ((m : ℕ) → isbitset b m ≡ false)
unfolding alloc
alloc_lem n h l = (fresh, ground arith, valid, refl, λ m. isbitset_of_getbit fresh m (empty m))
  where
    fresh : Bitmask
    fresh = record { size = n; maskp = replicate (longs_per_bits n) 0 }

    valid : IsValid fresh
    valid = record {
      fits = l;
      words = length-replicate _ 0;
      range = λ i. rw (get_or-replicate {A = ℕ} (longs_per_bits n) i 0) (omega arith);
    }

    empty : (m : ℕ) → getbit fresh m ≡ 0
    empty m =
        getbit_lem fresh m
        ∙ rw (get_or-replicate {A = ℕ} (longs_per_bits n) (m / 64) 0)
            (ground (arith, nth_bit-zero (m % 64)))

getbit-isbitset : (b : Bitmask) (m : ℕ) → getbit b m ≡ (if isbitset b m then 1 else 0)
unfolding isbitset
getbit-isbitset b m = ground (arith, getbit-lt b m)

differ_iff :
    (a b : Bitmask) (i : ℕ)
    → (not (getbit a i == getbit b i) ≡ false) ↔ (isbitset a i ≡ isbitset b i)
differ_iff a b i = ground (arith, getbit-isbitset a i, getbit-isbitset b i)

none-agree :
    (a b : Bitmask) (n : ℕ) (o : Option ℕ)
    → a.size ≤ n
    → b.size ≤ n
    → FoundBy 0 n (λ i. not (getbit a i == getbit b i)) o
    → (is_none o ≡ true) ↔ ((i : ℕ) → isbitset a i ≡ isbitset b i)
none-agree a b n none ha hb h = (λ e i. agree i, λ all. refl)
  where
    agree : (i : ℕ) → isbitset a i ≡ isbitset b i
    agree i = ground (arith, isbitset_beyond a i, isbitset_beyond b i, h i, (differ_iff a b i).0)
none-agree a b n (some k) ha hb h =
    (λ e. absurd (cc e), λ all. cc (h.passes, (differ_iff a b k).1 (all k)))

-- `numa_bitmask_equal` says whether the two masks read the same at every bit number, also where
-- their sizes differ.
pub equal_iff : (a b : Bitmask) → (equal a b ≡ true) ↔ ((i : ℕ) → isbitset a i ≡ isbitset b i)
unfolding equal
equal_iff a b =
    let n : ℕ = if ltb a.size b.size then b.size else a.size in
    let p = λ (i : ℕ). not (getbit a i == getbit b i) in
    none-agree a b n (find_from n 0 p) (ground arith) (ground arith)
      (find_from-FoundBy n 0 p n (omega arith))

-- What `numa_find_first` may return: the lowest bit that is set, or -1 where none is.
abbrev pub FindsFirst : Bitmask → ℤ → Type 0
FindsFirst b (pos k) = (isbitset b k ≡ true) × ((j : ℕ) → j < k → isbitset b j ≡ false)
FindsFirst b (negsuc k) = (k ≡ 0) × ((j : ℕ) → isbitset b j ≡ false)

finds :
    (b : Bitmask) (o : Option ℕ)
    → FoundBy 0 b.size (isbitset b) o
    → FindsFirst b (found_or_minus_one o)
finds b none h = (
  refl,
  λ j. elim (Bool-cases (isbitset b j)) [
    | inl s ↦ absurd (cc (s, h j (omega arith) (isbitset-lt b j s)))
    | inr c ↦ c
  ],
)
finds b (some k) h = (h.passes, λ j l. h.least j (omega arith) l)

-- `numa_find_first` returns the lowest bit that is set, and -1 exactly if no bit is set.
pub find_first-FindsFirst : (b : Bitmask) → FindsFirst b (find_first b)
unfolding find_first
find_first-FindsFirst b = finds b _ (find_from-FoundBy b.size 0 (isbitset b) b.size (omega arith))
