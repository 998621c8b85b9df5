-- ===== src/Parse/Range.antt =====
-- What the loops over a range and over all configured numbers do to the mask.
use numactl.Base.{
  ℕ, suc, ◌+◌, ◌-◌, ◌≤◌, ◌≡◌, ◌≢◌, ◌⊎◌, inl, inr, refl, ◌∙◌, not, ◌&&◌, ◌||◌, ltb, leb, ◌==◌,
  if◌then◌else◌, arith, Bool-cases,
}
use numactl.Base.Loops.{for_range, for_range_inv}
use numactl.Bitmask.{Bitmask, IsValid, isbitset, bitmask_setbit, bitmask_clearbit}
use numactl.Bitmask.Ops.{isbitset-setbit, setbit-IsValid, size-setbit, isbitset-lt}
use numactl.Parse.{set_range, invert_mask}

-- `numa_bitmask_setbit` adds a bit, if it fits.
pub bitmask_setbit_lem :
    (b : Bitmask) (n : ℕ)
    → IsValid b
    → IsValid (bitmask_setbit b n)
      × ((bitmask_setbit b n).size ≡ b.size)
      × ((m : ℕ) → isbitset (bitmask_setbit b n) m ≡ ((m == n && ltb n b.size) || isbitset b m))
unfolding bitmask_setbit
bitmask_setbit_lem b n ok =
    (setbit-IsValid b n 1 ok, size-setbit b n 1, λ m. ground (arith, isbitset-setbit b n 1 m ok))

-- What has been done of a range when the counter is `j`.
record Ranged (allowed : Bitmask) (lo : ℕ) (b : Bitmask) (j : ℕ) (c : Bitmask) : Type 0 where
  valid : IsValid c
  same_size : c.size ≡ b.size
  above : lo ≤ j
  bits :
      (m : ℕ)
      → isbitset c m ≡ ((leb lo m && ltb m j && isbitset allowed m && ltb m b.size) || isbitset b m)

range_step :
    (allowed : Bitmask) (lo : ℕ) (b : Bitmask) (i : ℕ) (c : Bitmask)
    → Ranged allowed lo b i c
    → Ranged allowed lo b (suc i) (if isbitset allowed i then bitmask_setbit c i else c)
range_step allowed lo b i c r = elim (Bool-cases (isbitset allowed i)) [
  | inl free ↦
      let (v, z, bits) = bitmask_setbit_lem c i r.valid in
      rw free (record {
        valid = v;
        same_size = z ∙ r.same_size;
        above = omega (arith, r.above);
        bits = λ m. elim (cases m i) [
          | inl e ↦ rw e (ground (arith, bits i, r.bits i, r.above, r.same_size))
          | inr ne ↦ ground (arith, bits m, r.bits m, r.above, r.same_size)
        ];
      })
  | inr taken ↦ rw taken (record {
    valid = r.valid;
    same_size = r.same_size;
    above = omega (arith, r.above);
    bits = λ m. elim (cases m i) [
      | inl e ↦ rw e (ground (arith, r.bits i, r.above))
      | inr ne ↦ ground (arith, r.bits m, r.above)
    ];
  })
]
  where
    cases : (x y : ℕ) → (x ≡ y) ⊎ (x ≢ y)
    cases x y = ground arith

-- The range adds its allowed bits to the mask and no other.
pub set_range_lem :
    (allowed : Bitmask) (lo hi : ℕ) (b : Bitmask)
    → IsValid b
    → IsValid (set_range allowed lo hi b)
      × ((set_range allowed lo hi b).size ≡ b.size)
      × ((m : ℕ)
          → isbitset (set_range allowed lo hi b) m
            ≡ ((leb lo m && leb m hi && isbitset allowed m && ltb m b.size) || isbitset b m))
unfolding set_range
set_range_lem allowed lo hi b ok = elim (Bool-cases (leb lo hi)) [
  | inl some_rounds ↦
      let r =
        for_range_inv (Ranged allowed lo b)
          (λ i m. if isbitset allowed i then bitmask_setbit m i else m) (hi + 1)
          (λ i c l w. range_step allowed lo b i c w) (hi + 1 - lo) lo b (ground arith)
          (record {
            valid = ok;
            same_size = refl;
            above = omega arith;
            bits = λ m. ground arith;
          }) in
      (r.valid, r.same_size, λ m. ground (arith, r.bits m))
  | inr no_round ↦
      let e : hi + 1 - lo ≡ 0 = ground arith in
      rw e (unfold for_range in (ok, refl, λ m. ground arith))
]

-- What has been inverted when the counter is `j`.
record Inverted (b : Bitmask) (j : ℕ) (c : Bitmask) : Type 0 where
  valid : IsValid c
  same_size : c.size ≡ b.size
  bits :
      (m : ℕ)
      → isbitset c m ≡ (if ltb m j && ltb m b.size then not (isbitset b m) else isbitset b m)

invert_step :
    (b : Bitmask) (i : ℕ) (c : Bitmask)
    → Inverted b i c
    → Inverted b (suc i) (if isbitset c i then bitmask_clearbit c i else bitmask_setbit c i)
unfolding bitmask_clearbit bitmask_setbit
invert_step b i c r = elim (Bool-cases (isbitset c i)) [
  | inl set ↦ rw set (record {
    valid = setbit-IsValid c i 0 r.valid;
    same_size = size-setbit c i 0 ∙ r.same_size;
    bits = λ m. elim (cases m i) [
      | inl e ↦ rw e (
          ground
            (arith, r.bits i, isbitset-setbit c i 0 i r.valid, isbitset-lt c i set, r.same_size))
      | inr ne ↦ ground (arith, r.bits m, isbitset-setbit c i 0 m r.valid)
    ];
  })
  | inr clear ↦ rw clear (record {
    valid = setbit-IsValid c i 1 r.valid;
    same_size = size-setbit c i 1 ∙ r.same_size;
    bits = λ m. elim (cases m i) [
      | inl e ↦ rw e (ground (arith, r.bits i, isbitset-setbit c i 1 i r.valid, r.same_size))
      | inr ne ↦ ground (arith, r.bits m, isbitset-setbit c i 1 m r.valid)
    ];
  })
]
  where
    cases : (x y : ℕ) → (x ≡ y) ⊎ (x ≢ y)
    cases x y = ground arith

-- Inversion flips the bits below the count of configured nodes or cpus and no other.
pub invert_mask_lem :
    (conf : ℕ) (b : Bitmask)
    → IsValid b
    → IsValid (invert_mask conf b)
      × ((invert_mask conf b).size ≡ b.size)
      × ((m : ℕ)
          → isbitset (invert_mask conf b) m
            ≡ (if ltb m conf && ltb m b.size then not (isbitset b m) else isbitset b m))
unfolding invert_mask
invert_mask_lem conf b ok =
    let r =
      for_range_inv (Inverted b)
        (λ i m. if isbitset m i then bitmask_clearbit m i else bitmask_setbit m i) conf
        (λ i c l w. invert_step b i c w) conf 0 b (omega arith)
        (record { valid = ok; same_size = refl; bits = λ m. ground arith }) in
    (r.valid, r.same_size, r.bits)
