-- ===== src/Bitmask/Weight.antt =====
-- `numa_bitmask_weight`, the number of bits that are set.
use numactl.Base.{
  ℕ, zero, suc, ◌+◌, ◌≤◌, ◌<◌, ◌≡◌, ◌↔◌, refl, Bool, true, false, not, arith, lt→ltb, ap, ◌==◌,
  if◌then◌else◌, Bool-cases, inl, inr, ◌∙◌,
}
use numactl.Base.Loops.{for_range_inv, count_below, count_below-le, count_below_ext}
use numactl.Bitmask.{Bitmask, IsValid, getbit, setbit, isbitset, setall, weight}
use numactl.Bitmask.Ops.{isbitset-setbit, size-setbit, isbitset-lt}
use numactl.Bitmask.Scan.{setall_lem}

-- The loop counts what a recursion on the size counts.
pub weight_lem : (b : Bitmask) → weight b ≡ count_below b.size (isbitset b)
unfolding weight isbitset
weight_lem b =
    for_range_inv (λ j (w : ℕ). w ≡ count_below j (λ i. not (getbit b i == 0)))
      (λ i w. if not (getbit b i == 0) then w + 1 else w) b.size (λ i w l h. ground arith) b.size 0
      0 (omega arith) refl

-- A number of bits counted twice, where one of them differs.
count_below_update :
    (n : ℕ) (p q : ℕ → Bool) (k : ℕ)
    → k < n
    → ((i : ℕ) → (i ≡ k → ⊥) → p i ≡ q i)
    → count_below n p + (if q k then 1 else 0) ≡ count_below n q + (if p k then 1 else 0)
count_below_update zero p q k h same = absurd (omega arith)
count_below_update (suc n) p q k h same = elim (Bool-cases (n == k)) [
  | inl e ↦
      let e' : n ≡ k = ground arith in
      rw e' (omega (arith, count_below_ext k p q (λ i l. same i (omega arith))))
  | inr ne ↦ ground (arith, same n, count_below_update n p q k (ground arith) same)
]

-- Setting or clearing a bit of the mask changes the weight by what it changes of that bit.
pub weight-setbit :
    (b : Bitmask) (n v : ℕ)
    → IsValid b
    → n < b.size
    → weight (setbit b n v) + (if isbitset b n then 1 else 0) ≡ weight b + (if v == 0 then 0 else 1)
weight-setbit b n v ok h = ground (
  arith,
  weight_lem b,
  weight_lem (setbit b n v),
  size-setbit b n v,
  isbitset-setbit b n v n ok,
  lt→ltb n b.size h,
  ap (λ (t : ℕ). count_below t (isbitset (setbit b n v))) (size-setbit b n v),
  count_below_update b.size (isbitset b) (isbitset (setbit b n v)) n h
      (λ i ne. ground (arith, isbitset-setbit b n v i ok)),
)

count_below_all : (n : ℕ) (p : ℕ → Bool) → ((i : ℕ) → i < n → p i ≡ true) → count_below n p ≡ n
count_below_all zero p h = refl
count_below_all (suc n) p h =
    ground (arith, h n (omega arith), count_below_all n p (λ i l. h i (omega arith)))

count_below_none : (n : ℕ) (p : ℕ → Bool) → ((i : ℕ) → p i ≡ false) → count_below n p ≡ 0
count_below_none zero p h = refl
count_below_none (suc n) p h = ground (arith, h n, count_below_none n p h)

count_below-zero : (n : ℕ) (p : ℕ → Bool) → count_below n p ≡ 0 → (i : ℕ) → i < n → p i ≡ false
count_below-zero zero p h i l = absurd (omega arith)
count_below-zero (suc n) p h i l = elim (Bool-cases (i == n)) [
  | inl e ↦ let e' : i ≡ n = ground arith in rw e' (ground arith)
  | inr ne ↦ count_below-zero n p (ground arith) i (ground arith)
]

-- The weight is at most the size, which `numa_bitmask_setall` reaches, and is 0 exactly for a
-- mask with no bit set.
pub weight_bounds :
    (b : Bitmask)
    → IsValid b
    → (weight b ≤ b.size)
      × (weight (setall b) ≡ b.size)
      × ((weight b ≡ 0) ↔ ((i : ℕ) → isbitset b i ≡ false))
weight_bounds b ok = (
  rw (weight_lem b) (count_below-le b.size (isbitset b)),
  full,
  (
    λ h i. elim (Bool-cases (isbitset b i)) [
      | inl s ↦ count_below-zero b.size (isbitset b) (rw (weight_lem b) at h) i (isbitset-lt b i s)
      | inr c ↦ c
    ],
    λ none. rw (weight_lem b) (count_below_none b.size (isbitset b) none),
  ),
)
  where
    full : weight (setall b) ≡ b.size
    full =
        let (v, s, bits) = setall_lem b ok in
        weight_lem (setall b)
        ∙ ap (λ (t : ℕ). count_below t (isbitset (setall b))) s
        ∙ count_below_all b.size (isbitset (setall b)) (λ i l. ground (arith, bits i))
