-- ===== src/Bitmask/NodemaskCopy.antt =====
-- What a copy of a mask into one of fixed size holds.
use numactl.Base.{
  ℕ, suc, ◌<◌, ◌≡◌, ap, ◌∙◌, true, false, ◌&&◌, ltb, ◌==◌, if◌then◌else◌, replicate, refl, lt→ltb,
  arith, Bool-cases, inl, inr,
}
use numactl.Base.Loops.{for_range_inv}
use numactl.Bitmask.{Bitmask, IsValid, isbitset, setbit, alloc}
use numactl.Bitmask.Nodemask.{
  NodeMask, numa_num_nodes, as_bitmask, nodemask_set_compat, copy_bitmask_to_nodemask,
}
use numactl.Bitmask.Ops.{setbit-IsValid, isbitset-setbit, isbitset-lt}
use numactl.Bitmask.Scan.{alloc_lem}

as_bitmask-set :
    (mask : NodeMask) (node : ℕ)
    → node < numa_num_nodes
    → as_bitmask (nodemask_set_compat mask node) ≡ setbit (as_bitmask mask) node 1
unfolding nodemask_set_compat setbit
as_bitmask-set mask node l =
    let inside : ltb node numa_num_nodes ≡ true = lt→ltb node numa_num_nodes l in rw inside refl

-- The bits below `j` have been copied.
record Copied (b : Bitmask) (j : ℕ) (nmp : NodeMask) : Type 0 where
  valid : IsValid (as_bitmask nmp)
  bits : (m : ℕ) → isbitset (as_bitmask nmp) m ≡ (isbitset b m && ltb m j)

Copied-step :
    (b : Bitmask) (j : ℕ) (nmp : NodeMask)
    → j < numa_num_nodes
    → Copied b j nmp
    → Copied b (suc j) (if isbitset b j then nodemask_set_compat nmp j else nmp)
Copied-step b j nmp l c = elim (Bool-cases (isbitset b j)) [
  | inl hit ↦ rw hit (record {
    valid = rw (as_bitmask-set nmp j l) (setbit-IsValid (as_bitmask nmp) j 1 c.valid);
    bits = λ m.
        rw (as_bitmask-set nmp j l)
          (hit_bits m (isbitset-setbit (as_bitmask nmp) j 1 m c.valid) hit);
  })
  | inr miss ↦ rw miss (record { valid = c.valid; bits = λ m. miss_bits m miss })
]
  where
    same_bit : (m : ℕ) → (m ≡ j) → isbitset b m ≡ isbitset b j
    same_bit m e = ap (isbitset b) e

    hit_bits :
        (m : ℕ)
        → isbitset (setbit (as_bitmask nmp) j 1) m
          ≡ (if m == j && ltb j numa_num_nodes then true else isbitset (as_bitmask nmp) m)
        → isbitset b j ≡ true
        → isbitset (setbit (as_bitmask nmp) j 1) m ≡ (isbitset b m && ltb m (suc j))
    hit_bits m e hit = ground (arith, e, c.bits m, same_bit m, hit, l)

    miss_bits :
        (m : ℕ)
        → isbitset b j ≡ false
        → isbitset (as_bitmask nmp) m ≡ (isbitset b m && ltb m (suc j))
    miss_bits m miss = ground (arith, c.bits m, same_bit m, miss)

nothing_yet : (b : Bitmask) → Copied b 0 (replicate 2 0)
unfolding alloc
nothing_yet b =
    let (blank, e, v, s, clear) = alloc_lem 128 (omega arith) (omega arith) in
    let same : as_bitmask (replicate 2 0) ≡ blank = cc e in
    record { valid = rw same v; bits = λ m. rw same (ground (arith, clear m)) }

-- `copy_bitmask_to_nodemask` gives a valid mask that holds, of the first 128 bits, those of the
-- source.
pub isbitset-copy_bitmask_to_nodemask :
    (b : Bitmask) (m : ℕ)
    → IsValid (as_bitmask (copy_bitmask_to_nodemask b))
      × (isbitset (as_bitmask (copy_bitmask_to_nodemask b)) m
          ≡ (isbitset b m && ltb m numa_num_nodes))
unfolding copy_bitmask_to_nodemask
isbitset-copy_bitmask_to_nodemask b m =
    let top : ℕ = if ltb b.size numa_num_nodes then b.size else numa_num_nodes in
    let c : Copied b top (copy_bitmask_to_nodemask b) =
      for_range_inv (Copied b) (λ i nmp. if isbitset b i then nodemask_set_compat nmp i else nmp)
        top (λ i nmp l. Copied-step b i nmp (ground (arith, l))) top 0 (replicate 2 0) (omega arith)
        (nothing_yet b) in
    (c.valid, c.bits m ∙ within)
  where
    within :
        (isbitset b m && ltb m (if ltb b.size numa_num_nodes then b.size else numa_num_nodes))
        ≡ (isbitset b m && ltb m numa_num_nodes)
    within = elim (Bool-cases (isbitset b m)) [
      | inl hit ↦ ground (arith, hit, isbitset-lt b m hit)
      | inr miss ↦ rw miss
    ]
