-- ===== src/Libnuma/Possible.antt =====
-- libnuma.c: the counts and masks of the task that `set_task_constraints` leaves.
use numactl.Base.{
  ℕ, ◌≤◌, ◌<◌, ◌≡◌, refl, ap, sym, ◌∙◌, inl, inr, false, ◌&&◌, List, some, Bytes, arith, ltb, ◌==◌,
  Bool-cases,
}
use numactl.Base.Ints.{ℤ, pos, negsuc}
use numactl.Base.Loops.{for_range_inv}
use numactl.Bitmask.{Bitmask, IsValid, isbitset, bitmask_setbit}
use numactl.Bitmask.Ops.{isbitset-setbit, size-setbit, setbit-IsValid}
use numactl.Libnuma.{State, rounds_to, one_more}
use numactl.Libnuma.Setup.{Nodes}
use numactl.Libnuma.Constraints.{
  Allowed, read_status, set_up_to, exceeds, or_all, reduce_cpus, task_cpus, task_nodes,
  set_task_constraints,
}

-- The bits below `j` were set in an empty mask.
record SetBelow (size j : ℕ) (b : Bitmask) : Type 0 where
  pub valid : IsValid b
  pub sized : b.size ≡ size
  pub below : (i : ℕ) → isbitset b i ≡ (ltb i j && ltb i size)

set_up_to-SetBelow :
    (max : ℤ) (blank : Bitmask)
    → IsValid blank
    → ((i : ℕ) → isbitset blank i ≡ false)
    → SetBelow blank.size (rounds_to max) (set_up_to max blank)
unfolding set_up_to bitmask_setbit
set_up_to-SetBelow max blank valid empty =
    for_range_inv (SetBelow blank.size) (λ i b. bitmask_setbit b i) (rounds_to max)
      (λ j b h s. record {
        valid = setbit-IsValid b j 1 s.valid;
        sized = size-setbit b j 1 ∙ s.sized;
        below = λ i.
            let bits = isbitset-setbit b j 1 i s.valid in
            let before = s.below i in let size = s.sized in ground (arith, bits, before, size);
      })
      (rounds_to max) 0 blank (omega arith)
      (record { valid = valid; sized = refl; below = λ i. ground (arith, empty i) })

-- A count from 1 to `most`.
abbrev pub IsCount : ℤ → ℕ → Type 0
IsCount n most = (k : ℕ) × (n ≡ pos k) × (0 < k) × (k ≤ most)

one_more_lem : (max : ℤ) → 0 < rounds_to max → one_more max ≡ pos (rounds_to max)
one_more_lem (pos n) h = refl
one_more_lem (negsuc n) h = ground arith

or_all_positive :
    (max n : ℤ) (mask : Bitmask)
    → 0 < rounds_to max
    → (k : ℕ) × ((or_all max (n, mask)).0 ≡ pos k) × (0 < k)
or_all_positive max (pos n) mask h = elim (Bool-cases (n == 0)) [
  | inl e ↦ rw e (rounds_to max, one_more_lem max h, h)
  | inr e ↦ rw e (n, refl, ground (arith, e))
]
or_all_positive max (negsuc n) mask h = (rounds_to max, one_more_lem max h, h)

reduce_cpus-IsCount :
    (hicpu : ℤ) (r : ℤ × Bitmask)
    → 0 < rounds_to hicpu
    → (k : ℕ) × (r.0 ≡ pos k) × (0 < k)
    → IsCount ((reduce_cpus hicpu r).0) (rounds_to hicpu)
reduce_cpus-IsCount hicpu (n, mask) h (k, e, l) = elim (Bool-cases (exceeds n (rounds_to hicpu))) [
  | inl x ↦ rw x (rounds_to hicpu, one_more_lem hicpu h, h, omega arith)
  | inr x ↦ rw x (
    k,
    e,
    l,
    let y : exceeds (pos k) (rounds_to hicpu) ≡ false =
          ap (λ z. exceeds z (rounds_to hicpu)) (sym e) ∙ x in
        ground (arith, y),
  )
]

task_cpus-IsCount :
    (hicpu : ℤ) (a : Allowed)
    → 0 < rounds_to hicpu
    → IsCount ((task_cpus hicpu a).0) (rounds_to hicpu)
unfolding task_cpus
task_cpus-IsCount hicpu a h =
    reduce_cpus-IsCount hicpu (or_all hicpu (a.cpu_count, a.cpu_mask)) h
      (or_all_positive hicpu a.cpu_count a.cpu_mask h)

task_nodes_positive :
    (max : ℤ) (a : Allowed) → 0 < rounds_to max → (k : ℕ) × ((task_nodes max a).0 ≡ pos k) × (0 < k)
unfolding task_nodes
task_nodes_positive max a h = or_all_positive max a.node_count a.node_mask h

-- What holds of the state behind `set_task_constraints`.
pub record IsConstrained (hicpu highest : ℤ) (size : ℕ) (st : State) : Type 0 where
  pub cpu_count : IsCount st.numproccpu (rounds_to hicpu)
  pub node_count : (k : ℕ) × (st.numprocnode ≡ pos k) × (0 < k)
  pub possible_cpus :
      (i : ℕ) → isbitset st.possible_cpus_ptr i ≡ (ltb i (rounds_to hicpu) && ltb i size)
  pub possible_nodes :
      (i : ℕ) → isbitset st.possible_nodes_ptr i ≡ (ltb i (rounds_to highest) && ltb i size)

-- If /proc/self/status can be read, whatever its lines are, and there is a configured cpu and a
-- configured node, then behind `set_task_constraints` the count of the task's cpus is from 1 to the
-- number of configured cpus, the count of its nodes is positive, and the masks of possible cpus and
-- nodes have exactly the bits up to the highest cpu and node that the mask has room for.
pub set_task_constraints-IsConstrained :
    (lines : List Bytes) (nodemask_sz cpumask_sz : ℕ) (found : Nodes) (hicpu : ℤ)
    (cpus nodes : Bitmask)
    → IsValid cpus
    → ((i : ℕ) → isbitset cpus i ≡ false)
    → 0 < rounds_to hicpu
    → 0 < rounds_to found.highest
    → IsConstrained hicpu found.highest cpus.size
        (set_task_constraints (some lines) nodemask_sz cpumask_sz found hicpu cpus nodes)
unfolding set_task_constraints
set_task_constraints-IsConstrained lines nodemask_sz cpumask_sz found hicpu cpus nodes valid empty h
      l =
    let allowed : Allowed = read_status lines (record {
      cpu_count = negsuc 0;
      cpu_mask = cpus;
      node_count = negsuc 0;
      node_mask = nodes;
    }) in
    record {
      cpu_count = task_cpus-IsCount hicpu allowed h;
      node_count = task_nodes_positive found.highest allowed l;
      possible_cpus = (set_up_to-SetBelow hicpu cpus valid empty).below;
      possible_nodes = (set_up_to-SetBelow found.highest cpus valid empty).below;
    }
