-- ===== src/Libnuma/Ready.antt =====
-- libnuma.c: what `set_sizes` leaves is a usable state.
use numactl.Base.{
  ℕ, zero, suc, ◌*◌, ◌/◌, ◌%◌, ◌^◌, ◌≤◌, ◌<◌, ◌≡◌, refl, ap, ◌∙◌, ◌⊎◌, inl, inr, Bool, false, List,
  [], ◌∷◌, Option, some, none, Bytes, arith, ltb, Bool-cases, get_or-replicate, replicate, codes,
}
use numactl.Base.Bits.{nth_bit-zero}
use numactl.Base.Ints.{pos, ℤ, negsuc, to_u32, to_u32-pos}
use numactl.Base.Loops.{count_below, count_below-le}
use numactl.Bitmask.{Bitmask, IsValid, isbitset, alloc, longs_per_bits, bitmask_setbit}
use numactl.Bitmask.Abstract.{IsTidy}
use numactl.Bitmask.Ops.{isbitset_beyond, size-setbit}
use numactl.Bitmask.Scan.{alloc_lem}
use numactl.Libnuma.{State, rounds_to, one_more, as_ulong, num_configured_cpus}
use numactl.Libnuma.Laws.{IsReady, num_configured_nodes_lem}
use numactl.Libnuma.Setup.{
  Machine, Nodes, strprefix, double_size, set_nodemask_size, read_entries, add_node,
  entries_or_none, set_configured_nodes, set_numa_max_cpu, one_less, set_configured_cpus,
}
use numactl.Libnuma.Constraints.{set_task_constraints, set_sizes, with_size, with_masks}

double_size-grows :
    (rounds : ℕ) (refuses : ℕ → Bool) (size : ℕ) → size ≤ double_size rounds refuses size
unfolding double_size
double_size-grows zero refuses size = omega arith
double_size-grows (suc rounds) refuses size =
    let more = double_size-grows rounds refuses (size * 2) in ground (arith, more)

set_nodemask_size_positive : (m : Machine) → 0 < set_nodemask_size m
unfolding set_nodemask_size
set_nodemask_size_positive m =
    let least = double_size-grows 11 m.refuses_size 16 in ground (arith, least)

alloc_words : (n : ℕ) (b : Bitmask) → alloc n ≡ some b → b.maskp ≡ replicate (longs_per_bits n) 0
unfolding alloc
alloc_words n b e = elim (Bool-cases (ltb n 1)) [ inl h ↦ cc (e, h) | inr h ↦ ground (arith, e) ]

alloc-IsTidy : (n : ℕ) (b : Bitmask) → alloc n ≡ some b → IsTidy b
alloc-IsTidy n b e i h =
    rw (alloc_words n b e)
      (rw (get_or-replicate {A = ℕ} (longs_per_bits n) (i / 64) 0) (nth_bit-zero (i % 64)))

add_node_size : (nd : ℤ) (found : Nodes) → ((add_node nd found).memnodes.size) ≡ found.memnodes.size
unfolding bitmask_setbit
add_node_size nd found = size-setbit found.memnodes (to_u32 nd) 1

read_entries_size :
    (names : List Bytes) (found : Nodes)
    → (read_entries names found).memnodes.size ≡ found.memnodes.size
unfolding read_entries
read_entries_size [] found = refl
read_entries_size (name ∷ names) found = elim (Bool-cases (strprefix name (codes "node"))) [
  | inr e ↦ rw e (read_entries_size names found)
  | inl e ↦ rw e (read_entries_size names _ ∙ add_node_size _ found)
]

set_configured_nodes_size :
    (m : Machine) (blank : Bitmask) → (set_configured_nodes m blank).memnodes.size ≡ blank.size
unfolding set_configured_nodes
set_configured_nodes_size m blank = in_entries m.node_entries
  where
    in_entries :
        (entries : Option (List Bytes))
        → (entries_or_none entries
            (record { nodes = blank; memnodes = blank; highest = negsuc 0 })).memnodes.size
          ≡ blank.size
    in_entries none = refl
    in_entries (some names) = read_entries_size names _

count_below_most : (k n : ℕ) (p : ℕ → Bool) → ((i : ℕ) → n ≤ i → p i ≡ false) → count_below k p ≤ n
count_below_most zero n p beyond = omega arith
count_below_most (suc k) n p beyond =
    let fewer = count_below_most k n p beyond in
    let all = count_below-le (suc k) p in
    let apart : (suc k ≤ n) ⊎ (n ≤ k) = omega arith in
    elim apart [ inl h ↦ omega (arith, all, h) | inr h ↦ ground (arith, beyond k h, fewer) ]

-- What a machine is to say for `set_sizes` to leave a usable state: the kernel's masks are below
-- 2^31 bits, `sysconf` does not fail, and there are no more cpus than the kernel's masks have.
pub record IsMachine (m : Machine) (cpumask_sz : ℕ) : Type 0 where
  pub nodes_fit : set_nodemask_size m < 2 ^ 31
  pub cpus_found : set_numa_max_cpu m ≡ pos cpumask_sz
  pub some_cpu : 0 < cpumask_sz
  pub cpus_fit : cpumask_sz < 2 ^ 31
  pub cpus_known : (n : ℕ) × (m.cpus ≡ pos n) × (n ≤ cpumask_sz)

-- The fields of the state that do not depend on /proc/self/status.
abbrev Common : ℕ → ℕ → Nodes → ℤ → Bitmask → State → Type 0
Common nodemask_sz cpumask_sz found hicpu nodes st =
    (st.nodemask_sz ≡ nodemask_sz)
    × (st.cpumask_sz ≡ cpumask_sz)
    × (st.memnode_ptr ≡ found.memnodes)
    × (st.maxconfiguredcpu ≡ hicpu)
    × (st.no_nodes_ptr ≡ nodes)

set_task_constraints-Common :
    (status : Option (List Bytes)) (nodemask_sz cpumask_sz : ℕ) (found : Nodes) (hicpu : ℤ)
    (cpus nodes : Bitmask)
    → Common nodemask_sz cpumask_sz found hicpu nodes
        (set_task_constraints status nodemask_sz cpumask_sz found hicpu cpus nodes)
unfolding set_task_constraints
set_task_constraints-Common none nodemask_sz cpumask_sz found hicpu cpus nodes =
    (refl, refl, refl, refl, refl)
set_task_constraints-Common (some lines) nodemask_sz cpumask_sz found hicpu cpus nodes =
    (refl, refl, refl, refl, refl)

few_cpus : (n size : ℕ) → n ≤ size → as_ulong (one_more (one_less (pos n))) ≤ size
few_cpus zero size l = l
few_cpus (suc n) size l = l

Common-IsReady :
    (m : Machine) (cpumask_sz : ℕ) (nodes : Bitmask) (st : State)
    → IsMachine m cpumask_sz
    → IsValid nodes
    → IsTidy nodes
    → nodes.size ≡ set_nodemask_size m
    → ((i : ℕ) → isbitset nodes i ≡ false)
    → Common
        (set_nodemask_size m)
        cpumask_sz
        (set_configured_nodes m nodes)
        ((set_configured_cpus m).0)
        nodes
        st
    → IsReady st
unfolding num_configured_cpus
Common-IsReady m cpumask_sz nodes st machine valid tidy sized empty (a, b, c, d, e) =
    let positive = set_nodemask_size_positive m in
    let fit = machine.nodes_fit in
    record {
      node_size = (omega (arith, a, positive), omega (arith, a, fit));
      cpu_size = rw b (machine.some_cpu, machine.cpus_fit);
      no_nodes = rw e (valid, tidy);
      no_nodes_empty = rw e empty;
      configured_cpus =
          let (n, known, most) = machine.cpus_known in
          rw (d, b, known) (few_cpus n cpumask_sz most);
      configured_nodes =
          let counted = num_configured_nodes_lem st in
          let size = set_configured_nodes_size m nodes in
          let most =
            count_below_most (rounds_to st.maxconfigurednode) (set_nodemask_size m)
              (isbitset st.memnode_ptr)
              (λ i h. isbitset_beyond st.memnode_ptr i (
                let s : st.memnode_ptr.size ≡ set_nodemask_size m =
                  ap (λ x. x.size) c ∙ size ∙ sized in
                omega (arith, s, h))) in
          omega (arith, a, counted, most);
    }

found_state :
    (m : Machine) (cpumask_sz : ℕ) (nodes cpus : Bitmask)
    → set_numa_max_cpu m ≡ pos cpumask_sz
    → cpumask_sz < 2 ^ 31
    → alloc (set_nodemask_size m) ≡ some nodes
    → alloc cpumask_sz ≡ some cpus
    → set_sizes m
      ≡ some (
          set_task_constraints m.status
            (set_nodemask_size m)
            cpumask_sz
            (set_configured_nodes m nodes)
            ((set_configured_cpus m).0)
            cpus
            nodes)
unfolding set_sizes
found_state m cpumask_sz nodes cpus size small a b =
    ap (with_size m) (ap to_u32 size ∙ to_u32-pos cpumask_sz (omega arith))
    ∙ ap (λ x. with_masks m (set_nodemask_size m) cpumask_sz x (alloc cpumask_sz)) a
    ∙ ap (with_masks m (set_nodemask_size m) cpumask_sz (some nodes)) b

-- If the kernel's masks are below 2^31 bits, one of cpus has a bit at least, and `sysconf` knows the
-- count of configured cpus, which is at most the count of its bits, then `set_sizes` finds a state, and the state is usable: its
-- sizes are positive and bound the counts of configured nodes and cpus, and no bit of
-- `numa_no_nodes_ptr` is set.
pub set_sizes-IsReady :
    (m : Machine) (cpumask_sz : ℕ)
    → IsMachine m cpumask_sz
    → (st : State) × (set_sizes m ≡ some st) × IsReady st
set_sizes-IsReady m cpumask_sz machine =
    let (nodes, en, valid, sized, empty) =
      alloc_lem (set_nodemask_size m) (set_nodemask_size_positive m) machine.nodes_fit in
    let (cpus, ec, v, s, z) = alloc_lem cpumask_sz machine.some_cpu machine.cpus_fit in
    let st =
      set_task_constraints m.status (set_nodemask_size m) cpumask_sz (set_configured_nodes m nodes)
        ((set_configured_cpus m).0) cpus nodes in
    (
      st,
      found_state m cpumask_sz nodes cpus machine.cpus_found machine.cpus_fit en ec,
      Common-IsReady m cpumask_sz nodes st machine valid (alloc-IsTidy _ nodes en) sized empty
          (set_task_constraints-Common m.status _ _ _ _ cpus nodes),
    )
