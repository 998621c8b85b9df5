-- ===== src/Cpus/Running.antt =====
-- libnuma.c: `numa_run_on_node` and the two `numa_run_on_node_mask` routines. The kernel's
-- `sched_setaffinity` is a parameter, a function from the mask to the call's result.
use numactl.Base.{
  ℕ, ◌/◌, Bool, not, ◌&&◌, Option, some, none, ◌==◌, ltb, if◌then◌else◌, get_or, set, bit_or,
}
use numactl.Base.Ints.{ℤ, pos, negsuc, minus_one, is_neg}
use numactl.Base.Loops.{for_range}
use numactl.Bitmask.{Bitmask, isbitset, setall}
use numactl.Bitmask.Words.{cpu_longs}
use numactl.Cpus.{CpuFile, Cache, Answer, node_to_cpus}
use numactl.Libnuma.{State, allocate_cpumask, num_possible_nodes}

-- The cpus collected so far, the buffer for those of a node, and the cache.
pub record Collected : Type 0 where
  pub cpus : Bitmask
  pub nodecpus : Bitmask
  pub cache : Cache

-- `for (k = 0; k < CPU_LONGS(ncpus); k++) cpus->maskp[k] |= nodecpus->maskp[k];`
unfoldable pub add_cpus : Bitmask → Bitmask → Bitmask
add_cpus cpus nodecpus =
    for_range (cpu_longs cpus.size) 0
      (λ k b. record b {
        maskp = set b.maskp k (bit_or (get_or b.maskp k 0) (get_or nodecpus.maskp k 0));
      })
      cpus

module _ (files : ℕ → CpuFile) (st : State) (allowed bmp : Bitmask) where
  -- A node of the mask, in the loop of `numa_run_on_node_mask`.
  unfoldable pub collect_node : ℕ → Collected → Collected
  collect_node i c =
      let a = node_to_cpus files st (pos i) c.nodecpus c.cache in
      let failed = record c { nodecpus = a.buffer; cache = a.cache } in
      if get_or bmp.maskp (i / 64) 0 == 0
      then c
      else if not (isbitset bmp i && isbitset allowed i)
      then c
      else if is_neg a.err
      then failed
      else record failed { cpus = add_cpus c.cpus a.buffer }

  unfoldable pub collect : Collected → Collected
  collect c = for_range bmp.size 0 collect_node c

abbrev collect_in :
    (ℕ → CpuFile) → State → Bitmask → Bitmask → Cache → Option Bitmask → Option Collected
collect_in files st allowed bmp c none = none
collect_in files st allowed bmp c (some blank) =
    some (collect files st allowed bmp (record { cpus = blank; nodecpus = blank; cache = c }))

-- The call of `sched_setaffinity` behind the loop; -1 where there was no mask.
abbrev set_affinity : (Bitmask → ℤ) → Cache → Option Collected → ℤ × Cache
set_affinity setaffinity c none = (minus_one, c)
set_affinity setaffinity c (some done) = (setaffinity done.cpus, done.cache)

-- `numa_run_on_node_mask`
unfoldable pub run_on_node_mask :
    (ℕ → CpuFile) → (Bitmask → ℤ) → State → Bitmask → Cache → ℤ × Cache
run_on_node_mask files setaffinity st bmp c =
    set_affinity setaffinity c (collect_in files st st.all_nodes_ptr bmp c (allocate_cpumask st))

-- `numa_run_on_node_mask_all`
unfoldable pub run_on_node_mask_all :
    (ℕ → CpuFile) → (Bitmask → ℤ) → State → Bitmask → Cache → ℤ × Cache
run_on_node_mask_all files setaffinity st bmp c =
    set_affinity setaffinity c
      (collect_in files st st.possible_nodes_ptr bmp c (allocate_cpumask st))

abbrev on_node : (Bitmask → ℤ) → Answer → ℤ × Cache
on_node setaffinity a =
    if is_neg a.err then (minus_one, a.cache) else (setaffinity a.buffer, a.cache)

-- `numa_run_on_node` with the mask that was allocated; -1 is every node.
abbrev run_in : (ℕ → CpuFile) → (Bitmask → ℤ) → State → ℤ → Cache → Option Bitmask → ℤ × Cache
run_in files setaffinity st node c none = (minus_one, c)
run_in files setaffinity st (negsuc n) c (some cpus) = (setaffinity (setall cpus), c)
run_in files setaffinity st (pos n) c (some cpus) =
    on_node setaffinity (node_to_cpus files st (pos n) cpus c)

abbrev is_node : State → ℤ → Bool
is_node st (pos n) = ltb n (num_possible_nodes st)
is_node st (negsuc n) = n == 0

-- `numa_run_on_node`
unfoldable pub run_on_node : (ℕ → CpuFile) → (Bitmask → ℤ) → State → ℤ → Cache → ℤ × Cache
run_on_node files setaffinity st node c =
    if not (is_node st node)
    then (minus_one, c)
    else run_in files setaffinity st node c (allocate_cpumask st)
