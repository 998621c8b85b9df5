-- ===== src/Libnuma/Constraints.antt =====
-- libnuma.c: `read_mask`, `set_task_constraints`, and `set_sizes`, which calls all the others.
use numactl.Base.{
  ℕ, zero, suc, ◌+◌, ◌-◌, ◌*◌, ◌/◌, ◌%◌, ◌^◌, Bool, false, not, List, [], ◌∷◌, ◌++◌, Option, some,
  none, Bytes, codes, ltb, leb, ◌==◌, if◌then◌else◌, length, drop, bit_or,
}
use numactl.Base.Ints.{to_u32, ℤ, pos, negsuc}
use numactl.Base.Loops.{for_range}
use numactl.Bitmask.{Bitmask, bitmask_setbit, bitmask_clearbit, weight, alloc}
use numactl.Libnuma.{State, one_more, as_ulong, rounds_to}
use numactl.Libnuma.Setup.{
  Machine, Nodes, strprefix, set_nodemask_size, set_configured_nodes, set_numa_max_cpu,
  set_configured_cpus,
}
use numactl.Text.{strtoul, first_byte}

-- `i = strtoul(s, &end, 16)` for an `unsigned`, with `end`.
abbrev pub int_and_end : Bytes → Option (ℕ × Bytes) → ℕ × Bytes
int_and_end s none = (0, s)
int_and_end s (some (v, end)) = (v % 2 ^ 32, end)

abbrev pub read_int : Bytes → ℕ × Bytes
read_int s = int_and_end s (strtoul 16 s)

-- The first number other than 0, with what follows; `none` if there is none. Each round reads a
-- comma at least, so that the fuel is the length of the line.
unfoldable pub skip_zeros : ℕ → ℕ × Bytes → Option (ℕ × Bytes)
skip_zeros zero (i, end) = none
skip_zeros (suc fuel) (i, end) =
    let rest = skip_zeros fuel (read_int (drop 1 end)) in
    if not (i == 0) then some (i, end) else if first_byte end == b',' then rest else none

-- The numbers behind the first, the last one first, onto those before; `none` if they do not fit.
unfoldable pub read_ints : ℕ → ℕ → List ℕ → Bytes → Option (List ℕ)
read_ints zero tmplen ints end = none
read_ints (suc fuel) tmplen ints end =
    let (i, later) = read_int (drop 1 end) in
    let rest = read_ints fuel tmplen (i ∷ ints) later in
    if not (first_byte end == b',')
    then some ints
    else if leb tmplen (length ints)
    then none
    else rest

-- Pairs of ints as words, the lowest first.
unfoldable pub pair_ints : List ℕ → List ℕ
pair_ints [] = []
pair_ints (low ∷ []) = low ∷ []
pair_ints (low ∷ high ∷ ints) = bit_or low (high * 2 ^ 32) ∷ pair_ints ints

abbrev pub store_ints : Bitmask → Option (List ℕ) → ℤ × Bitmask
store_ints bmp none = (negsuc 0, bmp)
store_ints bmp (some ints) =
    let words = pair_ints ints in
    let stored : Bitmask = record bmp { maskp = words ++ drop (length words) bmp.maskp } in
    (pos (weight stored), stored)

abbrev pub ints_from : ℕ → ℕ → Option (ℕ × Bytes) → Option (List ℕ)
ints_from fuel tmplen none = none
ints_from fuel tmplen (some (i, end)) =
    if tmplen == 0 then none else read_ints fuel tmplen (i ∷ []) end

-- `read_mask`: the number of bits, or -1, and the mask.
unfoldable pub read_mask : Bytes → Bitmask → ℤ × Bitmask
read_mask s bmp =
    let fuel = suc (length s) in
    store_ints bmp (ints_from fuel ((bmp.size + 31) / 32) (skip_zeros fuel (read_int s)))

-- `strrchr(buffer, '\t') + 1`; the lines that are read have a tab.
unfoldable pub after_tab : Bytes → Bytes → Bytes
after_tab [] best = best
after_tab (c ∷ s) best = after_tab s (if c == b'\t' then s else best)

-- What the loop over the lines of /proc/self/status has found.
pub record Allowed : Type 0 where
  pub cpu_count : ℤ
  pub cpu_mask : Bitmask
  pub node_count : ℤ
  pub node_mask : Bitmask

abbrev pub with_cpus : ℤ × Bitmask → Allowed → Allowed
with_cpus (n, mask) a = record a { cpu_count = n; cpu_mask = mask }

abbrev pub with_nodes : ℤ × Bitmask → Allowed → Allowed
with_nodes (n, mask) a = record a { node_count = n; node_mask = mask }

abbrev pub read_line : Bytes → Allowed → Allowed
read_line line a =
    let mask = after_tab line [] in
    if strprefix line (codes "Cpus_allowed:")
    then with_cpus (read_mask mask a.cpu_mask) a
    else if strprefix line (codes "Mems_allowed:")
    then with_nodes (read_mask mask a.node_mask) a
    else a

unfoldable pub read_status : List Bytes → Allowed → Allowed
read_status [] a = a
read_status (line ∷ lines) a = read_status lines (read_line line a)

-- `for (i = 0; i <= max; i++) numa_bitmask_setbit(mask, i)`
unfoldable pub set_up_to : ℤ → Bitmask → Bitmask
set_up_to max mask = for_range (rounds_to max) 0 (λ i b. bitmask_setbit b i) mask

abbrev pub is_positive : ℤ → Bool
is_positive (pos n) = not (n == 0)
is_positive (negsuc n) = false

abbrev pub exceeds : ℤ → ℕ → Bool
exceeds (pos n) all = ltb all n
exceeds (negsuc n) all = false

-- A count that is not above 0 stands for everything up to `max`.
abbrev pub or_all : ℤ → ℤ × Bitmask → ℤ × Bitmask
or_all max (n, mask) = if is_positive n then (n, mask) else (one_more max, set_up_to max mask)

-- The cpus that are not configured are taken away where there are too many.
abbrev pub reduce_cpus : ℤ → ℤ × Bitmask → ℤ × Bitmask
reduce_cpus hicpu (n, mask) =
    let first = as_ulong (one_more hicpu) in
    if exceeds n (rounds_to hicpu)
    then (one_more hicpu, for_range (mask.size - first) first (λ i b. bitmask_clearbit b i) mask)
    else (n, mask)

-- `numproccpu` with `numa_all_cpus_ptr`, and `numprocnode` with `numa_all_nodes_ptr`.
unfoldable pub task_cpus : ℤ → Allowed → ℤ × Bitmask
task_cpus hicpu a = reduce_cpus hicpu (or_all hicpu (a.cpu_count, a.cpu_mask))

unfoldable pub task_nodes : ℤ → Allowed → ℤ × Bitmask
task_nodes max a = or_all max (a.node_count, a.node_mask)

-- `set_task_constraints`, with the masks that were allocated; the mask of possible nodes has the
-- size of one of cpus. Without the file the masks stay empty.
unfoldable pub set_task_constraints :
    Option (List Bytes) → ℕ → ℕ → Nodes → ℤ → Bitmask → Bitmask → State
set_task_constraints none nodemask_sz cpumask_sz found hicpu cpus nodes = record {
  nodemask_sz = nodemask_sz;
  cpumask_sz = cpumask_sz;
  maxconfigurednode = found.highest;
  maxconfiguredcpu = hicpu;
  numprocnode = negsuc 0;
  numproccpu = negsuc 0;
  nodes_ptr = found.nodes;
  memnode_ptr = found.memnodes;
  no_nodes_ptr = nodes;
  all_nodes_ptr = nodes;
  possible_nodes_ptr = cpus;
  all_cpus_ptr = cpus;
  possible_cpus_ptr = cpus;
}
set_task_constraints (some lines) nodemask_sz cpumask_sz found hicpu cpus nodes =
    let allowed = read_status lines (record {
      cpu_count = negsuc 0;
      cpu_mask = cpus;
      node_count = negsuc 0;
      node_mask = nodes;
    }) in
    let c = task_cpus hicpu allowed in
    let n = task_nodes found.highest allowed in
    record {
      nodemask_sz = nodemask_sz;
      cpumask_sz = cpumask_sz;
      maxconfigurednode = found.highest;
      maxconfiguredcpu = hicpu;
      numprocnode = n.0;
      numproccpu = c.0;
      nodes_ptr = found.nodes;
      memnode_ptr = found.memnodes;
      no_nodes_ptr = nodes;
      all_nodes_ptr = n.1;
      possible_nodes_ptr = set_up_to found.highest cpus;
      all_cpus_ptr = c.1;
      possible_cpus_ptr = set_up_to hicpu cpus;
    }

abbrev pub with_masks : Machine → ℕ → ℕ → Option Bitmask → Option Bitmask → Option State
with_masks m nodemask_sz cpumask_sz (some nodes) (some cpus) = some (
    set_task_constraints m.status nodemask_sz cpumask_sz (set_configured_nodes m nodes)
      ((set_configured_cpus m).0) cpus nodes)
with_masks m nodemask_sz cpumask_sz none cpus = none
with_masks m nodemask_sz cpumask_sz (some nodes) none = none

-- The masks of cpus have the `unsigned` size that an `int` is read as.
abbrev pub with_size : Machine → ℕ → Option State
with_size m cpumask_sz =
    with_masks m (set_nodemask_size m) cpumask_sz (alloc (set_nodemask_size m)) (alloc cpumask_sz)

-- `set_sizes`; `none` where no mask has the size that was found. What `numa_error` prints is left
-- out, and it does not exit: `numa_exit_on_error` is 0 while the library is loaded.
unfoldable pub set_sizes : Machine → Option State
set_sizes m = with_size m (to_u32 (set_numa_max_cpu m))
