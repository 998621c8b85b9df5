-- ===== src/Libnuma.antt =====
-- libnuma.c: the static state that `set_sizes` fills, the queries on it, and the masks that are
-- allocated to its sizes. Pointers to masks are masks here; `set_sizes` has run, so none is NULL.
use numactl.Base.{ℕ, zero, suc, ◌+◌, ◌-◌, ◌^◌, ◌≤◌, ◌<◌, ◌≡◌, Bool, Option, ltb, if◌then◌else◌}
use numactl.Base.Ints.{ℤ, pos, negsuc}
use numactl.Base.Loops.{for_range}
use numactl.Bitmask.{Bitmask, IsValid, isbitset, alloc}
pub mod Laws
pub mod Setup
pub mod Constraints
pub mod Ready
pub mod Possible

pub record State : Type 0 where
  pub nodemask_sz : ℕ
  pub cpumask_sz : ℕ
  pub maxconfigurednode : ℤ
  pub maxconfiguredcpu : ℤ
  pub numprocnode : ℤ
  pub numproccpu : ℤ
  pub nodes_ptr : Bitmask
  pub memnode_ptr : Bitmask
  pub no_nodes_ptr : Bitmask
  pub all_nodes_ptr : Bitmask
  pub possible_nodes_ptr : Bitmask
  pub all_cpus_ptr : Bitmask
  pub possible_cpus_ptr : Bitmask

-- The rounds of `for (i = 0; i <= max; i++)`, for an `int` that may be -1.
abbrev pub rounds_to : ℤ → ℕ
rounds_to (pos n) = suc n
rounds_to (negsuc n) = 0

-- `numa_num_configured_nodes`
unfoldable pub num_configured_nodes : State → ℕ
num_configured_nodes st =
    for_range (rounds_to st.maxconfigurednode) 0
      (λ i memnodecount. if isbitset st.memnode_ptr i then memnodecount + 1 else memnodecount) 0

-- `n + 1`
abbrev pub one_more : ℤ → ℤ
one_more (pos n) = pos (suc n)
one_more (negsuc zero) = pos 0
one_more (negsuc (suc n)) = negsuc n

-- An `int` where it is compared with an `unsigned long`.
abbrev pub as_ulong : ℤ → ℕ
as_ulong (pos n) = n
as_ulong (negsuc n) = 2 ^ 64 - suc n

-- `numa_num_configured_cpus`, as the number that the parser compares a cpu with.
unfoldable pub num_configured_cpus : State → ℕ
num_configured_cpus st = as_ulong (one_more st.maxconfiguredcpu)

-- `numa_num_possible_nodes`
abbrev pub num_possible_nodes : State → ℕ
num_possible_nodes st = st.nodemask_sz

-- `numa_num_possible_cpus`, as the `unsigned` that masks are allocated with
abbrev pub num_possible_cpus : State → ℕ
num_possible_cpus st = st.cpumask_sz

-- `numa_num_task_nodes`
abbrev pub num_task_nodes : State → ℤ
num_task_nodes st = st.numprocnode

-- `numa_num_task_cpus`
abbrev pub num_task_cpus : State → ℤ
num_task_cpus st = st.numproccpu

-- `numa_max_node`
abbrev pub max_node : State → ℤ
max_node st = st.maxconfigurednode

-- `numa_allocate_cpumask`
unfoldable pub allocate_cpumask : State → Option Bitmask
allocate_cpumask st = alloc (num_possible_cpus st)

-- `numa_allocate_nodemask`: numa_max_possible_node() + 1, where that is numa_num_possible_nodes() - 1.
unfoldable pub allocate_nodemask : State → Option Bitmask
allocate_nodemask st = alloc (num_possible_nodes st)
