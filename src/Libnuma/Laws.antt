-- ===== src/Libnuma/Laws.antt =====
-- What the state of libnuma is like once it is set up, and what the queries on it count.
use numactl.Base.{ℕ, ◌+◌, ◌^◌, ◌≤◌, ◌<◌, ◌≡◌, refl, false, some, arith, if◌then◌else◌}
use numactl.Base.Loops.{for_range_inv, count_below}
use numactl.Bitmask.{Bitmask, IsValid, isbitset}
use numactl.Bitmask.Abstract.{IsTidy}
use numactl.Bitmask.Scan.{alloc_lem}
use numactl.Libnuma.{
  State, rounds_to, num_configured_nodes, num_configured_cpus, allocate_nodemask, allocate_cpumask,
}

-- The kernel's masks have at least one bit; the masks of the state are valid, with no bit past
-- their size, and `numa_no_nodes_ptr` is empty.
pub record IsReady (st : State) : Type 0 where
  pub node_size : (0 < st.nodemask_sz) × (st.nodemask_sz < 2 ^ 31)
  pub cpu_size : (0 < st.cpumask_sz) × (st.cpumask_sz < 2 ^ 31)
  pub no_nodes : IsValid st.no_nodes_ptr × IsTidy st.no_nodes_ptr
  pub no_nodes_empty : (i : ℕ) → isbitset st.no_nodes_ptr i ≡ false
  pub configured_cpus : num_configured_cpus st ≤ st.cpumask_sz
  pub configured_nodes : num_configured_nodes st ≤ st.nodemask_sz

-- The configured nodes are the nodes with memory up to the highest configured one.
pub num_configured_nodes_lem :
    (st : State)
    → num_configured_nodes st
      ≡ count_below (rounds_to st.maxconfigurednode) (isbitset st.memnode_ptr)
unfolding num_configured_nodes
num_configured_nodes_lem st =
    let n : ℕ = rounds_to st.maxconfigurednode in
    for_range_inv (λ j (c : ℕ). c ≡ count_below j (isbitset st.memnode_ptr))
      (λ i c. if isbitset st.memnode_ptr i then c + 1 else c) n (λ i c l h. ground arith) n 0 0
      (omega arith) refl

-- A fresh mask of `n` bits.
pub record IsFresh (n : ℕ) (b : Bitmask) : Type 0 where
  pub valid : IsValid b
  pub sized : b.size ≡ n
  pub empty : (i : ℕ) → isbitset b i ≡ false

pub allocate_nodemask_lem :
    (st : State)
    → IsReady st
    → (b : Bitmask) × (allocate_nodemask st ≡ some b) × IsFresh st.nodemask_sz b
unfolding allocate_nodemask
allocate_nodemask_lem st r =
    let (b, e, v, s, z) = alloc_lem st.nodemask_sz r.node_size.0 r.node_size.1 in
    (b, e, record { valid = v; sized = s; empty = z })

pub allocate_cpumask_lem :
    (st : State)
    → IsReady st
    → (b : Bitmask) × (allocate_cpumask st ≡ some b) × IsFresh st.cpumask_sz b
unfolding allocate_cpumask
allocate_cpumask_lem st r =
    let (b, e, v, s, z) = alloc_lem st.cpumask_sz r.cpu_size.0 r.cpu_size.1 in
    (b, e, record { valid = v; sized = s; empty = z })
