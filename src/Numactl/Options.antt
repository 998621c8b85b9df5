-- ===== src/Numactl/Options.antt =====
-- numactl.c: what `main` does with the options that set a policy or bind to cpus.
use numactl.Base.{ℕ, Bool, true, false, not, some, Bytes, ◌==◌, if◌then◌else◌}
use numactl.Bitmask.{Bitmask, weight, find_first}
use numactl.Libnuma.{State}
use numactl.Policy.{
  Kernel, Action, set_interleave_mask, set_weighted_interleave_mask, set_membind,
  set_membind_balancing, set_localalloc, is_zero,
}
use numactl.Policy.Memory.{interleave_memory, tonode_memory, tonodemask_memory, setlocal_memory}
use numactl.Policy.Preferred.{
  set_bind_policy, numa_has_preferred_many, set_preferred, set_preferred_many_mask,
}
use numactl.Shm.{Region}
use numactl.Numactl.{Flags, usage, unsupported, Run, pure, ◌>>=◌, ◌>>◌, System}
use numactl.Numactl.Guards.{
  refuse_if, set_flags, set_data, lift, system, clear_errno, checkerror, checknuma, setpolicy,
  check_cpubind, dontshm, numactl_parse_nodestring, parse_cpus,
}
use numactl.Util.Mpol

module _ {W : Type 0} (k : Kernel W) (exit_on_error fail_alloc_on_error : Bool) (st : State)
    (sys : System W) where
  -- `mask = numactl_parse_nodestring(...); ... errno = 0;`
  unfoldable pub parse_mask : Bytes → Run W Bitmask
  parse_mask s = do
    mask ← numactl_parse_nodestring sys st s
    set_data (λ d. record d { mask = some mask })
    clear_errno
    pure mask

  unfoldable pub node_cpu_parsed : Run W (Unit {0})
  node_cpu_parsed = set_flags (λ f. record f { did_node_cpu_parse = true })

  -- What the policy is set for: the memory that is attached, or the task.
  unfoldable pub for_memory_or_task :
      (Region → Action W (Unit {0})) → Action W (Unit {0}) → Run W (Unit {0})
  for_memory_or_task memory task f d = lift (if f.attached then memory d.region else task) f d

  abbrev pub setpolicy_by : (Flags → ℕ) → Run W (Unit {0})
  setpolicy_by pol f d = setpolicy (pol f) f d

  -- `-i`, and `-w` once its flag is set
  unfoldable pub interleave_with : Bytes → Run W (Unit {0})
  interleave_with s = do
    checknuma k exit_on_error
    mask ← parse_mask s
    node_cpu_parsed
    setpolicy_by (λ f. if f.weighted then Mpol.weighted_interleave else Mpol.interleave)
    λ f.
        for_memory_or_task
          (λ r. interleave_memory k exit_on_error fail_alloc_on_error r.ptr r.len mask)
          (if f.weighted
            then set_weighted_interleave_mask k exit_on_error st mask
            else set_interleave_mask k exit_on_error st mask)
          f
    checkerror

  abbrev pub cpus_bound : Run W (Unit {0})
  cpus_bound = set_flags (λ f. record f { did_cpubind = true; did_node_cpu_parse = true })

  abbrev pub check_do_shm : Run W (Unit {0})
  check_do_shm f d = check_cpubind f.do_shm f d

  abbrev pub check_did_cpubind : Run W (Unit {0})
  check_did_cpubind f d = check_cpubind f.did_cpubind f d

  -- `-N`, `-c`
  unfoldable pub bind_to_nodes : Bytes → Run W (Unit {0})
  bind_to_nodes s = do
    dontshm
    checknuma k exit_on_error
    mask ← parse_mask s
    check_do_shm
    cpus_bound
    system (sys.run_on_node_mask_all mask)
    checkerror

  -- `-C`
  unfoldable pub bind_to_cpus : Bytes → Run W (Unit {0})
  bind_to_cpus s = do
    dontshm
    cpubuf ← parse_cpus st s
    clear_errno
    check_do_shm
    cpus_bound
    system (sys.setaffinity cpubuf)
    checkerror

  -- `-m`
  unfoldable pub bind_memory : Bytes → Run W (Unit {0})
  bind_memory s = do
    checknuma k exit_on_error
    setpolicy Mpol.bind
    mask ← parse_mask s
    node_cpu_parsed
    lift (set_bind_policy k exit_on_error st true)
    λ f.
        for_memory_or_task
          (λ r. tonodemask_memory k exit_on_error fail_alloc_on_error r.ptr r.len mask)
          (if f.numa_balancing
            then set_membind_balancing k exit_on_error mask
            else set_membind k exit_on_error mask)
          f
    lift (set_bind_policy k exit_on_error st false)
    checkerror

  -- The memory at the first node of the mask, also for `-P`; then `setpolicy`, as
  -- `numa_set_bind_policy` has chosen.
  unfoldable pub prefer_memory : Bitmask → Run W (Unit {0})
  prefer_memory mask = do
    λ f d.
        lift
          (tonode_memory k exit_on_error fail_alloc_on_error st d.region.ptr d.region.len
            (find_first mask))
          f d
    many ← lift (numa_has_preferred_many k exit_on_error st)
    setpolicy (if is_zero many then Mpol.preferred else Mpol.preferred_many)

  unfoldable pub prefer_one : Bitmask → Run W (Unit {0})
  prefer_one mask = do
    refuse_if (not (weight mask == 1)) usage
    setpolicy Mpol.preferred
    lift (set_preferred k exit_on_error st (find_first mask))

  unfoldable pub prefer_many : Bitmask → Run W (Unit {0})
  prefer_many mask = do
    setpolicy Mpol.preferred_many
    lift (set_preferred_many_mask k exit_on_error st mask)

  -- `-p`, and `-P` behind its test: `task` is what is done for the task.
  unfoldable pub prefer : (Bitmask → Run W (Unit {0})) → Bytes → Run W (Unit {0})
  prefer task s = do
    checknuma k exit_on_error
    mask ← parse_mask s
    node_cpu_parsed
    lift (set_bind_policy k exit_on_error st false)
    λ f. (if f.attached then prefer_memory mask else task mask) f
    checkerror

  -- `-P`
  unfoldable pub prefer_supported : Bytes → Run W (Unit {0})
  prefer_supported s = do
    many ← lift (numa_has_preferred_many k exit_on_error st)
    refuse_if (is_zero many) unsupported
    prefer prefer_many s

  -- `-l`
  unfoldable pub prefer_local : Run W (Unit {0})
  prefer_local = do
    checknuma k exit_on_error
    setpolicy Mpol.local
    clear_errno
    for_memory_or_task (λ r. setlocal_memory k exit_on_error fail_alloc_on_error r.ptr r.len)
        (set_localalloc k exit_on_error st)
    checkerror
