-- ===== src/Numactl/Guards.antt =====
-- numactl.c: the helpers of `main` that refuse an option, and those that read its argument.
use numactl.Base.{
  ℕ, Bool, true, false, not, [], Option, some, none, Bytes, codes, str_eq, leb, ◌==◌, if◌then◌else◌,
}
use numactl.Base.Ints.{ℤ, pos, negsuc, is_neg}
use numactl.Bitmask.{Bitmask}
use numactl.Libnuma.{State}
use numactl.Parse.{
  Result, ok, refused, no_mask, exhausted, parse_nodestring, parse_nodestring_all, parse_cpustring,
  parse_cpustring_all,
}
use numactl.Policy.{Reply, Kernel, Outcome, done, exited, Action, noted, numa_available}
use numactl.Numactl.{
  Flags, Data, Exit, usage, conflicting_policies, policy_before_shm, cpubind_on_shm,
  must_be_before_shm, not_before, needs_shm, all_after_nodes, invalid_list, no_numa, failed_call,
  beyond_length, same_needs_previous, exited_in_call, Progress, going, stopped, Run, pure, ◌>>=◌,
  ◌>>◌, System,
}
use numactl.Text.{strtoul}

abbrev pub is_some : {A : Type 0} → Option A → Bool
is_some none = false
is_some (some a) = true

-- `set_policy != -1` is false.
abbrev pub is_unset : ℤ → Bool
is_unset (pos n) = false
is_unset (negsuc n) = n == 0

-- `same` is the last list again.
abbrev list_or_same : Bytes → Option Bytes → Option Bytes
list_or_same s last = if str_eq s (codes "same") then last else some s

module _ {W : Type 0} where
  -- A test that ends the command where it fails.
  unfoldable pub refuse_if : Bool → Exit → Run W (Unit {0})
  refuse_if b r f d = if b then stopped r else going tt f d

  abbrev pub set_flags : (Flags → Flags) → Run W (Unit {0})
  set_flags g f d = going tt (g f) d

  unfoldable pub set_data : (Data W → Data W) → Run W (Unit {0})
  set_data g f d = going tt f (g d)

  -- A routine of libnuma on the task.
  abbrev pub carried : {A : Type 0} → Flags → Data W → Outcome W A → Progress W A
  carried f d (done a t) = going a f (record d { task = t })
  carried f d (exited t) = stopped exited_in_call

  unfoldable pub lift : {A : Type 0} → Action W A → Run W A
  lift m f d = carried f d (m d.task)

  abbrev called : (W → Reply (Unit {0}) × W) → Action W (Unit {0})
  called m t = let (r, w) = m t.world in done tt (noted r (record t { world = w }))

  -- A call into the system.
  unfoldable pub system : (W → Reply (Unit {0}) × W) → Run W (Unit {0})
  system m = lift (called m)

  -- `errno = 0;`
  unfoldable pub clear_errno : Run W (Unit {0})
  clear_errno = set_data (λ d. record d { task = record d.task { errno = 0 } })

  -- `checkerror`
  unfoldable pub checkerror : Run W (Unit {0})
  checkerror f d = if not (d.task.errno == 0) then stopped failed_call else going tt f d

  abbrev pub ask_numa : Kernel W → Bool → Bool → Run W (Unit {0})
  ask_numa k e true = pure tt
  ask_numa k e false = do r ← lift (numa_available k e); refuse_if (is_neg r) no_numa

  -- `checknuma`
  unfoldable pub checknuma : Kernel W → Bool → Run W (Unit {0})
  checknuma k e = do
    (λ f d. ask_numa k e d.numa_checked f d)
    set_data (λ d. record d { numa_checked = true })

  -- `setpolicy`
  unfoldable pub setpolicy : ℕ → Run W (Unit {0})
  setpolicy pol f d =
      if not (is_unset f.set_policy)
      then stopped conflicting_policies
      else going tt (record f { set_policy = pos pol }) d

  -- `nopolicy`
  unfoldable pub nopolicy : Run W (Unit {0})
  nopolicy f d = if is_neg f.set_policy then going tt f d else stopped policy_before_shm

  -- `check_cpubind`
  unfoldable pub check_cpubind : Bool → Run W (Unit {0})
  check_cpubind flag = refuse_if flag cpubind_on_shm

  -- `noshm`
  unfoldable pub noshm : Bytes → Run W (Unit {0})
  noshm opt f d =
      if f.shmattached
      then stopped must_be_before_shm
      else going tt (record f { shmoption = some opt }) d

  -- `dontshm`
  unfoldable pub dontshm : Run W (Unit {0})
  dontshm f d = if is_some f.shmoption then stopped not_before else going tt f d

  -- `needshm`
  unfoldable pub needshm : Run W (Unit {0})
  needshm f d = if not f.shmattached then stopped needs_shm else going tt f d

  -- `check_all_parse`
  unfoldable pub check_all_parse : Bool → Run W (Unit {0})
  check_all_parse flag = refuse_if flag all_after_nodes

  -- `check_shmbeyond`
  unfoldable pub check_shmbeyond : Run W (Unit {0})
  check_shmbeyond f d =
      if leb d.region.len d.region.offset then stopped beyond_length else going tt f d

  abbrev pub mask_or_refuse : Result Bitmask → Run W Bitmask
  mask_or_refuse (ok mask) f d = going mask f d
  mask_or_refuse (refused r) f d = stopped invalid_list
  mask_or_refuse no_mask f d = stopped invalid_list
  mask_or_refuse exhausted f d = stopped invalid_list

  -- The list that is parsed, with the test of the result.
  abbrev pub parse_list : System W → State → Bool → Option Bytes → Run W Bitmask
  parse_list sys st every none f d = stopped same_needs_previous
  parse_list sys st every (some s) f d =
      let parsed =
        if every
        then parse_nodestring_all sys.resolve st s
        else parse_nodestring sys.resolve st s in
      mask_or_refuse parsed f (record d { last = some s })

  -- `numactl_parse_nodestring`
  unfoldable pub numactl_parse_nodestring : System W → State → Bytes → Run W Bitmask
  numactl_parse_nodestring sys st s f d = parse_list sys st f.parse_all (list_or_same s d.last) f d

  -- `numa_parse_cpustring`, and the test of its result
  unfoldable pub parse_cpus : State → Bytes → Run W Bitmask
  parse_cpus st s f d =
      mask_or_refuse (if f.parse_all then parse_cpustring_all st s else parse_cpustring st s) f d

  -- `x = strtoul(optarg, &end, base); if (end == optarg || *end) usage();`
  abbrev pub whole : Option (ℕ × Bytes) → Run W ℕ
  whole (some (n, [])) f d = going n f d
  whole _ f d = stopped usage

  unfoldable pub number : ℕ → Bytes → Run W ℕ
  number base s = whole (strtoul base s)
