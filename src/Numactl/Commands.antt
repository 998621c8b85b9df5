-- ===== src/Numactl/Commands.antt =====
-- numactl.c: what `main` does with the options on shared memory and the others, its loop over the
-- options, and its end.
use numactl.Base.{
  ℕ, ◌%◌, ◌^◌, Bool, true, false, not, ◌||◌, List, [], ◌∷◌, Option, some, none, Bytes, codes,
  if◌then◌else◌,
}
use numactl.Base.Ints.{is_neg}
use numactl.Bitmask.{Bitmask}
use numactl.Libnuma.{State}
use numactl.Policy.{Kernel}
use numactl.Policy.Memory.{set_strict}
use numactl.Shm.{Region}
use numactl.Shm.Attach.{attach_sysvshm, attach_shared}
use numactl.Numactl.{
  Opt, show, hardware, balancing, local, dump, dump_nodes, strict, huge, touch, verify, all,
  cpu_compress, version, unknown, interleave, weighted_interleave, cpubind, physcpubind, membind,
  preferred, preferred_many, shm, file, length, shmmode, shmid, offset, Flags, no_flags, Data, Exit,
  usage, failed_call, cannot_dump, nothing_to_verify, finished, Progress, going, stopped, Run, stop,
  pure, ◌>>=◌, ◌>>◌, System,
}
use numactl.Numactl.Guards.{
  refuse_if, set_flags, set_data, lift, nopolicy, noshm, needshm, check_all_parse, check_shmbeyond,
  is_some, number,
}
use numactl.Util.{memsize}
use numactl.Numactl.Options.{
  interleave_with, check_did_cpubind, bind_to_nodes, bind_to_cpus, bind_memory, prefer_one, prefer,
  prefer_supported, prefer_local,
}

module _ {W : Type 0} (k : Kernel W) (exit_on_error fail_alloc_on_error : Bool) (st : State)
    (sys : System W) where
  -- The region that was attached, or the end of the command.
  abbrev pub use_region : Option Region → Run W (Unit {0})
  use_region none f d = stopped failed_call
  use_region (some r) f d =
      going tt (record f { attached = true; shmattached = true }) (record d { region = r })

  -- `--shm`, `--file`
  unfoldable pub attach : (Data W → Option Region) → Run W (Unit {0})
  attach region = do
    (check_did_cpubind k exit_on_error fail_alloc_on_error st sys)
    nopolicy
    λ f d. use_region (region d) f d

  -- `--dump`, `--dump-nodes`
  unfoldable pub dump_with : (Region → W → Bool) → Run W (Unit {0})
  dump_with dumps = do
    λ f. refuse_if (not f.attached) cannot_dump f
    λ f d. refuse_if (not (dumps d.region d.task.world)) failed_call f d
    set_flags (λ f. record f { do_dump = true })

  -- `--verify`: without a mask there is nothing to compare with.
  abbrev pub verified : Option Bool → Run W (Unit {0})
  verified none f d = stopped failed_call
  verified (some warned) f d = going tt f (record d { warned = warned || d.warned })

  abbrev pub verify_mask : Option Bitmask → Run W (Unit {0})
  verify_mask none f d = stopped nothing_to_verify
  verify_mask (some mask) f d = verified (sys.verify d.region f.set_policy mask d.task.world) f d

  unfoldable pub verify_region : Run W (Unit {0})
  verify_region = do
    needshm
    λ f. refuse_if (is_neg f.set_policy) nothing_to_verify f
    check_shmbeyond
    λ f d. verify_mask d.mask f d

  -- The `switch` of `main`.
  unfoldable pub handle : Opt → Run W (Unit {0})
  handle show = stop finished
  handle hardware = do nopolicy; set_flags (λ f. record f { do_hardware = true })
  handle balancing = do nopolicy; set_flags (λ f. record f { numa_balancing = true })
  handle (weighted_interleave s) = do
    set_flags (λ f. record f { weighted = true })
    (interleave_with k exit_on_error fail_alloc_on_error st sys) s
  handle (interleave s) = (interleave_with k exit_on_error fail_alloc_on_error st sys) s
  handle (cpubind s) = (bind_to_nodes k exit_on_error fail_alloc_on_error st sys) s
  handle (physcpubind s) = (bind_to_cpus k exit_on_error fail_alloc_on_error st sys) s
  handle (membind s) = (bind_memory k exit_on_error fail_alloc_on_error st sys) s
  handle (preferred_many s) = (prefer_supported k exit_on_error fail_alloc_on_error st sys) s
  handle (preferred s) =
      (prefer k exit_on_error fail_alloc_on_error st sys)
        (prefer_one k exit_on_error fail_alloc_on_error st sys) s
  handle local = (prefer_local k exit_on_error fail_alloc_on_error st sys)
  handle (shm name) =
      attach (λ d. attach_sysvshm (sys.segments d.id d.mode d.huge_pages) name d.region)
  handle (file name) = attach (λ d. attach_shared (sys.files d.mode) name d.region)
  handle (length s) = do
    noshm (codes "--length")
    set_data (λ d. record d { region = record d.region { len = memsize s } })
  handle (shmmode s) = do
    noshm (codes "--shmmode")
    n ← number 8 s
    set_data (λ d. record d { mode = n % 2 ^ 32 })
  handle dump = dump_with sys.dump
  handle dump_nodes = dump_with sys.dump_nodes
  handle strict = do set_flags (λ f. record f { did_strict = true }); lift (set_strict true)
  handle (shmid s) = do n ← number 0 s; set_data (λ d. record d { id = n })
  handle huge = do noshm (codes "--huge"); set_data (λ d. record d { huge_pages = true })
  handle (offset s) = do
    noshm (codes "--offset")
    set_data (λ d. record d { region = record d.region { offset = memsize s } })
  handle touch = do needshm; check_shmbeyond
  handle verify = verify_region
  handle all = do
    λ f. check_all_parse f.did_node_cpu_parse f
    set_flags (λ f. record f { parse_all = true })
  handle cpu_compress = set_data (λ d. record d { compress = true })
  handle version = do nopolicy; stop finished
  handle unknown = stop usage

  -- The loop over the options.
  unfoldable pub handle_all : List Opt → Run W (Unit {0})
  handle_all [] = pure tt
  handle_all (o ∷ opts) = do handle o; handle_all opts

-- What `main` does behind the options, with the arguments that are left: the command is run, or
-- the hardware is printed, or it ends with an exit code.
pub data Conclusion : Type 0 where
  run_command : List Bytes → Conclusion
  print_hardware : Conclusion
  exit_with : ℕ → Conclusion
  refused : Exit → Conclusion

abbrev pub ended : {W : Type 0} → Flags → Data W → List Bytes → Conclusion
ended f d av =
    if f.do_hardware
    then print_hardware
    else if f.attached
    then (if is_nonempty av then refused usage else exit_with (if d.warned then 1 else 0))
    else if f.do_dump
    then refused usage
    else if is_some f.shmoption
    then refused usage
    else if is_nonempty av
    then run_command av
    else refused usage
  where
    is_nonempty : List Bytes → Bool
    is_nonempty [] = false
    is_nonempty (a ∷ av) = true

-- `main`, behind `get_short_opts`: `opts` are the options, `av` the arguments behind them.
abbrev pub behind : {W : Type 0} → Progress W (Unit {0}) → List Bytes → Conclusion
behind (going u f d) av = ended f d av
behind (stopped r) av = refused r

unfoldable pub main :
    {W : Type 0}
    → Kernel W
    → Bool
    → Bool
    → State
    → System W
    → List Opt
    → Data W
    → List Bytes
    → Conclusion
main k exit_on_error fail_alloc_on_error st sys opts d av =
    behind (handle_all k exit_on_error fail_alloc_on_error st sys opts no_flags d) av
