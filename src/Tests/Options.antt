-- ===== src/Tests/Options.antt =====
-- The theorems on the options of numactl, with commands that set variables, attach a segment and
-- set the local policy.
use numactl.Base.{◌≡◌, refl, true, false, List, [], ◌∷◌, some, none, Bytes, codes}
use numactl.Base.Ints.{pos}
use numactl.Numactl.{
  Opt, length, huge, strict, all, shm, local, no_flags, Flags, Data, going, System,
}
use numactl.Numactl.Guards.{
  refuse_if, set_data, lift, clear_errno, checkerror, checknuma, setpolicy, nopolicy, check_cpubind,
  noshm, check_all_parse,
}
use numactl.Numactl.Options.{for_memory_or_task, prefer_local, check_do_shm}
use numactl.Numactl.Commands.{attach, handle, handle_all, main, run_command}
use numactl.Numactl.Rules.{
  Says, handle_all-spec_all, handle_all-Says, handle_all-one_policy, handle_all-attach_first,
  check_do_shm-handle_all, main-runs,
}
use numactl.Numactl.Settings.{spec_all-handle_all}
use numactl.Numactl.Spec.{view, spec_all, any, is_policy, attaches, is_setting, binds_cpus}
use numactl.Policy.{returned, set_localalloc, setpol, numa_available}
use numactl.Policy.Memory.{set_strict, setlocal_memory, dombind}
use numactl.Shm.Attach.{existing, attach_sysvshm}
use numactl.Tests.Kernels.{Kept, keeper, task}
use numactl.Tests.Strings.{machine, no_device}

-- A system with one segment of 8192 bytes and no files.
abbrev system : System Kept
system = record {
  run_on_node_mask_all = λ mask w. (returned tt, w);
  setaffinity = λ mask w. (returned tt, w);
  resolve = no_device;
  segments = λ id mode huge. record {
    get = λ name len. existing 3;
    create = λ name len. none;
    size_of = λ fd. some 8192;
    attach_at = λ fd. some 65536;
    page_size = 4096;
  };
  files = λ mode. record {
    open_file = λ name. none;
    create = λ name. none;
    stat = λ fd. none;
    truncate = λ fd len. false;
    map = λ fd len offset. none;
  };
  dump = λ r w. true;
  dump_nodes = λ r w. true;
  verify = λ r pol mask w. some false;
}

abbrev start : Data Kept
start = record {
  task = task;
  region = record { ptr = 0; len = 0; offset = 0; pagesize = 4096 };
  mode = 384;
  id = 0;
  huge_pages = false;
  last = none;
  mask = none;
  warned = false;
  compress = false;
  numa_checked = false;
}

-- `--strict --huge --all --shm /s --local`
abbrev local_segment : List Opt
local_segment = strict ∷ huge ∷ all ∷ shm (codes "/s") ∷ local ∷ []

-- The variables behind it.
abbrev behind_local : Flags
behind_local = record no_flags {
  set_policy = pos 4;
  attached = true;
  shmattached = true;
  shmoption = some (codes "--huge");
  parse_all = true;
  did_strict = true;
}

abbrev attached_data : Data Kept
attached_data = record start {
  task = record task { mbind_flags = 1 };
  region = record { ptr = 65536; len = 8192; offset = 0; pagesize = 4096 };
  huge_pages = true;
  numa_checked = true;
}

local_segment_lem :
    handle_all keeper true true machine system local_segment no_flags start
    ≡ going tt behind_local attached_data
unfolding handle_all handle prefer_local attach for_memory_or_task refuse_if set_data lift
    clear_errno checkerror checknuma setpolicy nopolicy check_cpubind noshm check_all_parse
    numa_available attach_sysvshm setlocal_memory dombind set_strict
local_segment_lem = refl

handle_all-spec_all_example : spec_all local_segment (view no_flags) ≡ some (view behind_local)
handle_all-spec_all_example =
    handle_all-spec_all keeper true true machine system local_segment no_flags start behind_local
      attached_data local_segment_lem

handle_all-Says_example : Says local_segment behind_local
handle_all-Says_example =
    handle_all-Says keeper true true machine system local_segment start behind_local attached_data
      local_segment_lem

handle_all-one_policy_example : any is_policy (strict ∷ huge ∷ all ∷ shm (codes "/s") ∷ []) ≡ false
handle_all-one_policy_example =
    handle_all-one_policy keeper true true machine system
      (strict ∷ huge ∷ all ∷ shm (codes "/s") ∷ []) [] local start behind_local attached_data
      local_segment_lem refl

handle_all-attach_first_example :
    (any is_policy (strict ∷ huge ∷ all ∷ []) ≡ false)
    × (any binds_cpus (strict ∷ huge ∷ all ∷ []) ≡ false)
handle_all-attach_first_example =
    handle_all-attach_first keeper true true machine system (strict ∷ huge ∷ all ∷ []) (local ∷ [])
      (shm (codes "/s")) start behind_local attached_data local_segment_lem refl

check_do_shm-handle_all_example :
    check_do_shm keeper true true machine system behind_local attached_data
    ≡ going tt behind_local attached_data
check_do_shm-handle_all_example =
    check_do_shm-handle_all keeper true true machine system local_segment start behind_local
      attached_data local_segment_lem

run_local_lem :
    main keeper true true machine system (all ∷ local ∷ []) start (codes "ls" ∷ [])
    ≡ run_command (codes "ls" ∷ [])
unfolding handle_all handle prefer_local for_memory_or_task refuse_if set_data lift clear_errno
    checkerror checknuma setpolicy check_all_parse numa_available set_localalloc setpol set_strict
    main
run_local_lem = refl

main-runs_example :
    (Path (List Bytes) (codes "ls" ∷ []) (codes "ls" ∷ []))
    × (any attaches (all ∷ local ∷ []) ≡ false)
    × (any is_setting (all ∷ local ∷ []) ≡ false)
main-runs_example =
    main-runs keeper true true machine system (all ∷ local ∷ []) start (codes "ls" ∷ [])
      (codes "ls" ∷ []) run_local_lem

-- `--strict --huge --length 4k`
abbrev settings : List Opt
settings = strict ∷ huge ∷ length (codes "4k") ∷ []

spec_all-handle_all_example :
    (g : Flags) × (e : Data Kept) × (handle_all keeper true true machine system settings no_flags
        start
      ≡ going tt g e)
    × (view g ≡ record (view no_flags) { named = true })
unfolding spec_all
spec_all-handle_all_example =
    spec_all-handle_all keeper true true machine system settings no_flags start
      (record (view no_flags) { named = true }) refl refl
