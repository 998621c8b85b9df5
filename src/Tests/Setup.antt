-- ===== src/Tests/Setup.antt =====
-- The theorems on `set_sizes` with a machine of two nodes and four cpus.
use numactl.Base.{◌≡◌, refl, List, [], ◌∷◌, some, Bytes, codes, arith, if◌then◌else◌, ltb, false}
use numactl.Base.Ints.{pos}
use numactl.Bitmask.{weight, getbit}
use numactl.Libnuma.{State}
use numactl.Libnuma.Laws.{IsReady}
use numactl.Libnuma.Setup.{
  Machine, bytes, too_small, set_nodemask_size, set_numa_max_cpu, size_from, read_size, strprefix,
  count_digits, Nodes,
}
use numactl.Libnuma.Constraints.{
  set_sizes, set_task_constraints, read_mask, skip_zeros, read_ints, pair_ints,
}
use numactl.Text.{strtoul, skip_space, sign, detect_base, scan, digit}
use numactl.Base.Loops.{for_range}
use numactl.Libnuma.Ready.{IsMachine, set_sizes-IsReady}
use numactl.Libnuma.Possible.{IsConstrained, set_task_constraints-IsConstrained}
use numactl.Tests.Masks.{eight}
use numactl.Tests.Strings.{empty, empty-IsValid, empty_lem}

abbrev status_lines : List Bytes
status_lines = codes "Cpus_allowed:\t0000000f\n" ∷ codes "Mems_allowed:\t00000000,00000003\n" ∷ []

abbrev two_nodes : Machine
two_nodes = record {
  status = some status_lines;
  refuses_size = λ size. false;
  node_entries = some (codes "node0" ∷ codes "power" ∷ codes "node1" ∷ []);
  affinity = λ len. if ltb len 8192 then too_small else bytes 1024;
  cpus = pos 4;
}

two_nodes-IsMachine : IsMachine two_nodes 8192
unfolding set_nodemask_size read_size strprefix count_digits set_numa_max_cpu size_from
two_nodes-IsMachine = record {
  nodes_fit = omega arith;
  cpus_found = refl;
  some_cpu = omega arith;
  cpus_fit = omega arith;
  cpus_known = (4, refl, omega arith);
}

set_sizes-IsReady_example : (st : State) × (set_sizes two_nodes ≡ some st) × IsReady st
set_sizes-IsReady_example = set_sizes-IsReady two_nodes 8192 two_nodes-IsMachine

abbrev found : Nodes
found = record { nodes = eight; memnodes = eight; highest = pos 3 }

set_task_constraints-IsConstrained_example :
    IsConstrained
      (pos 3)
      (pos 3)
      8
      (set_task_constraints (some status_lines) 8 8 found (pos 3) empty empty)
set_task_constraints-IsConstrained_example =
    set_task_constraints-IsConstrained status_lines 8 8 found (pos 3) empty empty empty-IsValid
      empty_lem (omega arith) (omega arith)

-- The nodes 0, 2 and 3.
read_mask_test : read_mask (codes "00000000,0000000d\n") empty ≡ (pos 3, eight)
unfolding read_mask skip_zeros read_ints strtoul skip_space sign detect_base scan digit pair_ints
    weight for_range getbit
read_mask_test = refl
