-- ===== src/Tests/Kernels.antt =====
-- The theorems on policies and on the cpus of nodes, with a kernel that keeps the last policy set
-- and the file of one node.
use numactl.Base.{ℕ, ◌≡◌, ◌≢◌, refl, true, List, [], ◌∷◌, some, none, codes, arith, replicate}
use numactl.Base.Ints.{pos}
use numactl.Bitmask.{setbit, bitmask_setbit, alloc}
use numactl.Cpus.{CpuFile, text, Cache, parse_bitmap}
use numactl.Cpus.Laws.{parse_bitmap-ends}
use numactl.Libnuma.{allocate_nodemask}
use numactl.Policy.{returned, Kernel, Task, done, ◌>>◌}
use numactl.Policy.Preferred.{set_preferred, numa_preferred}
use numactl.Policy.Laws.{Keeps, numa_preferred-set_preferred}
use numactl.Tests.Masks.{eight}
use numactl.Tests.Strings.{machine, machine-IsReady, empty}

-- The last policy and its mask.
abbrev pub Kept : Type 0
Kept = ℕ × List ℕ

abbrev pub keeper : Kernel Kept
keeper = record {
  set_mempolicy = λ mode words size w. (returned tt, (mode, words));
  get_mempolicy = λ size flags w. (returned w, w);
  mbind = λ mem size mode words bits flags w. (returned tt, w);
  mmap = λ size w. (returned 4096, w);
  munmap = λ mem size w. w;
}

abbrev pub task : Task Kept
task = record {
  world = (0, []);
  bind_policy = 2;
  mbind_flags = 0;
  has_preferred_many = pos 1;
  errno = 0;
}

keeper-Keeps : (mode : ℕ) (words : List ℕ) → Keeps keeper mode words 8 (0, []) (mode, words)
keeper-Keeps mode words = record { accepted = refl; queried = refl }

numa_preferred-set_preferred_example :
    (set_preferred keeper true machine (pos 2) >> numa_preferred keeper true machine) task
    ≡ done (some (pos 2)) (record task { world = (1, 4 ∷ []) })
unfolding allocate_nodemask alloc bitmask_setbit setbit
numa_preferred-set_preferred_example =
    numa_preferred-set_preferred keeper true machine 2 empty task (1, 4 ∷ []) machine-IsReady
      (omega arith) refl (keeper-Keeps 1 (4 ∷ []))

parse_bitmap-ends_example : parse_bitmap (codes "00000000,0000000d\n") eight ≢ none
parse_bitmap-ends_example = parse_bitmap-ends (codes "00000000,0000000d\n") eight

abbrev files : ℕ → CpuFile
files node = text (codes "0d\n")

abbrev unread : Cache
unread = record { masks = replicate 8 none; stale = true }
