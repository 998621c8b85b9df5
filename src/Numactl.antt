-- ===== src/Numactl.antt =====
-- numactl.c: the options of the command, as the loop of `main` handles them one after the other.
-- `getopt_long` is the C library's: the options arrive as data. What `main` calls in libnuma is the
-- model in Policy and Parse; the calls that bind to cpus, and those on shared memory, are an
-- interface. What is printed is left out.
use numactl.Base.{
  ℕ, ◌+◌, ◌%◌, ◌^◌, Bool, true, false, not, ◌&&◌, ◌||◌, List, [], ◌∷◌, Option, some, none, Bytes,
  codes, str_eq, ltb, leb, ◌==◌, if◌then◌else◌,
}
use numactl.Base.Ints.{ℤ, pos, negsuc, is_neg}
use numactl.Bitmask.{Bitmask, weight, find_first}
use numactl.Libnuma.{State}
use numactl.Parse.{
  Result, ok, parse_nodestring, parse_nodestring_all, parse_cpustring, parse_cpustring_all,
}
use numactl.Policy.{Reply, returned, failed, Kernel, Task, Outcome, done, exited, noted}
use numactl.Shm.{Region}
use numactl.Shm.Attach.{Segments, Files}
use numactl.Util.Mpol
pub mod Guards
pub mod Options
pub mod Commands
pub mod Spec
pub mod Refines
pub mod Policies
pub mod Accepts
pub mod Rules
pub mod Settings

-- The options of `opts`, with their arguments; `unknown` is what `getopt_long` does not know.
pub data Opt : Type 0 where
  show hardware balancing local dump dump_nodes strict huge touch verify all cpu_compress : Opt
  version unknown : Opt
  interleave weighted_interleave cpubind physcpubind membind preferred preferred_many : Bytes → Opt
  shm file length shmmode shmid offset : Bytes → Opt

-- The variables of numactl.c, and of `main`, that its conditions read.
pub record Flags : Type 0 where
  pub set_policy : ℤ
  pub attached : Bool
  pub shmattached : Bool
  pub shmoption : Option Bytes
  pub did_node_cpu_parse : Bool
  pub parse_all : Bool
  pub did_cpubind : Bool
  pub did_strict : Bool
  pub do_shm : Bool
  pub do_dump : Bool
  pub do_hardware : Bool
  pub numa_balancing : Bool
  pub weighted : Bool

-- The variables as they are before the first option; `attached` is `shmfd >= 0`.
abbrev pub no_flags : Flags
no_flags = record {
  set_policy = negsuc 0;
  attached = false;
  shmattached = false;
  shmoption = none;
  did_node_cpu_parse = false;
  parse_all = false;
  did_cpubind = false;
  did_strict = false;
  do_shm = false;
  do_dump = false;
  do_hardware = false;
  numa_balancing = false;
  weighted = false;
}

-- The variables that hold data: the region of shared memory, its mode, id and flags, the last list
-- of nodes, the last mask, the exit code of `vwarn`, and the task with its policy; `numa_checked` is
-- whether `checknuma` has returned before, its static `numa`.
pub record Data (W : Type 0) : Type 0 where
  pub task : Task W
  pub region : Region
  pub mode : ℕ
  pub id : ℕ
  pub huge_pages : Bool
  pub last : Option Bytes
  pub mask : Option Bitmask
  pub warned : Bool
  pub compress : Bool
  pub numa_checked : Bool

-- Why the command ends before its options do. `finished` is `exit(0)`.
pub data Exit : Type 0 where
  usage conflicting_policies policy_before_shm cpubind_on_shm must_be_before_shm : Exit
  not_before needs_shm all_after_nodes invalid_list no_numa unsupported failed_call : Exit
  beyond_length cannot_dump nothing_to_verify same_needs_previous finished exited_in_call : Exit

pub data Progress (W A : Type 0) : Type 0 where
  going : A → Flags → Data W → Progress W A
  stopped : Exit → Progress W A

abbrev pub Run : Type 0 → Type 0 → Type 0
Run W A = Flags → Data W → Progress W A

abbrev pub continue : {W A B : Type 0} → Progress W A → (A → Run W B) → Progress W B
continue (going a f d) k = k a f d
continue (stopped r) k = stopped r

abbrev pub pure : {W A : Type 0} → A → Run W A
pure a f d = going a f d

abbrev pub stop : {W A : Type 0} → Exit → Run W A
stop r f d = stopped r

infixl 1 ◌>>=◌
abbrev pub ◌>>=◌ : {W A B : Type 0} → Run W A → (A → Run W B) → Run W B
(m >>= k) f d = continue (m f d) k

infixl 1 ◌>>◌
abbrev pub ◌>>◌ : {W A B : Type 0} → Run W A → Run W B → Run W B
(m >> k) f d = continue (m f d) (λ a. k)

-- What `main` calls besides: the routines that bind to cpus, the lookup of devices, the calls that
-- attach memory, and `dump_shm`, `dump_shm_nodes` and `verify_shm`, which say whether they return.
pub record System (W : Type 0) : Type 0 where
  pub run_on_node_mask_all : Bitmask → W → Reply (Unit {0}) × W
  pub setaffinity : Bitmask → W → Reply (Unit {0}) × W
  pub resolve : Bytes → Bitmask → ℤ × Bitmask
  pub segments : ℕ → ℕ → Bool → Segments
  pub files : ℕ → Files
  pub dump : Region → W → Bool
  pub dump_nodes : Region → W → Bool
  pub verify : Region → ℤ → Bitmask → W → Option Bool
