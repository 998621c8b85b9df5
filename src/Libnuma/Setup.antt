-- ===== src/Libnuma/Setup.antt =====
-- libnuma.c: `set_sizes` and what it calls, which fill the static state. The files and calls that
-- they read are a record: the lines of /proc/self/status, the names in /sys/devices/system/node, and
-- what `get_mempolicy`, `sched_getaffinity` and `sysconf` say. The variables have their first values.
use numactl.Base.{
  ℕ, zero, suc, ◌+◌, ◌*◌, Bool, true, false, not, ◌&&◌, ◌||◌, List, [], ◌∷◌, Option, some, none,
  Bytes, codes, ltb, leb, ◌==◌, if◌then◌else◌, drop,
}
use numactl.Base.Ints.{ℤ, pos, negsuc, to_i32, to_u32}
use numactl.Bitmask.{Bitmask, bitmask_setbit}
use numactl.Text.{strtoul, within}

-- `sched_getaffinity` with a mask of some bits: the bytes of the kernel's mask, or an error, which
-- is EINVAL where the mask is too small.
pub data Affinity : Type 0 where
  bytes : ℕ → Affinity
  too_small other_error : Affinity

pub record Machine : Type 0 where
  pub status : Option (List Bytes)
  pub refuses_size : ℕ → Bool
  pub node_entries : Option (List Bytes)
  pub affinity : ℕ → Affinity
  pub cpus : ℤ

-- `is_digit`
abbrev pub is_hex_digit : ℕ → Bool
is_hex_digit c = within b'0' b'9' c || within b'a' b'f' c || within b'A' b'F' c

-- `strprefix`, and `strncmp` with the length of the prefix.
unfoldable pub strprefix : Bytes → Bytes → Bool
strprefix s [] = true
strprefix [] (c ∷ pre) = false
strprefix (d ∷ s) (c ∷ pre) = d == c && strprefix s pre

-- The digits of a line behind the prefix.
unfoldable pub count_digits : Bytes → ℕ
count_digits [] = 0
count_digits (c ∷ s) =
    let rest = count_digits s in if c == b'\n' then 0 else if is_hex_digit c then suc rest else rest

-- The loop of `set_nodemask_size` over the lines: `digit_len` and `nodemask_sz`.
unfoldable pub read_size : List Bytes → ℕ → ℕ → ℕ
read_size [] digit_len size = size
read_size (line ∷ lines) digit_len size =
    let digits = digit_len + count_digits (drop 14 line) in
    if strprefix line (codes "Mems_allowed:\t")
    then read_size lines digits (digits * 4)
    else read_size lines digit_len size

-- The fallback doubles the size until `get_mempolicy` takes it, at most to 2^15.
unfoldable pub double_size : ℕ → (ℕ → Bool) → ℕ → ℕ
double_size zero refuses size = size
double_size (suc rounds) refuses size =
    let more = double_size rounds refuses (size * 2) in
    if refuses (size * 2) && ltb (size * 2) (4096 * 8) then more else size * 2

abbrev pub size_in : Option (List Bytes) → ℕ
size_in none = 0
size_in (some lines) = read_size lines 0 0

-- `set_nodemask_size`; 11 doublings of 16 lead to 2^15.
unfoldable pub set_nodemask_size : Machine → ℕ
set_nodemask_size m =
    let size = size_in m.status in if size == 0 then double_size 11 m.refuses_size 16 else size

-- `nodes_ptr`, `memnode_ptr` and `maxconfigurednode`.
pub record Nodes : Type 0 where
  pub nodes : Bitmask
  pub memnodes : Bitmask
  pub highest : ℤ

abbrev pub value_of : Option (ℕ × Bytes) → ℕ
value_of none = 0
value_of (some (v, end)) = v

abbrev pub max_int : ℤ → ℤ → ℤ
max_int (pos a) (pos b) = if ltb a b then pos b else pos a
max_int (pos a) (negsuc b) = pos a
max_int (negsuc a) (pos b) = pos b
max_int (negsuc a) (negsuc b) = if ltb b a then negsuc b else negsuc a

abbrev pub add_node : ℤ → Nodes → Nodes
add_node nd found = record {
  nodes = bitmask_setbit found.nodes (to_u32 nd);
  memnodes = bitmask_setbit found.memnodes (to_u32 nd);
  highest = max_int found.highest nd;
}

-- The loop of `set_configured_nodes` over the entries of the directory.
unfoldable pub read_entries : List Bytes → Nodes → Nodes
read_entries [] found = found
read_entries (name ∷ names) found =
    if not (strprefix name (codes "node"))
    then read_entries names found
    else read_entries names (add_node (to_i32 (value_of (strtoul 0 (drop 4 name)))) found)

-- `set_configured_nodes`, with the masks that were allocated.
abbrev pub entries_or_none : Option (List Bytes) → Nodes → Nodes
entries_or_none none found = record found { highest = pos 0 }
entries_or_none (some names) found = read_entries names found

unfoldable pub set_configured_nodes : Machine → Bitmask → Nodes
set_configured_nodes m blank =
    entries_or_none m.node_entries (record { nodes = blank; memnodes = blank; highest = negsuc 0 })

-- The loop of `set_numa_max_cpu`: it ends with -1 bytes where also 2^20 bits are too few.
abbrev pub after_affinity : ℤ → Bool → Affinity → ℤ
after_affinity more last (bytes n) = pos (n * 8)
after_affinity more last other_error = pos (128 * 8)
after_affinity more last too_small = if last then negsuc 7 else more

unfoldable pub size_from : ℕ → (ℕ → Affinity) → ℕ → ℤ
size_from zero affinity len = negsuc 7
size_from (suc rounds) affinity len =
    let more = size_from rounds affinity (len * 2) in
    after_affinity more (leb (1024 * 1024) len) (affinity len)

-- `set_numa_max_cpu`; 8 doublings of 4096 lead to 2^20.
unfoldable pub set_numa_max_cpu : Machine → ℤ
set_numa_max_cpu m = size_from 9 m.affinity 4096

-- `n - 1`
abbrev pub one_less : ℤ → ℤ
one_less (pos zero) = negsuc 0
one_less (pos (suc n)) = pos n
one_less (negsuc n) = negsuc (suc n)

abbrev is_minus_one : ℤ → Bool
is_minus_one (pos n) = false
is_minus_one (negsuc n) = n == 0

-- `set_configured_cpus`: `maxconfiguredcpu`, and whether `numa_error` is called. As `sysconf` says -1
-- where it fails, -2 is stored then, and `numa_error` is not called.
abbrev pub set_configured_cpus : Machine → ℤ × Bool
set_configured_cpus m = let n = one_less m.cpus in (n, is_minus_one n)
