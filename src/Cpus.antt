-- ===== src/Cpus.antt =====
-- libnuma.c: the cpus of a node, read from sysfs and cached, and running on the cpus of nodes.
-- The files /sys/devices/system/node/node*/cpumap are a function from node numbers to what reading
-- the file gives, and `sched_setaffinity` is a parameter. `numa_error` is taken to return.
use numactl.Base.{
  ℕ, zero, suc, ◌+◌, ◌-◌, ◌/◌, ◌≤◌, ◌<◌, ◌≡◌, Bool, true, false, not, ◌&&◌, ◌||◌, List, [], ◌∷◌,
  ◌++◌, Option, some, none, Bytes, ltb, leb, ◌==◌, if◌then◌else◌, length, get_or, set, take, drop,
  bit_or,
}
use numactl.Base.Ints.{to_i32, ℤ, pos, negsuc, minus_one, is_neg}
use numactl.Base.Loops.{for_range, find_from}
use numactl.Bitmask.{Bitmask, isbitset, setall, clearall, alloc}
use numactl.Bitmask.Copy.{copy_bitmask_to_bitmask}
use numactl.Bitmask.Words.{cpu_longs}
use numactl.Libnuma.{State, rounds_to, allocate_cpumask, num_possible_cpus, num_possible_nodes}
use numactl.Text.{strtoul}
pub mod Running
pub mod Laws

-- `while (p > line && *p != ',') --p;`, with `p` as an index into the line.
unfoldable pub back : ℕ → Bytes → ℕ
back zero line = zero
back (suc p) line =
    let earlier = back p line in if get_or line (suc p) 0 == b',' then suc p else earlier

-- `memmove(p, p+1, n)`
abbrev pub move_down : ℕ → ℕ → Bytes → Bytes
move_down p n line = take p line ++ (take n (drop (p + 1) line) ++ drop (p + n) line)

-- One round of the loop up to the call of `strtoul`: the line, `oldp` and `p`.
pub record Field : Type 0 where
  pub line : Bytes
  pub oldp : ℕ
  pub start : ℕ

abbrev pub skip_comma : ℕ → Bytes → ℕ
skip_comma p line = if get_or line p 0 == b',' then p + 1 else p

unfoldable pub field_before : ℕ → Bytes → Field
field_before p line =
    let p1 = if get_or line p 0 == b',' then p - 1 else p in
    let p2 = back p1 line in
    let oldp = p - 1 in
    let moved = move_down p2 (oldp - p2 + 1) line in
    if ltb 0 p2
    then record { line = moved; oldp = oldp; start = skip_comma (back p2 moved) moved }
    else record { line = line; oldp = p; start = skip_comma p2 line }

-- `endp` and the value of `strtoul(p, &endp, 16)`.
abbrev pub value_and_end : Field → Option (ℕ × Bytes) → ℕ × ℕ
value_and_end f none = (0, f.start)
value_and_end f (some (v, rest)) = (v, length f.line - length rest)

-- The loop of `numa_parse_bitmap`: whether it returns 0, and the mask; `none` is out of fuel. The
-- last `p--` may go below `line`, where the loop ends as at `line`.
unfoldable pub parse_words : ℕ → ℕ → ℕ → Bytes → Bitmask → Option (Bool × Bitmask)
parse_words zero i p line mask = none
parse_words (suc fuel) i p line mask =
    let f = field_before p line in
    let (v, endp) = value_and_end f (strtoul 16 (drop f.start f.line)) in
    let stored = record mask { maskp = set mask.maskp i v } in
    let rest = parse_words fuel (suc i) (f.start - 1) f.line stored in
    if not (ltb 0 p)
    then some (true, mask)
    else if leb (cpu_longs mask.size) i
    then some (false, mask)
    else if not (endp == f.oldp)
    then some (false, stored)
    else rest

-- `numa_parse_bitmap`; the newline is looked for by `strchr`.
abbrev pub parse_to : Bytes → Bitmask → Option ℕ → Option (Bool × Bitmask)
parse_to line mask none = some (false, mask)
parse_to line mask (some p) = parse_words (suc p) 0 p line mask

unfoldable pub parse_bitmap : Bytes → Bitmask → Option (Bool × Bitmask)
parse_bitmap line mask =
    parse_to line mask (find_from (length line) 0 (λ i. get_or line i 0 == b'\n'))

-- What opening and reading a cpumap gives. A read that fails leaves no line.
pub data CpuFile : Type 0 where
  no_line : CpuFile
  text : Bytes → CpuFile

-- `node_cpu_mask_v2` and `node_cpu_mask_v2_stale`
pub record Cache : Type 0 where
  pub masks : List (Option Bitmask)
  pub stale : Bool

-- What a call leaves: its result, the buffer and the cache.
pub record Answer : Type 0 where
  pub err : ℤ
  pub buffer : Bitmask
  pub cache : Cache

abbrev pub answer : ℤ → Bitmask → Cache → Answer
answer e b c = record { err = e; buffer = b; cache = c }

-- The mask read for a node, and whether it is right. (The parser ends: `none` does not occur.)
abbrev pub parsed_or_all : Bitmask → Option (Bool × Bitmask) → Bool × Bitmask
parsed_or_all mask none = (false, setall mask)
parsed_or_all mask (some (true, m)) = (true, m)
parsed_or_all mask (some (false, m)) = (false, setall m)

unfoldable pub read_cpumap : CpuFile → Bitmask → Bool × Bitmask
read_cpumap no_line mask = (false, setall mask)
read_cpumap (text line) mask = parsed_or_all mask (parse_bitmap line mask)

-- How the mask that was read is kept.
abbrev pub keep : Bool → Bool → Bitmask → Option Bitmask → Option Bitmask
keep update fine mask (some old) =
    if update then some (copy_bitmask_to_bitmask mask old) else some old
keep update fine mask none = if fine then some mask else none

abbrev pub read_node : (ℕ → CpuFile) → ℕ → Bool → Bitmask → Cache → Option Bitmask → Answer
read_node files node update buffer c none = answer minus_one buffer c
read_node files node update buffer c (some blank) =
    let (fine, mask) = read_cpumap (files node) blank in
    let kept = keep update fine mask (get_or c.masks node none) in
    answer (if fine then pos 0 else minus_one) (copy_bitmask_to_bitmask mask buffer)
      (record c { masks = set c.masks node kept })

abbrev pub from_cache : Bitmask → Cache → Bitmask → Answer
from_cache buffer c m =
    if ltb buffer.size m.size
    then answer minus_one buffer c
    else answer (pos 0) (copy_bitmask_to_bitmask m buffer) c

abbrev pub cached_or_read :
    (ℕ → CpuFile) → State → ℕ → Bool → Bitmask → Cache → Option Bitmask → Answer
cached_or_read files st node update buffer c none =
    read_node files node update buffer c (allocate_cpumask st)
cached_or_read files st node update buffer c (some m) =
    if not update
    then from_cache buffer c m
    else read_node files node update buffer c (allocate_cpumask st)

-- `numa_node_to_cpus`
unfoldable pub node_to_cpus : (ℕ → CpuFile) → State → ℤ → Bitmask → Cache → Answer
node_to_cpus files st (negsuc n) buffer c = answer minus_one buffer c
node_to_cpus files st (pos node) buffer c =
    if leb (rounds_to st.maxconfigurednode) node
    then answer minus_one buffer c
    else cached_or_read files st node c.stale (clearall buffer) (record c { stale = false })
        (get_or c.masks node none)

-- `numa_node_to_cpu_update`
unfoldable pub node_to_cpu_update : Cache → Cache
node_to_cpu_update c = record c { stale = true }

-- The loop of `numa_node_of_cpu`, with `n` nodes left.
unfoldable pub search_nodes : (ℕ → CpuFile) → State → ℕ → ℕ → ℕ → Bitmask → Cache → ℤ × Cache
search_nodes files st cpu zero node bmp c = (minus_one, c)
search_nodes files st cpu (suc n) node bmp c =
    let a = node_to_cpus files st (pos node) bmp c in
    let rest = search_nodes files st cpu n (suc node) a.buffer a.cache in
    if not (is_neg a.err) && isbitset a.buffer cpu then (pos node, a.cache) else rest

abbrev pub search_in : (ℕ → CpuFile) → State → ℕ → Cache → Option Bitmask → Option (ℤ × Cache)
search_in files st cpu c none = none
search_in files st cpu c (some bmp) =
    some (search_nodes files st cpu (rounds_to st.maxconfigurednode) 0 bmp c)

-- `numa_node_of_cpu`, for a cpu that is not negative; `none` is no mask to look in.
unfoldable pub node_of_cpu : (ℕ → CpuFile) → State → ℕ → Cache → Option (ℤ × Cache)
node_of_cpu files st cpu c =
    if is_neg (to_i32 (num_possible_cpus st)) || ltb (num_possible_cpus st) cpu
    then some (minus_one, c)
    else search_in files st cpu c (alloc (num_possible_cpus st))
