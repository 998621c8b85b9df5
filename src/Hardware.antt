-- ===== src/Hardware.antt =====
-- numactl.c: `print_node_cpus`, which `hardware` calls for each node, plainly and under
-- `--cpu-compress`. What is printed is a text.
use numactl.Base.{
  ℕ, zero, suc, ◌+◌, ◌-◌, ◌<◌, Bool, true, false, not, ◌&&◌, List, [], ◌∷◌, ◌++◌, Bytes, codes, ltb,
  ◌==◌, if◌then◌else◌,
}
use numactl.Bitmask.{Bitmask, isbitset}
use numactl.Text.{decimal}
pub mod Runs
pub mod RoundTrip

-- `while (i < cpus->size && numa_bitmask_isbitset(cpus, i)) i++;` with the rounds to the size:
-- where a run of bits that begins at `i` ends.
unfoldable pub run_end : ℕ → ℕ → Bitmask → ℕ
run_end zero i cpus = i
run_end (suc n) i cpus = let later = run_end n (suc i) cpus in if isbitset cpus i then later else i

-- `printf(" %d", start)` or `printf(" %d-%d", start, end)`, in front of what is printed next.
unfoldable pub print_segment : ℕ → ℕ → Bytes → Bytes
print_segment start end next =
    if start == end
    then b' ' ∷ (decimal start ++ next)
    else b' ' ∷ (decimal start ++ (b'-' ∷ (decimal end ++ next)))

-- `printf(" (%d)\n", count)`
unfoldable pub print_count : ℕ → Bytes
print_count count = codes " (" ++ (decimal count ++ codes ")\n")

-- The loop under `--cpu-compress`, with one unit of fuel for each bit that is left.
unfoldable pub print_compressed : ℕ → ℕ → Bool → ℕ → Bitmask → Bytes
print_compressed zero i segment count cpus = print_count count
print_compressed (suc fuel) i segment count cpus =
    let end = run_end (cpus.size - i) i cpus in
    let skip = print_compressed fuel (i + 1) segment count cpus in
    let next = print_compressed fuel end true (count + (end - 1 - i + 1)) cpus in
    if not (ltb i cpus.size)
    then print_count count
    else if end == i
    then skip
    else if segment
    then b',' ∷ print_segment i (end - 1) next
    else print_segment i (end - 1) next

-- The loop without it.
unfoldable pub print_plain : ℕ → ℕ → Bitmask → Bytes
print_plain zero i cpus = codes "\n"
print_plain (suc fuel) i cpus =
    let next = print_plain fuel (i + 1) cpus in
    if isbitset cpus i then b' ' ∷ (decimal i ++ next) else next

-- What `print_node_cpus` prints of the mask that `numa_node_to_cpus` has filled.
unfoldable pub print_node_cpus : Bool → Bitmask → Bytes
print_node_cpus cpu_compress cpus =
    if cpu_compress then print_compressed cpus.size 0 false 0 cpus else print_plain cpus.size 0 cpus
