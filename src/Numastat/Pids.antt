-- ===== src/Numastat/Pids.antt =====
-- numastat.c: the processes to show. `realloc` is a parameter: whether it gives memory for so many
-- processes; so is `qsort`.
use numactl.Base.{
  ℕ, zero, suc, ◌+◌, ◌-◌, ◌*◌, ◌^◌, Bool, true, false, not, ◌&&◌, List, [], ◌∷◌, ◌++◌, Option, some,
  none, Bytes, ltb, ◌==◌, if◌then◌else◌, length, get_or, set, take,
}
use numactl.Base.Ints.{ℤ, pos, negsuc, to_i32, to_u32, int_eq}
use numactl.Text.{isdigit, strtol}
pub mod Lists
pub mod Loop
pub mod Unique

-- `ascending`: the difference of two ints, as it wraps around.
abbrev pub ascending : ℤ → ℤ → ℤ
ascending p1 p2 = to_i32 (to_u32 p1 + (2 ^ 32 - to_u32 p2))

-- `all_digits`
unfoldable pub all_digits : Option Bytes → Bool
all_digits none = false
all_digits (some []) = true
all_digits (some (c ∷ s)) = if not (isdigit c) then false else all_digits (some s)

-- `pid_array` up to `num_pids`, and `pid_array_max_pids`; `room` counts the elements of the memory
-- at `pid_array`.
pub record Pids : Type 0 where
  pub pid_array : List ℤ
  pub max_pids : ℕ
  pub room : ℕ

-- The variables as the program starts.
abbrev pub no_pids : Pids
no_pids = record { pid_array = []; max_pids = 0; room = 0 }

-- `pid_array[num_pids++] = pid`; `none` is a write past the memory.
abbrev pub append_pid : ℤ → Pids → Option Pids
append_pid pid pids =
    if ltb (length pids.pid_array) pids.room
    then some (record pids { pid_array = pids.pid_array ++ (pid ∷ []) })
    else none

-- `add_pid_to_list`
unfoldable pub add_pid_to_list : (ℕ → Bool) → ℤ → Pids → Option Pids
add_pid_to_list realloc pid pids =
    let start = if pids.max_pids == 0 then 32 else pids.max_pids in
    let double = 2 * start in
    if ltb (length pids.pid_array) pids.max_pids
    then append_pid pid pids
    else if realloc double
    then append_pid pid (record pids { max_pids = double; room = double })
    else some (record pids { max_pids = start })

abbrev pub added : (Pids → Option Pids) → Option Pids → Option Pids
added more none = none
added more (some pids) = more pids

-- One call behind the other.
unfoldable pub add_pids : (ℕ → Bool) → List ℤ → Pids → Option Pids
add_pids realloc [] pids = some pids
add_pids realloc (pid ∷ rest) pids =
    added (add_pids realloc rest) (add_pid_to_list realloc pid pids)

-- The loop of `sort_pids_and_remove_duplicates`: `ix1` and the array at its end.
unfoldable pub remove_duplicates : ℕ → ℕ → ℕ → List ℤ → ℕ × List ℤ
remove_duplicates zero ix2 ix1 array = (ix1, array)
remove_duplicates (suc rounds) ix2 ix1 array =
    let here = get_or array ix2 (pos 0) in
    let kept = if ltb (ix1 + 1) ix2 then set array (ix1 + 1) here else array in
    let skip = remove_duplicates rounds (ix2 + 1) ix1 array in
    let next = remove_duplicates rounds (ix2 + 1) (ix1 + 1) kept in
    if int_eq here (get_or array ix1 (pos 0)) then skip else next

-- `sort_pids_and_remove_duplicates`
unfoldable pub sort_pids_and_remove_duplicates : (List ℤ → List ℤ) → List ℤ → List ℤ
sort_pids_and_remove_duplicates qsort pids =
    let (ix1, array) = remove_duplicates (length pids - 1) 1 0 (qsort pids) in
    if ltb 1 (length pids) then take (ix1 + 1) array else pids
