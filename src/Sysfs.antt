-- ===== src/Sysfs.antt =====
-- sysfs.c: a file of node numbers, which is read into a mask. What `open` and `read` give is an
-- argument: the bytes of the file, or none where they fail.
use numactl.Base.{
  ℕ, zero, suc, ◌+◌, ◌-◌, ◌%◌, ◌^◌, ◌≤◌, Bool, true, false, not, ◌&&◌, ◌||◌, List, [], ◌∷◌, Option,
  some, none, Bytes, ltb, leb, ◌==◌, if◌then◌else◌, length, take,
}
use numactl.Base.Ints.{ℤ, pos, negsuc, minus_one, is_neg, to_i32, pos_part}
use numactl.Bitmask.{Bitmask, bitmask_setbit}
use numactl.Text.{isspace, isdigit, first_byte, strtol}
pub mod Laws

-- `sysfs_read`: an empty file is none, and what does not fit in the buffer is left out.
abbrev pub sysfs_read : Option Bytes → Option Bytes
sysfs_read none = none
sysfs_read (some []) = none
sysfs_read (some (c ∷ s)) = some (take 4095 (c ∷ s))

-- `while (isspace(*m) || *m == ',') m++;`
unfoldable pub skip_separators : Bytes → Bytes
skip_separators [] = []
skip_separators (c ∷ s) = if isspace c || c == b',' then skip_separators s else c ∷ s

-- `num >= numa_num_task_nodes()` for an `int` that is not negative.
abbrev pub reaches : ℕ → ℤ → Bool
reaches num (pos n) = leb n num
reaches num (negsuc n) = true

-- A number of the file, and what is done behind it.
abbrev pub node_read :
    ℤ
    → (Bitmask → Bytes → Option (ℤ × Bitmask))
    → Bitmask
    → Option (ℕ × Bytes)
    → Option (ℤ × Bitmask)
node_read tasks loop mask none = some (minus_one, mask)
node_read tasks loop mask (some (v, end)) =
    let num = to_i32 v in
    let m = skip_separators end in
    let mask' = bitmask_setbit mask (pos_part num) in
    if is_neg num
    then some (negsuc 1, mask)
    else if reaches (pos_part num) tasks
    then some (minus_one, mask)
    else if isdigit (first_byte m)
    then loop mask' m
    else some (pos 0, mask')

-- The loop of `sysfs_node_read`; `none` is out of fuel.
unfoldable pub read_nodes : ℕ → ℤ → Bitmask → Bytes → Option (ℤ × Bitmask)
read_nodes zero tasks mask m = none
read_nodes (suc fuel) tasks mask m = node_read tasks (read_nodes fuel tasks) mask (strtol 0 m)

abbrev pub read_buffer : ℤ → Bitmask → Option Bytes → Option (ℤ × Bitmask)
read_buffer tasks mask none = some (minus_one, mask)
read_buffer tasks mask (some p) = read_nodes (suc (length p)) tasks mask p

-- `sysfs_node_read`: its result and the mask. A number is compared with the count of the task's
-- nodes, `tasks`.
unfoldable pub sysfs_node_read : ℤ → Bitmask → Option Bytes → Option (ℤ × Bitmask)
sysfs_node_read tasks mask file = read_buffer tasks mask (sysfs_read file)
