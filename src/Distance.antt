-- ===== src/Distance.antt =====
-- distance.c: the table of node distances, read from sysfs once, and `numa_distance`.
-- The files /sys/devices/system/node/node*/distance are a function from node numbers to what
-- opening and reading the file gives.
use numactl.Base.{
  ℕ, zero, suc, ◌+◌, ◌-◌, ◌*◌, ◌^◌, ◌<◌, Bool, true, false, not, ◌&&◌, ◌||◌, List, [], ◌∷◌, Option,
  none, some, Bytes, ltb, leb, ◌==◌, if◌then◌else◌, length, get_or, set, replicate,
}
use numactl.Base.Ints.{ℤ, pos, negsuc, to_u32, to_i32}
use numactl.Base.Loops.{find_from}
use numactl.Bitmask.{Bitmask, isbitset}
use numactl.Text.{strtoul}
use numactl.Libnuma.{State, rounds_to}
pub mod Numbers
pub mod Table

-- What `fopen` and `getdelim` make of one file.
pub data File : Type 0 where
  no_entry denied empty_file : File
  line : Bytes → File

-- `distance_numnodes` and `distance_table`, which `none` says is NULL.
pub record Distances : Type 0 where
  pub numnodes : ℕ
  pub table : Option (List ℤ)

-- `while (j<=maxnode && !numa_bitmask_isbitset(numa_nodes_ptr, j)) j++;`, with the rounds to the end.
unfoldable pub skip_unavailable : ℕ → ℕ → Bitmask → ℕ
skip_unavailable zero j nodes = j
skip_unavailable (suc n) j nodes =
    let later = skip_unavailable n (suc j) nodes in if isbitset nodes j then j else later

-- The loop of `parse_numbers`, with `n` rounds left of the `maxnode + 1`, here `width`. The row
-- begins at `base` in the table; `none` is a write outside the table.
unfoldable pub parse_numbers_from : ℕ → ℕ → Bytes → ℕ → ℕ → Bitmask → List ℤ → Option (List ℤ)
parse_numbers_from zero j s base width nodes table = some table
parse_numbers_from (suc n) j s base width nodes table =
    let j' = skip_unavailable (width - j) j nodes in
    elim (strtoul 0 s) [
      | none ↦ some table
      | some (d, end) ↦
          let rest =
            parse_numbers_from n (suc j') end base width nodes (set table (base + j') (to_i32 d)) in
          if ltb (base + j') (length table) then rest else none
    ]

-- `parse_numbers`, for the row of node `nd`.
unfoldable pub parse_numbers : Bytes → ℕ → ℕ → Bitmask → List ℤ → Option (List ℤ)
parse_numbers s nd width nodes table = parse_numbers_from width 0 s (nd * width) width nodes table

abbrev pub blank_table : ℕ → Option (List ℤ) → List ℤ
blank_table width none = replicate (width * width) (pos 0)
blank_table width (some t) = t

-- How the loop over the files ends: `err` with the table read so far, or a write out of bounds.
pub data Scan : Type 0 where
  scanned : ℤ → Option (List ℤ) → Scan
  overrun exhausted : Scan

-- The loop of `read_distance_table`: `width` is `maxnode` there, `ok` says whether `err` is 0.
module _ (files : ℕ → File) (width : ℕ) (nodes : Bitmask) where
  unfoldable pub read_files : ℕ → ℕ → Bool → Option (List ℤ) → Scan
  read_files zero nd ok table = exhausted
  read_files (suc fuel) nd ok table =
      let goes_on = read_files fuel (suc nd) true table in
      let result : Bool → ℤ = λ fine. if fine then pos 0 else negsuc 0 in
      elim (files nd) [
        | no_entry ↦ if ltb nd width then goes_on else scanned (pos 0) table
        | denied ↦
            let still = read_files fuel (suc nd) ok table in
            if ok && ltb nd width then still else scanned (result ok) table
        | empty_file ↦ scanned (result ok) table
        | line s ↦ elim (parse_numbers s nd width nodes (blank_table width table)) [
          | none ↦ overrun
          | some t ↦ read_files fuel (suc nd) ok (some t)
        ]
      ]

-- `read_distance_table` behind its loop: the result, and the table if there was none.
abbrev pub install : ℕ → Distances → Scan → Option (ℤ × Distances)
install width d (scanned (negsuc n) t) = some (negsuc n, d)
install width d (scanned (pos n) t) = elim d.table [
  | some old ↦ some (pos 0, d)
  | none ↦ some (pos 0, record { numnodes = width; table = t })
]
install width d overrun = none
install width d exhausted = none

unfoldable pub read_distance_table : (ℕ → File) → State → ℕ → Distances → Option (ℤ × Distances)
read_distance_table files st fuel d =
    let width = rounds_to st.maxconfigurednode in
    install width d (read_files files width st.nodes_ptr fuel 0 false none)

-- The end of `numa_distance`, with a table.
unfoldable pub lookup_distance : ℤ → ℤ → ℕ → List ℤ → ℤ
lookup_distance a b numnodes table =
    if leb numnodes (to_u32 a) || leb numnodes (to_u32 b)
    then pos 0
    else get_or table (to_u32 a * numnodes + to_u32 b) (pos 0)

abbrev pub distance_in : ℤ → ℤ → Distances → ℤ
distance_in a b d = elim d.table [ none ↦ pos 0 | some t ↦ lookup_distance a b d.numnodes t ]

abbrev pub is_failure : ℤ → Bool
is_failure (pos n) = false
is_failure (negsuc n) = true

-- `numa_distance`: the distance and the table as it is left.
unfoldable pub numa_distance : (ℕ → File) → State → ℕ → ℤ → ℤ → Distances → Option (ℤ × Distances)
numa_distance files st fuel a b d = elim d.table [
  | some t ↦ some (lookup_distance a b d.numnodes t, d)
  | none ↦ elim (read_distance_table files st fuel d) [
    | none ↦ none
    | some (err, d') ↦ some (if is_failure err then pos 0 else distance_in a b d', d')
  ]
]

-- `numa_distance_cleanup`
unfoldable pub distance_cleanup : Distances → Distances
distance_cleanup d = record { numnodes = 0; table = none }
