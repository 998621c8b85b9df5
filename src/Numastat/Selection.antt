-- ===== src/Numastat/Selection.antt =====
-- numastat.c: the selection sort, which is written out twice: for the rows of a table in
-- `sort_rows_descending_by_col`, and for the node numbers in `init_node_ix_map_and_header`.
use numactl.Base.{
  ℕ, zero, suc, ◌+◌, ◌-◌, ◌==◌, Bool, true, false, not, List, if◌then◌else◌, get_or, set,
}
pub mod Moves
pub mod Sort

-- `less` is the comparison, of the values of the entries; `blank` is never read.
module _ {A : Type 0} (blank : A) where
  abbrev pub swap : List A → ℕ → ℕ → List A
  swap map i j = set (set map i (get_or map j blank)) j (get_or map i blank)

module _ {A D : Type 0} (blank : A) (less : D → D → Bool) where
  -- The inner loop: the index of the biggest value from `iy` on.
  unfoldable pub biggest_from : (A → D) → List A → ℕ → ℕ → ℕ → ℕ
  biggest_from value map zero iy biggest = biggest
  biggest_from value map (suc rounds) iy biggest = biggest_from value map rounds (iy + 1) (
      if less (value (get_or map biggest blank)) (value (get_or map iy blank)) then iy else biggest)

  -- The outer loop, from `ix` to `stop`.
  unfoldable pub sort_from : (A → D) → ℕ → ℕ → ℕ → List A → List A
  sort_from value stop zero ix map = map
  sort_from value stop (suc rounds) ix map =
      let biggest = biggest_from value map (stop - ix) (ix + 1) ix in
      sort_from value stop rounds (ix + 1)
        (if not (biggest == ix) then swap blank map ix biggest else map)
