-- ===== src/Numastat/Table/Sort.antt =====
-- numastat.c, `sort_rows_descending_by_col`: the rows are rearranged, in descending order.
use numactl.Base.{ℕ, ◌+◌, ◌-◌, ◌≤◌, ◌<◌, arith, length}
use numactl.Numastat.Selection.Moves.{Swaps}
use numactl.Numastat.Selection.Sort.{IsOrder, Descends, sort_from-Sorts}
use numactl.Numastat.Table.{Doubles, Table, row_value, sort_rows_descending_by_col}

module _ {D : Type 0} (doubles : Doubles D) where
  -- If the numbers are ordered by `<` as numbers other than NaN are, and the rows from `start` to
  -- `stop` are in the table, then sorting leaves the list of rows rearranged by swaps from `start` to
  -- `stop`, and in descending order of the numbers in the column from `start` to `stop`.
  pub sort_rows_descending_by_col-Sorts :
      IsOrder doubles.less
      → (table : Table D) (start stop col : ℕ) → start ≤ stop
      → stop < length table.row_ix_map
      → Descends 0 doubles.less
          (row_value doubles table col)
          ((sort_rows_descending_by_col doubles table start stop col).row_ix_map)
          start
          (stop + 1)
          stop
        × Swaps 0 start stop table.row_ix_map
            ((sort_rows_descending_by_col doubles table start stop col).row_ix_map)
  unfolding sort_rows_descending_by_col
  sort_rows_descending_by_col-Sorts order table start stop col h s =
      sort_from-Sorts 0 doubles.less order (row_value doubles table col) start stop
        (stop + 1 - start) start table.row_ix_map (omega arith) (omega (arith, h)) s
        (λ i j q l. absurd (omega (arith, q, l)))
