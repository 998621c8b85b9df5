-- ===== src/Tests/Statistics.antt =====
-- The theorems on the tables of numastat with a table of two rows and two columns of numbers; a
-- number is a natural one.
use numactl.Base.{ℕ, ◌+◌, refl, true, false, [], ◌∷◌, some, codes, arith, ltb, ◌==◌, get_or}
use numactl.Numastat.Table.{
  double, string, Doubles, Cell, Table, blank_cell, row_value, sort_rows_descending_by_col,
}
use numactl.Numastat.Table.Cells.{IsTable}
use numactl.Numastat.Selection.Moves.{Swaps}
use numactl.Numastat.Selection.Sort.{IsOrder, Descends}
use numactl.Numastat.Table.Sort.{sort_rows_descending_by_col-Sorts}
use numactl.Numastat.Display.{Options, auto_set_col_width}
use numactl.Numastat.Display.Cells.{WideEnough, auto_set_col_width-WideEnough}
use numactl.Text.{decimal}

abbrev pub naturals : Doubles ℕ
naturals = record {
  zero_double = 0;
  plus = λ a b. a + b;
  less = ltb;
  is_blank = λ a. a == 0;
  reads = λ c. 0;
  print = λ places a. decimal a;
}

naturals-IsOrder : IsOrder (naturals.less)
naturals-IsOrder = record { asym = λ x y h. ground arith; trans = λ x y z h l. ground arith }

abbrev entry_of : ℕ → Cell ℕ
entry_of n = record { content = double n; flags = 0 }

abbrev name : Cell ℕ
name = record { content = string (some (codes "Node")); flags = 0 }

-- A header row, and rows with 5 and 7 in their first column.
abbrev two_rows : Table ℕ
two_rows = record {
  header_rows = 1;
  header_cols = 1;
  data_rows = 2;
  data_cols = 2;
  cell =
      blank_cell
      ∷ name
      ∷ name
      ∷ name
      ∷ entry_of 5
      ∷ entry_of 0
      ∷ name
      ∷ entry_of 7
      ∷ entry_of 0
      ∷ [];
  row_ix_map = 0 ∷ 1 ∷ 2 ∷ [];
  row_flags = 0 ∷ 0 ∷ 0 ∷ [];
  col_flags = 1 ∷ 2 ∷ 2 ∷ [];
  col_width = 6 ∷ 6 ∷ 6 ∷ [];
  col_decimal_places = 0 ∷ 0 ∷ 0 ∷ [];
}

two_rows-IsTable : IsTable two_rows
two_rows-IsTable = record { cells = refl }

sort_rows_descending_by_col-Sorts_example :
    Descends 0
      (naturals.less)
      (row_value naturals two_rows 1)
      ((sort_rows_descending_by_col naturals two_rows 1 2 1).row_ix_map)
      1
      3
      2
    × Swaps 0 1 2
        (0 ∷ 1 ∷ 2 ∷ [])
        ((sort_rows_descending_by_col naturals two_rows 1 2 1).row_ix_map)
sort_rows_descending_by_col-Sorts_example =
    sort_rows_descending_by_col-Sorts naturals naturals-IsOrder two_rows 1 2 1 (omega arith)
      (omega arith)

auto_set_col_width-WideEnough_example :
    WideEnough naturals two_rows 1 2 24
      (get_or ((auto_set_col_width naturals two_rows 1 2 24).col_width) 1 0)
auto_set_col_width-WideEnough_example =
    auto_set_col_width-WideEnough naturals two_rows 1 2 24 (omega arith) (omega arith)

abbrev shown : Options
shown = record {
  screen_width = 80;
  show_unseen_rows = false;
  show_unseen_cols = false;
  show_zero_rows = false;
  show_zero_cols = true;
}
