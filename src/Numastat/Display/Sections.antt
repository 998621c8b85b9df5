-- ===== src/Numastat/Display/Sections.antt =====
-- numastat.c: the sections of `display_table`.
use numactl.Base.{ℕ, ◌+◌, ◌≤◌, ◌≡◌, Bool, false, List, [], ◌∷◌}
use numactl.Numastat.Table.{Doubles, Table, all_table_cols}
use numactl.Numastat.Display.{
  Options, Line, Displayed, sections, exhausted, no_row, shows_col, no_data, no_non_zero_data,
}
use numactl.Numastat.Display.Rows.{section_lines, FoldsAt}

module _ {D : Type 0} (doubles : Doubles D) (options : Options) (table : Table D) where
  -- The sections from a column on: hidden columns are passed, and each section has a line for each row
  -- that is shown, for one column at least, up to where the next column does not fit the screen.
  pub data Tiles : ℕ → List (List Line) → Type 0 where
    all_done : {col : ℕ} → all_table_cols table ≤ col → Tiles col []
    hidden :
        {col : ℕ} {rest : List (List Line)}
        → shows_col doubles options table col ≡ false
        → Tiles (col + 1) rest
        → Tiles col rest
    section :
        {col : ℕ} {lines : List Line} {rest : List (List Line)} (n : ℕ)
        → 1 ≤ n
        → col + n ≤ all_table_cols table
        → (FoldsAt doubles options table) col n
        → lines ≡ (section_lines doubles options table) col n table.row_ix_map
        → Tiles (col + n) rest
        → Tiles col (lines ∷ rest)

  -- A result that has all columns from `col` on.
  abbrev pub Shows : ℕ → Displayed → Type 0
  Shows col d = (rest : List (List Line)) × (d ≡ sections rest) × Tiles col rest

-- What `display_table` prints for a table that is marked: that there is no data, or none but 0, and
-- that is so; or sections that have every data column that is shown, once and in order.
abbrev pub IsDisplay :
    {D : Type 0} → Doubles D → Options → Table D × Bool × Bool → Displayed → Type 0
IsDisplay doubles options (table, seen, non_zero) no_data = seen ≡ false
IsDisplay doubles options (table, seen, non_zero) no_non_zero_data = non_zero ≡ false
IsDisplay doubles options (table, seen, non_zero) (sections rest) =
    Tiles doubles options table table.header_cols rest
IsDisplay doubles options (table, seen, non_zero) no_row = ⊥
IsDisplay doubles options (table, seen, non_zero) exhausted = ⊥
