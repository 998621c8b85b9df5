-- ===== src/Numastat/Display.antt =====
-- numastat.c: `fmt_cell_data`, `auto_set_col_width`, `display_justified_cell` and `display_table`.
-- Widths are below `SMALL_BUF_SIZE`, as `set_col_width` and the callers of `auto_set_col_width` see
-- to, so that the texts fit in their buffers, and a column with repeated characters has one.
use numactl.Base.{
  ℕ, zero, suc, ◌+◌, ◌-◌, ◌*◌, ◌/◌, ◌%◌, ◌^◌, Bool, true, false, not, ◌&&◌, ◌||◌, List, [], ◌∷◌,
  ◌++◌, Option, some, none, Bytes, codes, ltb, leb, ◌==◌, if◌then◌else◌, get_or, set, replicate,
  length, take, bit_and,
}
use numactl.Base.Ints.{ℤ, pos, negsuc}
use numactl.Base.Loops.{for_range}
use numactl.Numastat.Table.{
  Content, null, long, double, string, char8, repchar, Doubles, Cell, Table, all_table_rows,
  all_table_cols, get_cell, set_row_flag, set_col_flag, test_row_flag, test_col_flag, justify_left,
  justify_right, seen_data, non_zero_data, always_show, small_buf_size,
}
use numactl.Text.{decimal}
pub mod Cells
pub mod Lines
pub mod Folding
pub mod Rows
pub mod Sections

-- `%ld`
abbrev pub print_long : ℤ → Bytes
print_long (pos n) = decimal n
print_long (negsuc n) = 45 ∷ decimal (n + 1)

abbrev pub is_repchar : {D : Type 0} → Content D → Bool
is_repchar (repchar c) = true
is_repchar _ = false

abbrev pub is_null_cell : {D : Type 0} → Content D → Bool
is_null_cell null = true
is_null_cell _ = false

abbrev pub spaces : ℕ → Bytes
spaces n = replicate n 32

-- The text of `display_justified_cell` in a cell that is `width` wide.
unfoldable pub justified : ℕ → Bytes → ℕ → Bytes
justified how p width =
    let room = width - length p in
    let before = (room + 1) / 2 in
    if how == justify_left
    then p ++ spaces room
    else if how == justify_right
    then spaces room ++ p
    else spaces before ++ (p ++ spaces (room - before))

-- The arguments of `display_table` besides the table.
pub record Options : Type 0 where
  pub screen_width : ℕ
  pub show_unseen_rows : Bool
  pub show_unseen_cols : Bool
  pub show_zero_rows : Bool
  pub show_zero_cols : Bool

-- A printed line: the header cells of a row, and cells with their columns.
pub record Line : Type 0 where
  pub row : ℕ
  pub headers : List Bytes
  pub cells : List (ℕ × Bytes)

-- What `display_table` prints. `no_row` is where no row is shown, so that the code would go on with
-- a column that is not in the table.
pub data Displayed : Type 0 where
  no_data no_non_zero_data no_row exhausted : Displayed
  sections : List (List Line) → Displayed

module _ {D : Type 0} (doubles : Doubles D) where
  -- `fmt_cell_data`; `%s` of NULL is glibc's.
  unfoldable pub fmt_cell_data : Content D → ℕ → ℕ → Bytes
  fmt_cell_data null max_width places = []
  fmt_cell_data (long l) max_width places = take max_width (print_long l)
  fmt_cell_data (double d) max_width places =
      take max_width (take (small_buf_size - 1) (doubles.print places d))
  fmt_cell_data (string none) max_width places = take max_width (codes "(null)")
  fmt_cell_data (string (some s)) max_width places = take max_width (take (small_buf_size - 1) s)
  fmt_cell_data (char8 s) max_width places = take max_width (take 8 s)
  fmt_cell_data (repchar c) max_width places = replicate (max_width - 1) c

  abbrev pub text_at : Table D → ℕ → ℕ → ℕ → Bytes
  text_at table row col width =
      fmt_cell_data ((get_cell table row col).content) width (get_or table.col_decimal_places col 0)

  -- The loop of `auto_set_col_width`.
  unfoldable pub widest : Table D → ℕ → ℕ → ℕ → ℕ
  widest table col max_width min_width =
      for_range (all_table_rows table) 0
        (λ row width.
          let l = length (text_at table row col max_width) in
          if not (is_repchar ((get_cell table row col).content)) && ltb width l then l else width)
        min_width

  -- `auto_set_col_width`
  unfoldable pub auto_set_col_width : Table D → ℕ → ℕ → ℕ → Table D
  auto_set_col_width table col min_width max_width =
      let width = widest table col max_width min_width + 1 in
      record table {
        col_width =
            set table.col_width col ((if ltb max_width width then max_width else width) % 2 ^ 8);
      }

  -- `display_justified_cell`
  unfoldable pub display_justified_cell : Table D → ℕ → ℕ → Bytes
  display_justified_cell table row col =
      let width = get_or table.col_width col 0 in
      justified (bit_and (get_or table.col_flags col 0) 3) (text_at table row col width) width

  -- `c_ptr->l != 0`
  abbrev pub is_non_zero : Content D → Bool
  is_non_zero null = false
  is_non_zero (long (pos zero)) = false
  is_non_zero (long i) = true
  is_non_zero (double d) = not (doubles.is_blank d)
  is_non_zero (string none) = false
  is_non_zero (string (some s)) = true
  is_non_zero (char8 s) = some_byte s
    where
      some_byte : Bytes → Bool
      some_byte [] = false
      some_byte (c ∷ s) = not (c == 0) || some_byte s
  is_non_zero (repchar c) = not (c == 0)

  -- The state of the first loop of `display_table`: the table, and whether there is data, and data
  -- other than 0.
  abbrev pub Marked : Type 0
  Marked = Table D × Bool × Bool

  abbrev pub mark_if : Bool → ℕ → ℕ → ℕ → Table D → Table D
  mark_if b row col flag table =
      if b then set_col_flag (set_row_flag table row flag) col flag else table

  abbrev pub mark_cell : ℕ → ℕ → Marked → Marked
  mark_cell row col (table, seen, non_zero) =
      let c = (get_cell table row col).content in
      let s = not (is_null_cell c || is_repchar c) in
      let n = s && is_non_zero c in
      (
        mark_if n row col non_zero_data (mark_if s row col seen_data table),
        s || seen,
        n || non_zero,
      )

  unfoldable pub mark_data : Table D → Marked
  mark_data table =
      for_range table.data_rows table.header_rows
        (λ row. for_range table.data_cols table.header_cols (mark_cell row)) (table, false, false)

  module _ (options : Options) (table : Table D) where
    -- Whether a column or a row is shown.
    unfoldable pub shows_col : ℕ → Bool
    shows_col col =
        test_col_flag table col always_show
        || ((options.show_unseen_cols || test_col_flag table col seen_data)
            && (options.show_zero_cols || test_col_flag table col non_zero_data))

    unfoldable pub shows_row : ℕ → Bool
    shows_row row =
        ltb row table.header_rows
        || test_row_flag table row always_show
        || ((options.show_unseen_rows || test_row_flag table row seen_data)
            && (options.show_zero_rows || test_row_flag table row non_zero_data))

    abbrev pub width_at : ℕ → ℕ
    width_at col = get_or table.col_width col 0

    abbrev pub with_cell : Bool → ℕ → Bytes → List (ℕ × Bytes) × ℕ → List (ℕ × Bytes) × ℕ
    with_cell b col text (cells, end) = (if b then (col, text) ∷ cells else cells, end)

    -- The loop over the columns of a line that is `width` wide so far: its cells, and where it ends.
    unfoldable pub line_from : ℕ → ℕ → ℕ → ℕ → List (ℕ × Bytes) × ℕ
    line_from zero row col width = ([], col)
    line_from (suc rounds) row col width =
        let wide = if shows_col col then width + width_at col else width in
        let rest = line_from rounds row (col + 1) wide in
        with_cell (shows_col col) col (display_justified_cell table row col) (
          if leb (all_table_cols table) (col + 1)
            || ltb options.screen_width (wide + width_at (col + 1))
          then ([], col + 1)
          else rest)

    unfoldable pub header_cells : ℕ → List Bytes
    header_cells row =
        for_range table.header_cols 0
          (λ col cells. cells ++ (display_justified_cell table row col ∷ [])) []

    abbrev pub header_width : ℕ
    header_width = for_range table.header_cols 0 (λ col width. width + width_at col) 0

    abbrev pub with_line : Line → List Line × ℤ → List Line × ℤ
    with_line line (lines, end) = (line ∷ lines, end)

    -- The loop over the rows of a section; `col` is the column where the last line has ended.
    unfoldable pub lines_from : ℕ → List ℕ → ℤ → List Line × ℤ
    lines_from data_col [] col = ([], col)
    lines_from data_col (row ∷ rows) col =
        let skipped = lines_from data_col rows col in
        let cells = line_from (all_table_cols table - data_col) row data_col header_width in
        let later = lines_from data_col rows (pos (cells.1)) in
        if not (shows_row row)
        then skipped
        else with_line (record { row = row; headers = header_cells row; cells = cells.0 }) later

    abbrev pub with_section : List Line → Displayed → Displayed
    with_section lines (sections rest) = sections (lines ∷ rest)
    with_section lines d = d

    abbrev pub section_then : (ℕ → ℤ → Displayed) → List Line × ℤ → Displayed
    section_then loop (lines, pos end) = with_section lines (loop end (pos end))
    section_then loop (lines, negsuc n) = no_row

    -- The loop over the sections.
    unfoldable pub sections_from : ℕ → ℕ → ℤ → Displayed
    sections_from zero data_col col = exhausted
    sections_from (suc fuel) data_col col =
        let skipped = sections_from fuel (data_col + 1) col in
        let shown = section_then (sections_from fuel) (lines_from data_col table.row_ix_map col) in
        if leb (all_table_cols table) data_col
        then sections []
        else if not (shows_col data_col)
        then skipped
        else shown

  abbrev pub display_marked : Options → Marked → Displayed
  display_marked options (table, seen, non_zero) =
      if not seen
      then no_data
      else if not (non_zero || options.show_zero_rows || options.show_zero_cols)
      then no_non_zero_data
      else sections_from options table (suc (all_table_cols table)) table.header_cols (negsuc 0)

  -- `display_table`, without the blank lines between sections.
  unfoldable pub display_table : Options → Table D → Displayed
  display_table options table = display_marked options (mark_data table)
