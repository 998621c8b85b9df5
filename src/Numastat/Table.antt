-- ===== src/Numastat/Table.antt =====
-- numastat.c: the table (`struct vtab`), the assignments to its cells and the flags, widths and
-- decimal places of its columns, and the sorting of its rows. Arithmetic on `double` is an interface.
use numactl.Base.{
  ℕ, zero, suc, ◌+◌, ◌-◌, ◌*◌, ◌/◌, ◌%◌, ◌^◌, Bool, true, false, not, ◌&&◌, ◌||◌, List, [], ◌∷◌,
  ◌++◌, Option, some, none, Bytes, ltb, leb, ◌==◌, if◌then◌else◌, get_or, set, replicate, length,
  take, bit_and, bit_or,
}
use numactl.Base.Ints.{ℤ, pos, negsuc}
use numactl.Numastat.Selection.{sort_from}
use numactl.Base.Loops.{for_range}
pub mod Sort
pub mod Cells

-- The CELL_TYPE constants.
pub data CellType : Type 0 where
  null_type long_type double_type string_type char8_type repchar_type : CellType

-- What a cell holds: its type with the member of the union that was written last.
pub data Content (D : Type 0) : Type 0 where
  null : Content D
  long : ℤ → Content D
  double : D → Content D
  string : Option Bytes → Content D
  char8 : Bytes → Content D
  repchar : ℕ → Content D

-- What the table needs of `double`: 0, addition, the test `<`, whether the bits are all 0, and the
-- number that the bytes of another member of the union are.
pub record Doubles (D : Type 0) : Type 0 where
  pub zero_double : D
  pub plus : D → D → D
  pub less : D → D → Bool
  pub is_blank : D → Bool
  pub reads : Content D → D
  pub print : ℕ → D → Bytes

-- `struct cell`
pub record Cell (D : Type 0) : Type 0 where
  pub content : Content D
  pub flags : ℕ

-- `struct vtab`; the cells are one vector, row after row.
pub record Table (D : Type 0) : Type 0 where
  pub header_rows : ℕ
  pub header_cols : ℕ
  pub data_rows : ℕ
  pub data_cols : ℕ
  pub cell : List (Cell D)
  pub row_ix_map : List ℕ
  pub row_flags : List ℕ
  pub col_flags : List ℕ
  pub col_width : List ℕ
  pub col_decimal_places : List ℕ

abbrev pub justify_left : ℕ
justify_left = 1

abbrev pub justify_right : ℕ
justify_right = 2

abbrev pub seen_data : ℕ
seen_data = 4

abbrev pub non_zero_data : ℕ
non_zero_data = 8

abbrev pub always_show : ℕ
always_show = 16

-- `SMALL_BUF_SIZE`
abbrev pub small_buf_size : ℕ
small_buf_size = 128

-- `width`, or `SMALL_BUF_SIZE - 1` where that is less
abbrev limited_width : ℕ → ℕ
limited_width width = if leb small_buf_size width then small_buf_size - 1 else width

abbrev pub blank_cell : {D : Type 0} → Cell D
blank_cell = record { content = null; flags = 0 }

abbrev pub or_at : List ℕ → ℕ → ℕ → List ℕ
or_at flags i flag = set flags i (bit_or (get_or flags i 0) (flag % 2 ^ 8))

abbrev pub test_flag : List ℕ → ℕ → ℕ → Bool
test_flag flags i flag = not (bit_and (get_or flags i 0) (flag % 2 ^ 8) == 0)

module _ {D : Type 0} where
  -- `ALL_TABLE_ROWS`, `ALL_TABLE_COLS`
  abbrev pub all_table_rows : Table D → ℕ
  all_table_rows table = table.header_rows + table.data_rows

  abbrev pub all_table_cols : Table D → ℕ
  all_table_cols table = table.header_cols + table.data_cols

  -- `GET_CELL_PTR`: the index of a cell.
  abbrev pub cell_ix : Table D → ℕ → ℕ → ℕ
  cell_ix table row col = row * all_table_cols table + col

  unfoldable pub get_cell : Table D → ℕ → ℕ → Cell D
  get_cell table row col = get_or table.cell (cell_ix table row col) blank_cell

  unfoldable pub set_cell : Table D → ℕ → ℕ → Cell D → Table D
  set_cell table row col c = record table { cell = set table.cell (cell_ix table row col) c }

  -- `set_row_flag`, `set_col_flag`, `test_row_flag`, `test_col_flag`
  unfoldable pub set_row_flag : Table D → ℕ → ℕ → Table D
  set_row_flag table row flag = record table { row_flags = or_at table.row_flags row flag }

  unfoldable pub set_col_flag : Table D → ℕ → ℕ → Table D
  set_col_flag table col flag = record table { col_flags = or_at table.col_flags col flag }

  unfoldable pub test_row_flag : Table D → ℕ → ℕ → Bool
  test_row_flag table row flag = test_flag table.row_flags row flag

  unfoldable pub test_col_flag : Table D → ℕ → ℕ → Bool
  test_col_flag table col flag = test_flag table.col_flags col flag

  -- `set_col_justification`
  unfoldable pub set_col_justification : Table D → ℕ → ℕ → Table D
  set_col_justification table col justify = record table {
    col_flags =
        set table.col_flags col
          (bit_or (bit_and (get_or table.col_flags col 0) 252) (bit_and justify 3));
  }

  -- `set_col_width`, whose width is a `uint8_t`
  unfoldable pub set_col_width : Table D → ℕ → ℕ → Table D
  set_col_width table col width = record table {
    col_width = set table.col_width col (limited_width (width % 2 ^ 8));
  }

  -- `set_col_decimal_places`
  unfoldable pub set_col_decimal_places : Table D → ℕ → ℕ → Table D
  set_col_decimal_places table col places = record table {
    col_decimal_places = set table.col_decimal_places col (places % 2 ^ 8);
  }

  abbrev pub with_content : Table D → ℕ → ℕ → Content D → Table D
  with_content table row col c =
      set_cell table row col (record (get_cell table row col) { content = c })

  -- `set_cell_flag`
  unfoldable pub set_cell_flag : Table D → ℕ → ℕ → ℕ → Table D
  set_cell_flag table row col flag =
      let c = get_cell table row col in
      set_cell table row col (record c { flags = bit_or c.flags flag })

  -- `string_assign`, `repchar_assign`, `double_assign`
  unfoldable pub string_assign : Table D → ℕ → ℕ → Option Bytes → Table D
  string_assign table row col s = with_content table row col (string s)

  unfoldable pub repchar_assign : Table D → ℕ → ℕ → ℕ → Table D
  repchar_assign table row col c = with_content table row col (repchar c)

  unfoldable pub double_assign : Table D → ℕ → ℕ → D → Table D
  double_assign table row col d = with_content table row col (double d)

  -- `init_table`
  unfoldable pub init_table : ℕ → ℕ → ℕ → ℕ → Table D
  init_table header_rows header_cols data_rows data_cols =
      let rows = header_rows + data_rows in
      let cols = header_cols + data_cols in
      record {
        header_rows = header_rows;
        header_cols = header_cols;
        data_rows = data_rows;
        data_cols = data_cols;
        cell = replicate (rows * cols) blank_cell;
        row_ix_map = up_to rows;
        row_flags = replicate rows 0;
        col_flags = replicate cols 0;
        col_width = replicate cols 0;
        col_decimal_places = replicate cols 0;
      }
    where
      up_to : ℕ → List ℕ
      up_to zero = []
      up_to (suc n) = up_to n ++ (n ∷ [])

  -- `free_cell`; the memory of a string is given back.
  unfoldable pub free_cell : Table D → ℕ → ℕ → Table D
  free_cell table row col = set_cell table row col blank_cell

module _ {D : Type 0} (doubles : Doubles D) where
  -- `c_ptr->d`
  abbrev pub as_double : Content D → D
  as_double null = doubles.zero_double
  as_double (double d) = d
  as_double c = doubles.reads c

  -- `double_addto`
  unfoldable pub double_addto : Table D → ℕ → ℕ → D → Table D
  double_addto table row col d =
      with_content table row col
        (double (doubles.plus (as_double ((get_cell table row col).content)) d))

  abbrev pub zeros : CellType → Content D
  zeros null_type = null
  zeros long_type = long (pos 0)
  zeros double_type = double doubles.zero_double
  zeros string_type = string none
  zeros char8_type = char8 (replicate 8 0)
  zeros repchar_type = repchar 0

  -- `zero_table_data`
  unfoldable pub zero_table_data : Table D → CellType → Table D
  zero_table_data table type =
      for_range table.data_rows table.header_rows
        (λ row.
          for_range table.data_cols table.header_cols
            (λ col t. set_cell t row col (record { content = zeros type; flags = 0 })))
        table

  -- The number of a row in the column to sort by.
  unfoldable pub row_value : Table D → ℕ → ℕ → D
  row_value table col row = as_double ((get_cell table row col).content)

  -- `sort_rows_descending_by_col`
  unfoldable pub sort_rows_descending_by_col : Table D → ℕ → ℕ → ℕ → Table D
  sort_rows_descending_by_col table start stop col = record table {
    row_ix_map =
        sort_from 0 doubles.less (row_value table col) stop (stop + 1 - start) start
          table.row_ix_map;
  }
