-- ===== src/Numastat/Process.antt =====
-- numastat.c, `show_process_info` and `command_name_for_pid`: the tables of processes. What the files
-- of /proc hold is a parameter.
use numactl.Base.{
  ℕ, zero, suc, ◌+◌, ◌-◌, Bool, true, false, not, ◌&&◌, ◌||◌, List, [], ◌∷◌, ◌++◌, Option, some,
  none, Bytes, codes, ltb, leb, ◌==◌, if◌then◌else◌, length, take, get_or, strip_prefix,
}
use numactl.Base.Ints.{ℤ, pos, negsuc, pos_part, is_neg}
use numactl.Base.Loops.{for_range}
use numactl.Numastat.Display.{
  Options, Displayed, display_table, mark_data, auto_set_col_width, print_long,
}
use numactl.Numastat.Maps.{
  Arithmetic, Sizes, Ended, going, exit_failure, past_map, and_then, fgets_lines, read_numa_maps,
  meminfo_labels,
}
use numactl.Numastat.Table.{
  Doubles, Table, CellType, double_type, init_table, string_assign, repchar_assign, double_addto,
  zero_table_data, set_col_width, set_col_justification, set_col_decimal_places, set_cell_flag,
  set_row_flag, justify_left, justify_right, always_show, small_buf_size,
  sort_rows_descending_by_col,
}
use numactl.Text.{skip_space}
pub mod Numbers
pub mod Sums
pub mod Shown

-- The globals that the options set, the nodes with their headers, and the sizes of pages.
pub record Settings (D : Type 0) : Type 0 where
  pub compress_display : Bool
  pub show_zero_data : Bool
  pub sort_table : Bool
  pub sort_table_node : ℤ
  pub verbose : Bool
  pub screen_width : ℕ
  pub node_header : List Bytes
  pub sizes : Sizes D

-- The files of a process: `status`, and `numa_maps` with whether reading it fails before its end;
-- none is a file that cannot be opened.
pub record Proc : Type 0 where
  pub status : ℤ → Option Bytes
  pub numa_maps : ℤ → Option (Bytes × Bool)

-- A newline at the end is cut off.
unfoldable pub cut_newline : Bytes → Bytes
cut_newline [] = []
cut_newline (c ∷ []) = if c == b'\n' then [] else c ∷ []
cut_newline (c ∷ d ∷ s) = c ∷ cut_newline (d ∷ s)

unfoldable pub name_line : List Bytes → Option Bytes
name_line [] = none
name_line (buf ∷ rest) =
    let later = name_line rest in
    elim (strip_prefix (codes "Name:") buf) [
      | none ↦ later
      | some s ↦ some (cut_newline (skip_space s))
    ]

-- `command_name_for_pid`
abbrev pub name_in : Option Bytes → Option Bytes
name_in none = none
name_in (some status) = name_line (fgets_lines small_buf_size status)

unfoldable pub command_name_for_pid : Proc → ℤ → Option Bytes
command_name_for_pid proc pid = name_in (proc.status pid)

-- `%s`, with what glibc prints for NULL.
abbrev pub print_string : Option Bytes → Bytes
print_string none = codes "(null)"
print_string (some s) = s

-- What is printed: a title, a table, a complaint.
pub data Output : Type 0 where
  overall_title : Output
  process_title : ℤ → Bytes → Output
  displayed : Displayed → Output
  cannot_read : ℤ → Output

abbrev pub header_rows : ℕ
header_rows = 2

abbrev pub header_cols : ℕ
header_cols = 1

-- `CELL_FLAG_FREEABLE`
abbrev pub freeable : ℕ
freeable = 1

module _ {D : Type 0} (settings : Settings D) where
  abbrev pub num_nodes : ℕ
  num_nodes = length settings.sizes.node_ix_map

  abbrev pub total_col_ix : ℕ
  total_col_ix = header_cols + num_nodes

  -- `show_sub_categories`, for so many processes.
  abbrev pub show_sub_categories : ℕ → Bool
  show_sub_categories num_pids = settings.verbose || (num_pids == 1)

  abbrev pub data_rows : ℕ → ℕ
  data_rows num_pids = if show_sub_categories num_pids then length meminfo_labels else num_pids

  abbrev pub total_row_ix : ℕ → ℕ
  total_row_ix num_pids = header_rows + data_rows num_pids + 1

  unfoldable pub assign_labels : ℕ → List Bytes → Table D → Table D
  assign_labels row [] table = table
  assign_labels row (label ∷ rest) table =
      assign_labels (row + 1) rest (string_assign table (header_rows + row) 0 (some label))

  -- The header of a column, its width, decimal places and justification.
  unfoldable pub set_column : ℕ → Table D → Table D
  set_column node_ix table =
      let col = header_cols + node_ix in
      let named = string_assign table 0 col (some (get_or settings.node_header node_ix [])) in
      let ruled = repchar_assign named 1 col b'-' in
      let wide = set_col_width ruled col 16 in
      let places = set_col_decimal_places wide col (if settings.compress_display then 0 else 2) in
      set_col_justification places col justify_right

  -- The table before the first process, without its zeros.
  unfoldable pub process_table : ℕ → Table D
  process_table num_pids =
      let table = init_table header_rows header_cols (data_rows num_pids + 2) (num_nodes + 1) in
      let total = string_assign table (total_row_ix num_pids) 0 (some (codes "Total")) in
      let labelled =
        if show_sub_categories num_pids
        then assign_labels 0 meminfo_labels total
        else repchar_assign (string_assign total 0 0 (some (codes "PID"))) 1 0 b'-' in
      let left = set_col_justification (set_col_width labelled 0 16) 0 justify_left in
      for_range (num_nodes + 1) 0 set_column left

  -- The column to sort by.
  unfoldable pub sort_column : ℕ
  sort_column =
      if is_neg settings.sort_table_node || leb num_nodes (pos_part settings.sort_table_node)
      then total_col_ix
      else header_cols
        + pos_part (get_or settings.sizes.node_ix_map (pos_part settings.sort_table_node) (pos 0))

  -- The row of a category, or of a process.
  abbrev pub row_of : ℕ → ℕ → ℕ → ℕ
  row_of num_pids pid_ix category =
      if show_sub_categories num_pids then header_rows + category else header_rows + pid_ix

module _ {D : Type 0} (doubles : Doubles D) (settings : Settings D) where
  -- The widths of the columns for the display.
  abbrev pub fit_columns : Table D → Table D
  fit_columns table =
      if settings.compress_display
      then for_range (header_cols + num_nodes settings + 1) 0
          (λ col t. auto_set_col_width doubles t col 4 16) table
      else auto_set_col_width doubles table 0 16 24

  abbrev pub sorted : ℕ → Table D → Table D
  sorted rows table =
      if settings.sort_table
      then sort_rows_descending_by_col doubles table header_rows (header_rows + rows - 1)
          (sort_column settings)
      else table

  abbrev pub options : Options
  options = record {
    screen_width = settings.screen_width;
    show_unseen_rows = false;
    show_unseen_cols = false;
    show_zero_rows = settings.show_zero_data;
    show_zero_cols = settings.show_zero_data;
  }

  -- The table as it is displayed: with its rule above the total, and sorted.
  unfoldable pub prepared : ℕ → Table D → Table D
  prepared num_pids table =
      let total_row = total_row_ix settings num_pids in
      let flagged = set_row_flag (fit_columns table) (total_row - 1) always_show in
      let ruled =
        for_range (header_cols + num_nodes settings + 1) 0
          (λ col t. repchar_assign t (total_row - 1) col b'-') flagged in
      sorted (data_rows settings num_pids) ruled

  -- The four additions for pages on a node.
  unfoldable pub add_pages : ℕ → ℕ → ℕ → D → Table D → Table D
  add_pages total_row tmp_row node_ix value table =
      let tmp_col = header_cols + node_ix in
      let total_col = total_col_ix settings in
      double_addto doubles
        (double_addto doubles
          (double_addto doubles (double_addto doubles table tmp_row tmp_col value) tmp_row total_col
            value)
          total_row tmp_col value)
        total_row total_col value

module _ {D : Type 0} (doubles : Doubles D) (num : Arithmetic D) (settings : Settings D) where
  -- The pages of a file are added to the table.
  abbrev pub add_maps : ℕ → ℕ → Table D → Bytes → Ended (Table D)
  add_maps num_pids pid_ix table file =
      read_numa_maps num settings.sizes
        (λ category.
          add_pages doubles settings (total_row_ix settings num_pids)
            (row_of settings num_pids pid_ix category))
        table file

module _ {D : Type 0} (doubles : Doubles D) (num : Arithmetic D) (settings : Settings D)
    (proc : Proc) where
  -- The table for a process, with what is printed before its file is read.
  abbrev pub label : ℤ → Bytes
  label pid = take 63 (
      print_long pid ++ (codes " (" ++ (print_string (command_name_for_pid proc pid) ++ codes ")")))

  abbrev pub start_process : ℕ → ℕ → ℤ → Table D → Table D × List Output
  start_process num_pids pid_ix pid table =
      let row = header_rows + pid_ix in
      if show_sub_categories settings num_pids
      then (
        (if ltb 0 pid_ix then zero_table_data doubles table double_type else table),
        process_title pid (print_string (command_name_for_pid proc pid)) ∷ [],
      )
      else (set_cell_flag (string_assign table row 0 (some (label pid))) row 0 freeable, [])

  -- The table is displayed for each process, or behind the last one; `display_table` leaves its marks.
  abbrev pub end_process : ℕ → ℕ → Table D → Table D × List Output
  end_process num_pids pid_ix table =
      let ready = prepared doubles settings num_pids table in
      if show_sub_categories settings num_pids || (pid_ix + 1 == num_pids)
      then (
        (mark_data doubles ready).0,
        displayed (display_table doubles (options doubles settings) ready) ∷ [],
      )
      else (table, [])

  abbrev pub ended_by : ℕ → ℕ → Bool → Table D → Ended (Table D × List Output)
  ended_by num_pids pid_ix true table = exit_failure
  ended_by num_pids pid_ix false table = going (end_process num_pids pid_ix table)

  -- A file that cannot be opened ends the round.
  abbrev pub show_maps : ℕ → ℕ → ℤ → Table D → Option (Bytes × Bool) → Ended (Table D × List Output)
  show_maps num_pids pid_ix pid table none = going (table, cannot_read pid ∷ [])
  show_maps num_pids pid_ix pid table (some (file, fails)) =
      and_then (add_maps doubles num settings num_pids pid_ix table file)
        (ended_by num_pids pid_ix fails)

  -- A round of the loop over the processes.
  unfoldable pub show_process : ℕ → ℕ → ℤ → Table D → Ended (Table D × List Output)
  show_process num_pids pid_ix pid table =
      let (started, printed) = start_process num_pids pid_ix pid table in
      and_then (show_maps num_pids pid_ix pid started (proc.numa_maps pid))
        (λ r. going (r.0, printed ++ (r.1)))

  unfoldable pub show_processes : ℕ → ℕ → List ℤ → Table D → Ended (List Output)
  show_processes num_pids pid_ix [] table = going []
  show_processes num_pids pid_ix (pid ∷ rest) table =
      and_then (show_process num_pids pid_ix pid table) (λ r.
        and_then (show_processes num_pids (pid_ix + 1) rest (r.0)) (λ out. going ((r.1) ++ out)))

  -- `show_process_info`
  unfoldable pub show_process_info : List ℤ → Ended (List Output)
  show_process_info pids =
      let n = length pids in
      let title = if show_sub_categories settings n then [] else overall_title ∷ [] in
      let table = zero_table_data doubles (process_table settings n) double_type in
      and_then (show_processes n 0 pids table) (λ out. going (title ++ out))
