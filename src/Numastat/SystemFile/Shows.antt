-- ===== src/Numastat/SystemFile/Shows.antt =====
-- numastat.c, `show_info_from_system_file`: the table that is filled and displayed.
use numactl.Base.{ℕ, ◌+◌, ◌-◌, Bool, [], Option, some, none, Bytes, if◌then◌else◌, length, get_or}
use numactl.Base.Ints.{pos}
use numactl.Base.Loops.{for_range}
use numactl.Numastat.{init_hash_table}
use numactl.Numastat.Display.{Displayed, display_table, auto_set_col_width}
use numactl.Numastat.Maps.{Arithmetic, fgets_lines}
use numactl.Numastat.Process.{Settings, header_cols, num_nodes, total_col_ix, sort_column, options}
use numactl.Numastat.SystemFile.{
  System, Loaded, loaded, no_file, and_load, Source, Stores, Loading, load_nodes,
}
use numactl.Numastat.Table.{
  Doubles, Table, init_table, string_assign, repchar_assign, double_assign, double_addto,
  set_col_width, set_col_justification, set_col_decimal_places, justify_left, justify_right,
  small_buf_size, sort_rows_descending_by_col,
}

module _ {D : Type 0} (doubles : Doubles D) (num : Arithmetic D) (settings : Settings D)
    (compatibility_mode : Bool) where
  abbrev pub system_header_rows : ℕ
  system_header_rows = if compatibility_mode then 1 else 2

  -- The header of a column, with its rule, width, decimal places and justification.
  unfoldable pub system_column : ℕ → Table D → Table D
  system_column node_ix table =
      let col = header_cols + node_ix in
      let named = string_assign table 0 col (some (get_or settings.node_header node_ix [])) in
      let ruled = repchar_assign named 1 col b'-' in
      let places = set_col_decimal_places ruled col (if settings.compress_display then 0 else 2) in
      let wide = set_col_width (if compatibility_mode then named else places) col 16 in
      set_col_justification wide col justify_right

  -- A number is the one of its cell, and is added to the total of its row.
  unfoldable pub store_number : ℕ → ℕ → D → Table D → Table D
  store_number index node_ix value table =
      let row = system_header_rows + index in
      let assigned = double_assign table row (header_cols + node_ix) value in
      double_addto doubles assigned row (total_col_ix settings) value

  abbrev pub in_table : Stores D (Table D)
  in_table = record {
    column = system_column;
    label = λ row name table. string_assign table (system_header_rows + row) 0 (some name);
    store = store_number;
  }

  -- The table before the first file, with so many rows.
  abbrev pub system_table : ℕ → Table D
  system_table meminfo_rows =
      let table = init_table system_header_rows header_cols meminfo_rows (num_nodes settings + 1) in
      set_col_justification (set_col_width table 0 16) 0 justify_left

  module _ (system : System) (source : Source) where
    -- The loop over the nodes, with the column of the totals behind the last one.
    unfoldable pub load_table : ℕ → Loaded (Table D)
    load_table meminfo_rows =
        let start : Loading (Table D) = record {
          hash = init_hash_table;
          row = 0;
          built = system_table meminfo_rows;
        } in
        and_load
          (load_nodes doubles num system settings.sizes compatibility_mode source in_table 0
            settings.sizes.node_ix_map start)
          (λ state. loaded (
            if compatibility_mode
            then state.built
            else system_column (num_nodes settings) state.built))

    abbrev pub system_prepared : ℕ → Table D → Table D
    system_prepared meminfo_rows table =
        let fitted =
          for_range (header_cols + num_nodes settings + 1) 0
            (λ col t. auto_set_col_width doubles t col 4 16) table in
        let narrow = if settings.compress_display then fitted else table in
        if settings.sort_table
        then sort_rows_descending_by_col doubles narrow system_header_rows
            (system_header_rows + meminfo_rows - 1) (sort_column settings)
        else narrow

    abbrev pub show_rows : Option Bytes → Loaded Displayed
    show_rows none = no_file
    show_rows (some text) =
        let meminfo_rows = length (fgets_lines small_buf_size text) in
        and_load (load_table meminfo_rows) (λ table.
          loaded
            (display_table doubles (options doubles settings) (system_prepared meminfo_rows table)))

    -- `show_info_from_system_file`
    unfoldable pub show_info_from_system_file : Loaded Displayed
    show_info_from_system_file =
        show_rows (system.node_file (get_or settings.sizes.node_ix_map 0 (pos 0)) source.file)
