-- ===== src/Numastat/Process/Sums.antt =====
-- numastat.c, `show_process_info`: each cell of the table is the sum of the pages that are counted in
-- it, in the order of the file.
use numactl.Base.{
  ℕ, ◌+◌, ◌≤◌, ◌<◌, ◌≡◌, Bool, ◌&&◌, ◌||◌, List, [], ◌∷◌, ◌++◌, Bytes, ◌==◌, if◌then◌else◌,
}
use numactl.Numastat.Maps.{Arithmetic, Sizes, Ended, going, exit_failure, past_map, read_numa_maps}
use numactl.Numastat.Maps.Counts.{Count}
use numactl.Numastat.Process.{
  Settings, add_pages, row_of, total_row_ix, total_col_ix, num_nodes, header_cols,
}
use numactl.Numastat.Table.{Doubles, Table}
use numactl.Numastat.Process.Numbers.{cell_number, HasSize}

-- Whether pages of a row and a node are counted in a cell: in that cell, in the total column of the
-- row, in the total row, and in the corner.
abbrev pub counted : ℕ → ℕ → ℕ → ℕ → ℕ → ℕ → Bool
counted total_row total_col row col r c =
    (row == r || total_row == r) && (col == c || total_col == c)

module _ {D : Type 0} (doubles : Doubles D) (settings : Settings D) (num_pids pid_ix : ℕ) where
  -- The number that a cell has behind the counts: those that are counted in it are added to it.
  unfoldable pub sum_in : ℕ → ℕ → List (Count D) → D → D
  sum_in r c [] x = x
  sum_in r c (k ∷ rest) x = sum_in r c rest (
      if counted (total_row_ix settings num_pids) (total_col_ix settings)
        (row_of settings num_pids pid_ix k.category) (header_cols + k.node_ix) r c
      then doubles.plus x k.value
      else x)

  abbrev add_count : ℕ → ℕ → D → Table D → Table D
  add_count category =
      add_pages doubles settings (total_row_ix settings num_pids)
        (row_of settings num_pids pid_ix category)

  unfoldable replay : List (Count D) → Table D → Table D
  replay [] table = table
  replay (k ∷ rest) table = replay rest (add_count k.category k.node_ix k.value table)

  -- The counts of a file of the four categories, on nodes of the map.
  abbrev AreCounts : List (Count D) → Type 0
  AreCounts [] = Unit
  AreCounts (k ∷ rest) = (k.category ≤ 3) × (k.node_ix < num_nodes settings) × AreCounts rest

  abbrev pub WholeTable : Table D → Type 0
  WholeTable table =
      HasSize doubles (total_row_ix settings num_pids + 1) (total_col_ix settings + 1) table

-- The pages of a file, as a list in the order of the file.
unfoldable pub counts_of : {D : Type 0} → Arithmetic D → Sizes D → Bytes → Ended (List (Count D))
counts_of num sizes file =
    read_numa_maps num sizes
      (λ c ix v ks. ks ++ (record { category = c; node_ix = ix; value = v } ∷ [])) [] file

module _ {D : Type 0} (doubles : Doubles D) (num : Arithmetic D) (settings : Settings D)
    (num_pids pid_ix : ℕ) where
  -- The table behind a file: each number in it is the number before with the pages that are counted
  -- there, or there is no table.
  abbrev pub SumsUp : Table D → Ended (List (Count D)) → Ended (Table D) → Type 0
  SumsUp table (going ks) result =
      (table' : Table D) × (result ≡ going table')
      × ((r c : ℕ)
          → r < total_row_ix settings num_pids + 1
          → c < total_col_ix settings + 1
          → cell_number doubles table' r c
            ≡ sum_in doubles settings num_pids pid_ix r c ks (cell_number doubles table r c))
  SumsUp table exit_failure result = result ≡ exit_failure
  SumsUp table past_map result = result ≡ past_map
