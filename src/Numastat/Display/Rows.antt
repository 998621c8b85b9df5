-- ===== src/Numastat/Display/Rows.antt =====
-- numastat.c: the lines of a section of `display_table`, one for each row that is shown.
use numactl.Base.{
  ℕ, suc, ◌+◌, ◌-◌, ◌<◌, ◌≡◌, refl, ap, ◌∙◌, ◌⊎◌, inl, inr, Bool, true, false, not, ◌||◌, List, [],
  ◌∷◌, arith, if◌then◌else◌, Bytes,
}
use mathlib.Core.Path.{ap₂, subst}
use numactl.Base.Ints.{ℤ, pos}
use numactl.Numastat.Table.{Doubles, Table, all_table_cols}
use numactl.Numastat.Display.{
  Options, Line, shows_row, line_from, header_width, header_cells, with_line, lines_from,
}
use numactl.Numastat.Display.Folding.{Folds, line_from-Folds}
use numactl.Numastat.Display.Lines.{cells_of, Spans, line_end, line_from-Spans, shown_from}

module _ {D : Type 0} (doubles : Doubles D) (options : Options) (table : Table D) where
  -- The lines of a section with `n` columns from `col` on: one for each row that is shown, in the
  -- order of the rows, with its header cells and its cells in the columns that are shown.
  abbrev pub section_lines : ℕ → ℕ → List ℕ → List Line
  section_lines col n [] = []
  section_lines col n (row ∷ rows) =
      let rest = section_lines col n rows in
      if shows_row doubles options table row
      then record {
        row = row;
        headers = header_cells doubles options table row;
        cells = cells_of doubles options table row (shown_from doubles options table n col);
      }
        ∷ rest
      else rest

  abbrev pub any_row : List ℕ → Bool
  any_row [] = false
  any_row (row ∷ rows) = shows_row doubles options table row || any_row rows

  -- A line of the section that begins at `data_col`.
  abbrev pub line_at : ℕ → ℕ → List (ℕ × Bytes) × ℕ
  line_at data_col row =
      line_from doubles options table (all_table_cols table - data_col) row data_col
        (header_width doubles options table)

  pub line_at-Spans :
      (data_col row : ℕ)
      → data_col < all_table_cols table
      → (n : ℕ) × (Spans doubles options table) row data_col n
          (line_at data_col row)
          (all_table_cols table - data_col)
  line_at-Spans data_col row h =
      let rounds : all_table_cols table - data_col ≡ suc (all_table_cols table - data_col - 1) =
        omega (arith, h) in
      rw rounds (
        (line_from-Spans doubles options table) (all_table_cols table - data_col - 1) row data_col
          _)

  -- A line of the section stands for the columns up to where another one ends.
  line_at-shown :
      (data_col row n : ℕ)
      → data_col < all_table_cols table
      → (line_at data_col 0).1 ≡ data_col + n
      → ((line_at data_col row).1 ≡ data_col + n)
        × ((line_at data_col row).0
            ≡ cells_of doubles options table row (shown_from doubles options table n data_col))
  line_at-shown data_col row n h e =
      let (m, spans) = line_at-Spans data_col row h in
      let same =
        (line_end doubles options table) (all_table_cols table - data_col) row 0 data_col
          (header_width doubles options table) in
      let ends = spans.ends in
      let count : m ≡ n = omega (arith, same, ends, e) in
      (
        same ∙ e,
        spans.all_shown
            ∙ ap
                (λ x.
                  cells_of doubles options table row (shown_from doubles options table x data_col))
                count,
      )

  -- A section begins with its header cells, and is folded at the width of the screen.
  abbrev pub FoldsAt : ℕ → ℕ → Type 0
  FoldsAt col n = Folds doubles options table col (header_width doubles options table) n

  pub line_at-Folds :
      (data_col n : ℕ)
      → data_col < all_table_cols table
      → (line_at data_col 0).1 ≡ data_col + n
      → FoldsAt data_col n
  line_at-Folds data_col n h e =
      let rounds : all_table_cols table - data_col ≡ suc (all_table_cols table - data_col - 1) =
        omega (arith, h) in
      let e' = rw rounds at e in
      let (m, l, ends, folds) =
        line_from-Folds doubles options table (all_table_cols table - data_col - 1) 0 data_col
          (header_width doubles options table) (omega (arith, h)) in
      subst (FoldsAt data_col) (let same : m ≡ n = omega (arith, ends, e') in same) folds

  -- The lines of a section, and where it ends.
  abbrev pub Ends : ℕ → ℕ → List ℕ → ℤ → List Line × ℤ → Type 0
  Ends data_col n rows col r =
      (r.0 ≡ section_lines data_col n rows)
      × ((r.1 ≡ pos (data_col + n)) ⊎ ((any_row rows ≡ false) × (r.1 ≡ col)))

  lines_next :
      (b : Bool) (data_col n row : ℕ) (rows : List ℕ) (col : ℤ) (cells : List (ℕ × Bytes))
      (skipped later : List Line × ℤ)
      → shows_row doubles options table row ≡ b
      → Ends data_col n rows col skipped
      → Ends data_col n rows (pos (data_col + n)) later
      → cells ≡ cells_of doubles options table row (shown_from doubles options table n data_col)
      → Ends data_col n (row ∷ rows) col (
          if not b
          then skipped
          else with_line doubles options table
              (record {
                row = row;
                headers = header_cells doubles options table row;
                cells = cells;
              })
              later)
  lines_next false data_col n row rows col cells skipped later q s l c = rw q s
  lines_next true data_col n row rows col cells skipped (lines, end) q s (same, ends) c = rw q (
    ap₂
        (λ x xs.
          record { row = row; headers = header_cells doubles options table row; cells = x } ∷ xs)
        c same,
    inl (ended ends),
  )
    where
      ended :
          (end ≡ pos (data_col + n)) ⊎ ((any_row rows ≡ false) × (end ≡ pos (data_col + n)))
          → end ≡ pos (data_col + n)
      ended (inl e) = e
      ended (inr (a, e)) = e

  pub lines_from-Ends :
      (data_col n : ℕ) (rows : List ℕ) (col : ℤ)
      → data_col < all_table_cols table
      → (line_at data_col 0).1 ≡ data_col + n
      → Ends data_col n rows col (lines_from doubles options table data_col rows col)
  unfolding lines_from
  lines_from-Ends data_col n [] col h e = (refl, inr (refl, refl))
  lines_from-Ends data_col n (row ∷ rows) col h e =
      let (ends, shown) = line_at-shown data_col row n h e in
      lines_next (shows_row doubles options table row) data_col n row rows col _ _ _ refl
        (lines_from-Ends data_col n rows col h e)
        (rw ends (lines_from-Ends data_col n rows (pos (data_col + n)) h e)) shown
