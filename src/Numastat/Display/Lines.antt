-- ===== src/Numastat/Display/Lines.antt =====
-- numastat.c, `display_table`: the cells of a printed line.
use numactl.Base.{
  ℕ, zero, suc, ◌+◌, ◌≤◌, ◌≡◌, refl, ap, ◌⊎◌, inl, inr, Bool, true, false, List, [], ◌∷◌, arith,
  if◌then◌else◌, Bytes,
}
use numactl.Numastat.Table.{Doubles, Table}
use numactl.Numastat.Display.{Options, display_justified_cell, shows_col, with_cell, line_from}

module _ {D : Type 0} (doubles : Doubles D) (options : Options) (table : Table D) where
  abbrev pub add_col : Bool → ℕ → List ℕ → List ℕ
  add_col b col cols = if b then col ∷ cols else cols

  -- The columns that are shown, of `n` columns from `col` on.
  abbrev pub shown_from : ℕ → ℕ → List ℕ
  shown_from zero col = []
  shown_from (suc n) col =
      add_col (shows_col doubles options table col) col (shown_from n (col + 1))

  -- The cells of a row in some columns, each with its text.
  abbrev pub cells_of : ℕ → List ℕ → List (ℕ × Bytes)
  cells_of row [] = []
  cells_of row (col ∷ cols) =
      (col, display_justified_cell doubles table row col) ∷ cells_of row cols

  -- A line of a row, from `col` on, with its cells in the columns that are shown of `n`.
  pub record Spans (row col n : ℕ) (line : List (ℕ × Bytes) × ℕ) (rounds : ℕ) : Type 0 where
    pub some_column : 1 ≤ n
    pub within : n ≤ rounds
    pub ends : line.1 ≡ col + n
    pub all_shown : line.0 ≡ cells_of row (shown_from n col)

  with_cell_lem :
      (b : Bool) (row col : ℕ) (r : List (ℕ × Bytes) × ℕ) (cols : List ℕ)
      → r.0 ≡ cells_of row cols
      → (with_cell doubles options table b col (display_justified_cell doubles table row col) r).0
        ≡ cells_of row (add_col b col cols)
  with_cell_lem true row col r cols e =
      ap (λ cells. (col, display_justified_cell doubles table row col) ∷ cells) e
  with_cell_lem false row col r cols e = e

  Spans-next :
      (stop : Bool) (rounds row col : ℕ) (rest : List (ℕ × Bytes) × ℕ)
      → (rest ≡ ([], col + 1)) ⊎ ((n : ℕ) × Spans row (col + 1) n rest rounds)
      → (n : ℕ) × Spans row col n
          (with_cell doubles options table
            (shows_col doubles options table col)
            col
            (display_justified_cell doubles table row col)
            (if stop then ([], col + 1) else rest))
          (suc rounds)
  Spans-next true rounds row col rest h = (
    1,
    record {
      some_column = omega arith;
      within = omega arith;
      ends = refl;
      all_shown = with_cell_lem _ row col ([], col + 1) [] refl;
    },
  )
  Spans-next false rounds row col rest (inl e) = (
    1,
    record {
      some_column = omega arith;
      within = omega arith;
      ends = ap (λ r. r.1) e;
      all_shown = with_cell_lem _ row col rest [] (ap (λ r. r.0) e);
    },
  )
  Spans-next false rounds row col rest (inr (n, spans)) = (
    suc n,
    record {
      some_column = omega arith;
      within = let w = spans.within in omega (arith, w);
      ends = let e = spans.ends in omega (arith, e);
      all_shown = with_cell_lem _ row col rest (shown_from n (col + 1)) spans.all_shown;
    },
  )

  pub line_from-Spans :
      (rounds row col width : ℕ)
      → (n : ℕ) × Spans row col n
          (line_from doubles options table (suc rounds) row col width)
          (suc rounds)
  unfolding line_from
  line_from-Spans zero row col width = Spans-next _ zero row col _ (inl refl)
  line_from-Spans (suc rounds) row col width =
      Spans-next _ (suc rounds) row col _ (inr (line_from-Spans rounds row (col + 1) _))

  -- Where a line ends does not depend on its row.
  pub line_end :
      (rounds row row' col width : ℕ)
      → (line_from doubles options table rounds row col width).1
        ≡ (line_from doubles options table rounds row' col width).1
  unfolding line_from
  line_end zero row row' col width = refl
  line_end (suc rounds) row row' col width = same_end _ _ _ (line_end rounds row row' (col + 1) _)
    where
      same_end :
          (stop : Bool) (r r' : List (ℕ × Bytes) × ℕ)
          → r.1 ≡ r'.1
          → (if stop then ([], col + 1) else r).1 ≡ (if stop then ([], col + 1) else r').1
      same_end true r r' e = refl
      same_end false r r' e = e
