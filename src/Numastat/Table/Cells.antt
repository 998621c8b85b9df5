-- ===== src/Numastat/Table/Cells.antt =====
-- numastat.c: an assignment to a cell of the table changes that cell and no other.
use numactl.Base.{
  ℕ, zero, suc, ◌+◌, ◌*◌, ◌<◌, ◌≡◌, refl, ap, ◌∙◌, inl, inr, true, false, ◌&&◌, arith, ◌==◌,
  if◌then◌else◌, length, get_or-set_self, get_or-set_ne, length-set, length-replicate, Bool-cases,
}
use native.Mathlib.Nat.{suc-mul, mul-le-mul_right}
use numactl.Numastat.Table.{
  Doubles, Table, Cell, double, all_table_rows, all_table_cols, cell_ix, get_cell, set_cell,
  init_table, blank_cell, double_addto, as_double,
}

cell_ix_unique :
    (cols row row' col col' : ℕ)
    → col < cols
    → col' < cols
    → row * cols + col ≡ row' * cols + col'
    → (row ≡ row') × (col ≡ col')
cell_ix_unique cols zero zero col col' h l e = (refl, omega (arith, e))
cell_ix_unique cols zero (suc row') col col' h l e =
    let m = suc-mul row' cols in absurd (omega (arith, m, e, h))
cell_ix_unique cols (suc row) zero col col' h l e =
    let m = suc-mul row cols in absurd (omega (arith, m, e, l))
cell_ix_unique cols (suc row) (suc row') col col' h l e =
    let m = suc-mul row cols in
    let n = suc-mul row' cols in
    let (same, also) = cell_ix_unique cols row row' col col' h l (omega (arith, m, n, e)) in
    (ap (λ (x : ℕ). suc x) same, also)

same_cell :
    (row row' col col' : ℕ) → row == row' && (col == col') ≡ true → (row' ≡ row) × (col' ≡ col)
same_cell row row' col col' e = ground arith

other_cell :
    (row row' col col' : ℕ) → row == row' && (col == col') ≡ false → (row ≡ row') × (col ≡ col') → ⊥
other_cell row row' col col' e u = ground arith

cell_ix_within : (rows cols row col : ℕ) → row < rows → col < cols → row * cols + col < rows * cols
cell_ix_within rows cols row col h l =
    let m = suc-mul row cols in
    let n = mul-le-mul_right {m = suc row} {n = rows} cols h in omega (arith, m, n, l)

module _ {D : Type 0} where
  -- Every cell of the table is in its vector.
  pub record IsTable (table : Table D) : Type 0 where
    pub cells : length table.cell ≡ all_table_rows table * all_table_cols table

  -- A cell is in the table.
  abbrev pub InTable : Table D → ℕ → ℕ → Type 0
  InTable table row col = (row < all_table_rows table) × (col < all_table_cols table)

  pub init_table-IsTable :
      (header_rows header_cols data_rows data_cols : ℕ)
      → IsTable (init_table header_rows header_cols data_rows data_cols)
  unfolding init_table
  init_table-IsTable header_rows header_cols data_rows data_cols = record {
    cells = length-replicate _ _;
  }

  pub set_cell-IsTable :
      (table : Table D) (row col : ℕ) (c : Cell D)
      → IsTable table
      → IsTable (set_cell table row col c)
  unfolding set_cell
  set_cell-IsTable table row col c w = record {
    cells = length-set table.cell (cell_ix table row col) c ∙ w.cells;
  }

  pub get_cell-set_cell :
      (table : Table D) (row col row' col' : ℕ) (c : Cell D)
      → IsTable table
      → InTable table row col
      → InTable table row' col'
      → get_cell (set_cell table row col c) row' col'
        ≡ (if row == row' && (col == col') then c else get_cell table row' col')
  unfolding get_cell set_cell
  get_cell-set_cell table row col row' col' c w q r =
      elim (Bool-cases (row == row' && (col == col'))) [
        | inl e ↦ rw e (
            let (a, b) = same_cell row row' col col' e in
            rw a (
              rw b (
                get_or-set_self table.cell _ c blank_cell (
                  let n =
                    cell_ix_within (all_table_rows table) (all_table_cols table) row col (q.0)
                      (q.1) in
                  let m = w.cells in omega (arith, n, m)))))
        | inr e ↦ rw e (
            get_or-set_ne table.cell _ _ c _ (λ h.
              let u = cell_ix_unique (all_table_cols table) row row' col col' (q.1) (r.1) h in
              other_cell row row' col col' e u))
      ]

  -- Another cell stays as it is, also if the row of the assignment is not in the table.
  pub get_cell-set_cell_ne :
      (table : Table D) (row col row' col' : ℕ) (c : Cell D)
      → col < all_table_cols table
      → col' < all_table_cols table
      → row == row' && (col == col') ≡ false
      → get_cell (set_cell table row col c) row' col' ≡ get_cell table row' col'
  unfolding get_cell set_cell
  get_cell-set_cell_ne table row col row' col' c q r e = get_or-set_ne table.cell _ _ c _ (λ h.
      other_cell row row' col col' e
        (cell_ix_unique (all_table_cols table) row row' col col' q r h))

module _ {D : Type 0} (doubles : Doubles D) where
  -- In a table that `init_table` made, or assignments to its cells, adding to a cell makes it a
  -- number, the sum, with its flags as they were, and every other cell of the table stays as it is.
  pub get_cell-double_addto :
      (table : Table D) (row col row' col' : ℕ) (d : D)
      → IsTable table
      → InTable table row col
      → InTable table row' col'
      → get_cell (double_addto doubles table row col d) row' col' ≡ (
          if row == row' && (col == col')
          then record {
            content =
                double (doubles.plus (as_double doubles ((get_cell table row col).content)) d);
            flags = (get_cell table row col).flags;
          }
          else get_cell table row' col')
  unfolding double_addto
  get_cell-double_addto table row col row' col' d w q r =
      get_cell-set_cell table row col row' col' _ w q r
