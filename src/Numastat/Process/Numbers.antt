-- ===== src/Numastat/Process/Numbers.antt =====
-- numastat.c: the number in a cell of the table, and what `double_addto` does to it.
use numactl.Base.{
  ℕ, ◌<◌, ◌≡◌, refl, ap, ◌∙◌, Bool, true, false, ◌&&◌, ◌||◌, ◌==◌, if◌then◌else◌, arith,
}
use numactl.Numastat.Table.{
  Doubles, Table, Cell, double, all_table_rows, all_table_cols, get_cell, set_cell, double_addto,
  as_double,
}
use numactl.Numastat.Table.Cells.{IsTable, set_cell-IsTable, get_cell-double_addto}

module _ {D : Type 0} (doubles : Doubles D) where
  -- The number in a cell.
  abbrev pub cell_number : Table D → ℕ → ℕ → D
  cell_number table r c = as_double doubles ((get_cell table r c).content)

  -- A table with all its cells, of so many rows and columns.
  pub record HasSize (rows cols : ℕ) (table : Table D) : Type 0 where
    pub whole : IsTable table
    pub rows_are : all_table_rows table ≡ rows
    pub cols_are : all_table_cols table ≡ cols

  pub double_addto-HasSize :
      (rows cols : ℕ) (table : Table D) (row col : ℕ) (d : D)
      → HasSize rows cols table
      → HasSize rows cols (double_addto doubles table row col d)
  unfolding double_addto
  double_addto-HasSize rows cols table row col d w = record {
    whole = set_cell-IsTable table row col _ w.whole;
    rows_are = unfold set_cell in w.rows_are;
    cols_are = unfold set_cell in w.cols_are;
  }

  pub cell_number_if :
      (b : Bool) (table : Table D) (row col r c : ℕ) (d : D)
      → row == r && (col == c) ≡ b
      → as_double doubles (
          (if b
            then record {
              content =
                  double (doubles.plus (as_double doubles ((get_cell table row col).content)) d);
              flags = (get_cell table row col).flags;
            }
            else get_cell table r c).content)
        ≡ (if b then doubles.plus (cell_number table r c) d else cell_number table r c)
  cell_number_if true table row col r c d e = let (p, q) = both row r col c e in rw (p, q) refl
    where
      both : (row r col c : ℕ) → row == r && (col == c) ≡ true → (row ≡ r) × (col ≡ c)
      both row r col c e = ground arith
  cell_number_if false table row col r c d e = refl

  pub cell_number-double_addto :
      (rows cols : ℕ) (table : Table D) (row col r c : ℕ) (d : D)
      → HasSize rows cols table
      → row < rows
      → col < cols
      → r < rows
      → c < cols
      → cell_number (double_addto doubles table row col d) r c ≡ (
          if row == r && (col == c)
          then doubles.plus (cell_number table r c) d
          else cell_number table r c)
  cell_number-double_addto rows cols table row col r c d w h l k m =
      ap (λ (x : Cell D). as_double doubles x.content)
        (get_cell-double_addto doubles table row col r c d w.whole
          (let e = w.rows_are in omega (arith, e, h), let e = w.cols_are in omega (arith, e, l))
          (let e = w.rows_are in omega (arith, e, k), let e = w.cols_are in omega (arith, e, m)))
      ∙ cell_number_if _ table row col r c d refl

  pub once :
      (a b p q : Bool) (x v : D)
      → a && b ≡ false
      → p && q ≡ false
      → (let s = if a && p then doubles.plus x v else x in
          let t = if a && q then doubles.plus s v else s in
          let u = if b && p then doubles.plus t v else t in if b && q then doubles.plus u v else u)
        ≡ (if (a || b) && (p || q) then doubles.plus x v else x)
  once true true p q x v e f = cc e
  once a b true true x v e f = cc f
  once true false true false x v e f = refl
  once true false false true x v e f = refl
  once true false false false x v e f = refl
  once false true true false x v e f = refl
  once false true false true x v e f = refl
  once false true false false x v e f = refl
  once false false true false x v e f = refl
  once false false false true x v e f = refl
  once false false false false x v e f = refl
