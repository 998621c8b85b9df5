-- ===== src/Numastat/SystemFile/Leaves.antt =====
-- numastat.c: an assignment to another cell, and the widths and decimal places of columns, leave a
-- number as it is.
use numactl.Base.{ℕ, ◌<◌, ◌≡◌, refl, ap, ◌∙◌, false, ◌&&◌, ◌==◌, arith}
use numactl.Numastat.Process.Numbers.{HasSize, cell_number}
use numactl.Numastat.Table.{
  Doubles, Table, Content, Cell, get_cell, set_cell, with_content, as_double, set_col_width,
  set_col_justification, set_col_decimal_places,
}
use numactl.Numastat.Table.Cells.{set_cell-IsTable, get_cell-set_cell_ne}

module _ {D : Type 0} (doubles : Doubles D) (rows cols : ℕ) where
  -- The table keeps its size and the number in a cell.
  pub record Leaves (table table' : Table D) (r c : ℕ) : Type 0 where
    pub size : HasSize doubles rows cols table'
    pub same : cell_number doubles table' r c ≡ cell_number doubles table r c

  pub with_content-HasSize :
      (table : Table D) (row col : ℕ) (x : Content D)
      → HasSize doubles rows cols table
      → HasSize doubles rows cols (with_content table row col x)
  with_content-HasSize table row col x w = record {
    whole = set_cell-IsTable table row col _ w.whole;
    rows_are = unfold set_cell in w.rows_are;
    cols_are = unfold set_cell in w.cols_are;
  }

  pub with_content-Leaves :
      (table : Table D) (row col r c : ℕ) (x : Content D)
      → HasSize doubles rows cols table
      → col < cols
      → c < cols
      → row == r && (col == c) ≡ false
      → Leaves table (with_content table row col x) r c
  with_content-Leaves table row col r c x w h l e = record {
    size = with_content-HasSize table row col x w;
    same =
        ap (λ (t : Cell D). as_double doubles t.content)
          (get_cell-set_cell_ne table row col r c _ (let n = w.cols_are in omega (arith, n, h))
            (let n = w.cols_are in omega (arith, n, l)) e);
  }

  pub widths-Leaves :
      (table : Table D) (col width justify r c : ℕ)
      → HasSize doubles rows cols table
      → Leaves table (set_col_justification (set_col_width table col width) col justify) r c
  unfolding set_col_justification set_col_width get_cell
  widths-Leaves table col width justify r c w = record {
    size = record {
      whole = record { cells = w.whole.cells };
      rows_are = w.rows_are;
      cols_are = w.cols_are;
    };
    same = refl;
  }

  pub places-Leaves :
      (table : Table D) (col places r c : ℕ)
      → HasSize doubles rows cols table
      → Leaves table (set_col_decimal_places table col places) r c
  unfolding set_col_decimal_places get_cell
  places-Leaves table col places r c w = record {
    size = record {
      whole = record { cells = w.whole.cells };
      rows_are = w.rows_are;
      cols_are = w.cols_are;
    };
    same = refl;
  }

  pub Leaves-trans : (t u v : Table D) (r c : ℕ) → Leaves t u r c → Leaves u v r c → Leaves t v r c
  Leaves-trans t u v r c a b = record { size = b.size; same = b.same ∙ a.same }
