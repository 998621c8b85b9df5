-- ===== src/Numastat/SystemFile/Cells.antt =====
-- numastat.c, `show_info_from_system_file`: what setting up a column, a label and a number do to the
-- numbers in the cells.
use numactl.Base.{
  ℕ, ◌+◌, ◌≤◌, ◌<◌, ◌≡◌, refl, ap, ◌∙◌, Bool, true, false, ◌&&◌, List, [], ◌∷◌, ◌==◌, if◌then◌else◌,
  arith, Bool-cases, inl, inr,
}
use mathlib.Core.Path.{subst}
use numactl.Numastat.Maps.{Arithmetic}
use numactl.Numastat.Process.{Settings, header_cols, num_nodes, total_col_ix}
use numactl.Numastat.Process.Numbers.{
  HasSize, cell_number, cell_number-double_addto, double_addto-HasSize,
}
use numactl.Numastat.SystemFile.Shows.{system_column, store_number}
use numactl.Numastat.Table.{
  Doubles, Table, Cell, get_cell, with_content, string_assign, repchar_assign, double_assign,
  double_addto, as_double, double,
}
use numactl.Numastat.Table.Cells.{get_cell-set_cell}
use numactl.Numastat.SystemFile.Leaves.{
  Leaves, with_content-HasSize, with_content-Leaves, widths-Leaves, places-Leaves, Leaves-trans,
}
use numactl.Numastat.SystemFile.Steps.{
  Step, column_step, label_step, number_step, top, effect, number_behind, take_step, play, IsStep,
  AreSteps,
}

module _ {D : Type 0} (doubles : Doubles D) (num : Arithmetic D) (settings : Settings D)
    (compatibility_mode : Bool) where
  abbrev pub width : ℕ
  width = total_col_ix settings + 1

  -- A cell below the headers, right of the labels.
  abbrev pub IsData : ℕ → ℕ → ℕ → Type 0
  IsData rows r c =
      (top doubles num settings compatibility_mode ≤ r) × (r < rows) × (0 < c) × (c < width)

  pub other_row : (row col r c : ℕ) → row < r → row == r && (col == c) ≡ false
  other_row row col r c h = ground arith

  pub other_col : (row col r c : ℕ) → col < c → row == r && (col == c) ≡ false
  other_col row col r c h = ground arith

  pub system_column-Leaves :
      (rows ix : ℕ) (table : Table D) (r c : ℕ)
      → HasSize doubles rows width table
      → ix ≤ num_nodes settings
      → IsData rows r c
      → Leaves doubles rows width table
          (system_column doubles num settings compatibility_mode ix table)
          r
          c
  unfolding system_column string_assign repchar_assign
  system_column-Leaves rows ix table r c w h (t, b, p, q) =
      let below = header_below t in
      let one =
        with_content-Leaves doubles rows width table 0 (header_cols + ix) r c _ w (omega (arith, h))
          q (other_row 0 (header_cols + ix) r c (below.0)) in
      elim (Bool-cases compatibility_mode) [
        | inl e ↦ rw e (
            Leaves-trans doubles rows width table _ _ r c one
              (widths-Leaves doubles rows width _ _ _ _ r c one.size))
        | inr e ↦
            let two =
              with_content-Leaves doubles rows width _ 1 (header_cols + ix) r c _ one.size
                (omega (arith, h)) q (other_row 1 (header_cols + ix) r c (below.1 e)) in
            let three = places-Leaves doubles rows width _ (header_cols + ix) _ r c two.size in
            rw e (
              Leaves-trans doubles rows width table _ _ r c one (
                Leaves-trans doubles rows width _ _ _ r c two (
                  Leaves-trans doubles rows width _ _ _ r c three
                    (widths-Leaves doubles rows width _ _ _ _ r c three.size))))
      ]
    where
      header_below :
          top doubles num settings compatibility_mode ≤ r
          → (0 < r) × (compatibility_mode ≡ false → 1 < r)
      header_below t = elim (Bool-cases compatibility_mode) [
        | inl e ↦ (
          let u : 1 ≤ r = subst (λ (b : Bool). (if b then 1 else 2) ≤ r) e t in omega (arith, u),
          λ d. cc (e, d),
        )
        | inr e ↦
            let u : 2 ≤ r = subst (λ (b : Bool). (if b then 1 else 2) ≤ r) e t in
            (omega (arith, u), λ d. omega (arith, u))
      ]

  -- The number that is stored, in its row.
  pub store_here :
      (rows ix c row : ℕ) (v : D) (table : Table D)
      → HasSize doubles rows width table
      → ix < num_nodes settings
      → row < rows
      → c < width
      → cell_number doubles
          (double_addto doubles
            (double_assign table row (header_cols + ix) v)
            row
            (total_col_ix settings)
            v)
          row
          c
        ≡ (if total_col_ix settings == c
            then doubles.plus (cell_number doubles table row c) v
            else if header_cols + ix == c
            then v
            else cell_number doubles table row c)
  unfolding double_assign
  store_here rows ix c row v table w h l q =
      let assigned = with_content table row (header_cols + ix) (double v) in
      let sized =
        with_content-HasSize doubles rows width table row (header_cols + ix) (double v) w in
      let here : (row == row) ≡ true = ground arith in
      let added =
        cell_number-double_addto doubles rows width assigned row (total_col_ix settings) row c v
          sized l (omega arith) l q in
      let was =
        get_cell-set_cell table row (header_cols + ix) row c _ w.whole
          (let n = w.rows_are in omega (arith, n, l), let n = w.cols_are in omega (arith, n, h))
          (let n = w.rows_are in omega (arith, n, l), let n = w.cols_are in omega (arith, n, q)) in
      added
      ∙ (rw here (
            ap (λ (t : D). if total_col_ix settings == c then doubles.plus t v else t)
              (ap (λ (t : Cell D). as_double doubles t.content) was
                ∙ rw here (split (header_cols + ix == c) refl)))
          ∙ apart (total_col_ix settings == c) (header_cols + ix == c) (ground (arith, h)))
    where
      split :
          (b : Bool)
          → (header_cols + ix == c) ≡ b
          → as_double doubles (
              (if b
                then record {
                  content = double v;
                  flags = (get_cell table row (header_cols + ix)).flags;
                }
                else get_cell table row c).content)
            ≡ (if b then v else cell_number doubles table row c)
      split true e = refl
      split false e = refl

      apart :
          (a b : Bool)
          → a && b ≡ false
          → (if a
              then doubles.plus (if b then v else cell_number doubles table row c) v
              else if b
              then v
              else cell_number doubles table row c)
            ≡ (if a
                then doubles.plus (cell_number doubles table row c) v
                else if b
                then v
                else cell_number doubles table row c)
      apart true true e = cc e
      apart true false e = refl
      apart false b e = refl

  -- The size of the table is kept, and the number in the cell is what the step makes of it.
  abbrev pub Steps : ℕ → ℕ → ℕ → Step D → Table D → Type 0
  Steps rows r c k table =
      HasSize doubles rows width (take_step doubles num settings compatibility_mode k table)
      × (cell_number doubles (take_step doubles num settings compatibility_mode k table) r c
          ≡ effect doubles num settings compatibility_mode r c k (cell_number doubles table r c))

  pub row_is : (a b : ℕ) → a == b ≡ true → a ≡ b
  row_is a b e = ground arith

  pub label_apart : (row c r : ℕ) → 0 < c → row == r && (0 == c) ≡ false
  label_apart row c r h = ground arith

  pub rows_apart : (a b : Bool) → a ≡ false → a && b ≡ false
  rows_apart a b e = rw e refl

  pub take_step-Steps :
      (rows r c : ℕ) (k : Step D) (table : Table D)
      → HasSize doubles rows width table
      → IsStep doubles num settings compatibility_mode k
      → IsData rows r c
      → Steps rows r c k table
  unfolding store_number string_assign
  take_step-Steps rows r c (column_step ix) table w h d =
      let l = system_column-Leaves rows ix table r c w (omega (arith, h)) d in (l.size, l.same)
  take_step-Steps rows r c (label_step row name) table w h (t, b, p, q) =
      let l =
        with_content-Leaves doubles rows width table
          (top doubles num settings compatibility_mode + row) 0 r c _ w (omega arith) q
          (label_apart (top doubles num settings compatibility_mode + row) c r p) in
      (l.size, l.same)
  take_step-Steps rows r c (number_step index ix v) table w h (t, b, p, q) =
      let row = top doubles num settings compatibility_mode + index in
      let one = with_content-HasSize doubles rows width table row (header_cols + ix) (double v) w in
      (
        (unfold double_assign in
            double_addto-HasSize doubles rows width _ row (total_col_ix settings) v one),
        elim (Bool-cases (row == r)) [
          | inl e ↦ rw e (rw (row_is row r e) (store_here rows ix c r v table w h b q))
          | inr e ↦
              let apart = rows_apart (row == r) (header_cols + ix == c) e in
              let total_apart = rows_apart (row == r) (total_col_ix settings == c) e in
              let first =
                with_content-Leaves doubles rows width table row (header_cols + ix) r c (double v) w
                  (omega (arith, h)) q apart in
              let assigned = with_content table row (header_cols + ix) (double v) in
              let sum = double (
                doubles.plus
                  (as_double doubles ((get_cell assigned row (total_col_ix settings)).content))
                  v) in
              let second =
                with_content-Leaves doubles rows width assigned row (total_col_ix settings) r c sum
                  one (omega arith) q total_apart in
              rw e (unfold double_addto double_assign in second.same ∙ first.same)
        ],
      )

  pub play-number_behind :
      (rows r c : ℕ) (ks : List (Step D)) (table : Table D)
      → HasSize doubles rows width table
      → AreSteps doubles num settings compatibility_mode ks
      → IsData rows r c
      → HasSize doubles rows width (play doubles num settings compatibility_mode ks table)
        × (cell_number doubles (play doubles num settings compatibility_mode ks table) r c
            ≡ number_behind doubles num settings compatibility_mode r c ks
                (cell_number doubles table r c))
  unfolding play number_behind
  play-number_behind rows r c [] table w a d = (w, refl)
  play-number_behind rows r c (k ∷ rest) table w (h, a) d =
      let (size, same) = take_step-Steps rows r c k table w h d in
      let (later, number) =
        play-number_behind rows r c rest (take_step doubles num settings compatibility_mode k table)
          size a d in
      (later, number ∙ ap (number_behind doubles num settings compatibility_mode r c rest) same)
