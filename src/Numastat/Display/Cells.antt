-- ===== src/Numastat/Display/Cells.antt =====
-- numastat.c: a cell of the table is printed as wide as its column, and `auto_set_col_width` makes
-- the column wide enough.
use numactl.Base.{
  ℕ, suc, ◌+◌, ◌-◌, ◌%◌, ◌^◌, ◌≤◌, ◌<◌, ◌≡◌, refl, ap, sym, ◌⊎◌, inl, inr, Bool, false, not, ◌&&◌,
  ◌++◌, some, none, Bytes, arith, ltb, ◌==◌, if◌then◌else◌, get_or, length, take, length-append,
  length-replicate, length-take, Bool-cases, bit_and, get_or-set_self,
}
use mathlib.Core.List.{append-nil}
use numactl.Base.Loops.{for_range_inv}
use numactl.Numastat.Table.{
  Content, null, long, double, string, char8, repchar, Doubles, Table, all_table_rows, get_cell,
  justify_left, justify_right,
}
use numactl.Numastat.Display.{
  spaces, justified, fmt_cell_data, text_at, is_repchar, widest, auto_set_col_width,
  display_justified_cell,
}

-- A text between spaces, in a line of a width.
abbrev pub Between : Bytes → ℕ → Bytes → Type 0
Between p width line =
    (a : ℕ) × (b : ℕ) × (a + length p + b ≡ width) × (line ≡ spaces a ++ (p ++ spaces b))

justified-Between :
    (how width : ℕ) (p : Bytes) → length p ≤ width → Between p width (justified how p width)
unfolding justified
justified-Between how width p h = elim (Bool-cases (how == justify_left)) [
  | inl e ↦ rw e (0, width - length p, omega (arith, h), refl)
  | inr e ↦ rw e (elim (Bool-cases (how == justify_right)) [
    | inl r ↦ rw r (
      width - length p,
      0,
      omega (arith, h),
      ap (λ x. spaces (width - length p) ++ x) (sym (append-nil p)),
    )
    | inr r ↦ rw r (_, _, omega (arith, h), refl)
  ])
]

Between-length : (p line : Bytes) (width : ℕ) → Between p width line → length line ≡ width
Between-length p line width (a, b, e, q) =
    let u = length-append (spaces a) (p ++ spaces b) in
    let v = length-append p (spaces b) in
    let w = length-replicate {A = ℕ} a 32 in
    let x = length-replicate {A = ℕ} b 32 in rw q (omega (arith, e, u, v, w, x))

take_fits : (n : ℕ) (s : Bytes) → length (take n s) ≤ n
take_fits n s = let e = length-take n s in omega (arith, e)

module _ {D : Type 0} (doubles : Doubles D) where
  fmt_cell_data_fits :
      (c : Content D) (width places : ℕ) → length (fmt_cell_data doubles c width places) ≤ width
  unfolding fmt_cell_data
  fmt_cell_data_fits null width places = omega arith
  fmt_cell_data_fits (repchar c) width places =
      let e = length-replicate (width - 1) c in omega (arith, e)
  fmt_cell_data_fits (long l) width places = take_fits width _
  fmt_cell_data_fits (double d) width places = take_fits width _
  fmt_cell_data_fits (string none) width places = take_fits width _
  fmt_cell_data_fits (string (some s)) width places = take_fits width _
  fmt_cell_data_fits (char8 s) width places = take_fits width _

  -- A cell is printed as wide as its column: its text, which is cut off there, between spaces.
  pub display_justified_cell-Between :
      (table : Table D) (row col : ℕ)
      → (length (display_justified_cell doubles table row col) ≡ get_or table.col_width col 0)
        × Between
            (text_at doubles table row col (get_or table.col_width col 0))
            (get_or table.col_width col 0)
            (display_justified_cell doubles table row col)
  unfolding display_justified_cell
  display_justified_cell-Between table row col =
      let how = bit_and (get_or table.col_flags col 0) 3 in
      let width = get_or table.col_width col 0 in
      let between = justified-Between how width _ (fmt_cell_data_fits _ width _) in
      (Between-length _ _ width between, between)

  -- A row's text, if it is not of repeated characters, fits.
  abbrev pub Fits : Table D → ℕ → ℕ → ℕ → ℕ → Type 0
  Fits table col max_width row width =
      is_repchar ((get_cell table row col).content) ≡ false
      → length (text_at doubles table row col max_width) ≤ width

  abbrev pub Widest : Table D → ℕ → ℕ → ℕ → ℕ → ℕ → Type 0
  Widest table col max_width min_width rows width =
      (min_width ≤ width) × ((row : ℕ) → row < rows → Fits table col max_width row width)

  Widest-next :
      (table : Table D) (col max_width min_width row width wider : ℕ)
      → width ≤ wider
      → Fits table col max_width row wider
      → Widest table col max_width min_width row width
      → Widest table col max_width min_width (suc row) wider
  Widest-next table col max_width min_width row width wider q fits (least, before) = (
    omega (arith, q, least),
    λ j h r.
        let last : (j < row) ⊎ (j ≡ row) = omega (arith, h) in
        elim last [
          | inl l ↦ let f = before j l r in omega (arith, f, q)
          | inr e ↦ rw e (fits (rw (sym e) r))
        ],
  )

  wider : (r : Bool) (l width : ℕ) → width ≤ (if not r && ltb width l then l else width)
  wider r l width = ground arith

  wide_enough :
      (r : Bool) (l width : ℕ) → r ≡ false → l ≤ (if not r && ltb width l then l else width)
  wide_enough r l width h = ground arith

  widest-Widest :
      (table : Table D) (col max_width min_width : ℕ)
      → Widest table col max_width min_width
          (all_table_rows table)
          (widest doubles table col max_width min_width)
  unfolding widest
  widest-Widest table col max_width min_width =
      for_range_inv (Widest table col max_width min_width) _ (all_table_rows table)
        (λ row width h w.
          Widest-next table col max_width min_width row width _ (wider _ _ width)
            (wide_enough _ _ width) w)
        (all_table_rows table) 0 min_width (omega arith)
        (omega arith, λ row h. absurd (omega (arith, h)))

  clipped :
      (max_width width : ℕ)
      → max_width < 256
      → ((if ltb max_width width then max_width else width) % 2 ^ 8 ≤ max_width)
        × (((if ltb max_width width then max_width else width) % 2 ^ 8 ≡ max_width)
            ⊎ ((if ltb max_width width then max_width else width) % 2 ^ 8 ≡ width))
  clipped max_width width h = ground arith

  -- A width of a column is at most the greatest; and it is that, or it is more than the least and
  -- than the text in every row of the column that is not of repeated characters.
  abbrev pub WideEnough : Table D → ℕ → ℕ → ℕ → ℕ → Type 0
  WideEnough table col min_width max_width width =
      (width ≤ max_width)
      × ((width ≡ max_width)
          ⊎ ((min_width < width)
              × ((row : ℕ)
                  → row < all_table_rows table
                  → Fits table col max_width row (width - 1))))

  -- If the greatest width is below 256, then `auto_set_col_width` gives a column of the table a
  -- width that is at most the greatest; and it is that, or it is more than the least width and, with
  -- a column of space, wide enough for the text in each row that is not of repeated characters.
  pub auto_set_col_width-WideEnough :
      (table : Table D) (col min_width max_width : ℕ)
      → col < length table.col_width
      → max_width < 256
      → WideEnough table col min_width max_width
          (get_or ((auto_set_col_width doubles table col min_width max_width).col_width) col 0)
  unfolding auto_set_col_width
  auto_set_col_width-WideEnough table col min_width max_width q h =
      let (least, fits) = widest-Widest table col max_width min_width in
      let (most, is) = clipped max_width (widest doubles table col max_width min_width + 1) h in
      rw (get_or-set_self table.col_width col _ 0 q) (
        most,
        elim is [
          | inl e ↦ inl e
          | inr e ↦
              rw e (inr (omega (arith, least), λ row l r. let f = fits row l r in omega (arith, f)))
        ],
      )
