-- ===== src/Numastat/Display/Folding.antt =====
-- numastat.c, `display_table`: where a line ends, for the width of the screen.
use numactl.Base.{
  ℕ, zero, suc, ◌+◌, ◌≤◌, ◌<◌, ◌≡◌, refl, ap, ◌⊎◌, inl, inr, Bool, true, false, ◌||◌, List, [],
  arith, leb, ltb, if◌then◌else◌, Bytes,
}
use numactl.Numastat.Table.{Doubles, Table, all_table_cols}
use numactl.Numastat.Display.{Options, shows_col, width_at, line_from}

module _ {D : Type 0} (doubles : Doubles D) (options : Options) (table : Table D) where
  -- The width of the columns that are shown, of `n` columns from `col` on.
  abbrev pub shown_width : ℕ → ℕ → ℕ
  shown_width zero col = 0
  shown_width (suc n) col =
      (if shows_col doubles options table col then width_at doubles options table col else 0)
      + shown_width n (col + 1)

  -- The width of `n` columns from `col` on behind what is `width` wide, with the column behind them.
  abbrev pub width_with_next : ℕ → ℕ → ℕ → ℕ
  width_with_next col n width = width + shown_width n col + width_at doubles options table (col + n)

  -- A line of `n` columns from `col` on ends where the columns end, or where the next one does not fit
  -- the screen, and no sooner.
  pub record Folds (col width n : ℕ) : Type 0 where
    pub full :
        (all_table_cols table ≤ col + n) ⊎ (options.screen_width < width_with_next col n width)
    pub room : (m : ℕ) → 1 ≤ m → m < n → width_with_next col m width ≤ options.screen_width

  abbrev widened : ℕ → ℕ → ℕ
  widened col width =
      if shows_col doubles options table col
      then width + width_at doubles options table col
      else width

  abbrev stops : ℕ → ℕ → Bool
  stops col width =
      leb (all_table_cols table) (col + 1)
      || ltb options.screen_width (widened col width + width_at doubles options table (col + 1))

  next_lem :
      (col width m : ℕ)
      → width_with_next (col + 1) m (widened col width) ≡ width_with_next col (suc m) width
  next_lem col width m =
      let behind : col + 1 + m ≡ col + suc m = omega arith in
      let same = ap (width_at doubles options table) behind in ground (arith, same)

  first_lem :
      (col width : ℕ)
      → width_with_next col 1 width ≡ widened col width + width_at doubles options table (col + 1)
  first_lem col width = ground arith

  Folds-one : (col width : ℕ) → stops col width ≡ true → Folds col width 1
  Folds-one col width s =
      let first = first_lem col width in
      record { full = ground (arith, s, first); room = λ m l h. absurd (omega (arith, l, h)) }

  Folds-suc :
      (col width n : ℕ)
      → stops col width ≡ false
      → 1 ≤ n
      → Folds (col + 1) (widened col width) n
      → Folds col width (suc n)
  Folds-suc col width n s l folds =
      let next = next_lem col width n in
      let full = folds.full in
      record {
        full = elim full [ inl e ↦ inl (omega (arith, e)) | inr e ↦ inr (omega (arith, e, next)) ];
        room = room;
      }
    where
      room : (m : ℕ) → 1 ≤ m → m < suc n → width_with_next col m width ≤ options.screen_width
      room zero k h = absurd (omega (arith, k))
      room (suc zero) k h = let first = first_lem col width in ground (arith, s, first)
      room (suc (suc m)) k h =
          let again = next_lem col width (suc m) in
          let fits = folds.room (suc m) (omega arith) (omega (arith, h)) in
          omega (arith, again, fits)

  -- What is said of a line that is as wide as `width` in front of `col`.
  abbrev EndsFolded : ℕ → ℕ → ℕ → Type 0
  EndsFolded col width end = (n : ℕ) × (1 ≤ n) × (end ≡ col + n) × Folds col width n

  choose :
      (stop : Bool) (col width : ℕ) (rest : List (ℕ × Bytes) × ℕ)
      → stops col width ≡ stop
      → (stop ≡ false → EndsFolded (col + 1) (widened col width) (rest.1))
      → EndsFolded col width ((if stop then ([], col + 1) else rest).1)
  choose true col width rest s later = (1, omega arith, refl, Folds-one col width s)
  choose false col width rest s later =
      let (n, l, e, folds) = later refl in
      (suc n, omega arith, omega (arith, e), Folds-suc col width n s l folds)

  -- A line of the columns from `col` on is folded at the width of the screen.
  pub line_from-Folds :
      (rounds row col width : ℕ)
      → all_table_cols table ≡ col + suc rounds
      → EndsFolded col width ((line_from doubles options table (suc rounds) row col width).1)
  unfolding line_from
  line_from-Folds zero row col width h =
      choose _ col width _ refl (λ s. absurd (ground (arith, s, h)))
  line_from-Folds (suc rounds) row col width h =
      choose _ col width _ refl
        (λ s. line_from-Folds rounds row (col + 1) (widened col width) (omega (arith, h)))
