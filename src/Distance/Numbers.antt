-- ===== src/Distance/Numbers.antt =====
-- A row of distances is stored at the nodes that are available, in their order.
use numactl.Base.{
  ℕ, zero, suc, ◌+◌, ◌-◌, ◌*◌, ◌^◌, ◌≤◌, ◌<◌, ◌≡◌, ◌≢◌, ◌⊎◌, inl, inr, refl, sym, ap, ◌∙◌, Bool,
  true, false, List, [], ◌∷◌, ◌++◌, Option, some, Bytes, arith, Bool-cases, length, get_or, set,
  length-set, get_or-set_self, get_or-set_ne, lt→ltb,
}
use numactl.Base.Ints.{ℤ, pos, to_i32}
use numactl.Base.Loops.{count_below, count_below-le}
use numactl.Bitmask.{Bitmask, isbitset}
use numactl.Text.{strtoul, decimal}
use numactl.Text.Decimal.{strtoul-decimal, strtoul_blank, strtoul_newline}
use numactl.Distance.{skip_unavailable, parse_numbers_from, parse_numbers}

-- Distances as the kernel writes them: `10 21 21`, and a newline.
abbrev pub write_numbers : List ℕ → Bytes
write_numbers [] = b'\n' ∷ []
write_numbers (d ∷ []) = decimal d ++ (b'\n' ∷ [])
write_numbers (d ∷ e ∷ ds) = decimal d ++ (b' ' ∷ write_numbers (e ∷ ds))

abbrev pub AllSmall : List ℕ → Type 0
AllSmall [] = Unit
AllSmall (d ∷ ds) = (d < 2 ^ 31) × AllSmall ds

-- What is left of the text behind the first number, as `strtoul` leaves it.
rest_of : List ℕ → Bytes
rest_of [] = b'\n' ∷ []
rest_of (e ∷ ds) = b' ' ∷ write_numbers (e ∷ ds)

strtoul-write_numbers :
    (d : ℕ) (ds : List ℕ) → d < 2 ^ 31 → strtoul 0 (write_numbers (d ∷ ds)) ≡ some (d, rest_of ds)
unfolding rest_of
strtoul-write_numbers d [] h = strtoul-decimal d (b'\n' ∷ []) (omega arith) (refl, refl)
strtoul-write_numbers d (e ∷ ds) h =
    strtoul-decimal d (b' ' ∷ write_numbers (e ∷ ds)) (omega arith) (refl, refl)

strtoul-rest_of : (ds : List ℕ) → strtoul 0 (rest_of ds) ≡ strtoul 0 (write_numbers ds)
unfolding rest_of
strtoul-rest_of [] = refl
strtoul-rest_of (e ∷ ds) = strtoul_blank 0 (write_numbers (e ∷ ds))

-- The next available node from `j` on.
record NextNode (nodes : Bitmask) (j width k : ℕ) : Type 0 where
  above : j ≤ k
  skipped : (i : ℕ) → j ≤ i → i < k → isbitset nodes i ≡ false
  here : k < width → isbitset nodes k ≡ true
  below : k ≤ width

skip_unavailable-NextNode :
    (n j : ℕ) (nodes : Bitmask) (width : ℕ)
    → j + n ≡ width
    → NextNode nodes j width (skip_unavailable n j nodes)
unfolding skip_unavailable
skip_unavailable-NextNode zero j nodes width h = record {
  above = omega arith;
  skipped = λ i a b. absurd (omega arith);
  here = λ l. absurd (omega arith);
  below = omega arith;
}
skip_unavailable-NextNode (suc n) j nodes width h = elim (Bool-cases (isbitset nodes j)) [
  | inl set ↦ rw set (record {
    above = omega arith;
    skipped = λ i a b. absurd (omega arith);
    here = λ l. set;
    below = omega arith;
  })
  | inr clear ↦
      let later = skip_unavailable-NextNode n (suc j) nodes width (omega arith) in
      rw clear (record {
        above = omega (arith, later.above);
        skipped =
            λ i a b. elim (first j i a) [ inl e ↦ rw (← e) clear | inr l ↦ later.skipped i l b ];
        here = later.here;
        below = later.below;
      })
]
  where
    first : (x y : ℕ) → x ≤ y → (x ≡ y) ⊎ (suc x ≤ y)
    first x y l = omega arith

count_below_gap :
    (j k : ℕ) (p : ℕ → Bool)
    → j ≤ k
    → ((i : ℕ) → j ≤ i → i < k → p i ≡ false)
    → count_below k p ≡ count_below j p
count_below_gap j zero p le h = let z : j ≡ 0 = omega arith in rw z
count_below_gap j (suc k) p le h = elim (split j k le) [
  | inl all ↦ rw all
  | inr l ↦ ground (arith, h k l, count_below_gap j k p l (λ i a b. h i a (omega arith)))
]
  where
    split : (x y : ℕ) → x ≤ suc y → (x ≡ suc y) ⊎ (x ≤ y)
    split x y l = omega arith

pub count_below_mono : (i k : ℕ) (p : ℕ → Bool) → i ≤ k → count_below i p ≤ count_below k p
count_below_mono i zero p le = let z : i ≡ 0 = omega arith in rw z (omega arith)
count_below_mono i (suc k) p le = elim (split i k le) [
  | inl all ↦ rw all (omega arith)
  | inr l ↦ ground (arith, count_below_mono i k p l)
]
  where
    split : (x y : ℕ) → x ≤ suc y → (x ≡ suc y) ⊎ (x ≤ y)
    split x y l = omega arith

-- The table after the numbers `ds` have been stored at the available nodes from `j` on: the cell
-- of such a node has the number of its rank, and every other cell is as it was.
pub record Stored (nodes : Bitmask) (base j width : ℕ) (ds : List ℕ) (table : List ℤ)
    (result : Option (List ℤ)) : Type 0 where
  pub stored : List ℤ
  pub returned : result ≡ some stored
  pub same_length : length stored ≡ length table
  pub inside :
      (i : ℕ)
      → j ≤ i
      → i < width
      → isbitset nodes i ≡ true
      → get_or stored (base + i) (pos 0)
        ≡ pos (get_or ds (count_below i (isbitset nodes) - count_below j (isbitset nodes)) 0)
  pub outside :
      (k : ℕ)
      → ((i : ℕ) → j ≤ i → i < width → isbitset nodes i ≡ true → k ≢ base + i)
      → get_or stored k (pos 0) ≡ get_or table k (pos 0)

module _ (nodes : Bitmask) (base width : ℕ) where
  Stored-nil :
      (j : ℕ) (table : List ℤ) (result : Option (List ℤ))
      → result ≡ some table
      → count_below j (isbitset nodes) ≡ count_below width (isbitset nodes)
      → Stored nodes base j width [] table result
  Stored-nil j table result e full = record {
    stored = table;
    returned = e;
    same_length = refl;
    inside = λ i a b set. absurd (
        ground (
          arith,
          count_below_mono j i (isbitset nodes) a,
          count_below_mono (suc i) width (isbitset nodes) b,
        ));
    outside = λ k h. refl;
  }

  -- One number is stored at the node `k`, and the others behind it.
  Stored-cons :
      (j k d : ℕ) (ds : List ℕ) (table : List ℤ) (result : Option (List ℤ))
      → d < 2 ^ 31
      → k < width
      → base + width ≤ length table
      → NextNode nodes j width k
      → Stored nodes base (suc k) width ds (set table (base + k) (to_i32 d)) result
      → Stored nodes base j width (d ∷ ds) table result
  Stored-cons j k d ds table result small in_row fits next later = record {
    stored = later.stored;
    returned = later.returned;
    same_length = later.same_length ∙ length-set table (base + k) (to_i32 d);
    inside = inside;
    outside = outside;
  }
    where
      gap : count_below k (isbitset nodes) ≡ count_below j (isbitset nodes)
      gap = count_below_gap j k (isbitset nodes) next.above next.skipped

      step : count_below (suc k) (isbitset nodes) ≡ suc (count_below j (isbitset nodes))
      step = ground (arith, gap, next.here in_row)

      place : (x y : ℕ) → (x < y) ⊎ ((x ≡ y) ⊎ (suc y ≤ x))
      place x y = ground arith

      inside :
          (i : ℕ)
          → j ≤ i
          → i < width
          → isbitset nodes i ≡ true
          → get_or later.stored (base + i) (pos 0)
            ≡ pos (
                get_or (d ∷ ds) (count_below i (isbitset nodes) - count_below j (isbitset nodes)) 0)
      inside i a b set = elim (place i k) [
        | inl before ↦ absurd (cc (set, next.skipped i a before))
        | inr (inl same) ↦
            let z : count_below i (isbitset nodes) - count_below j (isbitset nodes) ≡ 0 =
              omega (arith, gap, ap (λ (t : ℕ). count_below t (isbitset nodes)) same) in
            rw (z, same)
              (later.outside (base + k) (λ q l m s. omega arith)
                ∙ get_or-set_self table (base + k) (to_i32 d) (pos 0) (omega arith)
                ∙ ground arith)
        | inr (inr behind) ↦
            let z : count_below i (isbitset nodes) - count_below j (isbitset nodes)
                ≡ suc (count_below i (isbitset nodes) - count_below (suc k) (isbitset nodes)) =
              omega (arith, step, count_below_mono (suc k) i (isbitset nodes) behind) in
            rw z (later.inside i behind b set)
      ]

      outside :
          (c : ℕ)
          → ((i : ℕ) → j ≤ i → i < width → isbitset nodes i ≡ true → c ≢ base + i)
          → get_or later.stored c (pos 0) ≡ get_or table c (pos 0)
      outside c h =
          later.outside c (λ i a b s. h i (omega (arith, next.above)) b s)
          ∙ get_or-set_ne table (base + k) c (to_i32 d) (pos 0)
              (λ e. h k next.above in_row (next.here in_row) (sym e))

  parse_numbers_from-Stored :
      (n j : ℕ) (s : Bytes) (ds : List ℕ) (table : List ℤ)
      → strtoul 0 s ≡ strtoul 0 (write_numbers ds)
      → AllSmall ds
      → length ds ≤ n
      → j ≤ width
      → count_below j (isbitset nodes) + length ds ≡ count_below width (isbitset nodes)
      → base + width ≤ length table
      → Stored nodes base j width ds table (parse_numbers_from n j s base width nodes table)
  unfolding parse_numbers_from
  parse_numbers_from-Stored zero j s [] table text small le in_row rank fits =
      Stored-nil j table _ refl (omega arith)
  parse_numbers_from-Stored zero j s (d ∷ ds) table text small le in_row rank fits =
      absurd (omega arith)
  parse_numbers_from-Stored (suc n) j s [] table text small le in_row rank fits =
      Stored-nil j table _ (rw (text ∙ strtoul_newline, parse_numbers_from)) (omega arith)
  parse_numbers_from-Stored (suc n) j s (d ∷ ds) table text (small, rest) le in_row rank fits =
      let k : ℕ = skip_unavailable (width - j) j nodes in
      let next = skip_unavailable-NextNode (width - j) j nodes width (omega arith) in
      let gap = count_below_gap j k (isbitset nodes) next.above next.skipped in
      let in_k : k < width = not_at_end k next.below gap in
      rw
        (
          text ∙ strtoul-write_numbers d ds small,
          parse_numbers_from,
          lt→ltb (base + k) (length table) (omega arith),
        )
        (Stored-cons j k d ds table _ small in_k fits next (
          parse_numbers_from-Stored n (suc k) (rest_of ds) ds (set table (base + k) (to_i32 d))
            (strtoul-rest_of ds) rest (omega arith) in_k (ground (arith, gap, next.here in_k))
            (omega (arith, length-set table (base + k) (to_i32 d)))))
    where
      not_at_end :
          (k : ℕ)
          → k ≤ width
          → count_below k (isbitset nodes) ≡ count_below j (isbitset nodes)
          → k < width
      not_at_end k below gap = elim (cases k width) [
        | inl end ↦ absurd (omega (arith, ap (λ (t : ℕ). count_below t (isbitset nodes)) end))
        | inr other ↦ omega arith
      ]
        where
          cases : (x y : ℕ) → (x ≡ y) ⊎ (x ≢ y)
          cases x y = ground arith

-- `parse_numbers` stores as many numbers as nodes are available, each at its node in the row, and
-- changes no other cell of the table.
pub parse_numbers-Stored :
    (ds : List ℕ) (nd width : ℕ) (nodes : Bitmask) (table : List ℤ)
    → AllSmall ds
    → length ds ≡ count_below width (isbitset nodes)
    → nd * width + width ≤ length table
    → Stored nodes
        (nd * width)
        0
        width
        ds
        table
        (parse_numbers (write_numbers ds) nd width nodes table)
unfolding parse_numbers
parse_numbers-Stored ds nd width nodes table small full fits =
    parse_numbers_from-Stored nodes (nd * width) width width 0 (write_numbers ds) ds table refl
      small (omega (arith, count_below-le width (isbitset nodes))) (omega arith) (omega arith) fits
