-- ===== src/Parse/Grammar.antt =====
-- The lists of numbers and ranges as data, how they are written, and what they stand for: an
-- independent description of what `__numa_parse_nodestring` and `__numa_parse_cpustring` read.
use numactl.Base.{
  ℕ, zero, suc, ◌^◌, ◌<◌, ◌≡◌, refl, Bool, true, false, ◌&&◌, ◌||◌, List, [], ◌∷◌, ◌++◌, some,
  Bytes, ltb, leb, ◌==◌, arith, ◌∙◌,
}
use numactl.Bitmask.{Bitmask, IsValid, isbitset, bitmask_setbit}
use numactl.Text.{strtoul, decimal}
use numactl.Text.Decimal.{NoDigit, strtoul-decimal, strtoul_blank}
use numactl.Parse.Range.{bitmask_setbit_lem, set_range_lem}
use numactl.Parse.{ok, get_nr, set_range, range_to, parse_range, item_from, parse_item}

pub data Item : Type 0 where
  one : ℕ → Item
  range : ℕ → ℕ → Item

-- Blanks may stand in front of an item.
abbrev pub blanks : ℕ → Bytes → Bytes
blanks zero s = s
blanks (suc k) s = b' ' ∷ blanks k s

-- An item in front of the text `rest`.
abbrev pub write_item : ℕ → Item → Bytes → Bytes
write_item gap (one a) rest = blanks gap (decimal a ++ rest)
write_item gap (range a b) rest = blanks gap (decimal a ++ (b'-' ∷ (decimal b ++ rest)))

-- Items with commas between them.
abbrev pub write_items : ℕ → Item → List Item → Bytes
write_items gap x [] = write_item gap x []
write_items gap x (y ∷ ys) = write_item gap x (b',' ∷ write_items gap y ys)

-- The numbers that an item stands for: the first of a range, and those of its numbers that are
-- allowed.
abbrev pub mentions : Bitmask → Item → ℕ → Bool
mentions allowed (one a) i = i == a
mentions allowed (range a b) i = i == a || (leb a i && leb i b && isbitset allowed i)

abbrev pub mentioned : Bitmask → List Item → ℕ → Bool
mentioned allowed [] i = false
mentioned allowed (x ∷ xs) i = mentions allowed x i || mentioned allowed xs i

-- Both ends of an item pass the parser's test, and fit a word.
abbrev pub IsUsable : (ℕ → Bool) → Item → Type 0
IsUsable usable (one a) = (usable a ≡ true) × (a < 2 ^ 64)
IsUsable usable (range a b) = (usable a ≡ true) × (a < 2 ^ 64) × (usable b ≡ true) × (b < 2 ^ 64)

abbrev pub AllUsable : (ℕ → Bool) → List Item → Type 0
AllUsable usable [] = Unit
AllUsable usable (x ∷ xs) = IsUsable usable x × AllUsable usable xs

-- What the parser makes of an item.
abbrev pub add_item : Bitmask → Bitmask → Item → Bitmask
add_item allowed mask (one a) = bitmask_setbit mask a
add_item allowed mask (range a b) = set_range allowed a b (bitmask_setbit mask a)

abbrev pub add_items : Bitmask → Bitmask → List Item → Bitmask
add_items allowed mask [] = mask
add_items allowed mask (x ∷ xs) = add_items allowed (add_item allowed mask x) xs

-- The text behind an item: a comma or nothing.
abbrev pub Follows : Bytes → Type 0
Follows [] = Unit
Follows (c ∷ s) = c ≡ b','

strtoul-blanks : (gap base : ℕ) (s : Bytes) → strtoul base (blanks gap s) ≡ strtoul base s
strtoul-blanks zero base s = refl
strtoul-blanks (suc gap) base s = strtoul_blank base (blanks gap s) ∙ strtoul-blanks gap base s

get_nr-decimal :
    (gap a : ℕ) (rest : Bytes) (allowed : Bitmask)
    → a < 2 ^ 64
    → NoDigit rest
    → get_nr (blanks gap (decimal a ++ rest)) allowed false ≡ some (a, rest)
unfolding get_nr
get_nr-decimal gap a rest allowed h nd =
    rw (strtoul-blanks gap 0 (decimal a ++ rest) ∙ strtoul-decimal a rest h nd, get_nr)

Follows-NoDigit : (s : Bytes) → Follows s → NoDigit s
Follows-NoDigit [] h = (refl, refl)
Follows-NoDigit (c ∷ s) h = rw h (refl, refl)

module _ (usable : ℕ → Bool) (allowed : Bitmask) where
  parse_range_stop :
      (arg : ℕ) (mask : Bitmask) (s : Bytes)
      → Follows s
      → parse_range usable allowed false arg mask s ≡ ok (mask, s)
  unfolding parse_range
  parse_range_stop arg mask [] h = refl
  parse_range_stop arg mask (c ∷ s) h = rw h

  -- An item that is written in front of a comma or the end is read as that item.
  pub parse_item-write_item :
      (gap : ℕ) (x : Item) (rest : Bytes) (mask : Bitmask)
      → IsUsable usable x
      → Follows rest
      → parse_item usable allowed false mask (write_item gap x rest)
        ≡ ok (add_item allowed mask x, rest)
  unfolding parse_item item_from
  parse_item-write_item gap (one a) rest mask (u, h) f =
      rw (get_nr-decimal gap a rest allowed h (Follows-NoDigit rest f), item_from, u)
        (parse_range_stop a (bitmask_setbit mask a) rest f)
  parse_item-write_item gap (range a b) rest mask (ua, ha, ub, hb) f =
      rw (get_nr-decimal gap a (b'-' ∷ (decimal b ++ rest)) allowed ha (refl, refl), item_from, ua)
        (to_end (bitmask_setbit mask a))
    where
      to_end :
          (m : Bitmask)
          → parse_range usable allowed false a m (b'-' ∷ (decimal b ++ rest))
            ≡ ok (set_range allowed a b m, rest)
      to_end m =
          unfold parse_range range_to in
          rw (get_nr-decimal 0 b rest allowed hb (Follows-NoDigit rest f), range_to, ub)

-- The bits that an item adds.
pub add_item_lem :
    (allowed mask : Bitmask) (x : Item)
    → IsValid mask
    → IsValid (add_item allowed mask x)
      × ((add_item allowed mask x).size ≡ mask.size)
      × ((i : ℕ)
          → isbitset (add_item allowed mask x) i
            ≡ ((mentions allowed x i && ltb i mask.size) || isbitset mask i))
add_item_lem allowed mask (one a) v =
    let (v1, z1, b1) = bitmask_setbit_lem mask a v in (v1, z1, λ i. ground (arith, b1 i))
add_item_lem allowed mask (range a b) v =
    let (v1, z1, b1) = bitmask_setbit_lem mask a v in
    let (v2, z2, b2) = set_range_lem allowed a b (bitmask_setbit mask a) v1 in
    (v2, z2 ∙ z1, λ i. ground (arith, b1 i, b2 i))

pub add_items_lem :
    (allowed mask : Bitmask) (xs : List Item)
    → IsValid mask
    → IsValid (add_items allowed mask xs)
      × ((add_items allowed mask xs).size ≡ mask.size)
      × ((i : ℕ)
          → isbitset (add_items allowed mask xs) i
            ≡ ((mentioned allowed xs i && ltb i mask.size) || isbitset mask i))
add_items_lem allowed mask [] v = (v, refl, λ i. refl)
add_items_lem allowed mask (x ∷ xs) v =
    let (v1, z1, b1) = add_item_lem allowed mask x v in
    let (v2, z2, b2) = add_items_lem allowed (add_item allowed mask x) xs v1 in
    (v2, z2 ∙ z1, λ i. ground (arith, b1 i, b2 i))
