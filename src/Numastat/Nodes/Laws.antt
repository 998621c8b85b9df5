-- ===== src/Numastat/Nodes/Laws.antt =====
-- numastat.c: the map of the nodes has each node of the system, in ascending order.
use numactl.Base.{
  ℕ, ◌-◌, ◌^◌, ◌≤◌, ◌<◌, ◌≡◌, refl, ap, ◌∙◌, sym, true, false, List, [], ◌∷◌, ◌++◌, some, Bytes,
  codes, arith, ltb, length, get_or,
}
use numactl.Base.Ints.{ℤ, pos, negsuc, int_lt}
use numactl.Numastat.Nodes.{
  only_digits, some_digits, node_and_digits, node_numbers, init_node_ix_map,
}
use numactl.Numastat.Selection.Moves.{Swaps, length-Swaps}
use numactl.Numastat.Selection.Sort.{IsOrder, sort_from-Sorts}
use numactl.Text.{isdigit, first_byte, decimal}
use numactl.Text.Decimal.{Digits, decimal-Digits, atoi-decimal, first_byte-decimal, append_nothing}

descending-IsOrder : IsOrder (λ x y. int_lt y x)
descending-IsOrder = record { asym = asym; trans = trans }
  where
    asym : (x y : ℤ) → int_lt y x ≡ true → int_lt x y ≡ false
    asym (pos m) (pos n) h = ground arith
    asym (pos m) (negsuc n) h = refl
    asym (negsuc m) (pos n) h = sym h
    asym (negsuc m) (negsuc n) h = ground arith

    trans : (x y z : ℤ) → int_lt y x ≡ false → int_lt z y ≡ false → int_lt z x ≡ false
    trans (pos a) (pos b) (pos c) h l = ground arith
    trans (pos a) (pos b) (negsuc c) h l = l
    trans (pos a) (negsuc b) z h l = cc h
    trans (negsuc a) y (pos c) h l = refl
    trans (negsuc a) (pos b) (negsuc c) h l = cc l
    trans (negsuc a) (negsuc b) (negsuc c) h l = ground arith

-- An entry of the directory: that of a node, or another one.
pub data Entry : Type 0 where
  node : ℕ → Entry
  other : Bytes → Entry

-- Numbers of nodes are ints, and the other names are not of that form.
abbrev pub IsDirectory : List Entry → Type 0
IsDirectory [] = Unit
IsDirectory (node n ∷ rest) = (n < 2 ^ 31) × IsDirectory rest
IsDirectory (other name ∷ rest) = (node_and_digits name ≡ false) × IsDirectory rest

abbrev pub d_names : List Entry → List Bytes
d_names [] = []
d_names (node n ∷ rest) = (codes "node" ++ decimal n) ∷ d_names rest
d_names (other name ∷ rest) = name ∷ d_names rest

abbrev pub numbers : List Entry → List ℤ
numbers [] = []
numbers (node n ∷ rest) = pos n ∷ numbers rest
numbers (other name ∷ rest) = numbers rest

Digits-only_digits : (s : Bytes) → Digits s → only_digits s ≡ true
Digits-only_digits [] d = refl
Digits-only_digits (c ∷ s) (h, d) = rw h (Digits-only_digits s d)

some_digits_lem :
    (s : Bytes) → Digits s → isdigit (first_byte s) ≡ true → some_digits (some s) ≡ true
some_digits_lem [] d h = cc h
some_digits_lem (c ∷ s) d h = Digits-only_digits (c ∷ s) d

first_digit : (n : ℕ) → isdigit (first_byte (decimal n)) ≡ true
first_digit n =
    ap (λ t. isdigit (first_byte t)) (append_nothing (decimal n)) ∙ first_byte-decimal n []

node_and_digits-decimal : (n : ℕ) → node_and_digits (codes "node" ++ decimal n) ≡ true
unfolding node_and_digits
node_and_digits-decimal n = some_digits_lem (decimal n) (decimal-Digits n) (first_digit n)

node_numbers_lem :
    (entries : List Entry) → IsDirectory entries → node_numbers (d_names entries) ≡ numbers entries
unfolding node_numbers
node_numbers_lem [] d = refl
node_numbers_lem (node n ∷ rest) (h, d) =
    rw (node_and_digits-decimal n, atoi-decimal n h) (ap (λ t. pos n ∷ t) (node_numbers_lem rest d))
node_numbers_lem (other name ∷ rest) (h, d) = rw h (node_numbers_lem rest d)

-- Each number is at most the ones behind it.
abbrev pub Ascends : List ℤ → Type 0
Ascends m =
    (i j : ℕ) → i ≤ j → j < length m → int_lt (get_or m j (pos 0)) (get_or m i (pos 0)) ≡ false

-- Where the directory has a node, and other names are not `node` with digits behind it,
-- `init_node_ix_map_and_header` finds a map that is a rearrangement of the numbers of the nodes, by
-- swaps, and in ascending order.
pub init_node_ix_map-Ascends :
    (entries : List Entry)
    → IsDirectory entries
    → 0 < length (numbers entries)
    → (m : List ℤ) × (init_node_ix_map (d_names entries) ≡ some m)
      × Ascends m
      × Swaps (pos 0) 0 (length (numbers entries) - 1) (numbers entries) m
unfolding init_node_ix_map
init_node_ix_map-Ascends entries d h =
    let found = numbers entries in
    let (descends, swaps) =
      sort_from-Sorts (pos 0) (λ x y. int_lt y x) descending-IsOrder (λ x. x) 0 (length found - 1)
        (length found) 0 found (omega arith) (omega (arith, h)) (omega (arith, h))
        (λ i j q l. absurd (omega (arith, l))) in
    let some_node : ltb (length found) 1 ≡ false = ground (arith, h) in
    rw (node_numbers_lem entries d) (
      rw some_node (
        _,
        refl,
        (λ i j q l.
            let n = length-Swaps _ _ _ _ _ swaps in
            descends i j (omega arith) (omega (arith, q, l, n, h)) q (omega (arith, l, n, h))),
        swaps,
      ))
