-- ===== src/Parse/Complete.antt =====
-- A list that is written as the documentation says is read as the set that it stands for.
use numactl.Base.{
  ℕ, zero, suc, ◌≤◌, ◌<◌, ◌≡◌, refl, true, false, ◌&&◌, ◌||◌, List, [], ◌∷◌, ◌++◌, Bytes, codes,
  str_eq, length, ltb, ◌==◌, arith, length-append, ◌∙◌, ap,
}
use numactl.Base.Ints.{ℤ}
use numactl.Bitmask.{Bitmask, IsValid, isbitset}
use numactl.Text.{isalpha, isdigit, first_byte, decimal}
use numactl.Text.Decimal.{first_byte-decimal}
use numactl.Libnuma.{State, num_configured_cpus}
use numactl.Libnuma.Laws.{IsReady, IsFresh, allocate_nodemask_lem, allocate_cpumask_lem}
use numactl.Parse.Grammar.{
  Item, one, range, blanks, write_item, write_items, mentioned, AllUsable, add_item, add_items,
  parse_item-write_item, add_items_lem,
}
use numactl.Parse.{
  Result, ok, flag, finish, usable_node, usable_cpu, nodes_loop, cpus_loop, parse_nodes_into,
  parse_cpus_into, parse_nodestring_in, parse_cpustring_in,
}

-- A text that begins with a digit or a blank is no word and no flag.
abbrev Numeric : Bytes → Type 0
Numeric s = (isdigit (first_byte s) || first_byte s == b' ') ≡ true

write_item-Numeric : (gap : ℕ) (x : Item) (rest : Bytes) → Numeric (write_item gap x rest)
write_item-Numeric zero (one a) rest = ground (arith, first_byte-decimal a rest)
write_item-Numeric zero (range a b) rest =
    ground (arith, first_byte-decimal a (b'-' ∷ (decimal b ++ rest)))
write_item-Numeric (suc gap) (one a) rest = refl
write_item-Numeric (suc gap) (range a b) rest = refl

write_items-Numeric : (gap : ℕ) (x : Item) (xs : List Item) → Numeric (write_items gap x xs)
write_items-Numeric gap x [] = write_item-Numeric gap x []
write_items-Numeric gap x (y ∷ ys) = write_item-Numeric gap x (b',' ∷ write_items gap y ys)

Numeric-plain :
    (s : Bytes)
    → Numeric s
    → (isalpha (first_byte s) ≡ false)
      × (str_eq s (codes "all") ≡ false)
      × (flag b'!' s ≡ (false, s))
      × (flag b'+' s ≡ (false, s))
      × (0 < length s)
Numeric-plain [] h = cc h
Numeric-plain (c ∷ s) h = (ground arith, ground arith, ground arith, ground arith, omega arith)

length-blanks : (gap : ℕ) (s : Bytes) → length s ≤ length (blanks gap s)
length-blanks zero s = omega arith
length-blanks (suc gap) s = omega (arith, length-blanks gap s)

length-write_item :
    (gap : ℕ) (x : Item) (rest : Bytes) → length rest ≤ length (write_item gap x rest)
length-write_item gap (one a) rest =
    omega (arith, length-blanks gap (decimal a ++ rest), length-append (decimal a) rest)
length-write_item gap (range a b) rest = omega (
  arith,
  length-blanks gap (decimal a ++ (b'-' ∷ (decimal b ++ rest))),
  length-append (decimal a) (b'-' ∷ (decimal b ++ rest)),
  length-append (decimal b) rest,
)

-- Each item but the last has a comma behind it.
length-write_items :
    (gap : ℕ) (x : Item) (xs : List Item) → length xs ≤ length (write_items gap x xs)
length-write_items gap x [] = omega arith
length-write_items gap x (y ∷ ys) =
    omega
      (arith, length-write_item gap x (b',' ∷ write_items gap y ys), length-write_items gap y ys)

module _ (resolve : Bytes → Bitmask → ℤ × Bitmask) (allowed : Bitmask) where
  nodes_loop-write_items :
      (gap fuel : ℕ) (mask : Bitmask) (x : Item) (xs : List Item)
      → length xs < fuel
      → AllUsable (usable_node allowed) (x ∷ xs)
      → nodes_loop resolve allowed false fuel mask (write_items gap x xs)
        ≡ ok (add_items allowed mask (x ∷ xs))
  unfolding nodes_loop
  nodes_loop-write_items gap zero mask x xs h u = absurd (omega arith)
  nodes_loop-write_items gap (suc fuel) mask x [] h (u, _) =
      rw
        (
          (Numeric-plain (write_item gap x []) (write_item-Numeric gap x [])).0,
          parse_item-write_item (usable_node allowed) allowed gap x [] mask u tt,
        )
        refl
  nodes_loop-write_items gap (suc fuel) mask x (y ∷ ys) h (u, us) =
      let rest = b',' ∷ write_items gap y ys in
      rw
        (
          (Numeric-plain (write_item gap x rest) (write_item-Numeric gap x rest)).0,
          parse_item-write_item (usable_node allowed) allowed gap x rest mask u refl,
        )
        (nodes_loop-write_items gap fuel (add_item allowed mask x) y ys (omega arith) us)

module _ (conf : ℕ) (allowed : Bitmask) where
  cpus_loop-write_items :
      (gap fuel : ℕ) (mask : Bitmask) (x : Item) (xs : List Item)
      → length xs < fuel
      → AllUsable (usable_cpu conf) (x ∷ xs)
      → cpus_loop conf allowed false fuel mask (write_items gap x xs)
        ≡ ok (add_items allowed mask (x ∷ xs))
  unfolding cpus_loop
  cpus_loop-write_items gap zero mask x xs h u = absurd (omega arith)
  cpus_loop-write_items gap (suc fuel) mask x [] h (u, _) =
      rw
        (
          (Numeric-plain (write_item gap x []) (write_item-Numeric gap x [])).1,
          parse_item-write_item (usable_cpu conf) allowed gap x [] mask u tt,
        )
        refl
  cpus_loop-write_items gap (suc fuel) mask x (y ∷ ys) h (u, us) =
      let rest = b',' ∷ write_items gap y ys in
      rw
        (
          (Numeric-plain (write_item gap x rest) (write_item-Numeric gap x rest)).1,
          parse_item-write_item (usable_cpu conf) allowed gap x rest mask u refl,
        )
        (cpus_loop-write_items gap fuel (add_item allowed mask x) y ys (omega arith) us)

parse_nodes_into-Numeric :
    (resolve : Bytes → Bitmask → ℤ × Bitmask) (st : State) (allowed mask : Bitmask) (s : Bytes)
    → Numeric s
    → parse_nodes_into resolve st allowed s mask
      ≡ finish (λ m. m) (nodes_loop resolve allowed false (suc (length s)) mask s)
unfolding parse_nodes_into
parse_nodes_into-Numeric resolve st allowed mask [] h = cc h
parse_nodes_into-Numeric resolve st allowed mask (c ∷ s) h =
    let p = Numeric-plain (c ∷ s) h in rw (p.2, p.3)

parse_cpus_into-Numeric :
    (st : State) (allowed mask : Bitmask) (s : Bytes)
    → Numeric s
    → parse_cpus_into st allowed s mask
      ≡ finish (λ m. m) (cpus_loop (num_configured_cpus st) allowed false (suc (length s)) mask s)
unfolding parse_cpus_into
parse_cpus_into-Numeric st allowed mask [] h = cc h
parse_cpus_into-Numeric st allowed mask (c ∷ s) h = let p = Numeric-plain (c ∷ s) h in rw (p.2, p.3)

-- A parsed mask that holds exactly the numbers that the list mentions, as far as they fit.
pub record Denotes (allowed : Bitmask) (n : ℕ) (xs : List Item) (r : Result Bitmask) : Type 0 where
  pub mask : Bitmask
  pub returned : r ≡ ok mask
  pub valid : IsValid mask
  pub sized : mask.size ≡ n
  pub exact : (i : ℕ) → isbitset mask i ≡ (mentioned allowed xs i && ltb i n)

Denotes-fresh :
    (allowed fresh : Bitmask) (n : ℕ) (xs : List Item) (r : Result Bitmask)
    → IsFresh n fresh
    → r ≡ ok (add_items allowed fresh xs)
    → Denotes allowed n xs r
Denotes-fresh allowed fresh n xs r f e =
    let (v, z, bits) = add_items_lem allowed fresh xs f.valid in
    record {
      mask = add_items allowed fresh xs;
      returned = e;
      valid = v;
      sized = z ∙ f.sized;
      exact = λ i. ground (arith, bits i, f.empty i, f.sized);
    }

-- `numa_parse_nodestring` reads a written list of allowed nodes and ranges, with any number of
-- blanks before the items, as the set of the numbers that it mentions.
pub parse_nodestring-write_items :
    (resolve : Bytes → Bitmask → ℤ × Bitmask) (st : State) (allowed : Bitmask) (gap : ℕ) (x : Item)
    (xs : List Item)
    → IsReady st
    → AllUsable (usable_node allowed) (x ∷ xs)
    → Denotes allowed st.nodemask_sz
        (x ∷ xs)
        (parse_nodestring_in resolve st allowed (write_items gap x xs))
unfolding parse_nodestring_in
parse_nodestring-write_items resolve st allowed gap x xs ready u =
    let (fresh, given, f) = allocate_nodemask_lem st ready in
    let s = write_items gap x xs in
    let loop =
      nodes_loop-write_items resolve allowed gap (suc (length s)) fresh x xs
        (omega (arith, length-write_items gap x xs)) u in
    Denotes-fresh allowed fresh st.nodemask_sz (x ∷ xs) _ f (
      rw (given, parse_nodestring_in)
        (parse_nodes_into-Numeric resolve st allowed fresh s (write_items-Numeric gap x xs)
          ∙ ap (finish (λ m. m)) loop))

-- `numa_parse_cpustring` reads a written list of configured cpus and ranges as the set that has
-- each single cpu and the lower end of each range, allowed or not, and those of the other cpus of a
-- range that are allowed.
pub parse_cpustring-write_items :
    (st : State) (allowed : Bitmask) (gap : ℕ) (x : Item) (xs : List Item)
    → IsReady st
    → AllUsable (usable_cpu (num_configured_cpus st)) (x ∷ xs)
    → Denotes allowed st.cpumask_sz (x ∷ xs) (parse_cpustring_in st allowed (write_items gap x xs))
unfolding parse_cpustring_in
parse_cpustring-write_items st allowed gap x xs ready u =
    let (fresh, given, f) = allocate_cpumask_lem st ready in
    let s = write_items gap x xs in
    let loop =
      cpus_loop-write_items (num_configured_cpus st) allowed gap (suc (length s)) fresh x xs
        (omega (arith, length-write_items gap x xs)) u in
    Denotes-fresh allowed fresh st.cpumask_sz (x ∷ xs) _ f (
      rw (given, parse_cpustring_in)
        (parse_cpus_into-Numeric st allowed fresh s (write_items-Numeric gap x xs)
          ∙ ap (finish (λ m. m)) loop))
