-- ===== src/Tests/Strings.antt =====
-- The theorems on numbers, lists of nodes and cpus, and printed masks at concrete strings, and on
-- a machine with four cpus and the nodes 0, 2 and 3.
use numactl.Base.{
  ℕ, zero, suc, ◌^◌, ◌≤◌, ◌<◌, ◌≡◌, ◌≢◌, ◌⊎◌, inl, inr, refl, true, false, not, ◌&&◌, List, [], ◌∷◌,
  ◌++◌, some, Bytes, codes, arith, ltb, if◌then◌else◌, get_or,
}
use numactl.Base.Bits.{nth_bit, nth_bit-zero}
use numactl.Base.Ints.{ℤ, pos}
use numactl.Base.Loops.{for_range}
use numactl.Bitmask.{Bitmask, IsValid, isbitset, getbit, weight}
use numactl.Bitmask.Ops.{getbit_lem, word_bit}
use numactl.Hardware.{print_node_cpus, print_count}
use numactl.Hardware.RoundTrip.{ReadsBack, print_node_cpus-parse}
use numactl.Hardware.Runs.{Run, AreRuns, write_runs, print_node_cpus-write_runs}
use numactl.Libnuma.{State, num_configured_nodes, num_configured_cpus}
use numactl.Libnuma.Laws.{IsReady}
use numactl.Parse.{ok, exhausted, no_io_affinity, parse_nodestring_in, parse_cpustring_in}
use numactl.Parse.Complete.{Denotes, parse_nodestring-write_items, parse_cpustring-write_items}
use numactl.Parse.Fuel.{parse_nodestring-ends, parse_cpustring-ends}
use numactl.Parse.Grammar.{Item, one, range, write_items}
use numactl.Parse.Invert.{parse_nodestring_invert}
use numactl.Parse.Sound.{Within, KeepsWithin, parse_nodestring-Within}
use numactl.Tests.Masks.{eight, eight-IsValid, eight-IsTidy, one_word-IsTidy}
use numactl.Text.{strtoul, decimal, digits_onto}
use numactl.Text.Decimal.{strtoul-decimal}

abbrev pub empty : Bitmask
empty = record { size = 8; maskp = 0 ∷ [] }

pub empty-IsValid : IsValid empty
empty-IsValid = record { fits = omega arith; words = refl; range = range }
  where
    range : (i : ℕ) → get_or (0 ∷ []) i 0 < 2 ^ 64
    range zero = omega arith
    range (suc i) = omega arith

pub empty_lem : (i : ℕ) → isbitset empty i ≡ false
unfolding isbitset
empty_lem i =
    ground (arith, getbit_lem empty i, one_word-IsTidy 0 0 (λ k l. nth_bit-zero k) i (omega arith))

abbrev pub machine : State
machine = record {
  nodemask_sz = 8;
  cpumask_sz = 8;
  maxconfigurednode = pos 3;
  maxconfiguredcpu = pos 3;
  numprocnode = pos 3;
  numproccpu = pos 4;
  nodes_ptr = eight;
  memnode_ptr = eight;
  no_nodes_ptr = empty;
  all_nodes_ptr = eight;
  possible_nodes_ptr = eight;
  all_cpus_ptr = eight;
  possible_cpus_ptr = eight;
}

pub machine-IsReady : IsReady machine
unfolding num_configured_nodes num_configured_cpus isbitset getbit for_range
machine-IsReady = record {
  node_size = (omega arith, omega arith);
  cpu_size = (omega arith, omega arith);
  no_nodes = (empty-IsValid, one_word-IsTidy 8 0 (λ k l. nth_bit-zero k));
  no_nodes_empty = empty_lem;
  configured_cpus = omega arith;
  configured_nodes = let e : num_configured_nodes machine ≡ 3 = refl in omega (arith, e);
}

-- No word names a device.
abbrev pub no_device : Bytes → Bitmask → ℤ × Bitmask
no_device s mask = (no_io_affinity, mask)

no_device-KeepsWithin : KeepsWithin no_device eight 8
unfolding KeepsWithin
no_device-KeepsWithin s m w = w

strtoul-decimal_example : strtoul 0 (decimal 42 ++ codes "-5") ≡ some (42, codes "-5")
strtoul-decimal_example = strtoul-decimal 42 (codes "-5") (omega arith) (refl, refl)

one_read : strtoul 0 (codes "1,") ≡ some (1, codes ",")
unfolding decimal digits_onto
one_read = strtoul-decimal 1 (codes ",") (omega arith) (refl, refl)

parse_nodestring-ends_example :
    parse_nodestring_in no_device machine eight (codes "!+0-1,x") ≢ exhausted
parse_nodestring-ends_example = parse_nodestring-ends no_device machine eight (codes "!+0-1,x")

parse_cpustring-ends_example : parse_cpustring_in machine eight (codes "!+0-1,x") ≢ exhausted
parse_cpustring-ends_example = parse_cpustring-ends machine eight (codes "!+0-1,x")

abbrev two_items : List Item
two_items = range 0 2 ∷ one 3 ∷ []

parse_nodestring-write_items_example :
    Denotes eight 8 two_items
      (parse_nodestring_in no_device machine eight (write_items 1 (range 0 2) (one 3 ∷ [])))
unfolding isbitset getbit
parse_nodestring-write_items_example =
    parse_nodestring-write_items no_device machine eight 1 (range 0 2) (one 3 ∷ []) machine-IsReady
      ((refl, omega arith, refl, omega arith), ((refl, omega arith), tt))

parse_cpustring-write_items_example :
    Denotes eight 8 two_items
      (parse_cpustring_in machine eight (write_items 1 (range 0 2) (one 3 ∷ [])))
unfolding num_configured_cpus
parse_cpustring-write_items_example =
    parse_cpustring-write_items machine eight 1 (range 0 2) (one 3 ∷ []) machine-IsReady
      ((refl, omega arith, refl, omega arith), ((refl, omega arith), tt))

-- The string `2` is the node 2.
parsed_two : Denotes eight 8 (one 2 ∷ []) (parse_nodestring_in no_device machine eight (codes "2"))
unfolding isbitset getbit decimal digits_onto
parsed_two =
    parse_nodestring-write_items no_device machine eight 0 (one 2) [] machine-IsReady
      ((refl, omega arith), tt)

parse_nodestring-Within_example : Within eight 8 parsed_two.mask
parse_nodestring-Within_example =
    parse_nodestring-Within no_device machine eight b'2' [] parsed_two.mask machine-IsReady
      eight-IsValid eight-IsTidy no_device-KeepsWithin refl parsed_two.returned

parse_nodestring_invert_example :
    (m : Bitmask) × (parse_nodestring_in no_device machine eight (codes "!2") ≡ ok m)
    × ((i : ℕ)
        → isbitset m i ≡ (
            if ltb i (num_configured_nodes machine) && ltb i parsed_two.mask.size
            then not (isbitset parsed_two.mask i)
            else isbitset parsed_two.mask i))
parse_nodestring_invert_example =
    parse_nodestring_invert no_device machine eight b'2' [] parsed_two.mask refl parsed_two.valid
      parsed_two.returned

print_node_cpus-write_runs_example :
    (rs : List Run) × AreRuns eight 0 rs
    × (print_node_cpus true eight ≡ write_runs false rs (print_count (weight eight)))
print_node_cpus-write_runs_example = print_node_cpus-write_runs eight

low_cpus : (i : ℕ) → isbitset eight i ≡ true → i < num_configured_cpus machine
unfolding num_configured_cpus isbitset
low_cpus i s = elim (split i) [
  | inl l ↦ l
  | inr high ↦
      let clear : word_bit eight i ≡ 0 = one_word-IsTidy 4 13 nibble i high in
      absurd (ground (arith, getbit_lem eight i, clear))
]
  where
    split : (x : ℕ) → (x < 4) ⊎ (4 ≤ x)
    split x = omega arith

    nibble : (k : ℕ) → 4 ≤ k → nth_bit k 13 ≡ 0
    nibble zero l = absurd (omega arith)
    nibble (suc zero) l = absurd (omega arith)
    nibble (suc (suc zero)) l = absurd (omega arith)
    nibble (suc (suc (suc zero))) l = absurd (omega arith)
    nibble (suc (suc (suc (suc k)))) l = nth_bit-zero k

print_node_cpus-parse_example : ReadsBack machine eight eight
unfolding weight isbitset getbit for_range
print_node_cpus-parse_example =
    print_node_cpus-parse machine eight eight machine-IsReady eight-IsValid (omega arith)
      (let e : weight eight ≡ 3 = refl in omega (arith, e)) low_cpus (λ i s. s)
