-- ===== src/Parse.antt =====
-- libnuma.c: `get_nr`, `__numa_parse_nodestring`, `__numa_parse_cpustring` and their callers.
-- A list such as `!+0-3,5` is read item by item. `resolve_affinity` of affinity.c, which asks the
-- system about devices, is a parameter: it returns its result and the mask as it leaves it.
use numactl.Base.{
  ℕ, zero, suc, ◌+◌, ◌-◌, ◌^◌, ◌%◌, ◌≡◌, Bool, true, false, not, ◌&&◌, ◌||◌, List, [], ◌∷◌, Option,
  none, some, Bytes, codes, str_eq, length, ltb, leb, ◌==◌, if◌then◌else◌,
}
use numactl.Base.Ints.{ℤ, pos, negsuc, is_neg}
use numactl.Base.Loops.{for_range}
use numactl.Bitmask.{Bitmask, isbitset, bitmask_setbit, bitmask_clearbit}
use numactl.Bitmask.Copy.{copy_bitmask_to_bitmask}
use numactl.Text.{isalpha, first_byte, strtoul}
use numactl.Libnuma.{
  State, rounds_to, num_configured_nodes, num_configured_cpus, allocate_nodemask, allocate_cpumask,
}
pub mod Relative
pub mod Range
pub mod Fuel
pub mod Sound
pub mod Grammar
pub mod Complete
pub mod Invert

-- Why a string is refused: the messages of `numa_warn`, a device that cannot be resolved, and
-- text behind the last item.
pub data Reason : Type 0 where
  unparseable out_of_range missing_argument no_affinity trailing : Reason

-- `exhausted` is out of fuel; no call of the parsers below returns it.
pub data Result (A : Type 0) : Type 0 where
  ok : A → Result A
  refused : Reason → Result A
  no_mask exhausted : Result A

-- The loop of `get_nr`: `nr` is counted from one up, so that 0 stands for a negative `nr`, and
-- `n` rounds are left of the `bmp->size + 1`.
unfoldable pub nth_set : ℕ → ℕ → ℕ → Bitmask → ℕ
nth_set zero i nr bmp = i
nth_set (suc n) i zero bmp = i
nth_set (suc n) i (suc nr) bmp = nth_set n (suc i) (if isbitset bmp i then nr else suc nr) bmp

-- `get_nr`: the number and `*end`, or `none` where `*end` is `s`. A relative number is a `long`,
-- negative from 2^63, and `i - 1` is returned as an `unsigned long`.
unfoldable pub get_nr : Bytes → Bitmask → Bool → Option (ℕ × Bytes)
get_nr s bmp relative = elim (strtoul 0 s) [
  | none ↦ none
  | some (nr, end) ↦
      if not relative
      then some (nr, end)
      else (let count = if ltb nr (2 ^ 63) then suc nr else 0 in
          some ((nth_set (bmp.size + 1) 0 count bmp + 2 ^ 64 - 1) % 2 ^ 64, end))
]

-- `while (arg <= arg2) { ... arg++; }` of both parsers.
unfoldable pub set_range : Bitmask → ℕ → ℕ → Bitmask → Bitmask
set_range allowed arg arg2 mask =
    for_range (arg2 + 1 - arg) arg (λ i m. if isbitset allowed i then bitmask_setbit m i else m)
      mask

-- Both parsers test an argument before use: `usable arg` is the negation of the test.
module _ (usable : ℕ → Bool) (allowed : Bitmask) (relative : Bool) where
  -- `arg2` and the range, behind a `-`.
  unfoldable pub range_to : ℕ → Bitmask → Option (ℕ × Bytes) → Result (Bitmask × Bytes)
  range_to arg mask none = refused missing_argument
  range_to arg mask (some (arg2, end2)) =
      if usable arg2 then ok (set_range allowed arg arg2 mask, end2) else refused out_of_range

  -- The part of an item behind its first number: a range if a `-` follows.
  unfoldable pub parse_range : ℕ → Bitmask → Bytes → Result (Bitmask × Bytes)
  parse_range arg mask [] = ok (mask, [])
  parse_range arg mask (c ∷ s) =
      if c == b'-' then range_to arg mask (get_nr s allowed relative) else ok (mask, c ∷ s)

  -- `arg`, and what may follow it.
  unfoldable pub item_from : Bitmask → Option (ℕ × Bytes) → Result (Bitmask × Bytes)
  item_from mask none = refused unparseable
  item_from mask (some (arg, end)) =
      if usable arg then parse_range arg (bitmask_setbit mask arg) end else refused out_of_range

  -- A number or a range; the text behind it is returned.
  unfoldable pub parse_item : Bitmask → Bytes → Result (Bitmask × Bytes)
  parse_item mask s = item_from mask (get_nr s allowed relative)

-- `if (invert) for (i = 0; i < conf; i++) ...` of both parsers.
unfoldable pub invert_mask : ℕ → Bitmask → Bitmask
invert_mask conf mask =
    for_range conf 0 (λ i m. if isbitset m i then bitmask_clearbit m i else bitmask_setbit m i) mask

abbrev pub no_io_affinity : ℤ
no_io_affinity = negsuc 1

abbrev pub is_affinity : ℤ → Bool
is_affinity (negsuc (suc zero)) = false
is_affinity _ = true

-- A leading character that is a flag, and what follows.
abbrev pub flag : ℕ → Bytes → Bool × Bytes
flag f [] = (false, [])
flag f (c ∷ s) = if c == f then (true, s) else (false, c ∷ s)

-- `while (*s++ == ',')` behind an item, and then `if (s[-1] != '\0') goto err`.
abbrev pub after_item :
    (Bitmask → Bytes → Result Bitmask) → Result (Bitmask × Bytes) → Result Bitmask
after_item loop (ok (mask, [])) = ok mask
after_item loop (ok (mask, c ∷ s)) = if c == b',' then loop mask s else refused trailing
after_item loop (refused r) = refused r
after_item loop no_mask = no_mask
after_item loop exhausted = exhausted

abbrev pub finish : (Bitmask → Bitmask) → Result Bitmask → Result Bitmask
finish f (ok mask) = ok (f mask)
finish f r = r

-- The negation of `arg >= allowed_nodes_ptr->size || !numa_bitmask_isbitset(...)`.
abbrev pub usable_node : Bitmask → ℕ → Bool
usable_node allowed arg = ltb arg allowed.size && isbitset allowed arg

-- The negation of `arg >= conf_cpus`.
abbrev pub usable_cpu : ℕ → ℕ → Bool
usable_cpu conf_cpus arg = ltb arg conf_cpus

module _ (resolve : Bytes → Bitmask → ℤ × Bitmask) (allowed : Bitmask) (relative : Bool) where
  -- The loop of `__numa_parse_nodestring`; each round but the last reads a character.
  unfoldable pub nodes_loop : ℕ → Bitmask → Bytes → Result Bitmask
  nodes_loop zero mask s = exhausted
  nodes_loop (suc fuel) mask s =
      let number =
        after_item (nodes_loop fuel) (parse_item (usable_node allowed) allowed relative mask s) in
      let (n, mask') = resolve s mask in
      let device =
        if is_affinity n then (if is_neg n then refused no_affinity else ok mask') else number in
      if isalpha (first_byte s)
      then (if str_eq s (codes "all") then ok (copy_bitmask_to_bitmask allowed mask) else device)
      else number

-- The loop of `__numa_parse_cpustring`.
module _ (conf_cpus : ℕ) (allowed : Bitmask) (relative : Bool) where
  unfoldable pub cpus_loop : ℕ → Bitmask → Bytes → Result Bitmask
  cpus_loop zero mask s = exhausted
  cpus_loop (suc fuel) mask s =
      let number =
        after_item (cpus_loop fuel) (parse_item (usable_cpu conf_cpus) allowed relative mask s) in
      if str_eq s (codes "all") then ok (copy_bitmask_to_bitmask allowed mask) else number

module _ (resolve : Bytes → Bitmask → ℤ × Bitmask) (st : State) where
  -- `__numa_parse_nodestring` on a mask that was allocated.
  unfoldable pub parse_nodes_into : Bitmask → Bytes → Bitmask → Result Bitmask
  parse_nodes_into allowed [] mask = ok (copy_bitmask_to_bitmask st.no_nodes_ptr mask)
  parse_nodes_into allowed (c ∷ s) mask =
      let (invert, s1) = flag b'!' (c ∷ s) in
      let (relative, s2) = flag b'+' s1 in
      finish (λ m. if invert then invert_mask (num_configured_nodes st) m else m)
        (nodes_loop resolve allowed relative (suc (length s2)) mask s2)

  -- `__numa_parse_nodestring`
  unfoldable pub parse_nodestring_in : Bitmask → Bytes → Result Bitmask
  parse_nodestring_in allowed s = elim (allocate_nodemask st) [
    | none ↦ no_mask
    | some mask ↦ parse_nodes_into allowed s mask
  ]

  -- `numa_parse_nodestring`
  unfoldable pub parse_nodestring : Bytes → Result Bitmask
  parse_nodestring s = parse_nodestring_in st.all_nodes_ptr s

  -- `numa_parse_nodestring_all`
  unfoldable pub parse_nodestring_all : Bytes → Result Bitmask
  parse_nodestring_all s = parse_nodestring_in st.possible_nodes_ptr s

module _ (st : State) where
  -- `__numa_parse_cpustring` on a mask that was allocated.
  unfoldable pub parse_cpus_into : Bitmask → Bytes → Bitmask → Result Bitmask
  parse_cpus_into allowed [] mask = ok mask
  parse_cpus_into allowed (c ∷ s) mask =
      let (invert, s1) = flag b'!' (c ∷ s) in
      let (relative, s2) = flag b'+' s1 in
      finish (λ m. if invert then invert_mask (rounds_to st.maxconfiguredcpu) m else m)
        (cpus_loop (num_configured_cpus st) allowed relative (suc (length s2)) mask s2)

  -- `__numa_parse_cpustring`
  unfoldable pub parse_cpustring_in : Bitmask → Bytes → Result Bitmask
  parse_cpustring_in allowed s = elim (allocate_cpumask st) [
    | none ↦ no_mask
    | some mask ↦ parse_cpus_into allowed s mask
  ]

  -- `numa_parse_cpustring`
  unfoldable pub parse_cpustring : Bytes → Result Bitmask
  parse_cpustring s = parse_cpustring_in st.all_cpus_ptr s

  -- `numa_parse_cpustring_all`
  unfoldable pub parse_cpustring_all : Bytes → Result Bitmask
  parse_cpustring_all s = parse_cpustring_in st.possible_cpus_ptr s
