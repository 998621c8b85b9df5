-- ===== src/Parse/Fuel.antt =====
-- The parsers' loops end: each round but the last reads at least one character.
use numactl.Base.{
  ℕ, zero, suc, ◌≤◌, ◌<◌, ◌≡◌, ◌≢◌, inl, inr, refl, Bool, [], ◌∷◌, Option, none, some, Bytes,
  length, ◌==◌, arith, Bool-cases, Option-cases,
}
use numactl.Base.Ints.{ℤ}
use numactl.Bitmask.{Bitmask, bitmask_setbit}
use numactl.Text.{strtoul}
use numactl.Text.Strtoul.{length-strtoul}
use numactl.Libnuma.{State, num_configured_cpus, allocate_nodemask, allocate_cpumask}
use numactl.Parse.{
  Result, ok, refused, no_mask, exhausted, get_nr, range_to, parse_range, item_from, parse_item,
  after_item, nodes_loop, cpus_loop, usable_node, usable_cpu, flag, finish, parse_nodes_into,
  parse_cpus_into, parse_nodestring_in, parse_cpustring_in,
}

pub length-get_nr :
    (s : Bytes) (b : Bitmask) (relative : Bool) (v : ℕ) (end : Bytes)
    → get_nr s b relative ≡ some (v, end)
    → length end < length s
unfolding get_nr
length-get_nr s b relative v end h = elim (Option-cases (strtoul 0 s)) [
  | inl stop ↦ cc (rw (stop, get_nr) at h)
  | inr (r, read) ↦
      let h' = rw (read, get_nr) at h in
      ground (arith, length-strtoul 0 s {v = r.0} {end = r.1} read)
]

-- How much of the text an item leaves.
abbrev Leaves : ℕ → Result (Bitmask × Bytes) → Type 0
Leaves n (ok (m, s)) = length s < n
Leaves n exhausted = ⊥
Leaves n _ = Unit

module _ (usable : ℕ → Bool) (allowed : Bitmask) (relative : Bool) where
  range_to-Leaves :
      (n arg : ℕ) (mask : Bitmask) (o : Option (ℕ × Bytes))
      → ((v : ℕ) (end : Bytes) → o ≡ some (v, end) → length end < n)
      → Leaves n (range_to usable allowed relative arg mask o)
  unfolding range_to
  range_to-Leaves n arg mask none h = tt
  range_to-Leaves n arg mask (some (v, end)) h = elim (Bool-cases (usable v)) [
    | inl fine ↦ rw fine (h v end refl)
    | inr bad ↦ rw bad tt
  ]

  parse_range-Leaves :
      (n arg : ℕ) (mask : Bitmask) (s : Bytes)
      → length s < n
      → Leaves n (parse_range usable allowed relative arg mask s)
  unfolding parse_range
  parse_range-Leaves n arg mask [] h = h
  parse_range-Leaves n arg mask (c ∷ s) h = elim (Bool-cases (c == b'-')) [
    | inl dash ↦ rw dash (
        range_to-Leaves n arg mask (get_nr s allowed relative)
          (λ v end e. omega (arith, length-get_nr s allowed relative v end e)))
    | inr other ↦ rw other h
  ]

  item_from-Leaves :
      (n : ℕ) (mask : Bitmask) (o : Option (ℕ × Bytes))
      → ((v : ℕ) (end : Bytes) → o ≡ some (v, end) → length end < n)
      → Leaves n (item_from usable allowed relative mask o)
  unfolding item_from
  item_from-Leaves n mask none h = tt
  item_from-Leaves n mask (some (v, end)) h = elim (Bool-cases (usable v)) [
    | inl fine ↦ rw fine (parse_range-Leaves n v (bitmask_setbit mask v) end (h v end refl))
    | inr bad ↦ rw bad tt
  ]

  parse_item-Leaves :
      (mask : Bitmask) (s : Bytes) → Leaves (length s) (parse_item usable allowed relative mask s)
  unfolding parse_item
  parse_item-Leaves mask s =
      item_from-Leaves (length s) mask (get_nr s allowed relative)
        (λ v end e. length-get_nr s allowed relative v end e)

-- The loop behind an item, from a loop that ends on shorter texts.
after_item-ends :
    (n : ℕ) (loop : Bitmask → Bytes → Result Bitmask) (r : Result (Bitmask × Bytes))
    → ((m : Bitmask) (s : Bytes) → length s < n → loop m s ≢ exhausted)
    → Leaves (suc n) r
    → after_item loop r ≢ exhausted
after_item-ends n loop (ok (m, [])) ih h = λ e. cc e
after_item-ends n loop (ok (m, c ∷ s)) ih h = elim (Bool-cases (c == b',')) [
  | inl comma ↦ rw comma (ih m s (omega arith))
  | inr other ↦ rw other (λ e. cc e)
]
after_item-ends n loop (refused r) ih h = λ e. cc e
after_item-ends n loop no_mask ih h = λ e. cc e
after_item-ends n loop exhausted ih h = absurd h

Leaves-weaken : (n k : ℕ) (r : Result (Bitmask × Bytes)) → n ≤ k → Leaves n r → Leaves k r
Leaves-weaken n k (ok (m, s)) le h = omega arith
Leaves-weaken n k (refused r) le h = tt
Leaves-weaken n k no_mask le h = tt
Leaves-weaken n k exhausted le h = h

nodes_loop-ends :
    (resolve : Bytes → Bitmask → ℤ × Bitmask) (allowed : Bitmask) (relative : Bool) (fuel : ℕ)
    (mask : Bitmask) (s : Bytes)
    → length s < fuel
    → nodes_loop resolve allowed relative fuel mask s ≢ exhausted
unfolding nodes_loop
nodes_loop-ends resolve allowed relative zero mask s h = absurd (omega arith)
nodes_loop-ends resolve allowed relative (suc fuel) mask s h = ground (
  arith,
  after_item-ends fuel (nodes_loop resolve allowed relative fuel)
      (parse_item (usable_node allowed) allowed relative mask s)
      (λ m t l. nodes_loop-ends resolve allowed relative fuel m t l)
      (Leaves-weaken (length s) (suc fuel) _ (omega arith)
        (parse_item-Leaves (usable_node allowed) allowed relative mask s)),
)

cpus_loop-ends :
    (conf : ℕ) (allowed : Bitmask) (relative : Bool) (fuel : ℕ) (mask : Bitmask) (s : Bytes)
    → length s < fuel
    → cpus_loop conf allowed relative fuel mask s ≢ exhausted
unfolding cpus_loop
cpus_loop-ends conf allowed relative zero mask s h = absurd (omega arith)
cpus_loop-ends conf allowed relative (suc fuel) mask s h = ground (
  arith,
  after_item-ends fuel (cpus_loop conf allowed relative fuel)
      (parse_item (usable_cpu conf) allowed relative mask s)
      (λ m t l. cpus_loop-ends conf allowed relative fuel m t l)
      (Leaves-weaken (length s) (suc fuel) _ (omega arith)
        (parse_item-Leaves (usable_cpu conf) allowed relative mask s)),
)

finish-exhausted :
    (f : Bitmask → Bitmask) (r : Result Bitmask) → r ≢ exhausted → finish f r ≢ exhausted
finish-exhausted f (ok m) h = λ e. cc e
finish-exhausted f (refused r) h = λ e. cc e
finish-exhausted f no_mask h = λ e. cc e
finish-exhausted f exhausted h = h

module _ (resolve : Bytes → Bitmask → ℤ × Bitmask) (st : State) (allowed : Bitmask) where
  parse_nodes_into-ends :
      (s : Bytes) (mask : Bitmask) → parse_nodes_into resolve st allowed s mask ≢ exhausted
  unfolding parse_nodes_into
  parse_nodes_into-ends [] mask = λ e. cc e
  parse_nodes_into-ends (c ∷ s) mask =
      let (relative, s2) = flag b'+' (flag b'!' (c ∷ s)).1 in
      finish-exhausted _ (nodes_loop resolve allowed relative (suc (length s2)) mask s2)
        (nodes_loop-ends resolve allowed relative (suc (length s2)) mask s2 (omega arith))

  -- `numa_parse_nodestring` ends on every string, whatever the state and the devices.
  pub parse_nodestring-ends : (s : Bytes) → parse_nodestring_in resolve st allowed s ≢ exhausted
  unfolding parse_nodestring_in
  parse_nodestring-ends s = elim (Option-cases (allocate_nodemask st)) [
    | inl e ↦ rw (e, parse_nodestring_in) (λ q. cc q)
    | inr (m, e) ↦ rw (e, parse_nodestring_in) (parse_nodes_into-ends s m)
  ]

module _ (st : State) (allowed : Bitmask) where
  parse_cpus_into-ends :
      (s : Bytes) (mask : Bitmask) → parse_cpus_into st allowed s mask ≢ exhausted
  unfolding parse_cpus_into
  parse_cpus_into-ends [] mask = λ e. cc e
  parse_cpus_into-ends (c ∷ s) mask =
      let (relative, s2) = flag b'+' (flag b'!' (c ∷ s)).1 in
      finish-exhausted _
        (cpus_loop (num_configured_cpus st) allowed relative (suc (length s2)) mask s2)
        (cpus_loop-ends (num_configured_cpus st) allowed relative (suc (length s2)) mask s2
          (omega arith))

  -- `numa_parse_cpustring` ends on every string.
  pub parse_cpustring-ends : (s : Bytes) → parse_cpustring_in st allowed s ≢ exhausted
  unfolding parse_cpustring_in
  parse_cpustring-ends s = elim (Option-cases (allocate_cpumask st)) [
    | inl e ↦ rw (e, parse_cpustring_in) (λ q. cc q)
    | inr (m, e) ↦ rw (e, parse_cpustring_in) (parse_cpus_into-ends s m)
  ]
