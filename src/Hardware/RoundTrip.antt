-- ===== src/Hardware/RoundTrip.antt =====
-- What `numactl --hardware --cpu-compress` prints for a node is a list that `--physcpubind` reads
-- back as the cpus of the node.
use numactl.Base.{
  ℕ, zero, suc, ◌+◌, ◌-◌, ◌^◌, ◌≤◌, ◌<◌, ◌≡◌, ◌≢◌, ◌⊎◌, inl, inr, refl, ◌∙◌, sym, ap, Bool, true,
  false, ◌&&◌, ◌||◌, List, [], ◌∷◌, ◌++◌, Bytes, ltb, leb, lt→ltb, ◌==◌, arith, Bool-cases, map,
}
use mathlib.Core.List.{append_assoc}
use numactl.Bitmask.{Bitmask, IsValid, isbitset, weight}
use numactl.Bitmask.Weight.{weight_lem}
use numactl.Bitmask.Ops.{isbitset_beyond, isbitset-lt}
use numactl.Text.{decimal}
use numactl.Libnuma.{State, num_configured_cpus}
use numactl.Libnuma.Laws.{IsReady}
use numactl.Parse.Grammar.{Item, one, range, blanks, write_item, write_items, mentioned, AllUsable}
use numactl.Parse.Complete.{parse_cpustring-write_items}
use numactl.Parse.{ok, usable_cpu, parse_cpustring_in}
use numactl.Hardware.{run_end, print_count, print_node_cpus}
use numactl.Hardware.Runs.{
  Run, runs_from, to_item, write_runs, run_end-EndsRun, print_node_cpus-runs_from, total,
  total-runs_from,
}

-- A run of bits that are set.
record IsRun (cpus : Bitmask) (r : Run) : Type 0 where
  ordered : r.start ≤ r.end
  filled : (j : ℕ) → r.start ≤ j → j ≤ r.end → isbitset cpus j ≡ true

abbrev AllRuns : Bitmask → List Run → Type 0
AllRuns cpus [] = Unit
AllRuns cpus (r ∷ rs) = IsRun cpus r × AllRuns cpus rs

covers : List Run → ℕ → Bool
covers [] j = false
covers (r ∷ rs) j = (leb r.start j && leb j r.end) || covers rs j

runs_from-AllRuns : (fuel i : ℕ) (cpus : Bitmask) → AllRuns cpus (runs_from fuel i cpus)
unfolding runs_from
runs_from-AllRuns zero i cpus = tt
runs_from-AllRuns (suc fuel) i cpus = elim (Bool-cases (ltb i cpus.size)) [
  | inr done ↦ rw done tt
  | inl more ↦
      let end : ℕ = run_end (cpus.size - i) i cpus in
      let r = run_end-EndsRun (cpus.size - i) i cpus (ground arith) in
      elim (Bool-cases (end == i)) [
        | inl none_here ↦ rw (more, none_here) (runs_from-AllRuns fuel (i + 1) cpus)
        | inr some_here ↦
            let long : i < end = ground (arith, r.above) in
            rw (more, some_here)
              (
                record { ordered = omega arith; filled = λ j a b. r.filled j a (omega arith) },
                runs_from-AllRuns fuel end cpus,
              )
      ]
]

covers-runs_from :
    (fuel i : ℕ) (cpus : Bitmask) (j : ℕ)
    → cpus.size ≤ i + fuel
    → covers (runs_from fuel i cpus) j ≡ (leb i j && isbitset cpus j)
unfolding covers runs_from
covers-runs_from zero i cpus j h = ground (arith, isbitset_beyond cpus j)
covers-runs_from (suc fuel) i cpus j h = elim (Bool-cases (ltb i cpus.size)) [
  | inr done ↦ rw done (ground (arith, isbitset_beyond cpus j))
  | inl more ↦
      let end : ℕ = run_end (cpus.size - i) i cpus in
      let r = run_end-EndsRun (cpus.size - i) i cpus (ground arith) in
      elim (Bool-cases (end == i)) [
        | inl none_here ↦
            rw (more, none_here)
              (elim (cases j i) [
                | inl e ↦ rw e (ground (arith, covers-runs_from fuel (i + 1) cpus i, r.stops))
                | inr ne ↦ ground (arith, covers-runs_from fuel (i + 1) cpus j)
              ])
        | inr some_here ↦
            rw (more, some_here)
              (ground (arith, r.above, r.filled j, covers-runs_from fuel end cpus j))
      ]
]
  where
    cases : (x y : ℕ) → (x ≡ y) ⊎ (x ≢ y)
    cases x y = ground arith

mentioned-covers :
    (cpus allowed : Bitmask) (rs : List Run) (j : ℕ)
    → ((i : ℕ) → isbitset cpus i ≡ true → isbitset allowed i ≡ true)
    → AllRuns cpus rs
    → mentioned allowed (map to_item rs) j ≡ covers rs j
unfolding covers
mentioned-covers cpus allowed [] j sub h = refl
mentioned-covers cpus allowed (r ∷ rs) j sub (h, hs) = elim (Bool-cases (r.start == r.end)) [
  | inl same ↦ rw same (ground (arith, mentioned-covers cpus allowed rs j sub hs))
  | inr longer ↦
      rw longer
        (ground (arith, mentioned-covers cpus allowed rs j sub hs, h.ordered, h.filled j, sub j))
]

AllRuns-AllUsable :
    (cpus : Bitmask) (conf : ℕ) (rs : List Run)
    → IsValid cpus
    → ((i : ℕ) → isbitset cpus i ≡ true → i < conf)
    → AllRuns cpus rs
    → AllUsable (usable_cpu conf) (map to_item rs)
AllRuns-AllUsable cpus conf [] v in_range h = tt
AllRuns-AllUsable cpus conf (r ∷ rs) v in_range (h, hs) = (
  elim (Bool-cases (r.start == r.end)) [
    | inl same ↦ rw same (lt→ltb r.start conf low.0, omega (arith, low, fits))
    | inr longer ↦ rw longer (
      lt→ltb r.start conf low.0,
      omega (arith, low, fits),
      lt→ltb r.end conf high.0,
      omega (arith, high, fits),
    )
  ],
  AllRuns-AllUsable cpus conf rs v in_range hs,
)
  where
    fits : cpus.size < 2 ^ 31
    fits = v.fits

    low : (r.start < conf) × (r.start < cpus.size)
    low =
        let b = h.filled r.start (omega arith) h.ordered in
        (in_range r.start b, isbitset-lt cpus r.start b)

    high : (r.end < conf) × (r.end < cpus.size)
    high =
        let b = h.filled r.end h.ordered (omega arith) in
        (in_range r.end b, isbitset-lt cpus r.end b)

blanks-append : (gap : ℕ) (a b : Bytes) → blanks gap a ++ b ≡ blanks gap (a ++ b)
blanks-append zero a b = refl
blanks-append (suc gap) a b = ap (λ (t : Bytes). b' ' ∷ t) (blanks-append gap a b)

write_item-append :
    (gap : ℕ) (x : Item) (a b : Bytes) → write_item gap x a ++ b ≡ write_item gap x (a ++ b)
write_item-append gap (one n) a b =
    blanks-append gap (decimal n ++ a) b ∙ ap (blanks gap) (append_assoc (decimal n) a b)
write_item-append gap (range n m) a b =
    blanks-append gap (decimal n ++ (b'-' ∷ (decimal m ++ a))) b
    ∙ ap (blanks gap) (
        append_assoc (decimal n) (b'-' ∷ (decimal m ++ a)) b
        ∙ ap (λ (t : Bytes). decimal n ++ (b'-' ∷ t)) (append_assoc (decimal m) a b))

write_runs-write_items :
    (r : Run) (rs : List Run) (next : Bytes)
    → write_runs false (r ∷ rs) next ≡ write_items 1 (to_item r) (map to_item rs) ++ next
write_runs-write_items r [] next = sym (write_item-append 1 (to_item r) [] next)
write_runs-write_items r (q ∷ rs) next =
    ap (λ (t : Bytes). write_item 1 (to_item r) (b',' ∷ t)) (write_runs-write_items q rs next)
    ∙ sym (write_item-append 1 (to_item r) (b',' ∷ write_items 1 (to_item q) (map to_item rs)) next)

-- The text of a mask, and the mask that is read back from it.
pub record ReadsBack (st : State) (allowed cpus : Bitmask) : Type 0 where
  pub text : Bytes
  pub printed : print_node_cpus true cpus ≡ text ++ print_count (weight cpus)
  pub mask : Bitmask
  pub parsed : parse_cpustring_in st allowed text ≡ ok mask
  pub same : (i : ℕ) → isbitset mask i ≡ isbitset cpus i

reads_back :
    (st : State) (allowed cpus : Bitmask) (rs : List Run)
    → IsReady st
    → IsValid cpus
    → cpus.size ≤ st.cpumask_sz
    → 0 < weight cpus
    → ((i : ℕ) → isbitset cpus i ≡ true → i < num_configured_cpus st)
    → ((i : ℕ) → isbitset cpus i ≡ true → isbitset allowed i ≡ true)
    → total rs ≡ weight cpus
    → AllRuns cpus rs
    → ((j : ℕ) → covers rs j ≡ isbitset cpus j)
    → print_node_cpus true cpus ≡ write_runs false rs (print_count (weight cpus))
    → ReadsBack st allowed cpus
reads_back st allowed cpus [] ready v le pos conf sub t h c e = absurd (omega arith)
reads_back st allowed cpus (r ∷ rs) ready v le pos conf sub t h c e =
    let d =
      parse_cpustring-write_items st allowed 1 (to_item r) (map to_item rs) ready
        (AllRuns-AllUsable cpus (num_configured_cpus st) (r ∷ rs) v conf h) in
    record {
      text = write_items 1 (to_item r) (map to_item rs);
      printed = e ∙ write_runs-write_items r rs (print_count (weight cpus));
      mask = d.mask;
      parsed = d.returned;
      same = λ i. ground (
        arith,
        d.exact i,
        mentioned-covers cpus allowed (r ∷ rs) i sub h,
        c i,
        isbitset-lt cpus i,
      );
    }

-- `print_node_cpus` under `--cpu-compress`, for a mask that is not empty, prints a list and the
-- number of cpus; `numa_parse_cpustring` reads the list back as the same set, where the cpus are
-- configured and allowed.
pub print_node_cpus-parse :
    (st : State) (allowed cpus : Bitmask)
    → IsReady st
    → IsValid cpus
    → cpus.size ≤ st.cpumask_sz
    → 0 < weight cpus
    → ((i : ℕ) → isbitset cpus i ≡ true → i < num_configured_cpus st)
    → ((i : ℕ) → isbitset cpus i ≡ true → isbitset allowed i ≡ true)
    → ReadsBack st allowed cpus
print_node_cpus-parse st allowed cpus ready v le pos conf sub =
    reads_back st allowed cpus (runs_from cpus.size 0 cpus) ready v le pos conf sub
      (omega (arith, total-runs_from cpus.size 0 cpus (omega arith) (omega arith), weight_lem cpus))
      (runs_from-AllRuns cpus.size 0 cpus)
      (λ j. ground (arith, covers-runs_from cpus.size 0 cpus j (omega arith)))
      (print_node_cpus-runs_from cpus)
