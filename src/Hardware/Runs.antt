-- ===== src/Hardware/Runs.antt =====
-- The runs of bits of a mask, and that `--cpu-compress` prints them with the weight of the mask.
use numactl.Base.{
  ℕ, zero, suc, ◌+◌, ◌-◌, ◌≤◌, ◌<◌, ◌≡◌, ◌⊎◌, inl, inr, ◌∙◌, sym, ap, Bool, true, false, not, List,
  [], ◌∷◌, Bytes, ltb, ◌==◌, if◌then◌else◌, arith, Bool-cases,
}
use numactl.Base.Loops.{count_below}
use numactl.Bitmask.{Bitmask, isbitset, weight}
use numactl.Bitmask.Ops.{isbitset_beyond}
use numactl.Bitmask.Weight.{weight_lem}
use numactl.Parse.Grammar.{Item, one, range, write_item}
use numactl.Hardware.{run_end, print_segment, print_count, print_compressed, print_node_cpus}

pub record Run : Type 0 where
  pub start : ℕ
  pub end : ℕ

-- The runs from `i` on, with fuel.
unfoldable pub runs_from : ℕ → ℕ → Bitmask → List Run
runs_from zero i cpus = []
runs_from (suc fuel) i cpus =
    let end = run_end (cpus.size - i) i cpus in
    let skip = runs_from fuel (i + 1) cpus in
    let next = runs_from fuel end cpus in
    if not (ltb i cpus.size)
    then []
    else if end == i
    then skip
    else record { start = i; end = end - 1 } ∷ next

-- How many bits the runs hold.
abbrev pub total : List Run → ℕ
total [] = 0
total (r ∷ rs) = (r.end - r.start + 1) + total rs

abbrev pub to_item : Run → Item
to_item r = if r.start == r.end then one r.start else range r.start r.end

-- The runs with commas between them, and one in front if some stand before, ahead of `next`.
abbrev pub write_runs : Bool → List Run → Bytes → Bytes
write_runs before [] next = next
write_runs before (r ∷ rs) next =
    let text = write_item 1 (to_item r) (write_runs true rs next) in
    if before then b',' ∷ text else text

print_segment-write_item :
    (r : Run) (next : Bytes) → print_segment r.start r.end next ≡ write_item 1 (to_item r) next
unfolding print_segment
print_segment-write_item r next = elim (Bool-cases (r.start == r.end)) [
  | inl same ↦ rw same
  | inr longer ↦ rw longer
]

-- The end of a run that begins at `i`, where `n` rounds lead to the size.
pub record EndsRun (cpus : Bitmask) (i e : ℕ) : Type 0 where
  pub above : i ≤ e
  pub below : e ≤ cpus.size
  pub filled : (j : ℕ) → i ≤ j → j < e → isbitset cpus j ≡ true
  pub stops : isbitset cpus e ≡ false

pub run_end-EndsRun :
    (n i : ℕ) (cpus : Bitmask) → i + n ≡ cpus.size → EndsRun cpus i (run_end n i cpus)
unfolding run_end
run_end-EndsRun zero i cpus h = record {
  above = omega arith;
  below = omega arith;
  filled = λ j a b. absurd (omega arith);
  stops = isbitset_beyond cpus i (omega arith);
}
run_end-EndsRun (suc n) i cpus h = elim (Bool-cases (isbitset cpus i)) [
  | inr clear ↦ rw clear (record {
    above = omega arith;
    below = omega arith;
    filled = λ j a b. absurd (omega arith);
    stops = clear;
  })
  | inl set ↦
      let later = run_end-EndsRun n (suc i) cpus (omega arith) in
      rw set (record {
        above = omega (arith, later.above);
        below = later.below;
        filled = λ j a b. elim (first i j a) [ inl e ↦ rw (← e) set | inr l ↦ later.filled j l b ];
        stops = later.stops;
      })
]
  where
    first : (x y : ℕ) → x ≤ y → (x ≡ y) ⊎ (suc x ≤ y)
    first x y l = omega arith

-- One run, and what is printed behind it.
segment-write_runs :
    (b : Bool) (here : Run) (rest next : Bytes) (rs : List Run)
    → rest ≡ write_runs true rs next
    → (if b
        then b',' ∷ print_segment here.start here.end rest
        else print_segment here.start here.end rest)
      ≡ write_runs b (here ∷ rs) next
segment-write_runs true here rest next rs e =
    ap (λ (t : Bytes). b',' ∷ t)
      (print_segment-write_item here rest ∙ ap (write_item 1 (to_item here)) e)
segment-write_runs false here rest next rs e =
    print_segment-write_item here rest ∙ ap (write_item 1 (to_item here)) e

print_compressed-write_runs :
    (fuel i : ℕ) (segment : Bool) (count : ℕ) (cpus : Bitmask)
    → print_compressed fuel i segment count cpus
      ≡ write_runs segment
          (runs_from fuel i cpus)
          (print_count (count + total (runs_from fuel i cpus)))
unfolding print_compressed runs_from
print_compressed-write_runs zero i segment count cpus =
    ap print_count (let e : count ≡ count + 0 = omega arith in e)
print_compressed-write_runs (suc fuel) i segment count cpus = elim (Bool-cases (ltb i cpus.size)) [
  | inr done ↦ rw done (ap print_count (let e : count ≡ count + 0 = omega arith in e))
  | inl more ↦ elim (Bool-cases (run_end (cpus.size - i) i cpus == i)) [
    | inl none_here ↦
        rw (more, none_here) (print_compressed-write_runs fuel (i + 1) segment count cpus)
    | inr some_here ↦
        let end : ℕ = run_end (cpus.size - i) i cpus in
        let length : ℕ = end - 1 - i + 1 in
        let rs = runs_from fuel end cpus in
        rw (more, some_here)
          (segment-write_runs segment (record { start = i; end = end - 1 })
            (print_compressed fuel end true (count + length) cpus)
            (print_count (count + (length + total rs))) rs
            (print_compressed-write_runs fuel end true (count + length) cpus
              ∙ ap (λ (t : ℕ). write_runs true rs (print_count t)) (omega arith)))
  ]
]

-- A run counts as many bits as it is long.
count_below_filled :
    (i e : ℕ) (p : ℕ → Bool)
    → i ≤ e
    → ((j : ℕ) → i ≤ j → j < e → p j ≡ true)
    → count_below e p ≡ count_below i p + (e - i)
count_below_filled i zero p le h = let z : i ≡ 0 = omega arith in rw z
count_below_filled i (suc e) p le h = elim (split i e le) [
  | inl all ↦ rw all (omega arith)
  | inr l ↦ ground (arith, h e l, count_below_filled i e p l (λ j a b. h j a (omega arith)))
]
  where
    split : (x y : ℕ) → x ≤ suc y → (x ≡ suc y) ⊎ (x ≤ y)
    split x y l = omega arith

-- The runs from `i` on hold all the bits from there.
pub total-runs_from :
    (fuel i : ℕ) (cpus : Bitmask)
    → i ≤ cpus.size
    → cpus.size ≤ i + fuel
    → count_below i (isbitset cpus) + total (runs_from fuel i cpus)
      ≡ count_below cpus.size (isbitset cpus)
unfolding runs_from
total-runs_from zero i cpus le h =
    let e : i ≡ cpus.size = omega arith in
    omega (arith, ap (λ (t : ℕ). count_below t (isbitset cpus)) e)
total-runs_from (suc fuel) i cpus le h = elim (Bool-cases (ltb i cpus.size)) [
  | inr done ↦
      let e : i ≡ cpus.size = ground arith in
      rw done (omega (arith, ap (λ (t : ℕ). count_below t (isbitset cpus)) e))
  | inl more ↦
      let end : ℕ = run_end (cpus.size - i) i cpus in
      let r = run_end-EndsRun (cpus.size - i) i cpus (omega arith) in
      elim (Bool-cases (end == i)) [
        | inl none_here ↦
            rw (more, none_here)
              (ground (
                arith,
                r.stops,
                total-runs_from fuel (suc i) cpus (ground arith) (omega arith),
                ap (λ (t : ℕ). total (runs_from fuel t cpus))
                    (let e : i + 1 ≡ suc i = omega arith in e),
              ))
        | inr some_here ↦
            rw (more, some_here)
              (ground (
                arith,
                r.above,
                count_below_filled i end (isbitset cpus) r.above r.filled,
                total-runs_from fuel end cpus r.below (ground (arith, r.above)),
              ))
      ]
]

-- What is printed, with the runs that the code finds.
pub print_node_cpus-runs_from :
    (cpus : Bitmask)
    → print_node_cpus true cpus
      ≡ write_runs false (runs_from cpus.size 0 cpus) (print_count (weight cpus))
unfolding print_node_cpus
print_node_cpus-runs_from cpus =
    print_compressed-write_runs cpus.size 0 false 0 cpus
    ∙ ap (λ (t : ℕ). write_runs false (runs_from cpus.size 0 cpus) (print_count t))
        (omega
          (arith, total-runs_from cpus.size 0 cpus (omega arith) (omega arith), weight_lem cpus))

-- The runs of a mask from `i` on: before a run no bit is set, in it all are, and the bit behind it is
-- not, so that no run could be longer; behind the last one no bit is set.
abbrev pub AreRuns : Bitmask → ℕ → List Run → Type 0
AreRuns cpus i [] = (j : ℕ) → i ≤ j → isbitset cpus j ≡ false
AreRuns cpus i (r ∷ rs) =
    (i ≤ r.start)
    × (r.start ≤ r.end)
    × ((j : ℕ) → i ≤ j → j < r.start → isbitset cpus j ≡ false)
    × ((j : ℕ) → r.start ≤ j → j ≤ r.end → isbitset cpus j ≡ true)
    × (isbitset cpus (r.end + 1) ≡ false)
    × AreRuns cpus (r.end + 1) rs

clear_from :
    (cpus : Bitmask) (i j : ℕ)
    → isbitset cpus i ≡ false
    → i ≤ j
    → (i + 1 ≤ j → isbitset cpus j ≡ false)
    → isbitset cpus j ≡ false
clear_from cpus i j clear l later = elim (split i j l) [ inl e ↦ rw (← e) clear | inr m ↦ later m ]
  where
    split : (x y : ℕ) → x ≤ y → (x ≡ y) ⊎ (x + 1 ≤ y)
    split x y l = omega arith

AreRuns-clear :
    (cpus : Bitmask) (i : ℕ) (rs : List Run)
    → isbitset cpus i ≡ false
    → AreRuns cpus (i + 1) rs
    → AreRuns cpus i rs
AreRuns-clear cpus i [] clear none_later = λ j l. clear_from cpus i j clear l (none_later j)
AreRuns-clear cpus i (r ∷ rs) clear (above, ordered, before, within, ends, rest) = (
  omega (arith, above),
  ordered,
  λ j l m. clear_from cpus i j clear l (λ n. before j n m),
  within,
  ends,
  rest,
)

runs_from-AreRuns :
    (fuel i : ℕ) (cpus : Bitmask) → cpus.size ≤ i + fuel → AreRuns cpus i (runs_from fuel i cpus)
unfolding runs_from
runs_from-AreRuns zero i cpus h = λ j l. isbitset_beyond cpus j (omega (arith, h, l))
runs_from-AreRuns (suc fuel) i cpus h = elim (Bool-cases (ltb i cpus.size)) [
  | inr done ↦ rw done (λ j l. isbitset_beyond cpus j (ground arith))
  | inl more ↦
      let end : ℕ = run_end (cpus.size - i) i cpus in
      let r = run_end-EndsRun (cpus.size - i) i cpus (ground arith) in
      elim (Bool-cases (end == i)) [
        | inl none_here ↦
            let same : end ≡ i = ground arith in
            let clear : isbitset cpus i ≡ false = ap (isbitset cpus) (sym same) ∙ r.stops in
            rw (more, none_here)
              (AreRuns-clear cpus i _ clear
                (runs_from-AreRuns fuel (i + 1) cpus (omega (arith, h))))
        | inr some_here ↦
            let long : i < end = ground (arith, r.above) in
            let behind_run : end - 1 + 1 ≡ end = omega (arith, long) in
            rw (more, some_here)
              (
                omega arith,
                omega (arith, long),
                λ j l m. absurd (omega (arith, l, m)),
                λ j l m. r.filled j l (omega (arith, m, long)),
                ap (isbitset cpus) behind_run ∙ r.stops,
                rw behind_run (runs_from-AreRuns fuel end cpus (omega (arith, h, long))),
              )
      ]
]

-- Under `--cpu-compress` the runs of the mask, each as long as can be, are printed in ascending order
-- with commas between them, a run of one cpu as its number and a longer one as its first and its last
-- cpu, and behind them, in parentheses, the number of cpus in the mask.
pub print_node_cpus-write_runs :
    (cpus : Bitmask)
    → (rs : List Run) × AreRuns cpus 0 rs
      × (print_node_cpus true cpus ≡ write_runs false rs (print_count (weight cpus)))
print_node_cpus-write_runs cpus = (
  runs_from cpus.size 0 cpus,
  runs_from-AreRuns cpus.size 0 cpus (omega arith),
  print_node_cpus-runs_from cpus,
)
