-- ===== src/Parse/Relative.antt =====
-- `get_nr`: a number with `+` in front of the list counts the bits that are allowed.
use numactl.Base.{
  ℕ, zero, suc, ◌+◌, ◌-◌, ◌^◌, ◌%◌, ◌≤◌, ◌<◌, ◌≡◌, inl, inr, refl, true, false, some, Bytes, arith,
  Bool-cases,
}
use mathlib.Core.Path.{subst}
use numactl.Base.Loops.{count_below}
use numactl.Bitmask.{Bitmask, IsValid, isbitset, weight}
use numactl.Bitmask.Ops.{isbitset_beyond}
use numactl.Bitmask.Weight.{weight_lem}
use numactl.Text.{strtoul}
use numactl.Parse.{nth_set, get_nr}

-- Where the loop stops, begun at `i` with `c` bits to find and `n` rounds left: behind the `c`-th
-- bit that is set from `i` on, or at the end.
data Stops (b : Bitmask) (n i c r : ℕ) : Type 0 where
  enough :
      r ≤ i + n
      → count_below r (isbitset b) ≡ count_below i (isbitset b) + c
      → (c ≡ 0 → r ≡ i)
      → (0 < c → (i < r) × (isbitset b (r - 1) ≡ true))
      → Stops b n i c r
  ran_out :
      r ≡ i + n → count_below r (isbitset b) < count_below i (isbitset b) + c → Stops b n i c r

stop_hit :
    (b : Bitmask) (n i c r : ℕ)
    → isbitset b i ≡ true
    → Stops b n (suc i) c r
    → Stops b (suc n) i (suc c) r
stop_hit b n i zero r hit (enough below count start last) =
    let e : r ≡ suc i = start refl in
    enough (omega arith) (ground arith) (λ z. absurd (omega arith))
      (λ p. (omega arith, let e' : r - 1 ≡ i = omega arith in rw e' hit))
stop_hit b n i (suc c) r hit (enough below count start last) =
    enough (omega arith) (ground arith) (λ z. absurd (omega arith))
      (λ p. (omega (arith, (last (omega arith)).0), (last (omega arith)).1))
stop_hit b n i c r hit (ran_out end count) = ran_out (omega arith) (ground arith)

stop_miss :
    (b : Bitmask) (n i c r : ℕ)
    → isbitset b i ≡ false
    → Stops b n (suc i) (suc c) r
    → Stops b (suc n) i (suc c) r
stop_miss b n i c r miss (enough below count start last) =
    enough (omega arith) (ground arith) (λ z. absurd (omega arith))
      (λ p. (omega (arith, (last (omega arith)).0), (last (omega arith)).1))
stop_miss b n i c r miss (ran_out end count) = ran_out (omega arith) (ground arith)

nth_set-Stops : (b : Bitmask) (n i c : ℕ) → Stops b n i c (nth_set n i c b)
unfolding nth_set
nth_set-Stops b zero i zero =
    enough (omega arith) (omega arith) (λ z. refl) (λ h. absurd (omega arith))
nth_set-Stops b zero i (suc c) = ran_out (omega arith) (omega arith)
nth_set-Stops b (suc n) i zero =
    enough (omega arith) (omega arith) (λ z. refl) (λ h. absurd (omega arith))
nth_set-Stops b (suc n) i (suc c) = elim (Bool-cases (isbitset b i)) [
  | inl hit ↦ rw hit (stop_hit b n i c (nth_set n (suc i) c b) hit (nth_set-Stops b n (suc i) c))
  | inr miss ↦
      rw miss
        (stop_miss b n i c (nth_set n (suc i) (suc c) b) miss (nth_set-Stops b n (suc i) (suc c)))
]

count_below-suc_size :
    (b : Bitmask) → count_below (suc b.size) (isbitset b) ≡ count_below b.size (isbitset b)
count_below-suc_size b = ground (arith, isbitset_beyond b b.size)

-- What a relative number stands for: the bit of the mask that is set and has `nr` set bits below
-- it, or the size of the mask if no more than `nr` bits are set.
pub data Selects (b : Bitmask) (nr k : ℕ) : Type 0 where
  found : isbitset b k ≡ true → count_below k (isbitset b) ≡ nr → Selects b nr k
  too_far : weight b ≤ nr → k ≡ b.size → Selects b nr k

selects :
    (b : Bitmask) (nr r : ℕ)
    → b.size < 2 ^ 31
    → Stops b (b.size + 1) 0 (suc nr) r
    → Selects b nr ((r + 2 ^ 64 - 1) % 2 ^ 64)
selects b nr r fits (enough below count start last) =
    let e : (r + 2 ^ 64 - 1) % 2 ^ 64 ≡ r - 1 = omega (arith, (last (omega arith)).0) in
    let hit : isbitset b (r - 1) ≡ true = (last (omega arith)).1 in
    let e' : r ≡ suc (r - 1) = omega (arith, (last (omega arith)).0) in
    let count' : count_below (suc (r - 1)) (isbitset b) ≡ 0 + suc nr =
      subst (λ (t : ℕ). count_below t (isbitset b) ≡ 0 + suc nr) e' count in
    rw e (found hit (ground arith))
selects b nr r fits (ran_out end count) =
    let e : (r + 2 ^ 64 - 1) % 2 ^ 64 ≡ b.size = omega arith in
    let e' : r ≡ suc b.size = omega arith in
    let count' : count_below (suc b.size) (isbitset b) < 0 + suc nr =
      subst (λ (t : ℕ). count_below t (isbitset b) < 0 + suc nr) e' count in
    rw e (too_far (omega (arith, weight_lem b, count_below-suc_size b)) refl)

-- With `+`, a number `nr` below 2^63 is the bit with `nr` allowed bits below it; where there is none it is
-- the size of the mask, which the parsers refuse. The text behind it is that behind the digits.
pub get_nr-Selects :
    (s : Bytes) (b : Bitmask) (nr : ℕ) (end : Bytes)
    → IsValid b
    → strtoul 0 s ≡ some (nr, end)
    → nr < 2 ^ 63
    → (k : ℕ) × (get_nr s b true ≡ some (k, end)) × Selects b nr k
unfolding get_nr
get_nr-Selects s b nr end ok e small = (
  (nth_set (b.size + 1) 0 (suc nr) b + 2 ^ 64 - 1) % 2 ^ 64,
  rw (e, get_nr) (ground arith),
  selects b nr (nth_set (b.size + 1) 0 (suc nr) b) ok.fits
      (nth_set-Stops b (b.size + 1) 0 (suc nr)),
)
