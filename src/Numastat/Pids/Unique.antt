-- ===== src/Numastat/Pids/Unique.antt =====
-- numastat.c, `sort_pids_and_remove_duplicates`: each process is kept once, in ascending order.
use numactl.Base.{
  ℕ, ◌-◌, ◌^◌, ◌<◌, ◌≡◌, refl, ap, ◌∙◌, sym, Bool, true, false, ◌||◌, List, [], ◌∷◌, arith, ltb,
  ◌==◌, length, Bool-cases, inl, inr,
}
use mathlib.Core.Path.{subst}
use numactl.Base.Ints.{ℤ, pos, negsuc, int_eq, int_lt}
use numactl.Numastat.Pids.{ascending, remove_duplicates, sort_pids_and_remove_duplicates}
use numactl.Numastat.Pids.Loop.{int_eq_lem, unique, kept, remove_duplicates-unique}

-- A process number: what `atoi` makes of the digits of a number below 2^31.
abbrev pub IsPid : ℤ → Type 0
IsPid (pos n) = n < 2 ^ 31
IsPid (negsuc n) = ⊥

-- The result of the comparison is not above 0.
abbrev pub not_above : ℤ → Bool
not_above (pos n) = n == 0
not_above (negsuc n) = true

-- Process numbers, as the comparison orders them, behind one.
abbrev pub Ordered : ℤ → List ℤ → Type 0
Ordered x [] = IsPid x
Ordered x (y ∷ ys) = IsPid x × (not_above (ascending x y) ≡ true) × Ordered y ys

abbrev pub IsOrdered : List ℤ → Type 0
IsOrdered [] = Unit
IsOrdered (x ∷ xs) = Ordered x xs

-- Each number is below the next one.
abbrev pub Rises : ℤ → List ℤ → Type 0
Rises x [] = Unit
Rises x (y ∷ ys) = (int_lt x y ≡ true) × Rises y ys

abbrev pub IsRising : List ℤ → Type 0
IsRising [] = Unit
IsRising (x ∷ xs) = Rises x xs

abbrev pub has : ℤ → List ℤ → Bool
has z [] = false
has z (x ∷ xs) = int_eq z x || has z xs

ascending_lem :
    (m n : ℕ)
    → m < 2 ^ 31
    → n < 2 ^ 31
    → not_above (ascending (pos m) (pos n)) ≡ true
    → (m == n) ≡ false
    → m < n
ascending_lem m n h l e d = ground arith

rises_one :
    (x y : ℤ)
    → IsPid x
    → IsPid y
    → not_above (ascending x y) ≡ true
    → int_eq y x ≡ false
    → int_lt x y ≡ true
rises_one (pos m) (pos n) h l e d =
    let below = ascending_lem m n h l e (ground (arith, d)) in ground (arith, below)
rises_one (pos m) (negsuc n) h l e d = absurd l
rises_one (negsuc m) y h l e d = absurd h

Ordered-IsPid : (x : ℤ) (ys : List ℤ) → Ordered x ys → IsPid x
Ordered-IsPid x [] o = o
Ordered-IsPid x (y ∷ ys) o = o.0

unique-Rises : (x : ℤ) (ys : List ℤ) → Ordered x ys → Rises x (unique x ys)
unfolding unique
unique-Rises x [] o = tt
unique-Rises x (y ∷ ys) (p, e, o) = elim (Bool-cases (int_eq y x)) [
  | inl same ↦ rw same (unique-Rises x ys (subst (λ t. Ordered t ys) (int_eq_lem y x same) o))
  | inr other ↦ rw other (rises_one x y p (Ordered-IsPid y ys o) e other, unique-Rises y ys o)
]

or_twice : (a b : Bool) → a || (a || b) ≡ a || b
or_twice true b = refl
or_twice false b = refl

has-unique : (z x : ℤ) (ys : List ℤ) → has z (x ∷ unique x ys) ≡ has z (x ∷ ys)
unfolding unique
has-unique z x [] = refl
has-unique z x (y ∷ ys) = elim (Bool-cases (int_eq y x)) [
  | inl same ↦
      rw same
        (has-unique z x ys ∙ (rw (int_eq_lem y x same) (sym (or_twice (int_eq z x) (has z ys)))))
  | inr other ↦ rw other (ap (λ t. int_eq z x || t) (has-unique z y ys))
]

-- If `qsort` gives the processes in an order that the comparison confirms, with the same members
-- and as many, and the processes are numbers from 0 to 2^31 - 1, then what is left is in ascending
-- order without duplicates and has the same members.
pub sort_pids_and_remove_duplicates-IsRising :
    (qsort : List ℤ → List ℤ) (pids : List ℤ)
    → length (qsort pids) ≡ length pids
    → IsOrdered (qsort pids)
    → ((z : ℤ) → has z (qsort pids) ≡ has z pids)
    → IsRising (sort_pids_and_remove_duplicates qsort pids)
      × ((z : ℤ) → has z (sort_pids_and_remove_duplicates qsort pids) ≡ has z pids)
unfolding sort_pids_and_remove_duplicates
sort_pids_and_remove_duplicates-IsRising qsort [] l o same = (tt, λ z. refl)
sort_pids_and_remove_duplicates-IsRising qsort (p ∷ []) l o same = (tt, λ z. refl)
sort_pids_and_remove_duplicates-IsRising qsort (p ∷ q ∷ rest) l o same =
    let more : ltb 1 (length (p ∷ q ∷ rest)) ≡ true = ground arith in
    rw more (sorted (qsort (p ∷ q ∷ rest)) l o same)
  where
    sorted :
        (xs : List ℤ)
        → length xs ≡ length (p ∷ q ∷ rest)
        → IsOrdered xs
        → ((z : ℤ) → has z xs ≡ has z (p ∷ q ∷ rest))
        → IsRising (kept (remove_duplicates (length (p ∷ q ∷ rest) - 1) 1 0 xs))
          × ((z : ℤ)
              → has z (kept (remove_duplicates (length (p ∷ q ∷ rest) - 1) 1 0 xs))
                ≡ has z (p ∷ q ∷ rest))
    sorted [] l o same = absurd (omega (arith, l))
    sorted (x ∷ xs) l o same =
        let n : length (p ∷ q ∷ rest) - 1 ≡ length xs = omega (arith, l) in
        let e = remove_duplicates-unique [] x [] xs in
        rw (n, e) (unique-Rises x xs o, λ z. has-unique z x xs ∙ same z)
