-- ===== src/Base/Loops.antt =====
-- Counted loops: `for (i = lo; i < lo + n; i++)`, with the rounds left as the recursion's measure.
use numactl.Base.{
  ℕ, zero, suc, ◌+◌, ◌≤◌, ◌<◌, ◌≡◌, refl, Bool, true, false, Option, none, some, arith,
  if◌then◌else◌, Bool-cases, ◌⊎◌, inl, inr,
}

-- A loop whose body updates a state.
unfoldable pub for_range {ℓ} : {S : Type ℓ} → ℕ → ℕ → (ℕ → S → S) → S → S
for_range zero from update state = state
for_range (suc rounds) from update state = for_range rounds (from + 1) update (update from state)

-- The invariant rule: `Inv j state` says what holds when the counter is `j`.
pub for_range_inv {ℓ κ} :
    {S : Type ℓ} (Inv : ℕ → S → Type κ) (update : ℕ → S → S) (last : ℕ)
    → ((j : ℕ) (state : S) → j < last → Inv j state → Inv (suc j) (update j state))
    → (rounds from : ℕ) (state : S) → from + rounds ≡ last
    → Inv from state
    → Inv last (for_range rounds from update state)
unfolding for_range
for_range_inv Inv update last keep zero from state all now =
    let ended : last ≡ from = omega arith in rw ended now
for_range_inv Inv update last keep (suc rounds) from state all now =
    let counted : from + 1 ≡ suc from = omega arith in
    let later = keep from state (omega arith) now in
    for_range_inv Inv update last keep rounds (from + 1) (update from state) (omega arith)
      (rw counted later)

-- A loop that returns the first counter which passes a test: `if (p(i)) return i;`.
unfoldable pub find_from : ℕ → ℕ → (ℕ → Bool) → Option ℕ
find_from zero i p = none
find_from (suc n) i p = let rest = find_from n (i + 1) p in if p i then some i else rest

pub record IsFirst (lo hi : ℕ) (p : ℕ → Bool) (k : ℕ) : Type 0 where
  pub above : lo ≤ k
  pub below : k < hi
  pub passes : p k ≡ true
  pub least : (j : ℕ) → lo ≤ j → j < k → p j ≡ false

abbrev pub FoundBy : ℕ → ℕ → (ℕ → Bool) → Option ℕ → Type 0
FoundBy lo hi p none = (j : ℕ) → lo ≤ j → j < hi → p j ≡ false
FoundBy lo hi p (some k) = IsFirst lo hi p k

no_earlier :
    (i j : ℕ) (p : ℕ → Bool) → p i ≡ false → i ≤ j → (suc i ≤ j → p j ≡ false) → p j ≡ false
no_earlier i j p h le next = elim (cases i j le) [ inl e ↦ rw (← e) h | inr l ↦ next l ]
  where
    cases : (a b : ℕ) → a ≤ b → (a ≡ b) ⊎ (suc a ≤ b)
    cases a b l = omega arith

FoundBy-step :
    (i hi : ℕ) (p : ℕ → Bool) (o : Option ℕ)
    → p i ≡ false
    → FoundBy (i + 1) hi p o
    → FoundBy i hi p o
FoundBy-step i hi p none h rest = λ j a b. no_earlier i j p h a (λ l. rest j (omega arith) b)
FoundBy-step i hi p (some k) h rest = record {
  above = omega (arith, rest.above);
  below = rest.below;
  passes = rest.passes;
  least = λ j a b. no_earlier i j p h a (λ l. rest.least j (omega arith) b);
}

-- The search is right, whether it finds or not.
pub find_from-FoundBy :
    (n i : ℕ) (p : ℕ → Bool) (hi : ℕ) → i + n ≡ hi → FoundBy i hi p (find_from n i p)
unfolding find_from
find_from-FoundBy zero i p hi e = λ j a b. absurd (omega arith)
find_from-FoundBy (suc n) i p hi e = elim (Bool-cases (p i)) [
  | inl found ↦ rw found (record {
    above = omega arith;
    below = omega arith;
    passes = found;
    least = λ j a b. absurd (omega arith);
  })
  | inr missed ↦ rw missed (
      FoundBy-step i hi p (find_from n (i + 1) p) missed
        (find_from-FoundBy n (i + 1) p hi (omega arith)))
]

-- How many numbers below `n` pass a test.
abbrev pub count_below : ℕ → (ℕ → Bool) → ℕ
count_below zero p = 0
count_below (suc n) p = count_below n p + (if p n then 1 else 0)

pub count_below-le : (n : ℕ) (p : ℕ → Bool) → count_below n p ≤ n
count_below-le zero p = omega arith
count_below-le (suc n) p = ground (arith, count_below-le n p)

pub count_below_ext :
    (n : ℕ) (p q : ℕ → Bool) → ((i : ℕ) → i < n → p i ≡ q i) → count_below n p ≡ count_below n q
count_below_ext zero p q h = refl
count_below_ext (suc n) p q h =
    ground (arith, h n (omega arith), count_below_ext n p q (λ i l. h i (omega arith)))
