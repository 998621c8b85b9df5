-- ===== src/Numastat/Selection/Moves.antt =====
-- numastat.c: the swaps of the selection sort, and where they leave the entries.
use numactl.Base.{
  ℕ, ◌≤◌, ◌<◌, ◌≡◌, ◌≢◌, refl, ap, sym, ◌∙◌, inl, inr, true, false, not, List, arith, ◌==◌,
  if◌then◌else◌, get_or, set, length, get_or-set_self, get_or-set_ne, length-set, Bool-cases,
}
use numactl.Numastat.Selection.{swap}

module _ {A : Type 0} (blank : A) where
  -- One list of rows is reached from another by swaps of entries at two indices from `start` to `stop`.
  pub data Swaps (start stop : ℕ) : List A → List A → Type 0 where
    no_swap : {m : List A} → Swaps start stop m m
    swap_first :
        {m n : List A} (i j : ℕ)
        → start ≤ i
        → i ≤ stop
        → start ≤ j
        → j ≤ stop
        → Swaps start stop (swap blank m i j) n
        → Swaps start stop m n

  -- The list of rows behind a round of the outer loop.
  abbrev pub moved : List A → ℕ → ℕ → List A
  moved m ix b = if not (b == ix) then swap blank m ix b else m

  pub length-moved : (m : List A) (ix b : ℕ) → length (moved m ix b) ≡ length m
  length-moved m ix b = elim (Bool-cases (b == ix)) [
    | inl h ↦ rw h refl
    | inr h ↦ rw h (
        length-set (set m ix (get_or m b blank)) b (get_or m ix blank)
        ∙ length-set m ix (get_or m b blank))
  ]

  swap_first_lem :
      (m : List A) (i j : ℕ)
      → i ≢ j
      → i < length m
      → get_or (swap blank m i j) i blank ≡ get_or m j blank
  swap_first_lem m i j n h =
      get_or-set_ne (set m i (get_or m j blank)) j i (get_or m i blank) blank (λ q. n (sym q))
      ∙ get_or-set_self m i (get_or m j blank) blank h

  swap_second_lem :
      (m : List A) (i j : ℕ)
      → i < length m
      → j < length m
      → get_or (swap blank m i j) j blank ≡ get_or m i blank
  swap_second_lem m i j h l =
      get_or-set_self (set m i (get_or m j blank)) j (get_or m i blank) blank
        (let e = length-set m i (get_or m j blank) in omega (arith, e, l))

  swap_other :
      (m : List A) (i j k : ℕ)
      → k ≢ i
      → k ≢ j
      → get_or (swap blank m i j) k blank ≡ get_or m k blank
  swap_other m i j k n l =
      get_or-set_ne (set m i (get_or m j blank)) j k (get_or m i blank) blank (λ e. l (sym e))
      ∙ get_or-set_ne m i k (get_or m j blank) blank (λ e. n (sym e))

  equal_index : (a b : ℕ) → a == b ≡ true → a ≡ b
  equal_index a b e = ground arith

  other_index : (a b : ℕ) → a == b ≡ false → a ≢ b
  other_index a b e h = ground arith

  pub moved_first :
      (m : List A) (ix b : ℕ) → ix < length m → get_or (moved m ix b) ix blank ≡ get_or m b blank
  moved_first m ix b h = elim (Bool-cases (b == ix)) [
    | inl e ↦ rw e (ap (λ x. get_or m x blank) (sym (equal_index b ix e)))
    | inr e ↦ rw e (swap_first_lem m ix b (λ q. other_index b ix e (sym q)) h)
  ]

  -- An entry behind a swap is one from before.
  swap_from :
      (m : List A) (ix b j stop : ℕ)
      → b ≢ ix
      → ix ≤ b
      → b ≤ stop
      → stop < length m
      → ix ≤ j
      → j ≤ stop
      → (i : ℕ) × (ix ≤ i) × (i ≤ stop) × (get_or (swap blank m ix b) j blank ≡ get_or m i blank)
  swap_from m ix b j stop n q r s h l = elim (Bool-cases (j == ix)) [
    | inl e ↦ (
      b,
      q,
      r,
      rw (equal_index j ix e) (swap_first_lem m ix b (λ x. n (sym x)) (omega (arith, s, h, l))),
    )
    | inr e ↦ elim (Bool-cases (j == b)) [
      | inl d ↦ (
        ix,
        omega arith,
        omega (arith, h, l),
        rw (equal_index j b d)
            (swap_second_lem m ix b (omega (arith, s, h, l)) (omega (arith, r, s))),
      )
      | inr d ↦ (j, h, l, swap_other m ix b j (other_index j ix e) (other_index j b d))
    ]
  ]

  pub moved_from :
      (m : List A) (ix b j stop : ℕ)
      → ix ≤ b
      → b ≤ stop
      → stop < length m
      → ix ≤ j
      → j ≤ stop
      → (i : ℕ) × (ix ≤ i) × (i ≤ stop) × (get_or (moved m ix b) j blank ≡ get_or m i blank)
  moved_from m ix b j stop q r s h l = elim (Bool-cases (b == ix)) [
    | inl e ↦ (j, h, l, rw e refl)
    | inr e ↦ rw e (swap_from m ix b j stop (other_index b ix e) q r s h l)
  ]

  pub moved_before :
      (m : List A) (ix b j : ℕ) → ix ≤ b → j < ix → get_or (moved m ix b) j blank ≡ get_or m j blank
  moved_before m ix b j q h = elim (Bool-cases (b == ix)) [
    | inl e ↦ rw e refl
    | inr e ↦ rw e (swap_other m ix b j (λ x. omega (arith, x, h)) (λ x. omega (arith, x, h, q)))
  ]

  pub moved-Swaps :
      (start stop : ℕ) (m n : List A) (ix b : ℕ)
      → start ≤ ix
      → ix ≤ b
      → b ≤ stop
      → Swaps start stop (moved m ix b) n
      → Swaps start stop m n
  moved-Swaps start stop m n ix b h q r = elim (Bool-cases (b == ix)) [
    | inl e ↦ rw e (λ swaps. swaps)
    | inr e ↦ rw e (λ swaps. swap_first ix b h (omega (arith, q, r)) (omega (arith, h, q)) r swaps)
  ]

pub length-Swaps :
    {A : Type 0} (blank : A) (start stop : ℕ) (m n : List A)
    → Swaps blank start stop m n
    → length n ≡ length m
length-Swaps blank start stop m n no_swap = refl
length-Swaps blank start stop m n (swap_first i j a b c d rest) =
    length-Swaps blank start stop _ n rest
    ∙ length-set (set m i (get_or m j blank)) j (get_or m i blank)
    ∙ length-set m i (get_or m j blank)
