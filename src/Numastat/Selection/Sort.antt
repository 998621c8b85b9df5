-- ===== src/Numastat/Selection/Sort.antt =====
-- numastat.c: the selection sort rearranges the entries, in descending order of their values.
use numactl.Base.{
  ℕ, zero, suc, ◌+◌, ◌-◌, ◌≤◌, ◌<◌, ◌≡◌, refl, ◌⊎◌, inl, inr, Bool, true, false, List, arith,
  if◌then◌else◌, get_or, length, Bool-cases,
}
use numactl.Numastat.Selection.{biggest_from, sort_from}
use numactl.Numastat.Selection.Moves.{
  Swaps, no_swap, moved, length-moved, moved_first, moved_from, moved_before, moved-Swaps,
}

-- The value at an index of the list.
abbrev pub at : {A D : Type 0} → A → (A → D) → List A → ℕ → D
at blank value m i = value (get_or m i blank)

-- The indices that the inner loop compares.
abbrev pub Among : ℕ → ℕ → ℕ → ℕ → Type 0
Among rounds iy biggest j = (j ≡ biggest) ⊎ ((iy ≤ j) × (j < iy + rounds))

module _ {D : Type 0} (less : D → D → Bool) where
  -- The order of numbers that are not NaN.
  pub record IsOrder : Type 0 where
    pub asym : (x y : D) → less x y ≡ true → less y x ≡ false
    pub trans : (x y z : D) → less x y ≡ false → less y z ≡ false → less x z ≡ false

  irreflexive : IsOrder → (x : D) → less x x ≡ false
  irreflexive order x = elim (Bool-cases (less x x)) [ inl h ↦ order.asym x x h | inr h ↦ h ]

module _ {A D : Type 0} (blank : A) (less : D → D → Bool) where
  -- What the inner loop finds: one of them, with the biggest number.
  abbrev pub Finds : (A → D) → List A → ℕ → ℕ → ℕ → ℕ → Type 0
  Finds value m rounds iy biggest b =
      Among rounds iy biggest b
      × ((j : ℕ)
          → Among rounds iy biggest j
          → less (at blank value m b) (at blank value m j) ≡ false)

  next-Among :
      (rounds iy biggest j : ℕ)
      → Among (suc rounds) iy biggest j
      → (j ≡ biggest) ⊎ ((j ≡ iy) ⊎ ((iy + 1 ≤ j) × (j < iy + 1 + rounds)))
  next-Among rounds iy biggest j h = omega (arith, h)

  Finds-next :
      IsOrder less
      → (value : A → D) (m : List A) (rounds iy biggest b : ℕ) (t : Bool)
      → less (at blank value m biggest) (at blank value m iy) ≡ t
      → Finds value m rounds (iy + 1) (if t then iy else biggest) b
      → Finds value m (suc rounds) iy biggest b
  Finds-next order value m rounds iy biggest b true q (among, most) = (
    omega (arith, among),
    λ j h. elim (next-Among rounds iy biggest j h) [
      | inl e ↦ rw e (order.trans _ _ _ (most iy (inl refl)) (order.asym _ _ q))
      | inr (inl e) ↦ most j (inl e)
      | inr (inr l) ↦ most j (inr l)
    ],
  )
  Finds-next order value m rounds iy biggest b false q (among, most) = (
    omega (arith, among),
    λ j h. elim (next-Among rounds iy biggest j h) [
      | inl e ↦ most j (inl e)
      | inr (inl e) ↦ rw e (order.trans _ _ _ (most biggest (inl refl)) q)
      | inr (inr l) ↦ most j (inr l)
    ],
  )

  biggest_from-Finds :
      IsOrder less
      → (value : A → D) (m : List A) (rounds iy biggest : ℕ)
      → Finds value m rounds iy biggest (biggest_from blank less value m rounds iy biggest)
  unfolding biggest_from
  biggest_from-Finds order value m zero iy biggest =
      (inl refl, λ j h. let e : j ≡ biggest = omega (arith, h) in rw e (irreflexive less order _))
  biggest_from-Finds order value m (suc rounds) iy biggest =
      Finds-next order value m rounds iy biggest _ _ refl
        (biggest_from-Finds order value m rounds (iy + 1) _)

module _ {A D : Type 0} (blank : A) (less : D → D → Bool) where
  -- The entries from `start` to below `ix` are in descending order, and no entry from there to
  -- `stop` is bigger.
  abbrev pub Descends : (A → D) → List A → ℕ → ℕ → ℕ → Type 0
  Descends value m start ix stop =
      (i j : ℕ)
      → start ≤ i
      → i < ix
      → i ≤ j
      → j ≤ stop
      → less (at blank value m i) (at blank value m j) ≡ false

  Descends-next :
      (value : A → D) (m : List A) (start ix stop b : ℕ)
      → ix ≤ stop
      → stop < length m
      → Finds blank less value m (stop - ix) (ix + 1) ix b
      → Descends value m start ix stop
      → Descends value (moved blank m ix b) start (ix + 1) stop
  Descends-next value m start ix stop b q s (among, most) before i j h l k r =
      let bounds : (ix ≤ b) × (b ≤ stop) = omega (arith, among, q) in
      let first : (i < ix) ⊎ (i ≡ ix) = omega (arith, l) in
      let second : (j < ix) ⊎ (ix ≤ j) = omega arith in
      elim first [
        | inl i<ix ↦ rw (moved_before blank m ix b i (bounds.0) i<ix) (elim second [
          | inl j<ix ↦ rw (moved_before blank m ix b j (bounds.0) j<ix) (before i j h i<ix k r)
          | inr ix≤j ↦
              let (t, u, v, w) = moved_from blank m ix b j stop (bounds.0) (bounds.1) s ix≤j r in
              rw w (before i t h i<ix (omega (arith, i<ix, u)) v)
        ])
        | inr e ↦
            let (t, u, v, w) =
              moved_from blank m ix b j stop (bounds.0) (bounds.1) s (omega (arith, e, k)) r in
            rw e (
              rw (moved_first blank m ix b (omega (arith, q, s)))
                (rw w (most t (omega (arith, u, v, q)))))
      ]

  pub sort_from-Sorts :
      IsOrder less
      → (value : A → D) (start stop rounds ix : ℕ) (m : List A) → start ≤ ix
      → ix + rounds ≡ stop + 1
      → stop < length m
      → Descends value m start ix stop
      → Descends value (sort_from blank less value stop rounds ix m) start (stop + 1) stop
        × Swaps blank start stop m (sort_from blank less value stop rounds ix m)
  unfolding sort_from
  sort_from-Sorts order value start stop zero ix m h e s before =
      ((λ i j q l. before i j q (omega (arith, l, e))), no_swap)
  sort_from-Sorts order value start stop (suc rounds) ix m h e s before =
      let b = biggest_from blank less value m (stop - ix) (ix + 1) ix in
      let finds = biggest_from-Finds blank less order value m (stop - ix) (ix + 1) ix in
      let q : ix ≤ stop = omega (arith, e) in
      let (descends, swaps) =
        sort_from-Sorts order value start stop rounds (ix + 1) (moved blank m ix b)
          (omega (arith, h)) (omega (arith, e))
          (let same = length-moved blank m ix b in omega (arith, same, s))
          (Descends-next value m start ix stop b q s finds before) in
      let among = finds.0 in
      (
        descends,
        moved-Swaps blank start stop m _ ix b h (omega (arith, among)) (omega (arith, among, q))
            swaps,
      )
