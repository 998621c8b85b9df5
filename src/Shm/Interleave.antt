-- ===== src/Shm/Interleave.antt =====
-- Where `interleave_next` goes from a node: the next node of the mask, around the end.
use numactl.Base.{
  ℕ, zero, suc, ◌+◌, ◌-◌, ◌*◌, ◌^◌, ◌%◌, ◌≤◌, ◌<◌, ◌≡◌, inl, inr, refl, ap, ◌∙◌, true, false,
  Option, some, none, arith, Bool-cases,
}
use native.Mathlib.Nat.{mod-eq_of_lt, mod_self, add-mod_left}
use numactl.Base.Loops.{find_from, FoundBy, find_from-FoundBy}
use numactl.Bitmask.{Bitmask, isbitset}
use numactl.Bitmask.Ops.{isbitset_beyond}
use numactl.Libnuma.{State}
use numactl.Shm.{next_set, interleave_next}

-- From `from` on, of the nodes below `n`: the first node of the mask at `from` or behind it, or the
-- first at all where there is none.
pub data NextFrom (mask : Bitmask) (n from k : ℕ) : Type 0 where
  ahead :
      isbitset mask k ≡ true
      → from ≤ k
      → k < n
      → ((j : ℕ) → from ≤ j → j < k → isbitset mask j ≡ false)
      → NextFrom mask n from k
  around :
      isbitset mask k ≡ true
      → k < n
      → ((j : ℕ) → from ≤ j → j < n → isbitset mask j ≡ false)
      → ((j : ℕ) → j < k → isbitset mask j ≡ false)
      → NextFrom mask n from k

abbrev or_else : Option ℕ → Option ℕ → Option ℕ
or_else none other = other
or_else (some k) other = some k

-- The walk up to the end of the nodes is a search, and goes on at node 0.
next_set-find_from :
    (r fuel total cur n : ℕ) (mask : Bitmask)
    → total ≡ r + fuel
    → 0 < r
    → cur + r ≡ n
    → next_set total cur n mask ≡ or_else (find_from r cur (isbitset mask)) (next_set fuel 0 n mask)
unfolding next_set find_from
next_set-find_from zero fuel total cur n mask enough pos e = absurd (omega arith)
next_set-find_from (suc r) fuel zero cur n mask enough pos e = absurd (omega arith)
next_set-find_from (suc zero) fuel (suc total) cur n mask enough pos e =
    let end : (cur + 1) % n ≡ 0 = wraps cur n (omega arith) in
    let same : total ≡ fuel = omega arith in
    elim (Bool-cases (isbitset mask cur)) [ inl hit ↦ rw hit | inr miss ↦ rw (miss, end, same) ]
  where
    wraps : (a b : ℕ) → a + 1 ≡ b → (a + 1) % b ≡ 0
    wraps a b h = rw h (mod_self b)
next_set-find_from (suc (suc r)) fuel (suc total) cur n mask enough pos e =
    let next : (cur + 1) % n ≡ cur + 1 = mod-eq_of_lt (omega arith) in
    elim (Bool-cases (isbitset mask cur)) [
      | inl hit ↦ rw hit
      | inr miss ↦
          rw (miss, next)
            (next_set-find_from (suc r) fuel total (cur + 1) n mask (omega arith) (omega arith)
              (omega arith))
    ]

-- What the two searches find.
walk :
    (n cur : ℕ) (mask : Bitmask) (a b rest : Option ℕ)
    → FoundBy cur n (isbitset mask) a
    → FoundBy 0 n (isbitset mask) b
    → ((w : ℕ) × (w < n) × (isbitset mask w ≡ true))
    → (k : ℕ) × (or_else a (or_else b rest) ≡ some k) × NextFrom mask n cur k
walk n cur mask (some k) b rest fa fb some_node =
    (k, refl, ahead fa.passes fa.above fa.below fa.least)
walk n cur mask none (some k) rest fa fb some_node =
    (k, refl, around fb.passes fb.below fa (λ j. fb.least j (omega arith)))
walk n cur mask none none rest fa fb (w, below, set) = absurd (cc (set, fb w (omega arith) below))

-- From a node that is not the last possible one, `interleave_next` goes to the next node of the
-- mask behind it, or else to the first, if the mask has a possible node at all.
pub interleave_next-NextFrom :
    (st : State) (fuel cur : ℕ) (mask : Bitmask)
    → suc cur < st.nodemask_sz
    → st.nodemask_sz < 2 ^ 31
    → 2 * st.nodemask_sz < fuel
    → ((w : ℕ) × (w < st.nodemask_sz) × (isbitset mask w ≡ true))
    → (k : ℕ) × (interleave_next fuel st cur mask ≡ some k)
      × NextFrom mask st.nodemask_sz (suc cur) k
unfolding interleave_next
interleave_next-NextFrom st fuel cur mask l small enough some_node =
    let n : ℕ = st.nodemask_sz in
    let here : (cur + 1) % 2 ^ 32 ≡ suc cur = omega arith in
    let first =
      next_set-find_from (n - suc cur) (fuel - (n - suc cur)) fuel (suc cur) n mask (omega arith)
        (omega arith) (omega arith) in
    let second =
      next_set-find_from n (fuel - (n - suc cur) - n) (fuel - (n - suc cur)) 0 n mask (omega arith)
        (omega arith) (omega arith) in
    let (k, e, next) =
      walk n (suc cur) mask (find_from (n - suc cur) (suc cur) (isbitset mask))
        (find_from n 0 (isbitset mask)) (next_set (fuel - (n - suc cur) - n) 0 n mask)
        (find_from-FoundBy (n - suc cur) (suc cur) (isbitset mask) n (omega arith))
        (find_from-FoundBy n 0 (isbitset mask) n (omega arith)) some_node in
    (
      k,
      ap (λ (t : ℕ). next_set fuel t n mask) here
          ∙ (first ∙ (ap (or_else (find_from (n - suc cur) (suc cur) (isbitset mask))) second ∙ e)),
      next,
    )

-- From the last of at least two possible nodes it goes past node 0: if node 1 is in the mask, which
-- has no more bits than there are possible nodes, it goes to node 1, whether or not node 0 is in
-- the mask.
pub interleave_next_last :
    (st : State) (fuel cur : ℕ) (mask : Bitmask)
    → suc cur ≡ st.nodemask_sz
    → 1 < st.nodemask_sz
    → st.nodemask_sz < 2 ^ 31
    → mask.size ≤ st.nodemask_sz
    → isbitset mask 1 ≡ true
    → interleave_next (suc (suc fuel)) st cur mask ≡ some 1
unfolding interleave_next next_set
interleave_next_last st fuel cur mask e l small within set =
    let here : (cur + 1) % 2 ^ 32 ≡ st.nodemask_sz = omega arith in
    let beyond : isbitset mask st.nodemask_sz ≡ false =
      isbitset_beyond mask st.nodemask_sz within in
    let wrapped : (st.nodemask_sz + 1) % st.nodemask_sz ≡ 1 =
      add-mod_left st.nodemask_sz 1 ∙ mod-eq_of_lt l in
    rw (here, beyond, wrapped, set)
