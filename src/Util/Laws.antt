-- ===== src/Util/Laws.antt =====
-- Sizes with a suffix are multiples, and policies are found by their names.
use numactl.Base.{
  ℕ, ◌*◌, ◌^◌, ◌<◌, ◌≡◌, ◌≢◌, ◌⊎◌, inl, inr, refl, Bool, true, false, not, ◌&&◌, ◌||◌, List, [],
  ◌∷◌, ◌++◌, Option, none, some, Bytes, str_eq, str_eq_iff, ◌==◌, if◌then◌else◌, arith, Bool-cases,
  Option-cases, ap, ◌∙◌,
}
use numactl.Text.{toupper, decimal}
use numactl.Text.Decimal.{NoDigit, strtoul-decimal}
use numactl.Util.{scale, memsize, Policy, policies, skip_dashes, find_policy, parse_policy, is_null}

-- What a suffix multiplies by.
abbrev pub unit_of : ℕ → ℕ
unit_of c =
    if c == b'g' || c == b'G'
    then 2 ^ 30
    else if c == b'm' || c == b'M'
    then 2 ^ 20
    else if c == b'k' || c == b'K'
    then 2 ^ 10
    else 1

scale-unit_of : (c n : ℕ) → n * unit_of c < 2 ^ 64 → scale (toupper c) n ≡ n * unit_of c
unfolding scale
scale-unit_of c n h = ground arith

-- A written number with a suffix g, m or k, in either case, or with another character behind it that
-- is no digit, is that many units, where these fit in 64 bits.
pub memsize-decimal :
    (n c : ℕ) (rest : Bytes)
    → NoDigit (c ∷ rest)
    → n * unit_of c < 2 ^ 64
    → n < 2 ^ 64
    → memsize (decimal n ++ (c ∷ rest)) ≡ n * unit_of c
unfolding memsize
memsize-decimal n c rest nd fits small =
    rw (strtoul-decimal n (c ∷ rest) small nd, memsize) (scale-unit_of c n fits)

-- A policy of the table.
abbrev pub IsEntry : List Policy → Policy → Type 0
IsEntry [] p = ⊥
IsEntry (q ∷ qs) p = (q ≡ p) ⊎ IsEntry qs p

find_policy-IsEntry :
    (ps : List Policy) (name : Bytes) (p : Policy)
    → find_policy ps name ≡ some p
    → IsEntry ps p × (p.name ≡ name)
unfolding find_policy
find_policy-IsEntry [] name p h = cc h
find_policy-IsEntry (q ∷ ps) name p h = elim (Bool-cases (str_eq q.name name)) [
  | inl same ↦
      let e : q ≡ p = cc (rw same at h) in (inl e, rw (← e) ((str_eq_iff q.name name).0 same))
  | inr other ↦ let (i, n) = find_policy-IsEntry ps name p (rw other at h) in (inr i, n)
]

find_policy-none :
    (ps : List Policy) (name : Bytes) (p : Policy)
    → find_policy ps name ≡ none
    → IsEntry ps p
    → p.name ≢ name
unfolding find_policy
find_policy-none [] name p h i = absurd i
find_policy-none (q ∷ ps) name p h i = elim (Bool-cases (str_eq q.name name)) [
  | inl same ↦ absurd (cc (rw same at h))
  | inr other ↦ elim i [
    | inl e ↦ λ n. cc (other, (str_eq_iff q.name name).1 (ap (λ (r : Policy). r.name) e ∙ n))
    | inr later ↦ find_policy-none ps name p (rw other at h) later
  ]
]

with_arg :
    (arg : Option Bytes) (noarg : Bool)
    → (is_null arg && not noarg) ≡ false
    → arg ≡ none
    → noarg ≡ true
with_arg none true h e = refl
with_arg none false h e = cc h
with_arg (some a) noarg h e = cc e

without_arg :
    (arg : Option Bytes) (noarg : Bool)
    → (is_null arg && not noarg) ≡ true
    → (arg ≡ none) × (noarg ≡ false)
without_arg none true h = cc h
without_arg none false h = (refl, refl)
without_arg (some a) noarg h = cc h

-- Why `parse_policy` gives MPOL_MAX: no policy has the name, or the one found lacks its argument.
abbrev pub IsRefused : Bytes → Option Bytes → Type 0
IsRefused name arg =
    ((p : Policy) → IsEntry policies p → p.name ≢ skip_dashes name)
    ⊎ ((p : Policy) × IsEntry policies p
        × (p.name ≡ skip_dashes name)
        × (arg ≡ none)
        × (p.noarg ≡ false))

-- Either the result is MPOL_MAX, and no policy of the table has the name behind the dashes or one
-- that has it needs an argument and there is none; or the result is that of a policy of the table
-- with that name, which needs no argument where there is none.
pub parse_policy-IsEntry :
    (name : Bytes) (arg : Option Bytes)
    → ((parse_policy (some name) arg ≡ 7) × IsRefused name arg)
      ⊎ ((p : Policy) × IsEntry policies p
          × (p.name ≡ skip_dashes name)
          × ((arg ≡ none) → p.noarg ≡ true)
          × (parse_policy (some name) arg ≡ p.policy))
unfolding parse_policy
parse_policy-IsEntry name arg = elim (Option-cases (find_policy policies (skip_dashes name))) [
  | inl missing ↦ inl (
    rw (missing, parse_policy),
    inl (λ p. find_policy-none policies (skip_dashes name) p missing),
  )
  | inr (p, here) ↦
      let (i, n) = find_policy-IsEntry policies (skip_dashes name) p here in
      elim (Bool-cases (is_null arg && not p.noarg)) [
        | inl wanting ↦ inl (
          rw (here, parse_policy, wanting),
          (let (z, w) = without_arg arg p.noarg wanting in inr (p, i, n, z, w)),
        )
        | inr fine ↦ inr (p, i, n, with_arg arg p.noarg fine, rw (here, parse_policy, fine))
      ]
]
