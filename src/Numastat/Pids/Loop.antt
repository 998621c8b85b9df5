-- ===== src/Numastat/Pids/Loop.antt =====
-- numastat.c: what the loop of `sort_pids_and_remove_duplicates` keeps.
use numactl.Base.{
  ℕ, suc, ◌+◌, ◌≡◌, refl, ap, ◌∙◌, sym, Bool, true, false, List, [], ◌∷◌, ◌++◌, arith, ltb,
  if◌then◌else◌, length, get_or, set, take, length-append,
}
use numactl.Base.Ints.{ℤ, pos, negsuc, int_eq}
use numactl.Numastat.Pids.{remove_duplicates}

pub int_eq_lem : (m n : ℤ) → int_eq m n ≡ true → m ≡ n
int_eq_lem (pos m) (pos n) e = ap pos (ground (arith, e))
int_eq_lem (negsuc m) (negsuc n) e = ap negsuc (ground (arith, e))
int_eq_lem (pos m) (negsuc n) e = cc e
int_eq_lem (negsuc m) (pos n) e = cc e

-- The list behind an element, without the elements that are equal to the one kept before.
unfoldable pub unique : ℤ → List ℤ → List ℤ
unique x [] = []
unique x (y ∷ ys) =
    let next = unique y ys in let skip = unique x ys in if int_eq y x then skip else y ∷ next

pub append_assoc : (xs ys zs : List ℤ) → (xs ++ ys) ++ zs ≡ xs ++ (ys ++ zs)
append_assoc [] ys zs = refl
append_assoc (x ∷ xs) ys zs = ap (λ t. x ∷ t) (append_assoc xs ys zs)

-- What the loop works on: what it has done, the last process kept, what it passed over, the rest.
abbrev pub parts : List ℤ → ℤ → List ℤ → List ℤ → List ℤ
parts done x gap rest = done ++ (x ∷ (gap ++ rest))

pub parts_kept :
    (done : List ℤ) (x : ℤ) (gap rest : List ℤ)
    → get_or (parts done x gap rest) (length done) (pos 0) ≡ x
parts_kept [] x gap rest = refl
parts_kept (d ∷ done) x gap rest = parts_kept done x gap rest

pub gap_here :
    (gap : List ℤ) (y : ℤ) (rest : List ℤ) → get_or (gap ++ (y ∷ rest)) (length gap) (pos 0) ≡ y
gap_here [] y rest = refl
gap_here (g ∷ gap) y rest = gap_here gap y rest

pub parts_here :
    (done : List ℤ) (x : ℤ) (gap : List ℤ) (y : ℤ) (rest : List ℤ)
    → get_or (parts done x gap (y ∷ rest)) (length done + 1 + length gap) (pos 0) ≡ y
parts_here [] x gap y rest =
    let e : 0 + 1 + length gap ≡ suc (length gap) = omega arith in rw e (gap_here gap y rest)
parts_here (d ∷ done) x gap y rest =
    let e : suc (length done) + 1 + length gap ≡ suc (length done + 1 + length gap) = omega arith in
    rw e (parts_here done x gap y rest)

pub parts_pass :
    (done : List ℤ) (x : ℤ) (gap : List ℤ) (y : ℤ) (rest : List ℤ)
    → parts done x (gap ++ (y ∷ [])) rest ≡ parts done x gap (y ∷ rest)
parts_pass done x gap y rest = ap (λ t. done ++ (x ∷ t)) (append_assoc gap (y ∷ []) rest)

pub parts_move :
    (done : List ℤ) (x y : ℤ) (gap rest : List ℤ)
    → parts (done ++ (x ∷ [])) y gap rest ≡ parts done x (y ∷ gap) rest
parts_move done x y gap rest = append_assoc done (x ∷ []) (y ∷ (gap ++ rest))

pub set-parts :
    (done : List ℤ) (x g y : ℤ) (gap rest : List ℤ)
    → set (parts done x (g ∷ gap) rest) (length done + 1) y ≡ parts done x (y ∷ gap) rest
set-parts [] x g y gap rest = refl
set-parts (d ∷ done) x g y gap rest =
    let e : suc (length done) + 1 ≡ suc (length done + 1) = omega arith in
    rw e (ap (λ t. d ∷ t) (set-parts done x g y gap rest))

-- What the loop leaves, up to the last process kept.
abbrev pub kept : ℕ × List ℤ → List ℤ
kept (ix1, array) = take (ix1 + 1) array

pub take-parts :
    (done : List ℤ) (x : ℤ) (gap : List ℤ)
    → take (length done + 1) (done ++ (x ∷ gap)) ≡ done ++ (x ∷ [])
take-parts [] x gap = refl
take-parts (d ∷ done) x gap =
    let e : suc (length done) + 1 ≡ suc (length done + 1) = omega arith in
    rw e (ap (λ t. d ∷ t) (take-parts done x gap))

module _ (done : List ℤ) (x y : ℤ) (rest : List ℤ) where
  -- The array behind the round that keeps `y`.
  pub round_kept :
      (gap : List ℤ)
      → (g : List ℤ) × (length g ≡ length gap)
        × ((if ltb (length done + 1) (length done + 1 + length gap)
              then set (parts done x gap (y ∷ rest)) (length done + 1) y
              else parts done x gap (y ∷ rest))
            ≡ parts (done ++ (x ∷ [])) y g rest)
  round_kept [] =
      let e : ltb (length done + 1) (length done + 1 + 0) ≡ false = ground arith in
      ([], refl, rw e (sym (parts_move done x y [] rest)))
  round_kept (g ∷ gap) =
      let e : ltb (length done + 1) (length done + 1 + suc (length gap)) ≡ true = ground arith in
      (
        gap ++ (y ∷ []),
        (let l = length-append gap (y ∷ []) in omega (arith, l)),
        rw e (
            set-parts done x g y gap (y ∷ rest)
            ∙ sym (parts_move done x y gap (y ∷ rest))
            ∙ sym (parts_pass (done ++ (x ∷ [])) y gap y rest)),
      )

if-kept :
    (b : Bool) (r q : ℕ × List ℤ) (done later : List ℤ)
    → (b ≡ true → kept r ≡ done)
    → (b ≡ false → kept q ≡ later)
    → kept (if b then r else q) ≡ (if b then done else later)
if-kept true r q done later h l = h refl
if-kept false r q done later h l = l refl

if-append :
    (b : Bool) (done xs ys : List ℤ)
    → (if b then done ++ xs else done ++ ys) ≡ done ++ (if b then xs else ys)
if-append true done xs ys = refl
if-append false done xs ys = refl

if-cons :
    (b : Bool) (x : ℤ) (xs ys : List ℤ)
    → (if b then x ∷ xs else x ∷ ys) ≡ x ∷ (if b then xs else ys)
if-cons true x xs ys = refl
if-cons false x xs ys = refl

pub append_cons :
    (done : List ℤ) (x : ℤ) (xs : List ℤ) → (done ++ (x ∷ [])) ++ xs ≡ done ++ (x ∷ xs)
append_cons done x xs = append_assoc done (x ∷ []) xs

-- The loop leaves what it has done, the last process kept, and the unique ones of the rest.
pub remove_duplicates-unique :
    (done : List ℤ) (x : ℤ) (gap rest : List ℤ)
    → kept (
        remove_duplicates
          (length rest)
          (length done + 1 + length gap)
          (length done)
          (parts done x gap rest))
      ≡ done ++ (x ∷ unique x rest)
unfolding remove_duplicates unique
remove_duplicates-unique done x gap [] = take-parts done x (gap ++ [])
remove_duplicates-unique done x gap (y ∷ rest) =
    let (g, l, e) = round_kept done x y rest gap in
    let n : length done + 1 + length gap + 1 ≡ length done + 1 + length (gap ++ (y ∷ [])) =
      let k = length-append gap (y ∷ []) in omega (arith, k) in
    let m : length done + 1 + length gap + 1 ≡ length (done ++ (x ∷ [])) + 1 + length g =
      let k = length-append done (x ∷ []) in omega (arith, k, l) in
    let d : length done + 1 ≡ length (done ++ (x ∷ [])) =
      let k = length-append done (x ∷ []) in omega (arith, k) in
    rw (parts_here done x gap y rest, parts_kept done x gap (y ∷ rest))
      (if-kept (int_eq y x) _ _ (done ++ (x ∷ unique x rest)) (done ++ (x ∷ y ∷ unique y rest))
          (λ h.
            rw (n, sym (parts_pass done x gap y rest))
              (remove_duplicates-unique done x (gap ++ (y ∷ [])) rest))
          (λ h.
            rw (e, m, d) (remove_duplicates-unique (done ++ (x ∷ [])) y g rest)
            ∙ append_cons done x (y ∷ unique y rest))
        ∙ if-append (int_eq y x) done _ _
        ∙ ap (λ t. done ++ t) (if-cons (int_eq y x) x _ _))
