-- ===== src/Numastat/Hash.antt =====
-- A name that was inserted is found, and other names are found as before.
use numactl.Base.{
  ℕ, zero, suc, ◌+◌, ◌-◌, ◌≤◌, ◌⊎◌, ◌*◌, ◌%◌, ◌^◌, ◌<◌, ◌≡◌, ◌≢◌, inl, inr, refl, sym, ap, ◌∙◌,
  false, [], ◌∷◌, some, none, Bytes, arith, Option-cases, length, get_or, set, str_eq, str_eq_iff,
  get_or-set_self, get_or-set_ne,
}
use numactl.Base.Ints.{ℤ}
use numactl.Numastat.{
  hash_table_size, HashEntry, HashTable, hash_ix, hash_from, next_ix, lookup_from, hash_lookup,
  blank_from, hash_insert,
}

-- No entry has the name.
abbrev pub IsNew : Bytes → HashTable → Type 0
IsNew s table = (ix : ℕ) (e : HashEntry) → get_or table ix none ≡ some e → str_eq s e.name ≡ false

blank_from-blank :
    (fuel ix k : ℕ) (table : HashTable)
    → blank_from fuel ix table ≡ some k
    → get_or table k none ≡ none
unfolding blank_from
blank_from-blank zero ix k table found = cc found
blank_from-blank (suc fuel) ix k table found = elim (Option-cases (get_or table ix none)) [
  | inl blank ↦ let same : ix ≡ k = cc (rw (blank, blank_from) at found) in rw (← same) blank
  | inr (e, full) ↦ blank_from-blank fuel (next_ix ix) k table (rw (full, blank_from) at found)
]

next_ix-lt : (ix : ℕ) → next_ix ix < hash_table_size
next_ix-lt ix = ground arith

lookup_from-put :
    (fuel ix k : ℕ) (s : Bytes) (i : ℤ) (table : HashTable)
    → IsNew s table
    → length table ≡ hash_table_size
    → ix < hash_table_size
    → blank_from fuel ix table ≡ some k
    → lookup_from fuel ix s (set table k (some (record { name = s; index = i }))) ≡ some i
unfolding lookup_from blank_from
lookup_from-put zero ix k s i table new room l found = cc found
lookup_from-put (suc fuel) ix k s i table new room l found =
    elim (Option-cases (get_or table ix none)) [
      | inl blank ↦
          let same : ix ≡ k = cc (rw (blank, blank_from) at found) in
          let here =
            get_or-set_self table ix (some (record { name = s; index = i })) none
              (omega (arith, room)) in
          rw (← same, lookup_from, here, (str_eq_iff s s).1 refl)
      | inr (e, full) ↦
          let free = blank_from-blank (suc fuel) ix k table found in
          let other : k ≢ ix = (λ q. cc (full, free, ap (λ (t : ℕ). get_or table t none) q)) in
          let kept = get_or-set_ne table k ix (some (record { name = s; index = i })) none other in
          rw (lookup_from, kept, full, new ix e full)
            (lookup_from-put fuel (next_ix ix) k s i table new room (next_ix-lt ix)
              (rw (full, blank_from) at found))
    ]

hash_from-lt : (h : ℕ) (s : Bytes) → hash_from h s < hash_table_size
unfolding hash_from
hash_from-lt h [] = omega arith
hash_from-lt h (c ∷ s) = hash_from-lt ((h * 2 ^ 5 % 2 ^ 32 + h + c) % 2 ^ 32) s

-- With a blank entry at `b`, behind `ix` or not, the loop ends within the rounds to it.
blank_from-ends :
    (r fuel ix b : ℕ) (table : HashTable)
    → get_or table b none ≡ none
    → b < hash_table_size
    → ix < hash_table_size
    → r < fuel
    → (ix + r ≡ b) ⊎ (ix + r ≡ hash_table_size + b)
    → (k : ℕ) × (blank_from fuel ix table ≡ some k)
unfolding blank_from
blank_from-ends r zero ix b table free lb l enough place = absurd (omega arith)
blank_from-ends zero (suc fuel) ix b table free lb l enough place =
    let same : b ≡ ix = omega arith in
    (ix, rw (blank_from, ap (λ (t : ℕ). get_or table t none) (sym same) ∙ free))
blank_from-ends (suc r) (suc fuel) ix b table free lb l enough place =
    elim (Option-cases (get_or table ix none)) [
      | inl blank ↦ (ix, rw (blank_from, blank))
      | inr (e, full) ↦
          let (k, found) =
            blank_from-ends r fuel (next_ix ix) b table free lb (next_ix-lt ix) (omega arith)
              (ground arith) in
          (k, rw (blank_from, full) found)
    ]

-- Into a table with a blank entry a name that is not there is inserted, within 302 rounds, and
-- is then found, within as many rounds, with the index it was given.
pub hash_lookup-hash_insert :
    (fuel b : ℕ) (s : Bytes) (i : ℤ) (table : HashTable)
    → length table ≡ hash_table_size
    → get_or table b none ≡ none
    → b < hash_table_size
    → IsNew s table
    → 302 ≤ fuel
    → (ix : ℕ) × (table' : HashTable) × (hash_insert fuel s i table ≡ some (ix, table'))
      × (hash_lookup fuel s table' ≡ some i)
unfolding hash_insert hash_lookup hash_ix
hash_lookup-hash_insert fuel b s i table room free lb new enough =
    let start : hash_from 17 s < hash_table_size = hash_from-lt 17 s in
    let (k, found) =
      blank_from-ends (hash_table_size + b - hash_from 17 s) fuel (hash_from 17 s) b table free lb
        start (omega arith) (omega arith) in
    (
      k,
      set table k (some (record { name = s; index = i })),
      rw found,
      lookup_from-put fuel (hash_from 17 s) k s i table new room start found,
    )
