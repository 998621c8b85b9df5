-- ===== src/Numastat/Maps/Bounds.antt =====
-- numastat.c, `show_process_info`: what is read from a `numa_maps` file is pages of one of the four
-- categories on one of the nodes of the map.
use numactl.Base.{
  ℕ, suc, ◌+◌, ◌≤◌, ◌<◌, ◌≡◌, refl, Bool, true, false, List, [], ◌∷◌, Option, some, none, Bytes,
  codes, ◌==◌, if◌then◌else◌, drop, length, arith, Bool-cases, inl, inr,
}
use numactl.Base.Ints.{ℤ, int_eq}
use numactl.Text.{first_byte, strtol}
use numactl.Numastat.Maps.{
  Arithmetic, Sizes, LineState, Ended, going, exit_failure, past_map, and_then, with_category,
  with_page_size, add_at, read_count, read_tokens, read_line_of, read_lines, int_at, node_index,
  behind_string, starts, category_from, meminfo_tokens, tokens_after, is_blank_char, private_index,
  kernel_pagesize,
}

-- The state at the end has the property, if there is one.
abbrev pub Holds : {S : Type 0} → (S → Type 0) → Ended S → Type 0
Holds P (going s) = P s
Holds P exit_failure = Unit
Holds P past_map = Unit

pub Holds-and_then :
    {S T : Type 0} (P : S → Type 0) (Q : T → Type 0) (r : Ended S) (f : S → Ended T)
    → Holds P r
    → ((s : S) → P s → Holds Q (f s))
    → Holds Q (and_then r f)
Holds-and_then P Q (going s) f h k = k s h
Holds-and_then P Q exit_failure f h k = tt
Holds-and_then P Q past_map f h k = tt

category_within :
    (tokens : List Bytes) (ix : ℕ) (p : Bytes)
    → ix + length tokens ≤ 3
    → category_from tokens ix p ≤ 3
unfolding category_from
category_within [] ix p h = omega arith
category_within (token ∷ rest) ix p h = elim (Bool-cases (starts token p)) [
  | inl e ↦ rw e (omega (arith, h))
  | inr e ↦ rw e (category_within rest (ix + 1) p (omega (arith, h)))
]

-- An index that is found is in the map.
abbrev pub Indexes : List ℤ → Option ℕ → Type 0
Indexes nodes none = Unit
Indexes nodes (some i) = i < length nodes

node_index-Indexes : (nodes : List ℤ) (n : ℤ) → Indexes nodes (node_index nodes n)
unfolding node_index
node_index-Indexes [] n = tt
node_index-Indexes (m ∷ rest) n =
    choose (int_eq m n) (node_index rest n) (node_index-Indexes rest n)
  where
    choose :
        (b : Bool) (o : Option ℕ)
        → Indexes rest o
        → Indexes (m ∷ rest) (if b then some 0 else elim o [ none ↦ none | some i ↦ some (suc i) ])
    choose true o h = omega arith
    choose false none h = tt
    choose false (some i) h = omega (arith, h)

module _ {D : Type 0} (num : Arithmetic D) (sizes : Sizes D) {S : Type 0} (add : ℕ → ℕ → D → S → S)
    (P : S → Type 0)
    (keeps : (c ix : ℕ) (v : D) (s : S)
      → c ≤ 3
      → ix < length sizes.node_ix_map
      → P s
      → P (add c ix v s)) where
  abbrev Fine : LineState D × S → Type 0
  Fine (line, s) = (line.category ≤ 3) × P s

  add_at-Holds :
      (line : LineState D) (v : D) (s : S) (i : Option ℕ)
      → line.category ≤ 3
      → Indexes sizes.node_ix_map i
      → P s
      → Holds Fine (add_at num sizes add line v s i)
  add_at-Holds line v s none c h p = tt
  add_at-Holds line v s (some i) c h p = (c, keeps line.category i v s c h p)

  with_page_size_category :
      (line : LineState D) → (with_page_size num sizes add line).category ≡ line.category
  with_page_size_category line = elim (Bool-cases (num.is_zero line.vm_pagesz)) [
    | inl e ↦ rw e refl
    | inr e ↦ rw e refl
  ]

  if-Holds :
      (b : Bool) (r : Ended (LineState D × S))
      → Holds Fine r
      → Holds Fine (if b then exit_failure else r)
  if-Holds true r h = tt
  if-Holds false r h = h

  read_count-Holds :
      (line : LineState D) (s : S) (n : ℤ × Bytes)
      → line.category ≤ 3
      → P s
      → Holds Fine (read_count num sizes add line s n)
  read_count-Holds line s (n, p) c h = if-Holds _ _ (
      add_at-Holds (with_page_size num sizes add line) _ s _
        (let e = with_page_size_category line in omega (arith, e, c))
        (node_index-Indexes sizes.node_ix_map n) h)

  with_category_within :
      (line : LineState D) (p : Bytes)
      → line.category ≤ 3
      → (with_category num sizes add line p).category ≤ 3
  with_category_within line p c = elim (Bool-cases (line.category == private_index)) [
    | inl e ↦ rw e (category_within meminfo_tokens 0 p (omega arith))
    | inr e ↦ rw e c
  ]

  choose-Holds : (b : Bool) (r q : Ended S) → Holds P r → Holds P q → Holds P (if b then r else q)
  choose-Holds true r q h l = h
  choose-Holds false r q h l = l

  read_tokens-Holds :
      (line : LineState D) (s : S) (tokens : List Bytes)
      → line.category ≤ 3
      → P s
      → Holds P (read_tokens num sizes add line s tokens)
  unfolding read_tokens
  read_tokens-Holds line s [] c h = h
  read_tokens-Holds line s (p ∷ rest) c h =
      let found = with_category num sizes add line p in
      let within = with_category_within line p c in
      choose-Holds (first_byte p == b'N') _ _
        (Holds-and_then Fine P
          (read_count num sizes add found s (int_at (drop 1 p) (strtol 10 (drop 1 p)))) _
          (read_count-Holds found s (int_at (drop 1 p) (strtol 10 (drop 1 p))) within h)
          (λ x f. read_tokens-Holds (x.0) (x.1) rest (f.0) (f.1)))
        (read_tokens-Holds found s rest within h)

  -- What holds before and is kept by the addition of pages of a category on a node holds at the end.
  pub read_lines-Holds :
      (s : S) (lines : List Bytes) → P s → Holds P (read_lines num sizes add s lines)
  unfolding read_lines
  read_lines-Holds s [] h = h
  read_lines-Holds s (buf ∷ rest) h =
      Holds-and_then P P (read_line_of num sizes add s buf) _
        (read_tokens-Holds
          (record {
            category = private_index;
            vm_pagesz =
                kernel_pagesize num sizes add (behind_string (codes "kernelpagesize_kB=") buf);
          })
          s (tokens_after is_blank_char [] buf) (omega arith) h)
        (λ t p. read_lines-Holds t rest p)
