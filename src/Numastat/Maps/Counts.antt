-- ===== src/Numastat/Maps/Counts.antt =====
-- numastat.c, `show_process_info`: what is read from a `numa_maps` file does not depend on what is
-- done with it. The file is a list of counts, and they are added one after the other.
use numactl.Base.{
  ℕ, ◌≡◌, refl, ap, ◌∙◌, sym, Bool, true, false, List, [], ◌∷◌, Option, some, none, Bytes, codes,
  ◌==◌, if◌then◌else◌, drop,
}
use numactl.Base.Ints.{ℤ}
use numactl.Text.{first_byte, strtol}
use numactl.Numastat.Maps.{
  Arithmetic, Sizes, LineState, Ended, going, exit_failure, past_map, and_then, with_category,
  add_at, read_count, read_tokens, read_line_of, read_lines, int_at, node_index, behind_string,
  tokens_after, is_blank_char, private_index, kernel_pagesize,
}

-- Pages of a category on a node, by its index, in megabytes.
pub record Count (D : Type 0) : Type 0 where
  pub category : ℕ
  pub node_ix : ℕ
  pub value : D

abbrev pub map_ended : {S T : Type 0} → (S → T) → Ended S → Ended T
map_ended h (going s) = going (h s)
map_ended h exit_failure = exit_failure
map_ended h past_map = past_map

module _ {D : Type 0} (num : Arithmetic D) (sizes : Sizes D) {S T : Type 0}
    (add : ℕ → ℕ → D → S → S) (add' : ℕ → ℕ → D → T → T) (h : S → T)
    (same : (c ix : ℕ) (v : D) (s : S) → h (add c ix v s) ≡ add' c ix v (h s)) where
  abbrev both : LineState D × S → LineState D × T
  both (line, s) = (line, h s)

  add_at_map :
      (line : LineState D) (v : D) (s : S) (i : Option ℕ)
      → add_at num sizes add' line v (h s) i ≡ map_ended both (add_at num sizes add line v s i)
  add_at_map line v s none = refl
  add_at_map line v s (some ix) = ap (λ t. going (line, t)) (sym (same line.category ix v s))

  if_map :
      (b : Bool) (r : Ended (LineState D × S)) (q : Ended (LineState D × T))
      → q ≡ map_ended both r
      → (if b then exit_failure else q) ≡ map_ended both (if b then exit_failure else r)
  if_map true r q e = refl
  if_map false r q e = e

  read_count_map :
      (line : LineState D) (s : S) (n : ℤ × Bytes)
      → read_count num sizes add' line (h s) n ≡ map_ended both (read_count num sizes add line s n)
  read_count_map line s (n, p) = if_map _ _ _ (add_at_map _ _ s (node_index sizes.node_ix_map n))

  then_map :
      (r : Ended (LineState D × S)) (f : LineState D × S → Ended S) (g : LineState D × T → Ended T)
      → ((x : LineState D × S) → g (both x) ≡ map_ended h (f x))
      → and_then (map_ended both r) g ≡ map_ended h (and_then r f)
  then_map (going x) f g e = e x
  then_map exit_failure f g e = refl
  then_map past_map f g e = refl

  choose_map :
      (b : Bool) (r q : Ended S) (r' q' : Ended T)
      → r' ≡ map_ended h r
      → q' ≡ map_ended h q
      → (if b then r' else q') ≡ map_ended h (if b then r else q)
  choose_map true r q r' q' e d = e
  choose_map false r q r' q' e d = d

  read_tokens_map :
      (line : LineState D) (s : S) (tokens : List Bytes)
      → read_tokens num sizes add' line (h s) tokens
        ≡ map_ended h (read_tokens num sizes add line s tokens)
  unfolding read_tokens
  read_tokens_map line s [] = refl
  read_tokens_map line s (p ∷ rest) =
      let found = with_category num sizes add line p in
      choose_map (first_byte p == b'N') _ _ _ _
        (ap (λ t. and_then t (λ r. read_tokens num sizes add' (r.0) (r.1) rest))
            (read_count_map found s (int_at (drop 1 p) (strtol 10 (drop 1 p))))
          ∙ then_map (read_count num sizes add found s (int_at (drop 1 p) (strtol 10 (drop 1 p))))
              (λ r. read_tokens num sizes add (r.0) (r.1) rest)
              (λ r. read_tokens num sizes add' (r.0) (r.1) rest)
              (λ x. read_tokens_map (x.0) (x.1) rest))
        (read_tokens_map found s rest)

  lines_map :
      (r : Ended S) (rest : List Bytes)
      → ((s : S)
          → read_lines num sizes add' (h s) rest ≡ map_ended h (read_lines num sizes add s rest))
      → and_then (map_ended h r) (λ t. read_lines num sizes add' t rest)
        ≡ map_ended h (and_then r (λ s. read_lines num sizes add s rest))
  lines_map (going s) rest e = e s
  lines_map exit_failure rest e = refl
  lines_map past_map rest e = refl

  pub read_lines_map :
      (s : S) (lines : List Bytes)
      → read_lines num sizes add' (h s) lines ≡ map_ended h (read_lines num sizes add s lines)
  unfolding read_lines
  read_lines_map s [] = refl
  read_lines_map s (buf ∷ rest) =
      ap (λ t. and_then t (λ l. read_lines num sizes add' l rest))
        (read_tokens_map
          (record {
            category = private_index;
            vm_pagesz =
                kernel_pagesize num sizes add (behind_string (codes "kernelpagesize_kB=") buf);
          })
          s (tokens_after is_blank_char [] buf))
      ∙ lines_map (read_line_of num sizes add s buf) rest (λ l. read_lines_map l rest)
