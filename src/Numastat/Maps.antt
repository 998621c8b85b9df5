-- ===== src/Numastat/Maps.antt =====
-- numastat.c, `show_process_info`: the text of a `numa_maps` file, line by line and token by token,
-- as pages on nodes. What is done with the pages, `add`, is a parameter here.
use numactl.Base.{
  ℕ, zero, suc, ◌+◌, ◌-◌, Bool, true, false, not, ◌&&◌, ◌||◌, List, [], ◌∷◌, ◌++◌, Option, some,
  none, Bytes, codes, ltb, leb, ◌==◌, if◌then◌else◌, length, drop, strip_prefix,
}
use numactl.Base.Ints.{ℤ, pos, to_i32, to_i64, int_eq}
use numactl.Text.{first_byte, strtol}
pub mod Counts
pub mod Bounds

-- `BUF_SIZE`, `KILOBYTE`
abbrev pub buf_size : ℕ
buf_size = 2048

-- What the parsing needs of `double`: the number that a `long` is, the product, a number divided
-- by `MEGABYTE`, and the test for 0.
pub record Arithmetic (D : Type 0) : Type 0 where
  pub of_long : ℤ → D
  pub times : D → D → D
  pub megabytes : D → D
  pub is_zero : D → Bool

-- The calls of `fgets(buf, size, fs)`, where `room` more characters fit behind `line`.
unfoldable pub lines_after : ℕ → ℕ → Bytes → Bytes → List Bytes
lines_after size room [] [] = []
lines_after size room (c ∷ line) [] = (c ∷ line) ∷ []
lines_after size room line (c ∷ s) =
    let whole = line ++ (c ∷ []) in
    let next = lines_after size (size - 1) [] s in
    let more = lines_after size (room - 1) whole s in
    if c == b'\n' || leb room 1 then whole ∷ next else more

abbrev pub fgets_lines : ℕ → Bytes → List Bytes
fgets_lines size s = lines_after size (size - 1) [] s

-- `strtok(buf, delimiters)`: the tokens, where `token` comes before.
unfoldable pub tokens_after : (ℕ → Bool) → Bytes → Bytes → List Bytes
tokens_after delimiter [] [] = []
tokens_after delimiter (c ∷ token) [] = (c ∷ token) ∷ []
tokens_after delimiter [] (c ∷ s) =
    let next = tokens_after delimiter [] s in
    let more = tokens_after delimiter (c ∷ []) s in if delimiter c then next else more
tokens_after delimiter (b ∷ token) (c ∷ s) =
    let next = tokens_after delimiter [] s in
    let more = tokens_after delimiter (b ∷ (token ++ (c ∷ []))) s in
    if delimiter c then (b ∷ token) ∷ next else more

-- `" \t\r\n"`
abbrev pub is_blank_char : ℕ → Bool
is_blank_char c = c == b' ' || c == b'\t' || c == 13 || c == b'\n'

-- What stands behind the first `sub` in a string: `strstr`, moved by the length of `sub`.
unfoldable pub behind_string : Bytes → Bytes → Option Bytes
behind_string sub [] = strip_prefix sub []
behind_string sub (c ∷ s) =
    let later = behind_string sub s in
    elim (strip_prefix sub (c ∷ s)) [ none ↦ later | some rest ↦ some rest ]

-- `strtol(s, &end, base)` as a `long`, with `end`.
abbrev pub long_at : Bytes → Option (ℕ × Bytes) → ℤ × Bytes
long_at s none = (pos 0, s)
long_at s (some (v, end)) = (to_i64 v, end)

abbrev pub read_long : Bytes → ℤ × Bytes
read_long s = long_at s (strtol 10 s)

-- `(int)strtol(s, &end, base)`
abbrev pub int_at : Bytes → Option (ℕ × Bytes) → ℤ × Bytes
int_at s none = (pos 0, s)
int_at s (some (v, end)) = (to_i32 v, end)

-- `PROCESS_HUGE_INDEX`, `PROCESS_PRIVATE_INDEX`
abbrev pub huge_index : ℕ
huge_index = 0

abbrev pub private_index : ℕ
private_index = 3

-- `process_meminfo`: the tokens below `private_index`, and all labels.
abbrev pub meminfo_tokens : List Bytes
meminfo_tokens = codes "huge" ∷ codes "heap" ∷ codes "stack" ∷ []

abbrev pub meminfo_labels : List Bytes
meminfo_labels = codes "Huge" ∷ codes "Heap" ∷ codes "Stack" ∷ codes "Private" ∷ []

abbrev pub starts : Bytes → Bytes → Bool
starts token p = elim (strip_prefix token p) [ none ↦ false | some s ↦ true ]

-- The category of a token, from `ix` on; `private_index` if it is no keyword.
unfoldable pub category_from : List Bytes → ℕ → Bytes → ℕ
category_from [] ix p = private_index
category_from (token ∷ rest) ix p =
    let later = category_from rest (ix + 1) p in if starts token p then ix else later

-- `while (node_ix_map[i++] != node_num);`; `none` is a read past the map.
unfoldable pub node_index : List ℤ → ℤ → Option ℕ
node_index [] node_num = none
node_index (n ∷ rest) node_num =
    let later = node_index rest node_num in
    if int_eq n node_num then some 0 else elim later [ none ↦ none | some i ↦ some (suc i) ]

-- How reading ends: with the state, by `exit(EXIT_FAILURE)`, or past the map of nodes.
pub data Ended (S : Type 0) : Type 0 where
  going : S → Ended S
  exit_failure past_map : Ended S

abbrev pub and_then : {S T : Type 0} → Ended S → (S → Ended T) → Ended T
and_then (going s) f = f s
and_then exit_failure f = exit_failure
and_then past_map f = past_map

-- `category` and `vm_pagesz`
pub record LineState (D : Type 0) : Type 0 where
  pub category : ℕ
  pub vm_pagesz : D

-- The sizes of pages, and the map of nodes.
pub record Sizes (D : Type 0) : Type 0 where
  pub page_size_in_bytes : D
  pub huge_page_size_in_bytes : D
  pub node_ix_map : List ℤ

module _ {D : Type 0} (num : Arithmetic D) (sizes : Sizes D) {S : Type 0}
    (add : ℕ → ℕ → D → S → S) where
  abbrev pub with_category : LineState D → Bytes → LineState D
  with_category line p =
      if line.category == private_index
      then record line { category = category_from meminfo_tokens 0 p }
      else line

  abbrev pub with_page_size : LineState D → LineState D
  with_page_size line =
      if num.is_zero line.vm_pagesz
      then record line {
        vm_pagesz =
            if line.category == huge_index
            then sizes.huge_page_size_in_bytes
            else sizes.page_size_in_bytes;
      }
      else line

  abbrev pub add_at : LineState D → D → S → Option ℕ → Ended (LineState D × S)
  add_at line value state none = past_map
  add_at line value state (some ix) = going (line, add line.category ix value state)

  -- The pages on a node, `p` behind the `N`.
  abbrev pub read_count : LineState D → S → ℤ × Bytes → Ended (LineState D × S)
  read_count line state (node_num, p) =
      let sized = with_page_size line in
      let pages = num.of_long ((read_long (drop 1 p)).0) in
      let value = num.megabytes (num.times pages sized.vm_pagesz) in
      if not (first_byte p == b'=')
      then exit_failure
      else add_at sized value state (node_index sizes.node_ix_map node_num)

  -- The loop over the tokens of a line.
  unfoldable pub read_tokens : LineState D → S → List Bytes → Ended S
  read_tokens line state [] = going state
  read_tokens line state (p ∷ rest) =
      let found = with_category line p in
      let skipped = read_tokens found state rest in
      let counted =
        and_then (read_count found state (int_at (drop 1 p) (strtol 10 (drop 1 p))))
          (λ r. read_tokens (r.0) (r.1) rest) in
      if first_byte p == b'N' then counted else skipped

  abbrev pub kernel_pagesize : Option Bytes → D
  kernel_pagesize none = num.of_long (pos 0)
  kernel_pagesize (some s) = num.times (num.of_long ((read_long s).0)) (num.of_long (pos 1024))

  abbrev pub read_line_of : S → Bytes → Ended S
  read_line_of state buf =
      read_tokens
        (record {
          category = private_index;
          vm_pagesz = kernel_pagesize (behind_string (codes "kernelpagesize_kB=") buf);
        })
        state (tokens_after is_blank_char [] buf)

  unfoldable pub read_lines : S → List Bytes → Ended S
  read_lines state [] = going state
  read_lines state (buf ∷ rest) = and_then (read_line_of state buf) (λ later. read_lines later rest)

  -- The loop over the lines of the file.
  abbrev pub read_numa_maps : S → Bytes → Ended S
  read_numa_maps state file = read_lines state (fgets_lines buf_size file)
