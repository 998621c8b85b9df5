-- ===== src/Numastat/SystemFile.antt =====
-- numastat.c, `show_info_from_system_file` and `update_hugepages_info`: the tables of the system. What
-- the files of /sys hold is a parameter, and what is done with a line's number is one too.
use numactl.Base.{
  ℕ, zero, suc, ◌+◌, ◌-◌, ◌*◌, ◌%◌, ◌^◌, Bool, true, false, not, ◌&&◌, ◌||◌, List, [], ◌∷◌, ◌++◌,
  Option, some, none, Bytes, codes, ltb, leb, ◌==◌, if◌then◌else◌, length, get_elem?, get_or, drop,
  strip_prefix,
}
use numactl.Base.Ints.{ℤ, pos, negsuc, pos_part, is_neg}
use numactl.Numastat.{HashTable, hash_table_size, init_hash_table, hash_insert, hash_lookup}
use numactl.Numastat.Maps.{
  Arithmetic, Sizes, fgets_lines, tokens_after, is_blank_char, starts, read_long,
}
use numactl.Numastat.Table.{Doubles, small_buf_size}
use numactl.Text.{toupper, strtoul, strtol}
pub mod Shows
pub mod Log
pub mod Kept
pub mod Leaves
pub mod Steps
pub mod Cells
pub mod Totals

-- The text of a file of a node; the entries of its directory of huge pages, each with whether it is a
-- directory; and the text of a file in one of these.
pub record System : Type 0 where
  pub node_file : ℤ → Bytes → Option Bytes
  pub hugepages : ℤ → Option (List (Bytes × Bool))
  pub hugepages_file : ℤ → Bytes → Bytes → Option Bytes

-- How loading ends: an exit for a file that cannot be opened, a token that the line does not have,
-- or a search in a full hash table, without an end.
pub data Loaded (S : Type 0) : Type 0 where
  loaded : S → Loaded S
  no_file no_token endless : Loaded S

abbrev pub and_load : {S T : Type 0} → Loaded S → (S → Loaded T) → Loaded T
and_load (loaded s) f = f s
and_load no_file f = no_file
and_load no_token f = no_token
and_load endless f = endless

-- `fname`; none is -EINVAL.
abbrev pub hugepages_name : Bytes → Option Bytes
hugepages_name token =
    if starts (codes "HugePages_Total") token
    then some (codes "nr_hugepages")
    else if starts (codes "HugePages_Free") token
    then some (codes "free_hugepages")
    else if starts (codes "HugePages_Surp") token
    then some (codes "surplus_hugepages")
    else none

-- `strtok(NULL, pagesz_str)`: the delimiters are the characters of the first token, `hugepages`.
abbrev pub is_hugepages_char : ℕ → Bool
is_hugepages_char c =
    c == b'h' || c == b'u' || c == b'g' || c == b'e' || c == b'p' || c == b'a' || c == b's'

-- The first line of a file as a number of pages.
abbrev pub number_read : Option (ℕ × Bytes) → ℕ
number_read none = 0
number_read (some (v, end)) = v

abbrev pub pages_in : List Bytes → ℕ
pages_in [] = 0
pages_in (buf ∷ rest) = number_read (strtoul 10 buf)

-- The size of the pages of a directory in bytes; none is a name without a size or `kB`, where the
-- code goes through a null pointer.
abbrev pub has_unit : Bytes → Bool
has_unit [] = false
has_unit (c ∷ s) = starts (codes "kB") (c ∷ s) || has_unit s

abbrev pub size_of : List Bytes → Option ℕ
size_of [] = none
size_of (pagesz ∷ rest) =
    if has_unit pagesz then some (number_read (strtol 10 pagesz) * 1024 % 2 ^ 64) else none

module _ {D : Type 0} (doubles : Doubles D) (num : Arithmetic D) (system : System) where
  -- Pages of a file are added to the total, if it can be opened.
  abbrev pub add_hugepages : ℕ → D → Option Bytes → D
  add_hugepages size total none = total
  add_hugepages size total (some file) =
      doubles.plus total
        (num.of_long (pos (pages_in (fgets_lines small_buf_size file) * size % 2 ^ 64)))

  abbrev pub with_hugepages : D → Option Bytes → Option ℕ → Loaded D
  with_hugepages total file none = no_token
  with_hugepages total file (some size) = loaded (add_hugepages size total file)

  -- The loop over the directory.
  unfoldable pub sum_hugepages : ℤ → Bytes → D → List (Bytes × Bool) → Loaded D
  sum_hugepages node fname total [] = loaded total
  sum_hugepages node fname total ((d_name, is_dir) ∷ rest) =
      let size = size_of (tokens_after is_hugepages_char [] (drop 10 d_name)) in
      let more =
        and_load (with_hugepages total (system.hugepages_file node d_name fname) size)
          (λ t. sum_hugepages node fname t rest) in
      let skipped = sum_hugepages node fname total rest in
      if not is_dir || not (starts (codes "hugepages-") d_name) then skipped else more

  -- -EINVAL and -ENOENT.
  abbrev pub hugepages_in : ℤ → Option Bytes → Option (List (Bytes × Bool)) → Loaded D
  hugepages_in node none entries = loaded (num.of_long (negsuc 21))
  hugepages_in node (some fname) none = loaded (num.of_long (negsuc 1))
  hugepages_in node (some fname) (some entries) =
      sum_hugepages node fname (num.of_long (pos 0)) entries

  -- `update_hugepages_info`
  unfoldable pub update_hugepages_info : ℤ → Bytes → Loaded D
  update_hugepages_info node token =
      hugepages_in node (hugepages_name token) (system.hugepages node)

-- The label of a row: a capital at its start, and behind each `_`.
unfoldable pub capitalized : Bool → Bytes → Bytes
capitalized first [] = []
capitalized first (c ∷ s) = (if first then toupper c else c) ∷ capitalized (c == b'_') s

-- `" \t\r\n:"`
abbrev pub is_separator : ℕ → Bool
is_separator c = is_blank_char c || c == b':'

-- The file that is shown, with the position of the names in its lines.
pub record Source : Type 0 where
  pub file : Bytes
  pub tok_offset : ℕ

-- What is done: a column is set up, a row gets its label, and a cell its number.
pub record Stores (D T : Type 0) : Type 0 where
  pub column : ℕ → T → T
  pub label : ℕ → Bytes → T → T
  pub store : ℕ → ℕ → D → T → T

-- The hash table, the row, and what is built.
pub record Loading (T : Type 0) : Type 0 where
  pub hash : HashTable
  pub row : ℕ
  pub built : T

module _ {D : Type 0} (doubles : Doubles D) (num : Arithmetic D) (system : System) (sizes : Sizes D)
    (compatibility_mode : Bool) (source : Source) where
  -- The number of a line with four tokens or more, before it is made megabytes.
  abbrev pub scaled : D → Option Bytes → Loaded D
  scaled value none = no_token
  scaled value (some token) = loaded (
      num.times value
        (if starts (codes "kB") token then num.of_long (pos 1024) else num.of_long (pos 1)))

  abbrev pub huge_or_fallback : D → Loaded D → Loaded D
  huge_or_fallback value r = and_load r (λ new. loaded (
      if doubles.less doubles.zero_double new
      then num.times new (num.of_long (pos 1))
      else num.times value sizes.huge_page_size_in_bytes))

  abbrev pub in_bytes : ℤ → List Bytes → D → Loaded D
  in_bytes node tok value =
      let third = get_or tok 2 [] in
      let huge = huge_or_fallback value (update_hugepages_info doubles num system node third) in
      if ltb (length tok) 4
      then loaded (num.times value sizes.page_size_in_bytes)
      else if starts (codes "HugePages") third
      then huge
      else scaled value (get_elem? tok 4)

  abbrev pub line_value : ℤ → List Bytes → Option Bytes → Loaded D
  line_value node tok none = no_token
  line_value node tok (some number) =
      let value = num.of_long ((read_long number).0) in
      if compatibility_mode
      then loaded value
      else and_load (in_bytes node tok value) (λ v. loaded (num.megabytes v))

  module _ {T : Type 0} (stores : Stores D T) where
    abbrev pub inserted : Bytes → Loading T → Option (ℕ × HashTable) → Loaded (Loading T)
    inserted token state none = endless
    inserted token state (some (ix, hash)) =
        let name =
          if compatibility_mode || starts (codes "meminfo") source.file
          then token
          else capitalized true token in
        loaded (record state { hash = hash; built = stores.label state.row name state.built })

    -- The first node's file gives the rows their names.
    abbrev pub name_row : ℕ → Bytes → Loading T → Loaded (Loading T)
    name_row node_ix token state =
        if node_ix == 0
        then inserted token state (hash_insert hash_table_size token (pos state.row) state.hash)
        else loaded state

    abbrev pub stored : ℕ → Loading T → ℤ → D → Loading T
    stored node_ix state index value = record state {
      built = stores.store (pos_part index) node_ix value state.built;
    }

    -- A token that is not in the hash table gets a message only.
    abbrev pub store_at : ℕ → ℤ → List Bytes → Loading T → Option ℤ → Loaded (Loading T)
    store_at node_ix node tok state none = endless
    store_at node_ix node tok state (some index) =
        let store =
          and_load (line_value node tok (get_elem? tok (1 + source.tok_offset)))
            (λ value. loaded (stored node_ix state index value)) in
        if is_neg index then loaded state else store

    abbrev pub next_row : Loading T → Loading T
    next_row state = record state { row = state.row + 1 }

    abbrev pub load_named : ℕ → ℤ → List Bytes → Loading T → Option Bytes → Loaded (Loading T)
    load_named node_ix node tok state none = no_token
    load_named node_ix node tok state (some token) =
        and_load (name_row node_ix token state) (λ named.
          and_load (store_at node_ix node tok named (hash_lookup hash_table_size token named.hash))
            (λ later. loaded (next_row later)))

    -- A line of a file; a blank one is skipped.
    abbrev pub load_tokens : ℕ → ℤ → List Bytes → Loading T → Loaded (Loading T)
    load_tokens node_ix node [] state = loaded state
    load_tokens node_ix node (t ∷ tok) state =
        load_named node_ix node (t ∷ tok) state (get_elem? (t ∷ tok) source.tok_offset)

    unfoldable pub load_lines : ℕ → ℤ → List Bytes → Loading T → Loaded (Loading T)
    load_lines node_ix node [] state = loaded state
    load_lines node_ix node (buf ∷ rest) state =
        and_load (load_tokens node_ix node (tokens_after is_separator [] buf) state)
          (λ later. load_lines node_ix node rest later)

    abbrev pub load_file : ℕ → ℤ → Loading T → Option Bytes → Loaded (Loading T)
    load_file node_ix node state none = no_file
    load_file node_ix node state (some text) =
        load_lines node_ix node (fgets_lines small_buf_size text) (record state { row = 0 })

    -- The loop over the nodes, from `node_ix` on.
    unfoldable pub load_nodes : ℕ → List ℤ → Loading T → Loaded (Loading T)
    load_nodes node_ix [] state = loaded state
    load_nodes node_ix (node ∷ rest) state =
        let started = record state { built = stores.column node_ix state.built } in
        and_load (load_file node_ix node started (system.node_file node source.file))
          (λ later. load_nodes (node_ix + 1) rest later)
