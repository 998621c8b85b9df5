-- ===== src/Numastat/SystemFile/Kept.antt =====
-- numastat.c, `show_info_from_system_file`: numbers are stored in the columns of the nodes only.
use numactl.Base.{
  ℕ, ◌+◌, ◌≤◌, ◌<◌, Bool, true, false, List, [], ◌∷◌, Option, some, none, Bytes, ◌==◌,
  if◌then◌else◌, get_elem?, length, arith,
}
use numactl.Base.Ints.{ℤ, pos, is_neg}
use numactl.Numastat.{HashTable, hash_table_size, hash_insert, hash_lookup}
use numactl.Numastat.Maps.{Arithmetic, Sizes, fgets_lines, tokens_after}
use numactl.Numastat.SystemFile.{
  System, Loaded, loaded, no_file, no_token, endless, and_load, is_separator, Source, Stores,
  Loading, line_value, inserted, name_row, store_at, load_named, load_tokens, load_lines, load_file,
  load_nodes,
}
use numactl.Numastat.Table.{Doubles, small_buf_size}

-- The state at the end has the property, if there is one.
abbrev pub Loads : {S : Type 0} → (S → Type 0) → Loaded S → Type 0
Loads P (loaded s) = P s
Loads P no_file = Unit
Loads P no_token = Unit
Loads P endless = Unit

Loads-and_load :
    {S T : Type 0} (P : S → Type 0) (Q : T → Type 0) (r : Loaded S) (f : S → Loaded T)
    → Loads P r
    → ((s : S) → P s → Loads Q (f s))
    → Loads Q (and_load r f)
Loads-and_load P Q (loaded s) f h k = k s h
Loads-and_load P Q no_file f h k = tt
Loads-and_load P Q no_token f h k = tt
Loads-and_load P Q endless f h k = tt

anything : {S : Type 0} (r : Loaded S) → Loads (λ s. Unit) r
anything (loaded s) = tt
anything no_file = tt
anything no_token = tt
anything endless = tt

-- A property that the steps for the nodes below `n` keep.
pub record Keeps {D S : Type 0} (stores : Stores D S) (n : ℕ) (P : S → Type 0) : Type 0 where
  pub columns : (ix : ℕ) (s : S) → ix < n → P s → P (stores.column ix s)
  pub labels : (r : ℕ) (name : Bytes) (s : S) → P s → P (stores.label r name s)
  pub numbers : (i ix : ℕ) (v : D) (s : S) → ix < n → P s → P (stores.store i ix v s)

module _ {D : Type 0} (doubles : Doubles D) (num : Arithmetic D) (system : System) (sizes : Sizes D)
    (compatibility_mode : Bool) (source : Source) {S : Type 0} (stores : Stores D S) (n : ℕ)
    (P : S → Type 0) (keeps : Keeps stores n P) where
  abbrev pub Built : Loading S → Type 0
  Built state = P state.built

  if-Loads :
      (b : Bool) (r q : Loaded (Loading S))
      → Loads Built r
      → Loads Built q
      → Loads Built (if b then r else q)
  if-Loads true r q h l = h
  if-Loads false r q h l = l

  inserted-Loads :
      (token : Bytes) (state : Loading S) (o : Option (ℕ × HashTable))
      → Built state
      → Loads Built
          (inserted doubles num system sizes compatibility_mode source stores token state o)
  inserted-Loads token state none h = tt
  inserted-Loads token state (some (ix, hash)) h = keeps.labels state.row _ state.built h

  store_at-Loads :
      (node_ix : ℕ) (node : ℤ) (tok : List Bytes) (state : Loading S) (o : Option ℤ)
      → node_ix < n
      → Built state
      → Loads Built (
          store_at doubles num system sizes compatibility_mode source stores node_ix node tok state
            o)
  store_at-Loads node_ix node tok state none l h = tt
  store_at-Loads node_ix node tok state (some index) l h = if-Loads (is_neg index) _ _ h (
      Loads-and_load _ Built
        (line_value doubles num system sizes compatibility_mode source node tok
          (get_elem? tok (1 + source.tok_offset)))
        _ (anything _) (λ v u. keeps.numbers _ node_ix v state.built l h))

  load_named-Loads :
      (node_ix : ℕ) (node : ℤ) (tok : List Bytes) (state : Loading S) (o : Option Bytes)
      → node_ix < n
      → Built state
      → Loads Built (
          load_named doubles num system sizes compatibility_mode source stores node_ix node tok
            state o)
  load_named-Loads node_ix node tok state none l h = tt
  load_named-Loads node_ix node tok state (some token) l h =
      Loads-and_load Built Built
        (name_row doubles num system sizes compatibility_mode source stores node_ix token state) _
        (if-Loads (node_ix == 0) _ _
          (inserted-Loads token state (hash_insert hash_table_size token (pos state.row) state.hash)
            h)
          h)
        (λ named p.
          Loads-and_load Built Built
            (store_at doubles num system sizes compatibility_mode source stores node_ix node tok
              named (hash_lookup hash_table_size token named.hash))
            _
            (store_at-Loads node_ix node tok named (hash_lookup hash_table_size token named.hash) l
              p)
            (λ later q. q))

  load_tokens-Loads :
      (node_ix : ℕ) (node : ℤ) (tok : List Bytes) (state : Loading S)
      → node_ix < n
      → Built state
      → Loads Built (
          load_tokens doubles num system sizes compatibility_mode source stores node_ix node tok
            state)
  load_tokens-Loads node_ix node [] state l h = h
  load_tokens-Loads node_ix node (t ∷ tok) state l h =
      load_named-Loads node_ix node (t ∷ tok) state (get_elem? (t ∷ tok) source.tok_offset) l h

  load_lines-Loads :
      (node_ix : ℕ) (node : ℤ) (lines : List Bytes) (state : Loading S)
      → node_ix < n
      → Built state
      → Loads Built (
          load_lines doubles num system sizes compatibility_mode source stores node_ix node lines
            state)
  unfolding load_lines
  load_lines-Loads node_ix node [] state l h = h
  load_lines-Loads node_ix node (buf ∷ rest) state l h =
      Loads-and_load Built Built
        (load_tokens doubles num system sizes compatibility_mode source stores node_ix node
          (tokens_after is_separator [] buf) state)
        _ (load_tokens-Loads node_ix node (tokens_after is_separator [] buf) state l h)
        (λ later p. load_lines-Loads node_ix node rest later l p)

  load_file-Loads :
      (node_ix : ℕ) (node : ℤ) (state : Loading S) (o : Option Bytes)
      → node_ix < n
      → Built state
      → Loads Built
          (load_file doubles num system sizes compatibility_mode source stores node_ix node state o)
  load_file-Loads node_ix node state none l h = tt
  load_file-Loads node_ix node state (some text) l h =
      load_lines-Loads node_ix node (fgets_lines small_buf_size text) (record state { row = 0 }) l h

  -- What holds before and is kept by the steps for the nodes holds at the end.
  pub load_nodes-Loads :
      (node_ix : ℕ) (nodes : List ℤ) (state : Loading S)
      → node_ix + length nodes ≤ n
      → Built state
      → Loads Built
          (load_nodes doubles num system sizes compatibility_mode source stores node_ix nodes state)
  unfolding load_nodes
  load_nodes-Loads node_ix [] state l h = h
  load_nodes-Loads node_ix (node ∷ rest) state l h =
      let started : Loading S = record state { built = stores.column node_ix state.built } in
      Loads-and_load Built Built
        (load_file doubles num system sizes compatibility_mode source stores node_ix node started
          (system.node_file node source.file))
        _
        (load_file-Loads node_ix node started (system.node_file node source.file) (omega (arith, l))
          (keeps.columns node_ix state.built (omega (arith, l)) h))
        (λ later p. load_nodes-Loads (node_ix + 1) rest later (omega (arith, l)) p)
