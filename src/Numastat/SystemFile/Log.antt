-- ===== src/Numastat/SystemFile/Log.antt =====
-- numastat.c, `show_info_from_system_file`: what is read from the files does not depend on what is
-- done with it. The files are a list of steps, and they are taken one after the other.
use numactl.Base.{
  ℕ, ◌+◌, ◌≡◌, refl, ap, ◌∙◌, sym, Bool, true, false, List, [], ◌∷◌, Option, some, none, Bytes,
  ◌==◌, if◌then◌else◌, get_elem?,
}
use numactl.Base.Ints.{ℤ, pos, is_neg, pos_part}
use numactl.Numastat.{HashTable, hash_table_size, hash_insert, hash_lookup}
use numactl.Numastat.Maps.{Arithmetic, Sizes, fgets_lines, tokens_after}
use numactl.Numastat.SystemFile.{
  System, Loaded, loaded, no_file, no_token, endless, and_load, is_separator, Source, Stores,
  Loading, line_value, inserted, name_row, store_at, next_row, load_named, load_tokens, load_lines,
  load_file, load_nodes,
}
use numactl.Numastat.Table.{Doubles, small_buf_size}

abbrev pub map_loaded : {S T : Type 0} → (S → T) → Loaded S → Loaded T
map_loaded h (loaded s) = loaded (h s)
map_loaded h no_file = no_file
map_loaded h no_token = no_token
map_loaded h endless = endless

-- One thing that is built from another, step by step.
pub record Follows {D S T : Type 0} (stores : Stores D S) (stores' : Stores D T) (h : S → T)
    : Type 0 where
  pub columns : (ix : ℕ) (s : S) → h (stores.column ix s) ≡ stores'.column ix (h s)
  pub labels : (r : ℕ) (n : Bytes) (s : S) → h (stores.label r n s) ≡ stores'.label r n (h s)
  pub numbers : (i ix : ℕ) (v : D) (s : S) → h (stores.store i ix v s) ≡ stores'.store i ix v (h s)

module _ {D : Type 0} (doubles : Doubles D) (num : Arithmetic D) (system : System) (sizes : Sizes D)
    (compatibility_mode : Bool) (source : Source) {S T : Type 0} (stores : Stores D S)
    (stores' : Stores D T) (h : S → T) (follows : Follows stores stores' h) where
  abbrev pub over : Loading S → Loading T
  over state = record { hash = state.hash; row = state.row; built = h state.built }

  load_map :
      {A B : Type 0} (g : A → B) (r : Loaded A) (f : A → Loaded (Loading S))
      (f' : B → Loaded (Loading T))
      → ((a : A) → f' (g a) ≡ map_loaded over (f a))
      → and_load (map_loaded g r) f' ≡ map_loaded over (and_load r f)
  load_map g (loaded a) f f' e = e a
  load_map g no_file f f' e = refl
  load_map g no_token f f' e = refl
  load_map g endless f f' e = refl

  value_map :
      (r : Loaded D) (f : D → Loaded (Loading S)) (f' : D → Loaded (Loading T))
      → ((a : D) → f' a ≡ map_loaded over (f a))
      → and_load r f' ≡ map_loaded over (and_load r f)
  value_map (loaded a) f f' e = e a
  value_map no_file f f' e = refl
  value_map no_token f f' e = refl
  value_map endless f f' e = refl

  if_map :
      (b : Bool) (r q : Loaded (Loading S)) (r' q' : Loaded (Loading T))
      → r' ≡ map_loaded over r
      → q' ≡ map_loaded over q
      → (if b then r' else q') ≡ map_loaded over (if b then r else q)
  if_map true r q r' q' e d = e
  if_map false r q r' q' e d = d

  inserted_map :
      (token : Bytes) (state : Loading S) (o : Option (ℕ × HashTable))
      → inserted doubles num system sizes compatibility_mode source stores' token (over state) o
        ≡ map_loaded over
            (inserted doubles num system sizes compatibility_mode source stores token state o)
  inserted_map token state none = refl
  inserted_map token state (some (ix, hash)) =
      ap (λ t. loaded (record { hash = hash; row = state.row; built = t }))
        (sym (follows.labels state.row _ state.built))

  store_at_map :
      (node_ix : ℕ) (node : ℤ) (tok : List Bytes) (state : Loading S) (o : Option ℤ)
      → store_at doubles num system sizes compatibility_mode source stores' node_ix node tok
          (over state)
          o
        ≡ map_loaded over (
            store_at doubles num system sizes compatibility_mode source stores node_ix node tok
              state o)
  store_at_map node_ix node tok state none = refl
  store_at_map node_ix node tok state (some index) = if_map (is_neg index) _ _ _ _ refl (
      value_map
        (line_value doubles num system sizes compatibility_mode source node tok
          (get_elem? tok (1 + source.tok_offset)))
        _ _
        (λ v.
          ap (λ t. loaded (record { hash = state.hash; row = state.row; built = t }))
            (sym (follows.numbers (pos_part index) node_ix v state.built))))

  name_row_map :
      (node_ix : ℕ) (token : Bytes) (state : Loading S)
      → name_row doubles num system sizes compatibility_mode source stores' node_ix token
          (over state)
        ≡ map_loaded over
            (name_row doubles num system sizes compatibility_mode source stores node_ix token state)
  name_row_map node_ix token state =
      if_map (node_ix == 0) _ _ _ _
        (inserted_map token state (hash_insert hash_table_size token (pos state.row) state.hash))
        refl

  load_named_map :
      (node_ix : ℕ) (node : ℤ) (tok : List Bytes) (state : Loading S) (o : Option Bytes)
      → load_named doubles num system sizes compatibility_mode source stores' node_ix node tok
          (over state)
          o
        ≡ map_loaded over (
            load_named doubles num system sizes compatibility_mode source stores node_ix node tok
              state o)
  load_named_map node_ix node tok state none = refl
  load_named_map node_ix node tok state (some token) =
      ap
        (λ r. and_load r (λ named.
          and_load
            (store_at doubles num system sizes compatibility_mode source stores' node_ix node tok
              named (hash_lookup hash_table_size token named.hash))
            (λ later.
              loaded (next_row doubles num system sizes compatibility_mode source stores' later))))
        (name_row_map node_ix token state)
      ∙ load_map over
          (name_row doubles num system sizes compatibility_mode source stores node_ix token state) _
          _
          (λ named.
            ap
              (λ r. and_load r (λ later.
                loaded (next_row doubles num system sizes compatibility_mode source stores' later)))
              (store_at_map node_ix node tok named (hash_lookup hash_table_size token named.hash))
            ∙ load_map over
                (store_at doubles num system sizes compatibility_mode source stores node_ix node tok
                  named (hash_lookup hash_table_size token named.hash))
                _ _ (λ later. refl))

  load_tokens_map :
      (node_ix : ℕ) (node : ℤ) (tok : List Bytes) (state : Loading S)
      → load_tokens doubles num system sizes compatibility_mode source stores' node_ix node tok
          (over state)
        ≡ map_loaded over (
            load_tokens doubles num system sizes compatibility_mode source stores node_ix node tok
              state)
  load_tokens_map node_ix node [] state = refl
  load_tokens_map node_ix node (t ∷ tok) state =
      load_named_map node_ix node (t ∷ tok) state (get_elem? (t ∷ tok) source.tok_offset)

  load_lines_map :
      (node_ix : ℕ) (node : ℤ) (lines : List Bytes) (state : Loading S)
      → load_lines doubles num system sizes compatibility_mode source stores' node_ix node lines
          (over state)
        ≡ map_loaded over (
            load_lines doubles num system sizes compatibility_mode source stores node_ix node lines
              state)
  unfolding load_lines
  load_lines_map node_ix node [] state = refl
  load_lines_map node_ix node (buf ∷ rest) state =
      ap
        (λ r.
          and_load r (
            load_lines doubles num system sizes compatibility_mode source stores' node_ix node
              rest))
        (load_tokens_map node_ix node (tokens_after is_separator [] buf) state)
      ∙ load_map over
          (load_tokens doubles num system sizes compatibility_mode source stores node_ix node
            (tokens_after is_separator [] buf) state)
          _ _ (λ later. load_lines_map node_ix node rest later)

  load_file_map :
      (node_ix : ℕ) (node : ℤ) (state : Loading S) (o : Option Bytes)
      → load_file doubles num system sizes compatibility_mode source stores' node_ix node
          (over state)
          o
        ≡ map_loaded over (
            load_file doubles num system sizes compatibility_mode source stores node_ix node state
              o)
  load_file_map node_ix node state none = refl
  load_file_map node_ix node state (some text) =
      load_lines_map node_ix node (fgets_lines small_buf_size text) (record state { row = 0 })

  pub load_nodes_map :
      (node_ix : ℕ) (nodes : List ℤ) (state : Loading S)
      → load_nodes doubles num system sizes compatibility_mode source stores' node_ix nodes
          (over state)
        ≡ map_loaded over (
            load_nodes doubles num system sizes compatibility_mode source stores node_ix nodes
              state)
  unfolding load_nodes
  load_nodes_map node_ix [] state = refl
  load_nodes_map node_ix (node ∷ rest) state =
      let started : Loading S = record state { built = stores.column node_ix state.built } in
      ap
        (λ t.
          and_load
            (load_file doubles num system sizes compatibility_mode source stores' node_ix node
              (record { hash = state.hash; row = state.row; built = t })
              (system.node_file node source.file))
            (load_nodes doubles num system sizes compatibility_mode source stores' (node_ix + 1)
              rest))
        (sym (follows.columns node_ix state.built))
      ∙ ap
          (λ r. and_load r (
            load_nodes doubles num system sizes compatibility_mode source stores' (node_ix + 1)
              rest))
          (load_file_map node_ix node started (system.node_file node source.file))
      ∙ load_map over
          (load_file doubles num system sizes compatibility_mode source stores node_ix node started
            (system.node_file node source.file))
          _ _ (λ later. load_nodes_map (node_ix + 1) rest later)
