-- ===== src/Distance/Table.antt =====
-- Reading the whole table, and looking distances up in it.
use numactl.Base.{
  ℕ, zero, suc, ◌+◌, ◌*◌, ◌^◌, ◌≤◌, ◌<◌, ◌≡◌, ◌≢◌, ◌⊎◌, inl, inr, refl, ap, ◌∙◌, ◌%◌, Bool, true,
  false, List, Option, none, some, arith, le→ltb, lt→ltb, length, get_or, length-replicate,
}
use numactl.Base.Ints.{ℤ, pos, to_u32}
use numactl.Base.Loops.{count_below}
use numactl.Bitmask.{Bitmask, isbitset}
use numactl.Distance.Numbers.{write_numbers, AllSmall, Stored, parse_numbers-Stored}
use numactl.Libnuma.{State, rounds_to}
use numactl.Distance.{
  File, no_entry, line, Distances, Scan, scanned, overrun, exhausted, read_files,
  read_distance_table, numa_distance, lookup_distance, install, blank_table,
}

-- Outside the table, on either side, the distance is 0.
pub lookup_distance_outside :
    (a b : ℤ) (n : ℕ) (table : List ℤ)
    → (n ≤ to_u32 a) ⊎ (n ≤ to_u32 b)
    → lookup_distance a b n table ≡ pos 0
unfolding lookup_distance
lookup_distance_outside a b n table h = ground arith

-- Once there is a table, `numa_distance` reads no file and changes nothing.
pub numa_distance_cached :
    (files : ℕ → File) (st : State) (fuel : ℕ) (a b : ℤ) (d : Distances) (t : List ℤ)
    → d.table ≡ some t
    → numa_distance files st fuel a b d ≡ some (lookup_distance a b d.numnodes t, d)
unfolding numa_distance
numa_distance_cached files st fuel a b d t h = simp (h, numa_distance)

-- What sysfs shows where it is complete: each available node below `width` has a line with one
-- number for each available node, `rows` gives them, and the other nodes have no file.
pub data ShowsNode (files : ℕ → File) (nodes : Bitmask) (width : ℕ) (rows : ℕ → List ℕ) (nd : ℕ)
    : Type 0 where
  available :
      isbitset nodes nd ≡ true
      → files nd ≡ line (write_numbers (rows nd))
      → AllSmall (rows nd)
      → length (rows nd) ≡ count_below width (isbitset nodes)
      → ShowsNode files nodes width rows nd
  missing : isbitset nodes nd ≡ false → files nd ≡ no_entry → ShowsNode files nodes width rows nd

row_fits : (nd width len : ℕ) → nd < width → len ≡ width * width → nd * width + width ≤ len
row_fits nd width len l e = grind arith

module _ (files : ℕ → File) (width : ℕ) (nodes : Bitmask) (rows : ℕ → List ℕ) where
  -- The rows of the nodes below `nd` are in the table.
  record Filled (nd : ℕ) (table : Option (List ℤ)) : Type 0 where
    sized : length (blank_table width table) ≡ width * width
    some_row : (a : ℕ) → a < nd → isbitset nodes a ≡ true → table ≢ none
    cell :
        (a b : ℕ)
        → a < nd
        → b < width
        → isbitset nodes a ≡ true
        → isbitset nodes b ≡ true
        → get_or (blank_table width table) (a * width + b) (pos 0)
          ≡ pos (get_or (rows a) (count_below b (isbitset nodes)) 0)

  abbrev Scanned : Scan → Type 0
  Scanned (scanned e t) = (e ≡ pos 0) × Filled width t
  Scanned _ = ⊥

  Filled-missing :
      (nd : ℕ) (table : Option (List ℤ))
      → isbitset nodes nd ≡ false
      → Filled nd table
      → Filled (suc nd) table
  Filled-missing nd table gone f = record {
    sized = f.sized;
    some_row = λ a l s. f.some_row a (below a l s) s;
    cell = λ a b l m s t. f.cell a b (below a l s) m s t;
  }
    where
      below : (a : ℕ) → a < suc nd → isbitset nodes a ≡ true → a < nd
      below a l s = elim (split a nd l) [ inl e ↦ absurd (cc (e, s, gone)) | inr m ↦ m ]
        where
          split : (x y : ℕ) → x < suc y → (x ≡ y) ⊎ (x < y)
          split x y l = omega arith

  Filled-available :
      (nd : ℕ) (table : Option (List ℤ)) (result : Option (List ℤ))
      → nd < width
      → Filled nd table
      → (st : Stored nodes (nd * width) 0 width (rows nd) (blank_table width table) result)
      → Filled (suc nd) (some st.stored)
  Filled-available nd table result l f st = record {
    sized = st.same_length ∙ f.sized;
    some_row = λ a h s e. cc e;
    cell = cell;
  }
    where
      split : (x y : ℕ) → x < suc y → (x ≡ y) ⊎ (x < y)
      split x y l = omega arith

      apart : (a b q : ℕ) → a < nd → b < width → q < width → a * width + b ≢ nd * width + q
      apart a b q h m n e = absurd (grind arith)

      cell :
          (a b : ℕ)
          → a < suc nd
          → b < width
          → isbitset nodes a ≡ true
          → isbitset nodes b ≡ true
          → get_or st.stored (a * width + b) (pos 0)
            ≡ pos (get_or (rows a) (count_below b (isbitset nodes)) 0)
      cell a b h m s t = elim (split a nd h) [
        | inl e ↦ rw e (
            st.inside b (omega arith) m t
            ∙ ap (λ (r : ℕ). pos (get_or (rows nd) r 0)) (omega arith))
        | inr older ↦
            st.outside (a * width + b) (λ q z n w. apart a b q older m n) ∙ f.cell a b older m s t
      ]

  read_files-Scanned :
      (r fuel nd : ℕ) (ok : Bool) (table : Option (List ℤ))
      → nd + r ≡ width
      → r < fuel
      → ((i : ℕ) → i < width → ShowsNode files nodes width rows i)
      → files width ≡ no_entry
      → Filled nd table
      → Scanned (read_files files width nodes fuel nd ok table)
  unfolding read_files
  read_files-Scanned r zero nd ok table e h shows last f = absurd (omega arith)
  read_files-Scanned zero (suc fuel) nd ok table e h shows last f =
      let same : nd ≡ width = omega arith in
      rw (ap files same ∙ last, read_files, le→ltb nd width (omega arith)) (refl, rw same at f)
  read_files-Scanned (suc r) (suc fuel) nd ok table e h shows last f =
      elim (shows nd (omega arith)) [
        | missing gone fl ↦
            rw (fl, read_files, lt→ltb nd width (omega arith))
              (read_files-Scanned r fuel (suc nd) true table (omega arith) (omega arith) shows last
                (Filled-missing nd table gone f))
        | available here fl small full ↦
            let st =
              parse_numbers-Stored (rows nd) nd width nodes (blank_table width table) small full
                (row_fits nd width (length (blank_table width table)) (omega arith) f.sized) in
            rw (fl, read_files, st.returned)
              (read_files-Scanned r fuel (suc nd) ok (some st.stored) (omega arith) (omega arith)
                shows last (Filled-available nd table _ (omega arith) f st))
      ]

-- What a call of `numa_distance` gives: the distance, and a table that later calls look up, whatever
-- the files and the state of the library are then.
pub record Answers (files : ℕ → File) (st : State) (fuel : ℕ) (d : Distances) (a b answer : ℕ)
    : Type 0 where
  pub after : Distances
  pub returned : numa_distance files st fuel (pos a) (pos b) d ≡ some (pos answer, after)
  pub kept :
      (files' : ℕ → File) (st' : State) (fuel' : ℕ)
      → numa_distance files' st' fuel' (pos a) (pos b) after ≡ some (pos answer, after)

lookup_distance_lem :
    (a b width : ℕ) (t : List ℤ)
    → a < width
    → b < width
    → width < 2 ^ 32
    → lookup_distance (pos a) (pos b) width t ≡ get_or t (a * width + b) (pos 0)
unfolding lookup_distance
lookup_distance_lem a b width t l m w =
    let x : a % 2 ^ 32 ≡ a = omega arith in
    let y : b % 2 ^ 32 ≡ b = omega arith in
    (ground (arith, x, y, lt→ltb a width l, lt→ltb b width m))

module _ (files : ℕ → File) (st : State) (fuel : ℕ) (d : Distances) (a b : ℕ)
    (rows : ℕ → List ℕ) where
  abbrev width : ℕ
  width = rounds_to st.maxconfigurednode

  install_lem :
      (t : Option (List ℤ))
      → d.table ≡ none
      → install width d (scanned (pos 0) t) ≡ some (pos 0, record { numnodes = width; table = t })
  install_lem t fresh = simp (fresh, install)

  abbrev answer : ℕ
  answer = get_or (rows a) (count_below b (isbitset st.nodes_ptr)) 0

  installed :
      (t : Option (List ℤ))
      → a < width
      → b < width
      → width < 2 ^ 32
      → isbitset st.nodes_ptr a ≡ true
      → isbitset st.nodes_ptr b ≡ true
      → d.table ≡ none
      → read_files files width st.nodes_ptr fuel 0 false none ≡ scanned (pos 0) t
      → Filled files width st.nodes_ptr rows width t
      → Answers files st fuel d a b answer
  unfolding numa_distance read_distance_table
  installed none l m w s u fresh e f = absurd (f.some_row a l s refl)
  installed (some t) l m w s u fresh e f =
      let found : lookup_distance (pos a) (pos b) width t ≡ pos answer =
        lookup_distance_lem a b width t l m w ∙ f.cell a b l m s u in
      record {
        after = record { numnodes = width; table = some t };
        returned =
            simp (fresh, numa_distance, read_distance_table, e, install_lem (some t) fresh, found);
        kept = λ files' st' fuel'. simp found;
      }

  -- Where sysfs has a complete `distance` file for each available node and the last file read is
  -- missing, the first call of `numa_distance` for two available nodes gives the number that the
  -- first node's file has at the second node's rank among the available nodes. A later call gives the
  -- same and leaves the same table, whatever the files are by then: it reads none of them.
  pub numa_distance-Answers :
      a < width
      → b < width
      → width < 2 ^ 32
      → isbitset st.nodes_ptr a ≡ true
      → isbitset st.nodes_ptr b ≡ true
      → d.table ≡ none
      → width < fuel
      → ((nd : ℕ) → nd < width → ShowsNode files st.nodes_ptr width rows nd)
      → files width ≡ no_entry
      → Answers files st fuel d a b answer
  numa_distance-Answers l m w s u fresh enough shows last =
      go (read_files files width st.nodes_ptr fuel 0 false none) refl (
        read_files-Scanned files width st.nodes_ptr rows width fuel 0 false none (omega arith)
          enough shows last nothing_yet)
    where
      nothing_yet : Filled files width st.nodes_ptr rows 0 none
      nothing_yet = record {
        sized = length-replicate (width * width) (pos 0);
        some_row = λ a l. absurd (omega arith);
        cell = λ a b l. absurd (omega arith);
      }

      go :
          (r : Scan)
          → read_files files width st.nodes_ptr fuel 0 false none ≡ r
          → Scanned files width st.nodes_ptr rows r
          → Answers files st fuel d a b answer
      go overrun e none_such = elim none_such [ ]
      go exhausted e none_such = elim none_such [ ]
      go (scanned c t) e (z, f) = installed t l m w s u fresh (e ∙ ap (λ c. scanned c t) z) f
