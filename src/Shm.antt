-- ===== src/Shm.antt =====
-- shm.c: the checks on a region of shared memory, the dump of its pages' nodes, and `verify_shm`.
-- What `get_mempolicy` says of the page at an offset is a parameter: the mode with the words of the
-- mask, and the node; `none` is a failed call, where `err` ends the program.
use numactl.Base.{
  ℕ, zero, suc, ◌+◌, ◌-◌, ◌*◌, ◌/◌, ◌%◌, ◌^◌, Bool, true, false, not, ◌&&◌, ◌||◌, List, [], ◌∷◌,
  Option, some, none, ltb, ◌==◌, if◌then◌else◌, take, str_eq,
}
use numactl.Base.Ints.{ℤ, pos, negsuc, to_u32, is_neg}
use numactl.Bitmask.{Bitmask, isbitset, nbytes}
use numactl.Libnuma.{State, num_possible_nodes}
use numactl.Util.Mpol
pub mod Interleave
pub mod Attach
pub mod Dump

-- `shmptr`, `shmlen`, `shmoffset` and `shm_pagesize`
pub record Region : Type 0 where
  pub ptr : ℕ
  pub len : ℕ
  pub offset : ℕ
  pub pagesize : ℕ

-- The test of `attach_sysvshm`; `SIZE_MAX` is 2^64 - 1.
abbrev pub sysv_in_range : Region → Bool
sysv_in_range r = not (ltb (2 ^ 64 - 1) r.offset || ltb (2 ^ 64 - 1 - r.offset) r.len)

-- The test of `attach_shared`, where `maxoff` is 2^63 - 1.
abbrev pub file_in_range : Region → Bool
file_in_range r =
    not (ltb (2 ^ 64 - 1) r.len || ltb (2 ^ 63 - 1) r.offset || ltb (2 ^ 63 - 1 - r.offset) r.len)

-- Whether `check_region` returns.
abbrev pub check_region : Region → Bool
check_region r =
    not (not (r.ptr % r.pagesize == 0) || not (r.len % r.pagesize == 0)) && not (r.len == 0)

abbrev pub int_eq : ℤ → ℤ → Bool
int_eq (pos a) (pos b) = a == b
int_eq (negsuc a) (negsuc b) = a == b
int_eq _ _ = false

-- A line that `dumpnode` prints.
pub record Extent : Type 0 where
  pub start : ℕ
  pub end : ℕ
  pub node : ℤ

-- How a loop over the pages ends.
pub data Ending : Type 0 where
  finished failed exhausted : Ending

abbrev dumpnode : Region → ℕ → ℕ → ℤ → Extent
dumpnode r start end node = record {
  start = (r.offset + start) % 2 ^ 64;
  end = (r.offset + end) % 2 ^ 64;
  node = node;
}

abbrev pub after : {A : Type 0} → A → List A × Ending → List A × Ending
after x (xs, e) = (x ∷ xs, e)

module _ (r : Region) (node_at : ℕ → Option ℤ) where
  abbrev dump_page : (ℕ → ℤ → List Extent × Ending) → ℕ → ℕ → ℤ → Option ℤ → List Extent × Ending
  dump_page loop c start prevnode none = ([], failed)
  dump_page loop c start prevnode (some node) =
      if int_eq node prevnode
      then loop start prevnode
      else if int_eq prevnode (negsuc 0)
      then loop c node
      else after (dumpnode r start c prevnode) (loop c node)

  -- The loop of `dump_shm_nodes`.
  unfoldable pub dump_nodes : ℕ → ℕ → ℕ → ℤ → List Extent × Ending
  dump_nodes zero c start prevnode = ([], exhausted)
  dump_nodes (suc fuel) c start prevnode =
      let page = dump_page (dump_nodes fuel (c + r.pagesize)) c start prevnode (node_at c) in
      if ltb c r.len then page else (dumpnode r start c prevnode ∷ [], finished)

  -- `dump_shm_nodes`; the loop has at most `shmlen` rounds.
  unfoldable pub dump_shm_nodes : List Extent × Ending
  dump_shm_nodes = if r.len == 0 then ([], finished) else dump_nodes (suc r.len) 0 0 (negsuc 0)

-- The loop of `interleave_next`.
unfoldable pub next_set : ℕ → ℕ → ℕ → Bitmask → Option ℕ
next_set zero cur n mask = none
next_set (suc fuel) cur n mask =
    let later = next_set fuel ((cur + 1) % n) n mask in
    if not (isbitset mask cur) then later else some cur

-- `interleave_next`; `none` is out of fuel.
unfoldable pub interleave_next : ℕ → State → ℕ → Bitmask → Option ℕ
interleave_next fuel st cur mask = next_set fuel ((cur + 1) % 2 ^ 32) (num_possible_nodes st) mask

-- The calls of `vwarn`, with the offset of the page.
pub data Warning : Type 0 where
  wrong_policy mismatched_mask interleave_out_of_range expected_node unexpected_node : ℕ → Warning

abbrev warn_if : Bool → Warning → List Warning × Ending → List Warning × Ending
warn_if true w rest = after w rest
warn_if false w rest = rest

module _ (st : State) (r : Region) (node_at : ℕ → Option ℤ) (policy_at : ℕ → Option (ℕ × List ℕ))
    (policy : ℕ) (nodes blank : Bitmask) where
  -- `numa_bitmask_isbitset(nodes2, node)` casts the node.
  abbrev node_set : Bitmask → ℤ → Bool
  node_set nodes2 node = isbitset nodes2 (to_u32 node)

  abbrev with_next : (ℤ → List Warning × Ending) → Option ℕ → List Warning × Ending
  with_next loop none = ([], exhausted)
  with_next loop (some ilnode) = loop (pos ilnode)

  -- The `switch` of `verify_shm`.
  abbrev verify_node :
      (ℤ → List Warning × Ending) → ℕ → ℕ → ℤ → Bitmask → Option ℤ → List Warning × Ending
  verify_node loop fuel c ilnode nodes2 none = ([], failed)
  verify_node loop fuel c ilnode nodes2 (some node) =
      if policy == Mpol.interleave
      then warn_if (is_neg node || not (node_set nodes2 node)) (interleave_out_of_range c) (
          if not (int_eq node ilnode)
          then (expected_node c ∷ [], finished)
          else with_next loop (interleave_next fuel st (to_u32 ilnode) nodes2))
      else if policy == Mpol.preferred_many || policy == Mpol.preferred || policy == Mpol.bind
      then warn_if (not (node_set nodes2 node)) (unexpected_node c) (loop ilnode)
      else loop ilnode

  -- A page of `verify_shm`; `memcmp` compares the bytes of `nodes`.
  abbrev verify_page :
      (ℤ → List Warning × Ending) → ℕ → ℕ → ℤ → Option (ℕ × List ℕ) → List Warning × Ending
  verify_page loop fuel c ilnode none = ([], failed)
  verify_page loop fuel c ilnode (some (pol2, words)) =
      let n = nbytes nodes / 8 in
      if not (pol2 == policy)
      then (wrong_policy c ∷ [], finished)
      else warn_if (not (str_eq (take n words) (take n nodes.maskp))) (mismatched_mask c)
          (verify_node loop fuel c ilnode (record blank { maskp = words }) (node_at c))

  -- The loop of `verify_shm`.
  unfoldable pub verify_pages : ℕ → ℕ → ℤ → List Warning × Ending
  verify_pages zero c ilnode = ([], exhausted)
  verify_pages (suc fuel) c ilnode =
      let page = verify_page (verify_pages fuel (c + r.pagesize)) fuel c ilnode (policy_at c) in
      if ltb c r.len then page else ([], finished)

  abbrev verify_from : ℕ → Option ℤ → List Warning × Ending
  verify_from fuel none = ([], failed)
  verify_from fuel (some ilnode) = verify_pages fuel 0 ilnode

  -- `verify_shm`, with the mask that was allocated in `blank`.
  unfoldable pub verify_shm : ℕ → List Warning × Ending
  verify_shm fuel =
      if policy == Mpol.interleave
      then verify_from fuel (node_at 0)
      else verify_pages fuel 0 (negsuc 0)
