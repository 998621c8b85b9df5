-- ===== src/Shm/Dump.antt =====
-- shm.c: `dump_shm`, the ranges of pages with one policy.
use numactl.Base.{
  ℕ, zero, suc, ◌+◌, ◌%◌, ◌^◌, ◌&&◌, List, [], Option, some, none, ltb, ◌==◌, if◌then◌else◌,
}
use numactl.Base.Ints.{ℤ, pos, negsuc}
use numactl.Bitmask.{Bitmask, equal}
use numactl.Bitmask.Copy.{copy_bitmask_to_bitmask}
use numactl.Shm.{Region, Ending, finished, failed, exhausted, after, int_eq}
use numactl.Util.Mpol

-- A line that `dumppol` prints.
pub record PolicyRange : Type 0 where
  pub start : ℕ
  pub end : ℕ
  pub policy : ℤ
  pub mask : Bitmask

-- `dumppol`: nothing for MPOL_DEFAULT.
abbrev pub dumppol :
    Region → ℕ → ℕ → ℤ → Bitmask → List PolicyRange × Ending → List PolicyRange × Ending
dumppol r start end pol mask rest =
    if int_eq pol (pos Mpol.default)
    then rest
    else after
        (record {
          start = (r.offset + start) % 2 ^ 64;
          end = (r.offset + end) % 2 ^ 64;
          policy = pol;
          mask = mask;
        })
        rest

module _ (r : Region) (policy_at : ℕ → Option (ℕ × List ℕ)) (blank : Bitmask) where
  -- A page of `dump_shm`; `loop` goes on with `start`, `prevpol` and `prevnodes`.
  abbrev dump_policy :
      (ℕ → ℤ → Bitmask → List PolicyRange × Ending)
      → ℕ
      → ℕ
      → ℤ
      → Bitmask
      → Option (ℕ × List ℕ)
      → List PolicyRange × Ending
  dump_policy loop c start prevpol prevnodes none = ([], failed)
  dump_policy loop c start prevpol prevnodes (some (pol, words)) =
      let nodes : Bitmask = record blank { maskp = words } in
      let rest = loop c (pos pol) (copy_bitmask_to_bitmask nodes prevnodes) in
      if int_eq (pos pol) prevpol && equal prevnodes nodes
      then loop start prevpol prevnodes
      else if int_eq prevpol (negsuc 0)
      then rest
      else dumppol r start c prevpol prevnodes rest

  -- The loop of `dump_shm`.
  unfoldable pub dump_policies : ℕ → ℕ → ℕ → ℤ → Bitmask → List PolicyRange × Ending
  dump_policies zero c start prevpol prevnodes = ([], exhausted)
  dump_policies (suc fuel) c start prevpol prevnodes =
      let page =
        dump_policy (dump_policies fuel (c + r.pagesize)) c start prevpol prevnodes (policy_at c) in
      if ltb c r.len then page else dumppol r start c prevpol prevnodes ([], finished)

  -- `dump_shm`, with the masks that were allocated in `blank`.
  unfoldable pub dump_shm : List PolicyRange × Ending
  dump_shm = if r.len == 0 then ([], finished) else dump_policies (suc r.len) 0 0 (negsuc 0) blank
