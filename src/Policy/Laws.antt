-- ===== src/Policy/Laws.antt =====
-- libnuma.c: the preferred node of the task, set and then asked for.
use numactl.Base.{ℕ, ◌^◌, ◌%◌, ◌<◌, ◌≡◌, refl, sym, ap, ◌∙◌, Bool, List, some, ◌==◌, arith}
use numactl.Base.Ints.{ℤ, pos, negsuc}
use numactl.Bitmask.{Bitmask, IsValid, isbitset, bitmask_setbit, clearall, weight, find_first}
use numactl.Bitmask.Ops.{isbitset-setbit, size-setbit}
use numactl.Bitmask.Scan.{clearall_lem, FindsFirst, find_first-FindsFirst}
use numactl.Bitmask.Weight.{weight-setbit, weight_bounds}
use numactl.Libnuma.{State, allocate_nodemask}
use numactl.Libnuma.Laws.{IsReady, IsFresh, allocate_nodemask_lem}
use numactl.Policy.{returned, Kernel, Task, done, ◌>>◌, setpol, getpol}
use numactl.Policy.Preferred.{
  preferred_mask, preferred_err, numa_preferred, set_preferred, set_preferred_mask,
}
use numactl.Util.Mpol

module _ {W : Type 0} (k : Kernel W) where
  -- get_mempolicy(2) "retrieves the NUMA policy" that set_mempolicy(2) has set: from the world `w`
  -- the call that sets it succeeds, and a query with as many bits then gives the mode and the mask.
  pub record Keeps (mode : ℕ) (words : List ℕ) (size : ℕ) (w w' : W) : Type 0 where
    pub accepted : k.set_mempolicy mode words size w ≡ (returned tt, w')
    pub queried : k.get_mempolicy size 0 w' ≡ (returned (mode, words), w')

  module _ (exit_on_error : Bool) where
    setpol_lem :
        (mode : ℕ) (bmp : Bitmask) (s : Task W) (w' : W)
        → Keeps mode bmp.maskp bmp.size s.world w'
        → setpol k exit_on_error mode bmp s ≡ done tt (record s { world = w' })
    unfolding setpol
    setpol_lem mode bmp s w' keeps = rw keeps.accepted

    getpol_lem :
        (mode : ℕ) (bmp mask : Bitmask) (s : Task W) (w : W)
        → Keeps mode mask.maskp mask.size w s.world
        → bmp.size ≡ mask.size
        → getpol k exit_on_error bmp s ≡ done (mode, mask) s
    unfolding getpol
    getpol_lem mode bmp mask s w keeps same = rw (same, keeps.queried)

allocate_nodemask-IsFresh :
    (st : State) (fresh : Bitmask)
    → IsReady st
    → allocate_nodemask st ≡ some fresh
    → IsFresh st.nodemask_sz fresh
allocate_nodemask-IsFresh st fresh ready e =
    let (b, e', f) = allocate_nodemask_lem st ready in
    let same : b ≡ fresh = cc (e, e') in rw (← same) f

weight-one_node :
    (b : Bitmask) (n node : ℕ) → IsFresh n b → node < n → weight (bitmask_setbit b node) ≡ 1
unfolding bitmask_setbit
weight-one_node b n node f l =
    let none_set : weight b ≡ 0 = (weight_bounds b f.valid).2.1 f.empty in
    ground (arith, weight-setbit b node 1 f.valid (omega (arith, f.sized)), none_set, f.empty node)

isbitset-one_node :
    (b : Bitmask) (n node m : ℕ)
    → IsFresh n b
    → node < n
    → isbitset (bitmask_setbit b node) m ≡ (m == node)
unfolding bitmask_setbit
isbitset-one_node b n node m f l =
    ground (arith, isbitset-setbit b node 1 m f.valid, f.empty m, f.sized)

find_first-one_node :
    (b : Bitmask) (n node : ℕ)
    → IsFresh n b
    → node < n
    → find_first (bitmask_setbit b node) ≡ pos node
find_first-one_node b n node f l =
    only (find_first (bitmask_setbit b node)) (find_first-FindsFirst (bitmask_setbit b node))
  where
    only : (r : ℤ) → FindsFirst (bitmask_setbit b node) r → r ≡ pos node
    only (pos m) (hit, low) = ap pos (ground (arith, hit, isbitset-one_node b n node m f l))
    only (negsuc m) (z, clear) =
        absurd (ground (arith, clear node, isbitset-one_node b n node node f l))

set_preferred_lem :
    {W : Type 0} (k : Kernel W) (exit_on_error : Bool) (st : State) (node : ℕ) (fresh : Bitmask)
    (s : Task W) (w' : W)
    → IsFresh st.nodemask_sz fresh
    → node < st.nodemask_sz
    → node < 2 ^ 31
    → allocate_nodemask st ≡ some fresh
    → Keeps k Mpol.preferred
        (bitmask_setbit fresh node).maskp
        (bitmask_setbit fresh node).size
        s.world
        w'
    → set_preferred k exit_on_error st (pos node) s ≡ done tt (record s { world = w' })
unfolding set_preferred set_preferred_mask
set_preferred_lem k e st node fresh s w' f l small allocated keeps =
    let number : node % 2 ^ 32 ≡ node = omega arith in
    rw
      (
        allocated,
        number,
        weight-one_node fresh st.nodemask_sz node f l,
        setpol_lem k e Mpol.preferred (bitmask_setbit fresh node) s w' keeps,
      )
      refl

preferred_lem :
    {W : Type 0} (k : Kernel W) (exit_on_error : Bool) (st : State) (node : ℕ) (fresh : Bitmask)
    (s : Task W) (w : W)
    → IsFresh st.nodemask_sz fresh
    → node < st.nodemask_sz
    → allocate_nodemask st ≡ some fresh
    → Keeps k Mpol.preferred
        (bitmask_setbit fresh node).maskp
        (bitmask_setbit fresh node).size
        w
        s.world
    → numa_preferred k exit_on_error st s ≡ done (some (pos node)) s
unfolding numa_preferred preferred_err preferred_mask bitmask_setbit
preferred_lem k e st node fresh s w f l allocated keeps =
    let asked =
      getpol_lem k e Mpol.preferred (clearall fresh) (bitmask_setbit fresh node) s w keeps
        (sizes fresh f.valid node) in
    rw
      (
        allocated,
        asked,
        weight-one_node fresh st.nodemask_sz node f l,
        find_first-one_node fresh st.nodemask_sz node f l,
      )
      refl
  where
    sizes : (b : Bitmask) → IsValid b → (n : ℕ) → (clearall b).size ≡ (bitmask_setbit b n).size
    sizes b v n = (clearall_lem b v).1 ∙ sym (size-setbit b n 1)

-- A possible node that `numa_set_preferred` sets is the node that `numa_preferred` returns, where
-- the kernel keeps MPOL_PREFERRED with that node alone.
pub numa_preferred-set_preferred :
    {W : Type 0} (k : Kernel W) (exit_on_error : Bool) (st : State) (node : ℕ) (fresh : Bitmask)
    (s : Task W) (w' : W)
    → IsReady st
    → node < st.nodemask_sz
    → allocate_nodemask st ≡ some fresh
    → Keeps k Mpol.preferred
        (bitmask_setbit fresh node).maskp
        (bitmask_setbit fresh node).size
        s.world
        w'
    → (set_preferred k exit_on_error st (pos node) >> numa_preferred k exit_on_error st) s
      ≡ done (some (pos node)) (record s { world = w' })
numa_preferred-set_preferred k e st node fresh s w' ready l allocated keeps =
    let f = allocate_nodemask-IsFresh st fresh ready allocated in
    rw
      (set_preferred_lem k e st node fresh s w' f l (omega (arith, ready.node_size)) allocated
        keeps)
      (preferred_lem k e st node fresh (record s { world = w' }) s.world f l allocated keeps)
