-- ===== src/Bitmask/Nodemask.antt =====
-- numa.h: the masks of fixed size of the version 1 interface, and libnuma.c's copies from and to
-- them. `NUMA_NUM_NODES` is 128, as on x86.
use numactl.Base.{
  ℕ, ◌-◌, ◌/◌, ◌%◌, ◌^◌, ◌<◌, ◌≡◌, Bool, true, false, not, List, ltb, leb, ◌==◌, if◌then◌else◌,
  get_or, set, replicate, bit_and, bit_or, refl, lt→ltb,
}
use numactl.Base.Loops.{for_range}
use numactl.Bitmask.{Bitmask, isbitset, setbit, bitmask_setbit, clearall, equal}

abbrev pub numa_num_nodes : ℕ
numa_num_nodes = 128

-- `nodemask_t`: the words of `n`
abbrev pub NodeMask : Type 0
NodeMask = List ℕ

-- `tmp.maskp = (unsigned long *)mask; tmp.size = sizeof(nodemask_t) * 8;`
abbrev pub as_bitmask : NodeMask → Bitmask
as_bitmask mask = record { size = numa_num_nodes; maskp = mask }

-- `nodemask_zero_compat`
unfoldable pub nodemask_zero_compat : NodeMask → NodeMask
nodemask_zero_compat mask = (clearall (as_bitmask mask)).maskp

-- `nodemask_set_compat`
unfoldable pub nodemask_set_compat : NodeMask → ℕ → NodeMask
nodemask_set_compat mask node =
    set mask (node / 64) (bit_or (get_or mask (node / 64) 0) (2 ^ (node % 64)))

-- `nodemask_clr_compat`
unfoldable pub nodemask_clr_compat : NodeMask → ℕ → NodeMask
nodemask_clr_compat mask node =
    set mask (node / 64) (bit_and (get_or mask (node / 64) 0) (2 ^ 64 - 1 - 2 ^ (node % 64)))

-- `nodemask_isset_compat`
unfoldable pub nodemask_isset_compat : NodeMask → ℕ → Bool
nodemask_isset_compat mask node =
    if leb numa_num_nodes node
    then false
    else not (bit_and (get_or mask (node / 64) 0) (2 ^ (node % 64)) == 0)

-- `nodemask_equal`, `nodemask_equal_compat`
unfoldable pub nodemask_equal : NodeMask → NodeMask → Bool
nodemask_equal a b = equal (as_bitmask a) (as_bitmask b)

-- `copy_bitmask_to_nodemask`, into a mask of two words: the loop breaks at `max`.
unfoldable pub copy_bitmask_to_nodemask : Bitmask → NodeMask
copy_bitmask_to_nodemask bmp =
    let max = numa_num_nodes in
    for_range (if ltb bmp.size max then bmp.size else max) 0
      (λ i nmp. if isbitset bmp i then nodemask_set_compat nmp i else nmp) (replicate 2 0)

-- `copy_nodemask_to_bitmask`
unfoldable pub copy_nodemask_to_bitmask : NodeMask → Bitmask → Bitmask
copy_nodemask_to_bitmask nmp bmp =
    let max = if ltb bmp.size numa_num_nodes then bmp.size else numa_num_nodes in
    for_range max 0 (λ i b. if nodemask_isset_compat nmp i then bitmask_setbit b i else b)
      (clearall bmp)

-- On a node of the mask the routines of the two interfaces set and clear the same bit of the words.
pub nodemask_set-setbit :
    (mask : NodeMask) (node : ℕ)
    → node < numa_num_nodes
    → (nodemask_set_compat mask node ≡ (setbit (as_bitmask mask) node 1).maskp)
      × (nodemask_clr_compat mask node ≡ (setbit (as_bitmask mask) node 0).maskp)
unfolding nodemask_set_compat nodemask_clr_compat setbit
nodemask_set-setbit mask node l =
    let inside : ltb node numa_num_nodes ≡ true = lt→ltb node numa_num_nodes l in
    (rw inside refl, rw inside refl)
