-- ===== src/Policy/Memory.antt =====
-- libnuma.c: the policies of memory areas, and the allocations that set one.
use numactl.Base.{
  ℕ, ◌-◌, ◌^◌, Bool, true, false, not, ◌&&◌, List, Option, some, none, if◌then◌else◌, bit_or,
  bit_and,
}
use numactl.Base.Ints.{ℤ, to_u32}
use numactl.Bitmask.{Bitmask, bitmask_setbit}
use numactl.Libnuma.{State, allocate_nodemask}
use numactl.Policy.{
  Reply, returned, failed, Kernel, done, Action, pure, ◌>>=◌, ◌>>◌, strict, numa_error, noted,
}
use numactl.Util.Mpol

-- `numa_set_strict`
unfoldable pub set_strict : {W : Type 0} → Bool → Action W (Unit {0})
set_strict flag s = done tt (record s {
  mbind_flags =
      if flag then bit_or s.mbind_flags strict else bit_and s.mbind_flags (2 ^ 32 - 1 - strict);
})

module _ {W : Type 0} (k : Kernel W) (exit_on_error fail_alloc_on_error : Bool) where
  -- `dombind`: whether it returns 0. The mask may be NULL, with 0 bits.
  abbrev bound : Reply (Unit {0}) → Action W Bool
  bound (returned a) = pure true
  bound (failed e) = do numa_error k exit_on_error; pure false

  abbrev mask_words : Option Bitmask → Option (List ℕ)
  mask_words none = none
  mask_words (some bmp) = some bmp.maskp

  abbrev mask_size : Option Bitmask → ℕ
  mask_size none = 0
  mask_size (some bmp) = bmp.size

  unfoldable pub dombind : ℕ → ℕ → ℕ → Option Bitmask → Action W Bool
  dombind mem size pol bmp s =
      let (r, w) = k.mbind mem size pol (mask_words bmp) (mask_size bmp) s.mbind_flags s.world in
      bound r (noted r (record s { world = w }))

  -- `dombind_or_free`; `none` is NULL.
  unfoldable pub dombind_or_free : ℕ → ℕ → ℕ → Option Bitmask → Action W (Option ℕ)
  dombind_or_free mem size pol bmp = do
    fine ← dombind mem size pol bmp
    if not fine && fail_alloc_on_error then unmapped mem size else pure (some mem)
    where
      unmapped : ℕ → ℕ → Action W (Option ℕ)
      unmapped mem size s = done none (record s { world = k.munmap mem size s.world })

  -- The policy that the thread binds with.
  abbrev with_bind_policy : {A : Type 0} → (ℕ → Action W A) → Action W A
  with_bind_policy f s = f s.bind_policy s

  abbrev ignored : Action W Bool → Action W (Unit {0})
  ignored m = do fine ← m; pure tt

  -- `numa_interleave_memory`, `numa_weighted_interleave_memory`
  unfoldable pub interleave_memory : ℕ → ℕ → Bitmask → Action W (Unit {0})
  interleave_memory mem size bmp = ignored (dombind mem size Mpol.interleave (some bmp))

  unfoldable pub weighted_interleave_memory : ℕ → ℕ → Bitmask → Action W (Unit {0})
  weighted_interleave_memory mem size bmp =
      ignored (dombind mem size Mpol.weighted_interleave (some bmp))

  -- `numa_tonode_memory`
  unfoldable pub tonode_memory : State → ℕ → ℕ → ℤ → Action W (Unit {0})
  tonode_memory st mem size node = elim (allocate_nodemask st) [
    | none ↦ pure tt
    | some nodes ↦
        with_bind_policy
          (λ policy. ignored (dombind mem size policy (some (bitmask_setbit nodes (to_u32 node)))))
  ]

  -- `numa_tonodemask_memory`
  unfoldable pub tonodemask_memory : ℕ → ℕ → Bitmask → Action W (Unit {0})
  tonodemask_memory mem size bmp =
      with_bind_policy (λ policy. ignored (dombind mem size policy (some bmp)))

  -- `numa_setlocal_memory`
  unfoldable pub setlocal_memory : ℕ → ℕ → Action W (Unit {0})
  setlocal_memory mem size = ignored (dombind mem size Mpol.local none)

  -- `mmap`, and what is done with the memory if there is any.
  abbrev with_memory : (ℕ → Action W (Option ℕ)) → Reply ℕ → Action W (Option ℕ)
  with_memory f (returned mem) = f mem
  with_memory f (failed e) = pure none

  abbrev alloc_with : ℕ → (ℕ → Action W (Option ℕ)) → Action W (Option ℕ)
  alloc_with size f s =
      let (r, w) = k.mmap size s.world in with_memory f r (noted r (record s { world = w }))

  -- `numa_alloc_interleaved_subset`, `numa_alloc_interleaved`
  unfoldable pub alloc_interleaved_subset : ℕ → Bitmask → Action W (Option ℕ)
  alloc_interleaved_subset size bmp =
      alloc_with size (λ mem. dombind_or_free mem size Mpol.interleave (some bmp))

  unfoldable pub alloc_interleaved : State → ℕ → Action W (Option ℕ)
  alloc_interleaved st size = alloc_interleaved_subset size st.all_nodes_ptr

  -- `numa_alloc_weighted_interleaved_subset`, `numa_alloc_weighted_interleaved`
  unfoldable pub alloc_weighted_interleaved_subset : ℕ → Bitmask → Action W (Option ℕ)
  alloc_weighted_interleaved_subset size bmp =
      alloc_with size (λ mem. dombind_or_free mem size Mpol.weighted_interleave (some bmp))

  unfoldable pub alloc_weighted_interleaved : State → ℕ → Action W (Option ℕ)
  alloc_weighted_interleaved st size = alloc_weighted_interleaved_subset size st.all_nodes_ptr

  -- `numa_alloc_onnode`
  unfoldable pub alloc_onnode : State → ℕ → ℤ → Action W (Option ℕ)
  alloc_onnode st size node = elim (allocate_nodemask st) [
    | none ↦ pure none
    | some bmp ↦ alloc_with size (λ mem.
        with_bind_policy
          (λ policy. dombind_or_free mem size policy (some (bitmask_setbit bmp (to_u32 node)))))
  ]

  -- `numa_alloc_local`
  unfoldable pub alloc_local : ℕ → Action W (Option ℕ)
  alloc_local size = alloc_with size (λ mem. dombind_or_free mem size Mpol.local none)
