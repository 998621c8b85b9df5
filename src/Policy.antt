-- ===== src/Policy.antt =====
-- libnuma.c: the memory policies of the task and of memory areas. The kernel's calls are a
-- parameter, an interface over a type of worlds; `exit` ends an action early.
use numactl.Base.{
  ℕ, ◌+◌, ◌^◌, ◌<◌, Bool, true, false, not, ◌&&◌, ◌||◌, List, Option, some, none, ltb, ◌==◌,
  if◌then◌else◌, bit_or, bit_and,
}
use numactl.Base.Ints.{ℤ, pos, negsuc, to_u32, is_neg}
use numactl.Bitmask.{Bitmask, bitmask_setbit, clearall, equal, weight, find_first}
use numactl.Bitmask.Copy.{copy_bitmask_to_bitmask}
use numactl.Libnuma.{State, allocate_nodemask}
use numactl.Util.Mpol
pub mod Memory
pub mod Preferred
pub mod Laws

-- What a system call gives: its result, or -1 with `errno`.
pub data Reply (A : Type 0) : Type 0 where
  returned : A → Reply A
  failed : ℕ → Reply A

-- The system calls: the modes and flags are numbers, masks are words with a count of bits.
-- `get_mempolicy` gives the mode and the words that it wrote.
pub record Kernel (W : Type 0) : Type 0 where
  pub set_mempolicy : ℕ → List ℕ → ℕ → W → Reply (Unit {0}) × W
  pub get_mempolicy : ℕ → ℕ → W → Reply (ℕ × List ℕ) × W
  pub mbind : ℕ → ℕ → ℕ → Option (List ℕ) → ℕ → ℕ → W → Reply (Unit {0}) × W
  pub mmap : ℕ → W → Reply ℕ × W
  pub munmap : ℕ → ℕ → W → W

-- The thread's and the library's variables, with `errno` and the world.
pub record Task (W : Type 0) : Type 0 where
  pub world : W
  pub bind_policy : ℕ
  pub mbind_flags : ℕ
  pub has_preferred_many : ℤ
  pub errno : ℕ

pub data Outcome (W A : Type 0) : Type 0 where
  done : A → Task W → Outcome W A
  exited : Task W → Outcome W A

abbrev pub Action : Type 0 → Type 0 → Type 0
Action W A = Task W → Outcome W A

abbrev pub next : {W A B : Type 0} → Outcome W A → (A → Action W B) → Outcome W B
next (done a s) f = f a s
next (exited s) f = exited s

abbrev pub pure : {W A : Type 0} → A → Action W A
pure a s = done a s

infixl 1 ◌>>=◌
abbrev pub ◌>>=◌ : {W A B : Type 0} → Action W A → (A → Action W B) → Action W B
(m >>= f) s = next (m s) f

infixl 1 ◌>>◌
abbrev pub ◌>>◌ : {W A B : Type 0} → Action W A → Action W B → Action W B
(m >> k) s = next (m s) (λ a. k)

-- `EPERM`, `EINVAL` and `ENOSYS`
abbrev eperm : ℕ
eperm = 1

abbrev einval : ℕ
einval = 22

abbrev enosys : ℕ
enosys = 38

-- `MPOL_F_MEMS_ALLOWED`, `MPOL_F_NUMA_BALANCING`, `MPOL_MF_STRICT`
abbrev pub mems_allowed : ℕ
mems_allowed = 2 ^ 2

abbrev pub numa_balancing : ℕ
numa_balancing = 2 ^ 13

abbrev pub strict : ℕ
strict = 1

abbrev pub is_zero : ℤ → Bool
is_zero (pos n) = n == 0
is_zero (negsuc n) = false

-- `errno` decides what a failure means; a call that returned has none.
abbrev pub fails_with : {A : Type 0} → (ℕ → Bool) → Reply A → Bool
fails_with p (returned a) = false
fails_with p (failed e) = p e

abbrev pub set_errno : {W : Type 0} → ℕ → Action W (Unit {0})
set_errno e s = done tt (record s { errno = e })

-- A failed call sets `errno`.
abbrev pub noted : {W A : Type 0} → Reply A → Task W → Task W
noted (returned a) s = s
noted (failed e) s = record s { errno = e }

module _ {W : Type 0} (k : Kernel W) (exit_on_error : Bool) where
  -- A system call in the task's world.
  abbrev pub call : {A : Type 0} → (W → Reply A × W) → Action W (Reply A)
  call f s = let (r, w) = f s.world in done r (noted r (record s { world = w }))

  -- `numa_error`; it leaves `errno` as it was.
  abbrev pub numa_error : Action W (Unit {0})
  numa_error s = if exit_on_error then exited s else done tt s

  abbrev pub or_error : Reply (Unit {0}) → Action W (Unit {0})
  or_error (returned a) = pure tt
  or_error (failed e) = numa_error

  -- `setpol`
  unfoldable pub setpol : ℕ → Bitmask → Action W (Unit {0})
  setpol policy bmp = do r ← call (k.set_mempolicy policy bmp.maskp bmp.size); or_error r

  -- What `get_mempolicy` wrote; a failed call leaves the policy and the mask.
  abbrev pub written : ℕ → Bitmask → Reply (ℕ × List ℕ) → Action W (ℕ × Bitmask)
  written policy bmp (returned (mode, words)) = pure (mode, record bmp { maskp = words })
  written policy bmp (failed e) = do numa_error; pure (policy, bmp)

  -- `getpol`, with the callers' `oldpolicy = 0`
  unfoldable pub getpol : Bitmask → Action W (ℕ × Bitmask)
  getpol bmp = do r ← call (k.get_mempolicy bmp.size 0); written 0 bmp r

  -- `numa_set_interleave_mask`
  unfoldable pub set_interleave_mask : State → Bitmask → Action W (Unit {0})
  set_interleave_mask st bmp =
      if equal bmp st.no_nodes_ptr then setpol Mpol.default bmp else setpol Mpol.interleave bmp

  -- `numa_set_weighted_interleave_mask`
  unfoldable pub set_weighted_interleave_mask : State → Bitmask → Action W (Unit {0})
  set_weighted_interleave_mask st bmp =
      if equal bmp st.no_nodes_ptr
      then setpol Mpol.default bmp
      else setpol Mpol.weighted_interleave bmp

  -- The getters: the mask of the policy asked for, or else a copy of `other`.
  abbrev pub kept_if : ℕ → Bitmask → Option Bitmask → Action W (Option Bitmask)
  kept_if mode other none = pure none
  kept_if mode other (some bmp) = do
    (policy, got) ← getpol bmp
    pure (some (if policy == mode then got else copy_bitmask_to_bitmask other got))

  -- `numa_get_interleave_mask`
  unfoldable pub get_interleave_mask : State → Action W (Option Bitmask)
  get_interleave_mask st = kept_if Mpol.interleave st.no_nodes_ptr (allocate_nodemask st)

  -- `numa_get_weighted_interleave_mask`
  unfoldable pub get_weighted_interleave_mask : State → Action W (Option Bitmask)
  get_weighted_interleave_mask st =
      kept_if Mpol.weighted_interleave st.no_nodes_ptr (allocate_nodemask st)

  -- `numa_get_membind`
  unfoldable pub get_membind : State → Action W (Option Bitmask)
  get_membind st = kept_if Mpol.bind st.all_nodes_ptr (allocate_nodemask st)

  -- `numa_set_membind`
  unfoldable pub set_membind : Bitmask → Action W (Unit {0})
  set_membind bmp = setpol Mpol.bind bmp

  -- `numa_set_membind_balancing`: without balancing where the kernel does not know it.
  unfoldable pub set_membind_balancing : Bitmask → Action W (Unit {0})
  set_membind_balancing bmp = do
    r ← call (k.set_mempolicy (bit_or Mpol.bind numa_balancing) bmp.maskp (bmp.size + 1))
    if fails_with (λ e. e == einval) r then (do set_errno 0; set_membind bmp) else or_error r

  -- `numa_get_mems_allowed`
  unfoldable pub get_mems_allowed : State → Action W (Option Bitmask)
  get_mems_allowed st = elim (allocate_nodemask st) [
    | none ↦ pure none
    | some bmp ↦ do
      r ← call (k.get_mempolicy bmp.size mems_allowed)
      (policy, got) ← written 0 bmp r
      pure (some got)
  ]

  -- `numa_set_localalloc`
  unfoldable pub set_localalloc : State → Action W (Unit {0})
  set_localalloc st = setpol Mpol.local st.no_nodes_ptr

  -- `numa_available`
  unfoldable pub numa_available : Action W ℤ
  numa_available = do
    r ← call (k.get_mempolicy 0 0)
    pure (if fails_with (λ e. e == enosys || e == eperm) r then negsuc 0 else pos 0)
