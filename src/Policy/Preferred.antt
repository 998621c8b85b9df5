-- ===== src/Policy/Preferred.antt =====
-- libnuma.c: the preferred nodes of the task, and whether the kernel knows MPOL_PREFERRED_MANY.
use numactl.Base.{ℕ, ◌+◌, Bool, true, ◌&&◌, List, Option, some, none, ltb, ◌==◌, if◌then◌else◌}
use numactl.Base.Ints.{ℤ, pos, to_u32, is_neg}
use numactl.Bitmask.{Bitmask, bitmask_setbit, clearall, weight, find_first}
use numactl.Libnuma.{State, allocate_nodemask}
use numactl.Policy.{
  Reply, returned, failed, Kernel, done, Action, pure, ◌>>=◌, ◌>>◌, is_zero, fails_with, set_errno,
  call, numa_error, setpol, getpol, get_mems_allowed,
}
use numactl.Util.Mpol

module _ {W : Type 0} (k : Kernel W) (e : Bool) where
  abbrev set_has_preferred_many : ℤ → Action W (Unit {0})
  set_has_preferred_many n s = done tt (record s { has_preferred_many = n })

  -- The end of `set_preferred_many`: the old policy is set again, without its errors.
  abbrev try_preferred_many : Bitmask → Bitmask → Reply (ℕ × List ℕ) → Action W (Unit {0})
  try_preferred_many tmp bmp (failed n) = pure tt
  try_preferred_many tmp bmp (returned (oldp, words)) = do
    r ← call k e (k.set_mempolicy Mpol.preferred_many tmp.maskp tmp.size)
    if fails_with (λ n. true) r then pure tt else (do
      set_has_preferred_many (pos 1)
      restored ← call k e (k.set_mempolicy oldp words (bmp.size + 1))
      pure tt)

  abbrev ask_preferred_many : Option Bitmask → Option Bitmask → Action W (Unit {0})
  ask_preferred_many none bmp = pure tt
  ask_preferred_many (some tmp) none = pure tt
  ask_preferred_many (some tmp) (some bmp) = do
    r ← call k e (k.get_mempolicy bmp.size 0)
    try_preferred_many tmp bmp r

  -- `set_preferred_many`
  unfoldable pub set_preferred_many : State → Action W (Unit {0})
  set_preferred_many st s =
      let ask : Action W (Unit {0}) = (do
        set_has_preferred_many (pos 0)
        tmp ← get_mems_allowed k e st
        ask_preferred_many tmp (allocate_nodemask st)
        set_errno s.errno) in
      if is_neg s.has_preferred_many then ask s else done tt s

  -- `numa_has_preferred_many`
  unfoldable pub numa_has_preferred_many : State → Action W ℤ
  numa_has_preferred_many st = do set_preferred_many st; λ s. done s.has_preferred_many s

  -- `numa_set_bind_policy`
  unfoldable pub set_bind_policy : State → Bool → Action W (Unit {0})
  set_bind_policy st is_strict = do
    many ← numa_has_preferred_many st
    let policy =
        if is_strict
        then Mpol.bind
        else if is_zero many
        then Mpol.preferred
        else Mpol.preferred_many
    λ s. done tt (record s { bind_policy = policy })

  -- `errno = EINVAL; numa_error(...);`
  abbrev refuse_many : Action W (Unit {0})
  refuse_many = do set_errno 22; numa_error k e

  -- `__numa_preferred` with the mask that was allocated.
  abbrev preferred_in : Option Bitmask → Action W (Option Bitmask)
  preferred_in none = pure none
  preferred_in (some bmp) = do
    (policy, got) ← getpol k e (clearall bmp)
    if policy == Mpol.preferred && ltb 1 (weight got) then refuse_many else pure tt
    pure (some got)

  -- `__numa_preferred`
  unfoldable pub preferred_mask : State → Action W (Option Bitmask)
  preferred_mask st = preferred_in (allocate_nodemask st)

  -- `numa_preferred_err`; `none` is no mask to look in.
  abbrev first_of : Option Bitmask → Option ℤ
  first_of none = none
  first_of (some bmp) = some (find_first bmp)

  unfoldable pub preferred_err : State → Action W (Option ℤ)
  preferred_err st = do bmp ← preferred_mask st; pure (first_of bmp)

  -- `numa_preferred`
  abbrev zero_if_none : Option ℤ → Option ℤ
  zero_if_none none = none
  zero_if_none (some first_node) = some (if is_neg first_node then pos 0 else first_node)

  unfoldable pub numa_preferred : State → Action W (Option ℤ)
  numa_preferred st = do first_node ← preferred_err st; pure (zero_if_none first_node)

  -- `__numa_set_preferred`
  unfoldable pub set_preferred_mask : Bitmask → Action W (Unit {0})
  set_preferred_mask bmp = do
    if ltb 1 (weight bmp) then refuse_many else pure tt
    setpol k e (if weight bmp == 0 then Mpol.local else Mpol.preferred) bmp

  -- `numa_set_preferred` with the mask that was allocated.
  abbrev set_preferred_in : ℤ → Option Bitmask → Action W (Unit {0})
  set_preferred_in node none = pure tt
  set_preferred_in node (some bmp) = set_preferred_mask (bitmask_setbit bmp (to_u32 node))

  -- `numa_set_preferred`
  unfoldable pub set_preferred : State → ℤ → Action W (Unit {0})
  set_preferred st node = set_preferred_in node (allocate_nodemask st)

  -- `numa_set_preferred_many`
  unfoldable pub set_preferred_many_mask : State → Bitmask → Action W (Unit {0})
  set_preferred_many_mask st bitmask = do
    many ← numa_has_preferred_many st
    if is_zero many
        then set_preferred st (find_first bitmask)
        else setpol k e Mpol.preferred_many bitmask
