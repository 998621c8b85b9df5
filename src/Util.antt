-- ===== src/Util.antt =====
-- util.c: sizes with a suffix, and the names of the memory policies (numaif.h has their numbers).
use numactl.Base.{
  ℕ, zero, suc, ◌+◌, ◌*◌, ◌%◌, ◌^◌, Bool, true, false, not, ◌&&◌, ◌||◌, List, [], ◌∷◌, ◌++◌, Option,
  none, some, Bytes, codes, str_eq, ltb, ◌==◌, if◌then◌else◌, get_or,
}
use numactl.Base.Ints.{ℤ, pos, negsuc}
use numactl.Text.{toupper, first_byte, strtoul, decimal}
pub mod Laws
pub mod Mpol

-- `switch (toupper(*end))`: the cases fall through.
unfoldable pub scale : ℕ → ℕ → ℕ
scale c length =
    if c == b'G'
    then length * 1024 % 2 ^ 64 * 1024 % 2 ^ 64 * 1024 % 2 ^ 64
    else if c == b'M'
    then length * 1024 % 2 ^ 64 * 1024 % 2 ^ 64
    else if c == b'K'
    then length * 1024 % 2 ^ 64
    else length

-- `memsize`: the `long` as its 64-bit word. With no number `end` is `s` and the length 0.
unfoldable pub memsize : Bytes → ℕ
memsize s = elim (strtoul 0 s) [
  | none ↦ scale (toupper (first_byte s)) 0
  | some (length, end) ↦ scale (toupper (first_byte end)) length
]

-- `struct policy`
pub record Policy : Type 0 where
  pub name : Bytes
  pub policy : ℕ
  pub noarg : Bool

abbrev entry : Bytes → ℕ → Bool → Policy
entry n p b = record { name = n; policy = p; noarg = b }

-- `policies`, up to the entry with no name.
abbrev pub policies : List Policy
policies =
    entry (codes "preferred-many") Mpol.preferred_many false
    ∷ entry (codes "local") Mpol.local true
    ∷ entry (codes "interleave") Mpol.interleave false
    ∷ entry (codes "membind") Mpol.bind false
    ∷ entry (codes "preferred") Mpol.preferred false
    ∷ entry (codes "default") Mpol.default true
    ∷ entry (codes "weighted-interleave") Mpol.weighted_interleave false
    ∷ []

-- `policy_names`
abbrev pub policy_names : List Bytes
policy_names =
    codes "default"
    ∷ codes "preferred"
    ∷ codes "bind"
    ∷ codes "interleave"
    ∷ codes "local"
    ∷ codes "preferred-many"
    ∷ codes "weighted-interleave"
    ∷ []

-- `policy_name`: an `int` below 0 compares as a large `size_t`.
unfoldable pub policy_name : ℤ → Bytes
policy_name (pos policy) =
    if ltb policy 7 then get_or policy_names policy [] else b'[' ∷ (decimal policy ++ codes "]")
policy_name (negsuc n) = codes "[-" ++ (decimal (suc n) ++ codes "]")

-- `while (*name == '-') name++;`
unfoldable pub skip_dashes : Bytes → Bytes
skip_dashes [] = []
skip_dashes (c ∷ s) = if c == b'-' then skip_dashes s else c ∷ s

-- The search loop of `parse_policy`.
unfoldable pub find_policy : List Policy → Bytes → Option Policy
find_policy [] name = none
find_policy (p ∷ ps) name = if str_eq p.name name then some p else find_policy ps name

abbrev pub is_null : Option Bytes → Bool
is_null none = true
is_null (some s) = false

-- `parse_policy`; `none` is a null pointer.
unfoldable pub parse_policy : Option Bytes → Option Bytes → ℕ
parse_policy none arg = Mpol.default
parse_policy (some name) arg = elim (find_policy policies (skip_dashes name)) [
  | none ↦ Mpol.max
  | some p ↦ if is_null arg && not p.noarg then Mpol.max else p.policy
]
