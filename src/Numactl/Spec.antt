-- ===== src/Numactl/Spec.antt =====
-- Which options numactl accepts one after the other: an abstract view of its variables, with one
-- function that says what each option needs and what it leaves.
use numactl.Base.{
  ◌≡◌, refl, ap, ◌∙◌, Bool, true, false, not, ◌&&◌, ◌||◌, List, [], ◌∷◌, ◌++◌, Option, some, none,
  arith,
}
use numactl.Base.Ints.{is_neg}
use numactl.Numactl.{
  Opt, show, hardware, balancing, local, dump, dump_nodes, strict, huge, touch, verify, all,
  cpu_compress, version, unknown, interleave, weighted_interleave, cpubind, physcpubind, membind,
  preferred, preferred_many, shm, file, length, shmmode, shmid, offset, Flags,
}
use numactl.Numactl.Guards.{is_some}

pub record View : Type 0 where
  pub policy : Bool
  pub attached : Bool
  pub shmattached : Bool
  pub named : Bool
  pub parsed : Bool
  pub bound : Bool
  pub dead : Bool

abbrev pub view : Flags → View
view f = record {
  policy = not (is_neg f.set_policy);
  attached = f.attached;
  shmattached = f.shmattached;
  named = is_some f.shmoption;
  parsed = f.did_node_cpu_parse;
  bound = f.did_cpubind;
  dead = f.do_shm;
}

abbrev pub unless : Bool → View → Option View
unless true v = none
unless false v = some v

-- The options that set a policy, that attach memory, that are to stand before that, and that name
-- nodes or cpus.
abbrev pub is_policy : Opt → Bool
is_policy (interleave s) = true
is_policy (weighted_interleave s) = true
is_policy (membind s) = true
is_policy (preferred s) = true
is_policy (preferred_many s) = true
is_policy local = true
is_policy _ = false

abbrev pub attaches : Opt → Bool
attaches (shm s) = true
attaches (file s) = true
attaches _ = false

abbrev pub is_setting : Opt → Bool
is_setting (length s) = true
is_setting (shmmode s) = true
is_setting (offset s) = true
is_setting huge = true
is_setting _ = false

abbrev pub binds_cpus : Opt → Bool
binds_cpus (cpubind s) = true
binds_cpus (physcpubind s) = true
binds_cpus _ = false

abbrev pub names_nodes : Opt → Bool
names_nodes local = false
names_nodes o = is_policy o || binds_cpus o

-- What an option needs of the view, and the view that it leaves; `none` if it is refused, or ends
-- the command.
abbrev pub set_policy : View → Option View
set_policy v = unless v.policy (record v { policy = true })

abbrev pub set_policy_of_nodes : View → Option View
set_policy_of_nodes v = unless v.policy (record v { policy = true; parsed = true })

abbrev pub bind_cpus : View → Option View
bind_cpus v = unless (v.named || v.dead) (record v { parsed = true; bound = true })

abbrev pub attach_memory : View → Option View
attach_memory v = unless (v.bound || v.policy) (record v { attached = true; shmattached = true })

abbrev pub needs_attached : View → Option View
needs_attached v = unless (not v.attached) v

abbrev pub needs_shm : View → Option View
needs_shm v = unless (not v.shmattached) v

abbrev pub name_setting : View → Option View
name_setting v = unless v.shmattached (record v { named = true })

abbrev pub spec : Opt → View → Option View
spec show v = none
spec hardware v = unless v.policy v
spec balancing v = unless v.policy v
spec (interleave s) v = set_policy_of_nodes v
spec (weighted_interleave s) v = set_policy_of_nodes v
spec (membind s) v = set_policy_of_nodes v
spec (preferred s) v = set_policy_of_nodes v
spec (preferred_many s) v = set_policy_of_nodes v
spec local v = set_policy v
spec (cpubind s) v = bind_cpus v
spec (physcpubind s) v = bind_cpus v
spec (shm s) v = attach_memory v
spec (file s) v = attach_memory v
spec (length s) v = name_setting v
spec (shmmode s) v = name_setting v
spec (offset s) v = name_setting v
spec huge v = name_setting v
spec dump v = needs_attached v
spec dump_nodes v = needs_attached v
spec touch v = needs_shm v
spec verify v = unless (not (v.shmattached && v.policy)) v
spec strict v = some v
spec (shmid s) v = some v
spec cpu_compress v = some v
spec all v = unless v.parsed v
spec version v = none
spec unknown v = none

abbrev pub then_spec : Option View → (View → Option View) → Option View
then_spec none s = none
then_spec (some v) s = s v

unfoldable pub spec_all : List Opt → View → Option View
spec_all [] v = some v
spec_all (o ∷ opts) v = then_spec (spec o v) (spec_all opts)

abbrev pub any : (Opt → Bool) → List Opt → Bool
any p [] = false
any p (o ∷ opts) = p o || any p opts

abbrev pub every : (Opt → Bool) → List Opt → Bool
every p [] = true
every p (o ∷ opts) = p o && every p opts

-- The view behind an option that is accepted.
abbrev pub Left : Opt → View → View → Type 0
Left o v w =
    (w.policy ≡ (is_policy o || v.policy))
    × (w.attached ≡ (attaches o || v.attached))
    × (w.shmattached ≡ (attaches o || v.shmattached))
    × (w.named ≡ (is_setting o || v.named))
    × (w.parsed ≡ (names_nodes o || v.parsed))
    × (w.bound ≡ (binds_cpus o || v.bound))
    × (w.dead ≡ v.dead)

pub spec-Left : (o : Opt) (v w : View) → spec o v ≡ some w → Left o v w
spec-Left show v w e = cc e
spec-Left _ v w e = ground arith

abbrev pub is_all : Opt → Bool
is_all all = true
is_all _ = false

-- What an option that is accepted needs of the view.
abbrev pub Needs : Opt → View → Type 0
Needs o v =
    ((is_policy o ≡ true) → v.policy ≡ false)
    × ((attaches o ≡ true) → v.policy || v.bound ≡ false)
    × ((is_setting o ≡ true) → v.shmattached ≡ false)
    × ((is_all o ≡ true) → v.parsed ≡ false)

pub spec-Needs : (o : Opt) (v w : View) → spec o v ≡ some w → Needs o v
spec-Needs show v w e = cc e
spec-Needs _ v w e = ground arith

pub then_spec-some :
    (m : Option View) (s : View → Option View) (w : View)
    → then_spec m s ≡ some w
    → (v : View) × (m ≡ some v) × (s v ≡ some w)
then_spec-some none s w e = cc e
then_spec-some (some v) s w e = (v, refl, e)

-- The view behind options that are accepted.
abbrev pub LeftAll : List Opt → View → View → Type 0
LeftAll opts v w =
    (w.policy ≡ (any is_policy opts || v.policy))
    × (w.attached ≡ (any attaches opts || v.attached))
    × (w.shmattached ≡ (any attaches opts || v.shmattached))
    × (w.named ≡ (any is_setting opts || v.named))
    × (w.parsed ≡ (any names_nodes opts || v.parsed))
    × (w.bound ≡ (any binds_cpus opts || v.bound))
    × (w.dead ≡ v.dead)

pub spec_all-LeftAll : (opts : List Opt) (v w : View) → spec_all opts v ≡ some w → LeftAll opts v w
unfolding spec_all
spec_all-LeftAll [] v w e =
    let same : v ≡ w = cc e in rw same (refl, refl, refl, refl, refl, refl, refl)
spec_all-LeftAll (o ∷ opts) v w e =
    let (u, first, rest) = then_spec-some (spec o v) (spec_all opts) w e in
    let l : Left o v u = spec-Left o v u first in
    let m = spec_all-LeftAll opts u w rest in ground (arith, l, m)

-- An option among those that are accepted, with those before it.
pub spec_all-append :
    (xs ys : List Opt) (v w : View)
    → spec_all (xs ++ ys) v ≡ some w
    → (u : View) × (spec_all xs v ≡ some u) × (spec_all ys u ≡ some w)
unfolding spec_all
spec_all-append [] ys v w e = (v, refl, e)
spec_all-append (x ∷ xs) ys v w e =
    let (u, first, rest) = then_spec-some (spec x v) (spec_all (xs ++ ys)) w e in
    let (t, before, after) = spec_all-append xs ys u w rest in
    (t, ap (λ m. then_spec m (spec_all xs)) first ∙ before, after)

-- The options that only set variables: neither the lists of nodes nor the kernel can refuse them.
abbrev pub is_plain : Opt → Bool
is_plain hardware = true
is_plain balancing = true
is_plain (length s) = true
is_plain (offset s) = true
is_plain huge = true
is_plain strict = true
is_plain all = true
is_plain cpu_compress = true
is_plain _ = false
