-- ===== src/Parse/Sound.antt =====
-- What a mask that the parsers return may hold.
use numactl.Base.{
  ℕ, zero, suc, ◌≡◌, ◌≢◌, ◌⊎◌, inl, inr, Bool, true, false, [], ◌∷◌, Option, none, some, Bytes,
  codes, str_eq, length, ◌==◌, arith, Bool-cases, ◌∙◌,
}
use mathlib.Core.Path.{subst}
use numactl.Base.Ints.{ℤ, is_neg}
use numactl.Bitmask.{Bitmask, IsValid, isbitset, bitmask_setbit}
use numactl.Bitmask.Abstract.{IsTidy}
use numactl.Bitmask.Copy.{copy_bitmask_to_bitmask, copy-IsValid, isbitset-copy}
use numactl.Text.{isalpha, first_byte}
use numactl.Libnuma.{State}
use numactl.Libnuma.Laws.{IsReady, IsFresh, allocate_nodemask_lem}
use numactl.Parse.Range.{bitmask_setbit_lem, set_range_lem}
use numactl.Parse.{
  Result, ok, refused, no_mask, exhausted, get_nr, range_to, parse_range, item_from, parse_item,
  after_item, is_affinity, nodes_loop, usable_node, flag, finish, parse_nodes_into,
  parse_nodestring_in,
}

-- A valid mask of `n` bits that holds no bit outside `allowed`.
pub record Within (allowed : Bitmask) (n : ℕ) (m : Bitmask) : Type 0 where
  pub valid : IsValid m
  pub sized : m.size ≡ n
  pub inside : (i : ℕ) → isbitset m i ≡ true → isbitset allowed i ≡ true

-- A result that is a mask is one within `allowed`.
abbrev pub ReturnsWithin : Bitmask → ℕ → Result Bitmask → Type 0
ReturnsWithin allowed n (ok m) = Within allowed n m
ReturnsWithin allowed n _ = Unit

abbrev ItemWithin : Bitmask → ℕ → Result (Bitmask × Bytes) → Type 0
ItemWithin allowed n (ok (m, s)) = Within allowed n m
ItemWithin allowed n _ = Unit

module _ (allowed : Bitmask) (relative : Bool) (n : ℕ) where
  range_to-Within :
      (arg : ℕ) (mask : Bitmask) (o : Option (ℕ × Bytes))
      → Within allowed n mask
      → ItemWithin allowed n (range_to (usable_node allowed) allowed relative arg mask o)
  unfolding range_to
  range_to-Within arg mask none w = tt
  range_to-Within arg mask (some (v, end)) w = elim (Bool-cases (usable_node allowed v)) [
    | inr bad ↦ rw bad tt
    | inl fine ↦
        let (v', z, bits) = set_range_lem allowed arg v mask w.valid in
        rw fine (record {
          valid = v';
          sized = z ∙ w.sized;
          inside = λ i h. ground (arith, bits i, w.inside i);
        })
  ]

  parse_range-Within :
      (arg : ℕ) (mask : Bitmask) (s : Bytes)
      → Within allowed n mask
      → ItemWithin allowed n (parse_range (usable_node allowed) allowed relative arg mask s)
  unfolding parse_range
  parse_range-Within arg mask [] w = w
  parse_range-Within arg mask (c ∷ s) w = elim (Bool-cases (c == b'-')) [
    | inl dash ↦ rw dash (range_to-Within arg mask (get_nr s allowed relative) w)
    | inr other ↦ rw other w
  ]

  item_from-Within :
      (mask : Bitmask) (o : Option (ℕ × Bytes))
      → Within allowed n mask
      → ItemWithin allowed n (item_from (usable_node allowed) allowed relative mask o)
  unfolding item_from
  item_from-Within mask none w = tt
  item_from-Within mask (some (arg, end)) w = elim (Bool-cases (usable_node allowed arg)) [
    | inr bad ↦ rw bad tt
    | inl fine ↦
        let (v', z, bits) = bitmask_setbit_lem mask arg w.valid in
        rw fine (
          parse_range-Within arg (bitmask_setbit mask arg) end (record {
            valid = v';
            sized = z ∙ w.sized;
            inside = λ i h. elim (cases i arg) [
              | inl e ↦ rw e (ground arith)
              | inr ne ↦ ground (arith, bits i, w.inside i)
            ];
          }))
  ]
    where
      cases : (x y : ℕ) → (x ≡ y) ⊎ (x ≢ y)
      cases x y = ground arith

  after_item-Within :
      (loop : Bitmask → Bytes → Result Bitmask) (r : Result (Bitmask × Bytes))
      → ((m : Bitmask) (s : Bytes) → Within allowed n m → ReturnsWithin allowed n (loop m s))
      → ItemWithin allowed n r
      → ReturnsWithin allowed n (after_item loop r)
  after_item-Within loop (ok (m, [])) ih w = w
  after_item-Within loop (ok (m, c ∷ s)) ih w = elim (Bool-cases (c == b',')) [
    | inl comma ↦ rw comma (ih m s w)
    | inr other ↦ rw other tt
  ]
  after_item-Within loop (refused r) ih w = tt
  after_item-Within loop no_mask ih w = tt
  after_item-Within loop exhausted ih w = tt

-- What is relied on of the lookup of devices: the nodes that it adds are allowed ones.
unfoldable pub KeepsWithin : (Bytes → Bitmask → ℤ × Bitmask) → Bitmask → ℕ → Type 0
KeepsWithin resolve allowed n =
    (s : Bytes) (m : Bitmask) → Within allowed n m → Within allowed n (resolve s m).1

module _ (resolve : Bytes → Bitmask → ℤ × Bitmask) (allowed : Bitmask) (n : ℕ) where
  module _ (keep : KeepsWithin resolve allowed n) (va : IsValid allowed) (ta : IsTidy allowed) where
    all-Within :
        (mask : Bitmask)
        → Within allowed n mask
        → Within allowed n (copy_bitmask_to_bitmask allowed mask)
    all-Within mask w =
        let (v, z) = copy-IsValid allowed mask va w.valid in
        record {
          valid = v;
          sized = z ∙ w.sized;
          inside = λ i h. ground (arith, isbitset-copy allowed mask i va w.valid ta);
        }

    nodes_loop-Within :
        (relative : Bool) (fuel : ℕ) (mask : Bitmask) (s : Bytes)
        → Within allowed n mask
        → ReturnsWithin allowed n (nodes_loop resolve allowed relative fuel mask s)
    unfolding nodes_loop parse_item KeepsWithin
    nodes_loop-Within relative zero mask s w = tt
    nodes_loop-Within relative (suc fuel) mask s w =
        let number =
          after_item-Within allowed relative n (nodes_loop resolve allowed relative fuel)
            (parse_item (usable_node allowed) allowed relative mask s)
            (λ m t h. nodes_loop-Within relative fuel m t h)
            (item_from-Within allowed relative n mask (get_nr s allowed relative) w) in
        elim (Bool-cases (isalpha (first_byte s))) [
          | inr numeric ↦ rw numeric number
          | inl letter ↦ rw letter (elim (Bool-cases (str_eq s (codes "all"))) [
            | inl all ↦ rw all (all-Within mask w)
            | inr name ↦ rw name (elim (Bool-cases (is_affinity (resolve s mask).0)) [
              | inr other ↦ rw other number
              | inl known ↦ rw known (elim (Bool-cases (is_neg (resolve s mask).0)) [
                | inl failed ↦ rw failed tt
                | inr found ↦ rw found (keep s mask w)
              ])
            ])
          ])
        ]

    parse_nodes_into-Within :
        (st : State) (c : ℕ) (s : Bytes) (mask : Bitmask)
        → (c == b'!') ≡ false
        → Within allowed n mask
        → ReturnsWithin allowed n (parse_nodes_into resolve st allowed (c ∷ s) mask)
    unfolding parse_nodes_into
    parse_nodes_into-Within st c s mask plain w = rw plain (
        kept (nodes_loop resolve allowed rel (suc (length s2)) mask s2)
          (nodes_loop-Within rel (suc (length s2)) mask s2 w))
      where
        rel : Bool
        rel = (flag b'+' (c ∷ s)).0

        s2 : Bytes
        s2 = (flag b'+' (c ∷ s)).1

        kept :
            (r : Result Bitmask)
            → ReturnsWithin allowed n r
            → ReturnsWithin allowed n (finish (λ m. m) r)
        kept (ok m) h = h
        kept (refused r) h = tt
        kept no_mask h = tt
        kept exhausted h = tt

IsFresh-Within : (allowed : Bitmask) (n : ℕ) (m : Bitmask) → IsFresh n m → Within allowed n m
IsFresh-Within allowed n m f = record {
  valid = f.valid;
  sized = f.sized;
  inside = λ i h. cc (f.empty i);
}

-- If the lookup of devices adds allowed nodes only, so does a list that does not begin with `!`: the mask that
-- `numa_parse_nodestring` returns is valid, of the kernel's size, and within the allowed nodes.
pub parse_nodestring-Within :
    (resolve : Bytes → Bitmask → ℤ × Bitmask) (st : State) (allowed : Bitmask) (c : ℕ) (s : Bytes)
    (m : Bitmask)
    → IsReady st
    → IsValid allowed
    → IsTidy allowed
    → KeepsWithin resolve allowed st.nodemask_sz
    → (c == b'!') ≡ false
    → parse_nodestring_in resolve st allowed (c ∷ s) ≡ ok m
    → Within allowed st.nodemask_sz m
unfolding parse_nodestring_in
parse_nodestring-Within resolve st allowed c s m ready va ta keep plain e =
    let (fresh, given, f) = allocate_nodemask_lem st ready in
    let e' : parse_nodes_into resolve st allowed (c ∷ s) fresh ≡ ok m =
      rw (given, parse_nodestring_in) at e in
    subst (ReturnsWithin allowed st.nodemask_sz) e' (
      parse_nodes_into-Within resolve allowed st.nodemask_sz keep va ta st c s fresh plain
        (IsFresh-Within allowed st.nodemask_sz fresh f))
