-- ===== src/Sysfs/Laws.antt =====
-- sysfs.c: what `sysfs_node_read` adds to a mask.
use numactl.Base.{
  ℕ, zero, suc, ◌^◌, ◌≤◌, ◌<◌, ◌≡◌, ◌≢◌, refl, ap, ◌∙◌, ◌⊎◌, inl, inr, Bool, true, false, not, [],
  ◌∷◌, ◌++◌, Option, some, none, Bytes, ◌==◌, if◌then◌else◌, length, take, arith, length-append,
  Bool-cases,
}
use numactl.Base.Ints.{ℤ, pos, negsuc, minus_one, is_neg, to_i32, pos_part}
use numactl.Bitmask.{Bitmask, IsValid, isbitset, bitmask_setbit}
use numactl.Parse.Range.{bitmask_setbit_lem}
use numactl.Sysfs.{
  skip_separators, reaches, node_read, read_nodes, read_buffer, sysfs_read, sysfs_node_read,
}
use numactl.Text.{isdigit, first_byte, strtol, skip_space, decimal}
use numactl.Text.Strtoul.{length-strtol, strtol-strtoul}
use numactl.Text.Decimal.{strtoul-decimal, length-decimal, first_byte-decimal}

-- The mask behind a lookup: as wide as before, with the bits that it had, and others for nodes that
-- the test `fits` lets pass.
pub record Adds (fits : ℕ → Bool) (mask mask' : Bitmask) : Type 0 where
  pub valid : IsValid mask'
  pub sized : mask'.size ≡ mask.size
  pub kept : (i : ℕ) → isbitset mask i ≡ true → isbitset mask' i ≡ true
  pub added : (i : ℕ) → isbitset mask' i ≡ true → isbitset mask i ≡ false → fits i ≡ true

pub Adds-nothing : (fits : ℕ → Bool) (mask : Bitmask) → IsValid mask → Adds fits mask mask
Adds-nothing fits mask v = record {
  valid = v;
  sized = refl;
  kept = λ i h. h;
  added = λ i h n. cc (h, n);
}

equal_or : (x y : ℕ) → (x ≡ y) ⊎ (x ≢ y)
equal_or x y = ground arith

pub Adds-bit :
    (fits : ℕ → Bool) (mask mask' : Bitmask) (n : ℕ)
    → fits n ≡ true
    → IsValid mask
    → Adds fits (bitmask_setbit mask n) mask'
    → Adds fits mask mask'
Adds-bit fits mask mask' n f v later =
    let (w, z, bits) = bitmask_setbit_lem mask n v in
    record {
      valid = later.valid;
      sized = later.sized ∙ z;
      kept = λ i h. later.kept i (ground (arith, bits i));
      added = λ i h a. elim (equal_or i n) [
        | inl e ↦ rw e f
        | inr ne ↦ later.added i h (ground (arith, bits i))
      ];
    }

-- A result with a mask, and a number from -2 to 0.
abbrev pub Reads : ℤ → Bitmask → Option (ℤ × Bitmask) → Type 0
Reads tasks mask r =
    (n : ℤ) × (mask' : Bitmask) × (r ≡ some (n, mask'))
    × Adds (λ i. not (reaches i tasks)) mask mask'

length-skip_separators : (s : Bytes) → length (skip_separators s) ≤ length s
unfolding skip_separators
length-skip_separators [] = omega arith
length-skip_separators (c ∷ s) = ground (arith, length-skip_separators s)

node_read-Reads :
    (tasks : ℤ) (loop : Bitmask → Bytes → Option (ℤ × Bitmask)) (mask : Bitmask)
    (r : Option (ℕ × Bytes)) (bound : ℕ)
    → IsValid mask
    → ((v : ℕ) (end : Bytes) → r ≡ some (v, end) → length end < bound)
    → ((m : Bitmask) (s : Bytes) → IsValid m → length s < bound → Reads tasks m (loop m s))
    → Reads tasks mask (node_read tasks loop mask r)
node_read-Reads tasks loop mask none bound v shorter ih =
    (minus_one, mask, refl, Adds-nothing _ mask v)
node_read-Reads tasks loop mask (some (n, end)) bound v shorter ih =
    elim (Bool-cases (is_neg (to_i32 n))) [
      | inl g ↦ rw g (negsuc 1, mask, refl, Adds-nothing _ mask v)
      | inr g ↦ rw g (elim (Bool-cases (reaches (pos_part (to_i32 n)) tasks)) [
        | inl r ↦ rw r (minus_one, mask, refl, Adds-nothing _ mask v)
        | inr r ↦
            let fine : not (reaches (pos_part (to_i32 n)) tasks) ≡ true = ap not r in
            let set = bitmask_setbit_lem mask (pos_part (to_i32 n)) v in
            rw r (elim (Bool-cases (isdigit (first_byte (skip_separators end)))) [
              | inl d ↦
                  let short = shorter n end refl in
                  let skip = length-skip_separators end in
                  let (k, mask', e, adds) =
                    ih (bitmask_setbit mask (pos_part (to_i32 n))) (skip_separators end) (set.0)
                      (omega (arith, short, skip)) in
                  rw d (k, mask', e, Adds-bit _ mask mask' _ fine v adds)
              | inr d ↦ rw d (
                pos 0,
                bitmask_setbit mask (pos_part (to_i32 n)),
                refl,
                Adds-bit _ mask _ _ fine v (Adds-nothing _ _ (set.0)),
              )
            ])
      ])
    ]

read_nodes-Reads :
    (fuel : ℕ) (tasks : ℤ) (mask : Bitmask) (s : Bytes)
    → IsValid mask
    → length s < fuel
    → Reads tasks mask (read_nodes fuel tasks mask s)
unfolding read_nodes
read_nodes-Reads zero tasks mask s v h = absurd (omega (arith, h))
read_nodes-Reads (suc fuel) tasks mask s v h =
    node_read-Reads tasks (read_nodes fuel tasks) mask (strtol 0 s) fuel v
      (λ n end e. let l = length-strtol 0 s e in omega (arith, l, h))
      (λ m t w l. read_nodes-Reads fuel tasks m t w l)

-- `sysfs_node_read` ends, whatever the file holds. It leaves a valid mask of the same size, with the
-- bits that it had, and what it adds are numbers below the count of the task's nodes.
pub sysfs_node_read-Reads :
    (tasks : ℤ) (mask : Bitmask) (file : Option Bytes)
    → IsValid mask
    → Reads tasks mask (sysfs_node_read tasks mask file)
unfolding sysfs_node_read
sysfs_node_read-Reads tasks mask none v = (minus_one, mask, refl, Adds-nothing _ mask v)
sysfs_node_read-Reads tasks mask (some []) v = (minus_one, mask, refl, Adds-nothing _ mask v)
sysfs_node_read-Reads tasks mask (some (c ∷ s)) v =
    read_nodes-Reads (suc (length (take 4095 (c ∷ s)))) tasks mask (take 4095 (c ∷ s)) v
      (omega arith)

take_all : (n : ℕ) (s : Bytes) → length s ≤ n → take n s ≡ s
take_all zero [] h = refl
take_all zero (c ∷ s) h = absurd (omega (arith, h))
take_all (suc n) [] h = refl
take_all (suc n) (c ∷ s) h = ap (λ x. c ∷ x) (take_all n s (omega (arith, h)))

-- The file of a device, as the kernel writes it.
abbrev pub numa_node_file : ℕ → Bytes
numa_node_file n = decimal n ++ (b'\n' ∷ [])

plain_digit :
    (s : Bytes) → isdigit (first_byte s) ≡ true → (first_byte (skip_space s) == b'-') ≡ false
unfolding skip_space
plain_digit [] h = refl
plain_digit (c ∷ s) h = ground arith

strtol-numa_node_file : (n : ℕ) → n < 2 ^ 31 → strtol 0 (numa_node_file n) ≡ some (n, b'\n' ∷ [])
strtol-numa_node_file n h =
    strtol-strtoul 0 (numa_node_file n) (plain_digit _ (first_byte-decimal n (b'\n' ∷ [])))
      (omega (arith, h)) (strtoul-decimal n (b'\n' ∷ []) (omega (arith, h)) (refl, refl))

to_i32_small : (n : ℕ) → n < 2 ^ 31 → to_i32 n ≡ pos n
to_i32_small n h = ground arith

node_read_last :
    (tasks : ℤ) (loop : Bitmask → Bytes → Option (ℤ × Bitmask)) (mask : Bitmask) (n : ℕ)
    → n < 2 ^ 31
    → node_read tasks loop mask (some (n, b'\n' ∷ []))
      ≡ some (if reaches n tasks then (minus_one, mask) else (pos 0, bitmask_setbit mask n))
unfolding skip_separators
node_read_last tasks loop mask n h = rw (to_i32_small n h) (branch (reaches n tasks))
  where
    branch :
        (b : Bool)
        → ◌≡◌ {A = Option (ℤ × Bitmask)}
            (if b then some (minus_one, mask) else some (pos 0, bitmask_setbit mask n))
            (some (if b then (minus_one, mask) else (pos 0, bitmask_setbit mask n)))
    branch true = refl
    branch false = refl

sysfs_read_all :
    (s : Bytes) → isdigit (first_byte s) ≡ true → length s ≤ 4095 → sysfs_read (some s) ≡ some s
sysfs_read_all [] d h = cc d
sysfs_read_all (c ∷ s) d h = ap some (take_all 4095 (c ∷ s) h)

numa_node_file_short : (n : ℕ) → n < 2 ^ 31 → length (numa_node_file n) ≤ 4095
numa_node_file_short n h =
    let l = length-decimal 9 n (omega (arith, h)) in
    let e = length-append (decimal n) (b'\n' ∷ []) in omega (arith, l, e)

-- Where the file of a device has one number, as the kernel writes it, below 2^31, `sysfs_node_read`
-- adds that node, but only if the number is below the count of the task's nodes: any other is
-- refused, also one that the task is allowed to use.
pub sysfs_node_read-numa_node_file :
    (tasks : ℤ) (mask : Bitmask) (n : ℕ)
    → n < 2 ^ 31
    → sysfs_node_read tasks mask (some (numa_node_file n))
      ≡ some (if reaches n tasks then (minus_one, mask) else (pos 0, bitmask_setbit mask n))
unfolding sysfs_node_read read_nodes
sysfs_node_read-numa_node_file tasks mask n h =
    let digit = first_byte-decimal n (b'\n' ∷ []) in
    ap (read_buffer tasks mask) (sysfs_read_all (numa_node_file n) digit (numa_node_file_short n h))
    ∙ ap (node_read tasks (read_nodes (length (numa_node_file n)) tasks) mask)
        (strtol-numa_node_file n h)
    ∙ node_read_last tasks (read_nodes (length (numa_node_file n)) tasks) mask n h
