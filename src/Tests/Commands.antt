-- ===== src/Tests/Commands.antt =====
-- The theorems on numactl's shared memory and numastat's hash table at concrete arguments.
use numactl.Base.{ℕ, ◌≡◌, refl, [], ◌∷◌, Option, some, none, Bytes, codes, arith, get_or-replicate}
use numactl.Base.Ints.{pos}
use numactl.Bitmask.{Bitmask, isbitset, getbit}
use numactl.Numastat.{HashEntry, HashTable, init_hash_table, hash_insert, hash_lookup}
use numactl.Numastat.Hash.{IsNew, hash_lookup-hash_insert}
use numactl.Shm.{interleave_next}
use numactl.Shm.Interleave.{NextFrom, interleave_next-NextFrom, interleave_next_last}
use numactl.Tests.Masks.{eight}
use numactl.Tests.Strings.{machine}

interleave_next-NextFrom_example :
    (k : ℕ) × (interleave_next 17 machine 3 eight ≡ some k) × NextFrom eight 8 4 k
unfolding isbitset getbit
interleave_next-NextFrom_example =
    interleave_next-NextFrom machine 17 3 eight (omega arith) (omega arith) (omega arith)
      (0, omega arith, refl)

-- The nodes 0 and 1 of 8.
abbrev low : Bitmask
low = record { size = 8; maskp = 3 ∷ [] }

interleave_next_last_example : interleave_next 2 machine 7 low ≡ some 1
unfolding isbitset getbit
interleave_next_last_example =
    interleave_next_last machine 0 7 low refl (omega arith) (omega arith) (omega arith) refl

init_hash_table-IsNew : (s : Bytes) → IsNew s init_hash_table
init_hash_table-IsNew s ix e h =
    absurd (cc (h, get_or-replicate {A = Option HashEntry} 151 ix none))

hash_lookup-hash_insert_example :
    (ix : ℕ) × (table : HashTable) × (hash_insert 302 (codes "huge") (pos 0) init_hash_table
      ≡ some (ix, table))
    × (hash_lookup 302 (codes "huge") table ≡ some (pos 0))
hash_lookup-hash_insert_example =
    hash_lookup-hash_insert 302 0 (codes "huge") (pos 0) init_hash_table refl refl (omega arith)
      (init_hash_table-IsNew (codes "huge")) (omega arith)
