-- ===== src/Numastat.antt =====
-- numastat.c: the hash table from the names of memory categories to their rows.
use numactl.Base.{
  ℕ, zero, suc, ◌+◌, ◌*◌, ◌%◌, ◌^◌, Bool, true, false, not, List, [], ◌∷◌, Option, some, none,
  Bytes, leb, if◌then◌else◌, get_or, set, replicate, str_eq,
}
use numactl.Base.Ints.{ℤ, pos, negsuc, minus_one}
pub mod Hash
pub mod Maps
pub mod Nodes
pub mod Pids
pub mod Process
pub mod Selection
pub mod SystemFile
pub mod Commands
pub mod Table
pub mod Display

-- `HASH_TABLE_SIZE`
abbrev pub hash_table_size : ℕ
hash_table_size = 151

-- `struct hash_entry`, with a name.
pub record HashEntry : Type 0 where
  pub name : Bytes
  pub index : ℤ

-- `hash_table`; `none` is an entry whose name is NULL.
abbrev pub HashTable : Type 0
HashTable = List (Option HashEntry)

-- `init_hash_table`
abbrev pub init_hash_table : HashTable
init_hash_table = replicate hash_table_size none

-- `h = ((h << 5) + h) + *s++` for an `unsigned`; the characters are below 128.
unfoldable pub hash_from : ℕ → Bytes → ℕ
hash_from h [] = h % hash_table_size
hash_from h (c ∷ s) = hash_from ((h * 2 ^ 5 % 2 ^ 32 + h + c) % 2 ^ 32) s

-- `hash_ix`
unfoldable pub hash_ix : Bytes → ℕ
hash_ix s = hash_from 17 s

-- `ix += 1; if (ix >= HASH_TABLE_SIZE) ix = 0;`
abbrev pub next_ix : ℕ → ℕ
next_ix ix = if leb hash_table_size (ix + 1) then 0 else ix + 1

-- The loop of `hash_lookup`; `none` is out of fuel.
unfoldable pub lookup_from : ℕ → ℕ → Bytes → HashTable → Option ℤ
lookup_from zero ix s table = none
lookup_from (suc fuel) ix s table =
    let later = lookup_from fuel (next_ix ix) s table in
    elim (get_or table ix none) [
      | none ↦ some minus_one
      | some e ↦ if str_eq s e.name then some e.index else later
    ]

-- `hash_lookup`
unfoldable pub hash_lookup : ℕ → Bytes → HashTable → Option ℤ
hash_lookup fuel s table = lookup_from fuel (hash_ix s) s table

-- The loop of `hash_insert`: the first blank entry from `ix` on.
unfoldable pub blank_from : ℕ → ℕ → HashTable → Option ℕ
blank_from zero ix table = none
blank_from (suc fuel) ix table =
    let later = blank_from fuel (next_ix ix) table in
    elim (get_or table ix none) [ none ↦ some ix | some e ↦ later ]

abbrev pub put : Bytes → ℤ → HashTable → Option ℕ → Option (ℕ × HashTable)
put s i table none = none
put s i table (some ix) = some (ix, set table ix (some (record { name = s; index = i })))

-- `hash_insert`: the index of the entry, and the table.
unfoldable pub hash_insert : ℕ → Bytes → ℤ → HashTable → Option (ℕ × HashTable)
hash_insert fuel s i table = put s i table (blank_from fuel (hash_ix s) table)
