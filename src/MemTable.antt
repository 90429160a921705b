-- ===== src/MemTable.antt =====
-- src/memtable.rs: the sorted table of the newest writes, and the running estimate of its size.
pub mod Laws
mod Examples
use lsm_storage_engine.Common.{
  ℕ, ◌+◌, ◌-◌, Bool, true, false, Option, none, some, List, [], ◌∷◌, length,
}
use lsm_storage_engine.Common.Bytes.{Bytes}
use lsm_storage_engine.Common.SortedMap.{lookup}
use lsm_storage_engine.Common.SortedMap

pub data Entry : Type 0 where
  value : Bytes → Entry
  tombstone : Entry

abbrev pub value_len : Entry → ℕ
value_len (value v) = length v
value_len tombstone = 0

pub record MemTable : Type 0 where
  pub entries : List (Bytes × Entry)
  pub approximate_size : ℕ

abbrev pub new : MemTable
new = record { entries = []; approximate_size = 0 }

-- The private `insert` that `put` and `delete` call. A `usize` never goes below 0 here: see
-- `MemTable.Laws`.
unfoldable pub insert : MemTable → Bytes → Entry → MemTable
insert table key entry = record {
  entries = SortedMap.insert key entry table.entries;
  approximate_size = elim (lookup key table.entries) [
    | some previous ↦ table.approximate_size - value_len previous + value_len entry
    | none ↦ table.approximate_size + (length key + value_len entry)
  ];
}

unfoldable pub put : MemTable → Bytes → Bytes → MemTable
unfolding insert
put table key v = insert table key (value v)

unfoldable pub delete : MemTable → Bytes → MemTable
unfolding insert
delete table key = insert table key tombstone

unfoldable pub get : MemTable → Bytes → Option Entry
get table key = lookup key table.entries

abbrev is_some {ℓ} : {A : Type ℓ} → Option A → Bool
is_some none = false
is_some (some a) = true

unfoldable pub contains_key : MemTable → Bytes → Bool
contains_key table key = is_some (lookup key table.entries)

unfoldable pub len : MemTable → ℕ
len table = length table.entries

unfoldable pub is_empty : MemTable → Bool
is_empty table = elim table.entries [ [] ↦ true | x ∷ r ↦ false ]

unfoldable pub clear : MemTable → MemTable
clear table = record { entries = []; approximate_size = 0 }

-- `iter` and `into_iter`: the pairs by rising key.
abbrev pub iter : MemTable → List (Bytes × Entry)
iter table = table.entries
