-- ===== src/MemTable/Laws.antt =====
-- The memtable of src/memtable.rs: what a write changes, the order of the keys, and the estimate.
use lsm_storage_engine.Common.{
  ℕ, ◌+◌, ◌≤◌, ◌≡◌, arith, none, some, List, [], ◌∷◌, length, if◌then◌else◌, Option-cases, inl, inr,
}
use lsm_storage_engine.Common.Bytes.{Bytes, eq_bytes, eq_of_cmp}
use lsm_storage_engine.Common.SortedMap
use lsm_storage_engine.Common.SortedMap.{lookup, IsSorted, lookup-insert, insert-IsSorted}
use lsm_storage_engine.MemTable.{Entry, value_len, MemTable, insert, get}

-- The bytes of all keys and values.
unfoldable pub total_size : List (Bytes × Entry) → ℕ
total_size [] = 0
total_size ((k, e) ∷ m) = length k + value_len e + total_size m

pub record IsExact (table : MemTable) : Type 0 where
  pub sorted : IsSorted table.entries
  pub size : table.approximate_size ≡ total_size table.entries

value_len-le-total :
    (k : Bytes) (m : List (Bytes × Entry)) (e : Entry)
    → lookup k m ≡ some e
    → value_len e ≤ total_size m
unfolding lookup total_size
value_len-le-total k [] e h = cc
value_len-le-total k ((j, f) ∷ m) e h = ground (arith, value_len-le-total k m e)

-- A new key adds its bytes and those of its value.
total_size-insert_new :
    (k : Bytes) (e : Entry) (m : List (Bytes × Entry))
    → lookup k m ≡ none
    → total_size (SortedMap.insert k e m) ≡ total_size m + (length k + value_len e)
unfolding lookup total_size SortedMap.insert
total_size-insert_new k e [] h = omega arith
total_size-insert_new k e ((j, f) ∷ m) h = ground (arith, total_size-insert_new k e m)

-- A key that is there changes its value alone.
total_size-insert_old :
    (k : Bytes) (e : Entry) (m : List (Bytes × Entry)) (previous : Entry)
    → IsSorted m
    → lookup k m ≡ some previous
    → total_size (SortedMap.insert k e m) + value_len previous ≡ total_size m + value_len e
unfolding lookup total_size SortedMap.insert
total_size-insert_old k e [] p s h = cc
total_size-insert_old k e ((j, f) ∷ m) p (above, s) h = ground (
  arith,
  eq_of_cmp k j,
  SortedMap.lookup-Above k m,
  SortedMap.Above-lt k j m,
  total_size-insert_old k e m p s,
)

-- What `insert` subtracts from the estimate is never more than the estimate.
pub value_len-le-size :
    (table : MemTable) (key : Bytes) (previous : Entry)
    → IsExact table
    → get table key ≡ some previous
    → value_len previous ≤ table.approximate_size
unfolding get
value_len-le-size table key previous v h =
    rw v.size (value_len-le-total key table.entries previous h)

size-insert :
    (table : MemTable) (key : Bytes) (entry : Entry)
    → IsExact table
    → (insert table key entry).approximate_size
      ≡ total_size (SortedMap.insert key entry table.entries)
unfolding insert
size-insert table key entry v = elim (Option-cases (lookup key table.entries)) [
  | inl new_key ↦
      rw (new_key, insert)
        (omega (arith, total_size-insert_new key entry table.entries new_key, v.size))
  | inr (previous, old) ↦
      rw (old, insert)
        (omega (
          arith,
          total_size-insert_old key entry table.entries previous v.sorted old,
          value_len-le-total key table.entries previous old,
          v.size,
        ))
]

-- Every write keeps the keys sorted and the estimate exact.
pub insert-IsExact :
    (table : MemTable) (key : Bytes) (entry : Entry)
    → IsExact table
    → IsExact (insert table key entry)
unfolding insert
insert-IsExact table key entry v = record {
  sorted = insert-IsSorted key entry table.entries v.sorted;
  size = size-insert table key entry v;
}

-- A read after a write sees the write at its key, and what was there before at every other key.
pub get-insert :
    (table : MemTable) (key other : Bytes) (entry : Entry)
    → get (insert table key entry) other
      ≡ (if eq_bytes other key then some entry else get table other)
unfolding insert get
get-insert table key other entry = lookup-insert key other entry table.entries
