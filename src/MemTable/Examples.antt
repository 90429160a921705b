-- ===== src/MemTable/Examples.antt =====
-- Runs of src/memtable.rs, its unit tests among them.
use lsm_storage_engine.Common.{◌≡◌, refl, some, [], ◌∷◌}
use lsm_storage_engine.Common.Bytes.{Bytes, cmp}
use lsm_storage_engine.Common.SortedMap
use lsm_storage_engine.Common.SortedMap.{lookup}
use lsm_storage_engine.MemTable.{value, tombstone, MemTable, new, insert, put, delete, get}
use lsm_storage_engine.MemTable.Laws.{IsExact, total_size, insert-IsExact}

abbrev name : Bytes
name = b'n' ∷ b'a' ∷ b'm' ∷ b'e' ∷ []

abbrev srijan : Bytes
srijan = b'S' ∷ b'r' ∷ b'i' ∷ b'j' ∷ b'a' ∷ b'n' ∷ []

abbrev one : MemTable
one = record { entries = (name, value srijan) ∷ []; approximate_size = 10 }

-- `approximate_size_is_updated_correctly`, `delete_creates_a_tombstone`
sizes : (put new name srijan ≡ one) × ((delete one name).approximate_size ≡ 4)
unfolding put delete insert lookup SortedMap.insert cmp
sizes = (refl, refl)

one-IsExact : IsExact one
unfolding total_size
one-IsExact = record { sorted = (tt, tt); size = refl }

insert-IsExact_example : IsExact (insert one (b'a' ∷ []) tombstone)
insert-IsExact_example = insert-IsExact one (b'a' ∷ []) tombstone one-IsExact

got : get one name ≡ some (value srijan)
unfolding get lookup cmp
got = refl
