-- ===== src/Cache/Examples.antt =====
-- Runs of src/cache.rs, its unit tests among them.
use lsm_storage_engine.Common.{ℕ, ◌≤◌, ◌≡◌, refl, arith, none, some, [], ◌∷◌, if◌then◌else◌}
use lsm_storage_engine.Common.Bytes.{Bytes}
use lsm_storage_engine.MemTable.{value}
use lsm_storage_engine.Cache.{
  BlockKey, BlockData, BlockCache, same_key, new, get, insert, find, store, discard, remove_first,
  touch, evict, evict_to_fit, block_size,
}
use lsm_storage_engine.Cache.Bounded.{
  IsValid, new-IsValid, insert-IsValid, get-insert_self, get-insert_hit,
}

program : Unit {0}
unfolding new get insert find store discard remove_first touch evict evict_to_fit block_size
program = tt

abbrev four : ℕ → Bytes
four b = b ∷ b ∷ b ∷ b ∷ []

abbrev first : BlockKey
first = record { table_id = 1; offset = 0 }

abbrev second : BlockKey
second = record { table_id = 1; offset = 64 }

abbrev block_a : BlockData
block_a = (four b'a', value (four b'1')) ∷ []

abbrev block_b : BlockData
block_b = (four b'b', value (four b'2')) ∷ []

abbrev one : BlockCache
one = insert first block_a (new 8)

-- `cache_evicts_when_over_capacity`
evicts :
    ((get first (insert second block_b one)).0 ≡ none)
    × ((get second (insert second block_b one)).0 ≡ some block_b)
unfolding program
evicts = (refl, refl)

one-IsValid : IsValid one
one-IsValid = (insert-IsValid first block_a (new 8) (new-IsValid 8)).0

bound : one.max_bytes ≡ 8
unfolding program
bound = refl

insert-IsValid_example :
    IsValid (insert second block_b one)
    × ((insert second block_b one).current_bytes ≤ one.max_bytes)
insert-IsValid_example = insert-IsValid second block_b one one-IsValid

fits : block_size block_b ≤ one.max_bytes
unfolding program
fits = omega arith

get-insert_self_example : (get second (insert second block_b one)).0 ≡ some block_b
get-insert_self_example = get-insert_self second block_b one one-IsValid fits

get-insert_hit_example :
    (if same_key second second then some block_b else (get second one).0) ≡ some block_b
get-insert_hit_example = get-insert_hit second second block_b block_b one get-insert_self_example
