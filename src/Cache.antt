-- ===== src/Cache.antt =====
-- src/cache.rs: the bounded cache of decoded blocks, least recently used first out. The hash map is
-- an association list, and the queue `order` has its front at the head.
pub mod Map
pub mod Bounded
mod Examples
use lsm_storage_engine.Common.{
  ℕ, ◌+◌, ◌-◌, Bool, true, false, ◌&&◌, Option, none, some, List, [], ◌∷◌, ◌++◌, ltb, ◌==◌,
  if◌then◌else◌, length,
}
use lsm_storage_engine.Common.Bytes.{Bytes}
use lsm_storage_engine.MemTable.{Entry, value_len}

pub record BlockKey : Type 0 where
  pub table_id : ℕ
  pub offset : ℕ

abbrev pub same_key : BlockKey → BlockKey → Bool
same_key a b = a.table_id == b.table_id && a.offset == b.offset

abbrev pub BlockData : Type 0
BlockData = List (Bytes × Entry)

abbrev pub BlockMap : Type 0
BlockMap = List (BlockKey × BlockData)

abbrev pub data_len : BlockData → ℕ
data_len [] = 0
data_len ((k, e) ∷ block) = length k + value_len e + data_len block

-- `.sum().max(1)`
unfoldable pub block_size : BlockData → ℕ
block_size block = if ltb (data_len block) 1 then 1 else data_len block

unfoldable pub find : BlockKey → BlockMap → Option BlockData
find k [] = none
find k ((j, b) ∷ m) = if same_key j k then some b else find k m

-- `HashMap::insert`: the value is replaced, or the pair is new.
unfoldable pub store : BlockKey → BlockData → BlockMap → BlockMap
store k b [] = (k, b) ∷ []
store k b ((j, c) ∷ m) =
    let rest = store k b m in if same_key j k then (j, b) ∷ m else (j, c) ∷ rest

-- `HashMap::remove`
unfoldable pub discard : BlockKey → BlockMap → BlockMap
discard k [] = []
discard k ((j, b) ∷ m) = let rest = discard k m in if same_key j k then rest else (j, b) ∷ rest

pub record BlockCache : Type 0 where
  pub map : BlockMap
  pub order : List BlockKey
  pub current_bytes : ℕ
  pub max_bytes : ℕ
  pub hits : ℕ
  pub misses : ℕ

unfoldable pub new : ℕ → BlockCache
new max_bytes = record {
  map = [];
  order = [];
  current_bytes = 0;
  max_bytes = if ltb max_bytes 1 then 1 else max_bytes;
  hits = 0;
  misses = 0;
}

-- `position` and `remove` in `touch`: the first place of the key goes, if it has one.
unfoldable pub remove_first : BlockKey → List BlockKey → List BlockKey
remove_first k [] = []
remove_first k (j ∷ order) =
    let rest = remove_first k order in if same_key j k then order else j ∷ rest

unfoldable pub touch : BlockKey → List BlockKey → List BlockKey
unfolding remove_first
touch k order = remove_first k order ++ k ∷ []

unfoldable pub get : BlockKey → BlockCache → Option BlockData × BlockCache
get k c = elim (find k c.map) [
  | some block ↦ (some block, record c { hits = c.hits + 1; order = touch k c.order })
  | none ↦ (none, record c { misses = c.misses + 1 })
]

-- The fields that the loop of `evict_to_fit` changes.
pub record Held : Type 0 where
  pub order : List BlockKey
  pub map : BlockMap
  pub bytes : ℕ

-- `saturating_sub` is the subtraction of the natural numbers.
abbrev pub after_removal : ℕ → Option BlockData → ℕ
after_removal bytes none = bytes
after_removal bytes (some block) = bytes - block_size block

-- The loop of `evict_to_fit` over the queue, which ends it when it is empty.
unfoldable pub evict : ℕ → List BlockKey → BlockMap → ℕ → Held
evict max_bytes [] map bytes = record { order = []; map = map; bytes = bytes }
evict max_bytes (oldest ∷ order) map bytes =
    let rest = evict max_bytes order (discard oldest map) (after_removal bytes (find oldest map)) in
    if ltb max_bytes bytes
    then rest
    else record { order = oldest ∷ order; map = map; bytes = bytes }

unfoldable pub evict_to_fit : BlockCache → BlockCache
evict_to_fit c =
    let held = evict c.max_bytes c.order c.map c.current_bytes in
    record c { map = held.map; order = held.order; current_bytes = held.bytes }

-- The queue and the count of bytes after `map.insert`, by what the map held before.
abbrev pub queued : BlockKey → Option BlockData → List BlockKey → List BlockKey
queued k none order = order ++ k ∷ []
queued k (some previous) order = touch k order

abbrev pub counted : Option BlockData → ℕ → ℕ
counted none bytes = bytes
counted (some previous) bytes = bytes - block_size previous

unfoldable pub insert : BlockKey → BlockData → BlockCache → BlockCache
insert k block c =
    let previous = find k c.map in
    evict_to_fit (record c {
      map = store k block c.map;
      order = queued k previous c.order;
      current_bytes = counted previous c.current_bytes + block_size block;
    })

unfoldable pub len : BlockCache → ℕ
len c = length c.map

unfoldable pub is_empty : BlockCache → Bool
is_empty c = length c.map == 0
