-- ===== src/SsTable/Read.antt =====
-- src/sstable.rs: point reads of a table, through the block cache, and the sequential iterator.
use lsm_storage_engine.Common.{
  ℕ, zero, suc, ◌+◌, ◌-◌, ◌/◌, Bool, false, not, ◌&&◌, Option, none, some, List, [], ◌∷◌, Ordering,
  ltb, ◌==◌, if◌then◌else◌, length, get_elem?,
}
use lsm_storage_engine.Common.Bytes.{Bytes, cmp, lt_bytes, le_bytes}
use lsm_storage_engine.Error.{Result, ok, err, ◌>>=◌}
use lsm_storage_engine.MemTable.{Entry}
use lsm_storage_engine.Files.{FilePath, Files}
use lsm_storage_engine.Cache.{BlockCache, BlockKey}
use lsm_storage_engine.Cache
use lsm_storage_engine.Bloom.{might_contain}
use lsm_storage_engine.SsTable.Format.{Entries, IndexEntry, decode_block}
use lsm_storage_engine.SsTable.Create.{SsTable}
use lsm_storage_engine.SsTable.Open.{open_file, read_exact}

-- `slice::binary_search_by` of the standard library, on the answers of the comparison at each place:
-- the middle of `left..right` is tried, with no more rounds than places.
unfoldable pub binary_search : ℕ → ℕ → ℕ → (ℕ → Ordering) → Option ℕ
binary_search zero left right c = none
binary_search (suc fuel) left right c =
    let mid = left + (right - left) / 2 in
    let above = binary_search fuel (mid + 1) right c in
    let below = binary_search fuel left mid c in
    if ltb left right
    then elim (c mid) [ Ordering.lt ↦ above | Ordering.gt ↦ below | Ordering.eq ↦ some mid ]
    else none

-- The answer of the search's closure for a row, and for an entry.
abbrev pub compare_row : Bytes → Option IndexEntry → Ordering
compare_row key none = Ordering.gt
compare_row key (some row) =
    if lt_bytes key row.first_key
    then Ordering.gt
    else if lt_bytes row.last_key key
    then Ordering.lt
    else Ordering.eq

abbrev pub compare_entry : Bytes → Option (Bytes × Entry) → Ordering
compare_entry key none = Ordering.gt
compare_entry key (some (k, e)) = cmp k key

abbrev pub entry_at : Option (Bytes × Entry) → Option Entry
entry_at none = none
entry_at (some (k, e)) = some e

unfoldable pub search_block : Entries → Bytes → Option Entry
unfolding binary_search
search_block block key =
    elim (binary_search (length block) 0 (length block)
      (λ i. compare_entry key (get_elem? block i))) [
        | none ↦ none
        | some i ↦ entry_at (get_elem? block i)
      ]

unfoldable pub block_for_key : Bytes → SsTable → Option ℕ
unfolding binary_search
block_for_key key t =
    binary_search (length t.index) 0 (length t.index) (λ i. compare_row key (get_elem? t.index i))

unfoldable pub contains_range : Bytes → SsTable → Bool
contains_range key t =
    if length t.smallest == 0 && (length t.largest == 0 && length t.index == 1)
    then false
    else le_bytes t.smallest key && le_bytes key t.largest

unfoldable pub bloom_might_contain : Bytes → SsTable → Bool
bloom_might_contain key t = might_contain key t.bloom

unfoldable pub set_level : ℕ → SsTable → SsTable
set_level level t = record t { level = level }

unfoldable pub read_data_block : FilePath → ℕ → ℕ → Files → Result Entries
unfolding open_file read_exact
read_data_block path offset len files = do
  contents ← open_file path files
  bytes ← read_exact offset len contents
  decode_block bytes

abbrev pub block_key : SsTable → IndexEntry → BlockKey
block_key t row = record { table_id = t.id; offset = row.offset }

-- The block is read and, if there is a cache, put into it.
abbrev pub load_missing :
    BlockKey → Result Entries → Option BlockCache → Result Entries × Option BlockCache
load_missing key (ok block) (some cache) = (ok block, some (Cache.insert key block cache))
load_missing key (ok block) none = (ok block, none)
load_missing key (err e) cache = (err e, cache)

-- `load_block` of a row of the index.
unfoldable pub load_block :
    IndexEntry → SsTable → Files → Option BlockCache → Result Entries × Option BlockCache
unfolding read_data_block
load_block row t files none =
    load_missing (block_key t row) (read_data_block t.path row.offset row.length files) none
load_block row t files (some cache) =
    let (found, cache') = Cache.get (block_key t row) cache in
    elim found [
      | some block ↦ (ok block, some cache')
      | none ↦
          load_missing (block_key t row) (read_data_block t.path row.offset row.length files)
            (some cache')
    ]

abbrev pub search_loaded :
    Bytes → Result Entries × Option BlockCache → Result (Option Entry) × Option BlockCache
search_loaded key (ok block, cache) = (ok (search_block block key), cache)
search_loaded key (err e, cache) = (err e, cache)

-- The row of an index that the search has found.
abbrev pub row_of : SsTable → Option ℕ → Option IndexEntry
row_of t none = none
row_of t (some i) = get_elem? t.index i

unfoldable pub get :
    Bytes → SsTable → Files → Option BlockCache → Result (Option Entry) × Option BlockCache
unfolding contains_range block_for_key load_block search_block
get key t files cache =
    let searched : Result (Option Entry) × Option BlockCache =
      elim (row_of t (block_for_key key t)) [
        | none ↦ (ok none, cache)
        | some row ↦ search_loaded key (load_block row t files cache)
      ] in
    if not (contains_range key t)
    then (ok none, cache)
    else if not (might_contain key t.bloom)
    then (ok none, cache)
    else searched

-- The iterator: the rows that are not read yet and the entries of the block that are left, in
-- place of the two positions.
pub record SsTableIterator : Type 0 where
  pub path : FilePath
  pub index : List IndexEntry
  pub current : Entries

unfoldable pub load_next_block : Files → SsTableIterator → Result (Unit {0}) × SsTableIterator
unfolding read_data_block
load_next_block files it = elim it.index [
  | [] ↦ (ok tt, record it { current = [] })
  | row ∷ index ↦ elim (read_data_block it.path row.offset row.length files) [
    | ok block ↦ (ok tt, record it { index = index; current = block })
    | err e ↦ (err e, record it { current = [] })
  ]
]

unfoldable pub new_iterator : Files → SsTable → Result SsTableIterator
unfolding load_next_block
new_iterator files t =
    let (result, it) =
      load_next_block files (record { path = t.path; index = t.index; current = [] }) in
    result >>= λ _. ok it

-- `Iterator::next`: blocks are loaded until one has an entry. Each round takes a row, so the rows
-- that are left, and one round more, are enough.
unfoldable pub next_loop :
    ℕ → Files → SsTableIterator → Option (Result (Bytes × Entry)) × SsTableIterator
unfolding load_next_block
next_loop zero files it = (none, it)
next_loop (suc fuel) files it =
    let rest = next_loop fuel files (load_next_block files it).1 in
    elim it.current [
      | item ∷ current ↦ (some (ok item), record it { current = current })
      | [] ↦ elim it.index [
        | [] ↦ (none, it)
        | row ∷ index ↦ elim ((load_next_block files it).0) [
          | ok _ ↦ rest
          | err e ↦ (some (err e), (load_next_block files it).1)
        ]
      ]
    ]

unfoldable pub next : Files → SsTableIterator → Option (Result (Bytes × Entry)) × SsTableIterator
unfolding next_loop
next files it = next_loop (suc (length it.index)) files it
