-- ===== src/Compaction/Examples.antt =====
-- Runs of the merge of src/compaction.rs on iterators over lists, its unit tests among them.
use lsm_storage_engine.Common.{◌≡◌, refl, arith, true, false, Option, none, some, [], ◌∷◌}
use lsm_storage_engine.Common.Bytes.{Bytes, cmp}
use lsm_storage_engine.Common.SortedMap.{lookup}
use lsm_storage_engine.Error.{Result, ok}
use lsm_storage_engine.MemTable.{value, tombstone}
use lsm_storage_engine.SsTable.Format.{Entries}
use lsm_storage_engine.Compaction.{
  Item, push, pop_same, emit, advance, first_heads, heap_of, winner, advance_all, merge_loop, merge,
}
use lsm_storage_engine.Crc.{crc32}
use lsm_storage_engine.Files.{Files, read_file}
use lsm_storage_engine.SsTable.Format.{
  IndexEntry, flush_data_block, encode_entry, entry_of, read_entries, decode_block,
}
use lsm_storage_engine.SsTable.Create.{SsTable}
use lsm_storage_engine.SsTable.Open.{open_file, read_exact}
use lsm_storage_engine.SsTable.Read.{read_data_block}
use lsm_storage_engine.SsTable.Blocks.{encode_entries}
use lsm_storage_engine.SsTable.Iterate.{RowsRead, flat, Iterating, new_iterator-Iterating}
use lsm_storage_engine.Compaction.{merge_tables}
use lsm_storage_engine.Compaction.Tables.{flats, merge_tables-IsMerge}
use lsm_storage_engine.Compaction.Newest.{newest, visible, AllSorted}
use lsm_storage_engine.Compaction.Correct.{Merged, merge-IsMerge}

program : Unit {0}
unfolding push pop_same emit advance first_heads heap_of winner advance_all merge_loop merge cmp
    lookup newest visible crc32 read_file flush_data_block encode_entry entry_of read_entries
    decode_block open_file read_exact read_data_block encode_entries
program = tt

-- An iterator over a list.
abbrev list_step : Entries → Option (Result Item) × Entries
list_step [] = (none, [])
list_step (x ∷ l) = (some (ok x), l)

abbrev newer : Entries
newer = (b'a' ∷ [], value (b'r' ∷ [])) ∷ (b'd' ∷ [], tombstone) ∷ []

abbrev older : Entries
older =
    (b'a' ∷ [], value (b'y' ∷ []))
    ∷ (b'b' ∷ [], value (b'b' ∷ []))
    ∷ (b'd' ∷ [], value (b'o' ∷ []))
    ∷ []

-- `two_tables_merge_correctly`, `tombstones_drop_when_requested`
merged :
    (merge list_step 6 false (newer ∷ older ∷ [])
      ≡ ok (
          (b'a' ∷ [], value (b'r' ∷ []))
          ∷ (b'b' ∷ [], value (b'b' ∷ []))
          ∷ (b'd' ∷ [], tombstone)
          ∷ []))
    × (merge list_step 6 true (newer ∷ older ∷ [])
        ≡ ok ((b'a' ∷ [], value (b'r' ∷ [])) ∷ (b'b' ∷ [], value (b'b' ∷ [])) ∷ []))
unfolding program
merged = (refl, refl)

tables-AllSorted : AllSorted (newer ∷ older ∷ [])
unfolding program
tables-AllSorted = (((refl, tt), (tt, tt)), (((refl, (refl, tt)), ((refl, tt), (tt, tt))), tt))

merge-IsMerge_example :
    Merged (merge list_step 6 true (newer ∷ older ∷ [])) true (newer ∷ older ∷ [])
merge-IsMerge_example =
    merge-IsMerge list_step 6 true (newer ∷ older ∷ []) (newer ∷ older ∷ [])
      ((refl, (refl, refl)), ((refl, (refl, (refl, refl))), tt)) tables-AllSorted (omega arith)

-- A table of one block on disk.
abbrev block : Bytes
block = flush_data_block (encode_entries older) 3

abbrev files : Files
files = (b't' ∷ [], block) ∷ []

abbrev row : IndexEntry
row = record { first_key = b'a' ∷ []; last_key = b'd' ∷ []; offset = 0; length = 41 }

abbrev table : SsTable
table = record {
  id = 1;
  path = b't' ∷ [];
  index = row ∷ [];
  bloom = record { bits = []; hash_count = 1 };
  smallest = b'a' ∷ [];
  largest = b'd' ∷ [];
  size_bytes = 41;
  level = 0;
}

table-RowsRead : RowsRead files (b't' ∷ []) (row ∷ []) (older ∷ [])
unfolding program
table-RowsRead = (refl, tt)

older-AllSorted : AllSorted (flats ((older ∷ []) ∷ []))
unfolding program
older-AllSorted = (((refl, (refl, tt)), ((refl, tt), (tt, tt))), tt)

merge_tables-IsMerge_example :
    Merged (merge_tables files (table ∷ []) false) false (flats ((older ∷ []) ∷ []))
merge_tables-IsMerge_example =
    merge_tables-IsMerge files (table ∷ []) false ((older ∷ []) ∷ []) (table-RowsRead, tt)
      older-AllSorted

new_iterator-Iterating_example : Iterating files table (flat (older ∷ []))
new_iterator-Iterating_example = new_iterator-Iterating files table (older ∷ []) table-RowsRead
