-- ===== src/SsTable/Examples.antt =====
-- Runs of src/sstable.rs on small blocks.
use lsm_storage_engine.Common.{◌≡◌, refl, arith, none, some, [], ◌∷◌}
use lsm_storage_engine.Common.Bytes.{cmp}
use lsm_storage_engine.Common.SortedMap.{lookup, IsSorted}
use lsm_storage_engine.Error.{ok, err, invalid_checksum}
use lsm_storage_engine.Crc.{crc32}
use lsm_storage_engine.MemTable.{value, tombstone}
use lsm_storage_engine.Files.{digits, table_file_name, tmp_path, is_tmp}
use lsm_storage_engine.SsTable.Format.{
  Entries, IndexEntry, encode_entry, flush_data_block, entry_of, read_entries, decode_block,
  encode_row, encode_rows, encode_index, decode_rows, decode_index, encode_footer, decode_footer,
}
use lsm_storage_engine.SsTable.Read.{binary_search, search_block}
use lsm_storage_engine.SsTable.Search.{search_block-lookup}
use lsm_storage_engine.SsTable.Blocks.{encode_entries, decode_block-encode_entries}
use lsm_storage_engine.SsTable.Index.{decode_index-encode_index}
use lsm_storage_engine.Common.{true}

program : Unit {0}
unfolding encode_entry flush_data_block entry_of read_entries decode_block encode_row encode_rows
    encode_index decode_rows decode_index encode_footer decode_footer crc32 binary_search
    search_block cmp lookup digits table_file_name tmp_path is_tmp
program = tt

abbrev three : Entries
three =
    (b'a' ∷ [], value (b'1' ∷ []))
    ∷ (b'b' ∷ [], tombstone)
    ∷ (b'd' ∷ [], value (b'4' ∷ b'4' ∷ []))
    ∷ []

three-IsSorted : IsSorted three
unfolding program
three-IsSorted = ((refl, (refl, tt)), ((refl, tt), (tt, tt)))

-- A key that the block holds, and one that it does not.
searched :
    (search_block three (b'd' ∷ []) ≡ some (value (b'4' ∷ b'4' ∷ [])))
    × (search_block three (b'c' ∷ []) ≡ none)
unfolding program
searched = (refl, refl)

search_block-lookup_example : search_block three (b'b' ∷ []) ≡ lookup (b'b' ∷ []) three
search_block-lookup_example = search_block-lookup three (b'b' ∷ []) three-IsSorted

decode_block-encode_entries_example :
    decode_block (flush_data_block (encode_entries three) 3) ≡ ok three
decode_block-encode_entries_example = decode_block-encode_entries three (omega arith) (omega arith)

-- `corrupt_block_is_detected`: one byte of the block is another.
corrupt : decode_block (0 ∷ 0 ∷ 0 ∷ 0 ∷ 1 ∷ 2 ∷ 3 ∷ 4 ∷ []) ≡ err invalid_checksum
unfolding program
corrupt = refl

abbrev row : IndexEntry
row = record { first_key = b'a' ∷ []; last_key = b'd' ∷ []; offset = 0; length = 45 }

decode_index-encode_index_example : decode_index (encode_index (row ∷ [])) ≡ ok (row ∷ [])
decode_index-encode_index_example = decode_index-encode_index (row ∷ []) (omega arith) (
  record {
    first_fits = omega arith;
    last_fits = omega arith;
    offset_fits = omega arith;
    length_fits = omega arith;
  },
  tt,
)

-- Table 7 is the file `000007.sst`.
named :
    (table_file_name 7 ≡ b'0' ∷ b'0' ∷ b'0' ∷ b'0' ∷ b'0' ∷ b'7' ∷ b'.' ∷ b's' ∷ b's' ∷ b't' ∷ [])
    × (is_tmp (tmp_path (table_file_name 7)) ≡ true)
unfolding program
named = (refl, refl)
