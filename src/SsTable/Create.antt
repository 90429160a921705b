-- ===== src/SsTable/Create.antt =====
-- src/sstable.rs: `SsTable::create`.
use lsm_storage_engine.Common.{
  ℕ, ◌+◌, ◌%◌, ◌^◌, ◌||◌, Option, none, some, List, [], ◌∷◌, ◌++◌, map, ltb, ◌==◌, if◌then◌else◌,
  length,
}
use lsm_storage_engine.Common.Bytes.{Bytes, le_bytes}
use lsm_storage_engine.Error.{Result, ok, err, other_error}
use lsm_storage_engine.Failpoints.{Failpoint, should_fail, ss_table_write, ss_table_sync, rename}
use lsm_storage_engine.Files.{FilePath, Files, write_file, rename_file, tmp_path}
use lsm_storage_engine.MemTable.{Entry}
use lsm_storage_engine.Bloom.{BloomFilter}
use lsm_storage_engine.Bloom.Float.{F64}
use lsm_storage_engine.Bloom.Contains.{insert_all}
use lsm_storage_engine.Bloom
use lsm_storage_engine.SsTable.Format.{
  Entries, IndexEntry, encode_entry, flush_data_block, encode_index, encode_footer,
}

pub record SsTable : Type 0 where
  pub id : ℕ
  pub path : FilePath
  pub index : List IndexEntry
  pub bloom : BloomFilter
  pub smallest : Bytes
  pub largest : Bytes
  pub size_bytes : ℕ
  pub level : ℕ

-- The directory and the failpoint cell.
pub record Disk : Type 0 where
  pub failpoint : Failpoint
  pub files : Files

-- `sort_by` on the keys, which is stable.
unfoldable pub insert_sorted : Bytes → Entry → Entries → Entries
insert_sorted k e [] = (k, e) ∷ []
insert_sorted k e ((j, f) ∷ entries) =
    let rest = insert_sorted k e entries in
    if le_bytes k j then (k, e) ∷ (j, f) ∷ entries else (j, f) ∷ rest

unfoldable pub sort_entries : Entries → Entries
unfolding insert_sorted
sort_entries [] = []
sort_entries ((k, e) ∷ entries) = insert_sorted k e (sort_entries entries)

-- The local variables of `create`, and the bytes of the file so far.
pub record Writer : Type 0 where
  pub file : Bytes
  pub index : List IndexEntry
  pub block_buf : Bytes
  pub block_first : Option Bytes
  pub block_last : Bytes
  pub block_count : ℕ
  pub offset : ℕ

abbrev pub new_writer : Writer
new_writer = record {
  file = [];
  index = [];
  block_buf = [];
  block_first = none;
  block_last = [];
  block_count = 0;
  offset = 0;
}

abbrev pub unwrap_or_default : Option Bytes → Bytes
unwrap_or_default none = []
unwrap_or_default (some key) = key

-- A block is written and its row pushed; the buffers are empty after it.
unfoldable pub flush_block : Writer → Writer
unfolding flush_data_block
flush_block w =
    let block = flush_data_block w.block_buf w.block_count in
    let len = length block % 2 ^ 32 in
    record {
      file = w.file ++ block;
      index =
          w.index
          ++ record {
            first_key = unwrap_or_default w.block_first;
            last_key = w.block_last;
            offset = w.offset;
            length = len;
          }
            ∷ [];
      block_buf = [];
      block_first = none;
      block_last = [];
      block_count = 0;
      offset = w.offset + len;
    }

-- The loop over the entries.
abbrev pub first_of : Option Bytes → Bytes → Option Bytes
first_of none key = some key
first_of (some first) key = some first

unfoldable pub write_entry : ℕ → Bytes → Entry → Writer → Writer
unfolding encode_entry flush_block
write_entry block_size key entry w =
    let w' = record w {
      block_buf = w.block_buf ++ encode_entry key entry;
      block_first = first_of w.block_first key;
      block_last = key;
      block_count = w.block_count + 1;
    } in
    if ltb (length w'.block_buf) block_size then w' else flush_block w'

unfoldable pub write_entries : ℕ → Entries → Writer → Writer
unfolding write_entry
write_entries block_size [] w = w
write_entries block_size ((key, entry) ∷ entries) w =
    write_entries block_size entries (write_entry block_size key entry w)

-- The block that is left, or the only one of an empty table.
unfoldable pub last_block : Writer → Writer
unfolding flush_block
last_block w = if ltb 0 w.block_count || length w.index == 0 then flush_block w else w

abbrev pub first_key : Entries → Bytes
first_key [] = []
first_key ((k, e) ∷ entries) = k

abbrev pub last_key : Entries → Bytes
last_key [] = []
last_key ((k, e) ∷ []) = k
last_key ((k, e) ∷ (j, f) ∷ entries) = last_key ((j, f) ∷ entries)

-- The bytes of the whole file.
unfoldable pub table_bytes : Writer → BloomFilter → Bytes
unfolding encode_index encode_footer
table_bytes w bloom =
    let index_bytes = encode_index w.index in
    let bloom_bytes = Bloom.encode bloom in
    w.file
    ++ (index_bytes
        ++ (bloom_bytes
            ++ encode_footer (record {
              index_offset = w.offset;
              index_len = length index_bytes;
              bloom_offset = w.offset + length index_bytes;
              bloom_len = length bloom_bytes;
            })))

module _ (f : F64) where
  open f use {Float}

  unfoldable pub create : FilePath → ℕ → Entries → Float → ℕ → Disk → Result SsTable × Disk
  unfolding write_entries last_block sort_entries table_bytes
  create path id entries bloom_fp block_size d =
      let (no_write, fp₁) = should_fail ss_table_write d.failpoint in
      let collected = sort_entries entries in
      let bloom = insert_all (map (λ p. p.0) collected) (Bloom.new f (length collected) bloom_fp) in
      let w = last_block (write_entries block_size collected new_writer) in
      let bytes = table_bytes w bloom in
      let written = write_file (tmp_path path) bytes d.files in
      let (no_sync, fp₂) = should_fail ss_table_sync fp₁ in
      let (no_rename, fp₃) = should_fail rename fp₂ in
      if no_write
      then (err (other_error "injected SSTable write failure"), record d { failpoint = fp₁ })
      else if no_sync
      then (
        err (other_error "injected SSTable sync failure"),
        record { failpoint = fp₂; files = written },
      )
      else if no_rename
      then (
        err (other_error "injected rename failure"),
        record { failpoint = fp₃; files = written },
      )
      else (
        ok (record {
          id = id;
          path = path;
          index = w.index;
          bloom = bloom;
          smallest = first_key collected;
          largest = last_key collected;
          size_bytes = length bytes;
          level = 0;
        }),
        record { failpoint = fp₃; files = rename_file (tmp_path path) path bytes written },
      )
