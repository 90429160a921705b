-- ===== src/SsTable/Open.antt =====
-- src/sstable.rs: `SsTable::open`.
use lsm_storage_engine.Common.{
  ℕ, ◌+◌, ◌-◌, ◌^◌, Bool, ◌||◌, none, some, List, [], ◌∷◌, ltb, ◌==◌, if◌then◌else◌, length, drop,
  slice,
}
use lsm_storage_engine.Common.Bytes.{Bytes}
use lsm_storage_engine.Error.{
  Result, ok, err, ◌>>=◌, ◌>>◌, reject_if, Error, IoKind, from_io, corrupted_record,
}
use lsm_storage_engine.Files.{FilePath, Files, read_file, is_tmp}
use lsm_storage_engine.Bloom.{BloomFilter}
use lsm_storage_engine.Bloom
use lsm_storage_engine.SsTable.Format.{IndexEntry, decode_index, decode_footer, footer_len}
use lsm_storage_engine.SsTable.Create.{SsTable}

-- `File::open` and `read_exact` fail as the operating system reports it.
abbrev pub not_found_error : Error
not_found_error =
    from_io (record { kind = IoKind.not_found; message = "No such file or directory" })

abbrev pub eof_error : Error
eof_error =
    from_io (record { kind = IoKind.unexpected_eof; message = "failed to fill whole buffer" })

unfoldable pub open_file : FilePath → Files → Result Bytes
open_file path files = elim (read_file path files) [ none ↦ err not_found_error | some b ↦ ok b ]

-- `seek` to an offset and `read_exact` of so many bytes; of none it succeeds anywhere.
unfoldable pub read_exact : ℕ → ℕ → Bytes → Result Bytes
read_exact offset len bytes =
    if len == 0
    then ok []
    else if ltb (length bytes) (offset + len)
    then err eof_error
    else ok (slice offset (offset + len) bytes)

-- `checked_add(..).is_none_or(|end| end > size_bytes)`
abbrev pub outside : ℕ → ℕ → ℕ → Bool
outside offset len size = ltb (2 ^ 64 - 1) (offset + len) || ltb size (offset + len)

abbrev pub first_row : List IndexEntry → Bytes
first_row [] = []
first_row (e ∷ index) = e.first_key

abbrev pub last_row : List IndexEntry → Bytes
last_row [] = []
last_row (e ∷ []) = e.last_key
last_row (e ∷ e' ∷ index) = last_row (e' ∷ index)

unfoldable pub open_table : FilePath → ℕ → Files → Result SsTable
unfolding open_file read_exact
open_table path id files = do
  reject_if (is_tmp path) corrupted_record
  bytes ← open_file path files
  reject_if (ltb (length bytes) footer_len) corrupted_record
  footer ← decode_footer (drop (length bytes - footer_len) bytes)
  reject_if
      (outside footer.index_offset footer.index_len (length bytes)
        || outside footer.bloom_offset footer.bloom_len (length bytes))
      corrupted_record
  index_bytes ← read_exact footer.index_offset footer.index_len bytes
  index ← decode_index index_bytes
  bloom_bytes ← read_exact footer.bloom_offset footer.bloom_len bytes
  bloom ← Bloom.decode bloom_bytes
  ok (record {
    id = id;
    path = path;
    index = index;
    bloom = bloom;
    smallest = first_row index;
    largest = last_row index;
    size_bytes = length bytes;
    level = 0;
  })
