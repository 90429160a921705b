-- ===== src/SsTable/Format.antt =====
-- src/sstable.rs: the bytes of a data block, of the index block and of the footer.
use lsm_storage_engine.Common.{
  ℕ, zero, suc, ◌+◌, ◌-◌, ◌%◌, ◌^◌, not, List, [], ◌∷◌, ◌++◌, ltb, ◌==◌, if◌then◌else◌, length,
  get_or, take, drop, slice,
}
use lsm_storage_engine.Common.Bytes.{Bytes}
use lsm_storage_engine.Error.{
  Result, ok, err, ◌>>=◌, ◌>>◌, reject_if, corrupted_record, invalid_checksum,
}
use lsm_storage_engine.Crc.{crc32, u32_le, u64_le, read_u32_le, read_u64_le}
use lsm_storage_engine.MemTable.{Entry, value, tombstone}

abbrev pub magic : ℕ
magic = 0x4C534D31

abbrev pub footer_len : ℕ
footer_len = 48

abbrev pub format_version : ℕ
format_version = 1

abbrev pub type_value : ℕ
type_value = 1

abbrev pub type_tombstone : ℕ
type_tombstone = 2

abbrev pub Entries : Type 0
Entries = List (Bytes × Entry)

pub record IndexEntry : Type 0 where
  pub first_key : Bytes
  pub last_key : Bytes
  pub offset : ℕ
  pub length : ℕ

-- What `encode_entry` appends to the buffer.
unfoldable pub encode_entry : Bytes → Entry → Bytes
encode_entry key (value v) =
    type_value ∷ (u32_le (length key % 2 ^ 32) ++ (u32_le (length v % 2 ^ 32) ++ (key ++ v)))
encode_entry key tombstone = type_tombstone ∷ (u32_le (length key % 2 ^ 32) ++ (u32_le 0 ++ key))

-- The bytes that `flush_data_block` writes; it returns their number as a `u32`.
unfoldable pub flush_data_block : Bytes → ℕ → Bytes
flush_data_block body count = let block = u32_le count ++ body in block ++ u32_le (crc32 block)

-- The entry of the type byte, with its value.
unfoldable pub entry_of : ℕ → Bytes → Result Entry
entry_of kind v =
    if kind == type_value
    then ok (value v)
    else if kind == type_tombstone
    then ok tombstone
    else err corrupted_record

-- The loop of `read_data_block`, with the rounds that are left.
unfoldable pub read_entries : ℕ → Bytes → Result Entries
unfolding entry_of
read_entries zero rest = ok []
read_entries (suc count) rest = do
  reject_if (length rest == 0) corrupted_record
  reject_if (ltb (length rest) 9) corrupted_record
  let key_len = read_u32_le (slice 1 5 rest)
  let value_len = read_u32_le (slice 5 9 rest)
  reject_if (ltb (length (drop 9 rest)) (key_len + value_len)) corrupted_record
  entry ← entry_of (get_or rest 0 0) (take value_len (drop key_len (drop 9 rest)))
  more ← read_entries count (drop value_len (drop key_len (drop 9 rest)))
  ok ((take key_len (drop 9 rest), entry) ∷ more)

-- `read_data_block`, from the bytes of the block on.
unfoldable pub decode_block : Bytes → Result Entries
decode_block bytes = do
  reject_if (ltb (length bytes) 8) corrupted_record
  let body = take (length bytes - 4) bytes
  reject_if (not (crc32 body == read_u32_le (drop (length bytes - 4) bytes))) invalid_checksum
  read_entries (read_u32_le (slice 0 4 body)) (drop 4 body)

-- One row of the index block, and all of them.
unfoldable pub encode_row : IndexEntry → Bytes
encode_row entry =
    u32_le (length entry.first_key % 2 ^ 32)
    ++ (entry.first_key
        ++ (u32_le (length entry.last_key % 2 ^ 32)
            ++ (entry.last_key ++ (u64_le entry.offset ++ u32_le entry.length))))

unfoldable pub encode_rows : List IndexEntry → Bytes
encode_rows [] = []
encode_rows (entry ∷ index) = encode_row entry ++ encode_rows index

unfoldable pub encode_index : List IndexEntry → Bytes
encode_index index =
    let buf = u32_le (length index % 2 ^ 32) ++ encode_rows index in buf ++ u32_le (crc32 buf)

-- The loop of `decode_index`, with the rounds that are left.
unfoldable pub decode_rows : ℕ → Bytes → Result (List IndexEntry)
decode_rows zero rest = ok []
decode_rows (suc count) rest = do
  reject_if (ltb (length rest) 4) corrupted_record
  let first_len = read_u32_le (slice 0 4 rest)
  let keys = drop 4 rest
  reject_if (ltb (length keys) (first_len + 4)) corrupted_record
  let after_first = drop first_len keys
  let last_len = read_u32_le (slice 0 4 after_first)
  let last = drop 4 after_first
  reject_if (ltb (length last) (last_len + 12)) corrupted_record
  let after_last = drop last_len last
  index ← decode_rows count (drop 12 after_last)
  ok (
      record {
        first_key = take first_len keys;
        last_key = take last_len last;
        offset = read_u64_le (slice 0 8 after_last);
        length = read_u32_le (slice 8 12 after_last);
      }
      ∷ index)

unfoldable pub decode_index : Bytes → Result (List IndexEntry)
decode_index bytes = do
  reject_if (ltb (length bytes) 8) corrupted_record
  let body = take (length bytes - 4) bytes
  reject_if (not (crc32 body == read_u32_le (drop (length bytes - 4) bytes))) invalid_checksum
  decode_rows (read_u32_le (slice 0 4 body)) (drop 4 body)

pub record Footer : Type 0 where
  pub index_offset : ℕ
  pub index_len : ℕ
  pub bloom_offset : ℕ
  pub bloom_len : ℕ

abbrev pub footer_body : Footer → Bytes
footer_body footer =
    u64_le footer.index_offset
    ++ (u64_le footer.index_len
        ++ (u64_le footer.bloom_offset
            ++ (u64_le footer.bloom_len ++ (u32_le format_version ++ u32_le 0))))

-- The last bytes that `create` writes.
unfoldable pub encode_footer : Footer → Bytes
encode_footer footer = footer_body footer ++ (u32_le (crc32 (footer_body footer)) ++ u32_le magic)

-- The tests that `open` makes of them.
unfoldable pub decode_footer : Bytes → Result Footer
decode_footer footer = do
  reject_if (not (read_u32_le (slice 44 48 footer) == magic)) corrupted_record
  reject_if (not (crc32 (take 40 footer) == read_u32_le (slice 40 44 footer))) invalid_checksum
  reject_if (not (read_u32_le (slice 32 36 footer) == format_version)) corrupted_record
  ok (record {
    index_offset = read_u64_le (slice 0 8 footer);
    index_len = read_u64_le (slice 8 16 footer);
    bloom_offset = read_u64_le (slice 16 24 footer);
    bloom_len = read_u64_le (slice 24 32 footer);
  })
