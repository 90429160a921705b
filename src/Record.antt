-- ===== src/Record.antt =====
-- src/record.rs: the binary format of one write. A record is a checksum of four bytes and a body:
-- the type byte, the two lengths, the key and the value.
pub mod RoundTrip
pub mod Canonical
mod Examples
use lsm_storage_engine.Common.{
  ℕ, ◌+◌, ◌*◌, ◌%◌, ◌^◌, not, ◌||◌, List, [], ◌∷◌, ◌++◌, ltb, ◌==◌, if◌then◌else◌, length, get_or,
  drop, slice,
}
use lsm_storage_engine.Common.Bytes.{Bytes}
use lsm_storage_engine.Error.{
  Result, ok, err, ◌>>=◌, ◌>>◌, reject_if, corrupted_record, invalid_checksum, key_too_large,
  value_too_large,
}
use lsm_storage_engine.Crc.{crc32, u32_le, read_u32_le}

-- The limits of src/engine.rs.
abbrev pub max_key_size : ℕ
max_key_size = 64 * 1024

abbrev pub max_value_size : ℕ
max_value_size = 64 * 1024 * 1024

pub data Operation : Type 0 where
  put : Bytes → Bytes → Operation
  delete : Bytes → Operation

abbrev pub record_type_put : ℕ
record_type_put = 1

abbrev pub record_type_delete : ℕ
record_type_delete = 2

abbrev pub checksum_len : ℕ
checksum_len = 4

abbrev pub body_header_len : ℕ
body_header_len = 1 + 4 + 4

abbrev pub record_header_len : ℕ
record_header_len = checksum_len + body_header_len

abbrev pub key_len_offset : ℕ
key_len_offset = 5

abbrev pub value_len_offset : ℕ
value_len_offset = 9

-- The three parts that `encode` writes of an operation.
abbrev pub record_type : Operation → ℕ
record_type (put key value) = record_type_put
record_type (delete key) = record_type_delete

abbrev pub key_of : Operation → Bytes
key_of (put key value) = key
key_of (delete key) = key

abbrev pub value_of : Operation → Bytes
value_of (put key value) = value
value_of (delete key) = []

-- What the checksum covers, and the whole record.
abbrev pub encode_body : ℕ → Bytes → Bytes → Bytes
encode_body kind key value =
    kind ∷ (u32_le (length key % 2 ^ 32) ++ (u32_le (length value % 2 ^ 32) ++ (key ++ value)))

unfoldable pub build_record : ℕ → Bytes → Bytes → Bytes
build_record kind key value = let body = encode_body kind key value in u32_le (crc32 body) ++ body

unfoldable pub encode : Operation → Result Bytes
encode operation = do
  reject_if (ltb max_key_size (length (key_of operation))) key_too_large
  reject_if (ltb max_value_size (length (value_of operation))) value_too_large
  ok (build_record (record_type operation) (key_of operation) (value_of operation))

-- The `match record_type` that ends `decode`.
unfoldable pub decode_operation : ℕ → Bytes → Bytes → ℕ → Result Operation
decode_operation kind key value value_len =
    if kind == record_type_put
    then ok (put key value)
    else if kind == record_type_delete
    then (if not (value_len == 0) then err corrupted_record else ok (delete key))
    else err corrupted_record

unfoldable pub decode : Bytes → Result Operation
decode bytes = do
  reject_if (ltb (length bytes) record_header_len) corrupted_record
  let checksum = read_u32_le (slice 0 checksum_len bytes)
  let body = drop checksum_len bytes
  let kind = get_or body 0 0
  let key_len = read_u32_le (slice 1 5 body)
  let value_len = read_u32_le (slice 5 9 body)
  reject_if (ltb max_key_size key_len || ltb max_value_size value_len) corrupted_record
  reject_if (not (length body == body_header_len + key_len + value_len)) corrupted_record
  reject_if (not (crc32 body == checksum)) invalid_checksum
  let key_end = body_header_len + key_len
  decode_operation kind (slice body_header_len key_end body)
      (slice key_end (key_end + value_len) body) value_len
