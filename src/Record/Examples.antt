-- ===== src/Record/Examples.antt =====
-- Runs of src/record.rs, its unit tests among them.
use lsm_storage_engine.Common.{◌≡◌, refl, arith, ◌∷◌, [], inr, All}
use lsm_storage_engine.Common.Bytes.{Bytes, IsByte}
use lsm_storage_engine.Error.{ok, err, corrupted_record, invalid_checksum}
use lsm_storage_engine.Crc.{crc32}
use lsm_storage_engine.Record.{Operation, put, encode, decode, decode_operation, build_record}
use lsm_storage_engine.Record.RoundTrip.{decode-encode, decode_bad_type}
use lsm_storage_engine.Record.Canonical.{encode-decode}

abbrev put_name : Operation
put_name = put (b'n' ∷ b'a' ∷ b'm' ∷ b'e' ∷ []) (b'S' ∷ b'r' ∷ [])

abbrev put_name_bytes : Bytes
put_name_bytes = build_record 1 (b'n' ∷ b'a' ∷ b'm' ∷ b'e' ∷ []) (b'S' ∷ b'r' ∷ [])

encode_put : encode put_name ≡ ok put_name_bytes
unfolding encode build_record
encode_put = refl

decode_put : decode put_name_bytes ≡ ok put_name
unfolding decode decode_operation build_record crc32
decode_put = refl

-- `empty_input_fails` and `truncated_header_fails`
decode_short : decode (1 ∷ 2 ∷ 3 ∷ 4 ∷ 5 ∷ []) ≡ err corrupted_record
unfolding decode
decode_short = refl

-- `corrupted_payload_fails_the_checksum`
decode_corrupted :
    decode (0 ∷ 0 ∷ 0 ∷ 0 ∷ 1 ∷ 1 ∷ 0 ∷ 0 ∷ 0 ∷ 0 ∷ 0 ∷ 0 ∷ 0 ∷ b'k' ∷ []) ≡ err invalid_checksum
unfolding decode crc32
decode_corrupted = refl

decode-encode_example : decode put_name_bytes ≡ ok put_name
decode-encode_example = decode-encode put_name put_name_bytes encode_put

put_name-IsByte : All IsByte put_name_bytes
unfolding build_record
put_name-IsByte = omega arith

encode-decode_example : encode put_name ≡ ok put_name_bytes
encode-decode_example = encode-decode put_name_bytes put_name put_name-IsByte decode_put

-- `delete_with_a_value_fails`
decode_bad_type_example : decode (build_record 2 (b'k' ∷ []) (b'v' ∷ [])) ≡ err corrupted_record
decode_bad_type_example =
    decode_bad_type 2 (b'k' ∷ []) (b'v' ∷ []) (omega arith) (omega arith) (inr (refl, omega arith))
