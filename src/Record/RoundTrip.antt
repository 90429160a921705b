-- ===== src/Record/RoundTrip.antt =====
-- What `encode` writes `decode` reads back, and `decode` refuses every other type byte.
use lsm_storage_engine.Common.{
  ℕ, ◌+◌, ◌%◌, ◌^◌, ◌≤◌, ◌<◌, ◌≡◌, refl, arith, ◌∷◌, ◌++◌, length, slice, length-append,
  slice_middle, slice_last, ltb, ◌==◌, if◌then◌else◌, inl, inr, ==_refl, ◌⊎◌, ◌≢◌, ◌∙◌, true, false,
}
use lsm_storage_engine.Common.Bytes.{Bytes}
use lsm_storage_engine.Error.{ok, err, key_too_large, value_too_large, corrupted_record}
use lsm_storage_engine.Crc.{crc32, u32_le, read_u32_le}
use lsm_storage_engine.Crc.LittleEndian.{crc32-lt, read_u32_le-u32_le}
use lsm_storage_engine.Record.{
  Operation, put, delete, max_key_size, max_value_size, encode_body, build_record, encode, decode,
  decode_operation, key_of, value_of, record_type,
}

module _ (kind : ℕ) (key value : Bytes) where
  body_key : (n : ℕ) → n ≡ length key → slice 9 (9 + n) (encode_body kind key value) ≡ key
  body_key n h =
      slice_middle 9 (9 + n)
        (kind ∷ (u32_le (length key % 2 ^ 32) ++ u32_le (length value % 2 ^ 32))) key value refl
        (omega arith)

  body_value :
      (n m : ℕ)
      → n ≡ length key
      → m ≡ length value
      → slice (9 + n) (9 + n + m) (encode_body kind key value) ≡ value
  body_value n m hn hm =
      slice_last (9 + n) (9 + n + m)
        (kind ∷ (u32_le (length key % 2 ^ 32) ++ (u32_le (length value % 2 ^ 32) ++ key))) value
        (omega arith) (omega arith)

  pub length-encode_body : length (encode_body kind key value) ≡ 9 + length key + length value
  length-encode_body = omega (arith, length-append key value)

  -- On a record with a valid checksum and lengths in range only the type byte decides.
  pub decode-build_record :
      length key ≤ max_key_size
      → length value ≤ max_value_size
      → decode (build_record kind key value) ≡ decode_operation kind key value (length value)
  unfolding decode build_record
  decode-build_record hk hv =
      rw (long, key_len, value_len, small_key, small_value, exact, check, same_check)
        (rw (body_key (length key) refl, body_value (length key) (length value) refl refl) refl)
    where
      body : Bytes
      body = encode_body kind key value

      long : ltb (length (u32_le (crc32 body) ++ body)) 13 ≡ false
      long = ground (arith, length-encode_body)

      key_len : read_u32_le (u32_le (length key % 2 ^ 32)) ≡ length key
      key_len = omega arith

      value_len : read_u32_le (u32_le (length value % 2 ^ 32)) ≡ length value
      value_len = omega arith

      small_key : ltb max_key_size (length key) ≡ false
      small_key = ground arith

      small_value : ltb max_value_size (length value) ≡ false
      small_value = ground arith

      exact : (length body == 9 + length key + length value) ≡ true
      exact = rw length-encode_body (==_refl _)

      check : read_u32_le (u32_le (crc32 body)) ≡ crc32 body
      check = read_u32_le-u32_le (crc32 body) (crc32-lt body)

      same_check : (crc32 body == crc32 body) ≡ true
      same_check = ==_refl (crc32 body)

module _ (operation : Operation) where
  -- `encode` succeeds exactly within the two limits, and the oversized key is reported first.
  pub encode_cases : encode operation ≡ (
      if ltb max_key_size (length (key_of operation))
      then err key_too_large
      else if ltb max_value_size (length (value_of operation))
      then err value_too_large
      else ok (build_record (record_type operation) (key_of operation) (value_of operation)))
  unfolding encode
  encode_cases = ground arith

  pub encode-eq-ok :
      {bytes : Bytes}
      → encode operation ≡ ok bytes
      → (length (key_of operation) ≤ max_key_size)
        × (length (value_of operation) ≤ max_value_size)
        × (build_record (record_type operation) (key_of operation) (value_of operation) ≡ bytes)
  unfolding encode
  encode-eq-ok h = (ground arith, ground arith, ground arith)

decode_operation-value_of :
    (operation : Operation)
    → decode_operation
        (record_type operation)
        (key_of operation)
        (value_of operation)
        (length (value_of operation))
      ≡ ok operation
unfolding decode_operation
decode_operation-value_of (put key value) = refl
decode_operation-value_of (delete key) = refl

-- Whatever `encode` returns for an operation, `decode` turns back into that operation.
pub decode-encode :
    (operation : Operation) (bytes : Bytes)
    → encode operation ≡ ok bytes
    → decode bytes ≡ ok operation
decode-encode operation bytes h =
    let (hk, hv, e) = encode-eq-ok operation h in
    rw (← e) (
      decode-build_record (record_type operation) (key_of operation) (value_of operation) hk hv
      ∙ decode_operation-value_of operation)

pub length-build_record :
    (kind : ℕ) (key value : Bytes)
    → length (build_record kind key value) ≡ 13 + length key + length value
unfolding build_record
length-build_record kind key value = omega (arith, length-encode_body kind key value)

-- A record of the right shape with a type byte that is neither 1 nor 2, and a deletion that
-- carries a value, are refused although the checksum is right.
pub decode_bad_type :
    (kind : ℕ) (key value : Bytes)
    → length key ≤ max_key_size
    → length value ≤ max_value_size
    → (kind ≢ 1) × (kind ≢ 2) ⊎ (kind ≡ 2) × (0 < length value)
    → decode (build_record kind key value) ≡ err corrupted_record
decode_bad_type kind key value hk hv bad = decode-build_record kind key value hk hv ∙ refused bad
  where
    refused :
        (kind ≢ 1) × (kind ≢ 2) ⊎ (kind ≡ 2) × (0 < length value)
        → decode_operation kind key value (length value) ≡ err corrupted_record
    refused (inl (a, b)) = unfold decode_operation in ground arith
    refused (inr (a, b)) = unfold decode_operation in ground arith
