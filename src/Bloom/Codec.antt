-- ===== src/Bloom/Codec.antt =====
-- A filter that is written is read back.
use lsm_storage_engine.Common.{
  ℕ, ◌+◌, ◌%◌, ◌^◌, ◌<◌, ◌≤◌, ◌≡◌, refl, ap, sym, arith, true, false, ◌||◌, ◌++◌, ltb, ◌==◌, length,
  take, drop, slice, length-append, slice_middle, drop-append_eq, take-append_eq, ==_refl,
}
use lsm_storage_engine.Common.Bytes.{Bytes}
use lsm_storage_engine.Error.{ok}
use lsm_storage_engine.Crc.{crc32, u32_le, read_u32_le}
use lsm_storage_engine.Crc.LittleEndian.{crc32-lt, read_u32_le-u32_le}
use lsm_storage_engine.Bloom.{BloomFilter, encode_body, encode, decode}

module _ (filter : BloomFilter) where
  abbrev written : Bytes
  written = encode_body filter ++ u32_le (crc32 (encode_body filter))

  body_len : length (encode_body filter) ≡ 8 + length filter.bits
  body_len = omega arith

  -- Decoding what `encode` writes of a filter gives the same filter, if its bits are fewer than
  -- 2 ^ 32 bytes and the number of hashes is between 1 and 16.
  pub decode-encode_filter :
      length filter.bits < 2 ^ 32
      → 1 ≤ filter.hash_count
      → filter.hash_count ≤ 16
      → decode (encode filter) ≡ ok filter
  unfolding decode encode
  decode-encode_filter fits some_hash few =
      rw (long, hashes, len, plausible, exact, body, last, check, check_same) (ap ok same)
    where
      n : ℕ
      n = length filter.bits

      hashes : read_u32_le (u32_le filter.hash_count) ≡ filter.hash_count
      hashes = omega arith

      len : read_u32_le (u32_le (length filter.bits % 2 ^ 32)) ≡ length filter.bits
      len = omega arith

      long : ltb (length written) 12 ≡ false
      long = ground (arith, length-append filter.bits (u32_le (crc32 (encode_body filter))))

      plausible : (filter.hash_count == 0 || ltb 16 filter.hash_count) ≡ false
      plausible = ground arith

      exact : (length written == 8 + length filter.bits + 4) ≡ true
      exact = ground (arith, length-append filter.bits (u32_le (crc32 (encode_body filter))))

      body : take (8 + length filter.bits) written ≡ encode_body filter
      body = take-append_eq _ (encode_body filter) _ (sym body_len)

      last : drop (8 + length filter.bits) written ≡ u32_le (crc32 (encode_body filter))
      last = drop-append_eq _ (encode_body filter) _ (sym body_len)

      check : read_u32_le (u32_le (crc32 (encode_body filter))) ≡ crc32 (encode_body filter)
      check = read_u32_le-u32_le _ (crc32-lt (encode_body filter))

      check_same : (crc32 (encode_body filter) == crc32 (encode_body filter)) ≡ true
      check_same = ==_refl (crc32 (encode_body filter))

      bits : slice 8 (8 + length filter.bits) written ≡ filter.bits
      bits =
          slice_middle 8 (8 + length filter.bits)
            (u32_le filter.hash_count ++ u32_le (length filter.bits % 2 ^ 32)) filter.bits
            (u32_le (crc32 (encode_body filter))) refl (omega arith)

      same :
          ◌≡◌ {A = BloomFilter}
            (record {
              bits = slice 8 (8 + length filter.bits) written;
              hash_count = filter.hash_count;
            })
            filter
      same = ap (λ b. record filter { bits = b }) bits
