-- ===== src/SsTable/Index.antt =====
-- The index block and the footer of a table are read back as they were written.
use lsm_storage_engine.Common.{
  ℕ, suc, ◌+◌, ◌-◌, ◌%◌, ◌^◌, ◌<◌, ◌≡◌, refl, arith, true, false, List, [], ◌∷◌, ◌++◌, ltb, ◌==◌,
  length, take, drop, length-append, take-append_eq, drop-append_eq, append_assoc, ==_refl,
}
use lsm_storage_engine.Common.Bytes.{Bytes}
use lsm_storage_engine.Error.{ok}
use lsm_storage_engine.Crc.{crc32, u32_le, u64_le, read_u32_le, read_u64_le}
use lsm_storage_engine.Crc.LittleEndian.{crc32-lt, read_u32_le-u32_le, read_u64_le-u64_le}
use lsm_storage_engine.SsTable.Format.{
  IndexEntry, encode_row, encode_rows, encode_index, decode_rows, decode_index, Footer, footer_body,
  encode_footer, decode_footer,
}

-- The sizes of a row fit their fields.
pub record RowFits (row : IndexEntry) : Type 0 where
  pub first_fits : length row.first_key < 2 ^ 32
  pub last_fits : length row.last_key < 2 ^ 32
  pub offset_fits : row.offset < 2 ^ 64
  pub length_fits : row.length < 2 ^ 32

abbrev pub RowsFit : List IndexEntry → Type 0
RowsFit [] = Unit
RowsFit (row ∷ index) = RowFits row × RowsFit index

-- A row with what stands behind it, cut where `decode_rows` cuts it.
module _ (row : IndexEntry) (rest : Bytes) where
  abbrev numbers : Bytes
  numbers = u64_le row.offset ++ (u32_le row.length ++ rest)

  abbrev from_last : Bytes
  from_last = u32_le (length row.last_key % 2 ^ 32) ++ (row.last_key ++ numbers)

  abbrev from_first : Bytes
  from_first = u32_le (length row.first_key % 2 ^ 32) ++ (row.first_key ++ from_last)

  encode_row-append : encode_row row ++ rest ≡ from_first
  unfolding encode_row
  encode_row-append =
      rw
        (
          append_assoc row.first_key
              (u32_le (length row.last_key % 2 ^ 32)
                ++ (row.last_key ++ (u64_le row.offset ++ u32_le row.length)))
              rest,
          append_assoc row.last_key (u64_le row.offset ++ u32_le row.length) rest,
        )
        refl

  decode_row :
      (n : ℕ) (index : List IndexEntry)
      → RowFits row
      → decode_rows n rest ≡ ok index
      → decode_rows (suc n) from_first ≡ ok (row ∷ index)
  unfolding decode_rows
  decode_row n index fits h =
      rw (long, first_len, room)
        (rw (after_first, first_key)
          (rw (last_len, room_last) (rw (after_last, last_key) (rw (offset, len, h) refl))))
    where
      long : ltb (length from_first) 4 ≡ false
      long = ground arith

      first_len : read_u32_le (u32_le (length row.first_key % 2 ^ 32)) ≡ length row.first_key
      first_len = omega (arith, fits.first_fits)

      last_len : read_u32_le (u32_le (length row.last_key % 2 ^ 32)) ≡ length row.last_key
      last_len = omega (arith, fits.last_fits)

      room : ltb (length (row.first_key ++ from_last)) (length row.first_key + 4) ≡ false
      room = ground (arith, length-append row.first_key from_last)

      after_first : drop (length row.first_key) (row.first_key ++ from_last) ≡ from_last
      after_first = drop-append_eq (length row.first_key) row.first_key from_last refl

      first_key : take (length row.first_key) (row.first_key ++ from_last) ≡ row.first_key
      first_key = take-append_eq (length row.first_key) row.first_key from_last refl

      room_last : ltb (length (row.last_key ++ numbers)) (length row.last_key + 12) ≡ false
      room_last = ground (arith, length-append row.last_key numbers)

      after_last : drop (length row.last_key) (row.last_key ++ numbers) ≡ numbers
      after_last = drop-append_eq (length row.last_key) row.last_key numbers refl

      last_key : take (length row.last_key) (row.last_key ++ numbers) ≡ row.last_key
      last_key = take-append_eq (length row.last_key) row.last_key numbers refl

      offset : read_u64_le (u64_le row.offset) ≡ row.offset
      offset = read_u64_le-u64_le row.offset fits.offset_fits

      len : read_u32_le (u32_le row.length) ≡ row.length
      len = read_u32_le-u32_le row.length fits.length_fits

decode_rows-encode_rows :
    (index : List IndexEntry)
    → RowsFit index
    → decode_rows (length index) (encode_rows index) ≡ ok index
unfolding encode_rows
decode_rows-encode_rows [] h = unfold decode_rows in refl
decode_rows-encode_rows (row ∷ index) (h, hs) =
    rw (encode_row-append row (encode_rows index))
      (decode_row row (encode_rows index) (length index) index h (decode_rows-encode_rows index hs))

module _ (index : List IndexEntry) where
  abbrev buf : Bytes
  buf = u32_le (length index % 2 ^ 32) ++ encode_rows index

  buf_len : length (buf ++ u32_le (crc32 buf)) - 4 ≡ length buf
  buf_len = omega (arith, length-append (encode_rows index) (u32_le (crc32 buf)))

  -- Decoding the index block that was written of some rows gives the same rows, if they are fewer
  -- than 2 ^ 32 and their fields fit.
  pub decode_index-encode_index :
      length index < 2 ^ 32 → RowsFit index → decode_index (encode_index index) ≡ ok index
  unfolding decode_index encode_index
  decode_index-encode_index few fit =
      rw (long, buf_len)
        (rw (last, body) (rw (check, same, counted) (decode_rows-encode_rows index fit)))
    where
      long : ltb (length (buf ++ u32_le (crc32 buf))) 8 ≡ false
      long = ground (arith, length-append (encode_rows index) (u32_le (crc32 buf)))

      last : drop (length buf) (buf ++ u32_le (crc32 buf)) ≡ u32_le (crc32 buf)
      last = drop-append_eq (length buf) buf (u32_le (crc32 buf)) refl

      body : take (length buf) (buf ++ u32_le (crc32 buf)) ≡ buf
      body = take-append_eq (length buf) buf (u32_le (crc32 buf)) refl

      check : read_u32_le (u32_le (crc32 buf)) ≡ crc32 buf
      check = read_u32_le-u32_le (crc32 buf) (crc32-lt buf)

      same : (crc32 buf == crc32 buf) ≡ true
      same = ==_refl (crc32 buf)

      counted : read_u32_le (u32_le (length index % 2 ^ 32)) ≡ length index
      counted = omega arith

-- Decoding the footer that was written of four numbers below 2 ^ 64 gives the same numbers.
pub decode_footer-encode_footer :
    (footer : Footer)
    → footer.index_offset < 2 ^ 64
    → footer.index_len < 2 ^ 64
    → footer.bloom_offset < 2 ^ 64
    → footer.bloom_len < 2 ^ 64
    → decode_footer (encode_footer footer) ≡ ok footer
unfolding decode_footer encode_footer
decode_footer-encode_footer footer h₁ h₂ h₃ h₄ =
    rw (check, same)
      (rw
        (
          read_u64_le-u64_le footer.index_offset h₁,
          read_u64_le-u64_le footer.index_len h₂,
          read_u64_le-u64_le footer.bloom_offset h₃,
          read_u64_le-u64_le footer.bloom_len h₄,
        )
        refl)
  where
    check : read_u32_le (u32_le (crc32 (footer_body footer))) ≡ crc32 (footer_body footer)
    check = read_u32_le-u32_le (crc32 (footer_body footer)) (crc32-lt (footer_body footer))

    same : (crc32 (footer_body footer) == crc32 (footer_body footer)) ≡ true
    same = ==_refl (crc32 (footer_body footer))
