-- ===== src/SsTable/Blocks.antt =====
-- A data block that is written is read back.
use lsm_storage_engine.Common.{
  ℕ, suc, ◌+◌, ◌-◌, ◌%◌, ◌^◌, ◌<◌, ◌≡◌, refl, ap, ◌∙◌, arith, true, false, [], ◌∷◌, ◌++◌, ltb, ◌==◌,
  length, take, drop, length-append, take-append_eq, drop-append_eq, append_assoc, ==_refl,
}
use lsm_storage_engine.Common.Bytes.{Bytes}
use lsm_storage_engine.Error.{ok}
use lsm_storage_engine.Crc.{crc32, u32_le, read_u32_le}
use lsm_storage_engine.Crc.LittleEndian.{crc32-lt, read_u32_le-u32_le}
use lsm_storage_engine.MemTable.{Entry, value, tombstone}
use lsm_storage_engine.SsTable.Format.{
  Entries, encode_entry, flush_data_block, entry_of, read_entries, decode_block,
}

-- What the loop of `create` has in its buffer after these entries.
unfoldable pub encode_entries : Entries → Bytes
unfolding encode_entry
encode_entries [] = []
encode_entries ((k, e) ∷ entries) = encode_entry k e ++ encode_entries entries

abbrev pub Fits : Bytes → Entry → Type 0
Fits key (value v) = (length key < 2 ^ 32) × (length v < 2 ^ 32)
Fits key tombstone = length key < 2 ^ 32

abbrev pub AllFit : Entries → Type 0
AllFit [] = Unit
AllFit ((k, e) ∷ entries) = Fits k e × AllFit entries

abbrev type_of : Entry → ℕ
type_of (value v) = 1
type_of tombstone = 2

abbrev payload : Entry → Bytes
payload (value v) = v
payload tombstone = []

-- An entry with what stands behind it.
abbrev with_rest : ℕ → Bytes → Bytes → Bytes → Bytes
with_rest kind key v rest =
    kind ∷ (u32_le (length key % 2 ^ 32) ++ (u32_le (length v % 2 ^ 32) ++ (key ++ (v ++ rest))))

encode_entry-append :
    (key : Bytes) (e : Entry) (rest : Bytes)
    → encode_entry key e ++ rest ≡ with_rest (type_of e) key (payload e) rest
unfolding encode_entry
encode_entry-append key (value v) rest = rw (append_assoc key v rest) refl
encode_entry-append key tombstone rest = refl

entry_of-payload : (e : Entry) → entry_of (type_of e) (payload e) ≡ ok e
unfolding entry_of
entry_of-payload (value v) = refl
entry_of-payload tombstone = refl

Fits-payload :
    (key : Bytes) (e : Entry) → Fits key e → (length key < 2 ^ 32) × (length (payload e) < 2 ^ 32)
Fits-payload key (value v) h = h
Fits-payload key tombstone h = (h, omega arith)

read_entry :
    (n kind : ℕ) (key v rest : Bytes) (e : Entry) (more : Entries)
    → length key < 2 ^ 32
    → length v < 2 ^ 32
    → entry_of kind v ≡ ok e
    → read_entries n rest ≡ ok more
    → read_entries (suc n) (with_rest kind key v rest) ≡ ok ((key, e) ∷ more)
unfolding read_entries
read_entry n kind key v rest e more hk hv he hr =
    rw (nonempty, long, key_len, value_len, enough)
      (rw (after_key, after_value, key_bytes, value_bytes) (rw (he, hr) refl))
  where
    nonempty : (length (with_rest kind key v rest) == 0) ≡ false
    nonempty = ground arith

    long : ltb (length (with_rest kind key v rest)) 9 ≡ false
    long = ground arith

    key_len : read_u32_le (u32_le (length key % 2 ^ 32)) ≡ length key
    key_len = omega arith

    value_len : read_u32_le (u32_le (length v % 2 ^ 32)) ≡ length v
    value_len = omega arith

    enough : ltb (length (key ++ (v ++ rest))) (length key + length v) ≡ false
    enough = ground (arith, length-append key (v ++ rest), length-append v rest)

    after_key : drop (length key) (key ++ (v ++ rest)) ≡ v ++ rest
    after_key = drop-append_eq (length key) key (v ++ rest) refl

    after_value : drop (length v) (v ++ rest) ≡ rest
    after_value = drop-append_eq (length v) v rest refl

    key_bytes : take (length key) (key ++ (v ++ rest)) ≡ key
    key_bytes = take-append_eq (length key) key (v ++ rest) refl

    value_bytes : take (length v) (v ++ rest) ≡ v
    value_bytes = take-append_eq (length v) v rest refl

read_entries-encode_entries :
    (entries : Entries)
    → AllFit entries
    → read_entries (length entries) (encode_entries entries) ≡ ok entries
unfolding encode_entries
read_entries-encode_entries [] h = unfold read_entries in refl
read_entries-encode_entries ((k, e) ∷ entries) (h, hs) =
    let (hk, hv) = Fits-payload k e h in
    rw (encode_entry-append k e (encode_entries entries)) (
      read_entry (length entries) (type_of e) k (payload e) (encode_entries entries) e entries hk hv
        (entry_of-payload e) (read_entries-encode_entries entries hs))

-- A buffer behind its checksum's four bytes.
module _ (count : ℕ) (body : Bytes) where
  abbrev checked : Bytes
  checked = u32_le count ++ body

  abbrev block : Bytes
  block = checked ++ u32_le (crc32 checked)

  block_len : length block - 4 ≡ length checked
  block_len = omega (arith, length-append body (u32_le (crc32 checked)))

  -- A block with a valid checksum is its count of entries.
  pub decode_block-flush_data_block :
      count < 2 ^ 32 → decode_block (flush_data_block body count) ≡ read_entries count body
  unfolding decode_block flush_data_block
  decode_block-flush_data_block h =
      rw (long, block_len)
        (rw (last, body_part)
          (rw (check, same, counted) (ap (λ b. read_entries count (drop 4 b)) body_part)))
    where
      long : ltb (length block) 8 ≡ false
      long = ground (arith, length-append body (u32_le (crc32 checked)))

      last : drop (length checked) block ≡ u32_le (crc32 checked)
      last = drop-append_eq (length checked) checked (u32_le (crc32 checked)) refl

      body_part : take (length checked) block ≡ checked
      body_part = take-append_eq (length checked) checked (u32_le (crc32 checked)) refl

      check : read_u32_le (u32_le (crc32 checked)) ≡ crc32 checked
      check = read_u32_le-u32_le (crc32 checked) (crc32-lt checked)

      same : (crc32 checked == crc32 checked) ≡ true
      same = ==_refl (crc32 checked)

      counted : read_u32_le (u32_le count) ≡ count
      counted = read_u32_le-u32_le count h

-- Reading the block that was written of some entries gives the same entries, if they are fewer than
-- 2 ^ 32 and every key and value is shorter than that.
pub decode_block-encode_entries :
    (entries : Entries)
    → length entries < 2 ^ 32
    → AllFit entries
    → decode_block (flush_data_block (encode_entries entries) (length entries)) ≡ ok entries
decode_block-encode_entries entries few fit =
    decode_block-flush_data_block (length entries) (encode_entries entries) few
    ∙ read_entries-encode_entries entries fit
