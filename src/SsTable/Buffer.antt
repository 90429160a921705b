-- ===== src/SsTable/Buffer.antt =====
-- The buffer of `SsTable::create`: its entries, their bytes, and one entry more.
use lsm_storage_engine.Common.{
  ◌+◌, ◌*◌, ◌≡◌, refl, sym, arith, Option, none, some, List, [], ◌∷◌, ◌++◌, length, length-append,
  append_assoc, append-nil,
}
use lsm_storage_engine.Common.Bytes.{Bytes}
use lsm_storage_engine.Crc.{u32_le, crc32}
use lsm_storage_engine.MemTable.{Entry, value, tombstone, value_len}
use lsm_storage_engine.SsTable.Format.{Entries, IndexEntry, encode_entry, flush_data_block}
use lsm_storage_engine.SsTable.Create.{first_of, last_key}
use lsm_storage_engine.SsTable.Blocks.{encode_entries}
use lsm_storage_engine.SsTable.Iterate.{flat}
use lsm_storage_engine.SsTable.Rows.{RowMatches, RowsMatch}
use lsm_storage_engine.SsTable.Segments.{block_bytes, room}

pub length-encode_entry :
    (k : Bytes) (e : Entry) → length (encode_entry k e) ≡ 9 + length k + value_len e
unfolding encode_entry
length-encode_entry k (value v) = omega (arith, length-append k v)
length-encode_entry k tombstone = omega arith

pub length-encode_entries : (l : Entries) → length (encode_entries l) + 8 * length l + 8 ≡ room l
unfolding encode_entries
length-encode_entries [] = omega arith
length-encode_entries ((k, e) ∷ l) = omega (
  arith,
  length-append (encode_entry k e) (encode_entries l),
  length-encode_entry k e,
  length-encode_entries l,
)

pub encode_entries-snoc :
    (l : Entries) (k : Bytes) (e : Entry)
    → encode_entries (l ++ (k, e) ∷ []) ≡ encode_entries l ++ encode_entry k e
unfolding encode_entries
encode_entries-snoc [] k e = append-nil (encode_entry k e)
encode_entries-snoc ((j, f) ∷ l) k e =
    rw (encode_entries-snoc l k e)
      (sym (append_assoc (encode_entry j f) (encode_entries l) (encode_entry k e)))

pub length-block_bytes : (l : Entries) → length (block_bytes l) + 8 * length l ≡ room l
unfolding flush_data_block
length-block_bytes l = omega (
  arith,
  length-append (u32_le (length l) ++ encode_entries l)
      (u32_le (crc32 (u32_le (length l) ++ encode_entries l))),
  length-encode_entries l,
)

-- The first key of the block that is not yet written.
abbrev pub block_first_of : Entries → Option Bytes
block_first_of [] = none
block_first_of ((k, e) ∷ l) = some k

pub first_of-snoc :
    (l : Entries) (k : Bytes) (e : Entry)
    → first_of (block_first_of l) k ≡ block_first_of (l ++ (k, e) ∷ [])
first_of-snoc [] k e = refl
first_of-snoc ((j, f) ∷ l) k e = refl

pub last_key-snoc : (l : Entries) (k : Bytes) (e : Entry) → last_key (l ++ (k, e) ∷ []) ≡ k
last_key-snoc [] k e = refl
last_key-snoc ((j, f) ∷ []) k e = refl
last_key-snoc ((j, f) ∷ (i, g) ∷ l) k e = last_key-snoc ((i, g) ∷ l) k e

pub length-snoc : (l : Entries) (k : Bytes) (e : Entry) → length (l ++ (k, e) ∷ []) ≡ length l + 1
length-snoc l k e = omega (arith, length-append l ((k, e) ∷ []))

pub flat-snoc :
    (blocks : List Entries) (block : Entries) → flat (blocks ++ block ∷ []) ≡ flat blocks ++ block
flat-snoc [] block = append-nil block
flat-snoc (b ∷ blocks) block =
    rw (flat-snoc blocks block) (sym (append_assoc b (flat blocks) block))

pub RowsMatch-snoc :
    (index : List IndexEntry) (blocks : List Entries) (row : IndexEntry) (block : Entries)
    → RowsMatch index blocks
    → RowMatches row block
    → RowsMatch (index ++ row ∷ []) (blocks ++ block ∷ [])
RowsMatch-snoc [] [] row block m r = (r, tt)
RowsMatch-snoc [] (b ∷ blocks) row block m r = absurd m
RowsMatch-snoc (x ∷ index) [] row block m r = absurd m
RowsMatch-snoc (x ∷ index) (b ∷ blocks) row block (q, m) r =
    (q, RowsMatch-snoc index blocks row block m r)
