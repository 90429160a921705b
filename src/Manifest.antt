-- ===== src/Manifest.antt =====
-- src/manifest.rs: the log of which tables make up the database. The file is its bytes; the failpoint
-- cell that `append` looks at is part of the state. Operating-system calls succeed.
pub mod Records
pub mod Refine
pub mod Torn
pub mod Unique
pub mod Removal
mod Examples
use lsm_storage_engine.Common.{
  ℕ, zero, suc, ◌+◌, ◌%◌, ◌^◌, Bool, true, false, not, ◌||◌, List, [], ◌∷◌, ◌++◌, ltb, ◌==◌,
  if◌then◌else◌, length, get_or, take, drop, slice,
}
use lsm_storage_engine.Common.Bytes.{Bytes}
use lsm_storage_engine.Error.{
  Result, ok, err, ◌>>=◌, ◌>>◌, reject_if, other_error, invalid_manifest,
}
use lsm_storage_engine.Crc.{crc32, u32_le, u64_le, read_u32_le, read_u64_le}
use lsm_storage_engine.Failpoints.{Failpoint, should_fail, manifest_write}

abbrev pub type_add : ℕ
type_add = 1

abbrev pub type_remove : ℕ
type_remove = 2

abbrev pub type_next_id : ℕ
type_next_id = 3

abbrev pub record_len : ℕ
record_len = 4 + 1 + 8 + 4

pub data ManifestRecord : Type 0 where
  add_table_record : ℕ → ℕ → ManifestRecord
  remove_table_record : ℕ → ManifestRecord
  set_next_table_id : ℕ → ManifestRecord

-- A table's id and its level.
abbrev pub Tables : Type 0
Tables = List (ℕ × ℕ)

pub record Manifest : Type 0 where
  pub failpoint : Failpoint
  pub file : Bytes
  pub next_id : ℕ
  pub tables : Tables

-- The part of the manifest that `recover` rebuilds.
pub record Contents : Type 0 where
  pub next_id : ℕ
  pub tables : Tables

abbrev pub encode_body : ℕ → ℕ → ℕ → Bytes
encode_body kind id level = kind ∷ (u64_le id ++ u32_le level)

unfoldable pub encode_fields : ℕ → ℕ → ℕ → Bytes
encode_fields kind id level = let body = encode_body kind id level in u32_le (crc32 body) ++ body

unfoldable pub encode_record : ManifestRecord → Bytes
unfolding encode_fields
encode_record (add_table_record id level) = encode_fields type_add id level
encode_record (remove_table_record id) = encode_fields type_remove id 0
encode_record (set_next_table_id id) = encode_fields type_next_id id 0

unfoldable pub decode_body : Bytes → Result ManifestRecord
decode_body body =
    let kind = get_or body 0 0 in
    let id = read_u64_le (slice 1 9 body) in
    let level = read_u32_le (slice 9 13 body) in
    if not (length body == 13)
    then err invalid_manifest
    else if kind == type_add
    then ok (add_table_record id level)
    else if kind == type_remove
    then ok (remove_table_record id)
    else if kind == type_next_id
    then ok (set_next_table_id id)
    else err invalid_manifest

-- `self.tables.iter().any(|(existing, _)| *existing == id)`
unfoldable pub has_table : ℕ → Tables → Bool
has_table id [] = false
has_table id ((existing, level) ∷ tables) = existing == id || has_table id tables

-- `self.tables.retain(|(existing, _)| *existing != id)`
unfoldable pub without_table : ℕ → Tables → Tables
without_table id [] = []
without_table id ((existing, level) ∷ tables) =
    let rest = without_table id tables in if existing == id then rest else (existing, level) ∷ rest

-- The `match` in the loop of `recover`.
unfoldable pub apply_record : ManifestRecord → Contents → Result Contents
unfolding has_table without_table
apply_record (add_table_record id level) c =
    if has_table id c.tables
    then err invalid_manifest
    else ok (record c { tables = c.tables ++ (id, level) ∷ [] })
apply_record (remove_table_record id) c = ok (record c { tables = without_table id c.tables })
apply_record (set_next_table_id id) c = ok (record c { next_id = id })

-- The loop of `recover` over the bytes from `pos` on.
unfoldable pub recover_loop : ℕ → Bytes → Contents → Result Contents
recover_loop zero bytes c = ok c
recover_loop (suc fuel) bytes c =
    let rounds : Result Contents = (do
      reject_if (not (crc32 (slice 4 record_len bytes) == read_u32_le (take 4 bytes)))
          invalid_manifest
      r ← decode_body (slice 4 record_len bytes)
      c' ← apply_record r c
      recover_loop fuel (drop record_len bytes) c') in
    if ltb (length bytes) record_len then ok c else rounds

abbrev pub no_tables : Contents
no_tables = record { next_id = 1; tables = [] }

-- Each round takes a record, so there are no more rounds than bytes.
unfoldable pub recover : Bytes → Result Contents
recover bytes = recover_loop (length bytes) bytes no_tables

-- `Manifest::open` on a directory whose `MANIFEST` holds these bytes (none, if it is new).
unfoldable pub open_manifest : Failpoint → Bytes → Result Manifest
open_manifest failpoint bytes = do
  c ← recover bytes
  ok (record { failpoint = failpoint; file = bytes; next_id = c.next_id; tables = c.tables })

-- The private `append`.
unfoldable pub append : ManifestRecord → Manifest → Result (Unit {0}) × Manifest
append r m =
    let (failed, next) = should_fail manifest_write m.failpoint in
    let m' = record m { failpoint = next } in
    if failed
    then (err (other_error "injected manifest write failure"), m')
    else (ok tt, record m' { file = m.file ++ encode_record r })

-- What is pushed or removed in memory, after the append has succeeded.
abbrev after_append :
    Result (Unit {0}) × Manifest → (Manifest → Manifest) → Result (Unit {0}) × Manifest
after_append (ok _, m) change = (ok tt, change m)
after_append (err e, m) change = (err e, m)

unfoldable pub add_table : ℕ → ℕ → Manifest → Result (Unit {0}) × Manifest
unfolding has_table
add_table id level m =
    if has_table id m.tables
    then (err invalid_manifest, m)
    else after_append (append (add_table_record id level) m)
        (λ m'. record m' { tables = m'.tables ++ (id, level) ∷ [] })

unfoldable pub remove_table : ℕ → Manifest → Result (Unit {0}) × Manifest
unfolding without_table
remove_table id m =
    after_append (append (remove_table_record id) m)
      (λ m'. record m' { tables = without_table id m'.tables })

-- The `for` loop of `remove_tables`; an error ends it.
unfoldable pub remove_tables : List ℕ → Manifest → Result (Unit {0}) × Manifest
remove_tables [] m = (ok tt, m)
remove_tables (id ∷ ids) m = elim ((remove_table id m).0) [
  | ok _ ↦ remove_tables ids (remove_table id m).1
  | err e ↦ (err e, (remove_table id m).1)
]

abbrev with_id : ℕ → Result (Unit {0}) × Manifest → Result ℕ × Manifest
with_id id (ok _, m) = (ok id, m)
with_id id (err e, m) = (err e, m)

-- The counter moves in memory before the record is appended.
unfoldable pub next_table_id : Manifest → Result ℕ × Manifest
next_table_id m =
    let id = m.next_id in
    with_id id (append (set_next_table_id (id + 1)) (record m { next_id = id + 1 }))
