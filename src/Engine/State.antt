-- ===== src/Engine/State.antt =====
-- src/engine.rs: the state of a database, and reads.
use lsm_storage_engine.Common.{
  ℕ, ◌+◌, not, Option, none, some, List, [], ◌∷◌, ltb, ◌==◌, if◌then◌else◌, length, String,
}
use lsm_storage_engine.Common.Bytes.{Bytes}
use lsm_storage_engine.Error.{
  Result, ok, err, ◌>>◌, reject_if, empty_key, key_too_large, value_too_large,
}
use lsm_storage_engine.MemTable.{MemTable, Entry, value, tombstone}
use lsm_storage_engine.MemTable
use lsm_storage_engine.Record.{Operation, put, delete, max_key_size, max_value_size}
use lsm_storage_engine.Failpoints.{Failpoint}
use lsm_storage_engine.Files.{FilePath, Files}
use lsm_storage_engine.Cache.{BlockCache}
use lsm_storage_engine.Wal.{Wal}
use lsm_storage_engine.Wal
use lsm_storage_engine.Manifest.{Manifest}
use lsm_storage_engine.SsTable.Create.{SsTable, Disk}
use lsm_storage_engine.SsTable.Read.{contains_range, bloom_might_contain}
use lsm_storage_engine.SsTable.Read
use lsm_storage_engine.Engine.Options.{Options}
use lsm_storage_engine.Engine.Version.{Version, tables_newest_first}

-- Messages of the compaction worker (src/compaction.rs).
pub data CompactionMessage : Type 0 where
  compact shutdown : CompactionMessage

-- The fields of `Engine` and of `SharedState`, the worker's channel, the directory of table files and
-- the failpoint cell, which stands here and is lent to the log and the manifest for a call.
pub record Engine (Float : Type 0) : Type 0 where
  pub path : FilePath
  pub options : Options Float
  pub wal : Wal
  pub memtable : MemTable
  pub immutable : Option MemTable
  pub version : Version
  pub manifest : Manifest
  pub cache : BlockCache
  pub last_error : Option String
  pub bloom_skips : ℕ
  pub sstable_reads : ℕ
  pub worker : List CompactionMessage
  pub files : Files
  pub failpoint : Failpoint

unfoldable pub validate_key : Bytes → Result (Unit {0})
validate_key key =
    reject_if (length key == 0) empty_key >> reject_if (ltb max_key_size (length key)) key_too_large

unfoldable pub validate_value : Bytes → Result (Unit {0})
validate_value v = reject_if (ltb max_value_size (length v)) value_too_large

pub data Lookup : Type 0 where
  found : Bytes → Lookup
  deleted : Lookup
  miss : Lookup

abbrev pub lookup_of : Option Entry → Lookup
lookup_of none = miss
lookup_of (some (value v)) = found v
lookup_of (some tombstone) = deleted

unfoldable pub lookup_memtable : MemTable → Bytes → Lookup
lookup_memtable table key = lookup_of (MemTable.get table key)

unfoldable pub apply : MemTable → Operation → MemTable
apply table (put key v) = MemTable.put table key v
apply table (delete key) = MemTable.delete table key

abbrev pub value_of_entry : Entry → Option Bytes
value_of_entry (value v) = some v
value_of_entry tombstone = none

abbrev pub cache_or : Option BlockCache → BlockCache → BlockCache
cache_or none c = c
cache_or (some c') c = c'

abbrev pub lookup_immutable : Option MemTable → Bytes → Lookup
lookup_immutable none key = miss
lookup_immutable (some table) key = lookup_memtable table key

module _ {Float : Type 0} where
  -- The calls that share the failpoint cell.
  abbrev pub with_wal :
      {A : Type 0} → (Wal.State → Result A × Wal.State) → Engine Float → Result A × Engine Float
  with_wal run e =
      let (result, s) = run (record { failpoint = e.failpoint; wal = e.wal }) in
      (result, record e { failpoint = s.failpoint; wal = s.wal })

  abbrev pub with_manifest :
      {A : Type 0} → (Manifest → Result A × Manifest) → Engine Float → Result A × Engine Float
  with_manifest run e =
      let (result, m) = run (record e.manifest { failpoint = e.failpoint }) in
      (result, record e { failpoint = m.failpoint; manifest = m })

  abbrev pub with_disk :
      {A : Type 0} → (Disk → Result A × Disk) → Engine Float → Result A × Engine Float
  with_disk run e =
      let (result, d) = run (record { failpoint = e.failpoint; files = e.files }) in
      (result, record e { failpoint = d.failpoint; files = d.files })

  -- The `?` operator: an error ends the operation, in the state reached.
  infixl 4 ◌and_then◌
  unfoldable pub ◌and_then◌ :
      {A B : Type 0}
      → Result A × Engine Float
      → (A → Engine Float → Result B × Engine Float)
      → Result B × Engine Float
  (ok a, e) and_then k = k a e
  (err x, e) and_then k = (err x, e)

  -- The loop of `get_from_tables`.
  unfoldable pub get_from_tables :
      Bytes → List SsTable → Engine Float → Result (Option Bytes) × Engine Float
  get_from_tables key [] e = (ok none, e)
  get_from_tables key (t ∷ tables) e =
      let (result, cache) = Read.get key t e.files (some e.cache) in
      let e' = record e { sstable_reads = e.sstable_reads + 1; cache = cache_or cache e.cache } in
      let skipped = get_from_tables key tables (record e { bloom_skips = e.bloom_skips + 1 }) in
      let passed = get_from_tables key tables e in
      let missed = get_from_tables key tables e' in
      let read : Result (Option Bytes) × Engine Float = elim result [
        | ok (some entry) ↦ (ok (value_of_entry entry), e')
        | ok none ↦ missed
        | err x ↦ (err x, e')
      ] in
      if not (contains_range key t)
      then passed
      else if not (bloom_might_contain key t)
      then skipped
      else read

  unfoldable pub get : Bytes → Engine Float → Result (Option Bytes) × Engine Float
  unfolding get_from_tables validate_key
  get key e = (validate_key key, e) and_then λ _ e. elim (lookup_memtable e.memtable key) [
    | found v ↦ (ok (some v), e)
    | deleted ↦ (ok none, e)
    | miss ↦ elim (lookup_immutable e.immutable key) [
      | found v ↦ (ok (some v), e)
      | deleted ↦ (ok none, e)
      | miss ↦ get_from_tables key (tables_newest_first e.version) e
    ]
  ]
