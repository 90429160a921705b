-- ===== src/Engine/Write.antt =====
-- src/engine.rs: the flush and writes.
use lsm_storage_engine.Common.{ℕ, none, some, [], ◌∷◌, ◌++◌, leb, if◌then◌else◌, length}
use lsm_storage_engine.Common.Bytes.{Bytes}
use lsm_storage_engine.Error.{Result, ok}
use lsm_storage_engine.MemTable.{MemTable, Entry, value, tombstone}
use lsm_storage_engine.MemTable
use lsm_storage_engine.Record.{Operation, put, delete}
use lsm_storage_engine.Files.{join, table_file_name}
use lsm_storage_engine.Bloom.Float.{F64}
use lsm_storage_engine.Wal.{Wal}
use lsm_storage_engine.Wal
use lsm_storage_engine.Manifest.{Manifest}
use lsm_storage_engine.Manifest
use lsm_storage_engine.SsTable.Format.{Entries}
use lsm_storage_engine.SsTable.Create.{SsTable, create}
use lsm_storage_engine.Engine.Version.{Version}
use lsm_storage_engine.Engine.State.{
  Engine, compact, validate_key, validate_value, apply, with_wal, with_manifest, with_disk,
  ◌and_then◌,
}

abbrev pub l0_len : Version → ℕ
l0_len [] = 0
l0_len (l0 ∷ levels) = length l0

abbrev pub insert_l0 : SsTable → Version → Version
insert_l0 t [] = []
insert_l0 t (l0 ∷ levels) = (t ∷ l0) ∷ levels

-- The table `imm` that the snapshot is copied into.
abbrev pub put_entry : MemTable → Bytes → Entry → MemTable
put_entry table key (value v) = MemTable.put table key v
put_entry table key tombstone = MemTable.delete table key

unfoldable pub copy_all : Entries → MemTable → MemTable
copy_all [] imm = imm
copy_all ((key, entry) ∷ snapshot) imm = copy_all snapshot (put_entry imm key entry)

module _ {Float : Type 0} where
  unfoldable pub maybe_request_compaction : Engine Float → Engine Float
  maybe_request_compaction e =
      if leb e.options.l0_compaction_trigger (l0_len e.version)
      then record e { worker = e.worker ++ compact ∷ [] }
      else e

module _ (f : F64) where
  open f use {Float}

  -- `flush_memtable` on a memtable that is not empty.
  unfoldable pub flush_frozen : Engine Float → Result (Unit {0}) × Engine Float
  unfolding copy_all
  flush_frozen e =
      let snapshot = MemTable.iter e.memtable in
      let frozen = record e {
        memtable = MemTable.new;
        immutable = some (copy_all snapshot MemTable.new);
      } in
      with_manifest Manifest.next_table_id frozen and_then λ id e₁.
      with_disk
        (create f (join e.path (table_file_name id)) id snapshot e.options.bloom_false_positive_rate
          e.options.block_size)
        e₁
      and_then λ table e₂. with_manifest (Manifest.add_table id 0) e₂ and_then λ _ e₃.
          with_wal Wal.truncate (record e₃ { version = insert_l0 table e₃.version })
          and_then λ _ e₄. (ok tt, record e₄ { immutable = none })

  unfoldable pub flush_memtable : Engine Float → Result (Unit {0}) × Engine Float
  unfolding flush_frozen
  flush_memtable e = if MemTable.is_empty e.memtable then with_wal Wal.sync e else flush_frozen e

  unfoldable pub flush : Engine Float → Result (Unit {0}) × Engine Float
  unfolding flush_memtable maybe_request_compaction
  flush e = flush_memtable e and_then λ _ e'. (ok tt, maybe_request_compaction e')

  unfoldable pub write : Operation → Engine Float → Result (Unit {0}) × Engine Float
  unfolding flush apply
  write operation e = with_wal (Wal.append operation) e and_then λ _ e₁.
      with_wal Wal.sync e₁ and_then λ _ e₂.
      let e₃ = record e₂ { memtable = apply e₂.memtable operation } in
      if leb e₃.options.memtable_size_bytes e₃.memtable.approximate_size
      then flush e₃
      else (ok tt, e₃)

  unfoldable pub put_key : Bytes → Bytes → Engine Float → Result (Unit {0}) × Engine Float
  unfolding write validate_key validate_value
  put_key key v e = (validate_key key, e) and_then λ _ e.
      (validate_value v, e) and_then λ _ e. write (put key v) e

  unfoldable pub delete_key : Bytes → Engine Float → Result (Unit {0}) × Engine Float
  unfolding write validate_key
  delete_key key e = (validate_key key, e) and_then λ _ e. write (delete key) e
