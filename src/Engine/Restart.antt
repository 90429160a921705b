-- ===== src/Engine/Restart.antt =====
-- A restart: what `open_with` makes of the log that an engine left.
use lsm_storage_engine.Common.{◌≡◌, sym, ◌∙◌, arith, some, inl, inr}
use lsm_storage_engine.Common.Bytes.{Bytes}
use lsm_storage_engine.Error.{ok, Result-cases}
use lsm_storage_engine.Failpoints.{Failpoint}
use lsm_storage_engine.Files.{FilePath, Files}
use lsm_storage_engine.MemTable
use lsm_storage_engine.Manifest.{open_manifest}
use lsm_storage_engine.Wal.{replay, open_file}
use lsm_storage_engine.Wal.Recovery.{replay-encode_all}
use lsm_storage_engine.Engine.Options.{Options}
use lsm_storage_engine.Engine.Version.{with_max_levels}
use lsm_storage_engine.Engine.State.{Engine}
use lsm_storage_engine.Engine.Open.{open_with, load_tables, apply_all}
use lsm_storage_engine.Engine.Durable.{IsLogged}

module _ {Float : Type 0} where
  -- If the log of an engine holds what its memtable holds, then an engine that is opened with that
  -- log has the same memtable, and its log holds what its memtable holds.
  pub open_with-IsLogged :
      (path : FilePath) (options : Options Float) (failpoint : Failpoint) (files : Files)
      (manifest_file : Bytes) (e e' : Engine Float)
      → IsLogged e
      → open_with path options failpoint files manifest_file (some e.wal.contents) ≡ ok e'
      → (e'.memtable ≡ e.memtable) × IsLogged e'
  unfolding open_with open_file
  open_with-IsLogged path options failpoint files manifest_file e e' l h =
      elim (Result-cases (open_manifest failpoint manifest_file)) [
        | inr (x, failed) ↦ absurd (ground arith)
        | inl (m, opened) ↦
            elim (Result-cases (
              load_tables path options.max_levels files m.tables
                (with_max_levels options.max_levels))) [
                  | inr (x, failed) ↦ absurd (ground arith)
                  | inl (version, loaded) ↦
                      (let replayed : replay (open_file "wal.log" (some e.wal.contents))
                            ≡ ok l.operations =
                          replay-encode_all l.operations (open_file "wal.log" (some e.wal.contents))
                            l.file in
                        let memory : e'.memtable ≡ apply_all l.operations MemTable.new =
                          ground arith in
                        let wal : e'.wal.contents ≡ e.wal.contents = ground arith in
                        (
                          memory ∙ sym l.memory,
                          record {
                            operations = l.operations;
                            file = rw wal l.file;
                            memory = memory;
                          },
                        ))
                ]
      ]
