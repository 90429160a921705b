-- ===== src/Engine/Open.antt =====
-- src/engine.rs: `open_with`, on a directory's table files, its manifest and its log.
use lsm_storage_engine.Common.{
  ℕ, ◌-◌, not, Option, none, List, [], ◌∷◌, ◌++◌, map, ltb, if◌then◌else◌, get_or, set, String,
}
use lsm_storage_engine.Common.Bytes.{Bytes}
use lsm_storage_engine.Error.{Result, ok, ◌>>=◌, ◌>>◌, reject_if, invalid_manifest}
use lsm_storage_engine.MemTable.{MemTable}
use lsm_storage_engine.MemTable
use lsm_storage_engine.Record.{Operation}
use lsm_storage_engine.Failpoints.{Failpoint}
use lsm_storage_engine.Files.{FilePath, Files, join, table_file_name, exists}
use lsm_storage_engine.Cache
use lsm_storage_engine.Wal
use lsm_storage_engine.Manifest.{Tables, open_manifest}
use lsm_storage_engine.SsTable.Create.{SsTable}
use lsm_storage_engine.SsTable.Open.{open_table}
use lsm_storage_engine.SsTable.Read.{set_level}
use lsm_storage_engine.Engine.Options.{Options}
use lsm_storage_engine.Engine.Version.{Version, Level, with_max_levels, sort_level}
use lsm_storage_engine.Engine.State.{Engine, apply}

-- `version.levels[level].push(table)`, in the last level if the number is too large.
unfoldable pub push_table : ℕ → SsTable → Version → Version
push_table level t version = set version level (get_or version level [] ++ t ∷ [])

-- The loop over the tables of the manifest.
unfoldable pub load_tables : FilePath → ℕ → Files → Tables → Version → Result Version
unfolding push_table
load_tables path max_levels files [] version = ok version
load_tables path max_levels files ((id, level) ∷ tables) version = do
  let table_path = join path (table_file_name id)
  reject_if (not (exists table_path files)) invalid_manifest
  t ← open_table table_path id files
  let dest = if ltb (max_levels - 1) level then max_levels - 1 else level
  load_tables path max_levels files tables (push_table dest (set_level level t) version)

abbrev reverse_onto : Level → Level → Level
reverse_onto [] done = done
reverse_onto (t ∷ level) done = reverse_onto level (t ∷ done)

-- L0 is reversed, and the later levels are sorted.
unfoldable pub arrange : Version → Version
arrange [] = []
arrange (l0 ∷ levels) = reverse_onto l0 [] ∷ map sort_level levels

unfoldable pub apply_all : List Operation → MemTable → MemTable
unfolding apply
apply_all [] table = table
apply_all (operation ∷ operations) table = apply_all operations (apply table operation)

-- The name of the log file.
abbrev pub wal_file_name : String
wal_file_name = "wal.log"

-- The log's iterator is run to its end before the operations are applied; the source applies each
-- as it is read, to a memtable that is lost when a later one is an error.
unfoldable pub open_with :
    {Float : Type 0}
    → FilePath
    → Options Float
    → Failpoint
    → Files
    → Bytes
    → Option Bytes
    → Result (Engine Float)
unfolding load_tables arrange apply_all
open_with path options failpoint files manifest_file log_file = do
  manifest ← open_manifest failpoint manifest_file
  version ←
      load_tables path options.max_levels files manifest.tables (with_max_levels options.max_levels)
  let wal = Wal.open_file wal_file_name log_file
  operations ← Wal.replay wal
  ok (record {
    path = path;
    options = options;
    wal = wal;
    memtable = apply_all operations MemTable.new;
    immutable = none;
    version = arrange version;
    manifest = manifest;
    cache = Cache.new options.cache_size_bytes;
    last_error = none;
    bloom_skips = 0;
    sstable_reads = 0;
    worker = [];
    files = files;
    failpoint = failpoint;
  })
