-- ===== src/Engine/Newest/Examples.antt =====
-- Reads and a scan of a database with a table in each of two levels.
use lsm_storage_engine.Common.{ℕ, ◌≡◌, refl, arith, none, List, [], ◌∷◌}
use lsm_storage_engine.Common.Bytes.{cmp}
use lsm_storage_engine.Common.SortedMap.{IsSorted}
use lsm_storage_engine.Error.{Result, ok, err}
use lsm_storage_engine.Files.{read_file, tmp_path, write_file, rename_file}
use lsm_storage_engine.MemTable.{value, tombstone}
use lsm_storage_engine.MemTable
use lsm_storage_engine.Bloom.Whole.{whole}
use lsm_storage_engine.Bloom
use lsm_storage_engine.Bloom.Contains
use lsm_storage_engine.Cache
use lsm_storage_engine.SsTable.Format.{Entries}
use lsm_storage_engine.SsTable.Create.{SsTable, Disk, insert_sorted, sort_entries, create}
use lsm_storage_engine.SsTable.World.{World, IsTable, Coherent}
use lsm_storage_engine.SsTable.Created.{with_table, create-IsTable}
use lsm_storage_engine.Engine.Options.{for_test}
use lsm_storage_engine.Engine.State.{Engine, get, validate_key}
use lsm_storage_engine.Engine.View.{Reads, value_of, after_read}
use lsm_storage_engine.SsTable.Frame.{IsTable-same}
use lsm_storage_engine.Engine.Scan.{included, unbounded, scan}
use lsm_storage_engine.Engine.Scan.Ordered.{Scans, scan-Scans}
use lsm_storage_engine.Engine.Newest.{LevelsHold, newest_of, get-newest_of}

program : Unit {0}
unfolding cmp insert_sorted sort_entries create read_file validate_key Cache.new Cache.get
    Cache.find
program = tt

abbrev older : Entries
older = (b'a' ∷ [], value (b'1' ∷ [])) ∷ (b'b' ∷ [], value (b'1' ∷ [])) ∷ []

abbrev newer : Entries
newer = (b'a' ∷ [], tombstone) ∷ (b'c' ∷ [], value (b'2' ∷ [])) ∷ []

older-IsSorted : IsSorted older
unfolding program
older-IsSorted = ((refl, tt), (tt, tt))

newer-IsSorted : IsSorted newer
unfolding program
newer-IsSorted = ((refl, tt), (tt, tt))

abbrev table_or : SsTable → Result SsTable → SsTable
table_or t (ok t') = t'
table_or t (err x) = t

abbrev no_table : SsTable
no_table = record {
  id = 0;
  path = [];
  index = [];
  bloom = record { bits = []; hash_count = 1 };
  smallest = [];
  largest = [];
  size_bytes = 0;
  level = 0;
}

abbrev first_run : Result SsTable × Disk
first_run = create whole (b's' ∷ []) 1 older 0 10 (record { failpoint = none; files = [] })

abbrev second_run : Result SsTable × Disk
second_run = create whole (b't' ∷ []) 2 newer 0 10 first_run.1

abbrev older_table : SsTable
older_table = table_or no_table first_run.0

abbrev newer_table : SsTable
newer_table = table_or no_table second_run.0

first_created : first_run ≡ (ok older_table, first_run.1)
unfolding program
first_created = refl

second_created : second_run ≡ (ok newer_table, second_run.1)
unfolding program
second_created = refl

abbrev nothing : World
nothing k = none

older_table-IsTable :
    (blocks : List Entries) × IsTable
      (with_table older_table blocks nothing)
      first_run.1.files
      older_table
      older
older_table-IsTable =
    create-IsTable whole nothing (b's' ∷ []) 1 older 0 10 (record { failpoint = none; files = [] })
      first_run.1 older_table first_created older-IsSorted (omega arith) (λ held. omega arith)

abbrev older_world : World
older_world = with_table older_table older_table-IsTable.0 nothing

newer_table-IsTable :
    (blocks : List Entries) × IsTable
      (with_table newer_table blocks older_world)
      second_run.1.files
      newer_table
      newer
newer_table-IsTable =
    create-IsTable whole older_world (b't' ∷ []) 2 newer 0 10 first_run.1 second_run.1 newer_table
      second_created newer-IsSorted (omega arith) (λ held. omega arith)

abbrev world : World
world = with_table newer_table newer_table-IsTable.0 older_world

older_file :
    read_file older_table.path second_run.1.files ≡ read_file older_table.path first_run.1.files
unfolding program Bloom.new Contains.insert_all tmp_path write_file rename_file
older_file = refl

older_blocks :
    (o : ℕ)
    → world (record { table_id = older_table.id; offset = o })
      ≡ older_world (record { table_id = older_table.id; offset = o })
unfolding program
older_blocks o = refl

abbrev database : Engine ℕ
database = record {
  path = b'd' ∷ [];
  options = for_test 0;
  wal = record { path = "wal.log"; contents = []; synced = 0 };
  memtable = MemTable.new;
  immutable = none;
  version = (newer_table ∷ []) ∷ (older_table ∷ []) ∷ [] ∷ [] ∷ [];
  manifest = record { failpoint = none; file = []; next_id = 3; tables = [] };
  cache = Cache.new 16384;
  last_error = none;
  bloom_skips = 0;
  sstable_reads = 0;
  worker = [];
  files = second_run.1.files;
  failpoint = none;
}

abbrev lists : List (List Entries)
lists = (newer ∷ []) ∷ (older ∷ []) ∷ [] ∷ [] ∷ []

levels_hold : LevelsHold world second_run.1.files database.version lists
levels_hold = (
  (newer_table-IsTable.1, tt),
  (
    (
      IsTable-same older_world world first_run.1.files second_run.1.files older_table older
          older_file older_blocks older_table-IsTable.1,
      tt,
    ),
    (tt, (tt, tt)),
  ),
)

nothing_cached : Coherent world (Cache.new 16384)
unfolding program
nothing_cached k b found = absurd cc

valid : (c : ℕ) → validate_key (c ∷ []) ≡ ok tt
unfolding program
valid c = refl

-- The table of the second level is read, and its block is kept.
first_read :
    Reads world database
      (get (b'b' ∷ []) database)
      (value_of (newest_of database lists (b'b' ∷ [])))
first_read = get-newest_of world (b'b' ∷ []) lists database (valid b'b') levels_hold nothing_cached

abbrev database_after : Engine ℕ
database_after = after_read database first_read.cache first_read.skips first_read.reads

-- A deletion in the first level hides what the second holds.
get-newest_of_example :
    Reads world database_after
      (get (b'a' ∷ []) database_after)
      (value_of (newest_of database_after lists (b'a' ∷ [])))
get-newest_of_example =
    get-newest_of world (b'a' ∷ []) lists database_after (valid b'a') levels_hold
      first_read.coherent

-- An entry in the memtable too, and a range that starts behind the deletion.
abbrev written : Engine ℕ
written = record database {
  memtable = record { entries = (b'd' ∷ [], value (b'4' ∷ [])) ∷ []; approximate_size = 2 };
}

scan-Scans_example :
    Scans
      (included (b'b' ∷ []))
      unbounded
      written
      lists
      (scan (included (b'b' ∷ [])) unbounded written)
scan-Scans_example =
    scan-Scans world (included (b'b' ∷ [])) unbounded lists written levels_hold (tt, tt) tt
