-- ===== src/Engine/Examples.antt =====
-- Runs of src/engine.rs on a small database, its unit tests among them.
use lsm_storage_engine.Common.{
  ℕ, leb, ◌<◌, ◌≡◌, refl, arith, false, none, some, [], ◌∷◌, if◌then◌else◌,
}
use lsm_storage_engine.Common.Bytes.{cmp, eq_bytes}
use lsm_storage_engine.Common.SortedMap
use lsm_storage_engine.Common.SortedMap.{lookup}
use lsm_storage_engine.Error.{ok, err, empty_key, other_error}
use lsm_storage_engine.Crc.{crc32}
use lsm_storage_engine.Record.{
  Operation, put, encode, decode, decode_operation, build_record, key_of,
}
use lsm_storage_engine.MemTable.{MemTable, value, tombstone}
use lsm_storage_engine.MemTable
use lsm_storage_engine.Failpoints.{manifest_write}
use lsm_storage_engine.Bloom.Whole.{whole}
use lsm_storage_engine.Cache
use lsm_storage_engine.Wal.{Wal, open_file, replay}
use lsm_storage_engine.Wal
use lsm_storage_engine.Wal.Torn.{encode_all}
use lsm_storage_engine.Manifest
use lsm_storage_engine.SsTable.Create.{SsTable}
use lsm_storage_engine.Engine.Options.{Options, for_test}
use lsm_storage_engine.Engine.State.{
  Engine, get, get_from_tables, validate_key, lookup_memtable, apply, ◌and_then◌,
}
use lsm_storage_engine.Engine.Version.{
  CompactionJob, pick_compaction, sort_level, span, overlapping, tables_newest_first,
}
use lsm_storage_engine.Engine.Open.{open_with, load_tables, arrange, apply_all}
use lsm_storage_engine.Manifest.{open_manifest, recover, recover_loop}
use lsm_storage_engine.Wal.{collect, next}
use lsm_storage_engine.Engine.Restart.{open_with-IsLogged}
use lsm_storage_engine.Engine.Write.{write, put_key, flush_frozen, copy_all}
use lsm_storage_engine.Engine.Durable.{IsLogged, write-IsLogged}
use lsm_storage_engine.Engine.Reads.{IsFrozen, value_of_write, get-write, flush_frozen-IsFrozen}
use lsm_storage_engine.Engine.Scan.{in_range, past_end}
use lsm_storage_engine.Engine.Bounds.{pick_compaction-lt}

program : Unit {0}
unfolding open_with sort_level load_tables arrange open_manifest recover recover_loop replay collect
    next cmp lookup SortedMap.insert crc32 encode decode decode_operation build_record encode_all
    MemTable.put MemTable.delete MemTable.insert MemTable.get Cache.new Wal.append Wal.sync
    Wal.open_file get get_from_tables validate_key lookup_memtable apply ◌and_then◌ apply_all write
    put_key flush_frozen copy_all in_range past_end tables_newest_first span overlapping
    pick_compaction Manifest.next_table_id Manifest.append
program = tt

abbrev put_a : Operation
put_a = put (b'a' ∷ []) (b'1' ∷ [])

abbrev put_b : Operation
put_b = put (b'b' ∷ []) (b'2' ∷ [])

-- A rate of 0 stands in for 0.01.
abbrev tested : Options ℕ
tested = for_test 0

-- A database after `put_a`.
abbrev database : Engine ℕ
database = record {
  path = b'd' ∷ [];
  options = tested;
  wal = record { path = "wal.log"; contents = build_record 1 (b'a' ∷ []) (b'1' ∷ []); synced = 15 };
  memtable = record { entries = (b'a' ∷ [], value (b'1' ∷ [])) ∷ []; approximate_size = 2 };
  immutable = none;
  version = [] ∷ [] ∷ [] ∷ [] ∷ [];
  manifest = record { failpoint = none; file = []; next_id = 1; tables = [] };
  cache = Cache.new 16384;
  last_error = none;
  bloom_skips = 0;
  sstable_reads = 0;
  worker = [];
  files = [];
  failpoint = none;
}

database-IsLogged : IsLogged database
unfolding program
database-IsLogged = record { operations = put_a ∷ []; file = refl; memory = refl }

put_b_ok : (write whole put_b database).0 ≡ ok tt
unfolding program
put_b_ok = refl

write-IsLogged_example : IsLogged (write whole put_b database).1
write-IsLogged_example = write-IsLogged whole put_b database database-IsLogged put_b_ok

b_valid : validate_key (b'b' ∷ []) ≡ ok tt
unfolding program
b_valid = refl

small :
    leb database.options.memtable_size_bytes (apply database.memtable put_b).approximate_size
    ≡ false
unfolding program
small = refl

get-write_example : (get (b'b' ∷ []) (write whole put_b database).1).0 ≡ (
    if eq_bytes (b'b' ∷ []) (key_of put_b)
    then ok (value_of_write put_b)
    else (get (b'b' ∷ []) database).0)
get-write_example = get-write whole put_b database (b'b' ∷ []) b_valid small put_b_ok

-- `put_and_get_work`, `delete_works`, `invalid_inputs_return_errors`
reads :
    ((get (b'b' ∷ []) (put_key whole (b'b' ∷ []) (b'2' ∷ []) database).1).0 ≡ ok (some (b'2' ∷ [])))
    × ((get (b'c' ∷ []) database).0 ≡ ok none)
    × ((put_key whole [] (b'2' ∷ []) database).0 ≡ err empty_key)
unfolding program
reads = (refl, refl, refl)

-- The flush cannot write to the manifest.
abbrev failing : Engine ℕ
failing = record database { failpoint = some manifest_write }

flush_fails : (flush_frozen whole failing).0 ≡ err (other_error "injected manifest write failure")
unfolding program
flush_fails = refl

flush_frozen-IsFrozen_example : IsFrozen failing (flush_frozen whole failing).1
flush_frozen-IsFrozen_example =
    flush_frozen-IsFrozen whole failing (other_error "injected manifest write failure") (tt, tt)
      flush_fails

-- Two tables in L0, which is the trigger of the test options.
abbrev table : ℕ → SsTable
table id = record {
  id = id;
  path = [];
  index = [];
  bloom = record { bits = []; hash_count = 1 };
  smallest = b'a' ∷ [];
  largest = b'z' ∷ [];
  size_bytes = 100;
  level = 0;
}

abbrev job : CompactionJob
job = record { inputs = table 2 ∷ table 1 ∷ []; output_level = 1 }

picked : pick_compaction tested ((table 2 ∷ table 1 ∷ []) ∷ [] ∷ []) ≡ some job
unfolding program
picked = refl

pick_compaction-lt_example : 1 < 4
pick_compaction-lt_example =
    pick_compaction-lt tested ((table 2 ∷ table 1 ∷ []) ∷ [] ∷ []) job (omega arith) picked

-- The restart gives the same state, since nothing was cached or queued.
reopened : open_with (b'd' ∷ []) tested none [] [] (some database.wal.contents) ≡ ok database
unfolding program
reopened = refl

open_with-IsLogged_example : (database.memtable ≡ database.memtable) × IsLogged database
open_with-IsLogged_example =
    open_with-IsLogged (b'd' ∷ []) tested none [] [] database database database-IsLogged reopened
