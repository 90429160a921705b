-- ===== src/Engine/Runs.antt =====
-- Runs of src/engine.rs from the first opening of a database on.
use lsm_storage_engine.Common.{ℕ, ◌^◌, ◌<◌, ◌≡◌, refl, arith, some, none, [], ◌∷◌}
use lsm_storage_engine.Common.Bytes.{cmp}
use lsm_storage_engine.Common.SortedMap
use lsm_storage_engine.Common.SortedMap.{lookup}
use lsm_storage_engine.Error.{ok}
use lsm_storage_engine.Failpoints.{ss_table_write}
use lsm_storage_engine.Crc.{crc32}
use lsm_storage_engine.Record.{Operation, put, encode, build_record}
use lsm_storage_engine.MemTable
use lsm_storage_engine.Bloom.Whole.{whole}
use lsm_storage_engine.Cache
use lsm_storage_engine.Wal.{collect, next, replay}
use lsm_storage_engine.Wal
use lsm_storage_engine.Manifest.{open_manifest, recover, recover_loop}
use lsm_storage_engine.Manifest
use lsm_storage_engine.SsTable.Segments.{room}
use lsm_storage_engine.SsTable.Create.{create}
use lsm_storage_engine.Engine.Options.{Options, for_test}
use lsm_storage_engine.Engine.State.{
  Engine, compact, shutdown, get, get_from_tables, validate_key, lookup_memtable, apply, ◌and_then◌,
}
use lsm_storage_engine.Engine.Version.{tables_newest_first, sort_level}
use lsm_storage_engine.Engine.Open.{open_with, load_tables, arrange, apply_all}
use lsm_storage_engine.Engine.Write.{
  write, flush, flush_memtable, flush_frozen, copy_all, maybe_request_compaction,
}
use lsm_storage_engine.Engine.Compact.{worker_loop}
use lsm_storage_engine.Engine.Shows.{Shows, flush-Shows}
use lsm_storage_engine.Engine.Written.{updated, write-Shows}
use lsm_storage_engine.Engine.Session.{
  Session, start, wrote, flushed, written_map, Session-Shows, get-Session, open_with-Shows,
}
use lsm_storage_engine.Engine.Worker.{passes, worker_loop-passes}

program : Unit {0}
unfolding open_with load_tables arrange open_manifest recover recover_loop replay collect next cmp
    lookup SortedMap.insert crc32 encode build_record MemTable.put MemTable.delete MemTable.insert
    MemTable.get MemTable.is_empty Cache.new Wal.append Wal.sync Wal.truncate Wal.open_file Wal.iter
    get get_from_tables validate_key lookup_memtable apply ◌and_then◌ apply_all write flush
    flush_memtable flush_frozen copy_all maybe_request_compaction tables_newest_first
    Manifest.next_table_id Manifest.append Manifest.add_table Manifest.encode_record create
    sort_level
program = tt

-- A rate of 0 stands in for 0.01.
abbrev tested : Options ℕ
tested = for_test 0

abbrev new_database : Engine ℕ
new_database = record {
  path = b'd' ∷ [];
  options = tested;
  wal = record { path = "wal.log"; contents = []; synced = 0 };
  memtable = MemTable.new;
  immutable = none;
  version = [] ∷ [] ∷ [] ∷ [] ∷ [];
  manifest = record { failpoint = none; file = []; next_id = 1; tables = [] };
  cache = Cache.new 16384;
  last_error = none;
  bloom_skips = 0;
  sstable_reads = 0;
  worker = [];
  files = [];
  failpoint = none;
}

opened : open_with (b'd' ∷ []) tested none [] [] none ≡ ok new_database
unfolding program
opened = refl

new_database-Shows : Shows new_database (written_map [])
new_database-Shows = open_with-Shows (b'd' ∷ []) tested none new_database (omega arith) opened

abbrev put_b : Operation
put_b = put (b'b' ∷ []) (b'2' ∷ [])

b_valid : validate_key (b'b' ∷ []) ≡ ok tt
unfolding program
b_valid = refl

few_bytes : room (apply MemTable.new put_b).entries < 2 ^ 32
unfolding program
few_bytes = omega arith

put_b_ok : (write whole put_b new_database).0 ≡ ok tt
unfolding program
put_b_ok = refl

write-Shows_example : Shows (write whole put_b new_database).1 (updated put_b (written_map []))
write-Shows_example =
    write-Shows whole put_b new_database (written_map []) new_database-Shows b_valid (omega arith)
      few_bytes put_b_ok

-- The database after the write.
abbrev written_database : Engine ℕ
written_database = record new_database {
  wal = record { path = "wal.log"; contents = build_record 1 (b'b' ∷ []) (b'2' ∷ []); synced = 15 };
  memtable = record {
    entries = (b'b' ∷ [], MemTable.value (b'2' ∷ [])) ∷ [];
    approximate_size = 2;
  };
}

one_write : Session whole new_database written_database (put_b ∷ [])
unfolding program
one_write = wrote new_database [] put_b start b_valid (omega arith) few_bytes put_b_ok

written_database-Shows : Shows written_database (written_map (put_b ∷ []))
unfolding program
written_database-Shows =
    Session-Shows whole new_database written_database (put_b ∷ []) new_database-Shows one_write

flush_ok : (flush whole written_database).0 ≡ ok tt
unfolding program
flush_ok = refl

flush-Shows_example : Shows (flush whole written_database).1 (written_map (put_b ∷ []))
flush-Shows_example =
    flush-Shows whole written_database (written_map (put_b ∷ [])) written_database-Shows
      (omega arith) (omega arith) flush_ok

-- A write, a flush and a read of the new table.
written_and_flushed : Session whole new_database (flush whole written_database).1 (put_b ∷ [])
written_and_flushed =
    flushed written_database (put_b ∷ []) one_write (omega arith) (omega arith) flush_ok

get-Session_example :
    (get (b'b' ∷ []) (flush whole written_database).1).0 ≡ ok (written_map (put_b ∷ []) (b'b' ∷ []))
get-Session_example =
    get-Session whole new_database (flush whole written_database).1 (put_b ∷ []) (b'b' ∷ [])
      new_database-Shows written_and_flushed b_valid

-- The flushed database with a table in its first level, which starts a compaction. Another failure
-- is armed, and a request stands behind the shutdown.
abbrev asked : Engine ℕ
asked = record (flush whole written_database).1 {
  options = record (for_test 0) { l0_compaction_trigger = 1 };
  worker = compact ∷ compact ∷ shutdown ∷ compact ∷ [];
  failpoint = some ss_table_write;
}

worker_loop-passes_example :
    worker_loop whole asked.worker asked ≡ record (passes whole 2 asked) { worker = compact ∷ [] }
worker_loop-passes_example = worker_loop-passes whole asked
