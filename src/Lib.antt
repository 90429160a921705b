-- ===== src/Lib.antt =====
-- An LSM-tree storage engine in Rust, and what holds of it.
--
-- A write is encoded as a record (src/record.rs), appended to the write-ahead log and synced
-- (src/wal.rs), and applied to the memtable (src/memtable.rs). A full memtable becomes a sorted
-- table on disk (src/sstable.rs); compaction (src/compaction.rs) merges tables; src/engine.rs puts
-- the parts together, with the settings of src/options.rs. The manifest (src/manifest.rs) is the log
-- of the tables that make up the database. Each table has a Bloom filter (src/bloom.rs), and decoded
-- blocks are kept in a bounded cache (src/cache.rs). Every structure on disk carries a checksum
-- (src/crc.rs).
--
-- Which file models what:
--   Common      numbers, lists, byte strings and their order, sorted maps (`BTreeMap`)
--   Error       src/error.rs: `Error`, `Result`, `eq`, `to_string`, `from_io`
--   Crc         src/crc.rs: `crc32`, `read_u32_le`, `read_u64_le`
--   Record      src/record.rs: `encode`, `decode`
--   Failpoints  `mod failpoints` of src/wal.rs
--   Wal         src/wal.rs: `append`, `sync`, `truncate`, `next`, `replay`
--   MemTable    src/memtable.rs
--   Manifest    src/manifest.rs: `recover`, `add_table`, `remove_tables`, `next_table_id`
--   Bloom       src/bloom.rs
--   Cache       src/cache.rs
--   Files       the calls of `std::fs`, and the names of table files (Names)
--   SsTable     src/sstable.rs: Format (blocks, index, footer), Create (`create`), Open (`open`),
--               Read (`get`, `load_block`, the iterator); the other modules prove
--   Compaction  src/compaction.rs: `merge_tables` and `compact`; the worker is in Engine/Compact
--   Engine      src/options.rs (Options) and src/engine.rs: Version (levels, `pick_compaction`,
--               `apply_compaction`), State (`get`), Write (`put`, `delete`, `flush`), Compact
--               (`compact_once`, `worker_loop`), Open (`open_with`), Scan (`EngineIterator`)
--   Workload    src/bin/workload.rs: the workloads and the loop of `main`
-- A table on disk is related to its entries by `IsTable` of SsTable/World, and a database to a map from
-- keys to values by `Shows` of Engine/Shows: the memtable, and the lists of entries of the tables,
-- newest first. The world of SsTable/World says what block is at each place of each table; the cache
-- may hold nothing else. The modules below Engine/Levels follow one key through the levels of tables
-- when a compaction changes them.
-- The definitions of a part stand in the file of that name or in the modules named, and the other
-- modules below it prove things about them; `Examples` holds runs at concrete inputs.
--
-- Bytes, `u32`, `u64` and `usize` are natural numbers, with wrap-around written out where the source
-- wraps.
-- A file is its bytes. An operation takes the state and returns its result beside the new state,
-- also when it fails. The failpoint of the calling thread is part of that state; the worker's thread
-- has one of its own, in which nothing is armed. Other calls of the operating system succeed: errors
-- of them after some bytes are written, or after a rename, are not modelled. A crash is modelled by
-- what is left of the file.
--
-- Loops run on fuel that is enough: the log's iterator and the recovery of the manifest consume at
-- least a byte in each round, and get as much fuel as there are bytes. The merge of a compaction gets
-- more fuel than its tables can have entries, since a block has no more than its file has bytes; a
-- scan gets as much. The loops over the rows of a table get a round for each row.
--
-- Handles on tables are copies of them, since a table never changes. The engine is one state with the
-- worker's messages in it, and a message is handled between two calls; the locks, and a pass that
-- runs while a flush does, are not modelled. A compaction removes no table file: see Engine/Compact.
--
-- Floating-point numbers, which size a Bloom filter, are the interface `F64` of Bloom/Float: of the
-- operations only one fact is assumed, that the maximum with 64.0 casts to at least 64.
--
-- A database without levels (`max_levels` 0) panics in the source at the first access to `levels[0]`;
-- the model leaves the list of levels empty. The size limit of a level and the
-- counter of the manifest are computed without overflow.
--
-- Not modelled: directory syncs, file handles, locks, threads' panics, `Error::source`, and the
-- arguments, the clock and the statistics of the workload generator.
pub mod Common
pub mod Error
pub mod Crc
pub mod Record
pub mod MemTable
pub mod Failpoints
pub mod Wal
pub mod Manifest
pub mod Bloom
pub mod Cache
pub mod Files
pub mod SsTable
pub mod Compaction
pub mod Engine
pub mod Workload
