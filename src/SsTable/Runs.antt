-- ===== src/SsTable/Runs.antt =====
-- Runs of `SsTable::create` and of reads of the table that it makes.
use lsm_storage_engine.Common.{◌≡◌, refl, arith, false, some, none, List, [], ◌∷◌}
use lsm_storage_engine.Common.Bytes.{cmp, eq_bytes}
use lsm_storage_engine.Common.SortedMap.{lookup, IsSorted}
use lsm_storage_engine.Error.{Result, ok, err, other_error}
use lsm_storage_engine.MemTable.{value, tombstone}
use lsm_storage_engine.Failpoints.{rename}
use lsm_storage_engine.Files.{FilePath, read_file, tmp_path}
use lsm_storage_engine.Bloom.Whole.{whole}
use lsm_storage_engine.Cache.{BlockCache}
use lsm_storage_engine.Cache
use lsm_storage_engine.SsTable.Format.{Entries}
use lsm_storage_engine.SsTable.Create.{SsTable, Disk, insert_sorted, sort_entries, create}
use lsm_storage_engine.SsTable.Read.{get}
use lsm_storage_engine.SsTable.World.{World, Coherent, IsTable}
use lsm_storage_engine.SsTable.Lookup.{Answered, get-Answered}
use lsm_storage_engine.SsTable.Outcome.{read_file-create_err}
use lsm_storage_engine.SsTable.Created.{with_table, create-IsTable}

program : Unit {0}
unfolding cmp insert_sorted sort_entries create read_file tmp_path Cache.new Cache.get Cache.find
program = tt

abbrev three : Entries
three =
    (b'a' ∷ [], value (b'1' ∷ []))
    ∷ (b'b' ∷ [], tombstone)
    ∷ (b'd' ∷ [], value (b'4' ∷ b'4' ∷ []))
    ∷ []

three-IsSorted : IsSorted three
unfolding program
three-IsSorted = ((refl, (refl, tt)), ((refl, tt), (tt, tt)))

abbrev path : FilePath
path = b't' ∷ []

-- Blocks of ten bytes, so that every entry has a block of its own.
abbrev run : Disk → Result SsTable × Disk
run d = create whole path 1 three 0 10 d

abbrev empty_disk : Disk
empty_disk = record { failpoint = none; files = [] }

abbrev table_or : SsTable → Result SsTable → SsTable
table_or t (ok t') = t'
table_or t (err x) = t

abbrev no_table : SsTable
no_table = record {
  id = 0;
  path = [];
  index = [];
  bloom = record { bits = []; hash_count = 1 };
  smallest = [];
  largest = [];
  size_bytes = 0;
  level = 0;
}

abbrev table : SsTable
table = table_or no_table (run empty_disk).0

created : run empty_disk ≡ (ok table, (run empty_disk).1)
unfolding program
created = refl

abbrev nothing : World
nothing k = none

create-IsTable_example :
    (blocks : List Entries) × IsTable
      (with_table table blocks nothing)
      (run empty_disk).1.files
      table
      three
create-IsTable_example =
    create-IsTable whole nothing path 1 three 0 10 empty_disk (run empty_disk).1 table created
      three-IsSorted (omega arith) (λ held. omega arith)

abbrev world : World
world = with_table table create-IsTable_example.0 nothing

abbrev cache : BlockCache
cache = Cache.new 4096

cache-Coherent : Coherent world cache
unfolding program
cache-Coherent k b found = absurd cc

get-Answered_example :
    Answered world
      (get (b'b' ∷ []) table (run empty_disk).1.files (some cache))
      (lookup (b'b' ∷ []) three)
get-Answered_example =
    get-Answered world (run empty_disk).1.files (b'b' ∷ []) table three (some cache)
      create-IsTable_example.1 cache-Coherent

-- The rename fails, and the old file of the name stays.
abbrev old_disk : Disk
old_disk = record { failpoint = some rename; files = (path, 1 ∷ 2 ∷ 3 ∷ []) ∷ [] }

rename_fails : (run old_disk).0 ≡ err (other_error "injected rename failure")
unfolding program
rename_fails = refl

other_name : eq_bytes path (tmp_path path) ≡ false
unfolding program
other_name = refl

read_file-create_err_example : read_file path (run old_disk).1.files ≡ read_file path old_disk.files
read_file-create_err_example =
    read_file-create_err whole path 1 three 0 10 old_disk (other_error "injected rename failure")
      other_name rename_fails
