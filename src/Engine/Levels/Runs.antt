-- ===== src/Engine/Levels/Runs.antt =====
-- A compaction of one table of the first level.
use lsm_storage_engine.Common.{
  ℕ, ◌≡◌, refl, arith, Bool, none, some, List, [], ◌∷◌, map, ◌==◌, if◌then◌else◌,
}
use lsm_storage_engine.Common.Bytes.{cmp}
use lsm_storage_engine.Common.SortedMap.{IsSorted}
use lsm_storage_engine.Error.{Result, ok, err}
use lsm_storage_engine.MemTable.{value, tombstone}
use lsm_storage_engine.Bloom.Whole.{whole}
use lsm_storage_engine.SsTable.Format.{Entries}
use lsm_storage_engine.SsTable.Create.{SsTable, Disk, insert_sorted, sort_entries, create}
use lsm_storage_engine.SsTable.World.{World, IsTable}
use lsm_storage_engine.SsTable.Created.{with_table, create-IsTable}
use lsm_storage_engine.Compaction.{merge_tables}
use lsm_storage_engine.Compaction.Newest.{newest}
use lsm_storage_engine.Compaction.Correct.{Merged}
use lsm_storage_engine.Compaction.Output.{merge_tables-TablesHold}
use lsm_storage_engine.Engine.Options.{Options, for_test}
use lsm_storage_engine.Engine.View.{value_of}
use lsm_storage_engine.Engine.Version.{
  Version, CompactionJob, pick_compaction, span, overlapping, apply_compaction, drop_tombstones,
  tables_newest_first,
}
use lsm_storage_engine.Engine.Levels.Same.{value_of-compaction}

program : Unit {0}
unfolding cmp insert_sorted sort_entries create pick_compaction span overlapping tables_newest_first
program = tt

abbrev two : Entries
two = (b'a' ∷ [], value (b'1' ∷ [])) ∷ (b'b' ∷ [], tombstone) ∷ []

two-IsSorted : IsSorted two
unfolding program
two-IsSorted = ((refl, tt), (tt, tt))

abbrev table_or : SsTable → Result SsTable → SsTable
table_or t (ok t') = t'
table_or t (err x) = t

abbrev no_table : SsTable
no_table = record {
  id = 2;
  path = b'u' ∷ [];
  index = [];
  bloom = record { bits = []; hash_count = 1 };
  smallest = [];
  largest = [];
  size_bytes = 0;
  level = 1;
}

abbrev run : Result SsTable × Disk
run = create whole (b't' ∷ []) 1 two 0 10 (record { failpoint = none; files = [] })

abbrev table : SsTable
table = table_or no_table run.0

created : run ≡ (ok table, run.1)
unfolding program
created = refl

abbrev nothing : World
nothing k = none

table-IsTable :
    (blocks : List Entries) × IsTable (with_table table blocks nothing) run.1.files table two
table-IsTable =
    create-IsTable whole nothing (b't' ∷ []) 1 two 0 10 (record { failpoint = none; files = [] })
      run.1 table created two-IsSorted (omega arith) (λ held. omega arith)

abbrev world : World
world = with_table table table-IsTable.0 nothing

-- A table in the first level starts a compaction.
abbrev eager : Options ℕ
eager = record (for_test 0) { l0_compaction_trigger = 1 }

abbrev version : Version
version = (table ∷ []) ∷ [] ∷ [] ∷ [] ∷ []

abbrev job : CompactionJob
job = record { inputs = table ∷ []; output_level = 1 }

picked : pick_compaction eager version ≡ some job
unfolding program
picked = refl

abbrev drop : Bool
drop = drop_tombstones 4 job version

merged : Merged (merge_tables run.1.files (table ∷ []) drop) drop (two ∷ [])
merged =
    merge_tables-TablesHold world run.1.files (table ∷ []) (two ∷ []) drop (table-IsTable.1, tt)

-- What the tables hold; the output has the number 2.
abbrev contents : SsTable → Entries
contents t = if t.id == 1 then two else merged.out

value_of-compaction_example :
    value_of (
      newest
        (b'b' ∷ [])
        (map contents (tables_newest_first (apply_compaction job no_table version))))
    ≡ value_of (newest (b'b' ∷ []) (map contents (tables_newest_first version)))
unfolding program
value_of-compaction_example =
    value_of-compaction world run.1.files contents eager version job no_table (b'b' ∷ []) refl
      (omega arith) picked (tt, tt) ((table-IsTable.1, tt), (tt, (tt, (tt, tt))))
      (tt, (tt, (tt, tt))) merged.is_merge
