-- ===== src/Engine/Scan/Ordered.antt =====
-- A scan of src/engine.rs, from the sources to the last pair.
use lsm_storage_engine.Common.{
  ℕ, ◌+◌, ◌<◌, ◌≡◌, refl, sym, ◌∙◌, arith, Bool, true, false, Option, none, some, List, [], ◌∷◌,
  ◌++◌, map, length, if◌then◌else◌,
}
use mathlib.Core.Path.{subst}
use lsm_storage_engine.Common.Bytes.{Bytes}
use lsm_storage_engine.Common.SortedMap.{lookup, Above, IsSorted}
use lsm_storage_engine.Common.SortedMap.Append.{or_else}
use lsm_storage_engine.Error.{Result, ok}
use lsm_storage_engine.MemTable.{MemTable, Entry, value, tombstone}
use lsm_storage_engine.Files.{Files}
use lsm_storage_engine.SsTable.Format.{Entries}
use lsm_storage_engine.SsTable.Create.{SsTable}
use lsm_storage_engine.SsTable.World.{World, TablesHold}
use lsm_storage_engine.Compaction.{entry_bound}
use lsm_storage_engine.Compaction.Newest.{newest, visible, AllSorted}
use lsm_storage_engine.Compaction.Merge.{total}
use lsm_storage_engine.Compaction.Tables.{enough}
use lsm_storage_engine.Compaction.Output.{
  blocks_of, blocks_of-AllRead, flats-blocks_of, TablesHold-AllSorted,
}
use lsm_storage_engine.Engine.State.{Engine}
use lsm_storage_engine.Engine.Version.{tables_newest_first}
use lsm_storage_engine.Engine.View.{value_of, frozen}
use lsm_storage_engine.Engine.Newest.{
  LevelsHold, all_of, newest_of, newest-all_of, tables_newest_first-TablesHold,
}
use lsm_storage_engine.Engine.Scan.{
  Bound, PeekSource, in_range, from_mem, collect_items, immutable_source, immutable_len, scan,
}
use lsm_storage_engine.Engine.Scan.Rounds.{AllSit, as_entry, Scanned, collect_items-Scanned}
use lsm_storage_engine.Engine.Scan.Sources.{
  filters, filters-AllSorted, total-filters, newest-filters, peek_vec-Sits, Opened,
  table_sources-Opened,
}

as_entry-Above : (k : Bytes) (l : List (Bytes × Bytes)) → Above k (map as_entry l) → Above k l
as_entry-Above k [] a = tt
as_entry-Above k ((j, v) ∷ l) (h, a) = (h, as_entry-Above k l a)

as_entry-IsSorted : (l : List (Bytes × Bytes)) → IsSorted (map as_entry l) → IsSorted l
as_entry-IsSorted [] s = tt
as_entry-IsSorted ((k, v) ∷ l) (a, s) = (as_entry-Above k l a, as_entry-IsSorted l s)

lookup-as_entry :
    (key : Bytes) (l : List (Bytes × Bytes)) → value_of (lookup key (map as_entry l)) ≡ lookup key l
unfolding lookup
lookup-as_entry key [] = refl
lookup-as_entry key ((k, v) ∷ l) = ground (arith, lookup-as_entry key l)

value_of-visible : (o : Option Entry) → value_of (visible true o) ≡ value_of o
unfolding visible
value_of-visible none = refl
value_of-visible (some tombstone) = refl
value_of-visible (some (value v)) = refl

value_of-chosen :
    (b : Bool) (o : Option Entry)
    → value_of (if b then o else none) ≡ (if b then value_of o else none)
value_of-chosen true o = refl
value_of-chosen false o = refl

TablesHold-total :
    (W : World) (files : Files) (tables : List SsTable) (ls : List Entries)
    → TablesHold W files tables ls
    → total ls < entry_bound files tables
TablesHold-total W files tables ls v =
    subst (λ l. total l < entry_bound files tables) (flats-blocks_of W files tables ls v)
      (enough files tables (blocks_of W files tables ls v) (blocks_of-AllRead W files tables ls v))

-- The lists of the memtable, of the frozen memtable, and of the tables.
abbrev lists_of : Entries → Option MemTable → List Entries → List Entries
lists_of entries none ls = entries ∷ ls
lists_of entries (some table) ls = entries ∷ table.entries ∷ ls

lists_of-AllSorted :
    (entries : Entries) (o : Option MemTable) (ls : List Entries)
    → IsSorted entries
    → IsSorted (frozen o)
    → AllSorted ls
    → AllSorted (lists_of entries o ls)
lists_of-AllSorted entries none ls s t u = (s, u)
lists_of-AllSorted entries (some table) ls s t u = (s, (t, u))

total-lists_of :
    (entries : Entries) (o : Option MemTable) (ls : List Entries)
    → total (lists_of entries o ls) ≡ length entries + immutable_len o + total ls
total-lists_of entries none ls = omega arith
total-lists_of entries (some table) ls = omega arith

newest-lists_of :
    (key : Bytes) (entries : Entries) (o : Option MemTable) (ls : List Entries)
    → newest key (lists_of entries o ls)
      ≡ or_else (lookup key entries) (or_else (lookup key (frozen o)) (newest key ls))
unfolding newest lookup
newest-lists_of key entries none ls = refl
newest-lists_of key entries (some table) ls = refl

all_sources-AllSit :
    (fuel : ℕ) (files : Files) (start end : Bound) (table : MemTable) (o : Option MemTable)
    (ls : List Entries) (sources : List PeekSource)
    → AllSit fuel files start end sources (filters start end ls)
    → AllSit fuel files start end
        (from_mem table start end ∷ (immutable_source o start end ++ sources))
        (filters start end (lists_of table.entries o ls))
unfolding from_mem
all_sources-AllSit fuel files start end table none ls sources h =
    (peek_vec-Sits fuel files start end _, h)
all_sources-AllSit fuel files start end table (some t) ls sources h =
    (peek_vec-Sits fuel files start end _, (peek_vec-Sits fuel files start end _, h))

module _ {Float : Type 0} where
  -- A scan yields pairs by rising key and no error: every key of the range with its value.
  pub record Scans (start end : Bound) (e : Engine Float) (lls : List (List Entries))
      (r : Result (List (Result (Bytes × Bytes)))) : Type 0 where
    pub out : List (Bytes × Bytes)
    pub yields : r ≡ ok (map ok out)
    pub sorted : IsSorted out
    pub holds :
        (key : Bytes)
        → lookup key out ≡ (if in_range key start end then value_of (newest_of e lls key) else none)

  -- If the tables of each level hold the lists given for it and the keys of the memtable and of
  -- the frozen one rise, then a scan succeeds and yields no error, with the fuel that it gets:
  -- the keys of its pairs rise, a key of the range stands among them with the value that the
  -- newest entry for it has, and a key that has no entry, or whose newest one is a deletion, or
  -- that lies outside the range, does not. The newest entry is the first in the memtable, the
  -- frozen memtable and the levels, in this order.
  pub scan-Scans :
      (W : World) (start end : Bound) (lls : List (List Entries)) (e : Engine Float)
      → LevelsHold W e.files e.version lls
      → IsSorted e.memtable.entries
      → IsSorted (frozen e.immutable)
      → Scans start end e lls (scan start end e)
  unfolding scan
  scan-Scans W start end lls e h memory imm =
      let tables : List SsTable = tables_newest_first e.version in
      let fuel : ℕ = entry_bound e.files tables in
      let ls : List Entries = all_of lls in
      let v : TablesHold W e.files tables ls =
        tables_newest_first-TablesHold W e.files e.version lls h in
      let all : List Entries = lists_of e.memtable.entries e.immutable ls in
      let o : Opened fuel e.files start end tables ls =
        table_sources-Opened fuel e.files start end W tables ls v
          (TablesHold-total W e.files tables ls v) in
      let rounds : ℕ = length e.memtable.entries + immutable_len e.immutable + fuel in
      let sources : List PeekSource =
        from_mem e.memtable start end ∷ (immutable_source e.immutable start end ++ o.sources) in
      let s : Scanned fuel e.files start end (collect_items fuel e.files start end rounds sources)
          (filters start end all) =
        collect_items-Scanned fuel e.files start end rounds sources (filters start end all)
          (all_sources-AllSit fuel e.files start end e.memtable e.immutable ls o.sources o.sit)
          (filters-AllSorted start end all (
            lists_of-AllSorted e.memtable.entries e.immutable ls memory imm
              (TablesHold-AllSorted W e.files tables ls v)))
          (omega (
            arith,
            total-filters start end all,
            total-lists_of e.memtable.entries e.immutable ls,
            TablesHold-total W e.files tables ls v,
          )) in
      record {
        out = s.out;
        yields = rw (o.made, s.yields) refl;
        sorted = as_entry-IsSorted s.out s.is_merge.sorted;
        holds = λ key.
            sym (lookup-as_entry key s.out)
            ∙ rw
                (
                  s.is_merge.newest_wins key,
                  value_of-visible (newest key (filters start end all)),
                  newest-filters start end key all,
                  newest-lists_of key e.memtable.entries e.immutable ls,
                  newest-all_of key lls,
                )
                (value_of-chosen (in_range key start end) _);
      }
