-- ===== src/Engine/Scan.antt =====
-- src/engine.rs: the ordered scan, which merges the memtables and every table.
use lsm_storage_engine.Common.{
  ℕ, zero, suc, ◌+◌, Bool, true, false, ◌&&◌, Option, none, some, List, [], ◌∷◌, ◌++◌,
  if◌then◌else◌, length,
}
use lsm_storage_engine.Common.Bytes.{Bytes, lt_bytes, le_bytes, eq_bytes}
use lsm_storage_engine.Error.{Result, ok, err, ◌>>=◌}
use lsm_storage_engine.MemTable.{MemTable, value, tombstone}
use lsm_storage_engine.Files.{Files}
use lsm_storage_engine.SsTable.Format.{Entries}
use lsm_storage_engine.SsTable.Create.{SsTable}
use lsm_storage_engine.SsTable.Read.{SsTableIterator, new_iterator}
use lsm_storage_engine.SsTable.Read
use lsm_storage_engine.Compaction.{Item, entry_bound}
use lsm_storage_engine.Engine.Version.{tables_newest_first}
use lsm_storage_engine.Engine.State.{Engine}
pub mod Least
pub mod Rounds
pub mod Sources
pub mod Ordered

pub data Bound : Type 0 where
  unbounded : Bound
  included : Bytes → Bound
  excluded : Bytes → Bound

abbrev after_start : Bytes → Bound → Bool
after_start key unbounded = true
after_start key (included s) = le_bytes s key
after_start key (excluded s) = lt_bytes s key

abbrev before_end : Bytes → Bound → Bool
before_end key unbounded = true
before_end key (included e) = le_bytes key e
before_end key (excluded e) = lt_bytes key e

unfoldable pub in_range : Bytes → Bound → Bound → Bool
in_range key start end = after_start key start && before_end key end

unfoldable pub past_end : Bytes → Bound → Bool
past_end key unbounded = false
past_end key (included e) = lt_bytes e key
past_end key (excluded e) = le_bytes e key

pub data SourceRest : Type 0 where
  of_vec : Entries → SourceRest
  of_table : SsTableIterator → SourceRest

pub record PeekSource : Type 0 where
  pub next : Option Item
  pub rest : SourceRest

-- `filter(|(k, _)| in_range(k, start, end))`
unfoldable pub filter_range : Bound → Bound → Entries → Entries
unfolding in_range
filter_range start end [] = []
filter_range start end ((k, e) ∷ items) =
    let rest = filter_range start end items in if in_range k start end then (k, e) ∷ rest else rest

abbrev pub peek_vec : Entries → PeekSource
peek_vec [] = record { next = none; rest = of_vec [] }
peek_vec (item ∷ items) = record { next = some item; rest = of_vec items }

unfoldable pub from_mem : MemTable → Bound → Bound → PeekSource
unfolding filter_range
from_mem table start end = peek_vec (filter_range start end table.entries)

-- The loop over the iterator, with the rounds that are left.
unfoldable pub next_in_range :
    ℕ → Files → Bound → Bound → SsTableIterator → Result (Option Item × SsTableIterator)
unfolding in_range past_end
next_in_range zero files start end it = ok (none, it)
next_in_range (suc fuel) files start end it =
    let it' = (Read.next files it).1 in
    let rest = next_in_range fuel files start end it' in
    elim ((Read.next files it).0) [
      | none ↦ ok (none, it')
      | some (err e) ↦ err e
      | some (ok (key, entry)) ↦
          (if in_range key start end
            then ok (some (key, entry), it')
            else if past_end key end
            then ok (none, it')
            else rest)
    ]

module _ (fuel : ℕ) (files : Files) (start end : Bound) where
  unfoldable pub from_table : SsTableIterator → Result PeekSource
  unfolding next_in_range
  from_table it = do
    (item, it') ← next_in_range fuel files start end it
    ok (record { next = item; rest = of_table it' })

  unfoldable pub advance : PeekSource → Result PeekSource
  unfolding next_in_range
  advance source = elim source.rest [
    | of_vec items ↦ ok (peek_vec items)
    | of_table it ↦ from_table it
  ]

  unfoldable pub table_sources : List SsTable → Result (List PeekSource)
  unfolding from_table
  table_sources [] = ok []
  table_sources (t ∷ tables) = do
    it ← new_iterator files t
    source ← from_table it
    sources ← table_sources tables
    ok (source ∷ sources)

  -- The scan for the least key; of equal keys the first stays.
  abbrev pub better : Option Item → Option Item → Option Item
  better none best = best
  better (some item) none = some item
  better (some (key, e)) (some (best_key, b)) =
      if lt_bytes key best_key then some (key, e) else some (best_key, b)

  unfoldable pub find_best : List PeekSource → Option Item → Option Item
  find_best [] best = best
  find_best (source ∷ sources) best = find_best sources (better source.next best)

  abbrev pub on_key : Bytes → Option Item → Bool
  on_key key none = false
  on_key key (some (k, e)) = eq_bytes k key

  -- Every source that sits on the key is advanced; an error ends the round.
  unfoldable pub advance_on : Bytes → List PeekSource → Result (List PeekSource)
  unfolding advance
  advance_on key [] = ok []
  advance_on key (source ∷ sources) =
      let moved : Result (List PeekSource) = (do
        source' ← advance source
        sources' ← advance_on key sources
        ok (source' ∷ sources')) in
      let kept : Result (List PeekSource) = (do
        sources' ← advance_on key sources
        ok (source ∷ sources')) in
      if on_key key source.next then moved else kept

  -- What the iterator yields until its end or its first error, which stands last.
  unfoldable pub collect_items : ℕ → List PeekSource → List (Result (Bytes × Bytes))
  unfolding find_best advance_on
  collect_items zero sources = []
  collect_items (suc rounds) sources = elim (find_best sources none) [
    | none ↦ []
    | some (key, entry) ↦ elim (advance_on key sources) [
      | err x ↦ err x ∷ []
      | ok sources' ↦ elim entry [
        | value v ↦ ok (key, v) ∷ collect_items rounds sources'
        | tombstone ↦ collect_items rounds sources'
      ]
    ]
  ]

abbrev pub immutable_source : Option MemTable → Bound → Bound → List PeekSource
immutable_source none start end = []
immutable_source (some table) start end = from_mem table start end ∷ []

abbrev pub immutable_len : Option MemTable → ℕ
immutable_len none = 0
immutable_len (some table) = length table.entries

-- `scan`, and its iterator run to the end.
unfoldable pub scan :
    {Float : Type 0} → Bound → Bound → Engine Float → Result (List (Result (Bytes × Bytes)))
unfolding table_sources collect_items from_mem
scan start end e =
    let tables = tables_newest_first e.version in
    let fuel = entry_bound e.files tables in
    (do
      sources ← table_sources fuel e.files start end tables
      ok (
          collect_items fuel e.files start end
            (length e.memtable.entries + immutable_len e.immutable + fuel)
            (from_mem e.memtable start end ∷ (immutable_source e.immutable start end ++ sources))))
