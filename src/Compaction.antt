-- ===== src/Compaction.antt =====
-- src/compaction.rs: the merge of tables, newest first, into one. The merge is written for any kind
-- of iterator, given by the step that its `next` takes.
pub mod Newest
pub mod Heap
pub mod Merge
pub mod Correct
pub mod Tables
pub mod Output
mod Examples
use lsm_storage_engine.Common.{
  ℕ, zero, suc, ◌+◌, ◌*◌, Bool, true, false, Option, none, some, List, [], ◌∷◌, Ordering, ltb, leb,
  if◌then◌else◌, length,
}
use lsm_storage_engine.Common.Bytes.{Bytes, cmp, eq_bytes}
use lsm_storage_engine.Error.{Result, ok, err, ◌>>=◌, Error}
use lsm_storage_engine.MemTable.{Entry, value, tombstone}
use lsm_storage_engine.Files.{FilePath, Files, read_file}
use lsm_storage_engine.Bloom.Float.{F64}
use lsm_storage_engine.SsTable.Format.{Entries}
use lsm_storage_engine.SsTable.Create.{SsTable, Disk, create}
use lsm_storage_engine.SsTable.Read.{SsTableIterator, new_iterator}
use lsm_storage_engine.SsTable.Read

abbrev pub Item : Type 0
Item = Bytes × Entry

-- `BinaryHeap<Reverse<(Vec<u8>, usize)>>`: a list with the least pair in front.
abbrev pub Heap : Type 0
Heap = List (Bytes × ℕ)

unfoldable pub push : Bytes → ℕ → Heap → Heap
push key idx [] = (key, idx) ∷ []
push key idx ((k, i) ∷ heap) =
    let rest = push key idx heap in
    elim (cmp key k) [
      | Ordering.lt ↦ (key, idx) ∷ (k, i) ∷ heap
      | Ordering.eq ↦ (if leb idx i then (key, idx) ∷ (k, i) ∷ heap else (k, i) ∷ rest)
      | Ordering.gt ↦ (k, i) ∷ rest
    ]

-- The loop that pops every pair with the key.
unfoldable pub pop_same : Bytes → Heap → Heap
pop_same key [] = []
pop_same key ((k, i) ∷ heap) =
    let rest = pop_same key heap in if eq_bytes k key then rest else (k, i) ∷ heap

-- What the merge makes of the winner: `out.push` unless it is a tombstone to drop.
unfoldable pub emit : Bool → Bytes → Option Entry → Entries → Entries
emit drop_tombstones key none out = out
emit true key (some tombstone) out = out
emit drop_tombstones key (some e) out = (key, e) ∷ out

module _ {S : Type 0} (step : S → Option (Result Item) × S) where
  -- An iterator with its head.
  abbrev pub Source : Type 0
  Source = Option Item × S

  -- `iter.next()`, whose error ends the merge.
  unfoldable pub advance : S → Result Source
  advance s = elim ((step s).0) [
    | none ↦ ok (none, (step s).1)
    | some (ok item) ↦ ok (some item, (step s).1)
    | some (err e) ↦ err e
  ]

  unfoldable pub first_heads : List S → Result (List Source)
  unfolding advance
  first_heads [] = ok []
  first_heads (s ∷ iters) = do
    source ← advance s
    sources ← first_heads iters
    ok (source ∷ sources)

  abbrev pub push_head : Option Item → ℕ → Heap → Heap
  push_head none idx heap = heap
  push_head (some (key, e)) idx heap = push key idx heap

  unfoldable pub heap_of : ℕ → List Source → Heap
  unfolding push
  heap_of idx [] = []
  heap_of idx ((head, s) ∷ sources) = push_head head idx (heap_of (idx + 1) sources)

  -- `head.as_ref().is_some_and(|(k, _)| k == &key)`
  abbrev pub sits_on : Bytes → Option Item → Bool
  sits_on key none = false
  sits_on key (some (k, e)) = eq_bytes k key

  abbrev pub entry_of_head : Option Item → Option Entry
  entry_of_head none = none
  entry_of_head (some (k, e)) = some e

  -- The first head on the key, so the newest table's.
  unfoldable pub winner : Bytes → List Source → Option Entry
  winner key [] = none
  winner key ((head, s) ∷ sources) =
      let rest = winner key sources in if sits_on key head then entry_of_head head else rest

  -- Every iterator that sits on the key is advanced, and its new head pushed.
  unfoldable pub advance_all : Bytes → ℕ → List Source → Heap → Result (List Source × Heap)
  unfolding advance push
  advance_all key idx [] heap = ok ([], heap)
  advance_all key idx ((head, s) ∷ sources) heap =
      let stay : Result (List Source × Heap) = (do
        (sources', heap') ← advance_all key (idx + 1) sources heap
        ok ((head, s) ∷ sources', heap')) in
      let move : Result (List Source × Heap) = (do
        source ← advance s
        (sources', heap') ← advance_all key (idx + 1) sources (push_head source.0 idx heap)
        ok (source ∷ sources', heap')) in
      if sits_on key head then move else stay

  -- The loop over the heap.
  unfoldable pub merge_loop : ℕ → Bool → List Source → Heap → Result Entries
  unfolding pop_same winner advance_all emit
  merge_loop zero drop_tombstones sources heap = ok []
  merge_loop (suc fuel) drop_tombstones sources [] = ok []
  merge_loop (suc fuel) drop_tombstones sources ((key, i) ∷ heap) = do
    (sources', heap') ← advance_all key 0 sources (pop_same key heap)
    out ← merge_loop fuel drop_tombstones sources' heap'
    ok (emit drop_tombstones key (winner key sources) out)

  unfoldable pub merge : ℕ → Bool → List S → Result Entries
  unfolding first_heads heap_of merge_loop
  merge fuel drop_tombstones iters = do
    sources ← first_heads iters
    merge_loop fuel drop_tombstones sources (heap_of 0 sources)

unfoldable pub iterators : Files → List SsTable → Result (List SsTableIterator)
iterators files [] = ok []
iterators files (t ∷ tables) = do
  it ← new_iterator files t
  its ← iterators files tables
  ok (it ∷ its)

-- No block has more entries than its file has bytes, so a table has no more than this.
abbrev pub len_or_zero : Option Bytes → ℕ
len_or_zero none = 0
len_or_zero (some bytes) = length bytes

unfoldable pub entry_bound : Files → List SsTable → ℕ
entry_bound files [] = 1
entry_bound files (t ∷ tables) =
    suc (length t.index) * suc (len_or_zero (read_file t.path files)) + entry_bound files tables

unfoldable pub merge_tables : Files → List SsTable → Bool → Result Entries
unfolding iterators merge entry_bound
merge_tables files tables drop_tombstones = do
  iters ← iterators files tables
  merge (Read.next files) (entry_bound files tables) drop_tombstones iters

module _ (f : F64) where
  open f use {Float}

  unfoldable pub compact :
      List SsTable → FilePath → ℕ → Float → ℕ → Bool → Disk → Result SsTable × Disk
  unfolding merge_tables
  compact tables output_path output_id bloom_fp block_size drop_tombstones d =
      elim (merge_tables d.files tables drop_tombstones) [
        | ok merged ↦ create f output_path output_id merged bloom_fp block_size d
        | err e ↦ (err e, d)
      ]
