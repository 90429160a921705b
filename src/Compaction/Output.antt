-- ===== src/Compaction/Output.antt =====
-- The table that a compaction makes holds the merge of what its inputs hold.
use lsm_storage_engine.Common.{ℕ, ◌^◌, ◌<◌, ◌≡◌, refl, sym, ◌∙◌, arith, Bool, List, [], ◌∷◌, length}
use mathlib.Core.Path.{subst}
use lsm_storage_engine.Common.Bytes.{Bytes, ◌≺◌, cmp}
use lsm_storage_engine.Common.SortedMap.{Above, Above-lt}
use lsm_storage_engine.Error.{ok}
use lsm_storage_engine.Files.{FilePath, Files}
use lsm_storage_engine.Bloom.Float.{F64}
use lsm_storage_engine.SsTable.Format.{Entries}
use lsm_storage_engine.SsTable.Create.{SsTable, Disk, first_key}
use lsm_storage_engine.SsTable.World.{World, Shape, full, hollow, IsTable, TablesHold}
use lsm_storage_engine.SsTable.Segments.{room}
use lsm_storage_engine.SsTable.Created.{with_table, create-IsTable}
use lsm_storage_engine.Compaction.{merge_tables, compact}
use lsm_storage_engine.Compaction.Newest.{AllSorted, AllAbove}
use lsm_storage_engine.Compaction.Correct.{IsMerge, Merged}
use lsm_storage_engine.Compaction.Tables.{AllRead, flats, merge_tables-IsMerge}

above_empty : (k : Bytes) → 0 < length k → [] ≺ k
unfolding cmp
above_empty [] h = absurd (omega arith)
above_empty (b ∷ k) h = refl

-- The keys of a table are not empty.
pub IsTable-Above :
    (W : World) (files : Files) (t : SsTable) (entries : Entries)
    → IsTable W files t entries
    → Above [] entries
IsTable-Above W files t [] v = tt
IsTable-Above W files t ((k, e) ∷ entries) v = go v.shape
  where
    go : Shape t v.blocks → Above [] ((k, e) ∷ entries)
    go (full m nonempty) =
        let first : [] ≺ k = above_empty k (rw (sym v.smallest) nonempty) in
        (first, Above-lt [] k entries first v.sorted.0)
    go (hollow none_held s l one) = absurd (ground (arith, sym v.whole ∙ none_held))

module _ (W : World) (files : Files) where
  pub blocks_of :
      (tables : List SsTable) (ls : List Entries)
      → TablesHold W files tables ls
      → List (List Entries)
  blocks_of [] [] v = []
  blocks_of [] (l ∷ ls) v = absurd v
  blocks_of (t ∷ tables) [] v = absurd v
  blocks_of (t ∷ tables) (l ∷ ls) (v, vs) = v.blocks ∷ blocks_of tables ls vs

  pub blocks_of-AllRead :
      (tables : List SsTable) (ls : List Entries)
      → (v : TablesHold W files tables ls) → AllRead files tables (blocks_of tables ls v)
  unfolding blocks_of
  blocks_of-AllRead [] [] v = tt
  blocks_of-AllRead [] (l ∷ ls) v = absurd v
  blocks_of-AllRead (t ∷ tables) [] v = absurd v
  blocks_of-AllRead (t ∷ tables) (l ∷ ls) (v, vs) = (v.read, blocks_of-AllRead tables ls vs)

  pub flats-blocks_of :
      (tables : List SsTable) (ls : List Entries)
      → (v : TablesHold W files tables ls) → flats (blocks_of tables ls v) ≡ ls
  unfolding blocks_of
  flats-blocks_of [] [] v = refl
  flats-blocks_of [] (l ∷ ls) v = absurd v
  flats-blocks_of (t ∷ tables) [] v = absurd v
  flats-blocks_of (t ∷ tables) (l ∷ ls) (v, vs) = rw (v.whole, flats-blocks_of tables ls vs) refl

  pub TablesHold-AllSorted :
      (tables : List SsTable) (ls : List Entries) → TablesHold W files tables ls → AllSorted ls
  TablesHold-AllSorted [] [] v = tt
  TablesHold-AllSorted [] (l ∷ ls) v = absurd v
  TablesHold-AllSorted (t ∷ tables) [] v = absurd v
  TablesHold-AllSorted (t ∷ tables) (l ∷ ls) (v, vs) = (v.sorted, TablesHold-AllSorted tables ls vs)

  TablesHold-AllAbove :
      (tables : List SsTable) (ls : List Entries) → TablesHold W files tables ls → AllAbove [] ls
  TablesHold-AllAbove [] [] v = tt
  TablesHold-AllAbove [] (l ∷ ls) v = absurd v
  TablesHold-AllAbove (t ∷ tables) [] v = absurd v
  TablesHold-AllAbove (t ∷ tables) (l ∷ ls) (v, vs) =
      (IsTable-Above W files t l v, TablesHold-AllAbove tables ls vs)

  -- The merge of tables is the merge of what they hold.
  pub merge_tables-TablesHold :
      (tables : List SsTable) (ls : List Entries) (drop_tombstones : Bool)
      → TablesHold W files tables ls
      → Merged (merge_tables files tables drop_tombstones) drop_tombstones ls
  merge_tables-TablesHold tables ls drop_tombstones v =
      subst (λ l. Merged (merge_tables files tables drop_tombstones) drop_tombstones l)
        (flats-blocks_of tables ls v)
        (merge_tables-IsMerge files tables drop_tombstones (blocks_of tables ls v)
          (blocks_of-AllRead tables ls v)
          (rw (flats-blocks_of tables ls v) (TablesHold-AllSorted tables ls v)))

nonempty_first :
    (entries : Entries) → Above [] entries → 0 < length entries → 0 < length (first_key entries)
unfolding cmp
nonempty_first [] a h = absurd (omega arith)
nonempty_first (([], e) ∷ entries) (a, r) h = absurd cc
nonempty_first ((b ∷ k, e) ∷ entries) a h = omega arith

-- The table that a compaction makes, and what it holds.
pub record Compacted (W : World) (drop_tombstones : Bool) (ls : List Entries) (t : SsTable)
    (files : Files) : Type 0 where
  pub out : Entries
  pub is_merge : IsMerge drop_tombstones ls out
  pub blocks : List Entries
  pub table : IsTable (with_table t blocks W) files t out

module _ (f : F64) where
  pub compact-Compacted :
      (W : World) (tables : List SsTable) (ls : List Entries) (path : FilePath) (id : ℕ)
      (rate : f.Float) (block_size : ℕ) (drop_tombstones : Bool) (d d' : Disk) (t : SsTable)
      → TablesHold W d.files tables ls
      → ((out : Entries) → merge_tables d.files tables drop_tombstones ≡ ok out → room out < 2 ^ 32)
      → compact f tables path id rate block_size drop_tombstones d ≡ (ok t, d')
      → Compacted W drop_tombstones ls t d'.files
  unfolding compact
  compact-Compacted W tables ls path id rate block_size drop_tombstones d d' t v few h =
      let m : Merged (merge_tables d.files tables drop_tombstones) drop_tombstones ls =
        merge_tables-TablesHold W d.files tables ls drop_tombstones v in
      let (blocks, table) =
        create-IsTable f W path id m.out rate block_size d d' t (rw (compact, m.returns) at h)
          m.is_merge.sorted (few m.out m.returns)
          (nonempty_first m.out
            (m.is_merge.bounded [] (TablesHold-AllAbove W d.files tables ls v))) in
      record { out = m.out; is_merge = m.is_merge; blocks = blocks; table = table }
