-- ===== src/Engine/Stored.antt =====
-- The tables, the cache and the next number of a database, and what one more table does to them.
use lsm_storage_engine.Common.{
  ℕ, ◌+◌, ◌^◌, ◌<◌, ◌≤◌, ◌≡◌, ◌≢◌, refl, sym, ap, ◌∙◌, arith, false, none, some, List, [], ◌∷◌,
  length, ◌==◌,
}
use lsm_storage_engine.Common.SortedMap.{IsSorted}
use lsm_storage_engine.Error.{ok}
use lsm_storage_engine.Files.{FilePath, Files, join, table_file_name, read_file}
use lsm_storage_engine.Files.Names.{table_path-differs, table_path-not_tmp}
use lsm_storage_engine.Bloom.Float.{F64}
use lsm_storage_engine.Cache.{BlockKey, BlockCache}
use lsm_storage_engine.SsTable.Format.{Entries}
use lsm_storage_engine.SsTable.Create.{SsTable, Disk, create, first_key}
use lsm_storage_engine.SsTable.World.{TablesHold, World, Coherent}
use lsm_storage_engine.SsTable.Segments.{room}
use lsm_storage_engine.SsTable.Outcome.{read_file-create}
use lsm_storage_engine.SsTable.Frame.{IsTable-same}
use lsm_storage_engine.SsTable.Created.{with_table, create-IsTable, create-names}
use lsm_storage_engine.Engine.Version.{Version, tables_newest_first}
use lsm_storage_engine.Engine.Write.{insert_l0}

-- Every table has the name of its number, which is below the counter.
abbrev pub AllNamed : FilePath → ℕ → List SsTable → Type 0
AllNamed path next [] = Unit
AllNamed path next (t ∷ tables) =
    (t.path ≡ join path (table_file_name t.id)) × (t.id < next) × AllNamed path next tables

AllNamed-more :
    (path : FilePath) (next : ℕ) (tables : List SsTable)
    → AllNamed path next tables
    → AllNamed path (next + 1) tables
AllNamed-more path next [] n = tt
AllNamed-more path next (t ∷ tables) (p, b, n) = (p, omega arith, AllNamed-more path next tables n)

-- What of the state the tables, the cache and the next number are.
pub record Stored (W : World) (path : FilePath) (next : ℕ) (files : Files) (cache : BlockCache)
    (version : Version) (ls : List Entries) : Type 0 where
  pub levels : 0 < length version
  pub tables : TablesHold W files (tables_newest_first version) ls
  pub coherent : Coherent W cache
  pub named : AllNamed path next (tables_newest_first version)
  pub fresh : (k : BlockKey) → next ≤ k.table_id → W k ≡ none

insert_l0-newest :
    (t : SsTable) (version : Version)
    → 0 < length version
    → tables_newest_first (insert_l0 t version) ≡ t ∷ tables_newest_first version
unfolding tables_newest_first
insert_l0-newest t [] h = absurd (omega arith)
insert_l0-newest t (l0 ∷ levels) h = refl

insert_l0-levels : (t : SsTable) (version : Version) → length (insert_l0 t version) ≡ length version
insert_l0-levels t [] = refl
insert_l0-levels t (l0 ∷ levels) = refl

-- A number that is not the new table's has the blocks it had.
with_table-other :
    (W : World) (t : SsTable) (blocks : List Entries) (k : BlockKey)
    → k.table_id ≢ t.id
    → with_table t blocks W k ≡ W k
with_table-other W t blocks k h = rw other refl
  where
    other : (k.table_id == t.id) ≡ false
    other = ground arith

module _ (f : F64) where
  -- The tables that were there hold what they held.
  kept_tables :
      (W : World) (blocks : List Entries) (path : FilePath) (next : ℕ) (entries : Entries)
      (rate : f.Float) (block_size : ℕ) (d d' : Disk) (t : SsTable) (tables : List SsTable)
      (ls : List Entries)
      → create f (join path (table_file_name next)) next entries rate block_size d ≡ (ok t, d')
      → next < 2 ^ 64
      → AllNamed path next tables
      → TablesHold W d.files tables ls
      → TablesHold (with_table t blocks W) d'.files tables ls
  kept_tables W blocks path next entries rate block_size d d' t [] [] h small n v = tt
  kept_tables W blocks path next entries rate block_size d d' t [] (l ∷ ls) h small n v = absurd v
  kept_tables W blocks path next entries rate block_size d d' t (u ∷ tables) [] h small n v =
      absurd v
  kept_tables W blocks path next entries rate block_size d d' t (u ∷ tables) (l ∷ ls) h small
        (p, b, n) (v, vs) =
      (
        IsTable-same W (with_table t blocks W) d.files d'.files u l same_file other_blocks v,
        kept_tables W blocks path next entries rate block_size d d' t tables ls h small n vs,
      )
    where
      made : (t.path ≡ join path (table_file_name next)) × (t.id ≡ next)
      made = create-names f (join path (table_file_name next)) next entries rate block_size d d' t h

      same_file : read_file u.path d'.files ≡ read_file u.path d.files
      same_file = rw p (
          ap (λ r. read_file (join path (table_file_name u.id)) r.1.files) (sym h)
          ∙ read_file-create f (join path (table_file_name next)) next entries rate block_size d
              (join path (table_file_name u.id))
              (table_path-differs path u.id next (omega arith) small (omega arith))
              (table_path-not_tmp path u.id (join path (table_file_name next))))

      other_blocks :
          (o : ℕ)
          → with_table t blocks W (record { table_id = u.id; offset = o })
            ≡ W (record { table_id = u.id; offset = o })
      other_blocks o =
          with_table-other W t blocks (record { table_id = u.id; offset = o })
            (omega (arith, made.1))

  -- The stored tables after a new one of the next number is made and put in front.
  pub Stored-create :
      (W : World) (path : FilePath) (next : ℕ) (cache : BlockCache) (version : Version)
      (ls : List Entries) (entries : Entries) (rate : f.Float) (block_size : ℕ) (d d' : Disk)
      (t : SsTable)
      → create f (join path (table_file_name next)) next entries rate block_size d ≡ (ok t, d')
      → next < 2 ^ 64
      → IsSorted entries
      → room entries < 2 ^ 32
      → (0 < length entries → 0 < length (first_key entries))
      → Stored W path next d.files cache version ls
      → (W' : World) × Stored W' path (next + 1) d'.files cache (insert_l0 t version) (entries ∷ ls)
  Stored-create W path next cache version ls entries rate block_size d d' t h small sorted few
        nonempty s =
      let (blocks, made) =
        create-IsTable f W (join path (table_file_name next)) next entries rate block_size d d' t h
          sorted few nonempty in
      let (name, number) =
        create-names f (join path (table_file_name next)) next entries rate block_size d d' t h in
      (
        with_table t blocks W,
        record {
          levels = rw (insert_l0-levels t version) s.levels;
          tables = rw (insert_l0-newest t version s.levels) (
            made,
            kept_tables W blocks path next entries rate block_size d d' t
                (tables_newest_first version) ls h small s.named s.tables,
          );
          coherent = λ k b found.
              let known : W k ≡ some b = s.coherent k b found in
              with_table-other W t blocks k (λ e. ground (arith, s.fresh k (omega (arith, number))))
              ∙ known;
          named = rw (insert_l0-newest t version s.levels) (
            name ∙ ap (λ i. join path (table_file_name i)) (sym number),
            omega arith,
            AllNamed-more path next (tables_newest_first version) s.named,
          );
          fresh = λ k h'. with_table-other W t blocks k (omega arith) ∙ s.fresh k (omega arith);
        },
      )
