-- ===== src/Compaction/Tables.antt =====
-- The merge of tables on disk: their iterators yield the entries of their blocks, and the fuel that
-- `merge_tables` takes is enough.
use lsm_storage_engine.Common.{
  ℕ, suc, ◌+◌, ◌*◌, ◌≤◌, ◌<◌, ◌≡◌, refl, arith, Bool, List, [], ◌∷◌, length, length-append,
  Option-cases, inl, inr,
}
use lsm_storage_engine.Error.{ok}
use lsm_storage_engine.Files.{FilePath, Files, read_file}
use lsm_storage_engine.SsTable.Format.{Entries, IndexEntry}
use lsm_storage_engine.SsTable.Create.{SsTable}
use lsm_storage_engine.SsTable.Read.{SsTableIterator}
use lsm_storage_engine.SsTable.Read
use lsm_storage_engine.SsTable.Iterate.{
  RowsRead, flat, IteratorYields, Iterating, new_iterator-Iterating, read_data_block_bound,
  read_data_block_missing,
}
use lsm_storage_engine.Compaction.{iterators, entry_bound, len_or_zero, merge_tables}
use lsm_storage_engine.Compaction.Newest.{AllSorted}
use lsm_storage_engine.Compaction.Merge.{total, Yields, AllYield}
use lsm_storage_engine.Compaction.Correct.{Merged, merge-IsMerge}

module _ (files : Files) where
  -- Every row of every table is read, as these blocks.
  abbrev pub AllRead : List SsTable → List (List Entries) → Type 0
  AllRead [] [] = Unit
  AllRead (t ∷ tables) (blocks ∷ bs) = RowsRead files t.path t.index blocks × AllRead tables bs
  AllRead _ _ = ⊥

  pub Yields-IteratorYields :
      (it : SsTableIterator) (l : Entries)
      → IteratorYields files it l
      → Yields (Read.next files) it l
  Yields-IteratorYields it [] y = y
  Yields-IteratorYields it (x ∷ l) (y, ys) = (y, Yields-IteratorYields (Read.next files it).1 l ys)

  suc_times : (n m : ℕ) → suc n * m ≡ m + n * m
  suc_times n m = grind arith

  block_bound :
      (path : FilePath) (offset len : ℕ) (block : Entries)
      → Read.read_data_block path offset len files ≡ ok block
      → length block ≤ len_or_zero (read_file path files)
  block_bound path offset len block h = elim (Option-cases (read_file path files)) [
    | inl missing ↦ absurd (read_data_block_missing path offset len files block missing h)
    | inr (contents, there) ↦
        rw there (read_data_block_bound path offset len files contents block there h)
  ]

  length-flat :
      (path : FilePath) (index : List IndexEntry) (blocks : List Entries)
      → RowsRead files path index blocks
      → length (flat blocks) ≤ length index * len_or_zero (read_file path files)
  length-flat path [] [] r = ground arith
  length-flat path [] (b ∷ blocks) r = absurd r
  length-flat path (row ∷ index) [] r = absurd r
  length-flat path (row ∷ index) (block ∷ blocks) (e, r) =
      rw (suc_times (length index) (len_or_zero (read_file path files))) (
        omega (
          arith,
          length-append block (flat blocks),
          block_bound path row.offset row.length block e,
          length-flat path index blocks r,
        ))

abbrev pub flats : List (List Entries) → List Entries
flats [] = []
flats (blocks ∷ bs) = flat blocks ∷ flats bs

module _ (files : Files) where
  record Opened (tables : List SsTable) (ls : List Entries) : Type 0 where
    its : List SsTableIterator
    made : iterators files tables ≡ ok its
    yields : AllYield (Read.next files) its ls

  iterators-Opened :
      (tables : List SsTable) (bs : List (List Entries))
      → AllRead files tables bs
      → Opened tables (flats bs)
  unfolding iterators
  iterators-Opened [] [] r = record { its = []; made = refl; yields = tt }
  iterators-Opened [] (b ∷ bs) r = absurd r
  iterators-Opened (t ∷ tables) [] r = absurd r
  iterators-Opened (t ∷ tables) (blocks ∷ bs) (r, rs) =
      let i : Iterating files t (flat blocks) = new_iterator-Iterating files t blocks r in
      let rest : Opened tables (flats bs) = iterators-Opened tables bs rs in
      record {
        its = i.iterator ∷ rest.its;
        made = rw (i.made, rest.made) refl;
        yields = (Yields-IteratorYields files i.iterator (flat blocks) i.yields, rest.yields);
      }

  pub enough :
      (tables : List SsTable) (bs : List (List Entries))
      → AllRead files tables bs
      → total (flats bs) < entry_bound files tables
  unfolding entry_bound
  enough [] [] r = omega arith
  enough [] (b ∷ bs) r = absurd r
  enough (t ∷ tables) [] r = absurd r
  enough (t ∷ tables) (blocks ∷ bs) (r, rs) =
      let n : ℕ = length t.index in
      let m : ℕ = len_or_zero (read_file t.path files) in
      omega (
        arith,
        length-flat files t.path t.index blocks r,
        enough tables bs rs,
        suc_times files n (suc m),
        product_mono n m,
      )
    where
      product_mono : (n m : ℕ) → n * m ≤ n * suc m
      product_mono n m = grind arith

  -- If every block of the tables can be read, and the entries of each table are sorted, then merging
  -- the tables returns a sorted list in which a key has the entry of the first table that holds it,
  -- except that a tombstone is left out when tombstones are dropped: the fuel is enough. The keys
  -- of the result lie above every bound that all tables lie above.
  pub merge_tables-IsMerge :
      (tables : List SsTable) (drop_tombstones : Bool) (bs : List (List Entries))
      → AllRead files tables bs
      → AllSorted (flats bs)
      → Merged (merge_tables files tables drop_tombstones) drop_tombstones (flats bs)
  unfolding merge_tables
  merge_tables-IsMerge tables drop_tombstones bs r s =
      let o : Opened tables (flats bs) = iterators-Opened tables bs r in
      let m =
        merge-IsMerge (Read.next files) (entry_bound files tables) drop_tombstones o.its (flats bs)
          o.yields s (enough tables bs r) in
      record { out = m.out; returns = rw o.made m.returns; is_merge = m.is_merge }
