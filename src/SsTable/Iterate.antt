-- ===== src/SsTable/Iterate.antt =====
-- The sequential iterator of a table yields the entries of its blocks, one after the other.
use lsm_storage_engine.Common.{
  ℕ, zero, suc, ◌+◌, ◌-◌, ◌≤◌, ◌≡◌, ◌≢◌, refl, ap, arith, none, some, List, [], ◌∷◌, ◌++◌, length,
  take, drop, slice, length-drop, length-take, inl, inr,
}
use lsm_storage_engine.Common.Bytes.{Bytes}
use lsm_storage_engine.Error.{ok, Result-cases}
use lsm_storage_engine.Crc.{read_u32_le}
use lsm_storage_engine.Files.{FilePath, Files, read_file}
use lsm_storage_engine.SsTable.Format.{Entries, IndexEntry, read_entries, decode_block}
use lsm_storage_engine.SsTable.Create.{SsTable}
use lsm_storage_engine.SsTable.Open.{open_file, read_exact}
use lsm_storage_engine.SsTable.Read.{
  SsTableIterator, read_data_block, load_next_block, new_iterator, next_loop, next,
}

-- The rows are read as these blocks.
abbrev pub RowsRead : Files → FilePath → List IndexEntry → List Entries → Type 0
RowsRead files path [] [] = Unit
RowsRead files path (row ∷ index) (block ∷ blocks) =
    (read_data_block path row.offset row.length files ≡ ok block) × RowsRead files path index blocks
RowsRead files path _ _ = ⊥

abbrev pub flat : List Entries → Entries
flat [] = []
flat (block ∷ blocks) = block ++ flat blocks

-- The iterator yields the entries, and then its end.
abbrev pub IteratorYields : Files → SsTableIterator → Entries → Type 0
IteratorYields files it [] = (next files it).0 ≡ none
IteratorYields files it (x ∷ l) =
    ((next files it).0 ≡ some (ok x)) × IteratorYields files (next files it).1 l

abbrev at : FilePath → List IndexEntry → Entries → SsTableIterator
at path index current = record { path = path; index = index; current = current }

yields_same :
    (files : Files) (it it' : SsTableIterator) (l : Entries)
    → next files it ≡ next files it'
    → IteratorYields files it' l
    → IteratorYields files it l
yields_same files it it' [] e y = rw e y
yields_same files it it' (x ∷ l) e y = rw e y

load_row :
    (files : Files) (path : FilePath) (row : IndexEntry) (index : List IndexEntry)
    (current block : Entries)
    → read_data_block path row.offset row.length files ≡ ok block
    → load_next_block files (at path (row ∷ index) current) ≡ (ok tt, at path index block)
unfolding load_next_block
load_row files path row index current block e = rw (e, load_next_block) refl

next_loads :
    (files : Files) (path : FilePath) (row : IndexEntry) (index : List IndexEntry) (block : Entries)
    → read_data_block path row.offset row.length files ≡ ok block
    → next files (at path (row ∷ index) []) ≡ next files (at path index block)
unfolding next next_loop
next_loads files path row index block e =
    rw (load_row files path row index [] block e, next_loop, next)
      (ap (λ p. next_loop (suc (length index)) files p.1)
        (load_row files path row index [] block e))

pub next-IteratorYields :
    (files : Files) (path : FilePath) (index : List IndexEntry) (blocks : List Entries)
    (current : Entries)
    → RowsRead files path index blocks
    → IteratorYields files (at path index current) (current ++ flat blocks)
unfolding next next_loop
next-IteratorYields files path [] [] [] r = refl
next-IteratorYields files path [] (b ∷ blocks) [] r = absurd r
next-IteratorYields files path (row ∷ index) [] [] r = absurd r
next-IteratorYields files path (row ∷ index) (block ∷ blocks) [] (e, r) =
    yields_same files (at path (row ∷ index) []) (at path index block) (block ++ flat blocks)
      (next_loads files path row index block e)
      (next-IteratorYields files path index blocks block r)
next-IteratorYields files path index blocks (x ∷ current) r =
    (refl, next-IteratorYields files path index blocks current r)

pub record Iterating (files : Files) (t : SsTable) (entries : Entries) : Type 0 where
  pub iterator : SsTableIterator
  pub made : new_iterator files t ≡ ok iterator
  pub yields : IteratorYields files iterator entries

-- If every row of a table's index can be read, then the iterator is made, and yields the entries of
-- the blocks in the order of the index and then its end.
pub new_iterator-Iterating :
    (files : Files) (t : SsTable) (blocks : List Entries)
    → RowsRead files t.path t.index blocks
    → Iterating files t (flat blocks)
new_iterator-Iterating files t blocks r = go t.index blocks refl r
  where
    go :
        (index : List IndexEntry) (blocks : List Entries)
        → t.index ≡ index
        → RowsRead files t.path index blocks
        → Iterating files t (flat blocks)
    go [] [] e r = record {
      iterator = at t.path [] [];
      made = unfold new_iterator load_next_block in rw e refl;
      yields = next-IteratorYields files t.path [] [] [] tt;
    }
    go [] (b ∷ blocks) e r = absurd r
    go (row ∷ index) [] e r = absurd r
    go (row ∷ index) (block ∷ blocks) e (read, r) = record {
      iterator = at t.path index block;
      made = unfold new_iterator in rw (e, load_row files t.path row index [] block read) refl;
      yields = next-IteratorYields files t.path index blocks block r;
    }

-- No more entries are read than there are bytes.
read_entries_bound :
    (n : ℕ) (rest : Bytes) (entries : Entries)
    → read_entries n rest ≡ ok entries
    → length entries ≤ length rest
unfolding read_entries
read_entries_bound zero rest entries h = ground arith
read_entries_bound (suc n) rest entries h =
    let key_len : ℕ = read_u32_le (slice 1 5 rest) in
    let value_len : ℕ = read_u32_le (slice 5 9 rest) in
    let after : Bytes = drop value_len (drop key_len (drop 9 rest)) in
    elim (Result-cases (read_entries n after)) [
      | inl (more, e) ↦ ground (
        arith,
        read_entries_bound n after more e,
        length-drop value_len (drop key_len (drop 9 rest)),
        length-drop key_len (drop 9 rest),
        length-drop 9 rest,
      )
      | inr (x, e) ↦ absurd (ground arith)
    ]

decode_block_bound :
    (bytes : Bytes) (entries : Entries)
    → decode_block bytes ≡ ok entries
    → length entries ≤ length bytes
unfolding decode_block
decode_block_bound bytes entries h =
    let body : Bytes = take (length bytes - 4) bytes in
    ground (
      arith,
      read_entries_bound (read_u32_le (slice 0 4 body)) (drop 4 body) entries,
      length-drop 4 body,
      length-take (length bytes - 4) bytes,
    )

-- A block has no more entries than its file has bytes.
pub read_data_block_bound :
    (path : FilePath) (offset len : ℕ) (files : Files) (contents : Bytes) (entries : Entries)
    → read_file path files ≡ some contents
    → read_data_block path offset len files ≡ ok entries
    → length entries ≤ length contents
unfolding read_data_block open_file read_exact
read_data_block_bound path offset len files contents entries there h =
    let bytes : Bytes = slice offset (offset + len) contents in
    ground (
      arith,
      decode_block_bound bytes entries,
      length-take (offset + len - offset) (drop offset contents),
      length-drop offset contents,
    )

-- Without the file nothing is read.
pub read_data_block_missing :
    (path : FilePath) (offset len : ℕ) (files : Files) (entries : Entries)
    → read_file path files ≡ none
    → read_data_block path offset len files ≢ ok entries
unfolding read_data_block open_file
read_data_block_missing path offset len files entries there = λ h. ground arith
