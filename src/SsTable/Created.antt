-- ===== src/SsTable/Created.antt =====
-- `SsTable::create` makes a table that holds the entries it was given.
use lsm_storage_engine.Common.{
  ℕ, ◌+◌, ◌%◌, ◌^◌, ◌<◌, ◌≡◌, refl, sym, ap, ◌∙◌, arith, Bool, true, false, some, List, [], ◌∷◌,
  ◌++◌, map, length, append-nil, ◌==◌, ==_refl, if◌then◌else◌, ◌⊎◌, inl, inr,
}
use mathlib.Core.Path.{subst}
use lsm_storage_engine.Common.Bytes.{Bytes, eq_bytes, le_bytes, eq_of_cmp}
use lsm_storage_engine.Common.SortedMap.{lookup, Above, IsSorted}
use lsm_storage_engine.Error.{Result, ok}
use lsm_storage_engine.Files.{
  FilePath, Files, read_file, remove_file, write_file, rename_file, tmp_path,
}
use lsm_storage_engine.MemTable.{Entry}
use lsm_storage_engine.Bloom.{BloomFilter, might_contain}
use lsm_storage_engine.Bloom
use lsm_storage_engine.Bloom.Float.{F64}
use lsm_storage_engine.Bloom.Contains.{insert_all, no_false_negatives, new-IsValid}
use lsm_storage_engine.SsTable.Format.{Entries, encode_index, encode_footer}
use lsm_storage_engine.SsTable.Create.{
  SsTable, Disk, Writer, insert_sorted, sort_entries, new_writer, write_entries, last_block,
  first_key, last_key, table_bytes, create,
}
use lsm_storage_engine.SsTable.Blocks.{encode_entries}
use lsm_storage_engine.SsTable.Iterate.{flat}
use lsm_storage_engine.SsTable.Rows.{RowsMatch}
use lsm_storage_engine.SsTable.World.{World, Shape, full, hollow, IsTable}
use lsm_storage_engine.SsTable.Outcome.{
  Outcome, not_written, not_renamed, made, create-Outcome, read_file-write_file_same,
}
use lsm_storage_engine.SsTable.Buffer.{length-block_bytes}
use lsm_storage_engine.SsTable.Segments.{
  block_bytes, Segments, Segments-append, Segments-RowsRead, Segments-RowsKnown, block_at, room,
}
use lsm_storage_engine.SsTable.Writer.{
  Written, new_writer-Written, flush_block-flushed, flushed-RowAtPlace, write_entries-Written,
  last_block-Written,
}

insert_sorted-Above :
    (k : Bytes) (e : Entry) (entries : Entries)
    → Above k entries
    → insert_sorted k e entries ≡ (k, e) ∷ entries
unfolding insert_sorted
insert_sorted-Above k e [] a = refl
insert_sorted-Above k e ((j, f) ∷ entries) (h, a) = rw less refl
  where
    less : le_bytes k j ≡ true
    less = ground arith

-- Entries whose keys rise are left as they are.
pub sort_entries-IsSorted : (entries : Entries) → IsSorted entries → sort_entries entries ≡ entries
unfolding sort_entries
sort_entries-IsSorted [] s = refl
sort_entries-IsSorted ((k, e) ∷ entries) (a, s) =
    rw (sort_entries-IsSorted entries s) (insert_sorted-Above k e entries a)

-- The keys around a key that is held.
lookup-around :
    (key : Bytes) (entries : Entries) (e : Entry)
    → lookup key entries ≡ some e
    → (before : List Bytes) × (after : List Bytes) × (map (λ p. p.0) entries
        ≡ before ++ key ∷ after)
unfolding lookup
lookup-around key [] e h = absurd cc
lookup-around key ((k, v) ∷ entries) e h = elim (eq_bytes_cases key k) [
  | inl same ↦ ([], map (λ p. p.0) entries, rw same refl)
  | inr other ↦
      (let (before, after, split) = lookup-around key entries e (ground arith) in
        (k ∷ before, after, ap (λ l. k ∷ l) split))
]
  where
    eq_bytes_cases : (a b : Bytes) → (a ≡ b) ⊎ (eq_bytes a b ≡ false)
    eq_bytes_cases a b = go (eq_bytes a b) refl
      where
        go : (o : Bool) → eq_bytes a b ≡ o → (a ≡ b) ⊎ (eq_bytes a b ≡ false)
        go true e = inl (ground (arith, eq_of_cmp a b))
        go false e = inr e

-- The file that is written: its blocks hold the entries.
record Filled (done : Entries) (w : Writer) : Type 0 where
  blocks : List Entries
  whole : flat blocks ≡ done
  segments : Segments w.file 0 w.index blocks w.offset
  rows : ((0 < length done) × RowsMatch w.index blocks) ⊎ ((done ≡ []) × (length w.index ≡ 1))

only_block-Filled : Filled [] (last_block new_writer)
unfolding last_block
only_block-Filled =
    rw (flush_block-flushed new_writer [] (unfold encode_entries in refl) refl) (record {
      blocks = [] ∷ [];
      whole = refl;
      segments = (flushed-RowAtPlace [] 0 [] [] _ [] refl len, refl);
      rows = inr (refl, refl);
    })
  where
    len : length (block_bytes []) % 2 ^ 32 ≡ length (block_bytes [])
    len = omega (arith, length-block_bytes [])

written-Filled :
    (block_size : ℕ) (entries : Entries)
    → room entries < 2 ^ 32
    → Filled entries (last_block (write_entries block_size entries new_writer))
written-Filled block_size [] small = unfold write_entries in only_block-Filled
written-Filled block_size ((k, e) ∷ entries) small =
    let (left, v) =
      write_entries-Written block_size [] [] ((k, e) ∷ entries) new_writer new_writer-Written
        small in
    let v' : Written ((k, e) ∷ entries) []
        (last_block (write_entries block_size ((k, e) ∷ entries) new_writer)) =
      last_block-Written ((k, e) ∷ entries) left
        (write_entries block_size ((k, e) ∷ entries) new_writer) v (omega arith) small in
    record {
      blocks = v'.blocks;
      whole = sym (append-nil (flat v'.blocks)) ∙ v'.whole;
      segments = v'.segments;
      rows = inl (omega arith, v'.rows);
    }

-- Every key that was given passes the filter.
filter_complete :
    (f : F64) (entries : Entries) (rate : f.Float) (key : Bytes) (e : Entry)
    → lookup key entries ≡ some e
    → might_contain key (insert_all (map (λ p. p.0) entries) (Bloom.new f (length entries) rate))
      ≡ true
filter_complete f entries rate key e h =
    let (before, after, split) = lookup-around key entries e h in
    rw split (
      no_false_negatives before key after (Bloom.new f (length entries) rate)
        (new-IsValid f (length entries) rate))

-- The world with the blocks of one more table.
abbrev pub with_table : SsTable → List Entries → World → World
with_table t blocks W k = if k.table_id == t.id then block_at k.offset t.index blocks else W k

Filled-IsTable :
    (W : World) (t : SsTable) (files : Files) (entries : Entries) (w : Writer) (more : Bytes)
    → (v : Filled entries w) → IsSorted entries
    → room entries < 2 ^ 32
    → (0 < length entries → 0 < length (first_key entries))
    → t.index ≡ w.index
    → t.smallest ≡ first_key entries
    → t.largest ≡ last_key entries
    → ((key : Bytes) (e : Entry) → lookup key entries ≡ some e → might_contain key t.bloom ≡ true)
    → read_file t.path files ≡ some (w.file ++ more)
    → IsTable (with_table t v.blocks W) files t entries
Filled-IsTable W t files entries w more v sorted small nonempty index smallest largest complete
      there =
    record {
      blocks = v.blocks;
      read =
          Segments-RowsRead t.path files (w.file ++ more) 0 t.index v.blocks w.offset there
            (rw v.whole small) segments;
      known =
          Segments-RowsKnown (with_table t v.blocks W) t (w.file ++ more) 0 t.index v.blocks
            w.offset (λ o h. rw (==_refl t.id) refl) segments;
      shape = shape v.rows;
      whole = v.whole;
      sorted = sorted;
      smallest = smallest;
      largest = largest;
      complete = complete;
    }
  where
    segments : Segments (w.file ++ more) 0 t.index v.blocks w.offset
    segments = rw index (Segments-append w.file more 0 w.index v.blocks w.offset v.segments)

    shape :
        ((0 < length entries) × RowsMatch w.index v.blocks)
          ⊎ ((entries ≡ []) × (length w.index ≡ 1))
        → Shape t v.blocks
    shape (inl (some_held, m)) = full (rw index m) (rw smallest (nonempty some_held))
    shape (inr (e, one)) =
        hollow (v.whole ∙ e) (smallest ∙ ap first_key e) (largest ∙ ap last_key e) (rw index one)

-- What `create` returns when none of the failures is injected.
record Made (f : F64) (path : FilePath) (id : ℕ) (entries : Entries) (rate : f.Float)
    (block_size : ℕ) (files : Files) (t : SsTable) (files' : Files) : Type 0 where
  index : t.index ≡ (last_block (write_entries block_size entries new_writer)).index
  smallest : t.smallest ≡ first_key entries
  largest : t.largest ≡ last_key entries
  bloom : t.bloom ≡ insert_all (map (λ p. p.0) entries) (Bloom.new f (length entries) rate)
  name : t.path ≡ path
  number : t.id ≡ id
  contents :
      files'
      ≡ rename_file
          (tmp_path path)
          path
          (table_bytes (last_block (write_entries block_size entries new_writer)) t.bloom)
          (write_file
            (tmp_path path)
            (table_bytes (last_block (write_entries block_size entries new_writer)) t.bloom)
            files)

create-Made :
    (f : F64) (path : FilePath) (id : ℕ) (entries : Entries) (rate : f.Float) (block_size : ℕ)
    (d d' : Disk) (t : SsTable)
    → create f path id entries rate block_size d ≡ (ok t, d')
    → Made f path id (sort_entries entries) rate block_size d.files t d'.files
create-Made f path id entries rate block_size d d' t h =
    of_outcome (create f path id entries rate block_size d)
      (create-Outcome f path id entries rate block_size d) h
  where
    of_outcome :
        (r : Result SsTable × Disk)
        → Outcome f path id (sort_entries entries) rate block_size d r
        → r ≡ (ok t, d')
        → Made f path id (sort_entries entries) rate block_size d.files t d'.files
    of_outcome _ (not_written x fp) same = absurd cc
    of_outcome _ (not_renamed x fp contents) same = absurd cc
    of_outcome _ (made fp) same = record {
      index = ground arith;
      smallest = ground arith;
      largest = ground arith;
      bloom = ground arith;
      name = ground arith;
      number = ground arith;
      contents = ground arith;
    }

-- The table has the path and the number that it was made with.
pub create-names :
    (f : F64) (path : FilePath) (id : ℕ) (entries : Entries) (rate : f.Float) (block_size : ℕ)
    (d d' : Disk) (t : SsTable)
    → create f path id entries rate block_size d ≡ (ok t, d')
    → (t.path ≡ path) × (t.id ≡ id)
create-names f path id entries rate block_size d d' t h =
    let of : Made f path id (sort_entries entries) rate block_size d.files t d'.files =
      create-Made f path id entries rate block_size d d' t h in
    (of.name, of.number)

-- What stands behind the blocks.
index_on : Writer → BloomFilter → Bytes
index_on w bloom =
    let index_bytes = encode_index w.index in
    let bloom_bytes = Bloom.encode bloom in
    index_bytes
    ++ (bloom_bytes
        ++ encode_footer (record {
          index_offset = w.offset;
          index_len = length index_bytes;
          bloom_offset = w.offset + length index_bytes;
          bloom_len = length bloom_bytes;
        }))

-- A table that `create` returns without an error holds the entries it was given, if their keys
-- rise, the first one is not empty and the bound `room` on the bytes of their blocks is below 2 ^
-- 32: its index, its filter and its range are those of the blocks, and the directory has the
-- blocks at the places that the index names.
pub create-IsTable :
    (f : F64) (W : World) (path : FilePath) (id : ℕ) (entries : Entries) (rate : f.Float)
    (block_size : ℕ) (d d' : Disk) (t : SsTable)
    → create f path id entries rate block_size d ≡ (ok t, d')
    → IsSorted entries
    → room entries < 2 ^ 32
    → (0 < length entries → 0 < length (first_key entries))
    → (blocks : List Entries) × IsTable (with_table t blocks W) d'.files t entries
unfolding table_bytes rename_file index_on
create-IsTable f W path id entries rate block_size d d' t h sorted small nonempty =
    let w : Writer = last_block (write_entries block_size entries new_writer) in
    let v : Filled entries w = written-Filled block_size entries small in
    let of : Made f path id entries rate block_size d.files t d'.files =
      subst (λ l. Made f path id l rate block_size d.files t d'.files)
        (sort_entries-IsSorted entries sorted)
        (create-Made f path id entries rate block_size d d' t h) in
    (
      v.blocks,
      Filled-IsTable W t d'.files entries w (index_on w t.bloom) v sorted small nonempty of.index
          of.smallest of.largest
          (λ key e found. rw of.bloom (filter_complete f entries rate key e found))
          (rw (of.contents, of.name)
            (read_file-write_file_same path (w.file ++ index_on w t.bloom) (
              remove_file (tmp_path path)
                (write_file (tmp_path path) (w.file ++ index_on w t.bloom) d.files)))),
    )
