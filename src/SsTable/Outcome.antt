-- ===== src/SsTable/Outcome.antt =====
-- How a call of `SsTable::create` ends, and the files it leaves alone.
use lsm_storage_engine.Common.{
  ℕ, ◌≡◌, refl, ◌∙◌, arith, Bool, true, false, some, [], ◌∷◌, map, length, if◌then◌else◌,
}
use lsm_storage_engine.Common.Bytes.{Bytes, eq_bytes, cmp_refl, eq_of_cmp}
use lsm_storage_engine.Error.{Result, ok, err, Error, other_error}
use lsm_storage_engine.Failpoints.{Failpoint, should_fail, ss_table_write, ss_table_sync, rename}
use lsm_storage_engine.Files.{
  FilePath, Files, read_file, remove_file, write_file, rename_file, tmp_path,
}
use lsm_storage_engine.Bloom
use lsm_storage_engine.Bloom.Float.{F64}
use lsm_storage_engine.Bloom.Contains.{insert_all}
use lsm_storage_engine.SsTable.Format.{Entries}
use lsm_storage_engine.SsTable.Create.{
  SsTable, Disk, Writer, sort_entries, new_writer, write_entries, last_block, first_key, last_key,
  table_bytes, create,
}

eq_bytes_refl : (a : Bytes) → eq_bytes a a ≡ true
eq_bytes_refl a = ground (arith, cmp_refl a)

pub read_file-write_file_same :
    (path : FilePath) (contents : Bytes) (files : Files)
    → read_file path (write_file path contents files) ≡ some contents
unfolding read_file write_file
read_file-write_file_same path contents files = rw (eq_bytes_refl path) refl

read_file-remove_file :
    (path other : FilePath) (files : Files)
    → eq_bytes path other ≡ false
    → read_file path (remove_file other files) ≡ read_file path files
unfolding read_file remove_file
read_file-remove_file path other [] h = refl
read_file-remove_file path other ((name, contents) ∷ files) h =
    ground (arith, eq_of_cmp other name, read_file-remove_file path other files h)

read_file-write_file :
    (path other : FilePath) (contents : Bytes) (files : Files)
    → eq_bytes path other ≡ false
    → read_file path (write_file other contents files) ≡ read_file path files
unfolding read_file write_file
read_file-write_file path other contents files h = rw h (read_file-remove_file path other files h)

read_file-rename_file :
    (path from to : FilePath) (contents : Bytes) (files : Files)
    → eq_bytes path from ≡ false
    → eq_bytes path to ≡ false
    → read_file path (rename_file from to contents files) ≡ read_file path files
unfolding rename_file
read_file-rename_file path from to contents files h k =
    read_file-write_file path to contents (remove_file from files) k
    ∙ read_file-remove_file path from files h

-- The table and the directory, of sorted entries.
abbrev pub made_of :
    (f : F64) → FilePath → ℕ → Entries → f.Float → ℕ → Disk → Failpoint → Result SsTable × Disk
made_of f path id collected rate block_size d failpoint =
    let bloom = insert_all (map (λ p. p.0) collected) (Bloom.new f (length collected) rate) in
    let w = last_block (write_entries block_size collected new_writer) in
    let bytes = table_bytes w bloom in
    (
      ok (record {
        id = id;
        path = path;
        index = w.index;
        bloom = bloom;
        smallest = first_key collected;
        largest = last_key collected;
        size_bytes = length bytes;
        level = 0;
      }),
      record {
        failpoint = failpoint;
        files = rename_file (tmp_path path) path bytes (write_file (tmp_path path) bytes d.files);
      },
    )

-- How a call of `create` ends.
pub data Outcome (f : F64) (path : FilePath) (id : ℕ) (collected : Entries) (rate : f.Float)
    (block_size : ℕ) (d : Disk) : Result SsTable × Disk → Type 0 where
  not_written :
      (x : Error) (failpoint : Failpoint)
      → Outcome f path id collected rate block_size d (err x, record d { failpoint = failpoint })
  not_renamed :
      (x : Error) (failpoint : Failpoint) (contents : Bytes)
      → Outcome f path id collected rate block_size d (
        err x,
        record { failpoint = failpoint; files = write_file (tmp_path path) contents d.files },
      )
  made :
      (failpoint : Failpoint)
      → Outcome f path id collected rate block_size d
          (made_of f path id collected rate block_size d failpoint)

module _ (f : F64) (path : FilePath) (id : ℕ) (entries : Entries) (rate : f.Float) (block_size : ℕ)
    (d : Disk) where
  pub create-Outcome :
      Outcome f path id
        (sort_entries entries)
        rate
        block_size
        d
        (create f path id entries rate block_size d)
  unfolding create
  create-Outcome = go write.0 sync.0 renaming.0
    where
      write : Bool × Failpoint
      write = should_fail ss_table_write d.failpoint

      sync : Bool × Failpoint
      sync = should_fail ss_table_sync write.1

      renaming : Bool × Failpoint
      renaming = should_fail rename sync.1

      w : Writer
      w = last_block (write_entries block_size (sort_entries entries) new_writer)

      bytes : Bytes
      bytes = table_bytes w (
          insert_all (map (λ p. p.0) (sort_entries entries))
            (Bloom.new f (length (sort_entries entries)) rate))

      written : Files
      written = write_file (tmp_path path) bytes d.files

      go :
          (a b c : Bool)
          → Outcome f path id (sort_entries entries) rate block_size d (
              if a
              then (
                err (other_error "injected SSTable write failure"),
                record d { failpoint = write.1 },
              )
              else if b
              then (
                err (other_error "injected SSTable sync failure"),
                record { failpoint = sync.1; files = written },
              )
              else if c
              then (
                err (other_error "injected rename failure"),
                record { failpoint = renaming.1; files = written },
              )
              else made_of f path id (sort_entries entries) rate block_size d renaming.1)
      go true b c = not_written _ _
      go false true c = not_renamed _ _ bytes
      go false false true = not_renamed _ _ bytes
      go false false false = made renaming.1

  -- Whether `create` succeeds or fails, it touches no file but its own and the temporary one.
  pub read_file-create :
      (other : FilePath)
      → eq_bytes other path ≡ false
      → eq_bytes other (tmp_path path) ≡ false
      → read_file other (create f path id entries rate block_size d).1.files
        ≡ read_file other d.files
  read_file-create other h k =
      of_outcome (create f path id entries rate block_size d) create-Outcome
    where
      of_outcome :
          (r : Result SsTable × Disk)
          → Outcome f path id (sort_entries entries) rate block_size d r
          → read_file other r.1.files ≡ read_file other d.files
      of_outcome _ (not_written x fp) = refl
      of_outcome _ (not_renamed x fp contents) =
          read_file-write_file other (tmp_path path) contents d.files k
      of_outcome _ (made fp) =
          read_file-rename_file other (tmp_path path) path _ _ k h
          ∙ read_file-write_file other (tmp_path path) _ d.files k

  -- A `create` that fails leaves the file of the table's name as it was, if that is not its own
  -- temporary name.
  pub read_file-create_err :
      (x : Error)
      → eq_bytes path (tmp_path path) ≡ false
      → (create f path id entries rate block_size d).0 ≡ err x
      → read_file path (create f path id entries rate block_size d).1.files ≡ read_file path d.files
  read_file-create_err x k = of_outcome (create f path id entries rate block_size d) create-Outcome
    where
      of_outcome :
          (r : Result SsTable × Disk)
          → Outcome f path id (sort_entries entries) rate block_size d r
          → r.0 ≡ err x
          → read_file path r.1.files ≡ read_file path d.files
      of_outcome _ (not_written y fp) same = refl
      of_outcome _ (not_renamed y fp contents) same =
          read_file-write_file path (tmp_path path) contents d.files k
      of_outcome _ (made fp) same = absurd cc
