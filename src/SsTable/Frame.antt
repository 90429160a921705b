-- ===== src/SsTable/Frame.antt =====
-- A table reads the same wherever its file and its blocks are the same.
use lsm_storage_engine.Common.{ℕ, ◌≡◌, refl, ◌∙◌, List, [], ◌∷◌}
use lsm_storage_engine.Files.{FilePath, Files, read_file}
use lsm_storage_engine.SsTable.Format.{Entries, IndexEntry}
use lsm_storage_engine.SsTable.Create.{SsTable}
use lsm_storage_engine.SsTable.Open.{open_file}
use lsm_storage_engine.SsTable.Read.{read_data_block}
use lsm_storage_engine.SsTable.Iterate.{RowsRead}
use lsm_storage_engine.SsTable.World.{World, RowsKnown, IsTable}

-- A table reads the same in any directory with the same file of its name.
open_file-same :
    (path : FilePath) (files files' : Files)
    → read_file path files' ≡ read_file path files
    → open_file path files' ≡ open_file path files
unfolding open_file
open_file-same path files files' e = rw (open_file, e) refl

read_data_block-same :
    (path : FilePath) (offset len : ℕ) (files files' : Files)
    → read_file path files' ≡ read_file path files
    → read_data_block path offset len files' ≡ read_data_block path offset len files
unfolding read_data_block
read_data_block-same path offset len files files' e = rw (open_file-same path files files' e) refl

RowsRead-same :
    (path : FilePath) (files files' : Files) (index : List IndexEntry) (blocks : List Entries)
    → read_file path files' ≡ read_file path files
    → RowsRead files path index blocks
    → RowsRead files' path index blocks
RowsRead-same path files files' [] [] e r = tt
RowsRead-same path files files' [] (b ∷ blocks) e r = absurd r
RowsRead-same path files files' (row ∷ index) [] e r = absurd r
RowsRead-same path files files' (row ∷ index) (block ∷ blocks) e (r, rs) = (
  read_data_block-same path row.offset row.length files files' e ∙ r,
  RowsRead-same path files files' index blocks e rs,
)

RowsKnown-same :
    (W W' : World) (t : SsTable) (index : List IndexEntry) (blocks : List Entries)
    → ((o : ℕ)
        → W' (record { table_id = t.id; offset = o }) ≡ W (record { table_id = t.id; offset = o }))
    → RowsKnown W t index blocks
    → RowsKnown W' t index blocks
RowsKnown-same W W' t [] [] w r = tt
RowsKnown-same W W' t [] (b ∷ blocks) w r = absurd r
RowsKnown-same W W' t (row ∷ index) [] w r = absurd r
RowsKnown-same W W' t (row ∷ index) (block ∷ blocks) w (r, rs) =
    (w row.offset ∙ r, RowsKnown-same W W' t index blocks w rs)

pub IsTable-same :
    (W W' : World) (files files' : Files) (t : SsTable) (entries : Entries)
    → read_file t.path files' ≡ read_file t.path files
    → ((o : ℕ)
        → W' (record { table_id = t.id; offset = o }) ≡ W (record { table_id = t.id; offset = o }))
    → IsTable W files t entries
    → IsTable W' files' t entries
IsTable-same W W' files files' t entries e w v = record {
  blocks = v.blocks;
  read = RowsRead-same t.path files files' t.index v.blocks e v.read;
  known = RowsKnown-same W W' t t.index v.blocks w v.known;
  shape = v.shape;
  whole = v.whole;
  sorted = v.sorted;
  smallest = v.smallest;
  largest = v.largest;
  complete = v.complete;
}
