-- ===== src/SsTable/Segments.antt =====
-- The blocks in a table file: where the rows of the index say, one behind the other.
use lsm_storage_engine.Common.{
  ℕ, zero, suc, ◌+◌, ◌-◌, ◌^◌, ◌≤◌, ◌<◌, ◌≡◌, refl, ◌∙◌, arith, Option, none, some, List, [], ◌∷◌,
  ◌++◌, length, drop, slice, length-append, length-drop, false, take-append_le, ◌==◌, ==_refl,
  if◌then◌else◌, ltb,
}
use lsm_storage_engine.Common.Bytes.{Bytes}
use lsm_storage_engine.Error.{ok}
use lsm_storage_engine.MemTable.{value, tombstone, value_len}
use lsm_storage_engine.Files.{FilePath, Files, read_file}
use lsm_storage_engine.SsTable.Format.{Entries, IndexEntry, flush_data_block}
use lsm_storage_engine.SsTable.Create.{SsTable}
use lsm_storage_engine.SsTable.Open.{open_file, read_exact}
use lsm_storage_engine.SsTable.Read.{read_data_block}
use lsm_storage_engine.SsTable.Blocks.{encode_entries, AllFit, decode_block-encode_entries}
use lsm_storage_engine.SsTable.Iterate.{RowsRead, flat}
use lsm_storage_engine.SsTable.World.{World, RowsKnown}

module _ {ℓ} {A : Type ℓ} where
  drop-append_le : (n : ℕ) (xs ys : List A) → n ≤ length xs → drop n (xs ++ ys) ≡ drop n xs ++ ys
  drop-append_le zero xs ys h = refl
  drop-append_le (suc n) [] ys h = absurd (omega arith)
  drop-append_le (suc n) (x ∷ xs) ys h = drop-append_le n xs ys (omega arith)

  -- A cut within the first part does not see the second.
  pub slice-append_le :
      (i j : ℕ) (xs ys : List A) → i ≤ j → j ≤ length xs → slice i j (xs ++ ys) ≡ slice i j xs
  slice-append_le i j xs ys h k =
      rw (drop-append_le i xs ys (omega arith))
        (take-append_le (j - i) (drop i xs) ys (omega (arith, length-drop i xs)))

abbrev pub block_bytes : Entries → Bytes
block_bytes block = flush_data_block (encode_entries block) (length block)

-- The row is that of the block at its place in the file.
pub record RowAtPlace (file : Bytes) (n : ℕ) (row : IndexEntry) (block : Entries) : Type 0 where
  pub starts : row.offset ≡ n
  pub positive : 0 < row.length
  pub inside : n + row.length ≤ length file
  pub bytes : slice n (n + row.length) file ≡ block_bytes block

-- From the place `n` on the rows follow one another.
abbrev pub Segments : Bytes → ℕ → List IndexEntry → List Entries → ℕ → Type 0
Segments file n [] [] end = n ≡ end
Segments file n (row ∷ index) (block ∷ blocks) end =
    RowAtPlace file n row block × Segments file (n + row.length) index blocks end
Segments file n _ _ end = ⊥

RowAtPlace-append :
    (file more : Bytes) (n : ℕ) (row : IndexEntry) (block : Entries)
    → RowAtPlace file n row block
    → RowAtPlace (file ++ more) n row block
RowAtPlace-append file more n row block p = record {
  starts = p.starts;
  positive = p.positive;
  inside = omega (arith, p.inside, length-append file more);
  bytes = slice-append_le n (n + row.length) file more (omega arith) p.inside ∙ p.bytes;
}

pub Segments-append :
    (file more : Bytes) (n : ℕ) (index : List IndexEntry) (blocks : List Entries) (end : ℕ)
    → Segments file n index blocks end
    → Segments (file ++ more) n index blocks end
Segments-append file more n [] [] end s = s
Segments-append file more n [] (b ∷ blocks) end s = absurd s
Segments-append file more n (row ∷ index) [] end s = absurd s
Segments-append file more n (row ∷ index) (block ∷ blocks) end (p, s) = (
  RowAtPlace-append file more n row block p,
  Segments-append file more (n + row.length) index blocks end s,
)

-- One more block at the end.
pub Segments-snoc :
    (file : Bytes) (n : ℕ) (index : List IndexEntry) (blocks : List Entries) (m : ℕ)
    (row : IndexEntry) (block : Entries)
    → Segments file n index blocks m
    → RowAtPlace file m row block
    → Segments file n (index ++ row ∷ []) (blocks ++ block ∷ []) (m + row.length)
Segments-snoc file n [] [] m row block s p = (rw s p, rw s refl)
Segments-snoc file n [] (b ∷ blocks) m row block s p = absurd s
Segments-snoc file n (x ∷ index) [] m row block s p = absurd s
Segments-snoc file n (x ∷ index) (b ∷ blocks) m row block (q, s) p =
    (q, Segments-snoc file (n + x.length) index blocks m row block s p)

-- The entries take at most these bytes on disk, the checksums of their blocks included.
abbrev pub room : Entries → ℕ
room [] = 8
room ((k, e) ∷ entries) = 17 + length k + value_len e + room entries

pub room-AllFit : (entries : Entries) → room entries < 2 ^ 32 → AllFit entries
room-AllFit [] h = tt
room-AllFit ((k, value v) ∷ entries) h =
    ((omega arith, omega arith), room-AllFit entries (omega arith))
room-AllFit ((k, tombstone) ∷ entries) h = (omega arith, room-AllFit entries (omega arith))

pub length-le-room : (entries : Entries) → length entries ≤ room entries
length-le-room [] = omega arith
length-le-room ((k, e) ∷ entries) = omega (arith, length-le-room entries)

pub room-ge : (l : Entries) → 8 ≤ room l
room-ge [] = omega arith
room-ge ((k, e) ∷ l) = omega (arith, room-ge l)

pub room-append : (l m : Entries) → room (l ++ m) + 8 ≡ room l + room m
room-append [] m = omega arith
room-append ((k, e) ∷ l) m = omega (arith, room-append l m)

open_file-some :
    (path : FilePath) (files : Files) (file : Bytes)
    → read_file path files ≡ some file
    → open_file path files ≡ ok file
unfolding open_file
open_file-some path files file there = rw (open_file, there) refl

read_row :
    (path : FilePath) (files : Files) (file : Bytes) (n : ℕ) (row : IndexEntry) (block : Entries)
    → read_file path files ≡ some file
    → room block < 2 ^ 32
    → RowAtPlace file n row block
    → read_data_block path row.offset row.length files ≡ ok block
unfolding read_data_block read_exact
read_row path files file n row block there small p =
    rw (p.starts, open_file-some path files file there)
      (rw (nonzero, inside)
        (rw p.bytes (
          decode_block-encode_entries block (omega (arith, length-le-room block))
            (room-AllFit block small))))
  where
    nonzero : (row.length == 0) ≡ false
    nonzero = ground (arith, p.positive)

    inside : ltb (length file) (n + row.length) ≡ false
    inside = ground (arith, p.inside)

-- All rows of the index of a file are read as their blocks.
pub Segments-RowsRead :
    (path : FilePath) (files : Files) (file : Bytes) (n : ℕ) (index : List IndexEntry)
    (blocks : List Entries) (end : ℕ)
    → read_file path files ≡ some file
    → room (flat blocks) < 2 ^ 32
    → Segments file n index blocks end
    → RowsRead files path index blocks
Segments-RowsRead path files file n [] [] end there small s = tt
Segments-RowsRead path files file n [] (b ∷ blocks) end there small s = absurd s
Segments-RowsRead path files file n (row ∷ index) [] end there small s = absurd s
Segments-RowsRead path files file n (row ∷ index) (block ∷ blocks) end there small (p, s) = (
  read_row path files file n row block there
      (omega (arith, room-append block (flat blocks), room-ge (flat blocks))) p,
  Segments-RowsRead path files file (n + row.length) index blocks end there
      (omega (arith, room-append block (flat blocks), room-ge block)) s,
)

-- The block at an offset.
unfoldable pub block_at : ℕ → List IndexEntry → List Entries → Option Entries
block_at o [] blocks = none
block_at o (row ∷ index) [] = none
block_at o (row ∷ index) (block ∷ blocks) =
    let rest = block_at o index blocks in if row.offset == o then some block else rest

-- A world that has the blocks of this table at their offsets.
pub Segments-RowsKnown :
    (W : World) (t : SsTable) (file : Bytes) (n : ℕ) (index : List IndexEntry)
    (blocks : List Entries) (end : ℕ)
    → ((o : ℕ) → n ≤ o → W (record { table_id = t.id; offset = o }) ≡ block_at o index blocks)
    → Segments file n index blocks end
    → RowsKnown W t index blocks
unfolding block_at
Segments-RowsKnown W t file n [] [] end w s = tt
Segments-RowsKnown W t file n [] (b ∷ blocks) end w s = absurd s
Segments-RowsKnown W t file n (row ∷ index) [] end w s = absurd s
Segments-RowsKnown W t file n (row ∷ index) (block ∷ blocks) end w (p, s) = (
  w row.offset (omega (arith, p.starts)) ∙ rw (==_refl row.offset) refl,
  Segments-RowsKnown W t file (n + row.length) index blocks end later s,
)
  where
    later :
        (o : ℕ)
        → n + row.length ≤ o
        → W (record { table_id = t.id; offset = o }) ≡ block_at o index blocks
    later o h = ground (arith, w o (omega (arith, p.positive)), p.starts, p.positive)
