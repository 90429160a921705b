-- ===== src/SsTable/World.antt =====
-- What is on disk at each place, as tables and caches see it.
use lsm_storage_engine.Common.{
  ◌<◌, ◌≡◌, refl, sym, ◌∙◌, arith, true, Option, none, some, List, [], ◌∷◌, length, Bool-cases, inl,
  inr,
}
use lsm_storage_engine.Common.Bytes.{Bytes}
use lsm_storage_engine.Common.SortedMap.{lookup, IsSorted}
use lsm_storage_engine.Error.{Result, ok, err}
use lsm_storage_engine.MemTable.{Entry}
use lsm_storage_engine.Files.{Files}
use lsm_storage_engine.Bloom.{might_contain}
use lsm_storage_engine.Cache.{BlockKey, BlockCache, same_key}
use lsm_storage_engine.Cache
use lsm_storage_engine.Cache.Map.{same_key→eq}
use lsm_storage_engine.Cache.Bounded.{get-insert_hit, get-get}
use lsm_storage_engine.SsTable.Format.{Entries, IndexEntry}
use lsm_storage_engine.SsTable.Create.{SsTable, first_key, last_key}
use lsm_storage_engine.SsTable.Read.{read_data_block, block_key, load_missing, load_block}
use lsm_storage_engine.SsTable.Iterate.{RowsRead, flat}
use lsm_storage_engine.SsTable.Rows.{RowsMatch}

-- What is on disk at each place of each table; the cache may hold nothing else.
abbrev pub World : Type 0
World = BlockKey → Option Entries

abbrev pub Coherent : World → BlockCache → Type 0
Coherent W cache = (k : BlockKey) (b : Entries) → (Cache.get k cache).0 ≡ some b → W k ≡ some b

abbrev pub RowsKnown : World → SsTable → List IndexEntry → List Entries → Type 0
RowsKnown W t [] [] = Unit
RowsKnown W t (row ∷ index) (block ∷ blocks) =
    (W (block_key t row) ≡ some block) × RowsKnown W t index blocks
RowsKnown W t _ _ = ⊥

-- An index over blocks that are not empty, or the one row of an empty table.
pub data Shape (t : SsTable) (blocks : List Entries) : Type 0 where
  full : RowsMatch t.index blocks → 0 < length t.smallest → Shape t blocks
  hollow :
      flat blocks ≡ []
      → ◌≡◌ {A = Bytes} t.smallest []
      → ◌≡◌ {A = Bytes} t.largest []
      → length t.index ≡ 1
      → Shape t blocks

-- The table on disk holds the entries.
pub record IsTable (W : World) (files : Files) (t : SsTable) (entries : Entries) : Type 0 where
  pub blocks : List Entries
  pub read : RowsRead files t.path t.index blocks
  pub known : RowsKnown W t t.index blocks
  pub shape : Shape t blocks
  pub whole : flat blocks ≡ entries
  pub sorted : IsSorted entries
  pub smallest : t.smallest ≡ first_key entries
  pub largest : t.largest ≡ last_key entries
  pub complete :
      (key : Bytes) (e : Entry) → lookup key entries ≡ some e → might_contain key t.bloom ≡ true

Coherent-get :
    (W : World) (k : BlockKey) (c : BlockCache) → Coherent W c → Coherent W (Cache.get k c).1
Coherent-get W k c h j b e = h j b (sym (get-get k j c) ∙ e)

Coherent-insert :
    (W : World) (k : BlockKey) (block : Entries) (c : BlockCache)
    → W k ≡ some block
    → Coherent W c
    → Coherent W (Cache.insert k block c)
Coherent-insert W k block c known h j b e = elim (Bool-cases (same_key k j)) [
  | inl same ↦ ground (arith, get-insert_hit k j block b c e, same_key→eq k j same)
  | inr other ↦ h j b (ground (arith, get-insert_hit k j block b c e))
]

abbrev pub CoherentOption : World → Option BlockCache → Type 0
CoherentOption W none = Unit
CoherentOption W (some c) = Coherent W c

-- Loading the block of a row returns what is on disk, whether the cache holds it or not.
pub record Loaded (W : World) (r : Result Entries × Option BlockCache) (block : Entries)
    : Type 0 where
  pub result : r.0 ≡ ok block
  pub coherent : CoherentOption W r.1

load_missing-Loaded :
    (W : World) (k : BlockKey) (block : Entries) (r : Result Entries) (cache : Option BlockCache)
    → r ≡ ok block
    → W k ≡ some block
    → CoherentOption W cache
    → Loaded W (load_missing k r cache) block
load_missing-Loaded W k block (ok b) none e known c = record { result = e; coherent = c }
load_missing-Loaded W k block (ok b) (some cache) e known c = record {
  result = e;
  coherent = Coherent-insert W k b cache (ground arith) c;
}
load_missing-Loaded W k block (err x) cache e known c = absurd cc

pub load_block-Loaded :
    (W : World) (row : IndexEntry) (t : SsTable) (files : Files) (cache : Option BlockCache)
    (block : Entries)
    → read_data_block t.path row.offset row.length files ≡ ok block
    → W (block_key t row) ≡ some block
    → CoherentOption W cache
    → Loaded W (load_block row t files cache) block
unfolding load_block
load_block-Loaded W row t files none block r known c =
    load_missing-Loaded W (block_key t row) block _ none r known tt
load_block-Loaded W row t files (some cache) block r known c =
    go (Cache.get (block_key t row) cache).0 refl
  where
    cache' : BlockCache
    cache' = (Cache.get (block_key t row) cache).1

    go :
        (found : Option Entries)
        → (Cache.get (block_key t row) cache).0 ≡ found
        → Loaded W
            (elim found [
              | some block ↦ (ok block, some cache')
              | none ↦
                  load_missing
                    (block_key t row)
                    (read_data_block t.path row.offset row.length files)
                    (some cache')
            ])
            block
    go (some b) e = record {
      result = ground (arith, c (block_key t row) b e);
      coherent = Coherent-get W (block_key t row) cache c;
    }
    go none e =
        load_missing-Loaded W (block_key t row) block _ (some cache') r known
          (Coherent-get W (block_key t row) cache c)

-- The tables hold these lists of entries.
abbrev pub TablesHold : World → Files → List SsTable → List Entries → Type 0
TablesHold W files [] [] = Unit
TablesHold W files (t ∷ tables) (l ∷ ls) = IsTable W files t l × TablesHold W files tables ls
TablesHold W files _ _ = ⊥
