-- ===== src/Engine/Newest.antt =====
-- A read of src/engine.rs against the levels of the database, each with what its tables hold.
use lsm_storage_engine.Common.{◌≡◌, refl, ◌∙◌, sym, Option, none, some, List, [], ◌∷◌, ◌++◌}
use lsm_storage_engine.Common.Bytes.{Bytes}
use lsm_storage_engine.Common.SortedMap.{lookup}
use lsm_storage_engine.Common.SortedMap.Append.{or_else}
use lsm_storage_engine.Error.{ok}
use lsm_storage_engine.Files.{Files}
use lsm_storage_engine.MemTable.{Entry}
use lsm_storage_engine.SsTable.Format.{Entries}
use lsm_storage_engine.SsTable.Create.{SsTable}
use lsm_storage_engine.SsTable.World.{TablesHold, World, Coherent}
use lsm_storage_engine.Compaction.Newest.{newest}
use lsm_storage_engine.Engine.State.{Engine, validate_key, get}
use lsm_storage_engine.Engine.Version.{Level, Version, tables_newest_first}
use lsm_storage_engine.Engine.View.{Reads, view, value_of, frozen, get-Reads}
mod Examples

-- The tables of each level hold these lists of entries.
abbrev pub LevelsHold : World → Files → Version → List (List Entries) → Type 0
LevelsHold W files [] [] = Unit
LevelsHold W files (level ∷ levels) (ls ∷ lls) =
    TablesHold W files level ls × LevelsHold W files levels lls
LevelsHold W files _ _ = ⊥

-- The first level with an entry for the key decides, and in it the first table.
abbrev in_levels : Bytes → List (List Entries) → Option Entry
in_levels key [] = none
in_levels key (ls ∷ lls) = or_else (newest key ls) (in_levels key lls)

abbrev pub all_of : List (List Entries) → List Entries
all_of [] = []
all_of (ls ∷ lls) = ls ++ all_of lls

or_else_assoc : {V : Type 0} (a b c : Option V) → or_else (or_else a b) c ≡ or_else a (or_else b c)
or_else_assoc none b c = refl
or_else_assoc (some v) b c = refl

newest-append :
    (key : Bytes) (ls ms : List Entries)
    → newest key (ls ++ ms) ≡ or_else (newest key ls) (newest key ms)
unfolding newest
newest-append key [] ms = refl
newest-append key (l ∷ ls) ms =
    rw (newest-append key ls ms)
      (sym (or_else_assoc (lookup key l) (newest key ls) (newest key ms)))

pub newest-all_of :
    (key : Bytes) (lls : List (List Entries)) → newest key (all_of lls) ≡ in_levels key lls
newest-all_of key [] = unfold newest in refl
newest-all_of key (ls ∷ lls) = rw (newest-append key ls (all_of lls), newest-all_of key lls) refl

TablesHold-append :
    (W : World) (files : Files) (tables more : List SsTable) (ls ms : List Entries)
    → TablesHold W files tables ls
    → TablesHold W files more ms
    → TablesHold W files (tables ++ more) (ls ++ ms)
TablesHold-append W files [] more [] ms h k = k
TablesHold-append W files (t ∷ tables) more (l ∷ ls) ms (h, hs) k =
    (h, TablesHold-append W files tables more ls ms hs k)
TablesHold-append W files [] more (l ∷ ls) ms h k = absurd h
TablesHold-append W files (t ∷ tables) more [] ms h k = absurd h

pub tables_newest_first-TablesHold :
    (W : World) (files : Files) (levels : Version) (lls : List (List Entries))
    → LevelsHold W files levels lls
    → TablesHold W files (tables_newest_first levels) (all_of lls)
unfolding tables_newest_first
tables_newest_first-TablesHold W files [] [] h = tt
tables_newest_first-TablesHold W files (level ∷ levels) (ls ∷ lls) (h, hs) =
    TablesHold-append W files level (tables_newest_first levels) ls (all_of lls) h
      (tables_newest_first-TablesHold W files levels lls hs)
tables_newest_first-TablesHold W files [] (ls ∷ lls) h = absurd h
tables_newest_first-TablesHold W files (level ∷ levels) [] h = absurd h

module _ {Float : Type 0} where
  abbrev pub newest_of : Engine Float → List (List Entries) → Bytes → Option Entry
  newest_of e lls key =
      or_else (lookup key e.memtable.entries)
        (or_else (lookup key (frozen e.immutable)) (in_levels key lls))

  -- If the tables of each level hold the lists given for it and the cache holds nothing but what
  -- is on disk, then a read of a valid key returns the value of the first entry for it in this
  -- order: the memtable, the frozen memtable, and the levels from the first on, each from its
  -- first table on; a deletion among them hides what comes later. The read changes nothing but
  -- the cache, which then still holds only what is on disk, and two counters.
  pub get-newest_of :
      (W : World) (key : Bytes) (lls : List (List Entries)) (e : Engine Float)
      → validate_key key ≡ ok tt
      → LevelsHold W e.files e.version lls
      → Coherent W e.cache
      → Reads W e (get key e) (value_of (newest_of e lls key))
  get-newest_of W key lls e valid h c = rw (← newest-all_of key lls) (
      unfold view newest in
      get-Reads W key (all_of lls) e valid
        (tables_newest_first-TablesHold W e.files e.version lls h) c)
