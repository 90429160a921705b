-- ===== src/Engine/View.antt =====
-- What a database holds: the memtable, the frozen memtable and the tables, the newest first.
use lsm_storage_engine.Common.{
  ℕ, ◌+◌, ◌≡◌, refl, Bool, true, false, not, Option, none, some, List, [], ◌∷◌, if◌then◌else◌,
}
use lsm_storage_engine.Common.Bytes.{Bytes}
use lsm_storage_engine.Common.SortedMap.{lookup}
use lsm_storage_engine.Common.SortedMap.Append.{or_else}
use lsm_storage_engine.Error.{Result, ok, err}
use lsm_storage_engine.MemTable.{MemTable, Entry, value, tombstone}
use lsm_storage_engine.MemTable
use lsm_storage_engine.Cache.{BlockCache}
use lsm_storage_engine.SsTable.Format.{Entries}
use lsm_storage_engine.SsTable.Create.{SsTable}
use lsm_storage_engine.SsTable.Read.{contains_range, bloom_might_contain}
use lsm_storage_engine.SsTable.Read
use lsm_storage_engine.SsTable.World.{TablesHold, World, Coherent, CoherentOption}
use lsm_storage_engine.SsTable.Lookup.{Answered, get-Answered, out_of_range, not_in_filter}
use lsm_storage_engine.Compaction.Newest.{newest}
use lsm_storage_engine.Engine.State.{
  Engine, found, deleted, miss, lookup_of, lookup_memtable, lookup_immutable, value_of_entry,
  cache_or, validate_key, ◌and_then◌, get_from_tables, get,
}
use lsm_storage_engine.Engine.Version.{tables_newest_first}

abbrev pub value_of : Option Entry → Option Bytes
value_of none = none
value_of (some entry) = value_of_entry entry

-- The entries of the frozen memtable.
abbrev pub frozen : Option MemTable → Entries
frozen none = []
frozen (some table) = table.entries

Coherent-cache_or :
    (W : World) (o : Option BlockCache) (c : BlockCache)
    → CoherentOption W o
    → Coherent W c
    → Coherent W (cache_or o c)
Coherent-cache_or W none c h k = k
Coherent-cache_or W (some o) c h k = h

module _ {Float : Type 0} where
  -- The contents of the database as a map.
  unfoldable pub view : Engine Float → List Entries → Bytes → Option Bytes
  view e ls key = value_of (newest key (e.memtable.entries ∷ frozen e.immutable ∷ ls))

  -- What a read may change.
  abbrev pub after_read : Engine Float → BlockCache → ℕ → ℕ → Engine Float
  after_read e cache skips reads = record e {
    cache = cache;
    bloom_skips = skips;
    sstable_reads = reads;
  }

  -- The answer of a read; it changes nothing but the cache, whose blocks are those on disk, and the
  -- two counters.
  pub record Reads (W : World) (e : Engine Float) (r : Result (Option Bytes) × Engine Float)
      (answer : Option Bytes) : Type 0 where
    pub result : r.0 ≡ ok answer
    pub cache : BlockCache
    pub skips : ℕ
    pub reads : ℕ
    pub coherent : Coherent W cache
    pub state : r.1 ≡ after_read e cache skips reads

  read_again :
      (W : World) (e : Engine Float) (r : Result (Option Bytes) × Engine Float)
      (answer : Option Bytes) (cache : BlockCache) (skips reads : ℕ)
      → Reads W (after_read e cache skips reads) r answer
      → Reads W e r answer
  read_again W e r answer cache skips reads d = record {
    result = d.result;
    cache = d.cache;
    skips = d.skips;
    reads = d.reads;
    coherent = d.coherent;
    state = d.state;
  }

  -- The state after a table was read.
  abbrev table_read : Bytes → SsTable → Engine Float → Engine Float
  table_read key t e = record e {
    sstable_reads = e.sstable_reads + 1;
    cache = cache_or (Read.get key t e.files (some e.cache)).1 e.cache;
  }

  -- The branches of the loop.
  chosen-Reads :
      (W : World) (e : Engine Float) (key : Bytes) (a b : Bool) (read : Result (Option Entry))
      (held : Option Entry) (below : List Entries) (e' : Engine Float)
      (passed skipped missed : Result (Option Bytes) × Engine Float)
      → (a ≡ false → held ≡ none)
      → (b ≡ false → held ≡ none)
      → read ≡ ok held
      → ((entry : Entry) → Reads W e (ok (value_of_entry entry), e') (value_of_entry entry))
      → Reads W e passed (value_of (newest key below))
      → Reads W e skipped (value_of (newest key below))
      → Reads W e missed (value_of (newest key below))
      → Reads W e
          (if not a then passed else if not b then skipped else elim read [
            | ok (some entry) ↦ (ok (value_of_entry entry), e')
            | ok none ↦ missed
            | err x ↦ (err x, e')
          ])
          (value_of (or_else held (newest key below)))
  chosen-Reads W e key false b read held below e' p s m out absent f stop hp hs hm =
      rw (out refl) hp
  chosen-Reads W e key true false read held below e' p s m out absent f stop hp hs hm =
      rw (absent refl) hs
  chosen-Reads W e key true true read none below e' p s m out absent f stop hp hs hm = rw f hm
  chosen-Reads W e key true true read (some entry) below e' p s m out absent f stop hp hs hm =
      rw f (stop entry)

  -- The loop over the tables finds what the newest table that holds the key holds for it.
  pub get_from_tables-Reads :
      (W : World) (key : Bytes) (tables : List SsTable) (ls : List Entries) (e : Engine Float)
      → TablesHold W e.files tables ls
      → Coherent W e.cache
      → Reads W e (get_from_tables key tables e) (value_of (newest key ls))
  unfolding get_from_tables newest bloom_might_contain
  get_from_tables-Reads W key [] [] e v c = record {
    result = refl;
    cache = e.cache;
    skips = e.bloom_skips;
    reads = e.sstable_reads;
    coherent = c;
    state = refl;
  }
  get_from_tables-Reads W key [] (l ∷ ls) e v c = absurd v
  get_from_tables-Reads W key (t ∷ tables) [] e v c = absurd v
  get_from_tables-Reads W key (t ∷ tables) (l ∷ ls) e (v, vs) c =
      let a : Answered W (Read.get key t e.files (some e.cache)) (lookup key l) =
        get-Answered W e.files key t l (some e.cache) v c in
      let c' : Coherent W (table_read key t e).cache =
        Coherent-cache_or W (Read.get key t e.files (some e.cache)).1 e.cache a.coherent c in
      chosen-Reads W e key (contains_range key t) (bloom_might_contain key t)
        (Read.get key t e.files (some e.cache)).0 (lookup key l) ls (table_read key t e)
        (get_from_tables key tables e)
        (get_from_tables key tables (record e { bloom_skips = e.bloom_skips + 1 }))
        (get_from_tables key tables (table_read key t e)) (out_of_range W e.files key t l v)
        (not_in_filter W e.files key t l v) a.result
        (λ entry. record {
          result = refl;
          cache = (table_read key t e).cache;
          skips = e.bloom_skips;
          reads = e.sstable_reads + 1;
          coherent = c';
          state = refl;
        })
        (get_from_tables-Reads W key tables ls e vs c)
        (read_again W e _ _ e.cache (e.bloom_skips + 1) e.sstable_reads (
          get_from_tables-Reads W key tables ls (record e { bloom_skips = e.bloom_skips + 1 }) vs
            c))
        (read_again W e _ _ (table_read key t e).cache e.bloom_skips (e.sstable_reads + 1)
          (get_from_tables-Reads W key tables ls (table_read key t e) vs c'))

  -- Memory is asked first.
  in_memory-Reads :
      (W : World) (e : Engine Float) (c : Coherent W e.cache) (o : Option Entry)
      (below : Result (Option Bytes) × Engine Float) (rest : Option Entry)
      → Reads W e below (value_of rest)
      → Reads W e
          (elim (lookup_of o) [
            | found v ↦ (ok (some v), e)
            | deleted ↦ (ok none, e)
            | miss ↦ below
          ])
          (value_of (or_else o rest))
  in_memory-Reads W e c none below rest r = r
  in_memory-Reads W e c (some (value v)) below rest r = record {
    result = refl;
    cache = e.cache;
    skips = e.bloom_skips;
    reads = e.sstable_reads;
    coherent = c;
    state = refl;
  }
  in_memory-Reads W e c (some tombstone) below rest r = record {
    result = refl;
    cache = e.cache;
    skips = e.bloom_skips;
    reads = e.sstable_reads;
    coherent = c;
    state = refl;
  }

  in_immutable-Reads :
      (W : World) (key : Bytes) (e : Engine Float) (c : Coherent W e.cache)
      (table : Option MemTable) (below : Result (Option Bytes) × Engine Float) (rest : Option Entry)
      → Reads W e below (value_of rest)
      → Reads W e
          (elim (lookup_immutable table key) [
            | found v ↦ (ok (some v), e)
            | deleted ↦ (ok none, e)
            | miss ↦ below
          ])
          (value_of (or_else (lookup key (frozen table)) rest))
  unfolding lookup lookup_memtable MemTable.get
  in_immutable-Reads W key e c none below rest r = r
  in_immutable-Reads W key e c (some table) below rest r =
      in_memory-Reads W e c (lookup key table.entries) below rest r

  -- A read of a valid key returns what the database holds for it, the memtable before the frozen
  -- one and both before the tables, of which the newest that holds the key decides; a deletion
  -- hides what is older. The blocks may be in the cache or not; a read changes nothing but the
  -- cache, which then still holds only what is on disk, and two counters.
  pub get-Reads :
      (W : World) (key : Bytes) (ls : List Entries) (e : Engine Float)
      → validate_key key ≡ ok tt
      → TablesHold W e.files (tables_newest_first e.version) ls
      → Coherent W e.cache
      → Reads W e (get key e) (view e ls key)
  unfolding get view newest lookup_memtable MemTable.get ◌and_then◌
  get-Reads W key ls e valid v c =
      rw (valid, ◌and_then◌)
        (in_memory-Reads W e c (lookup key e.memtable.entries) _ _ (
          in_immutable-Reads W key e c e.immutable _ (newest key ls)
            (get_from_tables-Reads W key (tables_newest_first e.version) ls e v c)))
