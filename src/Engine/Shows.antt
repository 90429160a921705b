-- ===== src/Engine/Shows.antt =====
-- The database as a map from keys to values: what a read, a flush and a write do to it.
use lsm_storage_engine.Common.{
  ℕ, ◌+◌, ◌^◌, ◌<◌, ◌≡◌, refl, ap, ◌∙◌, arith, Bool, true, false, Option, none, some, List, [], ◌∷◌,
  ◌++◌, length, leb, if◌then◌else◌,
}
use mathlib.Core.Path.{subst}
use lsm_storage_engine.Common.Bytes.{Bytes}
use lsm_storage_engine.Common.SortedMap.{lookup, IsSorted}
use lsm_storage_engine.Error.{ok}
use lsm_storage_engine.MemTable.{MemTable, Entry, value, tombstone}
use lsm_storage_engine.MemTable
use lsm_storage_engine.Files.{join, table_file_name}
use lsm_storage_engine.Bloom.Float.{F64}
use lsm_storage_engine.Wal.{sync, truncate}
use lsm_storage_engine.Manifest.{Manifest, next_table_id, add_table, append}
use lsm_storage_engine.SsTable.Format.{Entries}
use lsm_storage_engine.SsTable.Create.{SsTable, Disk, create, first_key}
use lsm_storage_engine.SsTable.World.{World}
use lsm_storage_engine.SsTable.Segments.{room}
use lsm_storage_engine.Compaction.Newest.{newest}
use lsm_storage_engine.Engine.State.{Engine, compact, with_wal, with_manifest, validate_key, get}
use lsm_storage_engine.Engine.Write.{
  insert_l0, l0_len, copy_all, maybe_request_compaction, flush_frozen, flush_memtable, flush,
}
use lsm_storage_engine.Engine.Durable.{Post, and_then-Post}
use lsm_storage_engine.Engine.View.{view, Reads, get-Reads}
use lsm_storage_engine.Engine.Stored.{Stored, Stored-create}

next_table_id-next :
    (m : Manifest) (id : ℕ)
    → (next_table_id m).0 ≡ ok id
    → (id ≡ m.next_id) × ((next_table_id m).1.next_id ≡ m.next_id + 1)
unfolding next_table_id append
next_table_id-next m id h = (ground arith, ground arith)

add_table-next : (id level : ℕ) (m : Manifest) → (add_table id level m).1.next_id ≡ m.next_id
unfolding add_table append
add_table-next id level m = ground arith

module _ {Float : Type 0} where
  -- The memtable, whose keys rise and are not empty, and the tables on disk.
  pub record Healthy (e : Engine Float) (W : World) (ls : List Entries) : Type 0 where
    pub stored : Stored W e.path e.manifest.next_id e.files e.cache e.version ls
    pub memory : IsSorted e.memtable.entries
    pub keys : 0 < length e.memtable.entries → 0 < length (first_key e.memtable.entries)
    pub settled : e.immutable ≡ none

  -- The database is healthy, and what it holds is the map.
  pub record Shows (e : Engine Float) (m : Bytes → Option Bytes) : Type 0 where
    pub world : World
    pub lists : List Entries
    pub healthy : Healthy e world lists
    pub holds : (key : Bytes) → view e lists key ≡ m key

  -- A read of a valid key returns the value of the map, and leaves the map as it is.
  pub get-Shows :
      (e : Engine Float) (m : Bytes → Option Bytes) (key : Bytes)
      → Shows e m
      → validate_key key ≡ ok tt
      → ((get key e).0 ≡ ok (m key)) × Shows (get key e).1 m
  get-Shows e m key s valid =
      let stored = s.healthy.stored in
      let r : Reads s.world e (get key e) (view e s.lists key) =
        get-Reads s.world key s.lists e valid stored.tables stored.coherent in
      (
        r.result ∙ ap ok (s.holds key),
        rw r.state (record {
          world = s.world;
          lists = s.lists;
          healthy = record {
            stored = record {
              levels = stored.levels;
              tables = stored.tables;
              coherent = r.coherent;
              named = stored.named;
              fresh = stored.fresh;
            };
            memory = s.healthy.memory;
            keys = s.healthy.keys;
            settled = s.healthy.settled;
          };
          holds = λ k. unfold view in s.holds k;
        }),
      )

module _ (f : F64) where
  open f use {Float}

  -- The state after the new table is in front and memory is empty.
  flushed-Shows :
      (e e' : Engine Float) (m : Bytes → Option Bytes) (id : ℕ) (t : SsTable) (d d' : Disk)
      → Shows e m
      → e.manifest.next_id < 2 ^ 64
      → room e.memtable.entries < 2 ^ 32
      → id ≡ e.manifest.next_id
      → d.files ≡ e.files
      → create f
          (join e.path (table_file_name id))
          id
          e.memtable.entries
          e.options.bloom_false_positive_rate
          e.options.block_size
          d
        ≡ (ok t, d')
      → e'.path ≡ e.path
      → e'.manifest.next_id ≡ e.manifest.next_id + 1
      → e'.files ≡ d'.files
      → e'.cache ≡ e.cache
      → e'.version ≡ insert_l0 t e.version
      → e'.memtable ≡ MemTable.new
      → e'.immutable ≡ none
      → Shows e' m
  unfolding view newest lookup
  flushed-Shows e e' m id t d d' s small few number same made path next files cache version memory
        nothing =
      let h : Healthy e s.world s.lists = s.healthy in
      let (W', stored) =
        Stored-create f s.world e.path e.manifest.next_id e.cache e.version s.lists
          e.memtable.entries e.options.bloom_false_positive_rate e.options.block_size d d' t
          (subst
            (λ i.
              create f (join e.path (table_file_name i)) i e.memtable.entries
                e.options.bloom_false_positive_rate e.options.block_size d
              ≡ (ok t, d'))
            number made)
          small h.memory few h.keys (rw same h.stored) in
      record {
        world = W';
        lists = e.memtable.entries ∷ s.lists;
        healthy = record {
          stored = rw (path, next, files, cache, version) stored;
          memory = rw memory tt;
          keys = rw memory (λ k. k);
          settled = nothing;
        };
        holds = λ key. rw (memory, nothing) (rw h.settled at (s.holds key));
      }

  -- A flush that succeeds leaves the map as it is, if the counter of the manifest is below its
  -- 64-bit limit and what the memtable holds takes less than 2 ^ 32 bytes on disk.
  pub flush_frozen-Shows :
      (e : Engine Float) (m : Bytes → Option Bytes)
      → Shows e m
      → e.manifest.next_id < 2 ^ 64
      → room e.memtable.entries < 2 ^ 32
      → Post (λ e'. Shows e' m) (flush_frozen f e)
  unfolding flush_frozen truncate
  flush_frozen-Shows e m s small few =
      let Q : Engine Float → Type 0 = λ e'. Shows e' m in
      let e₀ : Engine Float = record e {
        memtable = MemTable.new;
        immutable = some (copy_all (MemTable.iter e.memtable) MemTable.new);
      } in
      let e₁ : Engine Float = (with_manifest next_table_id e₀).1 in
      and_then-Post Q _ _ (λ id numbered. and_then-Post Q _ _ (λ t made.
        and_then-Post Q _ _ (λ u added. and_then-Post Q _ _ (λ v truncated b done.
          let (number, next) =
            next_table_id-next (record e.manifest { failpoint = e.failpoint }) id numbered in
          let d : Disk = record { failpoint = e₁.failpoint; files = e₁.files } in
          let d' : Disk =
            (create f (join e.path (table_file_name id)) id (MemTable.iter e.memtable)
              e.options.bloom_false_positive_rate e.options.block_size d).1 in
          flushed-Shows e _ m id t d d' s small few number refl (ap (λ r. (r, d')) made) refl
            (add_table-next id 0 (record e₁.manifest { failpoint = d'.failpoint }) ∙ next) refl refl
            refl refl refl))))

module _ {Float : Type 0} where
  -- What does not change the map: the log, the failpoint, the worker's messages.
  pub same-Shows :
      (e e' : Engine Float) (m : Bytes → Option Bytes)
      → e'.path ≡ e.path
      → e'.manifest ≡ e.manifest
      → e'.files ≡ e.files
      → e'.cache ≡ e.cache
      → e'.version ≡ e.version
      → e'.memtable ≡ e.memtable
      → e'.immutable ≡ e.immutable
      → Shows e m
      → Shows e' m
  unfolding view
  same-Shows e e' m path manifest files cache version memory immutable s = record {
    world = s.world;
    lists = s.lists;
    healthy = record {
      stored = rw (path, manifest, files, cache, version) s.healthy.stored;
      memory = rw memory s.healthy.memory;
      keys = rw memory s.healthy.keys;
      settled = immutable ∙ s.healthy.settled;
    };
    holds = λ key. rw (memory, immutable) (s.holds key);
  }

  maybe_request-Shows :
      (e : Engine Float) (m : Bytes → Option Bytes)
      → Shows e m
      → Shows (maybe_request_compaction e) m
  unfolding maybe_request_compaction
  maybe_request-Shows e m s = go (leb e.options.l0_compaction_trigger (l0_len e.version))
    where
      go : (b : Bool) → Shows (if b then record e { worker = e.worker ++ compact ∷ [] } else e) m
      go true =
          same-Shows e (record e { worker = e.worker ++ compact ∷ [] }) m refl refl refl refl refl
            refl refl s
      go false = s

module _ (f : F64) where
  open f use {Float}

  -- If a database holds a map and no flush has failed before, then a flush that succeeds, of an
  -- empty memtable or another, leaves the map as it is, if the counter of the manifest is below 2
  -- ^ 64 and what the memtable holds takes less than 2 ^ 32 bytes on disk.
  pub flush-Shows :
      (e : Engine Float) (m : Bytes → Option Bytes)
      → Shows e m
      → e.manifest.next_id < 2 ^ 64
      → room e.memtable.entries < 2 ^ 32
      → (flush f e).0 ≡ ok tt
      → Shows (flush f e).1 m
  unfolding flush flush_memtable
  flush-Shows e m s small few =
      and_then-Post (λ e'. Shows e' m) (flush_memtable f e) _
        (λ u flushed b done.
          maybe_request-Shows (flush_memtable f e).1 m
            (go (MemTable.is_empty e.memtable) u flushed))
        tt
    where
      go : (b : Bool) → Post (λ e'. Shows e' m) (if b then with_wal sync e else flush_frozen f e)
      go true = λ u done. same-Shows e _ m refl refl refl refl refl refl refl s
      go false = flush_frozen-Shows f e m s small few
