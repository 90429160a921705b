-- ===== src/Engine/Session.antt =====
-- The calls on a database from its first opening on.
use lsm_storage_engine.Common.{
  ℕ, zero, suc, map, ap, sym, ◌∙◌, ◌^◌, ◌<◌, ◌≡◌, refl, arith, Option, none, List, [], ◌∷◌,
  replicate, length-replicate,
}
use mathlib.Core.Path.{subst}
use lsm_storage_engine.Common.Bytes.{Bytes}
use lsm_storage_engine.Common.SortedMap.{lookup}
use lsm_storage_engine.Error.{ok}
use lsm_storage_engine.MemTable
use lsm_storage_engine.Record.{Operation, key_of}
use lsm_storage_engine.Failpoints.{Failpoint}
use lsm_storage_engine.Files.{FilePath}
use lsm_storage_engine.Bloom.Float.{F64}
use lsm_storage_engine.Cache
use lsm_storage_engine.Cache.{find}
use lsm_storage_engine.Wal
use lsm_storage_engine.Manifest.{open_manifest, recover, recover_loop}
use lsm_storage_engine.Compaction.Newest.{newest}
use lsm_storage_engine.SsTable.Segments.{room}
use lsm_storage_engine.Engine.Options.{Options}
use lsm_storage_engine.Engine.State.{Engine, validate_key, apply, get}
use lsm_storage_engine.Engine.Version.{Level, tables_newest_first, with_max_levels, sort_level}
use lsm_storage_engine.Engine.Open.{open_with, load_tables, arrange, apply_all, wal_file_name}
use lsm_storage_engine.Engine.Write.{flush, write}
use lsm_storage_engine.Engine.View.{view}
use lsm_storage_engine.Engine.Shows.{Shows, get-Shows, flush-Shows}
use lsm_storage_engine.Engine.Written.{updated, write-Shows}

-- What the operations leave of an empty map, the newest operation first.
unfoldable pub written_map : List Operation → Bytes → Option Bytes
written_map [] key = none
written_map (operation ∷ earlier) key = updated operation (written_map earlier) key

module _ (f : F64) where
  open f use {Float}

  -- The states that calls which succeed reach from a state, with the operations that were written.
  -- The counter of the manifest stays below 2 ^ 64, and the memtable below 2 ^ 32 bytes on disk.
  pub data Session (e₀ : Engine Float) : Engine Float → List Operation → Type 0 where
    start : Session e₀ e₀ []
    wrote :
        (e : Engine Float) (done : List Operation) (operation : Operation)
        → Session e₀ e done
        → validate_key (key_of operation) ≡ ok tt
        → e.manifest.next_id < 2 ^ 64
        → room (apply e.memtable operation).entries < 2 ^ 32
        → (write f operation e).0 ≡ ok tt
        → Session e₀ (write f operation e).1 (operation ∷ done)
    flushed :
        (e : Engine Float) (done : List Operation)
        → Session e₀ e done
        → e.manifest.next_id < 2 ^ 64
        → room e.memtable.entries < 2 ^ 32
        → (flush f e).0 ≡ ok tt
        → Session e₀ (flush f e).1 done
    read :
        (e : Engine Float) (done : List Operation) (key : Bytes)
        → Session e₀ e done
        → validate_key key ≡ ok tt
        → Session e₀ (get key e).1 done

  -- What a session that began with an empty database has written is what the database holds.
  pub Session-Shows :
      (e₀ e : Engine Float) (done : List Operation)
      → Shows e₀ (written_map [])
      → Session e₀ e done
      → Shows e (written_map done)
  unfolding written_map
  Session-Shows e₀ _ _ s start = s
  Session-Shows e₀ _ _ s (wrote e done operation before valid small few h) =
      write-Shows f operation e (written_map done) (Session-Shows e₀ e done s before) valid small
        few h
  Session-Shows e₀ _ _ s (flushed e done before small few h) =
      flush-Shows f e (written_map done) (Session-Shows e₀ e done s before) small few h
  Session-Shows e₀ _ _ s (read e done key before valid) =
      (get-Shows e (written_map done) key (Session-Shows e₀ e done s before) valid).1

  -- In every state that calls which succeed have reached from an empty database, a read of a
  -- valid key returns what was last written at the key. The calls are writes of valid keys,
  -- flushes and reads; the counter of the manifest stays below 2 ^ 64, and what the memtable
  -- holds takes less than 2 ^ 32 bytes on disk.
  pub get-Session :
      (e₀ e : Engine Float) (done : List Operation) (key : Bytes)
      → Shows e₀ (written_map [])
      → Session e₀ e done
      → validate_key key ≡ ok tt
      → (get key e).0 ≡ ok (written_map done key)
  get-Session e₀ e done key s session valid =
      (get-Shows e (written_map done) key (Session-Shows e₀ e done s session) valid).0

-- The levels of an empty database.
sorted_none : (n : ℕ) → map sort_level (replicate n []) ≡ replicate n []
unfolding sort_level
sorted_none zero = refl
sorted_none (suc n) = ap (λ levels. [] ∷ levels) (sorted_none n)

arrange_none : (n : ℕ) → 0 < n → arrange (with_max_levels n) ≡ with_max_levels n
unfolding arrange
arrange_none zero h = absurd (omega arith)
arrange_none (suc n) h = ap (λ levels. [] ∷ levels) (sorted_none n)

newest_of_none : (n : ℕ) → tables_newest_first (with_max_levels n) ≡ []
unfolding tables_newest_first
newest_of_none zero = refl
newest_of_none (suc n) = newest_of_none n

module _ {Float : Type 0} (path : FilePath) (options : Options Float) (failpoint : Failpoint) where
  -- The state of a new database.
  abbrev new_engine : Engine Float
  new_engine = record {
    path = path;
    options = options;
    wal = record { path = wal_file_name; contents = []; synced = 0 };
    memtable = MemTable.new;
    immutable = none;
    version = arrange (with_max_levels options.max_levels);
    manifest = record { failpoint = failpoint; file = []; next_id = 1; tables = [] };
    cache = Cache.new options.cache_size_bytes;
    last_error = none;
    bloom_skips = 0;
    sstable_reads = 0;
    worker = [];
    files = [];
    failpoint = failpoint;
  }

  opens : open_with path options failpoint [] [] none ≡ ok new_engine
  unfolding open_with open_manifest recover recover_loop load_tables Wal.open_file Wal.replay
      Wal.collect Wal.iter Wal.next apply_all
  opens = refl

  -- A database that is opened in an empty directory holds nothing, if it has a level.
  pub open_with-Shows :
      (e : Engine Float)
      → 0 < options.max_levels
      → open_with path options failpoint [] [] none ≡ ok e
      → Shows e (written_map [])
  unfolding written_map view newest lookup Cache.new Cache.get find
  open_with-Shows e levels h =
      subst (λ x. Shows x (written_map [])) same
        (record {
          world = λ k. none;
          lists = [];
          healthy = record {
            stored = rw (arrange_none options.max_levels levels) (record {
              levels = rw (length-replicate {A = Level} options.max_levels []) levels;
              tables = rw (newest_of_none options.max_levels) tt;
              coherent = λ k b found. absurd cc;
              named = rw (newest_of_none options.max_levels) tt;
              fresh = λ k below. refl;
            });
            memory = tt;
            keys = λ k. k;
            settled = refl;
          };
          holds = λ key. refl;
        })
    where
      ok_same : {a b : Engine Float} → ok a ≡ ok b → a ≡ b
      ok_same h = cc

      same : new_engine ≡ e
      same = ok_same (sym opens ∙ h)
