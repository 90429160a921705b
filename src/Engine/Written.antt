-- ===== src/Engine/Written.antt =====
-- The database as a map: what a write does to it.
use lsm_storage_engine.Common.{
  ◌^◌, ◌<◌, ◌≡◌, refl, arith, Bool, true, false, Option, some, [], ◌∷◌, length, leb, if◌then◌else◌,
}
use lsm_storage_engine.Common.Bytes.{Bytes, eq_bytes}
use lsm_storage_engine.Common.SortedMap
use lsm_storage_engine.Common.SortedMap.{lookup, IsSorted, lookup-insert, insert-IsSorted}
use lsm_storage_engine.Common.SortedMap.Append.{or_else}
use lsm_storage_engine.Error.{ok}
use lsm_storage_engine.MemTable.{MemTable, Entry, value, tombstone}
use lsm_storage_engine.MemTable
use lsm_storage_engine.Record.{Operation, put, delete, key_of}
use lsm_storage_engine.Bloom.Float.{F64}
use lsm_storage_engine.Wal.{sync, truncate}
use lsm_storage_engine.Wal
use lsm_storage_engine.SsTable.Format.{Entries}
use lsm_storage_engine.SsTable.Create.{first_key}
use lsm_storage_engine.SsTable.Segments.{room}
use lsm_storage_engine.Compaction.Newest.{newest}
use lsm_storage_engine.Engine.State.{Engine, apply, with_wal, validate_key}
use lsm_storage_engine.Engine.Write.{flush, write}
use lsm_storage_engine.Engine.Durable.{Post, and_then-Post}
use lsm_storage_engine.Engine.Reads.{value_of_write}
use lsm_storage_engine.Engine.View.{view, value_of}
use lsm_storage_engine.Engine.Shows.{Shows, same-Shows, flush-Shows}

-- The first key after an insertion is not empty if the new one is not.
first_key-insert :
    (k : Bytes) (x : Entry) (entries : Entries)
    → 0 < length k
    → (0 < length entries → 0 < length (first_key entries))
    → 0 < length (first_key (SortedMap.insert k x entries))
unfolding SortedMap.insert
first_key-insert k x [] h r = h
first_key-insert k x ((j, y) ∷ entries) h r = ground (arith, r (omega arith))

-- The map after a write.
abbrev pub updated : Operation → (Bytes → Option Bytes) → Bytes → Option Bytes
updated operation m key =
    if eq_bytes key (key_of operation) then value_of_write operation else m key

apply-entries :
    (operation : Operation) (table : MemTable)
    → (x : Entry) × ((apply table operation).entries
        ≡ SortedMap.insert (key_of operation) x table.entries)
      × (value_of (some x) ≡ value_of_write operation)
unfolding apply MemTable.put MemTable.delete MemTable.insert
apply-entries (put k v) table = (value v, refl, refl)
apply-entries (delete k) table = (tombstone, refl, refl)

valid-nonempty : (key : Bytes) → validate_key key ≡ ok tt → 0 < length key
unfolding validate_key
valid-nonempty [] h = absurd cc
valid-nonempty (b ∷ key) h = omega arith

value_of-updated :
    (b : Bool) (x : Entry) (o rest : Option Entry) (written shown : Option Bytes)
    → value_of (some x) ≡ written
    → value_of (or_else o rest) ≡ shown
    → value_of (or_else (if b then some x else o) rest) ≡ (if b then written else shown)
value_of-updated true x o rest written shown h k = h
value_of-updated false x o rest written shown h k = k

module _ {Float : Type 0} where
  -- An operation on the memtable updates the map.
  apply-Shows :
      (operation : Operation) (e e' : Engine Float) (m : Bytes → Option Bytes)
      → validate_key (key_of operation) ≡ ok tt
      → e' ≡ record e { memtable = apply e.memtable operation }
      → Shows e m
      → Shows e' (updated operation m)
  unfolding view newest
  apply-Shows operation e e' m valid same s =
      let (x, entries, shown) = apply-entries operation e.memtable in
      rw same (record {
        world = s.world;
        lists = s.lists;
        healthy = record {
          stored = s.healthy.stored;
          memory =
              rw entries (insert-IsSorted (key_of operation) x e.memtable.entries s.healthy.memory);
          keys = λ some_held. rw entries (
              first_key-insert (key_of operation) x e.memtable.entries
                (valid-nonempty (key_of operation) valid) s.healthy.keys);
          settled = s.healthy.settled;
        };
        holds = λ key.
            rw (entries, lookup-insert (key_of operation) key x e.memtable.entries)
              (value_of-updated (eq_bytes key (key_of operation)) x (lookup key e.memtable.entries)
                _ _ (m key) shown (s.holds key));
      })

module _ (f : F64) where
  open f use {Float}

  -- If a database holds a map and no flush has failed before, then a write of a valid key that
  -- succeeds updates the map at its key and nowhere else, whether it flushes the memtable or not,
  -- if the counter of the manifest is below 2 ^ 64 and what the memtable then holds takes less
  -- than 2 ^ 32 bytes on disk.
  pub write-Shows :
      (operation : Operation) (e : Engine Float) (m : Bytes → Option Bytes)
      → Shows e m
      → validate_key (key_of operation) ≡ ok tt
      → e.manifest.next_id < 2 ^ 64
      → room (apply e.memtable operation).entries < 2 ^ 32
      → (write f operation e).0 ≡ ok tt
      → Shows (write f operation e).1 (updated operation m)
  unfolding write
  write-Shows operation e m s valid small few =
      let Q : Engine Float → Type 0 = λ e'. Shows e' (updated operation m) in
      and_then-Post Q (with_wal (Wal.append operation) e) _
        (λ offset appended.
          and_then-Post Q (with_wal sync (with_wal (Wal.append operation) e).1) _ (λ u synced.
            let e₂ : Engine Float = (with_wal sync (with_wal (Wal.append operation) e).1).1 in
            let e₃ : Engine Float = record e₂ { memtable = apply e₂.memtable operation } in
            let s₃ : Shows e₃ (updated operation m) =
              apply-Shows operation e₂ e₃ m valid refl
                (same-Shows e e₂ m refl refl refl refl refl refl refl s) in
            go e₃ s₃ small few (leb e₃.options.memtable_size_bytes e₃.memtable.approximate_size)))
        tt
    where
      go :
          (e₃ : Engine Float)
          → Shows e₃ (updated operation m)
          → e₃.manifest.next_id < 2 ^ 64
          → room e₃.memtable.entries < 2 ^ 32
          → (b : Bool)
          → Post (λ e'. Shows e' (updated operation m)) (if b then flush f e₃ else (ok tt, e₃))
      go e₃ s₃ small few true = λ u done. flush-Shows f e₃ (updated operation m) s₃ small few done
      go e₃ s₃ small few false = λ u done. s₃
