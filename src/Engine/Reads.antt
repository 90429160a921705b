-- ===== src/Engine/Reads.antt =====
-- What reads return after a write, and while or after a flush has failed.
use lsm_storage_engine.Common.{
  ◌+◌, ◌≡◌, refl, sym, ap, ◌∙◌, arith, false, Option, none, some, List, [], ◌∷◌, leb, if◌then◌else◌,
}
use lsm_storage_engine.Common.Bytes.{Bytes, eq_bytes, eq_of_cmp}
use lsm_storage_engine.Common.SortedMap.{lookup, IsSorted, lookup-Above}
use lsm_storage_engine.Error.{Result, ok, err, Error}
use lsm_storage_engine.MemTable.{MemTable, Entry, value, tombstone}
use lsm_storage_engine.MemTable
use lsm_storage_engine.MemTable.Laws.{get-insert}
use lsm_storage_engine.Record.{Operation, put, delete, key_of}
use lsm_storage_engine.Failpoints.{Failpoint}
use lsm_storage_engine.Bloom.Float.{F64}
use lsm_storage_engine.Wal.{Wal, State, sync, truncate}
use lsm_storage_engine.Wal
use lsm_storage_engine.SsTable.Format.{Entries}
use lsm_storage_engine.SsTable.Create.{SsTable}
use lsm_storage_engine.SsTable.Read
use lsm_storage_engine.Common.SortedMap.Append.{or_else}
use lsm_storage_engine.Engine.State.{
  Engine, miss, lookup_of, lookup_memtable, lookup_immutable, apply, ◌and_then◌, with_wal,
  get_from_tables, get, validate_key, cache_or,
}
use lsm_storage_engine.Engine.Version.{tables_newest_first}
use lsm_storage_engine.Engine.Write.{copy_all, put_entry, flush_frozen, flush, write}
use lsm_storage_engine.Engine.Durable.{Post, and_then-Post}
use mathlib.Core.Path.{subst}

get-put_entry :
    (table : MemTable) (key other : Bytes) (e : Entry)
    → MemTable.get (put_entry table key e) other
      ≡ (if eq_bytes other key then some e else MemTable.get table other)
unfolding MemTable.put MemTable.delete
get-put_entry table key other (value v) = get-insert table key other (value v)
get-put_entry table key other tombstone = get-insert table key other tombstone

get-copy_all_onto :
    (snapshot : Entries) (table : MemTable) (key : Bytes)
    → IsSorted snapshot
    → MemTable.get (copy_all snapshot table) key
      ≡ or_else (lookup key snapshot) (MemTable.get table key)
unfolding copy_all lookup
get-copy_all_onto [] table key s = refl
get-copy_all_onto ((j, e) ∷ snapshot) table key (above, s) =
    get-copy_all_onto snapshot (put_entry table j e) key s
    ∙ ground (arith, get-put_entry table j key e, eq_of_cmp key j, lookup-Above j snapshot above)

-- The copy of a memtable that a flush keeps for reads holds what the memtable held.
pub get-copy_all :
    (table : MemTable) (key : Bytes)
    → IsSorted table.entries
    → MemTable.get (copy_all (MemTable.iter table) MemTable.new) key ≡ MemTable.get table key
get-copy_all table key s =
    get-copy_all_onto table.entries MemTable.new key s ∙ unfold MemTable.get lookup in ground arith

-- Memory as a flush has left it that began in the state `e` and failed.
pub record IsFrozen {Float : Type 0} (e e' : Engine Float) : Type 0 where
  pub memtable_empty : (key : Bytes) → lookup_memtable e'.memtable key ≡ miss
  pub immutable_reads :
      (key : Bytes) → lookup_immutable e'.immutable key ≡ lookup_memtable e.memtable key

module _ {Float : Type 0} where
  -- If the call fails, the condition holds of the state that it leaves.
  abbrev Fails : {A : Type 0} → (Engine Float → Type 0) → Result A × Engine Float → Type 0
  Fails Q p = (x : Error) → p.0 ≡ err x → Q p.1

  and_then-Fails :
      {A B : Type 0} (Q : Engine Float → Type 0) (p : Result A × Engine Float)
      (k : A → Engine Float → Result B × Engine Float)
      → Q p.1
      → ((a : A) → Fails Q (k a p.1))
      → Fails Q (p and_then k)
  unfolding ◌and_then◌
  and_then-Fails Q (ok a, e) k q h = h a
  and_then-Fails Q (err x, e) k q h = λ y failed. q

  copy_all-IsFrozen :
      (e e' : Engine Float)
      → IsSorted e.memtable.entries
      → e'.memtable ≡ MemTable.new
      → e'.immutable ≡ some (copy_all (MemTable.iter e.memtable) MemTable.new)
      → IsFrozen e e'
  unfolding lookup_memtable
  copy_all-IsFrozen e e' s m i = record {
    memtable_empty = λ key. rw m (unfold MemTable.get lookup in refl);
    immutable_reads = λ key. rw i (ap lookup_of (get-copy_all e.memtable key s));
  }

module _ (f : F64) where
  open f use {Float}

  -- If the flush of a sorted memtable fails, wherever it does, then the memtable is empty and every
  -- read of the frozen copy gives what the memtable gave before.
  pub flush_frozen-IsFrozen :
      (e : Engine Float) (x : Error)
      → IsSorted e.memtable.entries
      → (flush_frozen f e).0 ≡ err x
      → IsFrozen e (flush_frozen f e).1
  unfolding flush_frozen truncate
  flush_frozen-IsFrozen e x s =
      and_then-Fails (IsFrozen e) _ _ (copy_all-IsFrozen e _ s refl refl)
        (λ id. and_then-Fails (IsFrozen e) _ _ (copy_all-IsFrozen e _ s refl refl) (λ table.
          and_then-Fails (IsFrozen e) _ _ (copy_all-IsFrozen e _ s refl refl) (λ u.
            and_then-Fails (IsFrozen e) _ _ (copy_all-IsFrozen e _ s refl refl)
              (λ v y failed. absurd (ok_err failed)))))
        x
    where
      ok_err : {y : Error} → ◌≡◌ {A = Result (Unit {0})} (ok tt) (err y) → ⊥
      ok_err same = cc

-- What a read of the written key gives.
abbrev pub value_of_write : Operation → Option Bytes
value_of_write (put key v) = some v
value_of_write (delete key) = none

module _ {Float : Type 0} where
  -- Neither the log, nor the memtable, nor the failpoint matters to a read of the tables.
  get_from_tables-same :
      (key : Bytes) (tables : List SsTable) (e : Engine Float) (w : Wal) (m : MemTable)
      (p : Failpoint)
      → (get_from_tables key tables (record e { wal = w; memtable = m; failpoint = p })).0
        ≡ (get_from_tables key tables e).0
  unfolding get_from_tables
  get_from_tables-same key [] e w m p = refl
  get_from_tables-same key (t ∷ tables) e w m p = ground (
    arith,
    get_from_tables-same key tables e w m p,
    get_from_tables-same key tables (record e { bloom_skips = e.bloom_skips + 1 }) w m p,
    get_from_tables-same key tables
        (record e {
          sstable_reads = e.sstable_reads + 1;
          cache = cache_or (Read.get key t e.files (some e.cache)).1 e.cache;
        })
        w m p,
  )

  -- The state that a write leaves which does not flush: the operation is in the memtable.
  abbrev written : Operation → Engine Float → Wal.State → Engine Float
  written operation e s = record e {
    wal = s.wal;
    memtable = apply e.memtable operation;
    failpoint = s.failpoint;
  }

  -- A read after a write of the same key gives what was written, and a read of another key gives
  -- what it gave before; the key that is read is valid.
  get-written :
      (operation : Operation) (e : Engine Float) (s : Wal.State) (key : Bytes)
      → validate_key key ≡ ok tt
      → (get key (written operation e s)).0
        ≡ (if eq_bytes key (key_of operation) then ok (value_of_write operation) else (get key e).0)
  unfolding get apply lookup_memtable ◌and_then◌ MemTable.put MemTable.delete
  get-written (put k v) e s key valid = ground (
    arith,
    get-insert e.memtable k key (value v),
    get_from_tables-same key (tables_newest_first e.version) e s.wal (MemTable.put e.memtable k v)
        s.failpoint,
  )
  get-written (delete k) e s key valid = ground (
    arith,
    get-insert e.memtable k key tombstone,
    get_from_tables-same key (tables_newest_first e.version) e s.wal (MemTable.delete e.memtable k)
        s.failpoint,
  )

module _ (f : F64) where
  open f use {Float}

  -- After a write that succeeds and does not fill the memtable, a read of the written key gives what
  -- was written (nothing, if it was deleted), and a read of any other valid key gives what it gave
  -- before.
  pub get-write :
      (operation : Operation) (e : Engine Float) (key : Bytes)
      → validate_key key ≡ ok tt
      → leb e.options.memtable_size_bytes (apply e.memtable operation).approximate_size ≡ false
      → (write f operation e).0 ≡ ok tt
      → (get key (write f operation e).1).0
        ≡ (if eq_bytes key (key_of operation) then ok (value_of_write operation) else (get key e).0)
  unfolding write
  get-write operation e key valid below =
      let e₁ : Engine Float = (with_wal (Wal.append operation) e).1 in
      let s : Wal.State = (sync (record { failpoint = e₁.failpoint; wal = e₁.wal })).1 in
      let Q : Engine Float → Type 0 = λ e'. (get key e').0 ≡ (
        if eq_bytes key (key_of operation) then ok (value_of_write operation) else (get key e).0) in
      and_then-Post Q (with_wal (Wal.append operation) e) _
        (λ offset appended. and_then-Post Q (with_wal sync e₁) _ (λ u synced.
          subst
            (λ b.
              Post Q
                (if b then flush f (written operation e s) else (ok tt, written operation e s)))
            (sym below) (λ v done. get-written operation e s key valid)))
        tt
