-- ===== src/Engine/Durable.antt =====
-- Writes and flushes of src/engine.rs, which change the log and the memtable together.
use lsm_storage_engine.Common.{
  ℕ, ◌≡◌, refl, sym, ap, ◌∙◌, arith, Bool, true, false, List, [], ◌∷◌, ◌++◌, leb, if◌then◌else◌,
}
use lsm_storage_engine.Common.Bytes.{Bytes}
use lsm_storage_engine.Error.{Result, ok, err}
use lsm_storage_engine.MemTable.{MemTable}
use lsm_storage_engine.MemTable
use lsm_storage_engine.Record.{Operation}
use lsm_storage_engine.Bloom.Float.{F64}
use lsm_storage_engine.Wal.Torn.{encode_all}
use lsm_storage_engine.Wal.Recovery.{append-ok, encode_all_one, encode_all-append}
use lsm_storage_engine.Wal.{State, sync, truncate, replay, open_file}
use lsm_storage_engine.Wal
use lsm_storage_engine.Engine.State.{Engine, apply, ◌and_then◌, with_wal}
use lsm_storage_engine.Engine.Open.{apply_all}
use lsm_storage_engine.Engine.Write.{
  maybe_request_compaction, flush_frozen, flush_memtable, flush, write,
}

-- The log holds the records of some operations, whose effect the memtable is.
pub record IsLogged {Float : Type 0} (e : Engine Float) : Type 0 where
  pub operations : List Operation
  pub file : encode_all operations ≡ ok e.wal.contents
  pub memory : e.memtable ≡ apply_all operations MemTable.new

sync-contents : (s : State) → (sync s).1.wal.contents ≡ s.wal.contents
unfolding sync
sync-contents s = ground arith

module _ {Float : Type 0} where
  -- If the call succeeds, the condition holds of the state that it leaves.
  abbrev pub Post : {A : Type 0} → (Engine Float → Type 0) → Result A × Engine Float → Type 0
  Post {A} Q p = (a : A) → p.0 ≡ ok a → Q p.1

  -- A chain succeeds only if its first call does.
  pub and_then-Post :
      {A B : Type 0} (Q : Engine Float → Type 0) (p : Result A × Engine Float)
      (k : A → Engine Float → Result B × Engine Float)
      → ((a : A) → p.0 ≡ ok a → Post Q (k a p.1))
      → Post Q (p and_then k)
  unfolding ◌and_then◌
  and_then-Post Q (ok a, e) k h = h a refl
  and_then-Post Q (err x, e) k h = λ b failed. absurd cc

  maybe_request-keeps :
      (e : Engine Float)
      → ((maybe_request_compaction e).wal ≡ e.wal)
        × ((maybe_request_compaction e).memtable ≡ e.memtable)
  unfolding maybe_request_compaction
  maybe_request-keeps e = (ground arith, ground arith)

  IsLogged-same :
      (e e' : Engine Float)
      → e'.wal.contents ≡ e.wal.contents
      → e'.memtable ≡ e.memtable
      → IsLogged e
      → IsLogged e'
  IsLogged-same e e' w m l = record {
    operations = l.operations;
    file = rw w l.file;
    memory = m ∙ l.memory;
  }

  -- Nothing logged, and nothing in memory.
  IsLogged-empty :
      (e : Engine Float)
      → ◌≡◌ {A = Bytes} e.wal.contents []
      → e.memtable ≡ MemTable.new
      → IsLogged e
  IsLogged-empty e w m = record {
    operations = [];
    file = rw w (unfold encode_all in refl);
    memory = m ∙ unfold apply_all in refl;
  }

apply_all-append :
    (operations : List Operation) (operation : Operation) (table : MemTable)
    → apply_all (operations ++ operation ∷ []) table ≡ apply (apply_all operations table) operation
unfolding apply_all
apply_all-append [] operation table = refl
apply_all-append (o ∷ operations) operation table =
    apply_all-append operations operation (apply table o)

module _ (f : F64) where
  open f use {Float}

  flush_frozen-Post : (e : Engine Float) → Post IsLogged (flush_frozen f e)
  unfolding flush_frozen truncate
  flush_frozen-Post e = and_then-Post IsLogged _ _ (λ id e₁. and_then-Post IsLogged _ _ (λ table e₂.
      and_then-Post IsLogged _ _
        (λ u e₃. and_then-Post IsLogged _ _ (λ v e₄ b done. IsLogged-empty _ refl refl))))

  flush_memtable-Post : (e : Engine Float) → IsLogged e → Post IsLogged (flush_memtable f e)
  unfolding flush_memtable
  flush_memtable-Post e l = go (MemTable.is_empty e.memtable)
    where
      go : (b : Bool) → Post IsLogged (if b then with_wal sync e else flush_frozen f e)
      go true = λ u done. IsLogged-same e _ (sync-contents _) refl l
      go false = flush_frozen-Post e

  flush-Post : (e : Engine Float) → IsLogged e → Post IsLogged (flush f e)
  unfolding flush
  flush-Post e l = and_then-Post IsLogged (flush_memtable f e) _ (λ u done b done'.
      let e' : Engine Float = (flush_memtable f e).1 in
      let (w, m) = maybe_request-keeps e' in
      IsLogged-same e' (maybe_request_compaction e') (ap (λ x. x.contents) w) m
        (flush_memtable-Post e l u done))

  -- The state after the record is in the log and the operation is in the memtable.
  IsLogged-write :
      (operation : Operation) (e : Engine Float) (e₂ : Engine Float) (offset : ℕ)
      → IsLogged e
      → (Wal.append operation (record { failpoint = e.failpoint; wal = e.wal })).0 ≡ ok offset
      → e₂.wal.contents
        ≡ (Wal.append operation (record { failpoint = e.failpoint; wal = e.wal })).1.wal.contents
      → e₂.memtable ≡ apply e.memtable operation
      → IsLogged e₂
  IsLogged-write operation e e₂ offset l appended w m =
      let s : State = record { failpoint = e.failpoint; wal = e.wal } in
      let (bytes, encoded, at, after) = append-ok operation s offset appended in
      record {
        operations = l.operations ++ operation ∷ [];
        file =
            rw (w, after)
              (encode_all-append l.operations (operation ∷ []) e.wal.contents bytes l.file
                (encode_all_one operation bytes encoded));
        memory =
            m
            ∙ (ap (λ t. apply t operation) l.memory
                ∙ sym (apply_all-append l.operations operation MemTable.new));
      }

  -- If the log holds what the memtable holds, then it does so after every write that succeeds,
  -- whether the write flushed the memtable or not.
  pub write-IsLogged :
      (operation : Operation) (e : Engine Float)
      → IsLogged e
      → (write f operation e).0 ≡ ok tt
      → IsLogged (write f operation e).1
  unfolding write
  write-IsLogged operation e l =
      and_then-Post IsLogged (with_wal (Wal.append operation) e) _
        (λ offset appended.
          and_then-Post IsLogged (with_wal sync (with_wal (Wal.append operation) e).1) _
            (λ u synced.
              let e₂ : Engine Float = (with_wal sync (with_wal (Wal.append operation) e).1).1 in
              let e₃ : Engine Float = record e₂ { memtable = apply e₂.memtable operation } in
              let l₃ : IsLogged e₃ =
                IsLogged-write operation e e₃ offset l appended (sync-contents _) refl in
              go e₃ l₃ (leb e₃.options.memtable_size_bytes e₃.memtable.approximate_size)))
        tt
    where
      go :
          (e₃ : Engine Float)
          → IsLogged e₃
          → (b : Bool) → Post IsLogged (if b then flush f e₃ else (ok tt, e₃))
      go e₃ l₃ true = flush-Post e₃ l₃
      go e₃ l₃ false = λ u done. l₃
