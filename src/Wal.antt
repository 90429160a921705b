-- ===== src/Wal.antt =====
-- src/wal.rs: the write-ahead log. The file is its bytes and the number of them that `sync_all` has
-- made durable; every operation of the source seeks before it reads or writes, so the cursor is not
-- part of the state. Operating-system calls succeed unless a failpoint is armed.
pub mod Parse
pub mod Torn
pub mod Recovery
mod Examples
use lsm_storage_engine.Common.{
  ℕ, zero, suc, ◌+◌, Bool, true, false, ◌||◌, Option, none, some, List, [], ◌∷◌, ◌++◌, String, ltb,
  ◌==◌, if◌then◌else◌, length, take, drop, slice,
}
use lsm_storage_engine.Common.Bytes.{Bytes}
use lsm_storage_engine.Error.{Result, ok, err, ◌>>=◌, other_error, corrupted_record}
use lsm_storage_engine.Crc.{read_u32_le}
use lsm_storage_engine.Record.{
  Operation, encode, decode, max_key_size, max_value_size, record_header_len, key_len_offset,
  value_len_offset,
}
use lsm_storage_engine.Failpoints.{Failpoint, should_fail, wal_append, wal_sync}

pub record Wal : Type 0 where
  pub path : String
  pub contents : Bytes
  pub synced : ℕ

-- The log and the failpoint cell that its operations look at.
pub record State : Type 0 where
  pub failpoint : Failpoint
  pub wal : Wal

-- Opens the file with the bytes that it has on disk, or creates it.
unfoldable pub open_file : String → Option Bytes → Wal
open_file path none = record { path = path; contents = []; synced = 0 }
open_file path (some bytes) = record { path = path; contents = bytes; synced = length bytes }

-- `Ok(offset)`, and the log with the record behind its end.
unfoldable pub append : Operation → State → Result ℕ × State
append operation s =
    let (failed, next) = should_fail wal_append s.failpoint in
    let s' = record s { failpoint = next } in
    let written : Result ℕ × State = elim (encode operation) [
      | ok bytes ↦ (
        ok (length s.wal.contents),
        record s' { wal = record s.wal { contents = s.wal.contents ++ bytes } },
      )
      | err e ↦ (err e, s')
    ] in
    if failed then (err (other_error "injected WAL append failure"), s') else written

unfoldable pub sync : State → Result (Unit {0}) × State
sync s =
    let (failed, next) = should_fail wal_sync s.failpoint in
    let s' = record s { failpoint = next } in
    if failed
    then (err (other_error "injected WAL sync failure"), s')
    else (ok tt, record s' { wal = record s.wal { synced = length s.wal.contents } })

unfoldable pub truncate : State → Result (Unit {0}) × State
truncate s = (ok tt, record s { wal = record s.wal { contents = []; synced = 0 } })

unfoldable pub len : Wal → ℕ
len wal = length wal.contents

unfoldable pub is_empty : Wal → Bool
is_empty wal = length wal.contents == 0

pub record WalIterator : Type 0 where
  pub bytes : Bytes
  pub pos : ℕ

-- `Iterator::next`: the item, and the iterator after it.
unfoldable pub next : WalIterator → Option (Result Operation) × WalIterator
next it =
    let rest = drop it.pos it.bytes in
    let ended = record it { pos = length it.bytes } in
    let key_len = read_u32_le (slice key_len_offset (key_len_offset + 4) rest) in
    let value_len = read_u32_le (slice value_len_offset (value_len_offset + 4) rest) in
    let record_len = record_header_len + key_len + value_len in
    if length rest == 0
    then (none, it)
    else if ltb (length rest) record_header_len
    then (none, ended)
    else if ltb max_key_size key_len || ltb max_value_size value_len
    then (some (err corrupted_record), ended)
    else if ltb (length rest) record_len
    then (none, ended)
    else (some (decode (take record_len rest)), record it { pos = it.pos + record_len })

-- `collect` into a `Result`: the first error ends it. Each round takes a record, so as many rounds
-- as there are bytes, and one to see the end, are enough (`Wal.Parse.collect_equation`).
unfoldable pub collect : ℕ → WalIterator → Result (List Operation)
collect zero it = ok []
collect (suc fuel) it = elim ((next it).0) [
  | none ↦ ok []
  | some (err e) ↦ err e
  | some (ok operation) ↦ (do rest ← collect fuel (next it).1; ok (operation ∷ rest))
]

unfoldable pub iter : Wal → WalIterator
iter wal = record { bytes = wal.contents; pos = 0 }

unfoldable pub replay : Wal → Result (List Operation)
unfolding iter
replay wal = collect (suc (length wal.contents)) (iter wal)
