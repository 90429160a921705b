-- ===== src/Wal/Examples.antt =====
-- Runs of src/wal.rs, its unit tests among them.
use lsm_storage_engine.Common.{
  suc, ◌≡◌, refl, arith, none, some, [], ◌∷◌, ◌++◌, take, replicate, length,
}
use lsm_storage_engine.Common.Bytes.{Bytes}
use lsm_storage_engine.Error.{ok, err, other_error}
use lsm_storage_engine.Crc.{crc32}
use lsm_storage_engine.Record.{Operation, put, encode, decode, decode_operation, build_record}
use lsm_storage_engine.Failpoints.{wal_append}
use lsm_storage_engine.Wal.{Wal, State, WalIterator, append, replay, collect, next}
use lsm_storage_engine.Wal.Parse.{continue, collect_equation}
use lsm_storage_engine.Wal.Torn.{encode_all, complete}
use lsm_storage_engine.Wal.Recovery.{crash_recovery, replay-append, append_behind_torn_tail}

program : Unit {0}
unfolding append replay collect next encode decode decode_operation build_record crc32 encode_all
    complete
program = tt

abbrev put_a : Operation
put_a = put (b'a' ∷ []) (b'1' ∷ [])

abbrev put_b : Operation
put_b = put (b'b' ∷ []) (b'2' ∷ b'2' ∷ b'2' ∷ [])

abbrev record_a : Bytes
record_a = build_record 1 (b'a' ∷ []) (b'1' ∷ [])

abbrev record_b : Bytes
record_b = build_record 1 (b'b' ∷ []) (b'2' ∷ b'2' ∷ b'2' ∷ [])

abbrev log_of : Bytes → Wal
log_of bytes = record { path = "wal.log"; contents = bytes; synced = length bytes }

encode_a : encode_all (put_a ∷ []) ≡ ok record_a
unfolding program
encode_a = refl

encode_b : encode_all (put_b ∷ []) ≡ ok record_b
unfolding program
encode_b = refl

-- `truncated_final_record_is_ignored`: four bytes of the second record are left.
abbrev crashed : Wal
crashed = log_of (record_a ++ take 4 record_b)

complete_none : complete 4 (put_b ∷ []) ≡ []
unfolding program
complete_none = refl

crash_recovery_example : replay crashed ≡ ok ((put_a ∷ []) ++ complete 4 (put_b ∷ []))
crash_recovery_example =
    crash_recovery (put_a ∷ []) (put_b ∷ []) record_a record_b 4 crashed encode_a encode_b refl

abbrev logged : State
logged = record { failpoint = none; wal = log_of record_a }

appended : (append put_b logged).0 ≡ ok 15
unfolding program
appended = refl

replay-append_example :
    (15 ≡ length record_a) × (replay (append put_b logged).1.wal ≡ ok (put_a ∷ put_b ∷ []))
replay-append_example = replay-append (put_a ∷ []) put_b logged 15 encode_a appended

abbrev armed : State
armed = record logged { failpoint = some wal_append }

injected : (append put_b armed).0 ≡ err (other_error "injected WAL append failure")
unfolding program
injected = refl

-- A record of 200 value bytes is cut right behind its header; the write of `put_a` is lost.
abbrev put_long : Operation
put_long = put (b'c' ∷ []) (replicate 200 b'x')

abbrev torn : State
torn = record {
  failpoint = none;
  wal = log_of (record_a ++ take 14 (build_record 1 (b'c' ∷ []) (replicate 200 b'x')));
}

appended_torn : (append put_b torn).0 ≡ ok 29
unfolding program
appended_torn = refl

append_behind_torn_tail_example : replay (append put_b torn).1.wal ≡ ok (put_a ∷ [])
append_behind_torn_tail_example =
    append_behind_torn_tail (put_a ∷ []) put_long put_b record_a 14 torn 29 encode_a (omega arith)
      (omega arith) (omega arith) (omega arith) refl appended_torn

-- `multiple_records_append_and_replay_in_order`
replay_runs : replay (log_of (record_a ++ record_b)) ≡ ok (put_a ∷ put_b ∷ [])
unfolding program
replay_runs = refl

abbrev reading : WalIterator
reading = record { bytes = record_a; pos = 0 }

collect_equation_example :
    collect (suc (length record_a)) reading
    ≡ continue (next reading).0 (collect (suc (length (next reading).1.bytes)) (next reading).1)
collect_equation_example = collect_equation reading
