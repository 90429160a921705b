-- ===== src/Wal/Recovery.antt =====
-- What the log gives back: appends, crashes, and a write behind a torn tail.
use lsm_storage_engine.Common.{
  ℕ, zero, suc, ◌+◌, ◌-◌, ◌≤◌, ◌<◌, ◌≡◌, refl, ap, sym, ◌∙◌, arith, false, List, [], ◌∷◌, ◌++◌, ltb,
  length, take, length-append, append_assoc, append-nil, inl, inr, take-append_ge, take_all,
}
use lsm_storage_engine.Common.Bytes.{Bytes}
use lsm_storage_engine.Error.{Error, Result, Result-cases, ok, err}
use lsm_storage_engine.Record.{
  Operation, encode, build_record, max_key_size, max_value_size, record_type, key_of, value_of,
}
use lsm_storage_engine.Record.RoundTrip.{encode-eq-ok, encode_cases, length-build_record}
use lsm_storage_engine.Wal.{Wal, State, append, replay, iter}
use lsm_storage_engine.Wal.Parse.{parse, collect-parse, parse_fuel}
use lsm_storage_engine.Wal.Torn.{
  encode_all, complete, size_of, parse-prefix, parse-record, encode_all-cons, decode-build,
  parse-overwritten,
}

replay-parse : (wal : Wal) → replay wal ≡ parse (suc (length wal.contents)) wal.contents
unfolding replay
replay-parse wal = collect-parse (suc (length wal.contents)) (iter wal)

replay_more : (wal : Wal) (n : ℕ) → replay wal ≡ parse (suc (length wal.contents + n)) wal.contents
replay_more wal n =
    replay-parse wal
    ∙ parse_fuel _ (suc (length wal.contents + n)) wal.contents (omega arith) (omega arith)

-- Replaying the first `n` bytes of a log, wherever the cut falls, gives without an error exactly
-- the operations whose records lie whole before the cut, in order.
pub replay-take :
    (operations : List Operation) (bytes : Bytes) (n : ℕ) (wal : Wal)
    → encode_all operations ≡ ok bytes
    → wal.contents ≡ take n bytes
    → replay wal ≡ ok (complete n operations)
replay-take operations bytes n wal h cut =
    replay_more wal (length operations)
    ∙ ap (parse (suc (length wal.contents + length operations))) cut
    ∙ parse-prefix operations (suc (length wal.contents + length operations)) n bytes h
        (omega arith)

encode-eq-build :
    (operation : Operation)
    → length (key_of operation) ≤ max_key_size
    → length (value_of operation) ≤ max_value_size
    → encode operation
      ≡ ok (build_record (record_type operation) (key_of operation) (value_of operation))
encode-eq-build operation hk hv = encode_cases operation ∙ ground arith

pub encode_all-append :
    (xs ys : List Operation) (a b : Bytes)
    → encode_all xs ≡ ok a
    → encode_all ys ≡ ok b
    → encode_all (xs ++ ys) ≡ ok (a ++ b)
unfolding encode_all
encode_all-append [] ys a b ha hb = let e : [] ≡ a = ground arith in hb ∙ ap (λ x. ok (x ++ b)) e
encode_all-append (x ∷ xs) ys a b ha hb =
    let (more, rest, hk, hv, same) = encode_all-cons x xs a ha in
    rw (encode-eq-build x hk hv, encode_all-append xs ys more b rest hb, ← same)
      (ap ok (sym (append_assoc (build_record (record_type x) (key_of x) (value_of x)) more b)))

-- The bytes before a cut that lies behind whole records, and the operations before it.
complete-append :
    (xs ys : List Operation) (a : Bytes) (n : ℕ)
    → encode_all xs ≡ ok a
    → complete (length a + n) (xs ++ ys) ≡ xs ++ complete n ys
unfolding complete
complete-append [] ys a n h =
    let e : ◌≡◌ {A = Result Bytes} (ok []) (ok a) = unfold encode_all in h in
    let none_left : length a + n ≡ n = ground arith in ap (λ k. complete k ys) none_left
complete-append (x ∷ xs) ys a n h =
    let (more, rest, hk, hv, same) = encode_all-cons x xs a h in
    let r : Bytes = build_record (record_type x) (key_of x) (value_of x) in
    let long : length a ≡ size_of x + length more = rw (← same) (
      omega (
        arith,
        length-append r more,
        length-build_record (record_type x) (key_of x) (value_of x),
      )) in
    let enough : ltb (length a + n) (size_of x) ≡ false = ground arith in
    let left : length a + n - size_of x ≡ length more + n = omega arith in
    rw (enough, left) (ap (◌∷◌ x) (complete-append xs ys more n rest))

complete-nil : (n : ℕ) → complete n [] ≡ []
unfolding complete
complete-nil n = refl

-- A log that holds whole records gives back all of them.
pub replay-encode_all :
    (operations : List Operation) (wal : Wal)
    → encode_all operations ≡ ok wal.contents
    → replay wal ≡ ok operations
replay-encode_all operations wal h =
    replay-take operations wal.contents (length wal.contents + 0) wal h
      (sym (ap (λ n. take n wal.contents) plus_zero ∙ take_all wal.contents))
    ∙ ap ok (
        ap (complete (length wal.contents + 0)) (sym (append-nil operations))
        ∙ complete-append operations [] wal.contents 0 h
        ∙ ap (λ l. operations ++ l) (complete-nil 0)
        ∙ append-nil operations)
  where
    plus_zero : length wal.contents + 0 ≡ length wal.contents
    plus_zero = omega arith

-- After a crash the file holds the acknowledged records and some prefix of what was being written.
-- Recovery gives without an error every acknowledged operation, in order, and behind them only
-- operations of the unfinished writes whose records are whole.
pub crash_recovery :
    (acknowledged unfinished : List Operation) (a b : Bytes) (n : ℕ) (wal : Wal)
    → encode_all acknowledged ≡ ok a
    → encode_all unfinished ≡ ok b
    → wal.contents ≡ a ++ take n b
    → replay wal ≡ ok (acknowledged ++ complete n unfinished)
crash_recovery acknowledged unfinished a b n wal ha hb cut =
    replay-take (acknowledged ++ unfinished) (a ++ b) (length a + n) wal
      (encode_all-append acknowledged unfinished a b ha hb) (cut ∙ sym (take-append_ge n a b))
    ∙ ap ok (complete-append acknowledged unfinished a n ha)

pub encode_all_one :
    (operation : Operation) (bytes : Bytes)
    → encode operation ≡ ok bytes
    → encode_all (operation ∷ []) ≡ ok bytes
unfolding encode_all
encode_all_one operation bytes h = rw (h, append-nil)

length-encode :
    (operation : Operation) (bytes : Bytes)
    → encode operation ≡ ok bytes
    → length bytes ≡ size_of operation
length-encode operation bytes h =
    let (hk, hv, same) = encode-eq-ok operation h in
    rw (← same)
      (length-build_record (record_type operation) (key_of operation) (value_of operation))

pub append-ok :
    (operation : Operation) (s : State) (offset : ℕ)
    → (append operation s).0 ≡ ok offset
    → (bytes : Bytes) × (encode operation ≡ ok bytes)
      × (offset ≡ length s.wal.contents)
      × ((append operation s).1.wal.contents ≡ s.wal.contents ++ bytes)
unfolding append
append-ok operation s offset h = elim (Result-cases (encode operation)) [
  | inl (bytes, e) ↦ (bytes, e, ground arith, ground arith)
  | inr (x, e) ↦ absurd (ground arith)
]

-- A successful append returns the old end of the file, and from then on the log gives back the new
-- operation behind all earlier ones.
pub replay-append :
    (operations : List Operation) (operation : Operation) (s : State) (offset : ℕ)
    → encode_all operations ≡ ok s.wal.contents
    → (append operation s).0 ≡ ok offset
    → (offset ≡ length s.wal.contents)
      × (replay (append operation s).1.wal ≡ ok (operations ++ operation ∷ []))
replay-append operations operation s offset h appended =
    let (bytes, e, at, after) = append-ok operation s offset appended in
    (
      at,
      replay-encode_all (operations ++ operation ∷ []) (append operation s).1.wal (
          encode_all-append operations (operation ∷ []) s.wal.contents bytes h
            (encode_all_one operation bytes e)
          ∙ ap ok (sym after)),
    )

-- A failed append, whether the fault was injected or the record too large, leaves the file as it was.
pub wal-append_err :
    (operation : Operation) (s : State) (e : Error)
    → (append operation s).0 ≡ err e
    → (append operation s).1.wal ≡ s.wal
unfolding append
wal-append_err operation s e h = ground arith

parse-behind :
    (operations : List Operation) (fuel : ℕ) (bytes rest : Bytes)
    → encode_all operations ≡ ok bytes
    → length operations < fuel
    → ((f : ℕ) → parse f rest ≡ ok [])
    → parse fuel (bytes ++ rest) ≡ ok operations
parse-behind [] fuel bytes rest h enough ended =
    let e : ◌≡◌ {A = Result Bytes} (ok []) (ok bytes) = unfold encode_all in h in
    let none_left : [] ≡ bytes = ground arith in
    ap (λ b. parse fuel (b ++ rest)) (sym none_left) ∙ ended fuel
parse-behind (x ∷ xs) zero bytes rest h enough ended = absurd (omega arith)
parse-behind (x ∷ xs) (suc fuel) bytes rest h enough ended =
    let (more, tail, hk, hv, same) = encode_all-cons x xs bytes h in
    let r : Bytes = build_record (record_type x) (key_of x) (value_of x) in
    ap (λ b. parse (suc fuel) (b ++ rest)) (sym same)
    ∙ ap (parse (suc fuel)) (append_assoc r more rest)
    ∙ parse-record (record_type x) (key_of x) (value_of x) hk hv fuel x (more ++ rest)
        (decode-build x hk hv)
    ∙ rw (parse-behind xs fuel more rest tail (omega arith) ended)

-- The log is not cut back to its last whole record when it is opened. If a crash leaves a record
-- whose header is whole and whose payload is cut short, and the next record is shorter than what is
-- missing, then that next record is appended with success and synced, and yet the log never gives
-- it back: it is read as part of the payload.
pub append_behind_torn_tail :
    (operations : List Operation) (torn operation : Operation) (bytes : Bytes) (n : ℕ) (s : State)
    (offset : ℕ)
    → encode_all operations ≡ ok bytes
    → length (key_of torn) ≤ max_key_size
    → length (value_of torn) ≤ max_value_size
    → 13 ≤ n
    → n + size_of operation < size_of torn
    → s.wal.contents
      ≡ bytes ++ take n (build_record (record_type torn) (key_of torn) (value_of torn))
    → (append operation s).0 ≡ ok offset
    → replay (append operation s).1.wal ≡ ok operations
append_behind_torn_tail operations torn operation bytes n s offset h hk hv long short cut appended =
    let (written, e, at, after) = append-ok operation s offset appended in
    let left : Bytes = take n (build_record (record_type torn) (key_of torn) (value_of torn)) in
    let whole : (append operation s).1.wal.contents ≡ bytes ++ (left ++ written) =
      after ∙ ap (λ c. c ++ written) cut ∙ append_assoc bytes left written in
    let size : length written ≡ size_of operation = length-encode operation written e in
    replay_more (append operation s).1.wal (length operations)
    ∙ ap (parse (suc (length (append operation s).1.wal.contents + length operations))) whole
    ∙ parse-behind operations (suc (length (append operation s).1.wal.contents + length operations))
        bytes (left ++ written) h (omega arith)
        (λ f.
          parse-overwritten (record_type torn) (key_of torn) (value_of torn) hk hv f n written long
            (omega (arith, size)))
