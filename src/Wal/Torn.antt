-- ===== src/Wal/Torn.antt =====
-- Replaying a log that a crash has cut short.
use lsm_storage_engine.Common.{
  ℕ, zero, suc, ◌+◌, ◌-◌, ◌%◌, ◌^◌, ◌≤◌, ◌<◌, ◌≡◌, refl, ap, sym, ◌∙◌, arith, false, List, [], ◌∷◌,
  ◌++◌, ltb, if◌then◌else◌, length, take, length-take, length-append, Bool-cases, inl, inr,
  take-append_ge, take-append_le, take-append_eq, drop-append_eq, ltb→lt, not_ltb→le,
}
use lsm_storage_engine.Common.Bytes.{Bytes}
use lsm_storage_engine.Error.{Result, ok, err, ◌>>=◌}
use lsm_storage_engine.Crc.{crc32, u32_le}
use lsm_storage_engine.Record.{
  Operation, encode, decode, build_record, encode_body, max_key_size, max_value_size, record_type,
  key_of, value_of,
}
use lsm_storage_engine.Record.RoundTrip.{
  encode_cases, decode-encode, encode-eq-ok, length-build_record,
}
use lsm_storage_engine.Wal.Parse.{record_len, oversized, parse, parse_short, parse_cut, parse_whole}

-- The bytes that appending the operations, one after another, leaves in an empty log.
unfoldable pub encode_all : List Operation → Result Bytes
encode_all [] = ok []
encode_all (operation ∷ rest) = do
  bytes ← encode operation
  more ← encode_all rest
  ok (bytes ++ more)

-- The bytes of one record.
abbrev pub size_of : Operation → ℕ
size_of operation = 13 + length (key_of operation) + length (value_of operation)

-- The operations whose records lie whole within the first `n` bytes.
unfoldable pub complete : ℕ → List Operation → List Operation
complete n [] = []
complete n (operation ∷ rest) =
    if ltb n (size_of operation) then [] else operation ∷ complete (n - size_of operation) rest

-- The header of a record announces the record's length, whatever follows.
module _ (kind : ℕ) (key value : Bytes) (hk : length key ≤ max_key_size)
    (hv : length value ≤ max_value_size) where
  announced :
      (rest : Bytes)
      → (record_len (build_record kind key value ++ rest) ≡ 13 + length key + length value)
        × (oversized (build_record kind key value ++ rest) ≡ false)
  unfolding build_record
  announced rest = (omega arith, ground arith)

  abbrev header : Bytes
  header =
      u32_le (crc32 (encode_body kind key value))
      ++ (kind ∷ (u32_le (length key % 2 ^ 32) ++ u32_le (length value % 2 ^ 32)))

  -- So even when other bytes stand where the payload should go on.
  pub parse-overwritten :
      (fuel n : ℕ) (other : Bytes)
      → 13 ≤ n
      → n + length other < 13 + length key + length value
      → parse fuel (take n (build_record kind key value) ++ other) ≡ ok []
  unfolding build_record
  parse-overwritten fuel n other long short =
      let split : n ≡ 13 + (n - 13) = omega arith in
      let tail : Bytes = take (n - 13) (key ++ value) ++ other in
      let size : length tail < length key + length value = omega (
        arith,
        length-append (take (n - 13) (key ++ value)) other,
        length-take (n - 13) (key ++ value),
      ) in
      rw split (
        rw (take-append_ge (n - 13) header (key ++ value))
          (parse_cut fuel (header ++ tail) (ground arith) (omega (arith, size))))

  announced_torn :
      (n : ℕ)
      → (record_len (take (13 + n) (build_record kind key value)) ≡ 13 + length key + length value)
        × (oversized (take (13 + n) (build_record kind key value)) ≡ false)
  unfolding build_record
  announced_torn n = rw (take-append_ge n header (key ++ value)) (omega arith, ground arith)

  -- A record cut short is passed over in silence.
  pub parse-torn :
      (fuel n : ℕ)
      → n < 13 + length key + length value
      → parse fuel (take n (build_record kind key value)) ≡ ok []
  parse-torn fuel n h = elim (Bool-cases (ltb n 13)) [
    | inl short ↦
        parse_short fuel _
          (omega (arith, ltb→lt n 13 short, length-take n (build_record kind key value)))
    | inr long ↦ torn (not_ltb→le n 13 long)
  ]
    where
      torn : 13 ≤ n → parse fuel (take n (build_record kind key value)) ≡ ok []
      torn long =
          let split : n ≡ 13 + (n - 13) = omega arith in
          let (len, small) = announced_torn (n - 13) in
          rw split (
            parse_cut fuel _ small
              (rw len (omega (arith, length-take (13 + (n - 13)) (build_record kind key value)))))

  -- A whole record gives its operation.
  pub parse-record :
      (fuel : ℕ) (operation : Operation) (rest : Bytes)
      → decode (build_record kind key value) ≡ ok operation
      → parse (suc fuel) (build_record kind key value ++ rest)
        ≡ (do operations ← parse fuel rest; ok (operation ∷ operations))
  parse-record fuel operation rest h =
      let bytes : Bytes = build_record kind key value ++ rest in
      let (len, small) = announced rest in
      let whole : record_len bytes ≡ length (build_record kind key value) =
        len ∙ sym (length-build_record kind key value) in
      parse_whole fuel bytes operation small
        (rw whole (omega (arith, length-append (build_record kind key value) rest)))
        (ap decode (take-append_eq _ _ rest whole) ∙ h)
      ∙ ap (λ left. (do operations ← parse fuel left; ok (operation ∷ operations)))
          (drop-append_eq _ _ rest whole)

-- The parts of a log with a first operation.
pub encode_all-cons :
    (operation : Operation) (operations : List Operation) (bytes : Bytes)
    → encode_all (operation ∷ operations) ≡ ok bytes
    → (more : Bytes) × (encode_all operations ≡ ok more)
      × (length (key_of operation) ≤ max_key_size)
      × (length (value_of operation) ≤ max_value_size)
      × (build_record (record_type operation) (key_of operation) (value_of operation) ++ more
          ≡ bytes)
unfolding encode_all
encode_all-cons operation operations bytes h =
    go (encode operation) (encode_all operations) refl refl h
  where
    go :
        (first : Result Bytes) (rest : Result Bytes)
        → encode operation ≡ first
        → encode_all operations ≡ rest
        → (do b ← first; more ← rest; ok (b ++ more)) ≡ ok bytes
        → (more : Bytes) × (encode_all operations ≡ ok more)
          × (length (key_of operation) ≤ max_key_size)
          × (length (value_of operation) ≤ max_value_size)
          × (build_record (record_type operation) (key_of operation) (value_of operation) ++ more
              ≡ bytes)
    go (ok b) (ok more) e e' h =
        let (hk, hv, same) = encode-eq-ok operation e in (more, e', hk, hv, rw same (cc))
    go (ok b) (err x) e e' h = cc
    go (err x) rest e e' h = cc

pub decode-build :
    (operation : Operation)
    → length (key_of operation) ≤ max_key_size
    → length (value_of operation) ≤ max_value_size
    → decode (build_record (record_type operation) (key_of operation) (value_of operation))
      ≡ ok operation
decode-build operation hk hv = decode-encode operation _ (encode_cases operation ∙ ground arith)

-- Whatever the fuel, as long as there is enough of it, the first `n` bytes of a log parse to the
-- operations whose records lie whole before the cut.
pub parse-prefix :
    (operations : List Operation) (fuel n : ℕ) (bytes : Bytes)
    → encode_all operations ≡ ok bytes
    → length operations < fuel
    → parse fuel (take n bytes) ≡ ok (complete n operations)
unfolding complete
parse-prefix [] fuel n bytes h enough =
    let e : ◌≡◌ {A = Result Bytes} (ok []) (ok bytes) = unfold encode_all in h in
    let none_left : length bytes ≡ 0 = ground arith in
    parse_short fuel _ (omega (arith, length-take n bytes))
parse-prefix (operation ∷ operations) zero n bytes h enough = absurd (omega arith)
parse-prefix (operation ∷ operations) (suc fuel) n bytes h enough =
    let (more, rest, hk, hv, same) = encode_all-cons operation operations bytes h in
    let kind = record_type operation in
    let key : Bytes = key_of operation in
    let v : Bytes = value_of operation in
    let whole : length (build_record kind key v) ≡ size_of operation =
      length-build_record kind key v in
    rw (← same) (elim (Bool-cases (ltb n (size_of operation))) [
      | inl torn ↦ rw torn (
          ap (parse (suc fuel)) (
            take-append_le n (build_record kind key v) more
              (rw whole (omega (arith, ltb→lt n (size_of operation) torn))))
          ∙ parse-torn kind key v hk hv (suc fuel) n (ltb→lt n (size_of operation) torn))
      | inr long ↦ rw long (
          let split : n ≡ length (build_record kind key v) + (n - size_of operation) =
            rw whole (omega (arith, not_ltb→le n (size_of operation) long)) in
          ap (λ k. parse (suc fuel) (take k (build_record kind key v ++ more))) split
          ∙ ap (parse (suc fuel))
              (take-append_ge (n - size_of operation) (build_record kind key v) more)
          ∙ parse-record kind key v hk hv fuel operation (take (n - size_of operation) more)
              (decode-build operation hk hv)
          ∙ rw (parse-prefix operations fuel (n - size_of operation) more rest (omega arith)))
    ])
