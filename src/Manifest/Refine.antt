-- ===== src/Manifest/Refine.antt =====
-- The manifest in memory is what `recover` rebuilds from the file.
use lsm_storage_engine.Common.{
  ℕ, ◌+◌, ◌^◌, ◌<◌, ◌≡◌, refl, ap, sym, ◌∙◌, arith, List, [], ◌∷◌, ◌++◌, length, All, All-append,
  append_assoc, append-nil, Bool-cases, inl, inr,
}
use lsm_storage_engine.Common.Bytes.{Bytes}
use lsm_storage_engine.Error.{Result, ok, err, ◌>>=◌, bind_same}
use lsm_storage_engine.Failpoints.{fires, manifest_write}
use lsm_storage_engine.Manifest.{
  ManifestRecord, add_table_record, remove_table_record, set_next_table_id, Contents, Manifest,
  encode_record, apply_record, recover, no_tables, append, add_table, remove_table, remove_tables,
  next_table_id, has_table,
}
use lsm_storage_engine.Manifest.Records.{InRange, encode_all, apply_all, recover-encode_all}

abbrev pub contents_of : Manifest → Contents
contents_of m = record { next_id = m.next_id; tables = m.tables }

-- The file holds a log of whole records, and memory is what they say.
pub record IsLog (m : Manifest) : Type 0 where
  pub records : List ManifestRecord
  pub in_range : All InRange records
  pub on_disk : m.file ≡ encode_all records
  pub in_memory : apply_all records no_tables ≡ ok (contents_of m)

apply_all-append :
    (rs : List ManifestRecord) (r : ManifestRecord) (c : Contents)
    → apply_all (rs ++ r ∷ []) c ≡ (do c' ← apply_all rs c; apply_record r c')
unfolding apply_all
apply_all-append [] r c = last (apply_record r c)
  where
    last : (a : Result Contents) → (do c' ← a; ok c') ≡ a
    last (ok c') = refl
    last (err e) = refl
apply_all-append (q ∷ rs) r c =
    bind_same (apply_record q c) _ _ (λ c'. apply_all-append rs r c') ∙ assoc (apply_record q c)
  where
    assoc :
        (a : Result Contents)
        → (do c' ← a; c'' ← apply_all rs c'; apply_record r c'')
          ≡ (do c'' ← (do c' ← a; apply_all rs c'); apply_record r c'')
    assoc (ok c') = refl
    assoc (err e) = refl

encode_all-append :
    (rs : List ManifestRecord) (r : ManifestRecord)
    → encode_all (rs ++ r ∷ []) ≡ encode_all rs ++ encode_record r
unfolding encode_all
encode_all-append [] r = append-nil (encode_record r)
encode_all-append (q ∷ rs) r =
    ap (λ b. encode_record q ++ b) (encode_all-append rs r)
    ∙ sym (append_assoc (encode_record q) (encode_all rs) (encode_record r))

-- A record appended behind the log, and memory changed as the record says.
extend :
    (m m' : Manifest) (r : ManifestRecord)
    → IsLog m
    → InRange r
    → m'.file ≡ m.file ++ encode_record r
    → apply_record r (contents_of m) ≡ ok (contents_of m')
    → IsLog m'
extend m m' r log range file memory = record {
  records = log.records ++ r ∷ [];
  in_range = All-append InRange log.records (r ∷ []) log.in_range (range, tt);
  on_disk =
      file ∙ ap (λ b. b ++ encode_record r) log.on_disk ∙ sym (encode_all-append log.records r);
  in_memory =
      apply_all-append log.records r no_tables
      ∙ ap (λ a. (do c' ← a; apply_record r c')) log.in_memory
      ∙ memory;
}

same-IsLog :
    (m m' : Manifest) → IsLog m → m'.file ≡ m.file → contents_of m' ≡ contents_of m → IsLog m'
same-IsLog m m' log file memory = record {
  records = log.records;
  in_range = log.in_range;
  on_disk = file ∙ log.on_disk;
  in_memory = log.in_memory ∙ ap ok (sym memory);
}

-- The next table id and the tables in memory are exactly what a reopened manifest would hold, even
-- if a crash has left a fragment of a record behind the log.
pub recover-IsLog :
    (m : Manifest) (fragment : Bytes)
    → IsLog m
    → length fragment < 17
    → recover (m.file ++ fragment) ≡ ok (contents_of m)
recover-IsLog m fragment log short =
    ap (λ b. recover (b ++ fragment)) log.on_disk
    ∙ recover-encode_all log.records fragment log.in_range short
    ∙ log.in_memory

-- Adding a table keeps memory and file in step, whether it succeeds, meets a duplicate id or fails
-- to write.
pub add_table-IsLog :
    (id level : ℕ) (m : Manifest)
    → IsLog m
    → id < 2 ^ 64
    → level < 2 ^ 32
    → IsLog (add_table id level m).1
unfolding add_table append
add_table-IsLog id level m log hi hl = elim (Bool-cases (has_table id m.tables)) [
  | inl duplicate ↦ same-IsLog m _ log (ground arith) (ground arith)
  | inr fresh ↦ elim (Bool-cases (fires manifest_write m.failpoint)) [
    | inl fails ↦ same-IsLog m _ log (ground arith) (ground arith)
    | inr works ↦
        extend m _ (add_table_record id level) log (hi, hl) (ground arith)
          (unfold apply_record in ground arith)
  ]
]

remove_table-IsLog : (id : ℕ) (m : Manifest) → IsLog m → id < 2 ^ 64 → IsLog (remove_table id m).1
unfolding remove_table append
remove_table-IsLog id m log hi = elim (Bool-cases (fires manifest_write m.failpoint)) [
  | inl fails ↦ same-IsLog m _ log (ground arith) (ground arith)
  | inr works ↦
      extend m _ (remove_table_record id) log hi (ground arith)
        (unfold apply_record in ground arith)
]

-- Removing tables keeps the file a log of whole records whose replay is what memory holds, whether
-- all records are written or the injected write failure ends the loop at the first.
pub remove_tables-IsLog :
    (ids : List ℕ) (m : Manifest)
    → IsLog m
    → All (λ id. id < 2 ^ 64) ids
    → IsLog (remove_tables ids m).1
unfolding remove_tables
remove_tables-IsLog [] m log h = log
remove_tables-IsLog (id ∷ ids) m log (hi, h) =
    go (remove_table id m).0 (remove_table-IsLog id m log hi)
      (remove_tables-IsLog ids (remove_table id m).1 (remove_table-IsLog id m log hi) h)
  where
    go :
        (r : Result (Unit {0}))
        → IsLog (remove_table id m).1
        → IsLog (remove_tables ids (remove_table id m).1).1
        → IsLog (
            (elim r as (λ _. Result (Unit {0}) × Manifest) [
              | ok _ ↦ remove_tables ids (remove_table id m).1
              | err e ↦ (err e, (remove_table id m).1)
            ]).1)
    go (ok x) first rest = rest
    go (err e) first rest = first

-- A successful allocation returns the counter, and memory and file agree on the next one.
pub next_table_id-IsLog :
    (m : Manifest) (id : ℕ)
    → IsLog m
    → m.next_id + 1 < 2 ^ 64
    → (next_table_id m).0 ≡ ok id
    → (id ≡ m.next_id) × ((next_table_id m).1.next_id ≡ id + 1) × IsLog (next_table_id m).1
unfolding next_table_id append
next_table_id-IsLog m id log hi h = elim (Bool-cases (fires manifest_write m.failpoint)) [
  | inl fails ↦ absurd (ground arith)
  | inr works ↦ (
    ground arith,
    ground arith,
    extend m _ (set_next_table_id (m.next_id + 1)) log hi (ground arith)
        (unfold apply_record in ground arith),
  )
]
