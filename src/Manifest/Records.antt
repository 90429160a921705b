-- ===== src/Manifest/Records.antt =====
-- One record of the manifest: what is written is read back, and what `recover` does with a log.
use lsm_storage_engine.Common.{
  ℕ, zero, suc, ◌*◌, ◌^◌, ◌≤◌, ◌<◌, ◌≡◌, refl, ap, ◌∙◌, arith, true, List, [], ◌∷◌, ◌++◌, ◌==◌,
  length, All, length-append, append_assoc, ==_refl,
}
use lsm_storage_engine.Common.Bytes.{Bytes}
use lsm_storage_engine.Error.{Result, ok, ◌>>=◌, bind_same}
use lsm_storage_engine.Crc.{crc32, u32_le, read_u32_le}
use lsm_storage_engine.Crc.LittleEndian.{crc32-lt, read_u32_le-u32_le, read_u64_le-u64_le}
use lsm_storage_engine.Manifest.{
  ManifestRecord, add_table_record, remove_table_record, set_next_table_id, Contents, encode_body,
  encode_record, decode_body, apply_record, recover_loop, recover, no_tables,
}

-- The ranges of `u64` and `u32`.
abbrev pub InRange : ManifestRecord → Type 0
InRange (add_table_record id level) = (id < 2 ^ 64) × (level < 2 ^ 32)
InRange (remove_table_record id) = id < 2 ^ 64
InRange (set_next_table_id id) = id < 2 ^ 64

abbrev pub body_of : ManifestRecord → Bytes
body_of (add_table_record id level) = encode_body 1 id level
body_of (remove_table_record id) = encode_body 2 id 0
body_of (set_next_table_id id) = encode_body 3 id 0

pub decode_body-body_of : (r : ManifestRecord) → InRange r → decode_body (body_of r) ≡ ok r
unfolding decode_body
decode_body-body_of (add_table_record id level) (hi, hl) =
    rw (read_u64_le-u64_le id hi, read_u32_le-u32_le level hl)
decode_body-body_of (remove_table_record id) h = rw (read_u64_le-u64_le id h)
decode_body-body_of (set_next_table_id id) h = rw (read_u64_le-u64_le id h)

checksum_passes : (b : Bytes) → (crc32 b == read_u32_le (u32_le (crc32 b))) ≡ true
checksum_passes b = rw (read_u32_le-u32_le (crc32 b) (crc32-lt b)) (==_refl (crc32 b))

-- A round of the loop at a whole record.
pub recover_loop-record :
    (fuel : ℕ) (r : ManifestRecord) (rest : Bytes) (c : Contents)
    → InRange r
    → recover_loop (suc fuel) (encode_record r ++ rest) c
      ≡ (do c' ← apply_record r c; recover_loop fuel rest c')
unfolding recover_loop encode_record
recover_loop-record fuel (add_table_record id level) rest c h =
    rw (checksum_passes (encode_body 1 id level), decode_body-body_of (add_table_record id level) h)
      (ground arith)
recover_loop-record fuel (remove_table_record id) rest c h =
    rw (checksum_passes (encode_body 2 id 0), decode_body-body_of (remove_table_record id) h)
      (ground arith)
recover_loop-record fuel (set_next_table_id id) rest c h =
    rw (checksum_passes (encode_body 3 id 0), decode_body-body_of (set_next_table_id id) h)
      (ground arith)

pub length-encode_record : (r : ManifestRecord) → length (encode_record r) ≡ 17
unfolding encode_record
length-encode_record (add_table_record id level) = refl
length-encode_record (remove_table_record id) = refl
length-encode_record (set_next_table_id id) = refl

-- A fragment shorter than a record ends the loop.
pub recover_loop_short :
    (fuel : ℕ) (bytes : Bytes) (c : Contents) → length bytes < 17 → recover_loop fuel bytes c ≡ ok c
unfolding recover_loop
recover_loop_short zero bytes c h = refl
recover_loop_short (suc fuel) bytes c h = ground arith

-- The bytes of a log of records, and what the records say one after another.
unfoldable pub encode_all : List ManifestRecord → Bytes
encode_all [] = []
encode_all (r ∷ rs) = encode_record r ++ encode_all rs

unfoldable pub apply_all : List ManifestRecord → Contents → Result Contents
apply_all [] c = ok c
apply_all (r ∷ rs) c = do c' ← apply_record r c; apply_all rs c'

pub recover_loop-encode_all :
    (rs : List ManifestRecord) (fuel : ℕ) (rest : Bytes) (c : Contents)
    → All InRange rs
    → length rest < 17
    → length rs ≤ fuel
    → recover_loop fuel (encode_all rs ++ rest) c ≡ apply_all rs c
unfolding encode_all apply_all
recover_loop-encode_all [] fuel rest c h short enough = recover_loop_short fuel rest c short
recover_loop-encode_all (r ∷ rs) zero rest c h short enough = absurd (omega arith)
recover_loop-encode_all (r ∷ rs) (suc fuel) rest c (hr, hrs) short enough =
    ap (λ b. recover_loop (suc fuel) b c) (append_assoc (encode_record r) (encode_all rs) rest)
    ∙ recover_loop-record fuel r (encode_all rs ++ rest) c hr
    ∙ bind_same (apply_record r c) _ _
        (λ c'. recover_loop-encode_all rs fuel rest c' hrs short (omega arith))

pub length-encode_all : (rs : List ManifestRecord) → length (encode_all rs) ≡ 17 * length rs
unfolding encode_all
length-encode_all [] = refl
length-encode_all (r ∷ rs) = omega (
  arith,
  length-append (encode_record r) (encode_all rs),
  length-encode_record r,
  length-encode_all rs,
)

-- Recovering a log of whole records, and behind them at most a fragment shorter than a record, is
-- applying the records in order; the fragment is ignored.
pub recover-encode_all :
    (rs : List ManifestRecord) (fragment : Bytes)
    → All InRange rs
    → length fragment < 17
    → recover (encode_all rs ++ fragment) ≡ apply_all rs no_tables
unfolding recover
recover-encode_all rs fragment h short =
    recover_loop-encode_all rs (length (encode_all rs ++ fragment)) fragment no_tables h short
      (omega (arith, length-append (encode_all rs) fragment, length-encode_all rs))
