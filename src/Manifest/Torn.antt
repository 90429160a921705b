-- ===== src/Manifest/Torn.antt =====
-- A record that is appended behind the fragment which a crash has left.
use lsm_storage_engine.Common.{
  ℕ, suc, ◌+◌, ◌*◌, ◌≤◌, ◌≡◌, ◌≢◌, refl, ap, ◌∙◌, arith, List, [], ◌∷◌, ◌++◌, length, take, slice,
  All, length-append, append_assoc,
}
use lsm_storage_engine.Common.Bytes.{Bytes}
use lsm_storage_engine.Error.{Result, ok, err, ◌>>=◌, invalid_manifest, bind_same}
use lsm_storage_engine.Crc.{crc32, read_u32_le}
use lsm_storage_engine.Manifest.{
  ManifestRecord, Contents, Manifest, encode_record, apply_record, recover_loop, recover, no_tables,
}
use lsm_storage_engine.Manifest.Records.{
  InRange, encode_all, apply_all, recover_loop-record, length-encode_record, length-encode_all,
}
use lsm_storage_engine.Manifest.Refine.{IsLog, contents_of}

recover_loop-split :
    (rs : List ManifestRecord) (fuel : ℕ) (rest : Bytes) (c : Contents)
    → All InRange rs
    → recover_loop (length rs + fuel) (encode_all rs ++ rest) c
      ≡ (do c' ← apply_all rs c; recover_loop fuel rest c')
unfolding encode_all apply_all
recover_loop-split [] fuel rest c h = ap (λ n. recover_loop n rest c) none_left
  where
    none_left : 0 + fuel ≡ fuel
    none_left = omega arith
recover_loop-split (r ∷ rs) fuel rest c (hr, hrs) =
    ap (λ n. recover_loop n ((encode_record r ++ encode_all rs) ++ rest) c) one_more
    ∙ ap (λ b. recover_loop (suc (length rs + fuel)) b c)
        (append_assoc (encode_record r) (encode_all rs) rest)
    ∙ recover_loop-record (length rs + fuel) r (encode_all rs ++ rest) c hr
    ∙ bind_same (apply_record r c) _ _ (λ c'. recover_loop-split rs fuel rest c' hrs)
    ∙ assoc (apply_record r c)
  where
    one_more : suc (length rs) + fuel ≡ suc (length rs + fuel)
    one_more = omega arith

    assoc :
        (a : Result Contents)
        → (do c' ← a; c'' ← apply_all rs c'; recover_loop fuel rest c'')
          ≡ (do c'' ← (do c' ← a; apply_all rs c'); recover_loop fuel rest c'')
    assoc (ok c') = refl
    assoc (err e) = refl

-- A round of the loop whose checksum is wrong.
recover_loop_mismatch :
    (fuel : ℕ) (bytes : Bytes) (c : Contents)
    → 17 ≤ length bytes
    → crc32 (slice 4 17 bytes) ≢ read_u32_le (take 4 bytes)
    → recover_loop (suc fuel) bytes c ≡ err invalid_manifest
unfolding recover_loop
recover_loop_mismatch fuel bytes c long differs = ground arith

-- Opening a manifest does not cut a torn fragment off its end, and the next append goes behind it.
-- Unless the first seventeen bytes of the fragment and that record happen to carry their own
-- checksum, the manifest cannot be recovered any more.
pub append_behind_fragment :
    (m : Manifest) (fragment : Bytes) (r : ManifestRecord)
    → IsLog m
    → crc32 (slice 4 17 (fragment ++ encode_record r))
      ≢ read_u32_le (take 4 (fragment ++ encode_record r))
    → recover ((m.file ++ fragment) ++ encode_record r) ≡ err invalid_manifest
unfolding recover
append_behind_fragment m fragment r log differs =
    ap (λ b. recover_loop (length b) b no_tables)
      (append_assoc m.file fragment (encode_record r)
        ∙ ap (λ b. b ++ (fragment ++ encode_record r)) log.on_disk)
    ∙ ap (λ n. recover_loop n (encode_all log.records ++ (fragment ++ encode_record r)) no_tables)
        enough
    ∙ recover_loop-split log.records (suc (16 * length log.records + length fragment + 16))
        (fragment ++ encode_record r) no_tables log.in_range
    ∙ rw log.in_memory (
        recover_loop_mismatch (16 * length log.records + length fragment + 16)
          (fragment ++ encode_record r) (contents_of m)
          (omega (arith, length-append fragment (encode_record r), length-encode_record r)) differs)
  where
    enough :
        length (encode_all log.records ++ (fragment ++ encode_record r))
        ≡ length log.records + suc (16 * length log.records + length fragment + 16)
    enough = omega (
      arith,
      length-append (encode_all log.records) (fragment ++ encode_record r),
      length-append fragment (encode_record r),
      length-encode_record r,
      length-encode_all log.records,
    )
