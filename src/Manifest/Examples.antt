-- ===== src/Manifest/Examples.antt =====
-- Runs of src/manifest.rs, its unit tests among them.
use lsm_storage_engine.Common.{◌≡◌, ◌≢◌, refl, arith, none, [], ◌∷◌, ◌++◌, take, slice}
use lsm_storage_engine.Common.Bytes.{Bytes}
use lsm_storage_engine.Error.{ok, err, invalid_manifest}
use lsm_storage_engine.Crc.{crc32, read_u32_le}
use lsm_storage_engine.Manifest.{
  Manifest, add_table_record, set_next_table_id, encode_record, decode_body, apply_record, recover,
  recover_loop, add_table, remove_tables, remove_table, next_table_id, append, open_manifest,
}
use lsm_storage_engine.Manifest.Records.{encode_all, apply_all}
use lsm_storage_engine.Manifest.Refine.{IsLog, contents_of, recover-IsLog, add_table-IsLog}
use lsm_storage_engine.Manifest.Removal.{Removed, remove_tables-Removed}
use lsm_storage_engine.Manifest.Torn.{append_behind_fragment}
use lsm_storage_engine.Manifest.Unique.{IsUnique, recover-IsUnique}

program : Unit {0}
unfolding encode_record decode_body apply_record recover recover_loop append add_table remove_tables
    remove_table next_table_id crc32 encode_all apply_all open_manifest
program = tt

abbrev file : Bytes
file = encode_all (set_next_table_id 2 ∷ add_table_record 1 0 ∷ [])

abbrev one : Manifest
one = record { failpoint = none; file = file; next_id = 2; tables = (1, 0) ∷ [] }

one-IsLog : IsLog one
unfolding program
one-IsLog = record {
  records = set_next_table_id 2 ∷ add_table_record 1 0 ∷ [];
  in_range = omega arith;
  on_disk = refl;
  in_memory = refl;
}

-- `truncated_final_record_is_ignored`
recover-IsLog_example : recover (file ++ (1 ∷ 2 ∷ 3 ∷ 4 ∷ [])) ≡ ok (contents_of one)
recover-IsLog_example = recover-IsLog one (1 ∷ 2 ∷ 3 ∷ 4 ∷ []) one-IsLog (omega arith)

add_table-IsLog_example : IsLog (add_table 2 1 one).1
add_table-IsLog_example = add_table-IsLog 2 1 one one-IsLog (omega arith) (omega arith)

-- `duplicate_table_ids_are_rejected`
duplicate : (add_table 1 0 one).0 ≡ err invalid_manifest
unfolding program
duplicate = refl

remove_tables-Removed_example :
    Removed (1 ∷ 7 ∷ []) one (remove_tables (1 ∷ 7 ∷ []) one)
    × IsLog (remove_tables (1 ∷ 7 ∷ []) one).1
remove_tables-Removed_example = remove_tables-Removed (1 ∷ 7 ∷ []) one one-IsLog (omega arith)

allocated : (next_table_id one).0 ≡ ok 2
unfolding program
allocated = refl

differs :
    crc32 (slice 4 17 ((9 ∷ 9 ∷ []) ++ encode_record (add_table_record 5 0)))
    ≢ read_u32_le (take 4 ((9 ∷ 9 ∷ []) ++ encode_record (add_table_record 5 0)))
unfolding program
differs = omega arith

append_behind_fragment_example :
    recover ((file ++ (9 ∷ 9 ∷ [])) ++ encode_record (add_table_record 5 0)) ≡ err invalid_manifest
append_behind_fragment_example =
    append_behind_fragment one (9 ∷ 9 ∷ []) (add_table_record 5 0) one-IsLog differs

recovered : recover file ≡ ok (contents_of one)
unfolding program
recovered = refl

recover-IsUnique_example : IsUnique ((1, 0) ∷ [])
recover-IsUnique_example = recover-IsUnique file (contents_of one) recovered
