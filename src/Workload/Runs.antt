-- ===== src/Workload/Runs.antt =====
-- The names of the workloads of src/bin/workload.rs.
use lsm_storage_engine.Common.{◌≡◌, refl}
use lsm_storage_engine.Common.Bytes.{cmp}
use lsm_storage_engine.Workload.{
  Workload, sequential, random, read_heavy, write_heavy, negative, overwrite, workload_name,
  parse_workload,
}

-- Every name is parsed as its workload.
parse_workload-workload_name : (w : Workload) → parse_workload (workload_name w) ≡ w
unfolding workload_name parse_workload cmp
parse_workload-workload_name sequential = refl
parse_workload-workload_name random = refl
parse_workload-workload_name read_heavy = refl
parse_workload-workload_name write_heavy = refl
parse_workload-workload_name negative = refl
parse_workload-workload_name overwrite = refl
