-- ===== src/Failpoints.antt =====
-- `mod failpoints` of src/wal.rs: one armed fault at most, which fires once. The thread-local cell is
-- a value that each operation takes and hands on.
use lsm_storage_engine.Common.{Bool, true, false, Option, none, some, if◌then◌else◌}

pub data Kind : Type 0 where
  wal_append wal_sync ss_table_write ss_table_sync manifest_write rename : Kind

abbrev pub same_kind : Kind → Kind → Bool
same_kind wal_append wal_append = true
same_kind wal_sync wal_sync = true
same_kind ss_table_write ss_table_write = true
same_kind ss_table_sync ss_table_sync = true
same_kind manifest_write manifest_write = true
same_kind rename rename = true
same_kind _ _ = false

-- The cell `NEXT`.
abbrev pub Failpoint : Type 0
Failpoint = Option Kind

abbrev pub inject : Kind → Failpoint → Failpoint
inject kind next = some kind

abbrev pub clear : Failpoint → Failpoint
clear next = none

abbrev pub fires : Kind → Failpoint → Bool
fires kind none = false
fires kind (some armed) = same_kind armed kind

-- Whether the fault fires, and the cell after it.
abbrev pub should_fail : Kind → Failpoint → Bool × Failpoint
should_fail kind next = if fires kind next then (true, none) else (false, next)
