-- ===== src/Engine/Bounds.antt =====
-- Compaction writes to a level that exists, and a scan stops only where nothing is left.
use lsm_storage_engine.Common.{
  ℕ, zero, suc, ◌+◌, ◌-◌, ◌*◌, ◌≤◌, ◌<◌, ◌≡◌, arith, true, false, some, [], ◌∷◌, ltb, get_elem?,
  inl, inr, Option-cases, Bool-cases,
}
use lsm_storage_engine.Common.Bytes.{Bytes, ◌≺◌, eq_of_cmp, gt_of_lt, cmp-lt_trans}
use lsm_storage_engine.Engine.Options.{Options}
use lsm_storage_engine.Engine.Version.{
  Version, Level, CompactionJob, level_job, pick_level, pick_compaction, level_size, saturating_mul,
}
use lsm_storage_engine.Engine.Scan.{Bound, unbounded, included, excluded, in_range, past_end}

module _ {Float : Type 0} (options : Options Float) where
  level_job-level :
      (version : Version) (level : ℕ) (tables : Level) (job : CompactionJob)
      → level_job options version level tables ≡ some job
      → job.output_level ≡ level + 1
  unfolding level_job
  level_job-level version level [] job h = cc
  level_job-level version level (t ∷ tables) job h = ground arith

  pick_level-lt :
      (rounds level limit : ℕ) (version : Version) (job : CompactionJob)
      → pick_level options rounds level limit version ≡ some job
      → job.output_level ≤ level + rounds
  unfolding pick_level
  pick_level-lt zero level limit version job h = cc
  pick_level-lt (suc rounds) level limit version job h =
      elim (Option-cases (get_elem? version level)) [
        | inl none_left ↦ absurd (ground arith)
        | inr (tables, there) ↦ elim (Bool-cases (ltb limit (level_size tables))) [
          | inl large ↦ omega (arith, level_job-level version level tables job (ground arith))
          | inr small ↦ omega (
            arith,
            pick_level-lt rounds (level + 1) (saturating_mul limit options.level_size_multiplier)
                version job (ground arith),
          )
        ]
      ]

  -- Whatever job is picked, the level of its output is below the number of levels.
  pub pick_compaction-lt :
      (version : Version) (job : CompactionJob)
      → 1 ≤ options.max_levels
      → pick_compaction options version ≡ some job
      → job.output_level < options.max_levels
  unfolding pick_compaction
  pick_compaction-lt [] job some_level h = cc
  pick_compaction-lt (l0 ∷ levels) job some_level h = ground (
    arith,
    pick_level-lt (options.max_levels - 1 - 1) 1
        (options.memtable_size_bytes * options.l0_compaction_trigger) (l0 ∷ levels) job,
  )

-- Behind a key past the end of a range no later key lies in the range, so that the scan of a sorted
-- table may stop there.
pub past_end-in_range :
    (start end : Bound) (key later : Bytes)
    → past_end key end ≡ true
    → key ≺ later
    → in_range later start end ≡ false
unfolding past_end in_range
past_end-in_range start unbounded key later h l = cc
past_end-in_range start (included e) key later h l =
    ground (arith, gt_of_lt e later, cmp-lt_trans e key later)
past_end-in_range start (excluded e) key later h l =
    ground (arith, gt_of_lt e later, eq_of_cmp e key, eq_of_cmp e later, cmp-lt_trans e key later)
