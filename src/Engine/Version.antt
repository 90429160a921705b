-- ===== src/Engine/Version.antt =====
-- src/engine.rs: the levels of live tables, the choice of what to compact, and the new levels after it.
use lsm_storage_engine.Common.{
  ℕ, zero, suc, ◌+◌, ◌-◌, ◌*◌, ◌^◌, Bool, false, not, ◌&&◌, ◌||◌, Option, none, some, List, [], ◌∷◌,
  ◌++◌, map, ltb, leb, ◌==◌, if◌then◌else◌, length, get_elem?, get_or, set, replicate,
}
use lsm_storage_engine.Common.Bytes.{Bytes, lt_bytes, le_bytes}
use lsm_storage_engine.SsTable.Create.{SsTable}
use lsm_storage_engine.Engine.Options.{Options}

abbrev pub Level : Type 0
Level = List SsTable

-- `levels[0]` is L0, newest first; each later level is sorted by smallest key.
abbrev pub Version : Type 0
Version = List Level

abbrev pub with_max_levels : ℕ → Version
with_max_levels max_levels = replicate max_levels []

unfoldable pub tables_newest_first : Version → List SsTable
tables_newest_first [] = []
tables_newest_first (level ∷ levels) = level ++ tables_newest_first levels

-- `sort_by` on the smallest keys, which is stable.
unfoldable pub insert_table : SsTable → Level → Level
insert_table t [] = t ∷ []
insert_table t (u ∷ level) =
    let rest = insert_table t level in
    if le_bytes t.smallest u.smallest then t ∷ u ∷ level else u ∷ rest

unfoldable pub sort_level : Level → Level
unfolding insert_table
sort_level [] = []
sort_level (t ∷ level) = insert_table t (sort_level level)

unfoldable pub overlaps : SsTable → Bytes → Bytes → Bool
overlaps a b_small b_large =
    if length a.smallest == 0 && length a.largest == 0
    then false
    else le_bytes a.smallest b_large && le_bytes b_small a.largest

-- The loop of `span` over the tables after the first.
unfoldable pub span_loop : List SsTable → Bytes × Bytes → Bytes × Bytes
span_loop [] (small, large) = (small, large)
span_loop (t ∷ tables) (small, large) = span_loop tables (
  (if lt_bytes t.smallest small then t.smallest else small),
  (if lt_bytes large t.largest then t.largest else large),
)

unfoldable pub span : List SsTable → Bytes × Bytes
unfolding span_loop
span [] = ([], [])
span (t ∷ tables) = span_loop tables (t.smallest, t.largest)

-- The tables of a level that overlap a range, and of no level none.
unfoldable pub overlapping : Bytes → Bytes → Level → List SsTable
unfolding overlaps
overlapping small large [] = []
overlapping small large (t ∷ level) =
    let rest = overlapping small large level in if overlaps t small large then t ∷ rest else rest

abbrev pub or_empty : Option Level → Level
or_empty none = []
or_empty (some level) = level

abbrev pub level_size : Level → ℕ
level_size [] = 0
level_size (t ∷ level) = t.size_bytes + level_size level

pub record CompactionJob : Type 0 where
  pub inputs : List SsTable
  pub output_level : ℕ

abbrev pub saturating_mul : ℕ → ℕ → ℕ
saturating_mul a b = if ltb (2 ^ 64 - 1) (a * b) then 2 ^ 64 - 1 else a * b

module _ {Float : Type 0} (options : Options Float) where
  -- The job of a level that is too large: its first table, and what it overlaps below.
  unfoldable pub level_job : Version → ℕ → Level → Option CompactionJob
  unfolding overlapping
  level_job version level [] = none
  level_job version level (victim ∷ tables) = some (record {
    inputs =
        victim
        ∷ overlapping victim.smallest victim.largest (or_empty (get_elem? version (level + 1)));
    output_level = level + 1;
  })

  -- The loop over the levels from 1 on, with the rounds that are left.
  unfoldable pub pick_level : ℕ → ℕ → ℕ → Version → Option CompactionJob
  unfolding level_job
  pick_level zero level limit version = none
  pick_level (suc rounds) level limit version =
      let rest =
        pick_level rounds (level + 1) (saturating_mul limit options.level_size_multiplier)
          version in
      elim (get_elem? version level) [
        | none ↦ none
        | some tables ↦
            (if ltb limit (level_size tables) then level_job version level tables else rest)
      ]

  unfoldable pub pick_compaction : Version → Option CompactionJob
  unfolding pick_level span overlapping
  pick_compaction [] = none
  pick_compaction (l0 ∷ levels) =
      let (small, large) = span l0 in
      if leb options.l0_compaction_trigger (length l0)
      then some (record {
        inputs = l0 ++ overlapping small large (or_empty (get_elem? levels 0));
        output_level = if ltb (options.max_levels - 1) 1 then options.max_levels - 1 else 1;
      })
      else pick_level (options.max_levels - 1 - 1) 1
          (options.memtable_size_bytes * options.l0_compaction_trigger) (l0 ∷ levels)

abbrev pub ids : List SsTable → List ℕ
ids tables = map (λ t. t.id) tables

abbrev pub contains : ℕ → List ℕ → Bool
contains id [] = false
contains id (i ∷ rest) = i == id || contains id rest

-- `level.retain(|t| !remove.contains(&t.id()))`
unfoldable pub retain : List ℕ → Level → Level
retain remove [] = []
retain remove (t ∷ level) =
    let rest = retain remove level in if contains t.id remove then rest else t ∷ rest

unfoldable pub apply_compaction : CompactionJob → SsTable → Version → Version
unfolding retain sort_level
apply_compaction job output version =
    let kept = map (retain (ids job.inputs)) version in
    let dest =
      if ltb (length kept - 1) job.output_level then length kept - 1 else job.output_level in
    let pushed = get_or kept dest [] ++ output ∷ [] in
    set kept dest (if ltb 0 dest then sort_level pushed else pushed)

-- A table below the output level overlaps an input.
abbrev pub any_overlap : SsTable → List SsTable → Bool
any_overlap t [] = false
any_overlap t (i ∷ inputs) = overlaps t i.smallest i.largest || any_overlap t inputs

abbrev pub any_table : List SsTable → Level → Bool
any_table inputs [] = false
any_table inputs (t ∷ level) = any_overlap t inputs || any_table inputs level

unfoldable pub lower_overlap : CompactionJob → ℕ → Version → Bool
lower_overlap job level [] = false
lower_overlap job level (tables ∷ levels) =
    (ltb job.output_level level && any_table job.inputs tables)
    || lower_overlap job (level + 1) levels

unfoldable pub drop_tombstones : ℕ → CompactionJob → Version → Bool
unfolding lower_overlap
drop_tombstones max_levels job version =
    leb max_levels (job.output_level + 1) || not (lower_overlap job 0 version)
