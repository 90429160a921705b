-- ===== src/Engine/Levels/Pick.antt =====
-- Where the jobs stand that `pick_compaction` picks.
use lsm_storage_engine.Common.{
  ℕ, zero, suc, ◌+◌, ◌-◌, ◌*◌, ◌≡◌, ◌<◌, refl, sym, ap, ◌∙◌, arith, Option, none, some, [], ◌∷◌,
  ◌++◌, inl, inr, append-nil, length, get_elem?, ltb, leb, Bool-cases,
}
use lsm_storage_engine.SsTable.Create.{SsTable}
use lsm_storage_engine.Engine.Options.{Options}
use lsm_storage_engine.Engine.Version.{
  Level, Version, CompactionJob, span, level_size, saturating_mul, level_job, pick_level,
  pick_compaction,
}
use lsm_storage_engine.Engine.Levels.Apply.{Job}

-- The job of the first level takes all of it, and a job of another level its first table.
pub data Kind {version : Version} {job : CompactionJob} (j : Job version job) : Type 0 where
  first_level : j.others ≡ [] → j.small ≡ (span j.victims).0 → j.large ≡ (span j.victims).1 → Kind j
  later_level :
      (victim : SsTable)
      → j.victims ≡ victim ∷ []
      → j.small ≡ victim.smallest
      → j.large ≡ victim.largest
      → 0 < length j.upper
      → Kind j

pub record Picked (version : Version) (job : CompactionJob) : Type 0 where
  pub stands : Job version job
  pub kind : Kind stands

record Split (version : Version) (i : ℕ) (tables : Level) : Type 0 where
  upper : Version
  below : Level
  lower : Version
  place : version ≡ upper ++ tables ∷ below ∷ lower
  index : length upper ≡ i
  next : get_elem? version (i + 1) ≡ some below

Split-at :
    (version : Version) (i : ℕ) (tables : Level)
    → get_elem? version i ≡ some tables
    → i + 1 < length version
    → Split version i tables
Split-at [] i tables h k = absurd (omega arith)
Split-at (l ∷ []) i tables h k = absurd (omega arith)
Split-at (l ∷ b ∷ version) zero tables h k = record {
  upper = [];
  below = b;
  lower = version;
  place = ground arith;
  index = refl;
  next = refl;
}
Split-at (l ∷ b ∷ version) (suc i) tables h k =
    let s : Split (b ∷ version) i tables = Split-at (b ∷ version) i tables h (omega arith) in
    record {
      upper = l ∷ s.upper;
      below = s.below;
      lower = s.lower;
      place = ap (λ v. l ∷ v) s.place;
      index = ap suc s.index;
      next = ap (get_elem? (l ∷ b ∷ version)) later ∙ s.next;
    }
  where
    later : suc i + 1 ≡ suc (i + 1)
    later = omega arith

module _ {Float : Type 0} (options : Options Float) where
  level_job-Picked :
      (version : Version) (i : ℕ) (tables : Level) (job : CompactionJob)
      → 0 < i
      → i + 1 < length version
      → get_elem? version i ≡ some tables
      → level_job options version i tables ≡ some job
      → Picked version job
  unfolding level_job
  level_job-Picked version i [] job low high there h = absurd cc
  level_job-Picked version i (victim ∷ tables) job low high there h =
      let s : Split version i (victim ∷ tables) = Split-at version i (victim ∷ tables) there high in
      record {
        stands = record {
          upper = s.upper;
          victims = victim ∷ [];
          others = tables;
          below = s.below;
          lower = s.lower;
          small = victim.smallest;
          large = victim.largest;
          place = s.place;
          inputs = ground (arith, s.next);
          output = ground (arith, s.index);
        };
        kind = later_level victim refl refl refl (omega (arith, s.index));
      }

  pick_level-Picked :
      (rounds i limit : ℕ) (version : Version) (job : CompactionJob)
      → 0 < i
      → rounds + i < length version
      → pick_level options rounds i limit version ≡ some job
      → Picked version job
  unfolding pick_level
  pick_level-Picked zero i limit version job low high h = absurd cc
  pick_level-Picked (suc rounds) i limit version job low high h = go (get_elem? version i) refl (
      pick_level-Picked rounds (i + 1) (saturating_mul limit options.level_size_multiplier) version
        job (omega arith) (omega arith))
    where
      go :
          (o : Option Level)
          → get_elem? version i ≡ o
          → (pick_level options rounds
                  (i + 1)
                  (saturating_mul limit options.level_size_multiplier)
                  version
                ≡ some job
              → Picked version job)
          → Picked version job
      go none e rest = absurd (ground arith)
      go (some tables) e rest = elim (Bool-cases (ltb limit (level_size tables))) [
        | inl large ↦ level_job-Picked version i tables job low (omega arith) e (ground arith)
        | inr fits ↦ rest (ground arith)
      ]

  -- Whatever job is picked, it stands in two neighbouring levels, if there are as many levels as the
  -- options say and more than one.
  pub pick_compaction-Picked :
      (version : Version) (job : CompactionJob)
      → length version ≡ options.max_levels
      → 1 < options.max_levels
      → pick_compaction options version ≡ some job
      → Picked version job
  unfolding pick_compaction
  pick_compaction-Picked [] job n m h = absurd cc
  pick_compaction-Picked (l0 ∷ []) job n m h = absurd (omega arith)
  pick_compaction-Picked (l0 ∷ l1 ∷ levels) job n m h =
      elim (Bool-cases (leb options.l0_compaction_trigger (length l0))) [
        | inl many ↦ record {
          stands = record {
            upper = [];
            victims = l0;
            others = [];
            below = l1;
            lower = levels;
            small = (span l0).0;
            large = (span l0).1;
            place = ap (λ l. l ∷ l1 ∷ levels) (sym (append-nil l0));
            inputs = ground arith;
            output = ground arith;
          };
          kind = first_level refl refl refl;
        }
        | inr few ↦
            pick_level-Picked (options.max_levels - 1 - 1) 1
              (options.memtable_size_bytes * options.l0_compaction_trigger) (l0 ∷ l1 ∷ levels) job
              (omega arith) (omega arith) (ground arith)
      ]
