-- ===== src/Engine/Levels/Drop.antt =====
-- Tombstones are dropped only where no level below has the key.
use lsm_storage_engine.Common.{
  ℕ, ◌+◌, ◌≡◌, ◌≤◌, ◌<◌, refl, sym, ap, ◌∙◌, arith, true, false, none, List, [], ◌∷◌, ◌++◌, ◌⊎◌,
  inl, inr, All, length, length-append, leb, Bool-cases,
}
use lsm_storage_engine.Common.Bytes.{Bytes}
use lsm_storage_engine.Common.SortedMap.Append.{or_else}
use lsm_storage_engine.SsTable.Create.{SsTable}
use lsm_storage_engine.Engine.Version.{
  Level, Version, CompactionJob, any_overlap, any_table, lower_overlap, drop_tombstones,
  tables_newest_first,
}
use lsm_storage_engine.Engine.Levels.First.{Holding, first, first-append}
use lsm_storage_engine.Engine.Levels.Overlap.{Ranged, overlaps-Within}
use lsm_storage_engine.Engine.Levels.Apply.{Job}

-- The levels below the output's.
lower_part :
    (job : CompactionJob) (v w : Version) (i : ℕ)
    → lower_overlap job i (v ++ w) ≡ false
    → lower_overlap job (i + length v) w ≡ false
unfolding lower_overlap
lower_part job [] w i h = ap (λ n. lower_overlap job n w) (omega arith) ∙ h
lower_part job (l ∷ v) w i h =
    ap (λ n. lower_overlap job n w) (omega arith) ∙ lower_part job v w (i + 1) (ground arith)

module _ (key : Bytes) (h : Holding) where
  -- If a table overlaps none of the inputs then not both have the key.
  any_overlap_apart :
      (t : SsTable) (inputs : List SsTable)
      → any_overlap t inputs ≡ false
      → Ranged key h t
      → All (Ranged key h) inputs
      → (first h inputs ≡ none) ⊎ (h t ≡ none)
  unfolding first
  any_overlap_apart t inputs beside (inl nothing) r = inr nothing
  any_overlap_apart t [] beside (inr w) r = inl refl
  any_overlap_apart t (i ∷ inputs) beside (inr w) (inl nothing, rs) =
      rw nothing (any_overlap_apart t inputs (ground arith) (inr w) rs)
  any_overlap_apart t (i ∷ inputs) beside (inr (n, w)) (inr (m, v), rs) =
      absurd (ground (arith, overlaps-Within key h t i.smallest i.largest n w v))

  any_table_apart :
      (inputs : List SsTable) (level : Level)
      → any_table inputs level ≡ false
      → All (Ranged key h) level
      → All (Ranged key h) inputs
      → (first h inputs ≡ none) ⊎ (first h level ≡ none)
  unfolding first
  any_table_apart inputs [] beside r rs = inr refl
  any_table_apart inputs (t ∷ level) beside (r, rl) rs =
      both (any_overlap_apart t inputs (ground arith) r rs)
        (any_table_apart inputs level (ground arith) rl rs)
    where
      both :
          (first h inputs ≡ none) ⊎ (h t ≡ none)
          → (first h inputs ≡ none) ⊎ (first h level ≡ none)
          → (first h inputs ≡ none) ⊎ (or_else (h t) (first h level) ≡ none)
      both (inl a) b = inl a
      both (inr a) (inl b) = inl b
      both (inr a) (inr b) = inr (rw (a, b) refl)

  lower_apart :
      (job : CompactionJob) (levels : Version) (i : ℕ)
      → job.output_level < i
      → lower_overlap job i levels ≡ false
      → All (All (Ranged key h)) levels
      → All (Ranged key h) job.inputs
      → (first h job.inputs ≡ none) ⊎ (first h (tables_newest_first levels) ≡ none)
  unfolding lower_overlap tables_newest_first
  lower_apart job [] i below h' r rs = inr (unfold first in refl)
  lower_apart job (level ∷ levels) i below h' (r, rl) rs =
      both (any_table_apart job.inputs level (ground arith) r rs)
        (lower_apart job levels (i + 1) (omega arith) (ground arith) rl rs)
    where
      both :
          (first h job.inputs ≡ none) ⊎ (first h level ≡ none)
          → (first h job.inputs ≡ none) ⊎ (first h (tables_newest_first levels) ≡ none)
          → (first h job.inputs ≡ none) ⊎ (first h (level ++ tables_newest_first levels) ≡ none)
      both (inl a) b = inl a
      both (inr a) (inl b) = inl b
      both (inr a) (inr b) =
          inr (first-append h level (tables_newest_first levels) ∙ rw (a, b) refl)

  -- If tombstones are dropped then not both the inputs and a level below have the key.
  pub drop_tombstones_apart :
      (max_levels : ℕ) (version : Version) (job : CompactionJob)
      → (j : Job version job) → length version ≡ max_levels
      → All (All (Ranged key h)) j.lower
      → All (Ranged key h) job.inputs
      → drop_tombstones max_levels job version ≡ true
      → (first h job.inputs ≡ none) ⊎ (first h (tables_newest_first j.lower) ≡ none)
  unfolding drop_tombstones
  drop_tombstones_apart max_levels version job j n r rs d =
      elim (Bool-cases (leb max_levels (job.output_level + 1))) [
        | inl last ↦ inr (
            nothing_below j.lower (
              omega (
                arith,
                j.output,
                ap length j.place,
                length-append j.upper ((j.victims ++ j.others) ∷ j.below ∷ j.lower),
                leb_true last,
              )))
        | inr more ↦
            lower_apart job j.lower (0 + length j.upper + 2) (omega (arith, j.output))
              (below (ground arith)) r rs
      ]
    where
      leb_true : leb max_levels (job.output_level + 1) ≡ true → max_levels ≤ job.output_level + 1
      leb_true e = ground arith

      nothing_below :
          (levels : Version) → length levels ≡ 0 → first h (tables_newest_first levels) ≡ none
      nothing_below [] e = unfold tables_newest_first first in refl
      nothing_below (l ∷ levels) e = absurd (omega arith)

      below :
          lower_overlap job 0 version ≡ false
          → lower_overlap job (0 + length j.upper + 2) j.lower ≡ false
      below e = two (
          lower_part job j.upper ((j.victims ++ j.others) ∷ j.below ∷ j.lower) 0
            (ap (λ v. lower_overlap job 0 v) (sym j.place) ∙ e))
        where
          two :
              lower_overlap job (0 + length j.upper) ((j.victims ++ j.others) ∷ j.below ∷ j.lower)
                ≡ false
              → lower_overlap job (0 + length j.upper + 2) j.lower ≡ false
          two e' =
              ap (λ n. lower_overlap job n j.lower) (omega arith)
              ∙ lower_part job ((j.victims ++ j.others) ∷ j.below ∷ []) j.lower (0 + length j.upper)
                  e'
