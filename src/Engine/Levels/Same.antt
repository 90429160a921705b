-- ===== src/Engine/Levels/Same.antt =====
-- A compaction keeps what the tables of a database hold.
use lsm_storage_engine.Common.{
  ℕ, ◌≡◌, ◌<◌, refl, sym, ap, ◌∙◌, arith, true, none, some, List, [], ◌∷◌, ◌++◌, ◌⊎◌, inl, inr, All,
  map, length, Option-cases,
}
use mathlib.Core.Path.{subst}
use lsm_storage_engine.Common.Bytes.{Bytes, le_bytes}
use lsm_storage_engine.Common.SortedMap.{lookup}
use lsm_storage_engine.Common.SortedMap.Append.{or_else}
use lsm_storage_engine.MemTable.{Entry}
use lsm_storage_engine.Files.{Files}
use lsm_storage_engine.SsTable.Format.{Entries}
use lsm_storage_engine.SsTable.Create.{SsTable}
use lsm_storage_engine.SsTable.World.{World, Shape, full, hollow, IsTable}
use lsm_storage_engine.SsTable.Lookup.{in_range}
use lsm_storage_engine.Compaction.Newest.{newest, visible}
use lsm_storage_engine.Compaction.Correct.{IsMerge}
use lsm_storage_engine.Engine.Options.{Options}
use lsm_storage_engine.Engine.View.{value_of}
use lsm_storage_engine.Engine.Version.{
  Level, Version, CompactionJob, overlapping, tables_newest_first, pick_compaction,
  apply_compaction, drop_tombstones,
}
use lsm_storage_engine.Engine.Levels.First.{Holding, first, AtMostOne}
use lsm_storage_engine.Engine.Levels.Overlap.{Within, Ranged, span_member}
use lsm_storage_engine.Engine.Levels.Retain.{AllDistinct}
use lsm_storage_engine.Engine.Levels.Apply.{Job}
use lsm_storage_engine.Engine.Levels.Keeps.{Sound, value_of-apply_compaction}
use lsm_storage_engine.Engine.Levels.Pick.{
  Kind, first_level, later_level, Picked, pick_compaction-Picked,
}
use lsm_storage_engine.Engine.Levels.Drop.{drop_tombstones_apart}

module _ {ℓ κ} {A : Type ℓ} (P : A → Type κ) where
  All-split : (xs ys : List A) → All P (xs ++ ys) → All P xs × All P ys
  All-split [] ys a = (tt, a)
  All-split (x ∷ xs) ys (p, a) = let (b, c) = All-split xs ys a in ((p, b), c)

module _ (key : Bytes) (h : Holding) where
  -- The levels behind the first have the key in one table at most.
  abbrev pub OneEach : Version → Type 0
  OneEach [] = Unit
  OneEach (l0 ∷ levels) = All (AtMostOne h) levels

  All-overlapping :
      (small large : Bytes) (level : Level)
      → All (Ranged key h) level
      → All (Ranged key h) (overlapping small large level)
  unfolding overlapping
  All-overlapping small large [] r = tt
  All-overlapping small large (t ∷ level) (r, rs) =
      ground (arith, All-overlapping small large level rs)

  join-Ranged :
      (xs ys : List SsTable)
      → All (Ranged key h) xs
      → All (Ranged key h) ys
      → All (Ranged key h) (xs ++ ys)
  join-Ranged [] ys a b = b
  join-Ranged (x ∷ xs) ys (p, a) b = (p, join-Ranged xs ys a b)

  one_behind :
      (upper : Version) (u b : Level) (lower : Version)
      → OneEach (upper ++ u ∷ b ∷ lower)
      → AtMostOne h b × (0 < length upper → AtMostOne h u)
  one_behind [] u b lower (p, ps) = (p, λ k. absurd (omega arith))
  one_behind (l ∷ upper) u b lower o =
      let (c, (d, (e, f))) = All-split (AtMostOne h) upper (u ∷ b ∷ lower) o in (e, λ k. d)

  victims_apart :
      {version : Version} {job : CompactionJob} (j : Job version job)
      → Kind j
      → (0 < length j.upper → AtMostOne h (j.victims ++ j.others))
      → (first h j.victims ≡ none) ⊎ (first h j.others ≡ none)
  unfolding first
  victims_apart j (first_level nothing s l) many = inr (ap (first h) nothing)
  victims_apart j (later_level victim only s l low) many =
      go (subst (λ v. AtMostOne h (v ++ j.others)) only (many low)).0
    where
      go :
          (h victim ≡ none) ⊎ (first h j.others ≡ none)
          → (first h j.victims ≡ none) ⊎ (first h j.others ≡ none)
      go (inl nothing) = inl (ap (first h) only ∙ rw nothing refl)
      go (inr nothing) = inr nothing

  victims-Within :
      {version : Version} {job : CompactionJob} (j : Job version job)
      → Kind j
      → All (Ranged key h) j.victims
      → (first h j.victims ≡ none) ⊎ Within key h j.small j.large
  unfolding first
  victims-Within j (first_level nothing s l) r = rw (s, l) (span_member key h j.victims r)
  victims-Within j (later_level victim only s l low) r = go (subst (All (Ranged key h)) only r).0
    where
      go : Ranged key h victim → (first h j.victims ≡ none) ⊎ Within key h j.small j.large
      go (inl nothing) = inl (ap (first h) only ∙ rw nothing refl)
      go (inr (n, w)) = inr (rw (s, l) w)

  Picked-Sound :
      (max_levels : ℕ) (version : Version) (job : CompactionJob)
      → (p : Picked version job) → length version ≡ max_levels
      → All (All (Ranged key h)) version
      → OneEach version
      → Sound key h (drop_tombstones max_levels job version) version job p.stands
  Picked-Sound max_levels version job p n ranged one =
      let j : Job version job = p.stands in
      let (above, (ru, (rb, rl))) =
        All-split (All (Ranged key h)) j.upper ((j.victims ++ j.others) ∷ j.below ∷ j.lower)
          (subst (All (All (Ranged key h))) j.place ranged) in
      let (rv, ro) = All-split (Ranged key h) j.victims j.others ru in
      let (many, upper_many) =
        one_behind j.upper (j.victims ++ j.others) j.below j.lower (subst OneEach j.place one) in
      record {
        victims_others = victims_apart j p.kind upper_many;
        victims_range = victims-Within j p.kind rv;
        below_ranged = rb;
        below_one = many;
        dropped = drop_tombstones_apart key h max_levels version job j n rl (
            subst (All (Ranged key h)) (sym j.inputs) (
              join-Ranged j.victims (overlapping j.small j.large j.below) rv
                (All-overlapping j.small j.large j.below rb)));
      }

  -- Whatever is picked, the value that is read for the key is the same after the compaction.
  value_of-picked :
      {Float : Type 0} (options : Options Float) (version : Version) (job : CompactionJob)
      (output : SsTable)
      → length version ≡ options.max_levels
      → 1 < options.max_levels
      → pick_compaction options version ≡ some job
      → AllDistinct (tables_newest_first version)
      → All (All (Ranged key h)) version
      → OneEach version
      → h output ≡ visible (drop_tombstones options.max_levels job version) (first h job.inputs)
      → value_of (first h (tables_newest_first (apply_compaction job output version)))
        ≡ value_of (first h (tables_newest_first version))
  value_of-picked options version job output n m picked distinct ranged one merged =
      let p : Picked version job = pick_compaction-Picked options version job n m picked in
      value_of-apply_compaction key h (drop_tombstones options.max_levels job version) version job
        output p.stands distinct (Picked-Sound options.max_levels version job p n ranged one) merged

module _ (W : World) (files : Files) (E : SsTable → Entries) where
  -- What the table has at the key.
  abbrev at : Bytes → Holding
  at key t = lookup key (E t)

  newest-first :
      (key : Bytes) (tables : List SsTable) → first (at key) tables ≡ newest key (map E tables)
  unfolding first newest
  newest-first key [] = refl
  newest-first key (t ∷ tables) = ap (or_else (at key t)) (newest-first key tables)

  -- A table that has a key does not begin with the empty one.
  smallest_held :
      (key : Bytes) (t : SsTable) (e : Entry)
      → (v : IsTable W files t (E t)) → lookup key (E t) ≡ some e
      → 0 < length t.smallest
  smallest_held key t e v found = go v.shape
    where
      empty_lookup : (entries : Entries) → entries ≡ [] → lookup key entries ≡ none
      empty_lookup entries e = rw e (unfold lookup in refl)

      go : Shape t v.blocks → 0 < length t.smallest
      go (full m nonempty) = nonempty
      go (hollow none_held s l one) =
          absurd (ground (arith, empty_lookup (E t) (sym v.whole ∙ none_held)))

  IsTable-Ranged : (key : Bytes) (t : SsTable) → IsTable W files t (E t) → Ranged key (at key) t
  IsTable-Ranged key t v = elim (Option-cases (lookup key (E t))) [
    | inl absent ↦ inl absent
    | inr (e, found) ↦ inr (
      smallest_held key t e v found,
      (
        subst (λ l. le_bytes l key ≡ true) (sym v.smallest) (in_range key e (E t) v.sorted found).0,
        subst (λ l. le_bytes key l ≡ true) (sym v.largest) (in_range key e (E t) v.sorted found).1,
      ),
    )
  ]

  Ranged-level :
      (key : Bytes) (level : Level)
      → All (λ t. IsTable W files t (E t)) level
      → All (Ranged key (at key)) level
  Ranged-level key [] v = tt
  Ranged-level key (t ∷ level) (v, vs) = (IsTable-Ranged key t v, Ranged-level key level vs)

  Ranged-levels :
      (key : Bytes) (version : Version)
      → All (All (λ t. IsTable W files t (E t))) version
      → All (All (Ranged key (at key))) version
  Ranged-levels key [] v = tt
  Ranged-levels key (level ∷ version) (v, vs) =
      (Ranged-level key level v, Ranged-levels key version vs)

  -- Whatever compaction is picked, a key has the same value in the tables before and after it, a
  -- deletion and a missing entry being read alike. The output is the merge of the inputs, and
  -- tombstones are dropped as the code decides. It holds where there are as many levels as the
  -- options say and more than one, no two tables have the same number, every table on disk holds
  -- its entries, and no two tables of a level behind the first have the key.
  pub value_of-compaction :
      {Float : Type 0} (options : Options Float) (version : Version) (job : CompactionJob)
      (output : SsTable) (key : Bytes)
      → length version ≡ options.max_levels
      → 1 < options.max_levels
      → pick_compaction options version ≡ some job
      → AllDistinct (tables_newest_first version)
      → All (All (λ t. IsTable W files t (E t))) version
      → OneEach key (at key) version
      → IsMerge (drop_tombstones options.max_levels job version) (map E job.inputs) (E output)
      → value_of (newest key (map E (tables_newest_first (apply_compaction job output version))))
        ≡ value_of (newest key (map E (tables_newest_first version)))
  value_of-compaction options version job output key n m picked distinct held one merged =
      ap value_of
        (sym (newest-first key (tables_newest_first (apply_compaction job output version))))
      ∙ (value_of-picked key (at key) options version job output n m picked distinct
            (Ranged-levels key version held) one
            (merged.newest_wins key
              ∙ ap (visible (drop_tombstones options.max_levels job version))
                  (sym (newest-first key job.inputs)))
          ∙ ap value_of (newest-first key (tables_newest_first version)))
