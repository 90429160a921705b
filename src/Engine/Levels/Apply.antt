-- ===== src/Engine/Levels/Apply.antt =====
-- The levels after a compaction of two neighbouring levels.
use lsm_storage_engine.Common.{
  ℕ, zero, suc, ◌+◌, ◌-◌, ◌≡◌, refl, sym, ap, ◌∙◌, arith, true, false, List, [], ◌∷◌, ◌++◌,
  append_assoc, map, length, length-append, ltb, get_or, set, if◌then◌else◌,
}
use mathlib.Core.Path.{subst}
use lsm_storage_engine.Common.Bytes.{Bytes}
use lsm_storage_engine.SsTable.Create.{SsTable}
use lsm_storage_engine.Engine.Version.{
  Level, Version, CompactionJob, overlapping, ids, retain, sort_level, tables_newest_first,
  apply_compaction,
}
use lsm_storage_engine.Engine.Levels.First.{apart}
use lsm_storage_engine.Engine.Levels.Retain.{
  AllDistinct, Separate, AllDistinct-append, Separate-append, Separate-join, Separate-sym,
  Separate-overlapping, retain-Separate, retain-inputs, retain-overlapping,
}

pub tables-append :
    (v w : Version) → tables_newest_first (v ++ w) ≡ tables_newest_first v ++ tables_newest_first w
unfolding tables_newest_first
tables-append [] w = refl
tables-append (l ∷ v) w =
    rw (tables-append v w) (sym (append_assoc l (tables_newest_first v) (tables_newest_first w)))

Separate-left : (xs ys zs : List SsTable) → Separate (xs ++ ys) zs → Separate xs zs × Separate ys zs
Separate-left [] ys zs s = (tt, s)
Separate-left (x ∷ xs) ys zs (o, s) = let (a, b) = Separate-left xs ys zs s in ((o, a), b)

-- Levels whose tables have other numbers stay as they are.
retain-levels :
    (inputs : List SsTable) (levels : Version)
    → Separate (tables_newest_first levels) inputs
    → map (retain (ids inputs)) levels ≡ levels
unfolding tables_newest_first
retain-levels inputs [] s = refl
retain-levels inputs (level ∷ levels) s =
    let (a, b) = Separate-left level (tables_newest_first levels) inputs s in
    rw (retain-Separate inputs level a, retain-levels inputs levels b) refl

map-append_levels : (r : Level → Level) (v w : Version) → map r (v ++ w) ≡ map r v ++ map r w
map-append_levels r [] w = refl
map-append_levels r (l ∷ v) w = ap (λ ls. r l ∷ ls) (map-append_levels r v w)

set-behind :
    (v : Version) (a b : Level) (w : Version) (m : ℕ) (level : Level)
    → m ≡ length v + 1
    → set (v ++ a ∷ b ∷ w) m level ≡ v ++ a ∷ level ∷ w
set-behind [] a b w m level h = rw h refl
set-behind (l ∷ v) a b w zero level h = absurd (omega arith)
set-behind (l ∷ v) a b w (suc m) level h =
    ap (λ ls. l ∷ ls) (set-behind v a b w m level (omega arith))

get_or-behind :
    (v : Version) (a b : Level) (w : Version) (m : ℕ)
    → m ≡ length v + 1
    → get_or (v ++ a ∷ b ∷ w) m [] ≡ b
get_or-behind [] a b w m h = rw h refl
get_or-behind (l ∷ v) a b w zero h = absurd (omega arith)
get_or-behind (l ∷ v) a b w (suc m) h = get_or-behind v a b w m (omega arith)

-- Where a job stands: the tables `victims` come first in their level, and of the level below those
-- go along that overlap a range.
pub record Job (version : Version) (job : CompactionJob) : Type 0 where
  pub upper : Version
  pub victims : List SsTable
  pub others : List SsTable
  pub below : Level
  pub lower : Version
  pub small : Bytes
  pub large : Bytes
  pub place : version ≡ upper ++ (victims ++ others) ∷ below ∷ lower
  pub inputs : job.inputs ≡ victims ++ overlapping small large below
  pub output : job.output_level ≡ length upper + 1

-- The levels after the job: the output is in the level below, in the place of what overlapped.
abbrev pub compacted :
    (version : Version) (job : CompactionJob) → Job version job → SsTable → Version
compacted version job j output =
    j.upper ++ j.others ∷ sort_level (apart j.small j.large j.below ++ output ∷ []) ∷ j.lower

module _ (upper : Version) (victims others below : List SsTable) (lower : Version)
    (small large : Bytes) where
  abbrev whole_version : Version
  whole_version = upper ++ (victims ++ others) ∷ below ∷ lower

  abbrev all_inputs : List SsTable
  all_inputs = victims ++ overlapping small large below

  -- What `AllDistinct` says of the parts.
  record Parts : Type 0 where
    above_inputs : Separate (tables_newest_first upper) all_inputs
    others_inputs : Separate others all_inputs
    lower_inputs : Separate (tables_newest_first lower) all_inputs
    below_distinct : AllDistinct below
    victims_below : Separate victims below

  parts_of : AllDistinct (tables_newest_first whole_version) → Parts
  unfolding tables_newest_first
  parts_of d =
      let u : List SsTable = tables_newest_first upper in
      let l : List SsTable = tables_newest_first lower in
      let (du, dr, s) =
        AllDistinct-append u ((victims ++ others) ++ (below ++ l))
          (subst AllDistinct (tables-append upper ((victims ++ others) ∷ below ∷ lower)) d) in
      let (dvo, dbl, t) = AllDistinct-append (victims ++ others) (below ++ l) dr in
      let (dv, do', vo) = AllDistinct-append victims others dvo in
      let (db, dl, bl) = AllDistinct-append below l dbl in
      let (u_vo, u_bl) = Separate-append u (victims ++ others) (below ++ l) s in
      let (u_v, u_o) = Separate-append u victims others u_vo in
      let (u_b, u_l) = Separate-append u below l u_bl in
      let (v_bl, o_bl) = Separate-left victims others (below ++ l) t in
      let (v_b, v_l) = Separate-append victims below l v_bl in
      let (o_b, o_l) = Separate-append others below l o_bl in
      record {
        above_inputs = from u victims u_v u_b;
        others_inputs = from others victims (Separate-sym victims others vo) o_b;
        lower_inputs = from l victims (Separate-sym victims l v_l) (Separate-sym below l bl);
        below_distinct = db;
        victims_below = v_b;
      }
    where
      from :
          (xs vs : List SsTable)
          → Separate xs vs
          → Separate xs below
          → Separate xs (vs ++ overlapping small large below)
      from xs vs a b = Separate-sym (vs ++ overlapping small large below) xs (
          Separate-join vs (overlapping small large below) xs (Separate-sym xs vs a)
            (Separate-overlapping small large below xs (Separate-sym xs below b)))

  removed :
      Parts
      → map (retain (ids all_inputs)) whole_version
        ≡ upper ++ others ∷ apart small large below ∷ lower
  removed p =
      map-append_levels (retain (ids all_inputs)) upper ((victims ++ others) ∷ below ∷ lower)
      ∙ rw
          (
            retain-levels all_inputs upper p.above_inputs,
            retain-inputs [] victims others (overlapping small large below),
            retain-Separate all_inputs others p.others_inputs,
            retain-overlapping small large victims below p.below_distinct p.victims_below,
            retain-levels all_inputs lower p.lower_inputs,
          )
          refl

-- The last part of `apply_compaction`, on the levels that are left.
push_output : Version → ℕ → SsTable → Version
push_output kept level output =
    let dest = if ltb (length kept - 1) level then length kept - 1 else level in
    let pushed = get_or kept dest [] ++ output ∷ [] in
    set kept dest (if ltb 0 dest then sort_level pushed else pushed)

push_output-behind :
    (v : Version) (a b : Level) (w : Version) (level : ℕ) (output : SsTable)
    → level ≡ length v + 1
    → push_output (v ++ a ∷ b ∷ w) level output ≡ v ++ a ∷ sort_level (b ++ output ∷ []) ∷ w
unfolding push_output
push_output-behind v a b w level output h =
    rw (in_bounds, not_first, get_or-behind v a b w level h)
      (set-behind v a b w level (sort_level (b ++ output ∷ [])) h)
  where
    in_bounds : ltb (length (v ++ a ∷ b ∷ w) - 1) level ≡ false
    in_bounds = ground (arith, length-append v (a ∷ b ∷ w))

    not_first : ltb 0 level ≡ true
    not_first = ground arith

-- The levels after a compaction.
pub apply_compaction-Job :
    (version : Version) (job : CompactionJob) (output : SsTable)
    → (j : Job version job) → AllDistinct (tables_newest_first version)
    → apply_compaction job output version ≡ compacted version job j output
unfolding apply_compaction push_output
apply_compaction-Job version job output j d =
    ap (λ kept. push_output kept job.output_level output) left
    ∙ push_output-behind j.upper j.others (apart j.small j.large j.below) j.lower job.output_level
        output j.output
  where
    left :
        map (retain (ids job.inputs)) version
        ≡ j.upper ++ j.others ∷ apart j.small j.large j.below ∷ j.lower
    left =
        ap (λ v. map (retain (ids job.inputs)) v) j.place
        ∙ (ap (λ l. map (retain (ids l)) (j.upper ++ (j.victims ++ j.others) ∷ j.below ∷ j.lower))
              j.inputs
            ∙ removed j.upper j.victims j.others j.below j.lower j.small j.large (
                parts_of j.upper j.victims j.others j.below j.lower j.small j.large
                  (subst (λ v. AllDistinct (tables_newest_first v)) j.place d)))
