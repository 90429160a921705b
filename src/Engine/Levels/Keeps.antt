-- ===== src/Engine/Levels/Keeps.antt =====
-- A read of a key gives the same before and after a compaction.
use lsm_storage_engine.Common.{
  ◌≡◌, refl, sym, ap, ◌∙◌, arith, Bool, true, false, Option, none, some, [], ◌∷◌, ◌++◌, ◌⊎◌, inl,
  inr, All,
}
use mathlib.Core.Path.{subst}
use lsm_storage_engine.Common.Bytes.{Bytes}
use lsm_storage_engine.Common.SortedMap.Append.{or_else}
use lsm_storage_engine.MemTable.{Entry, value, tombstone}
use lsm_storage_engine.SsTable.Create.{SsTable}
use lsm_storage_engine.Compaction.Newest.{visible}
use lsm_storage_engine.Engine.Version.{
  Level, Version, CompactionJob, overlapping, sort_level, tables_newest_first, apply_compaction,
}
use lsm_storage_engine.Engine.View.{value_of}
use lsm_storage_engine.Engine.Levels.First.{
  Holding, first, AtMostOne, apart, first-append, first-sort_level, first-apart,
}
use lsm_storage_engine.Engine.Levels.Overlap.{Within, Ranged, apart-Within}
use lsm_storage_engine.Engine.Levels.Retain.{AllDistinct}
use lsm_storage_engine.Engine.Levels.Apply.{Job, compacted, apply_compaction-Job, tables-append}

other_none : (e : Entry) (o : Option Entry) → (some e ≡ none) ⊎ (o ≡ none) → o ≡ none
other_none e o (inl h) = absurd cc
other_none e o (inr h) = h

-- An entry that is left out of the merge is read as nothing.
left_out :
    (d : Bool) (e : Entry) (r : Option Entry)
    → (d ≡ true → (some e ≡ none) ⊎ (r ≡ none))
    → value_of (some e) ≡ value_of (or_else (visible d (some e)) r)
unfolding visible
left_out false e r h = refl
left_out true (value v) r h = refl
left_out true tombstone r h = rw (other_none tombstone r (h refl)) refl

-- What the parts hold: victims and others, what overlaps and what lies beside, and the levels below.
merged_read :
    (d : Bool) (x k o l r : Option Entry)
    → (x ≡ none) ⊎ (k ≡ none)
    → (x ≡ none) ⊎ (l ≡ none)
    → (o ≡ none) ⊎ (l ≡ none)
    → (d ≡ true → (or_else x o ≡ none) ⊎ (r ≡ none))
    → value_of (or_else (or_else x k) (or_else (or_else o l) r))
      ≡ value_of (or_else k (or_else (or_else l (visible d (or_else x o))) r))
unfolding visible
merged_read d none k none none r xk xl ol dr = refl
merged_read d none k none (some l) r xk xl ol dr = refl
merged_read d none k (some e) (some l) r xk xl ol dr =
    absurd (ground (arith, other_none e (some l) ol))
merged_read d none none (some e) none r xk xl ol dr = left_out d e r dr
merged_read d none (some y) (some e) none r xk xl ol dr = refl
merged_read d (some e) k o l r xk xl ol dr =
    rw (other_none e k xk, other_none e l xl) (left_out d e r dr)

-- A first part that is the same on both sides.
behind :
    (u a b : Option Entry)
    → value_of a ≡ value_of b
    → value_of (or_else u a) ≡ value_of (or_else u b)
behind none a b h = h
behind (some e) a b h = refl

module _ (key : Bytes) (h : Holding) where
  -- What is known of a key where a job stands.
  pub record Sound (drop_tombstones : Bool) (version : Version) (job : CompactionJob)
      (j : Job version job) : Type 0 where
    pub victims_others : (first h j.victims ≡ none) ⊎ (first h j.others ≡ none)
    pub victims_range : (first h j.victims ≡ none) ⊎ Within key h j.small j.large
    pub below_ranged : All (Ranged key h) j.below
    pub below_one : AtMostOne h j.below
    pub dropped :
        drop_tombstones ≡ true
        → (first h job.inputs ≡ none) ⊎ (first h (tables_newest_first j.lower) ≡ none)

  victims_apart :
      (x : Option Entry) (small large : Bytes) (below : Level)
      → All (Ranged key h) below
      → (x ≡ none) ⊎ Within key h small large
      → (x ≡ none) ⊎ (first h (apart small large below) ≡ none)
  victims_apart x small large below r (inl nothing) = inl nothing
  victims_apart x small large below r (inr w) = inr (apart-Within key h small large below r w)

  first-job :
      (upper : Version) (u b : Level) (lower : Version)
      → first h (tables_newest_first (upper ++ u ∷ b ∷ lower))
        ≡ or_else
            (first h (tables_newest_first upper))
            (or_else (first h u) (or_else (first h b) (first h (tables_newest_first lower))))
  unfolding tables_newest_first
  first-job upper u b lower =
      ap (first h) (tables-append upper (u ∷ b ∷ lower))
      ∙ (first-append h (tables_newest_first upper) (u ++ (b ++ tables_newest_first lower))
          ∙ rw
              (
                first-append h u (b ++ tables_newest_first lower),
                first-append h b (tables_newest_first lower),
              )
              refl)

  AtMostOne-snoc :
      (level : Level) (t : SsTable)
      → AtMostOne h level
      → (first h level ≡ none) ⊎ (h t ≡ none)
      → AtMostOne h (level ++ t ∷ [])
  unfolding first
  AtMostOne-snoc [] t many one = (inr refl, tt)
  AtMostOne-snoc (u ∷ level) t (a, many) one =
      (ground (arith, first-append h level (t ∷ [])), AtMostOne-snoc level t many (ground arith))

  output_apart :
      (d : Bool) (x o l : Option Entry)
      → (x ≡ none) ⊎ (l ≡ none)
      → (o ≡ none) ⊎ (l ≡ none)
      → (l ≡ none) ⊎ (visible d (or_else x o) ≡ none)
  unfolding visible
  output_apart d x o l (inr nothing) ol = inl nothing
  output_apart d x o l (inl nothing) (inr nothing') = inl nothing'
  output_apart d x o l (inl nothing) (inl nothing') = inr (rw (nothing, nothing') refl)

  -- The value that is read for the key is the same after the compaction, if the output has what the
  -- merge leaves of the inputs.
  pub value_of-apply_compaction :
      (drop_tombstones : Bool) (version : Version) (job : CompactionJob) (output : SsTable)
      → (j : Job version job) → AllDistinct (tables_newest_first version)
      → Sound drop_tombstones version job j
      → h output ≡ visible drop_tombstones (first h job.inputs)
      → value_of (first h (tables_newest_first (apply_compaction job output version)))
        ≡ value_of (first h (tables_newest_first version))
  value_of-apply_compaction d version job output j distinct s merged =
      ap (λ v. value_of (first h (tables_newest_first v)))
        (apply_compaction-Job version job output j distinct)
      ∙ (ap value_of after
          ∙ (sym (behind u _ _ (merged_read d x k o l r s.victims_others xl ol dropped'))
              ∙ ap value_of (sym before)))
    where
      x : Option Entry
      x = first h j.victims

      k : Option Entry
      k = first h j.others

      o : Option Entry
      o = first h (overlapping j.small j.large j.below)

      l : Option Entry
      l = first h (apart j.small j.large j.below)

      r : Option Entry
      r = first h (tables_newest_first j.lower)

      u : Option Entry
      u = first h (tables_newest_first j.upper)

      split :
          (first h j.below ≡ or_else o l)
          × AtMostOne h (apart j.small j.large j.below)
          × ((o ≡ none) ⊎ (l ≡ none))
      split = first-apart h j.small j.large j.below s.below_one

      xl : (x ≡ none) ⊎ (l ≡ none)
      xl = victims_apart x j.small j.large j.below s.below_ranged s.victims_range

      ol : (o ≡ none) ⊎ (l ≡ none)
      ol = split.2

      inputs : first h job.inputs ≡ or_else x o
      inputs =
          ap (first h) j.inputs ∙ first-append h j.victims (overlapping j.small j.large j.below)

      dropped' : d ≡ true → (or_else x o ≡ none) ⊎ (r ≡ none)
      dropped' e = subst (λ i. (i ≡ none) ⊎ (r ≡ none)) inputs (s.dropped e)

      out : h output ≡ visible d (or_else x o)
      out = merged ∙ ap (visible d) inputs

      before :
          first h (tables_newest_first version)
          ≡ or_else u (or_else (or_else x k) (or_else (or_else o l) r))
      before =
          ap (λ v. first h (tables_newest_first v)) j.place
          ∙ (first-job j.upper (j.victims ++ j.others) j.below j.lower
              ∙ rw (first-append h j.victims j.others, split.0) refl)

      sorted :
          first h (sort_level (apart j.small j.large j.below ++ output ∷ []))
          ≡ or_else l (visible d (or_else x o))
      sorted =
          (first-sort_level h (apart j.small j.large j.below ++ output ∷ []) (
            AtMostOne-snoc (apart j.small j.large j.below) output split.1
              (subst (λ v. (l ≡ none) ⊎ (v ≡ none)) (sym out) (output_apart d x o l xl ol)))).0
          ∙ (first-append h (apart j.small j.large j.below) (output ∷ [])
              ∙ ap (or_else l) (only ∙ out))
        where
          or_none : (o : Option Entry) → or_else o none ≡ o
          or_none none = refl
          or_none (some e) = refl

          only : first h (output ∷ []) ≡ h output
          only = unfold first in or_none (h output)

      after :
          first h (tables_newest_first (compacted version job j output))
          ≡ or_else u (or_else k (or_else (or_else l (visible d (or_else x o))) r))
      after =
          first-job j.upper j.others (sort_level (apart j.small j.large j.below ++ output ∷ []))
            j.lower
          ∙ rw sorted refl
