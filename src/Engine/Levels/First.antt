-- ===== src/Engine/Levels/First.antt =====
-- What the first table of a list that holds a key has for it; `h` says what each table has.
use lsm_storage_engine.Common.{
  ◌≡◌, refl, ap, ◌∙◌, arith, Option, none, List, [], ◌∷◌, ◌++◌, ◌⊎◌, inl, inr, if◌then◌else◌,
  Bool-cases,
}
use lsm_storage_engine.Common.Bytes.{Bytes, le_bytes}
use lsm_storage_engine.Common.SortedMap.Append.{or_else}
use lsm_storage_engine.MemTable.{Entry}
use lsm_storage_engine.SsTable.Create.{SsTable}
use lsm_storage_engine.Engine.Version.{insert_table, sort_level, overlaps, overlapping}

abbrev pub Holding : Type 0
Holding = SsTable → Option Entry

-- The tables of a level that do not overlap a range.
abbrev pub apart : Bytes → Bytes → List SsTable → List SsTable
apart small large [] = []
apart small large (t ∷ level) =
    let rest = apart small large level in if overlaps t small large then rest else t ∷ rest

module _ (h : Holding) where
  unfoldable pub first : List SsTable → Option Entry
  first [] = none
  first (t ∷ tables) = or_else (h t) (first tables)

  -- At most one of the tables has the key.
  abbrev pub AtMostOne : List SsTable → Type 0
  AtMostOne [] = Unit
  AtMostOne (t ∷ tables) = ((h t ≡ none) ⊎ (first tables ≡ none)) × AtMostOne tables

  pub first-append : (xs ys : List SsTable) → first (xs ++ ys) ≡ or_else (first xs) (first ys)
  unfolding first
  first-append [] ys = refl
  first-append (x ∷ xs) ys = ground (arith, first-append xs ys)

  -- The order does not matter where at most one has the key.
  first-insert_table :
      (t : SsTable) (level : List SsTable)
      → (h t ≡ none) ⊎ (first level ≡ none)
      → AtMostOne level
      → (first (insert_table t level) ≡ or_else (h t) (first level))
        × AtMostOne (insert_table t level)
  unfolding first insert_table
  first-insert_table t [] one many = (refl, (inr refl, tt))
  first-insert_table t (u ∷ level) one (a, many) =
      elim (Bool-cases (le_bytes t.smallest u.smallest)) [
        | inl before ↦ rw before (refl, (one, (a, many)))
        | inr behind ↦
            (let (same, many') = first-insert_table t level (ground arith) many in
              rw behind (ground (arith, same), (ground (arith, same), many')))
      ]

  pub first-sort_level :
      (level : List SsTable)
      → AtMostOne level
      → (first (sort_level level) ≡ first level) × AtMostOne (sort_level level)
  unfolding first sort_level
  first-sort_level [] many = (refl, tt)
  first-sort_level (t ∷ level) (a, many) =
      let (same, many') = first-sort_level level many in
      let (same', many'') = first-insert_table t (sort_level level) (ground arith) many' in
      (same' ∙ ap (λ o. or_else (h t) o) same, many'')

  pub first-apart :
      (small large : Bytes) (level : List SsTable)
      → AtMostOne level
      → (first level
          ≡ or_else (first (overlapping small large level)) (first (apart small large level)))
        × AtMostOne (apart small large level)
        × ((first (overlapping small large level) ≡ none)
            ⊎ (first (apart small large level) ≡ none))
  unfolding first overlapping
  first-apart small large [] many = (refl, tt, inl refl)
  first-apart small large (t ∷ level) (a, many) =
      let (split, many', one) = first-apart small large level many in
      elim (Bool-cases (overlaps t small large)) [
        | inl over ↦ rw over (ground (arith, split), many', ground (arith, split))
        | inr beside ↦
            rw beside (ground (arith, split), (ground (arith, split), many'), ground (arith, split))
      ]
