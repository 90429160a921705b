-- ===== src/Engine/Levels/Overlap.antt =====
-- Ranges of tables: two tables that have a key overlap, and `span` covers the ranges of its tables.
use lsm_storage_engine.Common.{
  ◌<◌, ◌≡◌, refl, arith, true, none, List, [], ◌∷◌, ◌⊎◌, inl, inr, if◌then◌else◌, Bool-cases, All,
  length,
}
use lsm_storage_engine.Common.Bytes.{
  Bytes, lt_bytes, le_bytes, cmp-lt_trans, cmp_refl, gt_of_lt, eq_of_cmp, lt_of_gt,
}
use lsm_storage_engine.SsTable.Create.{SsTable}
use lsm_storage_engine.Engine.Version.{overlaps, span, span_loop}
use lsm_storage_engine.Engine.Levels.First.{Holding, first, apart}

pub le_trans : (a b c : Bytes) → le_bytes a b ≡ true → le_bytes b c ≡ true → le_bytes a c ≡ true
le_trans a b c h k = ground (
  arith,
  cmp-lt_trans a b c,
  eq_of_cmp a b,
  eq_of_cmp b c,
  lt_of_gt a c,
  cmp-lt_trans c a b,
  gt_of_lt b c,
  cmp_refl b,
)

-- The smaller of two is at most what one of them is at most, and so on for the larger.
smaller_le :
    (a b key : Bytes)
    → (le_bytes a key ≡ true) ⊎ (le_bytes b key ≡ true)
    → le_bytes (if lt_bytes a b then a else b) key ≡ true
smaller_le a b key (inl h) = ground (arith, le_trans b a key, gt_of_lt a b, lt_of_gt b a)
smaller_le a b key (inr h) = ground (arith, le_trans a b key)

larger_ge :
    (a b key : Bytes)
    → (le_bytes key a ≡ true) ⊎ (le_bytes key b ≡ true)
    → le_bytes key (if lt_bytes b a then a else b) ≡ true
larger_ge a b key (inl h) = ground (arith, le_trans key a b, gt_of_lt b a, lt_of_gt a b)
larger_ge a b key (inr h) = ground (arith, le_trans key b a)

module _ (key : Bytes) (h : Holding) where
  -- The key lies in the range.
  abbrev pub Within : Bytes → Bytes → Type 0
  Within small large = (le_bytes small key ≡ true) × (le_bytes key large ≡ true)

  -- A table that has the key has it in its range, which does not begin with the empty key.
  abbrev pub Ranged : SsTable → Type 0
  Ranged t = (h t ≡ none) ⊎ ((0 < length t.smallest) × Within t.smallest t.largest)

  -- A table with the key overlaps every range that the key lies in.
  pub overlaps-Within :
      (t : SsTable) (small large : Bytes)
      → 0 < length t.smallest
      → Within t.smallest t.largest
      → Within small large
      → overlaps t small large ≡ true
  unfolding overlaps
  overlaps-Within t small large n (a, b) (c, d) =
      ground (arith, le_trans t.smallest key large a d, le_trans small key t.largest c b)

  -- Tables beside a range do not have a key in it.
  pub apart-Within :
      (small large : Bytes) (level : List SsTable)
      → All Ranged level
      → Within small large
      → first h (apart small large level) ≡ none
  unfolding first
  apart-Within small large [] r w = refl
  apart-Within small large (t ∷ level) (inl nothing, rs) w =
      elim (Bool-cases (overlaps t small large)) [
        | inl over ↦ rw over (apart-Within small large level rs w)
        | inr beside ↦ rw (beside, nothing) (apart-Within small large level rs w)
      ]
  apart-Within small large (t ∷ level) (inr (n, r), rs) w =
      rw (overlaps-Within t small large n r w) (apart-Within small large level rs w)

  -- The span of tables holds what it held before, and the ranges of the tables.
  span_loop-Within :
      (tables : List SsTable) (small large : Bytes)
      → Within small large
      → Within (span_loop tables (small, large)).0 (span_loop tables (small, large)).1
  unfolding span_loop
  span_loop-Within [] small large w = w
  span_loop-Within (t ∷ tables) small large (a, b) =
      span_loop-Within tables (if lt_bytes t.smallest small then t.smallest else small)
        (if lt_bytes large t.largest then t.largest else large)
        (smaller_le t.smallest small key (inr a), larger_ge t.largest large key (inr b))

  span_loop_member :
      (tables : List SsTable) (small large : Bytes)
      → All Ranged tables
      → (first h tables ≡ none)
        ⊎ Within (span_loop tables (small, large)).0 (span_loop tables (small, large)).1
  unfolding span_loop first
  span_loop_member [] small large r = inl refl
  span_loop_member (t ∷ tables) small large (inl nothing, rs) =
      rw nothing (span_loop_member tables _ _ rs)
  span_loop_member (t ∷ tables) small large (inr (n, (a, b)), rs) = inr (
      span_loop-Within tables (if lt_bytes t.smallest small then t.smallest else small)
        (if lt_bytes large t.largest then t.largest else large)
        (smaller_le t.smallest small key (inl a), larger_ge t.largest large key (inl b)))

  -- A key that one of the tables has lies in their span.
  pub span_member :
      (tables : List SsTable)
      → All Ranged tables
      → (first h tables ≡ none) ⊎ Within (span tables).0 (span tables).1
  unfolding span first
  span_member [] r = inl refl
  span_member (t ∷ tables) (inl nothing, rs) =
      rw nothing (span_loop_member tables t.smallest t.largest rs)
  span_member (t ∷ tables) (inr (n, w), rs) = inr (span_loop-Within tables t.smallest t.largest w)
