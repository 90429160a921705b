-- ===== src/SsTable/Rows.antt =====
-- The rows of an index whose blocks are sorted: the search finds the one row whose block holds a key.
use lsm_storage_engine.Common.{
  ℕ, zero, suc, ◌<◌, ◌≡◌, ◌≢◌, refl, arith, some, List, [], ◌∷◌, ◌++◌, Ordering, length, get_elem?,
  Option-cases, inl, inr,
}
use lsm_storage_engine.Common.Bytes.{Bytes, cmp, ◌≺◌, cmp_refl, eq_of_cmp, gt_of_lt}
use lsm_storage_engine.Common.SortedMap.{lookup, Above, IsSorted}
use lsm_storage_engine.Common.SortedMap.Append.{
  lookup-append, lookup-Above_lt, Above-right, IsSorted-left, IsSorted-right, Above-lookup,
}
use lsm_storage_engine.MemTable.{Entry}
use lsm_storage_engine.SsTable.Format.{Entries, IndexEntry}
use lsm_storage_engine.SsTable.Create.{last_key}
use lsm_storage_engine.SsTable.Read.{compare_row}
use lsm_storage_engine.SsTable.Iterate.{flat}

-- A row names the first and the last key of its block, which is not empty.
abbrev pub RowMatches : IndexEntry → Entries → Type 0
RowMatches row [] = ⊥
RowMatches row ((k, e) ∷ block) = (row.first_key ≡ k) × (row.last_key ≡ last_key ((k, e) ∷ block))

abbrev pub RowsMatch : List IndexEntry → List Entries → Type 0
RowsMatch [] [] = Unit
RowsMatch (row ∷ index) (block ∷ blocks) = RowMatches row block × RowsMatch index blocks
RowsMatch _ _ = ⊥

last-lt :
    (key : Bytes) (k : Bytes) (e : Entry) (block rest : Entries) (v : Entry)
    → IsSorted ((k, e) ∷ (block ++ rest))
    → lookup key rest ≡ some v
    → last_key ((k, e) ∷ block) ≺ key
last-lt key k e [] rest v (r, s) h = lookup-Above_lt k key rest v r h
last-lt key k e ((j, f) ∷ block) rest v (r, s) h = last-lt key j f block rest v s h

Above-last :
    (a j : Bytes) (f : Entry) (block : Entries)
    → Above a ((j, f) ∷ block)
    → a ≺ last_key ((j, f) ∷ block)
Above-last a j f [] (h, r) = h
Above-last a j f ((i, g) ∷ block) (h, r) = Above-last a i g block r

-- A key of a block lies between its first and its last.
pub lookup-le_last :
    (key k : Bytes) (e : Entry) (block : Entries) (v : Entry)
    → IsSorted ((k, e) ∷ block)
    → lookup key ((k, e) ∷ block) ≡ some v
    → cmp (last_key ((k, e) ∷ block)) key ≢ Ordering.lt
unfolding lookup
lookup-le_last key k e [] v (r, s) h = ground (arith, eq_of_cmp key k, cmp_refl k)
lookup-le_last key k e ((j, f) ∷ block) v (r, s) h = ground (
  arith,
  eq_of_cmp key k,
  gt_of_lt k (last_key ((j, f) ∷ block)) (Above-last k j f block r),
  lookup-le_last key j f block v s,
)

pub lookup-ge_first :
    (key k : Bytes) (e : Entry) (block : Entries) (v : Entry)
    → IsSorted ((k, e) ∷ block)
    → lookup key ((k, e) ∷ block) ≡ some v
    → cmp key k ≢ Ordering.lt
unfolding lookup
lookup-ge_first key k e block v (r, s) h =
    ground (arith, lookup-Above_lt k key block v r, gt_of_lt k key)

-- The row of a block compares as equal to the keys of the block, as smaller than the keys behind it,
-- and as greater than the keys before it.
row-eq :
    (key : Bytes) (row : IndexEntry) (block : Entries) (v : Entry)
    → RowMatches row block
    → IsSorted block
    → lookup key block ≡ some v
    → compare_row key (some row) ≡ Ordering.eq
row-eq key row [] v m s h = absurd m
row-eq key row ((k, e) ∷ block) v (mf, ml) s h =
    rw (mf, ml)
      (ground (arith, lookup-ge_first key k e block v s, lookup-le_last key k e block v s))

row-lt :
    (key : Bytes) (row : IndexEntry) (block rest : Entries) (v : Entry)
    → RowMatches row block
    → IsSorted (block ++ rest)
    → lookup key rest ≡ some v
    → compare_row key (some row) ≡ Ordering.lt
row-lt key row [] rest v m s h = absurd m
row-lt key row ((k, e) ∷ block) rest v (mf, ml) (r, s) h =
    rw (mf, ml)
      (ground (
        arith,
        last-lt key k e block rest v (r, s),
        gt_of_lt k key,
        lookup-Above_lt k key rest v (Above-right k block rest r),
      ))

rows-gt :
    (key : Bytes) (index : List IndexEntry) (blocks : List Entries) (j : ℕ)
    → RowsMatch index blocks
    → Above key (flat blocks)
    → compare_row key (get_elem? index j) ≡ Ordering.gt
rows-gt key [] [] j m r = refl
rows-gt key [] (b ∷ blocks) j m r = absurd m
rows-gt key (row ∷ index) [] j m r = absurd m
rows-gt key (row ∷ index) ([] ∷ blocks) j (m, ms) r = absurd m
rows-gt key (row ∷ index) (((k, e) ∷ block) ∷ blocks) zero ((mf, ml), ms) (h, r) = ground arith
rows-gt key (row ∷ index) (((k, e) ∷ block) ∷ blocks) (suc j) (m, ms) (h, r) =
    rows-gt key index blocks j ms (Above-right key block (flat blocks) r)

-- The place of the row whose block holds a key.
pub record RowPlace (key : Bytes) (entry : Entry) (index : List IndexEntry) (blocks : List Entries)
    : Type 0 where
  pub at : ℕ
  pub block : Entries
  pub held : get_elem? blocks at ≡ some block
  pub found : lookup key block ≡ some entry
  pub inside : at < length index
  pub equal : compare_row key (get_elem? index at) ≡ Ordering.eq
  pub below : (j : ℕ) → j < at → compare_row key (get_elem? index j) ≡ Ordering.lt
  pub above : (j : ℕ) → at < j → compare_row key (get_elem? index j) ≡ Ordering.gt

place_first :
    (key : Bytes) (entry : Entry) (row : IndexEntry) (index : List IndexEntry) (block : Entries)
    (blocks : List Entries)
    → RowMatches row block
    → RowsMatch index blocks
    → IsSorted (block ++ flat blocks)
    → lookup key block ≡ some entry
    → RowPlace key entry (row ∷ index) (block ∷ blocks)
place_first key entry row index block blocks m ms s h = record {
  at = 0;
  block = block;
  held = refl;
  found = h;
  inside = omega arith;
  equal = row-eq key row block entry m (IsSorted-left block (flat blocks) s) h;
  below = λ j hj. absurd (omega arith);
  above = over;
}
  where
    over : (j : ℕ) → 0 < j → compare_row key (get_elem? (row ∷ index) j) ≡ Ordering.gt
    over zero hj = absurd (omega arith)
    over (suc j) hj = rows-gt key index blocks j ms (Above-lookup key block (flat blocks) entry s h)

place_next :
    (key : Bytes) (entry : Entry) (row : IndexEntry) (index : List IndexEntry) (block : Entries)
    (blocks : List Entries)
    → RowMatches row block
    → IsSorted (block ++ flat blocks)
    → lookup key (flat blocks) ≡ some entry
    → RowPlace key entry index blocks
    → RowPlace key entry (row ∷ index) (block ∷ blocks)
place_next key entry row index block blocks m s h p = record {
  at = suc p.at;
  block = p.block;
  held = p.held;
  found = p.found;
  inside = omega (arith, p.inside);
  equal = p.equal;
  below = under;
  above = over;
}
  where
    under : (j : ℕ) → j < suc p.at → compare_row key (get_elem? (row ∷ index) j) ≡ Ordering.lt
    under zero hj = row-lt key row block (flat blocks) entry m s h
    under (suc j) hj = p.below j (omega arith)

    over : (j : ℕ) → suc p.at < j → compare_row key (get_elem? (row ∷ index) j) ≡ Ordering.gt
    over zero hj = absurd (omega arith)
    over (suc j) hj = p.above j (omega arith)

pub row_place :
    (key : Bytes) (entry : Entry) (index : List IndexEntry) (blocks : List Entries)
    → RowsMatch index blocks
    → IsSorted (flat blocks)
    → lookup key (flat blocks) ≡ some entry
    → RowPlace key entry index blocks
row_place key entry [] [] m s h = unfold lookup in absurd cc
row_place key entry [] (b ∷ blocks) m s h = absurd m
row_place key entry (row ∷ index) [] m s h = absurd m
row_place key entry (row ∷ index) (block ∷ blocks) (m, ms) s h =
    elim (Option-cases (lookup key block)) [
      | inl absent ↦
          (let later : lookup key (flat blocks) ≡ some entry =
              ground (arith, lookup-append key block (flat blocks)) in
            place_next key entry row index block blocks m s later
              (row_place key entry index blocks ms (IsSorted-right block (flat blocks) s) later))
      | inr (v, found) ↦
          (let same : lookup key block ≡ some entry =
              ground (arith, lookup-append key block (flat blocks)) in
            place_first key entry row index block blocks m ms s same)
    ]
