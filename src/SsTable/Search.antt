-- ===== src/SsTable/Search.antt =====
-- The binary search of a block finds what the entries hold.
use lsm_storage_engine.Common.{
  ℕ, zero, suc, ◌+◌, ◌-◌, ◌/◌, ◌≤◌, ◌<◌, ◌≡◌, ◌≢◌, refl, sym, arith, Option, none, some, [], ◌∷◌,
  Ordering, length, get_elem?,
}
use mathlib.Core.Path.{subst}
use lsm_storage_engine.Common.Bytes.{
  Bytes, ◌≺◌, cmp_refl, eq_of_cmp, gt_of_lt, Cmp, Cmp-cases, less, same, more,
}
use lsm_storage_engine.Common.SortedMap.{lookup, Above, IsSorted}
use lsm_storage_engine.MemTable.{Entry}
use lsm_storage_engine.SsTable.Format.{Entries}
use lsm_storage_engine.SsTable.Read.{binary_search, compare_entry, search_block}

module _ (c : ℕ → Ordering) where
  -- With rising answers the search finds the one place that answers `eq`.
  pub binary_search_found :
      (fuel left right i : ℕ)
      → left ≤ i
      → i < right
      → right ≤ left + fuel
      → c i ≡ Ordering.eq
      → ((j : ℕ) → j < i → c j ≡ Ordering.lt)
      → ((j : ℕ) → i < j → c j ≡ Ordering.gt)
      → binary_search fuel left right c ≡ some i
  unfolding binary_search
  binary_search_found zero left right i hl hr hf e below above = absurd (omega arith)
  binary_search_found (suc fuel) left right i hl hr hf e below above =
      let mid : ℕ = left + (right - left) / 2 in
      ground (
        arith,
        below mid,
        above mid,
        binary_search_found fuel (mid + 1) right i,
        binary_search_found fuel left mid i,
      )

  pub binary_search-none :
      (fuel left right : ℕ) → ((j : ℕ) → c j ≢ Ordering.eq) → binary_search fuel left right c ≡ none
  unfolding binary_search
  binary_search-none zero left right h = refl
  binary_search-none (suc fuel) left right h =
      let mid : ℕ = left + (right - left) / 2 in
      ground (
        arith,
        h mid,
        binary_search-none fuel (mid + 1) right h,
        binary_search-none fuel left mid h,
      )

lookup-Above_lt : (a k : Bytes) (m : Entries) (e : Entry) → Above a m → lookup k m ≡ some e → a ≺ k
unfolding lookup
lookup-Above_lt a k [] e r h = cc
lookup-Above_lt a k ((j, f) ∷ m) e (hj, r) h =
    ground (arith, eq_of_cmp k j, lookup-Above_lt a k m e r)

compare-Above :
    (k : Bytes) (m : Entries) (j : ℕ) → Above k m → compare_entry k (get_elem? m j) ≡ Ordering.gt
compare-Above k [] j r = refl
compare-Above k ((i, f) ∷ m) zero (hi, r) = gt_of_lt k i hi
compare-Above k ((i, f) ∷ m) (suc j) (hi, r) = compare-Above k m j r

-- The place of a key.
record Place (key : Bytes) (entry : Entry) (block : Entries) : Type 0 where
  at : ℕ
  inside : at < length block
  here : get_elem? block at ≡ some (key, entry)
  below : (j : ℕ) → j < at → compare_entry key (get_elem? block j) ≡ Ordering.lt
  above : (j : ℕ) → at < j → compare_entry key (get_elem? block j) ≡ Ordering.gt

-- The place moves by one behind another entry.
place_later :
    (key k : Bytes) (entry e : Entry) (block : Entries)
    → Above k block
    → lookup key block ≡ some entry
    → Place key entry block
    → Place key entry ((k, e) ∷ block)
place_later key k entry e block r found p = record {
  at = suc p.at;
  inside = omega (arith, p.inside);
  here = p.here;
  below = under;
  above = over;
}
  where
    under : (j : ℕ) → j < suc p.at → compare_entry key (get_elem? ((k, e) ∷ block) j) ≡ Ordering.lt
    under zero hj = lookup-Above_lt k key block entry r found
    under (suc j) hj = p.below j (omega arith)

    over : (j : ℕ) → suc p.at < j → compare_entry key (get_elem? ((k, e) ∷ block) j) ≡ Ordering.gt
    over zero hj = absurd (omega arith)
    over (suc j) hj = p.above j (omega arith)

place_here :
    (key : Bytes) (entry : Entry) (block : Entries)
    → Above key block
    → Place key entry ((key, entry) ∷ block)
place_here key entry block r = record {
  at = 0;
  inside = omega arith;
  here = refl;
  below = λ j hj. absurd (omega arith);
  above = over;
}
  where
    over : (j : ℕ) → 0 < j → compare_entry key (get_elem? ((key, entry) ∷ block) j) ≡ Ordering.gt
    over zero hj = absurd (omega arith)
    over (suc j) hj = compare-Above key block j r

step :
    (key k : Bytes) (entry e : Entry) (block : Entries)
    → Above k block
    → lookup key ((k, e) ∷ block) ≡ some entry
    → (lookup key block ≡ some entry → Place key entry block)
    → Cmp key k
    → Place key entry ((k, e) ∷ block)
unfolding lookup
step key k entry e block r h rest (less l) =
    let found : lookup key block ≡ some entry = ground arith in
    place_later key k entry e block r found (rest found)
step key k entry e block r h rest (more l) =
    let found : lookup key block ≡ some entry = ground (arith, gt_of_lt k key l) in
    place_later key k entry e block r found (rest found)
step key k entry e block r h rest (same eq) =
    let held : e ≡ entry = ground (arith, cmp_refl key) in
    subst (λ a. Place key entry ((a, e) ∷ block)) eq
      (subst (λ b. Place key entry ((key, b) ∷ block)) (sym held)
        (place_here key entry block (rw eq r)))

place_of :
    (key : Bytes) (entry : Entry) (block : Entries)
    → IsSorted block
    → lookup key block ≡ some entry
    → Place key entry block
unfolding lookup
place_of key entry [] s h = absurd cc
place_of key entry ((k, e) ∷ block) (r, s) h =
    step key k entry e block r h (λ found. place_of key entry block s found) (Cmp-cases key k)

lookup_absent :
    (key : Bytes) (block : Entries) (j : ℕ)
    → lookup key block ≡ none
    → compare_entry key (get_elem? block j) ≢ Ordering.eq
unfolding lookup
lookup_absent key [] j h = λ gt_eq. cc
lookup_absent key ((k, e) ∷ block) zero h =
    λ same_key. ground (arith, eq_of_cmp k key same_key, cmp_refl key)
lookup_absent key ((k, e) ∷ block) (suc j) h = lookup_absent key block j (ground arith)

-- In a block whose keys rise, the binary search finds the entry of a key if and only if the block
-- holds one.
pub search_block-lookup :
    (block : Entries) (key : Bytes) → IsSorted block → search_block block key ≡ lookup key block
unfolding search_block
search_block-lookup block key s = go (lookup key block) refl
  where
    c : ℕ → Ordering
    c i = compare_entry key (get_elem? block i)

    n : ℕ
    n = length block

    go : (o : Option Entry) → lookup key block ≡ o → search_block block key ≡ o
    go none absent =
        rw (binary_search-none c n 0 n (λ j. lookup_absent key block j absent), search_block) refl
    go (some entry) found =
        let p : Place key entry block = place_of key entry block s found in
        rw
          (
            binary_search_found c n 0 n p.at (omega arith) p.inside (omega arith)
                (rw p.here (cmp_refl key)) p.below p.above,
            search_block,
          )
          (rw p.here refl)
