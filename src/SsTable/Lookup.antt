-- ===== src/SsTable/Lookup.antt =====
-- A point read of a table is a lookup in its entries, with and without the cache.
use lsm_storage_engine.Common.{
  ℕ, zero, suc, ◌≡◌, refl, sym, ap, ◌∙◌, arith, Bool, true, false, not, Option, none, some, List,
  [], ◌∷◌, length, get_elem?, Option-cases, inl, inr, if◌then◌else◌,
}
use mathlib.Core.Path.{subst}
use lsm_storage_engine.Common.Bytes.{Bytes, le_bytes, lt_of_gt}
use lsm_storage_engine.Common.SortedMap.{lookup, IsSorted}
use lsm_storage_engine.Common.SortedMap.Append.{lookup-append, IsSorted-left, IsSorted-right}
use lsm_storage_engine.Error.{Result, ok, err}
use lsm_storage_engine.MemTable.{Entry}
use lsm_storage_engine.Files.{Files}
use lsm_storage_engine.Bloom.{might_contain}
use lsm_storage_engine.Cache.{BlockCache}
use lsm_storage_engine.SsTable.Format.{Entries, IndexEntry}
use lsm_storage_engine.SsTable.Create.{SsTable, first_key, last_key}
use lsm_storage_engine.SsTable.Read.{
  compare_row, search_block, block_for_key, contains_range, read_data_block, block_key, load_block,
  search_loaded, row_of, get,
}
use lsm_storage_engine.SsTable.Search.{binary_search_found, search_block-lookup}
use lsm_storage_engine.SsTable.Iterate.{RowsRead, flat}
use lsm_storage_engine.SsTable.Rows.{
  RowsMatch, RowPlace, row_place, lookup-le_last, lookup-ge_first,
}
use lsm_storage_engine.SsTable.World.{
  World, RowsKnown, Shape, full, hollow, IsTable, CoherentOption, Loaded, load_block-Loaded,
}

-- What is known of the row at a place.
record RowAt (W : World) (files : Files) (t : SsTable) (row : IndexEntry) (blocks : List Entries)
    (i : ℕ) : Type 0 where
  block : Entries
  held : get_elem? blocks i ≡ some block
  read : read_data_block t.path row.offset row.length files ≡ ok block
  known : W (block_key t row) ≡ some block
  sorted : IsSorted block
  within : (key : Bytes) → lookup key (flat blocks) ≡ none → lookup key block ≡ none

row_at :
    (W : World) (files : Files) (t : SsTable) (index : List IndexEntry) (blocks : List Entries)
    (i : ℕ) (row : IndexEntry)
    → RowsRead files t.path index blocks
    → RowsKnown W t index blocks
    → IsSorted (flat blocks)
    → get_elem? index i ≡ some row
    → RowAt W files t row blocks i
row_at W files t [] [] i row r k s h = absurd cc
row_at W files t [] (b ∷ blocks) i row r k s h = absurd r
row_at W files t (x ∷ index) [] i row r k s h = absurd r
row_at W files t (x ∷ index) (block ∷ blocks) zero row (r, rs) (k, ks) s h = record {
  block = block;
  held = refl;
  read = ground arith;
  known = ground arith;
  sorted = IsSorted-left block (flat blocks) s;
  within = λ key absent. ground (arith, lookup-append key block (flat blocks));
}
row_at W files t (x ∷ index) (block ∷ blocks) (suc i) row (r, rs) (k, ks) s h =
    let at : RowAt W files t row blocks i =
      row_at W files t index blocks i row rs ks (IsSorted-right block (flat blocks) s) h in
    record {
      block = at.block;
      held = at.held;
      read = at.read;
      known = at.known;
      sorted = at.sorted;
      within = λ key absent. at.within key (ground (arith, lookup-append key block (flat blocks)));
    }

-- The answer of a read, and the cache after it.
pub record Answered (W : World) (r : Result (Option Entry) × Option BlockCache)
    (answer : Option Entry) : Type 0 where
  pub result : r.0 ≡ ok answer
  pub coherent : CoherentOption W r.1

search_loaded-Answered :
    (W : World) (key : Bytes) (r : Result Entries × Option BlockCache) (block : Entries)
    (answer : Option Entry)
    → Loaded W r block
    → search_block block key ≡ answer
    → Answered W (search_loaded key r) answer
search_loaded-Answered W key (ok b, cache) block answer l e = record {
  result = ground (arith, l.result);
  coherent = l.coherent;
}
search_loaded-Answered W key (err x, cache) block answer l e = absurd (ground (arith, l.result))

-- A key that the entries hold lies in the table's range.
pub in_range :
    (key : Bytes) (e : Entry) (entries : Entries)
    → IsSorted entries
    → lookup key entries ≡ some e
    → (le_bytes (first_key entries) key ≡ true) × (le_bytes key (last_key entries) ≡ true)
in_range key e [] s h = unfold lookup in absurd cc
in_range key e ((k, f) ∷ entries) s h = (
  ground (arith, lookup-ge_first key k f entries e s h, lt_of_gt k key),
  ground (arith, lookup-le_last key k f entries e s h, lt_of_gt key (last_key ((k, f) ∷ entries))),
)

block_for_key_found :
    (key : Bytes) (e : Entry) (t : SsTable) (blocks : List Entries)
    (p : RowPlace key e t.index blocks)
    → block_for_key key t ≡ some p.at
unfolding block_for_key
block_for_key_found key e t blocks p =
    binary_search_found (λ i. compare_row key (get_elem? t.index i)) (length t.index) 0
      (length t.index) p.at (omega arith) p.inside (omega arith) p.equal p.below p.above

-- What the search of the index finds, against the entries.
record Search (key : Bytes) (t : SsTable) (blocks : List Entries) (o : Option IndexEntry)
    : Type 0 where
  missed : o ≡ none → lookup key (flat blocks) ≡ none
  hit :
      (row : IndexEntry)
      → o ≡ some row
      → (i : ℕ) × (get_elem? t.index i ≡ some row)
        × ((block : Entries)
            → get_elem? blocks i ≡ some block
            → (lookup key (flat blocks) ≡ none → lookup key block ≡ none)
            → lookup key block ≡ lookup key (flat blocks))

row_of-some :
    (t : SsTable) (o : Option ℕ) (row : IndexEntry)
    → row_of t o ≡ some row
    → (i : ℕ) × (o ≡ some i) × (get_elem? t.index i ≡ some row)
row_of-some t none row h = absurd cc
row_of-some t (some i) row h = (i, refl, h)

row_of-Search :
    (key : Bytes) (t : SsTable) (blocks : List Entries)
    → RowsMatch t.index blocks
    → IsSorted (flat blocks)
    → Search key t blocks (row_of t (block_for_key key t))
row_of-Search key t blocks m s = go (lookup key (flat blocks)) refl
  where
    go :
        (o : Option Entry)
        → lookup key (flat blocks) ≡ o
        → Search key t blocks (row_of t (block_for_key key t))
    go none absent = record {
      missed = λ e. absent;
      hit = λ row e.
          let (i, at, there) = row_of-some t (block_for_key key t) row e in
          (i, there, λ block held within. within absent ∙ sym absent);
    }
    go (some v) found =
        let p : RowPlace key v t.index blocks = row_place key v t.index blocks m s found in
        let at : block_for_key key t ≡ some p.at = block_for_key_found key v t blocks p in
        record {
          missed = λ e. absurd (ground (arith, p.equal));
          hit = λ row e.
              let (i, at', there) = row_of-some t (block_for_key key t) row e in
              (
                i,
                there,
                λ block held within. ground (arith, p.held, p.found, found, at, at', held),
              );
        }

searched-Answered :
    (W : World) (files : Files) (key : Bytes) (t : SsTable) (blocks : List Entries)
    (cache : Option BlockCache)
    → RowsRead files t.path t.index blocks
    → RowsKnown W t t.index blocks
    → RowsMatch t.index blocks
    → IsSorted (flat blocks)
    → CoherentOption W cache
    → Answered W
        (elim (row_of t (block_for_key key t)) [
          | none ↦ (ok none, cache)
          | some row ↦ search_loaded key (load_block row t files cache)
        ])
        (lookup key (flat blocks))
searched-Answered W files key t blocks cache r k m s c =
    go (row_of t (block_for_key key t)) (row_of-Search key t blocks m s)
  where
    go :
        (o : Option IndexEntry)
        → Search key t blocks o
        → Answered W
            (elim o [
              | none ↦ (ok none, cache)
              | some row ↦ search_loaded key (load_block row t files cache)
            ])
            (lookup key (flat blocks))
    go none search = record { result = ap ok (sym (search.missed refl)); coherent = c }
    go (some row) search =
        let (i, there, agree) = search.hit row refl in
        let at : RowAt W files t row blocks i = row_at W files t t.index blocks i row r k s there in
        search_loaded-Answered W key (load_block row t files cache) at.block
          (lookup key (flat blocks))
          (load_block-Loaded W row t files cache at.block at.read at.known c)
          (search_block-lookup at.block key at.sorted ∙ agree at.block at.held (at.within key))

lookup_of_empty : (key : Bytes) (entries : Entries) → entries ≡ [] → lookup key entries ≡ none
unfolding lookup
lookup_of_empty key entries e = rw e refl

-- The two tests that come before the search.
tested-Answered :
    (W : World) (a b : Bool) (cache : Option BlockCache)
    (rest : Result (Option Entry) × Option BlockCache) (answer : Option Entry)
    → CoherentOption W cache
    → (a ≡ false → answer ≡ none)
    → (b ≡ false → answer ≡ none)
    → (a ≡ true → Answered W rest answer)
    → Answered W
        (if not a then (ok none, cache) else if not b then (ok none, cache) else rest)
        answer
tested-Answered W false b cache rest answer c out absent r = record {
  result = ap ok (sym (out refl));
  coherent = c;
}
tested-Answered W true false cache rest answer c out absent r = record {
  result = ap ok (sym (absent refl));
  coherent = c;
}
tested-Answered W true true cache rest answer c out absent r = r refl

module _ (W : World) (files : Files) (key : Bytes) (t : SsTable) (entries : Entries) where
  pub out_of_range :
      IsTable W files t entries → contains_range key t ≡ false → lookup key entries ≡ none
  unfolding contains_range
  out_of_range v h = elim (Option-cases (lookup key entries)) [
    | inl absent ↦ absent
    | inr (e, found) ↦ absurd (inside v.shape e found (in_range key e entries v.sorted found))
  ]
    where
      inside :
          Shape t v.blocks
          → (e : Entry) → lookup key entries ≡ some e
          → (le_bytes (first_key entries) key ≡ true) × (le_bytes key (last_key entries) ≡ true)
          → ⊥
      inside (full m nonempty) e found (a, b) = ground (arith, v.smallest, v.largest)
      inside (hollow none_held s l one) e found ab =
          absurd (ground (arith, lookup_of_empty key entries (sym v.whole ∙ none_held)))

  pub not_in_filter :
      IsTable W files t entries → might_contain key t.bloom ≡ false → lookup key entries ≡ none
  not_in_filter v absent = elim (Option-cases (lookup key entries)) [
    | inl missing ↦ missing
    | inr (e, found) ↦ absurd (ground (arith, v.complete key e found))
  ]

  -- A read of a table on disk returns what the table's entries hold for the key, with or without
  -- a cache, if the cache holds only what is on disk; and so it is after the read.
  pub get-Answered :
      (cache : Option BlockCache)
      → IsTable W files t entries
      → CoherentOption W cache
      → Answered W (get key t files cache) (lookup key entries)
  unfolding get
  get-Answered cache v c =
      tested-Answered W (contains_range key t) (might_contain key t.bloom) cache _
        (lookup key entries) c (out_of_range v) (not_in_filter v) (λ inside. search v.shape inside)
    where
      search :
          Shape t v.blocks
          → contains_range key t ≡ true
          → Answered W
              (elim (row_of t (block_for_key key t)) [
                | none ↦ (ok none, cache)
                | some row ↦ search_loaded key (load_block row t files cache)
              ])
              (lookup key entries)
      search (full m nonempty) inside =
          subst
            (λ l.
              Answered W
                (elim (row_of t (block_for_key key t)) [
                  | none ↦ (ok none, cache)
                  | some row ↦ search_loaded key (load_block row t files cache)
                ])
                (lookup key l))
            v.whole
            (searched-Answered W files key t v.blocks cache v.read v.known m
              (subst IsSorted (sym v.whole) v.sorted) c)
      search (hollow none_held s l one) inside = absurd (unfold contains_range in ground arith)
