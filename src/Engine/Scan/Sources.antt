-- ===== src/Engine/Scan/Sources.antt =====
-- The sources of a scan (src/engine.rs): the part of a memtable or a table that lies in the range.
use lsm_storage_engine.Common.{
  ℕ, zero, suc, ◌≤◌, ◌<◌, ◌≡◌, refl, sym, arith, Bool, true, false, none, some, List, [], ◌∷◌,
  length, Bool-cases, inl, inr, if◌then◌else◌,
}
use lsm_storage_engine.Common.Bytes.{Bytes, eq_of_cmp}
use lsm_storage_engine.Common.SortedMap.{lookup, Above, IsSorted}
use lsm_storage_engine.Common.SortedMap.Append.{or_else}
use lsm_storage_engine.Error.{Result, ok, ◌>>=◌}
use lsm_storage_engine.Files.{Files}
use lsm_storage_engine.SsTable.Format.{Entries}
use lsm_storage_engine.SsTable.Create.{SsTable}
use lsm_storage_engine.SsTable.Read.{SsTableIterator}
use lsm_storage_engine.SsTable.Read
use lsm_storage_engine.SsTable.World.{World, TablesHold}
use lsm_storage_engine.SsTable.Iterate.{flat, Iterating, new_iterator-Iterating}
use lsm_storage_engine.Compaction.Newest.{newest, AllSorted}
use lsm_storage_engine.Compaction.Merge.{total, Yields}
use lsm_storage_engine.Compaction.Tables.{Yields-IteratorYields}
use lsm_storage_engine.Engine.Bounds.{past_end-in_range}
use lsm_storage_engine.Engine.Scan.{
  Bound, PeekSource, of_table, in_range, past_end, filter_range, peek_vec, next_in_range,
  from_table, advance, table_sources,
}
use lsm_storage_engine.Engine.Scan.Rounds.{Sits, AllSit}

module _ (start end : Bound) where
  filter_range-Above : (k : Bytes) (l : Entries) → Above k l → Above k (filter_range start end l)
  unfolding filter_range
  filter_range-Above k [] a = tt
  filter_range-Above k ((j, e) ∷ l) (h, a) = ground (arith, filter_range-Above k l a)

  filter_range-IsSorted : (l : Entries) → IsSorted l → IsSorted (filter_range start end l)
  unfolding filter_range
  filter_range-IsSorted [] s = tt
  filter_range-IsSorted ((k, e) ∷ l) (a, s) =
      ground (arith, filter_range-Above k l a, filter_range-IsSorted l s)

  length-filter_range : (l : Entries) → length (filter_range start end l) ≤ length l
  unfolding filter_range
  length-filter_range [] = omega arith
  length-filter_range ((k, e) ∷ l) = ground (arith, length-filter_range l)

  lookup-filter_range :
      (key : Bytes) (l : Entries)
      → lookup key (filter_range start end l)
        ≡ (if in_range key start end then lookup key l else none)
  unfolding filter_range lookup
  lookup-filter_range key [] = ground arith
  lookup-filter_range key ((k, e) ∷ l) = ground (arith, eq_of_cmp key k, lookup-filter_range key l)

  abbrev pub filters : List Entries → List Entries
  filters [] = []
  filters (l ∷ ls) = filter_range start end l ∷ filters ls

  pub filters-AllSorted : (ls : List Entries) → AllSorted ls → AllSorted (filters ls)
  filters-AllSorted [] s = tt
  filters-AllSorted (l ∷ ls) (s, ss) = (filter_range-IsSorted l s, filters-AllSorted ls ss)

  pub total-filters : (ls : List Entries) → total (filters ls) ≤ total ls
  total-filters [] = omega arith
  total-filters (l ∷ ls) = omega (arith, length-filter_range l, total-filters ls)

  pub newest-filters :
      (key : Bytes) (ls : List Entries)
      → newest key (filters ls) ≡ (if in_range key start end then newest key ls else none)
  unfolding newest
  newest-filters key [] = ground arith
  newest-filters key (l ∷ ls) =
      rw (lookup-filter_range key l, newest-filters key ls) (choose (in_range key start end))
    where
      choose :
          (b : Bool)
          → or_else (if b then lookup key l else none) (if b then newest key ls else none)
            ≡ (if b then or_else (lookup key l) (newest key ls) else none)
      choose true = refl
      choose false = refl

  -- Behind a key past the end nothing is in the range.
  filter_range-past_end :
      (k : Bytes) (l : Entries)
      → past_end k end ≡ true
      → Above k l
      → ◌≡◌ {A = Entries} (filter_range start end l) []
  unfolding filter_range
  filter_range-past_end k [] h a = refl
  filter_range-past_end k ((j, e) ∷ l) h (b, a) =
      rw (past_end-in_range start end k j h b) (filter_range-past_end k l h a)

module _ (fuel : ℕ) (files : Files) (start end : Bound) where
  pub peek_vec-Sits : (l : Entries) → Sits fuel files start end (peek_vec l) l
  peek_vec-Sits [] = refl
  peek_vec-Sits (item ∷ l) = (refl, (peek_vec l, unfold advance in refl, peek_vec-Sits l))

  abbrev from_rounds : ℕ → SsTableIterator → Result PeekSource
  from_rounds n it = do
    (item, it') ← next_in_range n files start end it
    ok (record { next = item; rest = of_table it' })

  record Ranged (r : Result PeekSource) (l : Entries) : Type 0 where
    source : PeekSource
    made : r ≡ ok source
    sits : Sits fuel files start end source (filter_range start end l)

  -- The iterator of a table, from which what is outside the range is passed over.
  next_in_range-Ranged :
      (n : ℕ) (it : SsTableIterator) (l : Entries)
      → length l < n
      → length l < fuel
      → Yields (Read.next files) it l
      → IsSorted l
      → Ranged (from_rounds n it) l
  unfolding next_in_range filter_range advance from_table
  next_in_range-Ranged zero it l h f y s = absurd (omega arith)
  next_in_range-Ranged (suc n) it [] h f y s = record {
    source = record { next = none; rest = of_table (Read.next files it).1 };
    made = rw (next_in_range, y) refl;
    sits = refl;
  }
  next_in_range-Ranged (suc n) it ((k, e) ∷ l) h f (y, ys) (a, s) =
      elim (Bool-cases (in_range k start end)) [
        | inl inside ↦
            let rest : Ranged (from_rounds fuel (Read.next files it).1) l =
              next_in_range-Ranged fuel (Read.next files it).1 l (omega arith) (omega arith) ys s in
            record {
              source = record { next = some (k, e); rest = of_table (Read.next files it).1 };
              made = rw (next_in_range, y, inside) refl;
              sits = rw inside (refl, (rest.source, rest.made, rest.sits));
            }
        | inr outside ↦ elim (Bool-cases (past_end k end)) [
          | inl past ↦ record {
            source = record { next = none; rest = of_table (Read.next files it).1 };
            made = rw (next_in_range, y, outside, past) refl;
            sits = rw (outside, filter_range-past_end start end k l past a) refl;
          }
          | inr before ↦
              let rest : Ranged (from_rounds n (Read.next files it).1) l =
                next_in_range-Ranged n (Read.next files it).1 l (omega arith) (omega arith) ys s in
              record {
                source = rest.source;
                made = rw (next_in_range, y, outside, before) rest.made;
                sits = rw outside rest.sits;
              }
        ]
      ]

  pub record Opened (tables : List SsTable) (ls : List Entries) : Type 0 where
    pub sources : List PeekSource
    pub made : table_sources fuel files start end tables ≡ ok sources
    pub sit : AllSit fuel files start end sources (filters start end ls)

  -- The sources of tables on disk.
  pub table_sources-Opened :
      (W : World) (tables : List SsTable) (ls : List Entries)
      → TablesHold W files tables ls
      → total ls < fuel
      → Opened tables ls
  unfolding table_sources from_table
  table_sources-Opened W [] [] v f = record { sources = []; made = refl; sit = tt }
  table_sources-Opened W [] (l ∷ ls) v f = absurd v
  table_sources-Opened W (t ∷ tables) [] v f = absurd v
  table_sources-Opened W (t ∷ tables) (l ∷ ls) (v, vs) f =
      let i : Iterating files t (flat v.blocks) = new_iterator-Iterating files t v.blocks v.read in
      let first : Ranged (from_rounds fuel i.iterator) l =
        next_in_range-Ranged fuel i.iterator l (omega arith) (omega arith)
          (rw (sym v.whole) (Yields-IteratorYields files i.iterator (flat v.blocks) i.yields))
          v.sorted in
      let rest : Opened tables ls = table_sources-Opened W tables ls vs (omega arith) in
      record {
        sources = first.source ∷ rest.sources;
        made = rw (i.made, first.made, rest.made) refl;
        sit = (first.sits, rest.sit);
      }
