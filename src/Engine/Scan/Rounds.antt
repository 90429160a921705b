-- ===== src/Engine/Scan/Rounds.antt =====
-- The rounds of `EngineIterator::next` (src/engine.rs) over sources that have sorted entries.
use lsm_storage_engine.Common.{
  ℕ, zero, suc, ◌≤◌, ◌<◌, ◌≡◌, refl, arith, true, Option, none, some, List, [], ◌∷◌, map, inl, inr,
  Bool-cases,
}
use mathlib.Core.Path.{subst}
use lsm_storage_engine.Common.Bytes.{Bytes, eq_bytes}
use lsm_storage_engine.Common.SortedMap.{lookup}
use lsm_storage_engine.Error.{Result, ok}
use lsm_storage_engine.MemTable.{Entry, value, tombstone}
use lsm_storage_engine.Files.{Files}
use lsm_storage_engine.SsTable.Format.{Entries}
use lsm_storage_engine.Compaction.{Item, emit}
use lsm_storage_engine.Compaction.Newest.{
  AllSorted, AllFrom, first_on, tail_on, tails_on, tails_on-AllSorted, newest, visible,
}
use lsm_storage_engine.Compaction.Merge.{total}
use lsm_storage_engine.Compaction.Correct.{IsMerge, emit-IsMerge}
use lsm_storage_engine.Engine.Scan.{
  Bound, PeekSource, advance, find_best, advance_on, collect_items,
}
use lsm_storage_engine.Engine.Scan.Least.{head_of, Found, best_of, best_of-Found}

abbrev pub as_entry : Bytes × Bytes → Item
as_entry (k, v) = (k, value v)

module _ (fuel : ℕ) (files : Files) (start end : Bound) where
  -- The source has the entries of the list before it.
  abbrev pub Sits : PeekSource → Entries → Type 0
  Sits source [] = source.next ≡ none
  Sits source (item ∷ l) =
      (source.next ≡ some item)
      × ((source' : PeekSource) × (advance fuel files start end source ≡ ok source')
          × Sits source' l)

  abbrev pub AllSit : List PeekSource → List Entries → Type 0
  AllSit [] [] = Unit
  AllSit (source ∷ sources) (l ∷ ls) = Sits source l × AllSit sources ls
  AllSit _ _ = ⊥

  Sits-next : (source : PeekSource) (l : Entries) → Sits source l → source.next ≡ head_of l
  Sits-next source [] h = h
  Sits-next source (item ∷ l) h = h.0

  find_best-Sits :
      (sources : List PeekSource) (ls : List Entries) (best : Option Item)
      → AllSit sources ls
      → find_best fuel files start end sources best ≡ best_of fuel files start end ls best
  unfolding find_best
  find_best-Sits [] [] best h = refl
  find_best-Sits [] (l ∷ ls) best h = absurd h
  find_best-Sits (source ∷ sources) [] best h = absurd h
  find_best-Sits (source ∷ sources) (l ∷ ls) best (h, hs) =
      rw (Sits-next source l h) (find_best-Sits sources ls _ hs)

  record Advanced (key : Bytes) (sources : List PeekSource) (ls : List Entries) : Type 0 where
    sources' : List PeekSource
    result : advance_on fuel files start end key sources ≡ ok sources'
    sit : AllSit sources' (tails_on key ls)

  advance_on-Sits :
      (key : Bytes) (sources : List PeekSource) (ls : List Entries)
      → AllSit sources ls
      → Advanced key sources ls
  unfolding advance_on tail_on
  advance_on-Sits key [] [] h = record { sources' = []; result = refl; sit = tt }
  advance_on-Sits key [] (l ∷ ls) h = absurd h
  advance_on-Sits key (source ∷ sources) [] h = absurd h
  advance_on-Sits key (source ∷ sources) ([] ∷ ls) (h, hs) =
      let rest : Advanced key sources ls = advance_on-Sits key sources ls hs in
      record {
        sources' = source ∷ rest.sources';
        result = rw (h, rest.result) refl;
        sit = (h, rest.sit);
      }
  advance_on-Sits key (source ∷ sources) (((k, e) ∷ l) ∷ ls) ((n, (source', moves, h)), hs) =
      let rest : Advanced key sources ls = advance_on-Sits key sources ls hs in
      elim (Bool-cases (eq_bytes k key)) [
        | inl on ↦ record {
          sources' = source' ∷ rest.sources';
          result = rw (n, on, moves, rest.result) refl;
          sit = rw on (h, rest.sit);
        }
        | inr off ↦ record {
          sources' = source ∷ rest.sources';
          result = rw (n, off, rest.result) refl;
          sit = rw off ((n, (source', moves, h)), rest.sit);
        }
      ]

  total-tails_on_le : (key : Bytes) (ls : List Entries) → total (tails_on key ls) ≤ total ls
  unfolding tail_on
  total-tails_on_le key [] = omega arith
  total-tails_on_le key ([] ∷ ls) = omega (arith, total-tails_on_le key ls)
  total-tails_on_le key (((k, g) ∷ l) ∷ ls) = ground (arith, total-tails_on_le key ls)

  -- A list that starts with the key gets shorter.
  total-tails_on :
      (key : Bytes) (ls : List Entries) (e : Entry)
      → first_on key ls ≡ some e
      → total (tails_on key ls) < total ls
  unfolding tail_on first_on
  total-tails_on key [] e h = absurd cc
  total-tails_on key ([] ∷ ls) e h = omega (arith, total-tails_on key ls e h)
  total-tails_on key (((k, g) ∷ l) ∷ ls) e h =
      ground (arith, total-tails_on_le key ls, total-tails_on key ls e)

  -- What a scan of these lists gives.
  pub record Scanned (items : List (Result (Bytes × Bytes))) (ls : List Entries) : Type 0 where
    pub out : List (Bytes × Bytes)
    pub yields : items ≡ map ok out
    pub is_merge : IsMerge true ls (map as_entry out)

  Scanned-nil : (ls : List Entries) → ((key : Bytes) → newest key ls ≡ none) → Scanned [] ls
  Scanned-nil ls h = record {
    out = [];
    yields = refl;
    is_merge = record {
      sorted = tt;
      newest_wins = λ key. rw (h key) (unfold lookup visible in refl);
      bounded = λ b above. tt;
    };
  }

  no_entries : (ls : List Entries) (key : Bytes) → total ls ≤ 0 → newest key ls ≡ none
  unfolding newest lookup
  no_entries [] key h = refl
  no_entries ([] ∷ ls) key h = no_entries ls key (omega arith)
  no_entries ((x ∷ l) ∷ ls) key h = absurd (omega arith)

  Scanned-value :
      (key v : Bytes) (ls : List Entries) (items : List (Result (Bytes × Bytes)))
      → AllFrom key ls
      → first_on key ls ≡ some (value v)
      → Scanned items (tails_on key ls)
      → Scanned (ok (key, v) ∷ items) ls
  unfolding emit
  Scanned-value key v ls items from first s = record {
    out = (key, v) ∷ s.out;
    yields = rw s.yields refl;
    is_merge =
        subst (λ o. IsMerge true ls (emit true key o (map as_entry s.out))) first
          (emit-IsMerge true key ls (map as_entry s.out) from s.is_merge);
  }

  Scanned-tombstone :
      (key : Bytes) (ls : List Entries) (items : List (Result (Bytes × Bytes)))
      → AllFrom key ls
      → first_on key ls ≡ some tombstone
      → Scanned items (tails_on key ls)
      → Scanned items ls
  unfolding emit
  Scanned-tombstone key ls items from first s = record {
    out = s.out;
    yields = s.yields;
    is_merge =
        subst (λ o. IsMerge true ls (emit true key o (map as_entry s.out))) first
          (emit-IsMerge true key ls (map as_entry s.out) from s.is_merge);
  }

  -- claim
  pub collect_items-Scanned :
      (rounds : ℕ) (sources : List PeekSource) (ls : List Entries)
      → AllSit sources ls
      → AllSorted ls
      → total ls ≤ rounds
      → Scanned (collect_items fuel files start end rounds sources) ls
  unfolding collect_items
  collect_items-Scanned zero sources ls h s enough =
      Scanned-nil ls (λ key. no_entries ls key enough)
  collect_items-Scanned (suc rounds) sources ls h s enough =
      go (collect_items-Scanned rounds) (best_of fuel files start end ls none)
        (find_best-Sits sources ls none h) (best_of-Found fuel files start end ls none s)
    where
      go :
          ((sources' : List PeekSource) (ls' : List Entries)
            → AllSit sources' ls'
            → AllSorted ls'
            → total ls' ≤ rounds
            → Scanned (collect_items fuel files start end rounds sources') ls')
          → (r : Option Item) → find_best fuel files start end sources none ≡ r
          → Found none ls r
          → Scanned (collect_items fuel files start end (suc rounds) sources) ls
      go again none e (b, n) = rw (collect_items, e) (Scanned-nil ls n)
      go again (some (key, value v)) e (u, f, first) =
          let a : Advanced key sources ls = advance_on-Sits key sources ls h in
          rw (collect_items, e, a.result)
            (Scanned-value key v ls _ f first (
              again a.sources' (tails_on key ls) a.sit (tails_on-AllSorted key ls s)
                (omega (arith, total-tails_on key ls (value v) first))))
      go again (some (key, tombstone)) e (u, f, first) =
          let a : Advanced key sources ls = advance_on-Sits key sources ls h in
          rw (collect_items, e, a.result)
            (Scanned-tombstone key ls _ f first (
              again a.sources' (tails_on key ls) a.sit (tails_on-AllSorted key ls s)
                (omega (arith, total-tails_on key ls tombstone first))))
