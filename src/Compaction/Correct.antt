-- ===== src/Compaction/Correct.antt =====
-- The merge of iterators that yield sorted lists gives the newest entry of every key, sorted.
use lsm_storage_engine.Common.{
  ℕ, zero, suc, ◌+◌, ◌<◌, ◌≡◌, refl, sym, ap, ◌∙◌, arith, Bool, true, false, Option, none, some,
  List, [], ◌∷◌, length, ◌⊎◌, inl, inr, Bool-cases,
}
use lsm_storage_engine.Common.Bytes.{Bytes, eq_bytes, ◌≺◌, eq_of_cmp}
use lsm_storage_engine.Common.SortedMap.{lookup, Above, IsSorted}
use lsm_storage_engine.Error.{Result, ok}
use lsm_storage_engine.MemTable.{Entry}
use lsm_storage_engine.SsTable.Format.{Entries}
use lsm_storage_engine.Compaction.{
  Item, Heap, pop_same, emit, Source, first_heads, heap_of, merge_loop, merge,
}
use lsm_storage_engine.Compaction.Newest.{
  newest, visible, AllSorted, AllAbove, AllFrom, first_on, tail_on, tails_on, tails_on-AllAbove,
  tails_on-AllSorted, newest-tails_on, newest-first_on, lookup-emit, emit-IsSorted, emit-Above,
}
use lsm_storage_engine.Compaction.Heap.{
  Rising, InHeap, Covers, pop_same-Rising, length-pop_same, Covers-AllFrom, Covers-pop_same,
}
use lsm_storage_engine.Compaction.Merge.{
  rests, total, AllYield, AllHold, Moved, advance-Yields, winner-first_on, Advanced, Pushed,
  push_head-Holds, advance_all-Holds, Covers-cons,
}

-- What a merge of these lists gives.
pub record IsMerge (drop_tombstones : Bool) (ls : List Entries) (out : Entries) : Type 0 where
  pub sorted : IsSorted out
  pub newest_wins : (k : Bytes) → lookup k out ≡ visible drop_tombstones (newest k ls)
  pub bounded : (b : Bytes) → AllAbove b ls → Above b out

pub record Merged (r : Result Entries) (drop_tombstones : Bool) (ls : List Entries) : Type 0 where
  pub out : Entries
  pub returns : r ≡ ok out
  pub is_merge : IsMerge drop_tombstones ls out

-- An empty heap covers empty lists only.
all_empty : (ls : List Entries) (k : Bytes) → Covers [] ls → newest k ls ≡ none
unfolding newest lookup
all_empty [] k c = refl
all_empty ([] ∷ ls) k c = all_empty ls k c
all_empty ((x ∷ l) ∷ ls) k (c, cs) = absurd c

tails_on-Above_keeps :
    (b key : Bytes) (ls : List Entries) → AllAbove b ls → AllAbove b (tails_on key ls)
unfolding tail_on
tails_on-Above_keeps b key [] h = tt
tails_on-Above_keeps b key ([] ∷ ls) (h, hs) = (h, tails_on-Above_keeps b key ls hs)
tails_on-Above_keeps b key (((k, e) ∷ l) ∷ ls) ((hk, h), hs) =
    (ground arith, tails_on-Above_keeps b key ls hs)

-- If the lists lie above `b`, so does the key in front of the heap, provided a list starts with it.
first_on-Above :
    (b key : Bytes) (ls : List Entries) (e : Entry)
    → AllAbove b ls
    → first_on key ls ≡ some e
    → b ≺ key
unfolding first_on
first_on-Above b key [] e h f = cc
first_on-Above b key ([] ∷ ls) e (h, hs) f = first_on-Above b key ls e hs f
first_on-Above b key (((k, g) ∷ l) ∷ ls) e ((hk, h), hs) f =
    ground (arith, eq_of_cmp k key, first_on-Above b key ls e hs)

emit-AllAbove :
    (d : Bool) (b key : Bytes) (o : Option Entry) (out : Entries) (ls : List Entries)
    → first_on key ls ≡ o
    → AllAbove b ls
    → Above b out
    → Above b (emit d key o out)
emit-AllAbove d b key none out ls f h r = unfold emit in r
emit-AllAbove d b key (some e) out ls f h r =
    emit-Above d b key (some e) out (first_on-Above b key ls e h f) r

-- One round: the least key goes out, and the rest is the merge of what is left.
pub emit-IsMerge :
    (d : Bool) (key : Bytes) (ls : List Entries) (out : Entries)
    → AllFrom key ls
    → IsMerge d (tails_on key ls) out
    → IsMerge d ls (emit d key (first_on key ls) out)
emit-IsMerge d key ls out from m =
    let above : Above key out = m.bounded key (tails_on-AllAbove key ls from) in
    record {
      sorted = emit-IsSorted d key (first_on key ls) out above m.sorted;
      newest_wins = λ k. wins k (Bool-cases (eq_bytes k key)) above;
      bounded = λ b h.
          emit-AllAbove d b key (first_on key ls) out ls refl h
            (m.bounded b (tails_on-Above_keeps b key ls h));
    }
  where
    wins :
        (k : Bytes)
        → (eq_bytes k key ≡ true) ⊎ (eq_bytes k key ≡ false)
        → Above key out
        → lookup k (emit d key (first_on key ls) out) ≡ visible d (newest k ls)
    wins k (inl on) above =
        let same : k ≡ key = eq_of_cmp k key (ground arith) in
        lookup-emit d key k (first_on key ls) out above
        ∙ rw on (ap (visible d) (sym (rw same (newest-first_on key ls from))))
    wins k (inr off) above =
        lookup-emit d key k (first_on key ls) out above
        ∙ rw off (m.newest_wins k ∙ ap (visible d) (newest-tails_on key k ls off))

module _ {S : Type 0} (step : S → Option (Result Item) × S) (d : Bool) where
  merge_loop-IsMerge :
      (fuel : ℕ) (sources : List (Source step)) (heap : Heap) (ls : List Entries)
      → AllHold step sources ls
      → AllSorted ls
      → Rising heap
      → Covers heap ls
      → length heap + rests ls < fuel
      → Merged (merge_loop step fuel d sources heap) d ls
  unfolding merge_loop
  merge_loop-IsMerge zero sources heap ls h s r c enough = absurd (omega arith)
  merge_loop-IsMerge (suc fuel) sources [] ls h s r c enough = record {
    out = [];
    returns = refl;
    is_merge = record {
      sorted = tt;
      newest_wins = λ k. rw (all_empty ls k c) (unfold lookup visible in refl);
      bounded = λ b a. tt;
    };
  }
  merge_loop-IsMerge (suc fuel) sources ((key, i) ∷ heap) ls h s (least, r) c enough =
      let from : AllFrom key ls = Covers-AllFrom key i heap ls least s c in
      let a : Advanced step key 0 sources (pop_same key heap) ls =
        advance_all-Holds step key 0 sources (pop_same key heap) ls h (pop_same-Rising key heap r)
          (Covers-pop_same key i heap ls c) in
      let m : Merged (merge_loop step fuel d a.sources' a.heap') d (tails_on key ls) =
        merge_loop-IsMerge fuel a.sources' a.heap' (tails_on key ls) a.holds
          (tails_on-AllSorted key ls s) a.rising a.covers
          (omega (arith, a.measure, length-pop_same key heap)) in
      record {
        out = emit d key (first_on key ls) m.out;
        returns = rw (a.result, m.returns, winner-first_on step key sources ls h) refl;
        is_merge = emit-IsMerge d key ls m.out from m.is_merge;
      }

Covers-keeps :
    (heap heap' : Heap) (ls : List Entries)
    → ((k : Bytes) → InHeap k heap → InHeap k heap')
    → Covers heap ls
    → Covers heap' ls
Covers-keeps heap heap' [] keep c = tt
Covers-keeps heap heap' ([] ∷ ls) keep c = Covers-keeps heap heap' ls keep c
Covers-keeps heap heap' (((k, e) ∷ l) ∷ ls) keep (c, cs) =
    (keep k c, Covers-keeps heap heap' ls keep cs)

module _ {S : Type 0} (step : S → Option (Result Item) × S) where
  record Started (iters : List S) (ls : List Entries) : Type 0 where
    sources : List (Source step)
    result : first_heads step iters ≡ ok sources
    holds : AllHold step sources ls

  first_heads-Yields :
      (iters : List S) (ls : List Entries) → AllYield step iters ls → Started iters ls
  unfolding first_heads
  first_heads-Yields [] [] y = record { sources = []; result = refl; holds = tt }
  first_heads-Yields [] (l ∷ ls) y = absurd y
  first_heads-Yields (s ∷ iters) [] y = absurd y
  first_heads-Yields (s ∷ iters) (l ∷ ls) (y, ys) =
      let m : Moved step s l = advance-Yields step s l y in
      let rest : Started iters ls = first_heads-Yields iters ls ys in
      record {
        sources = (m.head, m.next) ∷ rest.sources;
        result = rw (m.result, rest.result) refl;
        holds = (m.holds, rest.holds);
      }

  record Heaped (heap : Heap) (ls : List Entries) : Type 0 where
    rising : Rising heap
    covers : Covers heap ls
    measure : length heap + rests ls ≡ total ls

  heap_of-Holds :
      (idx : ℕ) (sources : List (Source step)) (ls : List Entries)
      → AllHold step sources ls
      → Heaped (heap_of step idx sources) ls
  unfolding heap_of
  heap_of-Holds idx [] [] h = record { rising = tt; covers = tt; measure = omega arith }
  heap_of-Holds idx [] (l ∷ ls) h = absurd h
  heap_of-Holds idx (source ∷ sources) [] h = absurd h
  heap_of-Holds idx ((head, s) ∷ sources) (l ∷ ls) (h, hs) =
      let rest : Heaped (heap_of step (idx + 1) sources) ls =
        heap_of-Holds (idx + 1) sources ls hs in
      let p : Pushed step head idx (heap_of step (idx + 1) sources) l =
        push_head-Holds step head s idx (heap_of step (idx + 1) sources) l h in
      record {
        rising = p.rising rest.rising;
        covers =
            Covers-cons _ l ls (p.covers _ (λ k i. i))
              (Covers-keeps (heap_of step (idx + 1) sources) _ ls p.keeps rest.covers);
        measure = omega (arith, p.measure, rest.measure);
      }

  -- If every iterator yields a sorted list and the fuel is more than the entries of all of them,
  -- then the merge returns a sorted list in which each key has the entry of the first list that
  -- holds it; a key whose entry is a tombstone is left out if and only if tombstones are dropped.
  -- The keys of the result lie above every bound that all lists lie above.
  pub merge-IsMerge :
      (fuel : ℕ) (drop_tombstones : Bool) (iters : List S) (ls : List Entries)
      → AllYield step iters ls
      → AllSorted ls
      → total ls < fuel
      → Merged (merge step fuel drop_tombstones iters) drop_tombstones ls
  unfolding merge
  merge-IsMerge fuel drop_tombstones iters ls y s enough =
      let start : Started iters ls = first_heads-Yields iters ls y in
      let h : Heaped (heap_of step 0 start.sources) ls =
        heap_of-Holds 0 start.sources ls start.holds in
      let m : Merged
          (merge_loop step fuel drop_tombstones start.sources (heap_of step 0 start.sources))
          drop_tombstones ls =
        merge_loop-IsMerge step drop_tombstones fuel start.sources (heap_of step 0 start.sources) ls
          start.holds s h.rising h.covers (omega (arith, h.measure)) in
      record { out = m.out; returns = rw start.result m.returns; is_merge = m.is_merge }
