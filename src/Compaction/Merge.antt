-- ===== src/Compaction/Merge.antt =====
-- The merge of iterators that yield sorted lists: the newest entry of every key, sorted.
use lsm_storage_engine.Common.{
  ℕ, ◌+◌, ◌≤◌, ◌≡◌, refl, arith, Option, none, some, List, [], ◌∷◌, length, inl, inr, Bool-cases,
}
use lsm_storage_engine.Common.Bytes.{Bytes, eq_bytes, cmp_refl}
use lsm_storage_engine.Error.{Result, ok}
use lsm_storage_engine.SsTable.Format.{Entries}
use lsm_storage_engine.Compaction.{Item, Heap, Source, advance, push_head, winner, advance_all}
use lsm_storage_engine.Compaction.Newest.{tail_on, first_on, tails_on}
use lsm_storage_engine.Compaction.Heap.{
  Rising, InHeap, Covers, CoversBut, push-Rising, push-InHeap, push-InHeap_self, length-push,
}

-- The entries behind the first of each list, and all entries.
abbrev pub rest_len : Entries → ℕ
rest_len [] = 0
rest_len (x ∷ l) = length l

abbrev pub rests : List Entries → ℕ
rests [] = 0
rests (l ∷ ls) = rest_len l + rests ls

abbrev pub total : List Entries → ℕ
total [] = 0
total (l ∷ ls) = length l + total ls

module _ {S : Type 0} (step : S → Option (Result Item) × S) where
  -- The iterator yields the entries of the list, and then its end.
  abbrev pub Yields : S → Entries → Type 0
  Yields s [] = (step s).0 ≡ none
  Yields s (x ∷ l) = ((step s).0 ≡ some (ok x)) × Yields (step s).1 l

  abbrev pub AllYield : List S → List Entries → Type 0
  AllYield [] [] = Unit
  AllYield (s ∷ iters) (l ∷ ls) = Yields s l × AllYield iters ls
  AllYield _ _ = ⊥

  -- A head and its iterator have the entries of a list before them.
  abbrev pub Holds : Option Item → S → Entries → Type 0
  Holds none s [] = Unit
  Holds (some (k, e)) s ((j, g) ∷ l) = (k ≡ j) × (e ≡ g) × Yields s l
  Holds _ s _ = ⊥

  abbrev pub AllHold : List (Source step) → List Entries → Type 0
  AllHold [] [] = Unit
  AllHold ((head, s) ∷ sources) (l ∷ ls) = Holds head s l × AllHold sources ls
  AllHold _ _ = ⊥

  pub record Moved (s : S) (l : Entries) : Type 0 where
    pub head : Option Item
    pub next : S
    pub result : advance step s ≡ ok (head, next)
    pub holds : Holds head next l

  pub advance-Yields : (s : S) (l : Entries) → Yields s l → Moved s l
  unfolding advance
  advance-Yields s [] y = record {
    head = none;
    next = (step s).1;
    result = rw (y, advance) refl;
    holds = tt;
  }
  advance-Yields s ((k, e) ∷ l) (y, ys) = record {
    head = some (k, e);
    next = (step s).1;
    result = rw (y, advance) refl;
    holds = (refl, refl, ys);
  }

  pub winner-first_on :
      (key : Bytes) (sources : List (Source step)) (ls : List Entries)
      → AllHold sources ls
      → winner step key sources ≡ first_on key ls
  unfolding winner first_on
  winner-first_on key [] [] h = refl
  winner-first_on key [] (l ∷ ls) h = absurd h
  winner-first_on key (source ∷ sources) [] h = absurd h
  winner-first_on key ((none, s) ∷ sources) ((x ∷ l) ∷ ls) (h, hs) = absurd h
  winner-first_on key ((some item, s) ∷ sources) ([] ∷ ls) (h, hs) = absurd h
  winner-first_on key ((none, s) ∷ sources) ([] ∷ ls) (h, hs) = winner-first_on key sources ls hs
  winner-first_on key ((some (k, e), s) ∷ sources) (((j, g) ∷ l) ∷ ls) ((kj, eg, y), hs) =
      ground (arith, winner-first_on key sources ls hs)

  -- The state of the merge after every iterator on the key has moved.
  pub record Advanced (key : Bytes) (idx : ℕ) (sources : List (Source step)) (heap : Heap)
      (ls : List Entries) : Type 0 where
    pub sources' : List (Source step)
    pub heap' : Heap
    pub result : advance_all step key idx sources heap ≡ ok (sources', heap')
    pub holds : AllHold sources' (tails_on key ls)
    pub rising : Rising heap'
    pub keeps : (k : Bytes) → InHeap k heap → InHeap k heap'
    pub covers : Covers heap' (tails_on key ls)
    pub measure : length heap' + rests (tails_on key ls) ≤ length heap + rests ls

  -- What pushing the next head does to the heap.
  pub record Pushed (head : Option Item) (idx : ℕ) (heap : Heap) (l : Entries) : Type 0 where
    pub rising : Rising heap → Rising (push_head step head idx heap)
    pub keeps : (k : Bytes) → InHeap k heap → InHeap k (push_head step head idx heap)
    pub covers :
        (heap' : Heap)
        → ((k : Bytes) → InHeap k (push_head step head idx heap) → InHeap k heap')
        → Covers heap' (l ∷ [])
    pub measure : length (push_head step head idx heap) + rest_len l ≡ length heap + length l

  pub push_head-Holds :
      (head : Option Item) (s : S) (idx : ℕ) (heap : Heap) (l : Entries)
      → Holds head s l
      → Pushed head idx heap l
  push_head-Holds none s idx heap [] h = record {
    rising = λ r. r;
    keeps = λ k i. i;
    covers = λ heap' keep. tt;
    measure = refl;
  }
  push_head-Holds none s idx heap (x ∷ l) h = absurd h
  push_head-Holds (some item) s idx heap [] h = absurd h
  push_head-Holds (some (k, e)) s idx heap ((j, g) ∷ l) (kj, eg, y) = record {
    rising = push-Rising k idx heap;
    keeps = λ i. push-InHeap i k idx heap;
    covers = λ heap' keep. (keep j (rw (← kj) (push-InHeap_self k idx heap)), tt);
    measure = omega (arith, length-push k idx heap);
  }

CoversBut-keeps :
    (key : Bytes) (heap heap' : Heap) (ls : List Entries)
    → ((k : Bytes) → InHeap k heap → InHeap k heap')
    → CoversBut key heap ls
    → CoversBut key heap' ls
CoversBut-keeps key heap heap' [] keep c = tt
CoversBut-keeps key heap heap' ([] ∷ ls) keep c = CoversBut-keeps key heap heap' ls keep c
CoversBut-keeps key heap heap' (((k, e) ∷ l) ∷ ls) keep (inl h, cs) =
    (inl h, CoversBut-keeps key heap heap' ls keep cs)
CoversBut-keeps key heap heap' (((k, e) ∷ l) ∷ ls) keep (inr h, cs) =
    (inr (keep k h), CoversBut-keeps key heap heap' ls keep cs)

pub Covers-cons :
    (heap : Heap) (l : Entries) (ls : List Entries)
    → Covers heap (l ∷ [])
    → Covers heap ls
    → Covers heap (l ∷ ls)
Covers-cons heap [] ls a b = b
Covers-cons heap (x ∷ l) ls (a, u) b = (a, b)

module _ {S : Type 0} (step : S → Option (Result Item) × S) where
  pub advance_all-Holds :
      (key : Bytes) (idx : ℕ) (sources : List (Source step)) (heap : Heap) (ls : List Entries)
      → AllHold step sources ls
      → Rising heap
      → CoversBut key heap ls
      → Advanced step key idx sources heap ls
  unfolding advance_all tail_on
  advance_all-Holds key idx [] heap [] h r c = record {
    sources' = [];
    heap' = heap;
    result = refl;
    holds = tt;
    rising = r;
    keeps = λ k i. i;
    covers = tt;
    measure = omega arith;
  }
  advance_all-Holds key idx [] heap (l ∷ ls) h r c = absurd h
  advance_all-Holds key idx (source ∷ sources) heap [] h r c = absurd h
  advance_all-Holds key idx ((none, s) ∷ sources) heap ((x ∷ l) ∷ ls) (h, hs) r c = absurd h
  advance_all-Holds key idx ((some item, s) ∷ sources) heap ([] ∷ ls) (h, hs) r c = absurd h
  advance_all-Holds key idx ((none, s) ∷ sources) heap ([] ∷ ls) (h, hs) r c =
      let a : Advanced step key (idx + 1) sources heap ls =
        advance_all-Holds key (idx + 1) sources heap ls hs r c in
      record {
        sources' = (none, s) ∷ a.sources';
        heap' = a.heap';
        result = rw a.result refl;
        holds = (tt, a.holds);
        rising = a.rising;
        keeps = a.keeps;
        covers = a.covers;
        measure = omega (arith, a.measure);
      }
  advance_all-Holds key idx ((some (k, e), s) ∷ sources) heap (((j, g) ∷ l) ∷ ls) ((kj, eg, y), hs)
        r (c, cs) =
      elim (Bool-cases (eq_bytes k key)) [
        | inl on ↦
            (let m : Moved step s l = advance-Yields step s l y in
              let p : Pushed step m.head idx heap l =
                push_head-Holds step m.head m.next idx heap l m.holds in
              let heap₁ : Heap = push_head step m.head idx heap in
              let a : Advanced step key (idx + 1) sources heap₁ ls =
                advance_all-Holds key (idx + 1) sources heap₁ ls hs (p.rising r)
                  (CoversBut-keeps key heap heap₁ ls p.keeps cs) in
              let tail : tail_on key ((j, g) ∷ l) ≡ l = rw (← kj) (rw on refl) in
              record {
                sources' = (m.head, m.next) ∷ a.sources';
                heap' = a.heap';
                result = rw (on, m.result, a.result) refl;
                holds = (rw tail m.holds, a.holds);
                rising = a.rising;
                keeps = λ i h. a.keeps i (p.keeps i h);
                covers =
                    rw tail
                      (Covers-cons a.heap' l (tails_on key ls) (p.covers a.heap' a.keeps) a.covers);
                measure = rw tail (omega (arith, a.measure, p.measure));
              })
        | inr off ↦
            (let a : Advanced step key (idx + 1) sources heap ls =
                advance_all-Holds key (idx + 1) sources heap ls hs r cs in
              let tail : tail_on key ((j, g) ∷ l) ≡ (j, g) ∷ l = rw (← kj) (rw off refl) in
              let there : InHeap j heap = elim c [
                | inl same ↦ absurd (ground (arith, cmp_refl key))
                | inr i ↦ i
              ] in
              record {
                sources' = (some (k, e), s) ∷ a.sources';
                heap' = a.heap';
                result = rw (off, a.result) refl;
                holds = (rw tail (kj, eg, y), a.holds);
                rising = a.rising;
                keeps = a.keeps;
                covers = rw tail (a.keeps j there, a.covers);
                measure = rw tail (omega (arith, a.measure));
              })
      ]
