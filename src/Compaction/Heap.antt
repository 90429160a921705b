-- ===== src/Compaction/Heap.antt =====
-- The heap of the merge: its keys rise, and it has the first key of every list that is not empty.
use lsm_storage_engine.Common.{
  ℕ, suc, ◌≤◌, ◌≡◌, refl, sym, arith, List, [], ◌∷◌, length, ◌⊎◌, inl, inr,
}
use lsm_storage_engine.Common.Bytes.{Bytes, ◌≺◌, eq_of_cmp, lt_of_gt, cmp-lt_trans}
use lsm_storage_engine.Common.SortedMap.{Above, Above-lt}
use lsm_storage_engine.SsTable.Format.{Entries}
use lsm_storage_engine.Compaction.{Heap, push, pop_same}
use lsm_storage_engine.Compaction.Newest.{AllSorted, AllFrom}

abbrev pub AtLeast : Bytes → Heap → Type 0
AtLeast k [] = Unit
AtLeast k ((j, i) ∷ heap) = ((k ≡ j) ⊎ (k ≺ j)) × AtLeast k heap

abbrev pub Rising : Heap → Type 0
Rising [] = Unit
Rising ((k, i) ∷ heap) = AtLeast k heap × Rising heap

abbrev pub InHeap : Bytes → Heap → Type 0
InHeap k [] = ⊥
InHeap k ((j, i) ∷ heap) = (k ≡ j) ⊎ InHeap k heap

abbrev pub Covers : Heap → List Entries → Type 0
Covers heap [] = Unit
Covers heap ([] ∷ ls) = Covers heap ls
Covers heap (((k, e) ∷ l) ∷ ls) = InHeap k heap × Covers heap ls

-- The same, but for the lists that start with the key.
abbrev pub CoversBut : Bytes → Heap → List Entries → Type 0
CoversBut key heap [] = Unit
CoversBut key heap ([] ∷ ls) = CoversBut key heap ls
CoversBut key heap (((k, e) ∷ l) ∷ ls) = ((k ≡ key) ⊎ InHeap k heap) × CoversBut key heap ls

AtLeast-push :
    (k key : Bytes) (idx : ℕ) (heap : Heap)
    → (k ≡ key) ⊎ (k ≺ key)
    → AtLeast k heap
    → AtLeast k (push key idx heap)
unfolding push
AtLeast-push k key idx [] h r = (h, tt)
AtLeast-push k key idx ((j, i) ∷ heap) h (hj, r) = ground (arith, AtLeast-push k key idx heap h r)

AtLeast-lt : (a b : Bytes) (heap : Heap) → a ≺ b → AtLeast b heap → AtLeast a heap
AtLeast-lt a b [] h r = tt
AtLeast-lt a b ((j, i) ∷ heap) h (inl e, r) = (inr (rw (← e) h), AtLeast-lt a b heap h r)
AtLeast-lt a b ((j, i) ∷ heap) h (inr l, r) =
    (inr (cmp-lt_trans a b j h l), AtLeast-lt a b heap h r)

AtLeast-eq : (a b : Bytes) (heap : Heap) → a ≡ b → AtLeast b heap → AtLeast a heap
AtLeast-eq a b heap e r = rw e r

pub push-Rising : (key : Bytes) (idx : ℕ) (heap : Heap) → Rising heap → Rising (push key idx heap)
unfolding push
push-Rising key idx [] r = (tt, tt)
push-Rising key idx ((k, i) ∷ heap) (above, r) = ground (
  arith,
  eq_of_cmp key k,
  lt_of_gt key k,
  AtLeast-lt key k heap,
  AtLeast-eq key k heap,
  AtLeast-push k key idx heap,
  push-Rising key idx heap r,
)

pub push-InHeap_self : (key : Bytes) (idx : ℕ) (heap : Heap) → InHeap key (push key idx heap)
unfolding push
push-InHeap_self key idx [] = inl refl
push-InHeap_self key idx ((k, i) ∷ heap) = ground (arith, push-InHeap_self key idx heap)

pub push-InHeap :
    (k key : Bytes) (idx : ℕ) (heap : Heap) → InHeap k heap → InHeap k (push key idx heap)
unfolding push
push-InHeap k key idx [] h = absurd h
push-InHeap k key idx ((j, i) ∷ heap) h = ground (arith, push-InHeap k key idx heap)

pub length-push :
    (key : Bytes) (idx : ℕ) (heap : Heap) → length (push key idx heap) ≡ suc (length heap)
unfolding push
length-push key idx [] = refl
length-push key idx ((k, i) ∷ heap) = ground (arith, length-push key idx heap)

pub pop_same-Rising : (key : Bytes) (heap : Heap) → Rising heap → Rising (pop_same key heap)
unfolding pop_same
pop_same-Rising key [] r = tt
pop_same-Rising key ((k, i) ∷ heap) (above, r) = ground (arith, pop_same-Rising key heap r)

pub pop_same-InHeap :
    (k key : Bytes) (heap : Heap) → InHeap k heap → (k ≡ key) ⊎ InHeap k (pop_same key heap)
unfolding pop_same
pop_same-InHeap k key [] h = absurd h
pop_same-InHeap k key ((j, i) ∷ heap) (inl e) = ground (arith, eq_of_cmp j key)
pop_same-InHeap k key ((j, i) ∷ heap) (inr h) = ground (arith, pop_same-InHeap k key heap h)

pub length-pop_same : (key : Bytes) (heap : Heap) → length (pop_same key heap) ≤ length heap
unfolding pop_same
length-pop_same key [] = omega arith
length-pop_same key ((k, i) ∷ heap) = ground (arith, length-pop_same key heap)

InHeap-AtLeast :
    (k key : Bytes) (heap : Heap) → AtLeast key heap → InHeap k heap → (key ≡ k) ⊎ (key ≺ k)
InHeap-AtLeast k key [] r h = absurd h
InHeap-AtLeast k key ((j, i) ∷ heap) (b, r) (inl e) = rw e b
InHeap-AtLeast k key ((j, i) ∷ heap) (b, r) (inr h) = InHeap-AtLeast k key heap r h

in_front :
    (k key : Bytes) (i : ℕ) (heap : Heap)
    → AtLeast key heap
    → InHeap k ((key, i) ∷ heap)
    → (key ≡ k) ⊎ (key ≺ k)
in_front k key i heap r (inl e) = inl (sym e)
in_front k key i heap r (inr h) = InHeap-AtLeast k key heap r h

From-first : (key k : Bytes) (l : Entries) → (key ≡ k) ⊎ (key ≺ k) → Above k l → Above key l
From-first key k l (inl e) r = rw e r
From-first key k l (inr b) r = Above-lt key k l b r

-- The key in front of the heap is the least of all lists.
pub Covers-AllFrom :
    (key : Bytes) (i : ℕ) (heap : Heap) (ls : List Entries)
    → AtLeast key heap
    → AllSorted ls
    → Covers ((key, i) ∷ heap) ls
    → AllFrom key ls
Covers-AllFrom key i heap [] r s c = tt
Covers-AllFrom key i heap ([] ∷ ls) r (s, ss) c = (tt, Covers-AllFrom key i heap ls r ss c)
Covers-AllFrom key i heap (((k, e) ∷ l) ∷ ls) r ((above, s), ss) (c, cs) =
    let b : (key ≡ k) ⊎ (key ≺ k) = in_front k key i heap r c in
    ((b, From-first key k l b above), Covers-AllFrom key i heap ls r ss cs)

-- Without the pairs on the key the heap still covers the other lists.
pub Covers-pop_same :
    (key : Bytes) (i : ℕ) (heap : Heap) (ls : List Entries)
    → Covers ((key, i) ∷ heap) ls
    → CoversBut key (pop_same key heap) ls
Covers-pop_same key i heap [] c = tt
Covers-pop_same key i heap ([] ∷ ls) c = Covers-pop_same key i heap ls c
Covers-pop_same key i heap (((k, e) ∷ l) ∷ ls) (inl h, cs) =
    (inl h, Covers-pop_same key i heap ls cs)
Covers-pop_same key i heap (((k, e) ∷ l) ∷ ls) (inr h, cs) =
    (pop_same-InHeap k key heap h, Covers-pop_same key i heap ls cs)
