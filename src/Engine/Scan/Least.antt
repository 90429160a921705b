-- ===== src/Engine/Scan/Least.antt =====
-- The least of the heads of sorted lists, which a scan (src/engine.rs) takes next.
use lsm_storage_engine.Common.{
  ℕ, ◌≡◌, refl, arith, true, false, Option, none, some, List, [], ◌∷◌, ◌⊎◌, inl, inr, Ordering,
  if◌then◌else◌,
}
use lsm_storage_engine.Common.Bytes.{
  Bytes, cmp, eq_bytes, ◌≺◌, eq_of_cmp, cmp_refl, lt_of_gt, gt_of_lt, cmp-lt_trans,
}
use lsm_storage_engine.Common.SortedMap.{lookup, Above, Above-lt, IsSorted}
use lsm_storage_engine.Common.SortedMap.Append.{or_else}
use lsm_storage_engine.MemTable.{Entry}
use lsm_storage_engine.Files.{Files}
use lsm_storage_engine.SsTable.Format.{Entries}
use lsm_storage_engine.Compaction.{Item}
use lsm_storage_engine.Compaction.Newest.{AllSorted, AllFrom, first_on, newest}
use lsm_storage_engine.Engine.Scan.{Bound, better}

-- The key is not above that of the item.
abbrev pub UpTo : Bytes → Option Item → Type 0
UpTo key none = Unit
UpTo key (some (k, e)) = (key ≡ k) ⊎ (key ≺ k)

abbrev entry_at : Bytes → Option Item → Option Entry
entry_at key none = none
entry_at key (some (k, e)) = if eq_bytes k key then some e else none

abbrev pub head_of : Entries → Option Item
head_of [] = none
head_of (item ∷ l) = some item

-- The key of the item that is found is the least, and the item is that of the first list on it.
abbrev pub Found : Option Item → List Entries → Option Item → Type 0
Found best ls none = (best ≡ none) × ((key : Bytes) → newest key ls ≡ none)
Found best ls (some (key, e)) =
    UpTo key best × AllFrom key ls × (or_else (entry_at key best) (first_on key ls) ≡ some e)

Above-UpTo : (key k : Bytes) (l : Entries) → (key ≡ k) ⊎ (key ≺ k) → Above k l → Above key l
Above-UpTo key k l (inl e) r = rw e r
Above-UpTo key k l (inr b) r = Above-lt key k l b r

UpTo-trans : (key a b : Bytes) → (key ≡ a) ⊎ (key ≺ a) → a ≺ b → key ≺ b
UpTo-trans key a b (inl e) h = rw e h
UpTo-trans key a b (inr l) h = cmp-lt_trans key a b l h

Found-nil : (best : Option Item) → Found best [] best
unfolding newest first_on
Found-nil none = (refl, λ key. refl)
Found-nil (some (key, e)) = (inl refl, tt, ground (arith, cmp_refl key))

-- One item against the best so far.
Found-item :
    (bk k : Bytes) (b v : Entry) (l : Entries) (ls : List Entries) (r : Option Item) (o : Ordering)
    → cmp k bk ≡ o
    → Above k l
    → Found (if (elim o [ Ordering.lt ↦ true | _ ↦ false ]) then some (k, v) else some (bk, b)) ls r
    → Found (some (bk, b)) (((k, v) ∷ l) ∷ ls) r
unfolding first_on
Found-item bk k b v l ls none Ordering.lt c a h = absurd cc
Found-item bk k b v l ls none Ordering.eq c a h = absurd cc
Found-item bk k b v l ls none Ordering.gt c a h = absurd cc
Found-item bk k b v l ls (some (key, e)) Ordering.lt c a (u, f, h) =
    let below : key ≺ bk = UpTo-trans key k bk u c in
    (
      inr below,
      ((u, Above-UpTo key k l u a), f),
      ground (arith, gt_of_lt key bk below, eq_of_cmp k key),
    )
Found-item bk k b v l ls (some (key, e)) Ordering.eq c a (u, f, h) =
    let up : (key ≡ k) ⊎ (key ≺ k) = rw (eq_of_cmp k bk c) u in
    (u, ((up, Above-UpTo key k l up a), f), ground (arith, eq_of_cmp k bk))
Found-item bk k b v l ls (some (key, e)) Ordering.gt c a (u, f, h) =
    let below : key ≺ k = UpTo-trans key bk k u (lt_of_gt k bk c) in
    (u, ((inr below, Above-UpTo key k l (inr below) a), f), ground (arith, gt_of_lt key k below))

module _ (fuel : ℕ) (files : Files) (start end : Bound) where
  abbrev pub best_of : List Entries → Option Item → Option Item
  best_of [] best = best
  best_of (l ∷ ls) best = best_of ls (better fuel files start end (head_of l) best)

  -- A list more in front.
  Found-cons :
      (best : Option Item) (l : Entries) (ls : List Entries) (r : Option Item)
      → IsSorted l
      → Found (better fuel files start end (head_of l) best) ls r
      → Found best (l ∷ ls) r
  unfolding newest first_on lookup
  Found-cons best [] ls none s (b, n) = (b, n)
  Found-cons best [] ls (some (key, e)) s (u, f, h) = (u, (tt, f), h)
  Found-cons none ((k, v) ∷ l) ls none s (b, n) = absurd cc
  Found-cons none ((k, v) ∷ l) ls (some (key, e)) (a, s) (u, f, h) =
      (tt, ((u, Above-UpTo key k l u a), f), ground (arith, eq_of_cmp k key))
  Found-cons (some (bk, b)) ((k, v) ∷ l) ls r (a, s) h =
      Found-item bk k b v l ls r (cmp k bk) refl a h

  pub best_of-Found :
      (ls : List Entries) (best : Option Item) → AllSorted ls → Found best ls (best_of ls best)
  best_of-Found [] best s = Found-nil best
  best_of-Found (l ∷ ls) best (s, ss) =
      Found-cons best l ls _ s (best_of-Found ls (better fuel files start end (head_of l) best) ss)
