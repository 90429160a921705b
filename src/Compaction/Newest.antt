-- ===== src/Compaction/Newest.antt =====
-- What a read of several sorted lists means, newest first: the first list that holds the key decides.
use lsm_storage_engine.Common.{
  ◌≡◌, refl, arith, Bool, true, false, Option, none, some, List, [], ◌∷◌, if◌then◌else◌, ◌⊎◌, inl,
  inr,
}
use lsm_storage_engine.Common.Bytes.{Bytes, eq_bytes, ◌≺◌, cmp_refl, eq_of_cmp, gt_of_lt}
use lsm_storage_engine.Common.SortedMap.{lookup, Above, IsSorted, lookup-Above}
use lsm_storage_engine.Common.SortedMap.Append.{or_else}
use lsm_storage_engine.MemTable.{Entry, value, tombstone}
use lsm_storage_engine.SsTable.Format.{Entries}
use lsm_storage_engine.Compaction.{emit}

unfoldable pub newest : Bytes → List Entries → Option Entry
newest k [] = none
newest k (l ∷ ls) = or_else (lookup k l) (newest k ls)

-- What a merge leaves of an entry: nothing of a tombstone that is dropped.
unfoldable pub visible : Bool → Option Entry → Option Entry
visible drop_tombstones none = none
visible true (some tombstone) = none
visible drop_tombstones (some e) = some e

abbrev pub AllSorted : List Entries → Type 0
AllSorted [] = Unit
AllSorted (l ∷ ls) = IsSorted l × AllSorted ls

-- Every key of every list lies above `k`.
abbrev pub AllAbove : Bytes → List Entries → Type 0
AllAbove k [] = Unit
AllAbove k (l ∷ ls) = Above k l × AllAbove k ls

-- No key of the list lies below `k`, which may be its first.
abbrev pub From : Bytes → Entries → Type 0
From k [] = Unit
From k ((j, e) ∷ l) = ((k ≡ j) ⊎ (k ≺ j)) × Above k l

abbrev pub AllFrom : Bytes → List Entries → Type 0
AllFrom k [] = Unit
AllFrom k (l ∷ ls) = From k l × AllFrom k ls

-- A list without its first entry, if that is on the key; and whose first entry it is.
unfoldable pub tail_on : Bytes → Entries → Entries
tail_on key [] = []
tail_on key ((k, e) ∷ l) = if eq_bytes k key then l else (k, e) ∷ l

unfoldable pub first_on : Bytes → List Entries → Option Entry
first_on key [] = none
first_on key ([] ∷ ls) = first_on key ls
first_on key (((k, e) ∷ l) ∷ ls) =
    let rest = first_on key ls in if eq_bytes k key then some e else rest

abbrev pub tails_on : Bytes → List Entries → List Entries
tails_on key [] = []
tails_on key (l ∷ ls) = tail_on key l ∷ tails_on key ls

From-lookup : (key : Bytes) (l : Entries) → From key l → Above key (tail_on key l)
unfolding tail_on
From-lookup key [] h = tt
From-lookup key ((k, e) ∷ l) (inl e', r) = ground (arith, cmp_refl k)
From-lookup key ((k, e) ∷ l) (inr b, r) = ground (arith, gt_of_lt key k)

pub tails_on-AllAbove :
    (key : Bytes) (ls : List Entries) → AllFrom key ls → AllAbove key (tails_on key ls)
tails_on-AllAbove key [] h = tt
tails_on-AllAbove key (l ∷ ls) (h, hs) = (From-lookup key l h, tails_on-AllAbove key ls hs)

tail_on-IsSorted : (key : Bytes) (l : Entries) → IsSorted l → IsSorted (tail_on key l)
unfolding tail_on
tail_on-IsSorted key [] s = tt
tail_on-IsSorted key ((k, e) ∷ l) (r, s) = ground arith

pub tails_on-AllSorted :
    (key : Bytes) (ls : List Entries) → AllSorted ls → AllSorted (tails_on key ls)
tails_on-AllSorted key [] h = tt
tails_on-AllSorted key (l ∷ ls) (h, hs) = (tail_on-IsSorted key l h, tails_on-AllSorted key ls hs)

lookup-tail_on :
    (key k : Bytes) (l : Entries) → eq_bytes k key ≡ false → lookup k (tail_on key l) ≡ lookup k l
unfolding lookup tail_on
lookup-tail_on key k [] h = refl
lookup-tail_on key k ((j, e) ∷ l) h = ground (arith, eq_of_cmp j key)

pub newest-tails_on :
    (key k : Bytes) (ls : List Entries)
    → eq_bytes k key ≡ false
    → newest k (tails_on key ls) ≡ newest k ls
unfolding newest
newest-tails_on key k [] h = refl
newest-tails_on key k (l ∷ ls) h = rw (lookup-tail_on key k l h, newest-tails_on key k ls h) refl

lookup-From :
    (key : Bytes) (l : Entries)
    → From key l
    → (ls : List Entries) → or_else (lookup key l) (first_on key ls) ≡ first_on key (l ∷ ls)
unfolding lookup first_on
lookup-From key [] h ls = refl
lookup-From key ((k, e) ∷ l) (inl e', r) ls = ground (arith, cmp_refl k)
lookup-From key ((k, e) ∷ l) (inr b, r) ls = ground (arith, gt_of_lt key k, lookup-Above key l r)

pub newest-first_on :
    (key : Bytes) (ls : List Entries) → AllFrom key ls → newest key ls ≡ first_on key ls
unfolding newest
newest-first_on key [] h = unfold first_on in refl
newest-first_on key (l ∷ ls) (h, hs) = rw (newest-first_on key ls hs) (lookup-From key l h ls)

pub newest-AllAbove : (key : Bytes) (ls : List Entries) → AllAbove key ls → newest key ls ≡ none
unfolding newest
newest-AllAbove key [] h = refl
newest-AllAbove key (l ∷ ls) (h, hs) = rw (lookup-Above key l h) (newest-AllAbove key ls hs)

-- What `emit` puts in front is found, and nothing else changes.
pub lookup-emit :
    (d : Bool) (key k : Bytes) (o : Option Entry) (out : Entries)
    → Above key out
    → lookup k (emit d key o out) ≡ (if eq_bytes k key then visible d o else lookup k out)
unfolding emit visible lookup
lookup-emit d key k none out r = ground (arith, eq_of_cmp k key, lookup-Above key out r)
lookup-emit true key k (some tombstone) out r =
    ground (arith, eq_of_cmp k key, lookup-Above key out r)
lookup-emit false key k (some tombstone) out r = refl
lookup-emit true key k (some (value v)) out r = refl
lookup-emit false key k (some (value v)) out r = refl

pub emit-IsSorted :
    (d : Bool) (key : Bytes) (o : Option Entry) (out : Entries)
    → Above key out
    → IsSorted out
    → IsSorted (emit d key o out)
unfolding emit
emit-IsSorted d key none out r s = s
emit-IsSorted true key (some tombstone) out r s = s
emit-IsSorted false key (some tombstone) out r s = (r, s)
emit-IsSorted true key (some (value v)) out r s = (r, s)
emit-IsSorted false key (some (value v)) out r s = (r, s)

pub emit-Above :
    (d : Bool) (b key : Bytes) (o : Option Entry) (out : Entries)
    → b ≺ key
    → Above b out
    → Above b (emit d key o out)
unfolding emit
emit-Above d b key none out h r = r
emit-Above true b key (some tombstone) out h r = r
emit-Above false b key (some tombstone) out h r = (h, r)
emit-Above true b key (some (value v)) out h r = (h, r)
emit-Above false b key (some (value v)) out h r = (h, r)
