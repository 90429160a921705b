-- ===== src/Common/SortedMap.antt =====
-- The standard library's `BTreeMap` with byte strings as keys: a list of pairs by rising key.
pub mod Append
use lsm_storage_engine.Common.Bytes.{
  Bytes, cmp, eq_bytes, ◌≺◌, cmp_refl, eq_of_cmp, lt_of_gt, cmp-lt_trans,
}
use Prim.Native.Nat.{Ordering}
use mathlib.Core.Path.{◌≡◌, refl}
use mathlib.Core.Option.{Option, none, some}
use mathlib.Core.List.{List, [], ◌∷◌}
use native.Mathlib.Omega.{arith}
use lsm_storage_engine.Common.Tests.{if◌then◌else◌}

module _ {ℓ} {V : Type ℓ} where
  unfoldable pub lookup : Bytes → List (Bytes × V) → Option V
  lookup k [] = none
  lookup k ((j, v) ∷ m) = if eq_bytes k j then some v else lookup k m

  unfoldable pub insert : Bytes → V → List (Bytes × V) → List (Bytes × V)
  insert k v [] = (k, v) ∷ []
  insert k v ((j, w) ∷ m) =
      let rest = insert k v m in
      elim (cmp k j) [
        | Ordering.lt ↦ (k, v) ∷ (j, w) ∷ m
        | Ordering.eq ↦ (k, v) ∷ m
        | Ordering.gt ↦ (j, w) ∷ rest
      ]

  -- Every key of the list lies above `k`.
  abbrev pub Above : Bytes → List (Bytes × V) → Type 0
  Above k [] = Unit
  Above k ((j, v) ∷ m) = (k ≺ j) × Above k m

  -- The keys rise, so none stands twice.
  abbrev pub IsSorted : List (Bytes × V) → Type 0
  IsSorted [] = Unit
  IsSorted ((k, v) ∷ m) = Above k m × IsSorted m

module _ {ℓ} {V : Type ℓ} where
  -- A read after an insertion.
  pub lookup-insert :
      (key other : Bytes) (new : V) (entries : List (Bytes × V))
      → lookup other (insert key new entries)
        ≡ (if eq_bytes other key then some new else lookup other entries)
  unfolding lookup insert
  lookup-insert key other new [] = refl
  lookup-insert key other new ((i, old) ∷ entries) = ground (
    arith,
    eq_of_cmp key i,
    eq_of_cmp other key,
    eq_of_cmp other i,
    cmp_refl other,
    lookup-insert key other new entries,
  )

  pub Above-insert :
      (a k : Bytes) (v : V) (m : List (Bytes × V)) → a ≺ k → Above a m → Above a (insert k v m)
  unfolding insert
  Above-insert a k v [] h r = (h, tt)
  Above-insert a k v ((i, w) ∷ m) h (hi, r) = ground (arith, Above-insert a k v m h r)

  pub Above-lt : (a b : Bytes) (m : List (Bytes × V)) → a ≺ b → Above b m → Above a m
  Above-lt a b [] h r = tt
  Above-lt a b ((i, w) ∷ m) h (hi, r) = (cmp-lt_trans a b i h hi, Above-lt a b m h r)

  pub insert-IsSorted :
      (k : Bytes) (v : V) (m : List (Bytes × V)) → IsSorted m → IsSorted (insert k v m)
  unfolding insert
  insert-IsSorted k v [] s = (tt, tt)
  insert-IsSorted k v ((i, w) ∷ m) (above, s) = ground (
    arith,
    eq_of_cmp k i,
    lt_of_gt k i,
    Above-lt k i m,
    Above-insert i k v m,
    insert-IsSorted k v m s,
  )

  -- What lies above a key does not hold it.
  pub lookup-Above : (k : Bytes) (m : List (Bytes × V)) → Above k m → lookup k m ≡ none
  unfolding lookup
  lookup-Above k [] r = refl
  lookup-Above k ((i, w) ∷ m) (hi, r) = ground (arith, lookup-Above k m r)
