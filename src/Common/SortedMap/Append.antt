-- ===== src/Common/SortedMap/Append.antt =====
-- Sorted maps in two parts.
use mathlib.Core.Path.{◌≡◌, refl}
use mathlib.Core.Option.{Option, none, some}
use mathlib.Core.List.{List, [], ◌∷◌, ◌++◌}
use native.Mathlib.Omega.{arith}
use lsm_storage_engine.Common.Bytes.{Bytes, ◌≺◌, eq_of_cmp}
use lsm_storage_engine.Common.SortedMap.{lookup, Above, IsSorted}

module _ {ℓ} {V : Type ℓ} where
  abbrev pub or_else : Option V → Option V → Option V
  or_else none o = o
  or_else (some v) o = some v

  pub lookup-append :
      (k : Bytes) (l m : List (Bytes × V)) → lookup k (l ++ m) ≡ or_else (lookup k l) (lookup k m)
  unfolding lookup
  lookup-append k [] m = refl
  lookup-append k ((j, v) ∷ l) m = ground (arith, lookup-append k l m)

  pub lookup-Above_lt :
      (a k : Bytes) (m : List (Bytes × V)) (v : V) → Above a m → lookup k m ≡ some v → a ≺ k
  unfolding lookup
  lookup-Above_lt a k [] v r h = cc
  lookup-Above_lt a k ((j, w) ∷ m) v (hj, r) h =
      ground (arith, eq_of_cmp k j, lookup-Above_lt a k m v r)

  pub Above-left : (a : Bytes) (l m : List (Bytes × V)) → Above a (l ++ m) → Above a l
  Above-left a [] m r = tt
  Above-left a ((j, v) ∷ l) m (h, r) = (h, Above-left a l m r)

  pub Above-right : (a : Bytes) (l m : List (Bytes × V)) → Above a (l ++ m) → Above a m
  Above-right a [] m r = r
  Above-right a ((j, v) ∷ l) m (h, r) = Above-right a l m r

  pub IsSorted-left : (l m : List (Bytes × V)) → IsSorted (l ++ m) → IsSorted l
  IsSorted-left [] m s = tt
  IsSorted-left ((j, v) ∷ l) m (r, s) = (Above-left j l m r, IsSorted-left l m s)

  pub IsSorted-right : (l m : List (Bytes × V)) → IsSorted (l ++ m) → IsSorted m
  IsSorted-right [] m s = s
  IsSorted-right ((j, v) ∷ l) m (r, s) = IsSorted-right l m s

  -- Whatever the first part holds lies below the second.
  pub Above-lookup :
      (k : Bytes) (l m : List (Bytes × V)) (v : V)
      → IsSorted (l ++ m)
      → lookup k l ≡ some v
      → Above k m
  unfolding lookup
  Above-lookup k [] m v s h = absurd cc
  Above-lookup k ((j, w) ∷ l) m v (r, s) h =
      ground (arith, eq_of_cmp k j, Above-right j l m r, Above-lookup k l m v s)
