-- ===== src/Common/Bytes.antt =====
-- Byte strings, and the order that Rust gives to slices of bytes.
use Prim.Native.Nat.{ℕ, ◌<◌, compare, Ordering}
use mathlib.Core.Path.{◌≡◌, refl}
use mathlib.Core.Bool.{Bool, true, false}
use mathlib.Core.List.{List, [], ◌∷◌}
use native.Mathlib.Omega.{arith}

abbrev pub Bytes : Type 0
Bytes = List ℕ

abbrev pub IsByte : ℕ → Type 0
IsByte b = b < 256

-- The lexicographic order of byte strings.
unfoldable pub cmp : Bytes → Bytes → Ordering
cmp [] [] = Ordering.eq
cmp [] (y ∷ ys) = Ordering.lt
cmp (x ∷ xs) [] = Ordering.gt
cmp (x ∷ xs) (y ∷ ys) =
    let rest = cmp xs ys in
    elim (compare x y) [
      | Ordering.lt ↦ Ordering.lt
      | Ordering.gt ↦ Ordering.gt
      | Ordering.eq ↦ rest
    ]

-- `a < b`, `a <= b` and `a == b` on byte strings.
abbrev pub lt_bytes : Bytes → Bytes → Bool
lt_bytes a b = elim (cmp a b) [ Ordering.lt ↦ true | _ ↦ false ]

abbrev pub le_bytes : Bytes → Bytes → Bool
le_bytes a b = elim (cmp a b) [ Ordering.gt ↦ false | _ ↦ true ]

abbrev pub eq_bytes : Bytes → Bytes → Bool
eq_bytes a b = elim (cmp a b) [ Ordering.eq ↦ true | _ ↦ false ]

infix 50 ◌≺◌
abbrev pub ◌≺◌ : Bytes → Bytes → Type 0
a ≺ b = cmp a b ≡ Ordering.lt

pub cmp_refl : (a : Bytes) → cmp a a ≡ Ordering.eq
unfolding cmp
cmp_refl [] = refl
cmp_refl (x ∷ xs) = ground (arith, cmp_refl xs)

pub eq_of_cmp : (a b : Bytes) → cmp a b ≡ Ordering.eq → a ≡ b
unfolding cmp
eq_of_cmp [] [] h = refl
eq_of_cmp [] (y ∷ ys) h = cc
eq_of_cmp (x ∷ xs) [] h = cc
eq_of_cmp (x ∷ xs) (y ∷ ys) h = ground (arith, eq_of_cmp xs ys)

pub gt_of_lt : (a b : Bytes) → a ≺ b → cmp b a ≡ Ordering.gt
unfolding cmp
gt_of_lt [] [] h = cc
gt_of_lt [] (y ∷ ys) h = refl
gt_of_lt (x ∷ xs) [] h = cc
gt_of_lt (x ∷ xs) (y ∷ ys) h = ground (arith, gt_of_lt xs ys)

pub lt_of_gt : (a b : Bytes) → cmp a b ≡ Ordering.gt → b ≺ a
unfolding cmp
lt_of_gt [] [] h = cc
lt_of_gt [] (y ∷ ys) h = cc
lt_of_gt (x ∷ xs) [] h = refl
lt_of_gt (x ∷ xs) (y ∷ ys) h = ground (arith, lt_of_gt xs ys)

pub cmp-lt_trans : (a b c : Bytes) → a ≺ b → b ≺ c → a ≺ c
unfolding cmp
cmp-lt_trans [] b [] h k = absurd (go b h k)
  where
    go : (b : Bytes) → [] ≺ b → b ≺ [] → ⊥
    go [] h k = cc
    go (y ∷ ys) h k = cc
cmp-lt_trans [] b (z ∷ zs) h k = refl
cmp-lt_trans (x ∷ xs) [] c h k = cc
cmp-lt_trans (x ∷ xs) (y ∷ ys) [] h k = cc
cmp-lt_trans (x ∷ xs) (y ∷ ys) (z ∷ zs) h k = ground (arith, cmp-lt_trans xs ys zs)

pub data Cmp (a b : Bytes) : Type 0 where
  less : a ≺ b → Cmp a b
  same : a ≡ b → Cmp a b
  more : b ≺ a → Cmp a b

-- Trichotomy, to split on.
pub Cmp-cases : (a b : Bytes) → Cmp a b
Cmp-cases a b = go (cmp a b) refl
  where
    go : (o : Ordering) → cmp a b ≡ o → Cmp a b
    go Ordering.lt e = less e
    go Ordering.eq e = same (eq_of_cmp a b e)
    go Ordering.gt e = more (lt_of_gt a b e)
