-- ===== src/Engine/Levels/Retain.antt =====
-- Which tables a compaction removes: they are found by their numbers, and each number is used once.
use lsm_storage_engine.Common.{
  ℕ, ◌≡◌, ◌≢◌, refl, sym, ap, ◌∙◌, arith, Bool, true, false, ◌||◌, List, [], ◌∷◌, ◌++◌,
  append_assoc, ==_refl, inl, inr, Bool-cases,
}
use mathlib.Core.Path.{subst}
use lsm_storage_engine.Common.Bytes.{Bytes}
use lsm_storage_engine.SsTable.Create.{SsTable}
use lsm_storage_engine.Engine.Version.{overlaps, overlapping, ids, contains, retain}
use lsm_storage_engine.Engine.Levels.First.{apart}

-- No table has the number.
abbrev pub AllOther : ℕ → List SsTable → Type 0
AllOther i [] = Unit
AllOther i (t ∷ tables) = (t.id ≢ i) × AllOther i tables

abbrev pub AllDistinct : List SsTable → Type 0
AllDistinct [] = Unit
AllDistinct (t ∷ tables) = AllOther t.id tables × AllDistinct tables

-- No table of one list has the number of a table of the other.
abbrev pub Separate : List SsTable → List SsTable → Type 0
Separate [] ys = Unit
Separate (x ∷ xs) ys = AllOther x.id ys × Separate xs ys

AllOther-append :
    (i : ℕ) (xs ys : List SsTable) → AllOther i (xs ++ ys) → AllOther i xs × AllOther i ys
AllOther-append i [] ys o = (tt, o)
AllOther-append i (x ∷ xs) ys (n, o) = let (a, b) = AllOther-append i xs ys o in ((n, a), b)

pub AllDistinct-append :
    (xs ys : List SsTable)
    → AllDistinct (xs ++ ys)
    → AllDistinct xs × AllDistinct ys × Separate xs ys
AllDistinct-append [] ys d = (tt, d, tt)
AllDistinct-append (x ∷ xs) ys (o, d) =
    let (a, b, s) = AllDistinct-append xs ys d in
    let (ox, oy) = AllOther-append x.id xs ys o in ((ox, a), b, (oy, s))

pub Separate-append :
    (xs ys zs : List SsTable) → Separate xs (ys ++ zs) → Separate xs ys × Separate xs zs
Separate-append [] ys zs s = (tt, tt)
Separate-append (x ∷ xs) ys zs (o, s) =
    let (a, b) = AllOther-append x.id ys zs o in
    let (c, d) = Separate-append xs ys zs s in ((a, c), (b, d))

pub Separate-join :
    (xs ys zs : List SsTable) → Separate xs zs → Separate ys zs → Separate (xs ++ ys) zs
Separate-join [] ys zs s r = r
Separate-join (x ∷ xs) ys zs (o, s) r = (o, Separate-join xs ys zs s r)

Separate-snoc_other :
    (xs : List SsTable) (y : SsTable) (ys : List SsTable)
    → AllOther y.id xs
    → Separate xs ys
    → Separate xs (y ∷ ys)
Separate-snoc_other [] y ys o s = tt
Separate-snoc_other (x ∷ xs) y ys (n, o) (p, s) =
    ((λ e. n (sym e), p), Separate-snoc_other xs y ys o s)

pub Separate-sym : (xs ys : List SsTable) → Separate xs ys → Separate ys xs
Separate-sym [] ys s = nothing ys
  where
    nothing : (ys : List SsTable) → Separate ys []
    nothing [] = tt
    nothing (y ∷ ys) = (tt, nothing ys)
Separate-sym (x ∷ xs) ys (o, s) = Separate-snoc_other ys x xs o (Separate-sym xs ys s)

AllOther-overlapping :
    (i : ℕ) (small large : Bytes) (level : List SsTable)
    → AllOther i level
    → AllOther i (overlapping small large level)
unfolding overlapping
AllOther-overlapping i small large [] o = tt
AllOther-overlapping i small large (t ∷ level) (n, o) =
    ground (arith, AllOther-overlapping i small large level o)

pub Separate-overlapping :
    (small large : Bytes) (level ys : List SsTable)
    → Separate level ys
    → Separate (overlapping small large level) ys
unfolding overlapping
Separate-overlapping small large [] ys s = tt
Separate-overlapping small large (t ∷ level) ys (o, s) =
    ground (arith, Separate-overlapping small large level ys s)

contains-other :
    (i : ℕ) (tables : List SsTable) → AllOther i tables → contains i (ids tables) ≡ false
contains-other i [] o = refl
contains-other i (t ∷ tables) (n, o) = ground (arith, contains-other i tables o)

contains-append :
    (i : ℕ) (xs ys : List SsTable)
    → contains i (ids (xs ++ ys)) ≡ (contains i (ids xs) || contains i (ids ys))
contains-append i [] ys = refl
contains-append i (x ∷ xs) ys = ground (arith, contains-append i xs ys)

-- Tables with other numbers are kept.
pub retain-Separate :
    (inputs tables : List SsTable) → Separate tables inputs → retain (ids inputs) tables ≡ tables
unfolding retain
retain-Separate inputs [] s = refl
retain-Separate inputs (t ∷ tables) (o, s) =
    rw (contains-other t.id inputs o) (ap (λ l. t ∷ l) (retain-Separate inputs tables s))

-- The tables that come first among the inputs are removed, and those behind them decided.
pub retain-inputs :
    (before xs ys more : List SsTable)
    → retain (ids (before ++ (xs ++ more))) (xs ++ ys) ≡ retain (ids (before ++ (xs ++ more))) ys
unfolding retain
retain-inputs before [] ys more = refl
retain-inputs before (x ∷ xs) ys more =
    dropped
    ∙ subst (λ l. retain (ids l) (xs ++ ys) ≡ retain (ids l) ys)
        (append_assoc before (x ∷ []) (xs ++ more)) (retain-inputs (before ++ x ∷ []) xs ys more)
  where
    or_true : (b : Bool) → (b || true) ≡ true
    or_true b = ground arith

    found : contains x.id (ids (before ++ x ∷ (xs ++ more))) ≡ true
    found =
        contains-append x.id before (x ∷ (xs ++ more))
        ∙ rw (==_refl x.id) (or_true (contains x.id (ids before)))

    dropped :
        retain (ids (before ++ x ∷ (xs ++ more))) (x ∷ (xs ++ ys))
        ≡ retain (ids (before ++ x ∷ (xs ++ more))) (xs ++ ys)
    dropped = rw found refl

-- Of a level those are removed that overlap the range.
abbrev Decided : Bytes → Bytes → List ℕ → List SsTable → Type 0
Decided small large remove [] = Unit
Decided small large remove (t ∷ level) =
    (contains t.id remove ≡ overlaps t small large) × Decided small large remove level

Decided-more :
    (small large : Bytes) (i : ℕ) (remove : List ℕ) (level : List SsTable)
    → AllOther i level
    → Decided small large remove level
    → Decided small large (i ∷ remove) level
Decided-more small large i remove [] o d = tt
Decided-more small large i remove (t ∷ level) (n, o) (e, d) =
    (ground arith, Decided-more small large i remove level o d)

Decided-overlapping :
    (small large : Bytes) (level : List SsTable)
    → AllDistinct level
    → Decided small large (ids (overlapping small large level)) level
unfolding overlapping
Decided-overlapping small large [] d = tt
Decided-overlapping small large (t ∷ level) (o, d) =
    let rest : Decided small large (ids (overlapping small large level)) level =
      Decided-overlapping small large level d in
    elim (Bool-cases (overlaps t small large)) [
      | inl over ↦
          subst (λ l. Decided small large (ids l) (t ∷ level)) (sym (taken over))
            (
              rw (over, ==_refl t.id) refl,
              Decided-more small large t.id (ids (overlapping small large level)) level o rest,
            )
      | inr beside ↦
          subst (λ l. Decided small large (ids l) (t ∷ level)) (sym (left beside))
            (
              contains-other t.id (overlapping small large level)
                    (AllOther-overlapping t.id small large level o)
                  ∙ sym beside,
              rest,
            )
    ]
  where
    taken :
        overlaps t small large ≡ true
        → overlapping small large (t ∷ level) ≡ t ∷ overlapping small large level
    taken e = rw e refl

    left :
        overlaps t small large ≡ false
        → overlapping small large (t ∷ level) ≡ overlapping small large level
    left e = rw e refl

Decided-before :
    (small large : Bytes) (xs ys level : List SsTable)
    → Separate level xs
    → Decided small large (ids ys) level
    → Decided small large (ids (xs ++ ys)) level
Decided-before small large xs ys [] s d = tt
Decided-before small large xs ys (t ∷ level) (o, s) (e, d) = (
  rw (contains-append t.id xs ys, contains-other t.id xs o) e,
  Decided-before small large xs ys level s d,
)

retain-Decided :
    (small large : Bytes) (remove : List ℕ) (level : List SsTable)
    → Decided small large remove level
    → retain remove level ≡ apart small large level
unfolding retain
retain-Decided small large remove [] d = refl
retain-Decided small large remove (t ∷ level) (e, d) =
    rw (e, retain-Decided small large remove level d) refl

pub retain-overlapping :
    (small large : Bytes) (xs level : List SsTable)
    → AllDistinct level
    → Separate xs level
    → retain (ids (xs ++ overlapping small large level)) level ≡ apart small large level
retain-overlapping small large xs level d s =
    retain-Decided small large (ids (xs ++ overlapping small large level)) level (
      Decided-before small large xs (overlapping small large level) level (Separate-sym xs level s)
        (Decided-overlapping small large level d))
