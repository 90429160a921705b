-- ===== src/Manifest/Removal.antt =====
-- What `remove_tables` of src/manifest.rs leaves, with each of its outcomes.
use lsm_storage_engine.Common.{
  ℕ, ◌^◌, ◌<◌, ◌≡◌, refl, ◌∙◌, arith, Bool, true, false, not, ◌&&◌, ◌||◌, List, [], ◌∷◌, ◌==◌, All,
  Bool-cases, inl, inr,
}
use lsm_storage_engine.Error.{Error, Result, ok, err, other_error}
use lsm_storage_engine.Failpoints.{fires, manifest_write}
use lsm_storage_engine.Manifest.{
  Tables, Manifest, append, remove_table, remove_tables, has_table, without_table,
}
use lsm_storage_engine.Manifest.Refine.{IsLog, remove_tables-IsLog}

abbrev listed : ℕ → List ℕ → Bool
listed id [] = false
listed id (i ∷ ids) = (i == id) || listed id ids

-- Either every listed table is gone and no other, or the armed failure has left all of them.
pub data Removed (ids : List ℕ) (m : Manifest) (r : Result (Unit {0}) × Manifest) : Type 0 where
  all_gone :
      r.0 ≡ ok tt
      → ((id : ℕ) → has_table id r.1.tables ≡ (has_table id m.tables && not (listed id ids)))
      → Removed ids m r
  all_left :
      fires manifest_write m.failpoint ≡ true
      → r.0 ≡ err (other_error "injected manifest write failure")
      → r.1.tables ≡ m.tables
      → r.1.file ≡ m.file
      → Removed ids m r

has_table-without_table :
    (id gone : ℕ) (tables : Tables)
    → has_table id (without_table gone tables) ≡ (has_table id tables && not (gone == id))
unfolding has_table without_table
has_table-without_table id gone [] = refl
has_table-without_table id gone ((i, level) ∷ tables) =
    ground (arith, has_table-without_table id gone tables)

-- A removal whose record is written.
remove_table-works :
    (id : ℕ) (m : Manifest)
    → fires manifest_write m.failpoint ≡ false
    → ((remove_table id m).0 ≡ ok tt)
      × (fires manifest_write (remove_table id m).1.failpoint ≡ false)
      × ((remove_table id m).1.tables ≡ without_table id m.tables)
unfolding remove_table append
remove_table-works id m works = (ground arith, ground arith, ground arith)

and_not : (a b c : Bool) → ((a && not b) && not c) ≡ (a && not (b || c))
and_not true true c = refl
and_not true false c = refl
and_not false b c = refl

-- The two ways on from the first removal.
remove_tables-next :
    (id : ℕ) (ids : List ℕ) (m : Manifest)
    → (remove_table id m).0 ≡ ok tt
    → remove_tables (id ∷ ids) m ≡ remove_tables ids (remove_table id m).1
unfolding remove_tables
remove_tables-next id ids m h = rw (remove_tables, h) refl

remove_tables-stops :
    (id : ℕ) (ids : List ℕ) (m : Manifest) (e : Error)
    → (remove_table id m).0 ≡ err e
    → remove_tables (id ∷ ids) m ≡ (err e, (remove_table id m).1)
unfolding remove_tables
remove_tables-stops id ids m e h = rw (remove_tables, h) refl

remove_tables-works :
    (ids : List ℕ) (m : Manifest)
    → fires manifest_write m.failpoint ≡ false
    → ((remove_tables ids m).0 ≡ ok tt)
      × ((id : ℕ)
          → has_table id (remove_tables ids m).1.tables
            ≡ (has_table id m.tables && not (listed id ids)))
unfolding remove_tables
remove_tables-works [] m works = (refl, λ id. ground arith)
remove_tables-works (i ∷ ids) m works =
    let first = remove_table-works i m works in
    let rest = remove_tables-works ids (remove_table i m).1 first.1 in
    rw (remove_tables-next i ids m first.0) (
      rest.0,
      λ id.
          rest.1 id
          ∙ rw (first.2, has_table-without_table id i m.tables)
              (and_not (has_table id m.tables) (i == id) (listed id ids)),
    )

remove_table-fails :
    (id : ℕ) (m : Manifest)
    → fires manifest_write m.failpoint ≡ true
    → ((remove_table id m).0 ≡ err (other_error "injected manifest write failure"))
      × ((remove_table id m).1.tables ≡ m.tables)
      × ((remove_table id m).1.file ≡ m.file)
unfolding remove_table append
remove_table-fails id m fails = (ground arith, ground arith, ground arith)

remove_tables-fails :
    (ids : List ℕ) (m : Manifest)
    → fires manifest_write m.failpoint ≡ true
    → Removed ids m (remove_tables ids m)
unfolding remove_tables
remove_tables-fails [] m fails = all_gone refl (λ id. ground arith)
remove_tables-fails (i ∷ ids) m fails =
    let first = remove_table-fails i m fails in
    let stops = remove_tables-stops i ids m _ first.0 in
    all_left fails (rw stops refl) (rw stops first.1) (rw stops first.2)

-- Removing tables whose ids fit 64 bits from a log whose replay is what memory holds keeps it so,
-- and has one of two outcomes: it succeeds, and just the tables with the given ids are gone; or
-- the injected write failure is returned, and the tables and the file are as they were.
pub remove_tables-Removed :
    (ids : List ℕ) (m : Manifest)
    → IsLog m
    → All (λ id. id < 2 ^ 64) ids
    → Removed ids m (remove_tables ids m) × IsLog (remove_tables ids m).1
remove_tables-Removed ids m log h = (
  elim (Bool-cases (fires manifest_write m.failpoint)) [
    | inl fails ↦ remove_tables-fails ids m fails
    | inr works ↦ all_gone (remove_tables-works ids m works).0 (remove_tables-works ids m works).1
  ],
  remove_tables-IsLog ids m log h,
)
