-- ===== src/Manifest/Unique.antt =====
-- No id stands twice among the tables.
use lsm_storage_engine.Common.{
  ℕ, zero, suc, ◌≡◌, refl, arith, false, ◌||◌, Bool-cases, ◌⊎◌, inl, inr, [], ◌∷◌, ◌++◌, ltb, ◌==◌,
  if◌then◌else◌, length, drop, slice,
}
use lsm_storage_engine.Common.Bytes.{Bytes}
use lsm_storage_engine.Error.{Result, ok, Result-cases}
use lsm_storage_engine.Manifest.{
  ManifestRecord, add_table_record, remove_table_record, set_next_table_id, Tables, Contents,
  decode_body, apply_record, recover_loop, recover, no_tables, has_table, without_table,
}

abbrev pub IsUnique : Tables → Type 0
IsUnique [] = Unit
IsUnique ((id, level) ∷ tables) = (has_table id tables ≡ false) × IsUnique tables

has_table-append :
    (i id level : ℕ) (tables : Tables)
    → has_table i (tables ++ (id, level) ∷ []) ≡ (has_table i tables || id == i)
unfolding has_table
has_table-append i id level [] = ground arith
has_table-append i id level ((j, l) ∷ tables) = ground (arith, has_table-append i id level tables)

append-IsUnique :
    (id level : ℕ) (tables : Tables)
    → has_table id tables ≡ false
    → IsUnique tables
    → IsUnique (tables ++ (id, level) ∷ [])
unfolding has_table
append-IsUnique id level [] h u = (refl, tt)
append-IsUnique id level ((j, l) ∷ tables) h (hj, u) = (
  ground (arith, has_table-append j id level tables),
  append-IsUnique id level tables (ground arith) u,
)

-- Removing an id removes it, and no other.
pub has_table-without_table :
    (i id : ℕ) (tables : Tables)
    → has_table i (without_table id tables) ≡ (if i == id then false else has_table i tables)
unfolding has_table without_table
has_table-without_table i id [] = ground arith
has_table-without_table i id ((j, l) ∷ tables) = ground (arith, has_table-without_table i id tables)

without_table-IsUnique :
    (id : ℕ) (tables : Tables) → IsUnique tables → IsUnique (without_table id tables)
unfolding without_table
without_table-IsUnique id [] u = tt
without_table-IsUnique id ((j, l) ∷ tables) (hj, u) =
    ground (arith, has_table-without_table j id tables, without_table-IsUnique id tables u)

apply_record-IsUnique :
    (r : ManifestRecord) (c c' : Contents)
    → apply_record r c ≡ ok c'
    → IsUnique c.tables
    → IsUnique c'.tables
unfolding apply_record
apply_record-IsUnique (add_table_record id level) c c' h u =
    ground (arith, append-IsUnique id level c.tables)
apply_record-IsUnique (remove_table_record id) c c' h u =
    ground (arith, without_table-IsUnique id c.tables u)
apply_record-IsUnique (set_next_table_id id) c c' h u = ground arith

-- Where a successful run of the loop stands after one round.
round :
    (fuel : ℕ) (bytes : Bytes) (c c' : Contents)
    → recover_loop (suc fuel) bytes c ≡ ok c'
    → (c ≡ c')
      ⊎ ((r : ManifestRecord) × (d : Contents) × (apply_record r c ≡ ok d)
          × (recover_loop fuel (drop 17 bytes) d ≡ ok c'))
unfolding recover_loop
round fuel bytes c c' h = elim (Result-cases (decode_body (slice 4 17 bytes))) [
  | inl (r, e) ↦ elim (Result-cases (apply_record r c)) [
    | inl (d, e') ↦ elim (Bool-cases (ltb (length bytes) 17)) [
      | inl short ↦ inl (ground arith)
      | inr long ↦ inr (r, d, e', ground arith)
    ]
    | inr (x, e') ↦ inl (ground arith)
  ]
  | inr (x, e) ↦ inl (ground arith)
]

recover_loop-IsUnique :
    (fuel : ℕ) (bytes : Bytes) (c c' : Contents)
    → recover_loop fuel bytes c ≡ ok c'
    → IsUnique c.tables
    → IsUnique c'.tables
recover_loop-IsUnique zero bytes c c' h u =
    let e : ◌≡◌ {A = Result Contents} (ok c) (ok c') = unfold recover_loop in h in ground arith
recover_loop-IsUnique (suc fuel) bytes c c' h u = elim (round fuel bytes c c' h) [
  | inl e ↦ rw (← e) u
  | inr (r, d, e, rest) ↦
      recover_loop-IsUnique fuel (drop 17 bytes) d c' rest (apply_record-IsUnique r c d e u)
]

-- Whatever bytes the file holds, if they are accepted then no table id is listed twice.
pub recover-IsUnique : (bytes : Bytes) (c : Contents) → recover bytes ≡ ok c → IsUnique c.tables
unfolding recover
recover-IsUnique bytes c h = recover_loop-IsUnique (length bytes) bytes no_tables c h tt
