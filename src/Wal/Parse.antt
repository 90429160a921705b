-- ===== src/Wal/Parse.antt =====
-- The loop of `replay`, as a function of the bytes that are left.
use lsm_storage_engine.Common.{
  ℕ, zero, suc, ◌+◌, ◌≤◌, ◌<◌, ◌≡◌, refl, ap, sym, ◌∙◌, arith, Bool, false, ◌||◌, Option, none,
  some, List, [], ◌∷◌, ltb, if◌then◌else◌, length, take, drop, slice, length-drop, drop-drop,
}
use lsm_storage_engine.Common.Bytes.{Bytes}
use lsm_storage_engine.Error.{Result, ok, err, ◌>>=◌, corrupted_record}
use lsm_storage_engine.Crc.{read_u32_le}
use lsm_storage_engine.Record.{Operation, decode, max_key_size, max_value_size}
use lsm_storage_engine.Wal.{WalIterator, next, collect}

abbrev pub record_len : Bytes → ℕ
record_len bytes = 13 + read_u32_le (slice 5 9 bytes) + read_u32_le (slice 9 13 bytes)

-- The declared lengths are implausible.
abbrev pub oversized : Bytes → Bool
oversized bytes =
    ltb max_key_size (read_u32_le (slice 5 9 bytes))
    || ltb max_value_size (read_u32_le (slice 9 13 bytes))

-- One step of the log's grammar: the end (or a torn tail), an error, or a record.
unfoldable pub parse : ℕ → Bytes → Result (List Operation)
parse zero bytes = ok []
parse (suc fuel) bytes =
    let more : Result (List Operation) = elim (decode (take (record_len bytes) bytes)) [
      | err e ↦ err e
      | ok operation ↦ (do rest ← parse fuel (drop (record_len bytes) bytes); ok (operation ∷ rest))
    ] in
    if ltb (length bytes) 13
    then ok []
    else if oversized bytes
    then err corrupted_record
    else if ltb (length bytes) (record_len bytes)
    then ok []
    else more

-- The branches of a step.
pub parse_short : (fuel : ℕ) (bytes : Bytes) → length bytes < 13 → parse fuel bytes ≡ ok []
unfolding parse
parse_short zero bytes h = refl
parse_short (suc fuel) bytes h = ground arith

pub parse_cut :
    (fuel : ℕ) (bytes : Bytes)
    → oversized bytes ≡ false
    → length bytes < record_len bytes
    → parse fuel bytes ≡ ok []
unfolding parse
parse_cut zero bytes small h = refl
parse_cut (suc fuel) bytes small h = ground arith

pub parse_whole :
    (fuel : ℕ) (bytes : Bytes) (operation : Operation)
    → oversized bytes ≡ false
    → record_len bytes ≤ length bytes
    → decode (take (record_len bytes) bytes) ≡ ok operation
    → parse (suc fuel) bytes
      ≡ (do rest ← parse fuel (drop (record_len bytes) bytes); ok (operation ∷ rest))
unfolding parse
parse_whole fuel bytes operation small long h = ground arith

pub collect-parse :
    (fuel : ℕ) (it : WalIterator) → collect fuel it ≡ parse fuel (drop it.pos it.bytes)
unfolding collect parse next
collect-parse zero it = refl
collect-parse (suc fuel) it = ground (
  arith,
  drop-drop it.pos (record_len (drop it.pos it.bytes)) it.bytes,
  collect-parse fuel (record it { pos = it.pos + record_len (drop it.pos it.bytes) }),
)

-- More fuel than bytes changes nothing.
pub parse_fuel :
    (f g : ℕ) (bytes : Bytes) → length bytes < f → length bytes < g → parse f bytes ≡ parse g bytes
unfolding parse
parse_fuel zero g bytes hf hg = absurd (omega arith)
parse_fuel (suc f) zero bytes hf hg = absurd (omega arith)
parse_fuel (suc f) (suc g) bytes hf hg =
    ground
      (arith, length-drop (record_len bytes) bytes, parse_fuel f g (drop (record_len bytes) bytes))

-- The rest of the loop, after the item that `next` returned.
abbrev pub continue : Option (Result Operation) → Result (List Operation) → Result (List Operation)
continue none rest = ok []
continue (some (err e)) rest = err e
continue (some (ok operation)) rest = do operations ← rest; ok (operation ∷ operations)

next_shrinks :
    (it : WalIterator) (operation : Operation)
    → (next it).0 ≡ some (ok operation)
    → ((next it).1.bytes ≡ it.bytes)
      × (length (drop (next it).1.pos it.bytes) < length (drop it.pos it.bytes))
unfolding next
next_shrinks it operation h = (
  ground arith,
  ground (
    arith,
    drop-drop it.pos (record_len (drop it.pos it.bytes)) it.bytes,
    length-drop (record_len (drop it.pos it.bytes)) (drop it.pos it.bytes),
  ),
)

collect_step :
    (n : ℕ) (it : WalIterator) → collect (suc n) it ≡ continue (next it).0 (collect n (next it).1)
unfolding collect
collect_step n it = ground arith

collect_fuel :
    (it : WalIterator) (operation : Operation)
    → (next it).0 ≡ some (ok operation)
    → collect (length it.bytes) (next it).1 ≡ collect (suc (length (next it).1.bytes)) (next it).1
collect_fuel it operation h =
    let (bytes, less) = next_shrinks it operation h in
    let rest : Bytes = drop (next it).1.pos (next it).1.bytes in
    collect-parse (length it.bytes) (next it).1
    ∙ parse_fuel (length it.bytes) (suc (length (next it).1.bytes)) rest
        (rw bytes (omega (arith, length-drop it.pos it.bytes)))
        (omega (arith, length-drop (next it).1.pos (next it).1.bytes))
    ∙ sym (collect-parse (suc (length (next it).1.bytes)) (next it).1)

-- The loop never stops for want of fuel: with as much fuel as the buffer has bytes, and one more,
-- it does what the item returned by `next` says, and goes on from the iterator that `next` left.
pub collect_equation :
    (it : WalIterator)
    → collect (suc (length it.bytes)) it
      ≡ continue (next it).0 (collect (suc (length (next it).1.bytes)) (next it).1)
collect_equation it = go (next it).0 refl
  where
    go :
        (item : Option (Result Operation))
        → (next it).0 ≡ item
        → collect (suc (length it.bytes)) it
          ≡ continue item (collect (suc (length (next it).1.bytes)) (next it).1)
    go none e = collect_step (length it.bytes) it ∙ rw e refl
    go (some (err x)) e = collect_step (length it.bytes) it ∙ rw e refl
    go (some (ok operation)) e =
        collect_step (length it.bytes) it
        ∙ rw e (ap (continue (some (ok operation))) (collect_fuel it operation e))
