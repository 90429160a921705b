-- ===== src/Workload.antt =====
-- src/bin/workload.rs: the generator of workloads, on the engine.
mod Runs
use lsm_storage_engine.Common.{
  ℕ, zero, suc, ◌+◌, ◌-◌, ◌*◌, ◌/◌, ◌%◌, ◌^◌, bit_xor, Option, none, some, List, [], ◌∷◌, ◌++◌,
  length, replicate, ◌==◌, if◌then◌else◌,
}
use lsm_storage_engine.Common.Bytes.{Bytes, eq_bytes}
use lsm_storage_engine.Error.{Result, ok, err}
use lsm_storage_engine.Files.{digits}
use lsm_storage_engine.Bloom.Float.{F64}
use lsm_storage_engine.Engine.State.{Engine, get, ◌and_then◌}
use lsm_storage_engine.Engine.Write.{put_key}

pub data Workload : Type 0 where
  sequential random read_heavy write_heavy negative overwrite : Workload

-- The names, in ASCII.
unfoldable pub workload_name : Workload → Bytes
workload_name sequential = b's' ∷ b'e' ∷ b'q' ∷ b'u' ∷ b'e' ∷ b'n' ∷ b't' ∷ b'i' ∷ b'a' ∷ b'l' ∷ []
workload_name random = b'r' ∷ b'a' ∷ b'n' ∷ b'd' ∷ b'o' ∷ b'm' ∷ []
workload_name read_heavy = b'r' ∷ b'e' ∷ b'a' ∷ b'd' ∷ b'-' ∷ b'h' ∷ b'e' ∷ b'a' ∷ b'v' ∷ b'y' ∷ []
workload_name write_heavy =
    b'w' ∷ b'r' ∷ b'i' ∷ b't' ∷ b'e' ∷ b'-' ∷ b'h' ∷ b'e' ∷ b'a' ∷ b'v' ∷ b'y' ∷ []
workload_name negative = b'n' ∷ b'e' ∷ b'g' ∷ b'a' ∷ b't' ∷ b'i' ∷ b'v' ∷ b'e' ∷ []
workload_name overwrite = b'o' ∷ b'v' ∷ b'e' ∷ b'r' ∷ b'w' ∷ b'r' ∷ b'i' ∷ b't' ∷ b'e' ∷ []

unfoldable pub parse_workload : Bytes → Workload
unfolding workload_name
parse_workload name =
    if eq_bytes name (workload_name sequential)
    then sequential
    else if eq_bytes name (workload_name read_heavy)
    then read_heavy
    else if eq_bytes name (workload_name write_heavy)
    then write_heavy
    else if eq_bytes name (workload_name negative)
    then negative
    else if eq_bytes name (workload_name overwrite)
    then overwrite
    else random

-- The new state, which is also the result; shifts to the left drop what leaves 64 bits.
unfoldable pub xorshift : ℕ → ℕ
xorshift state =
    let x = bit_xor state (state * 2 ^ 13 % 2 ^ 64) in
    let y = bit_xor x (x / 2 ^ 7) in bit_xor y (y * 2 ^ 17 % 2 ^ 64)

-- `format!("{n:06}")` and the like: the digits of a number, with zeros in front up to a width.
abbrev pub padded : ℕ → ℕ → Bytes
padded width n = replicate (width - length (digits 20 n)) b'0' ++ digits 20 n

abbrev pub key_prefix : Bytes
key_prefix = b'k' ∷ b'e' ∷ b'y' ∷ b'-' ∷ []

unfoldable pub random_key : ℕ → ℕ → Bytes × ℕ
unfolding xorshift digits
random_key space rng = (key_prefix ++ padded 6 (xorshift rng % space), xorshift rng)

-- What a round of the loop in `main` does: a write with its value, or a read.
pub data Round : Type 0 where
  written : Bytes → Bytes → Round
  sought : Bytes → Round

unfoldable pub round_of : Workload → ℕ → ℕ → Round × ℕ
unfolding random_key
round_of sequential i rng = (written (key_prefix ++ padded 6 i) (replicate 64 b'x'), rng)
round_of random i rng =
    let (key, next) = random_key 50000 rng in (written key (replicate 64 b'r'), next)
round_of read_heavy i rng =
    let (key, next) = random_key 5000 rng in
    if i % 10 == 0 then (written key (replicate 32 b'w'), next) else (sought key, next)
round_of write_heavy i rng =
    let (key, next) = random_key 8000 rng in
    if i % 5 == 0 then (sought key, next) else (written key (replicate 64 b'w'), next)
round_of negative i rng =
    (sought (b'm' ∷ b'i' ∷ b's' ∷ b's' ∷ b'i' ∷ b'n' ∷ b'g' ∷ b'-' ∷ padded 8 i), rng)
round_of overwrite i rng =
    (written (b'h' ∷ b'o' ∷ b't' ∷ b'-' ∷ digits 20 (i % 64)) (replicate 64 b'o'), rng)

module _ (f : F64) where
  open f use {Float}

  -- A round on the engine, with the bytes that it adds to the count; an error ends the program, as
  -- `unwrap` does.
  unfoldable pub do_round : Round → Engine Float → Result ℕ × Engine Float
  do_round (written key v) e = put_key f key v e and_then λ u e'. (ok (length key + length v), e')
  do_round (sought key) e = get key e and_then λ found e'. (ok 0, e')

  -- The loop, with the rounds that are left; the clock is not read.
  unfoldable pub run_rounds : ℕ → Workload → ℕ → ℕ → ℕ → Engine Float → Result ℕ × Engine Float
  unfolding round_of do_round
  run_rounds zero workload i rng bytes e = (ok bytes, e)
  run_rounds (suc rounds) workload i rng bytes e =
      let (round, next) = round_of workload i rng in
      do_round round e and_then λ added e'.
      run_rounds rounds workload (i + 1) next (bytes + added) e'
