-- ===== src/Bloom.antt =====
-- src/bloom.rs: the filter of a table's keys. A `u64` is a native number below 2 ^ 64.
pub mod Float
pub mod Whole
pub mod Bits
pub mod Contains
pub mod Codec
mod Examples
use lsm_storage_engine.Common.{
  ℕ, zero, suc, ◌+◌, ◌*◌, ◌/◌, ◌%◌, ◌^◌, bit_or, bit_xor, bit_and, Bool, true, false, not, ◌||◌,
  List, [], ◌∷◌, ◌++◌, ltb, ◌==◌, if◌then◌else◌, length, get_or, set, take, drop, slice, replicate,
}
use lsm_storage_engine.Common.Bytes.{Bytes}
use lsm_storage_engine.Error.{
  Result, ok, err, ◌>>=◌, ◌>>◌, reject_if, corrupted_record, invalid_checksum,
}
use lsm_storage_engine.Crc.{crc32, u32_le, read_u32_le}
use lsm_storage_engine.Bloom.Float.{F64}

pub record BloomFilter : Type 0 where
  pub bits : Bytes
  pub hash_count : ℕ

-- `u32::clamp`
abbrev clamp : ℕ → ℕ → ℕ → ℕ
clamp low high x = if ltb x low then low else if ltb high x then high else x

-- `usize::max(1)`
abbrev at_least_one : ℕ → ℕ
at_least_one n = if ltb n 1 then 1 else n

module _ (f : F64) where
  open f use {
    Float, of_usize, to_usize, to_u32, neg, mul, div, ln, powi, ceil, round, max_float, clamp_float,
    least_rate, greatest_rate, sixty_four, ln_2,
  }

  unfoldable pub new : ℕ → Float → BloomFilter
  new expected_items false_positive_rate =
      let n = of_usize (at_least_one expected_items) in
      let p = clamp_float false_positive_rate least_rate greatest_rate in
      let bit_count =
        to_usize (max_float (ceil (div (mul (neg n) (ln p)) (powi ln_2 2))) sixty_four) in
      let hash_count = clamp 1 16 (to_u32 (round (mul (div (of_usize bit_count) n) ln_2))) in
      record { bits = replicate ((bit_count + 7) / 8) 0; hash_count = hash_count }

unfoldable pub empty : BloomFilter
empty = record { bits = replicate 8 0; hash_count = 1 }

fnv_loop : ℕ → Bytes → ℕ
fnv_loop hash [] = hash
fnv_loop hash (byte ∷ bytes) = fnv_loop (bit_xor hash byte * 0x100000001b3 % 2 ^ 64) bytes

unfoldable pub fnv1a_64 : Bytes → ℕ
unfolding fnv_loop
fnv1a_64 bytes = fnv_loop 0xcbf29ce484222325 bytes

unfoldable pub splitmix : ℕ → ℕ
splitmix x =
    let z = (x + 0x9E3779B97F4A7C15) % 2 ^ 64 in
    let z₁ = bit_xor z (z / 2 ^ 30) * 0xBF58476D1CE4E5B9 % 2 ^ 64 in
    let z₂ = bit_xor z₁ (z₁ / 2 ^ 27) * 0x94D049BB133111EB % 2 ^ 64 in bit_xor z₂ (z₂ / 2 ^ 31)

unfoldable pub hash_pair : Bytes → ℕ × ℕ
unfolding fnv1a_64 splitmix
hash_pair key = (fnv1a_64 key, splitmix (bit_xor (fnv1a_64 key) 0x9E3779B97F4A7C15))

-- `h1.wrapping_add(i.wrapping_mul(h2)) as usize % bit_count`
unfoldable pub bit_index : ℕ × ℕ → ℕ → ℕ → ℕ
bit_index (h1, h2) bit_count i = (h1 + i * h2 % 2 ^ 64) % 2 ^ 64 % bit_count

-- `bits[idx / 8] |= 1 << (idx % 8)`
unfoldable pub set_bit : Bytes → ℕ → Bytes
set_bit bits idx = set bits (idx / 8) (bit_or (get_or bits (idx / 8) 0) (2 ^ (idx % 8)))

-- `bits[idx / 8] & (1 << (idx % 8)) == 0`, denied.
unfoldable pub has_bit : Bytes → ℕ → Bool
has_bit bits idx = not (bit_and (get_or bits (idx / 8) 0) (2 ^ (idx % 8)) == 0)

-- The loops over `i`, with the rounds that are left.
unfoldable pub insert_loop : ℕ → ℕ → ℕ × ℕ → ℕ → Bytes → Bytes
insert_loop zero i h bit_count bits = bits
insert_loop (suc n) i h bit_count bits =
    insert_loop n (i + 1) h bit_count (set_bit bits (bit_index h bit_count i))

unfoldable pub contain_loop : ℕ → ℕ → ℕ × ℕ → ℕ → Bytes → Bool
contain_loop zero i h bit_count bits = true
contain_loop (suc n) i h bit_count bits =
    let rest = contain_loop n (i + 1) h bit_count bits in
    if not (has_bit bits (bit_index h bit_count i)) then false else rest

unfoldable pub insert : Bytes → BloomFilter → BloomFilter
insert key filter = record filter {
  bits = insert_loop filter.hash_count 0 (hash_pair key) (length filter.bits * 8) filter.bits;
}

unfoldable pub might_contain : Bytes → BloomFilter → Bool
might_contain key filter =
    if length filter.bits == 0
    then false
    else contain_loop filter.hash_count 0 (hash_pair key) (length filter.bits * 8) filter.bits

-- What the checksum of `encode` covers.
abbrev pub encode_body : BloomFilter → Bytes
encode_body filter =
    u32_le filter.hash_count ++ (u32_le (length filter.bits % 2 ^ 32) ++ filter.bits)

unfoldable pub encode : BloomFilter → Bytes
encode filter = encode_body filter ++ u32_le (crc32 (encode_body filter))

unfoldable pub decode : Bytes → Result BloomFilter
decode bytes = do
  reject_if (ltb (length bytes) 12) corrupted_record
  let hash_count = read_u32_le (slice 0 4 bytes)
  let bit_len = read_u32_le (slice 4 8 bytes)
  reject_if (hash_count == 0 || ltb 16 hash_count) corrupted_record
  reject_if (not (length bytes == 8 + bit_len + 4)) corrupted_record
  reject_if (not (crc32 (take (8 + bit_len) bytes) == read_u32_le (drop (8 + bit_len) bytes)))
      invalid_checksum
  ok (record { bits = slice 8 (8 + bit_len) bytes; hash_count = hash_count })
