-- ===== src/Crc.antt =====
-- src/crc.rs: the checksum of every on-disk structure, and little-endian integers. A `u32` and a
-- `u64` are native numbers; `u32_le` and `u64_le` are the standard library's `to_le_bytes`.
pub mod LittleEndian
mod Examples
use lsm_storage_engine.Common.{
  ℕ, zero, suc, ◌+◌, ◌-◌, ◌*◌, ◌/◌, ◌%◌, ◌^◌, bit_and, bit_xor, List, [], ◌∷◌, ◌++◌, take, drop,
}
use lsm_storage_engine.Common.Bytes.{Bytes}

-- One round of `for _ in 0..8`; `wrapping_neg` of the low bit is the mask.
crc_bit : ℕ → ℕ
crc_bit crc =
    let mask = (2 ^ 32 - bit_and crc 1) % 2 ^ 32 in bit_xor (crc / 2) (bit_and 0xEDB88320 mask)

crc_bits : ℕ → ℕ → ℕ
crc_bits zero crc = crc
crc_bits (suc n) crc = crc_bits n (crc_bit crc)

crc_bytes : ℕ → Bytes → ℕ
crc_bytes crc [] = crc
crc_bytes crc (byte ∷ bytes) = crc_bytes (crc_bits 8 (bit_xor crc byte)) bytes

-- `!crc` of a `u32` is the distance to the largest one.
unfoldable pub crc32 : Bytes → ℕ
unfolding crc_bit crc_bits crc_bytes
crc32 bytes = 0xFFFFFFFF - crc_bytes 0xFFFFFFFF bytes

abbrev pub u32_le : ℕ → Bytes
u32_le x = x % 256 ∷ x / 256 % 256 ∷ x / 65536 % 256 ∷ x / 16777216 % 256 ∷ []

abbrev pub u64_le : ℕ → Bytes
u64_le x = u32_le (x % 2 ^ 32) ++ u32_le (x / 2 ^ 32)

-- On a slice of another length `copy_from_slice` panics; every caller passes four bytes.
abbrev pub read_u32_le : Bytes → ℕ
read_u32_le (a ∷ b ∷ c ∷ d ∷ []) = a + 256 * b + 65536 * c + 16777216 * d
read_u32_le _ = 0

-- Likewise for eight bytes.
abbrev pub read_u64_le : Bytes → ℕ
read_u64_le bytes = read_u32_le (take 4 bytes) + 2 ^ 32 * read_u32_le (drop 4 bytes)
