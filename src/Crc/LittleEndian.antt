-- ===== src/Crc/LittleEndian.antt =====
-- Integers written in little-endian order are read back, and the checksum fits a `u32`.
use lsm_storage_engine.Common.{ℕ, ◌^◌, ◌<◌, ◌≡◌, arith, [], ◌∷◌, All}
use lsm_storage_engine.Common.Bytes.{Bytes, IsByte}
use lsm_storage_engine.Crc.{crc32, u32_le, u64_le, read_u32_le, read_u64_le}

pub crc32-lt : (bytes : Bytes) → crc32 bytes < 2 ^ 32
unfolding crc32
crc32-lt bytes = omega arith

pub read_u32_le-u32_le : (x : ℕ) → x < 2 ^ 32 → read_u32_le (u32_le x) ≡ x
read_u32_le-u32_le x h = omega arith

pub read_u64_le-u64_le : (x : ℕ) → x < 2 ^ 64 → read_u64_le (u64_le x) ≡ x
read_u64_le-u64_le x h = omega arith

pub u32_le-IsByte : (x : ℕ) → All IsByte (u32_le x)
u32_le-IsByte x = omega arith

-- Four bytes are what their number is written as.
pub u32_le-read_u32_le :
    (a b c d : ℕ)
    → a < 256
    → b < 256
    → c < 256
    → d < 256
    → u32_le (read_u32_le (a ∷ b ∷ c ∷ d ∷ [])) ≡ a ∷ b ∷ c ∷ d ∷ []
u32_le-read_u32_le a b c d ha hb hc hd = ground arith
