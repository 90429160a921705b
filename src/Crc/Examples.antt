-- ===== src/Crc/Examples.antt =====
-- The test vector of src/crc.rs.
use lsm_storage_engine.Common.{◌≡◌, refl, [], ◌∷◌}
use lsm_storage_engine.Crc.{crc32}

crc32_vector :
    crc32 (b'1' ∷ b'2' ∷ b'3' ∷ b'4' ∷ b'5' ∷ b'6' ∷ b'7' ∷ b'8' ∷ b'9' ∷ []) ≡ 0xCBF43926
unfolding crc32
crc32_vector = refl
