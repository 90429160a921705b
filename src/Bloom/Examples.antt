-- ===== src/Bloom/Examples.antt =====
-- Runs of src/bloom.rs, its unit tests among them.
use lsm_storage_engine.Common.{◌≡◌, refl, arith, true, false, [], ◌∷◌, replicate}
use lsm_storage_engine.Common.Bytes.{Bytes}
use lsm_storage_engine.Error.{ok, err, corrupted_record}
use lsm_storage_engine.Crc.{crc32}
use lsm_storage_engine.Bloom.{
  BloomFilter, new, empty, insert, might_contain, insert_loop, contain_loop, bit_index, set_bit,
  has_bit, hash_pair, encode, decode,
}
use lsm_storage_engine.Bloom.Contains.{IsValid, insert_all, no_false_negatives}
use lsm_storage_engine.Bloom.Codec.{decode-encode_filter}

program : Unit {0}
unfolding new empty insert might_contain insert_loop contain_loop bit_index set_bit has_bit
    hash_pair encode decode crc32
program = tt

abbrev alpha : Bytes
alpha = b'a' ∷ b'l' ∷ b'p' ∷ b'h' ∷ b'a' ∷ []

abbrev beta : Bytes
beta = b'b' ∷ b'e' ∷ b't' ∷ b'a' ∷ []

abbrev sixteen : BloomFilter
sixteen = record { bits = replicate 20 0; hash_count = 7 }

inserted :
    (might_contain alpha (insert alpha sixteen) ≡ true)
    × (might_contain beta (insert alpha sixteen) ≡ false)
    × (might_contain alpha empty ≡ false)
unfolding program
inserted = (refl, refl, refl)

sixteen-IsValid : IsValid sixteen
sixteen-IsValid = record {
  nonempty = omega arith;
  bytes = omega arith;
  hashes = omega arith;
  few_hashes = omega arith;
}

no_false_negatives_example :
    might_contain alpha (insert_all (beta ∷ alpha ∷ beta ∷ []) sixteen) ≡ true
no_false_negatives_example =
    no_false_negatives (beta ∷ []) alpha (beta ∷ []) sixteen sixteen-IsValid

decode-encode_filter_example : decode (encode sixteen) ≡ ok sixteen
decode-encode_filter_example =
    decode-encode_filter sixteen (omega arith) (omega arith) (omega arith)

-- `invalid_serialized_filter_is_rejected`
decode_short : decode (1 ∷ 2 ∷ 3 ∷ []) ≡ err corrupted_record
unfolding program
decode_short = refl
