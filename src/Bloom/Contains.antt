-- ===== src/Bloom/Contains.antt =====
-- No false negatives: a key that was inserted is never reported absent.
use lsm_storage_engine.Common.{
  ℕ, zero, suc, ◌+◌, ◌*◌, ◌<◌, ◌≤◌, ◌≡◌, refl, ◌∙◌, arith, true, false, List, [], ◌∷◌, ◌++◌, ltb,
  ◌==◌, if◌then◌else◌, length, All, replicate, length-replicate,
}
use lsm_storage_engine.Common.Bytes.{Bytes, IsByte}
use lsm_storage_engine.Bloom.{
  BloomFilter, new, insert, might_contain, insert_loop, contain_loop, bit_index, set_bit, has_bit,
  hash_pair,
}
use lsm_storage_engine.Bloom.Float.{F64}
use lsm_storage_engine.Bloom.Bits.{
  length-set_bit, set_bit-IsByte, has_bit-set_bit_self, has_bit-set_bit_keeps,
}

-- A filter with room for a bit, whose bits are bytes, and with a number of hashes that `decode`
-- accepts.
pub record IsValid (filter : BloomFilter) : Type 0 where
  pub nonempty : 0 < length filter.bits
  pub bytes : All IsByte filter.bits
  pub hashes : 1 ≤ filter.hash_count
  pub few_hashes : filter.hash_count ≤ 16

module _ (h : ℕ × ℕ) where
  bit_index-lt : (n i : ℕ) → 0 < n → bit_index h n i < n
  unfolding bit_index
  bit_index-lt n i pos = omega arith

  insert_loop_facts :
      (n i count : ℕ) (bits : Bytes)
      → count ≡ length bits * 8
      → 0 < count
      → All IsByte bits
      → (length (insert_loop n i h count bits) ≡ length bits)
        × All IsByte (insert_loop n i h count bits)
  unfolding insert_loop
  insert_loop_facts zero i count bits e pos b = (refl, b)
  insert_loop_facts (suc n) i count bits e pos b =
      let idx : ℕ = bit_index h count i in
      let (len, bytes) =
        insert_loop_facts n (i + 1) count (set_bit bits idx)
          (omega (arith, length-set_bit bits idx)) pos (set_bit-IsByte bits idx b) in
      (len ∙ length-set_bit bits idx, bytes)

  insert_loop_keeps :
      (n i count other : ℕ) (bits : Bytes)
      → count ≡ length bits * 8
      → 0 < count
      → All IsByte bits
      → has_bit bits other ≡ true
      → has_bit (insert_loop n i h count bits) other ≡ true
  unfolding insert_loop
  insert_loop_keeps zero i count other bits e pos b was = was
  insert_loop_keeps (suc n) i count other bits e pos b was =
      let idx : ℕ = bit_index h count i in
      insert_loop_keeps n (i + 1) count other (set_bit bits idx)
        (omega (arith, length-set_bit bits idx)) pos (set_bit-IsByte bits idx b)
        (has_bit-set_bit_keeps bits idx other b (omega (arith, bit_index-lt count i pos, e)) was)

  contain_loop-insert_loop :
      (n i count : ℕ) (bits : Bytes)
      → count ≡ length bits * 8
      → 0 < count
      → All IsByte bits
      → contain_loop n i h count (insert_loop n i h count bits) ≡ true
  unfolding insert_loop contain_loop
  contain_loop-insert_loop zero i count bits e pos b = refl
  contain_loop-insert_loop (suc n) i count bits e pos b =
      let idx : ℕ = bit_index h count i in
      let e' : count ≡ length (set_bit bits idx) * 8 = omega (arith, length-set_bit bits idx) in
      let b' : All IsByte (set_bit bits idx) = set_bit-IsByte bits idx b in
      rw
        (insert_loop_keeps n (i + 1) count idx (set_bit bits idx) e' pos b'
          (has_bit-set_bit_self bits idx b (omega (arith, bit_index-lt count i pos, e))))
        (contain_loop-insert_loop n (i + 1) count (set_bit bits idx) e' pos b')

contain_loop_mono :
    (h : ℕ × ℕ) (n i count : ℕ) (bits bits' : Bytes)
    → ((idx : ℕ) → has_bit bits idx ≡ true → has_bit bits' idx ≡ true)
    → contain_loop n i h count bits ≡ true
    → contain_loop n i h count bits' ≡ true
unfolding contain_loop
contain_loop_mono h zero i count bits bits' keeps was = refl
contain_loop_mono h (suc n) i count bits bits' keeps was =
    ground
      (arith, keeps (bit_index h count i), contain_loop_mono h n (i + 1) count bits bits' keeps)

pub insert-IsValid :
    (key : Bytes) (filter : BloomFilter) → IsValid filter → IsValid (insert key filter)
unfolding insert
insert-IsValid key filter v =
    let (len, bytes) =
      insert_loop_facts (hash_pair key) filter.hash_count 0 (length filter.bits * 8) filter.bits
        refl (omega (arith, v.nonempty)) v.bytes in
    record {
      nonempty = rw len v.nonempty;
      bytes = bytes;
      hashes = v.hashes;
      few_hashes = v.few_hashes;
    }

-- The key itself is found.
pub might_contain-insert_self :
    (key : Bytes) (filter : BloomFilter)
    → IsValid filter
    → might_contain key (insert key filter) ≡ true
unfolding might_contain insert
might_contain-insert_self key filter v =
    let count : ℕ = length filter.bits * 8 in
    let (len, bytes) =
      insert_loop_facts (hash_pair key) filter.hash_count 0 count filter.bits refl
        (omega (arith, v.nonempty)) v.bytes in
    rw len (
      rw (nonzero (length filter.bits) v.nonempty) (
        contain_loop-insert_loop (hash_pair key) filter.hash_count 0 count filter.bits refl
          (omega (arith, v.nonempty)) v.bytes))
  where
    nonzero : (n : ℕ) → 0 < n → (n == 0) ≡ false
    nonzero n h = ground arith

-- What was found before is found after.
pub might_contain-insert_keeps :
    (key other : Bytes) (filter : BloomFilter)
    → IsValid filter
    → might_contain other filter ≡ true
    → might_contain other (insert key filter) ≡ true
unfolding might_contain insert
might_contain-insert_keeps key other filter v was =
    let count : ℕ = length filter.bits * 8 in
    let (len, bytes) =
      insert_loop_facts (hash_pair key) filter.hash_count 0 count filter.bits refl
        (omega (arith, v.nonempty)) v.bytes in
    rw len (
      ground (
        arith,
        contain_loop_mono (hash_pair other) filter.hash_count 0 count filter.bits
            (insert_loop filter.hash_count 0 (hash_pair key) count filter.bits)
            (λ idx.
              insert_loop_keeps (hash_pair key) filter.hash_count 0 count idx filter.bits refl
                (omega (arith, v.nonempty)) v.bytes),
      ))

-- The loop of `SsTable::create` over the keys of a table.
unfoldable pub insert_all : List Bytes → BloomFilter → BloomFilter
insert_all [] filter = filter
insert_all (key ∷ keys) filter = insert_all keys (insert key filter)

insert_all_keeps :
    (keys : List Bytes) (key : Bytes) (filter : BloomFilter)
    → IsValid filter
    → might_contain key filter ≡ true
    → might_contain key (insert_all keys filter) ≡ true
unfolding insert_all
insert_all_keeps [] key filter v was = was
insert_all_keeps (k ∷ keys) key filter v was =
    insert_all_keeps keys key (insert k filter) (insert-IsValid k filter v)
      (might_contain-insert_keeps k key filter v was)

pub insert_all-IsValid :
    (keys : List Bytes) (filter : BloomFilter) → IsValid filter → IsValid (insert_all keys filter)
unfolding insert_all
insert_all-IsValid [] filter v = v
insert_all-IsValid (k ∷ keys) filter v =
    insert_all-IsValid keys (insert k filter) (insert-IsValid k filter v)

-- No false negatives: whatever keys are inserted into a valid filter, before and after, a key that
-- was inserted is reported as possibly present.
pub no_false_negatives :
    (before : List Bytes) (key : Bytes) (after : List Bytes) (filter : BloomFilter)
    → IsValid filter
    → might_contain key (insert_all (before ++ key ∷ after) filter) ≡ true
unfolding insert_all
no_false_negatives [] key after filter v =
    insert_all_keeps after key (insert key filter) (insert-IsValid key filter v)
      (might_contain-insert_self key filter v)
no_false_negatives (k ∷ before) key after filter v =
    no_false_negatives before key after (insert k filter) (insert-IsValid k filter v)

zeros-IsByte : (n : ℕ) → All IsByte (replicate n 0)
zeros-IsByte zero = tt
zeros-IsByte (suc n) = (omega arith, zeros-IsByte n)

module _ (f : F64) where
  open f use {
    Float, of_usize, neg, mul, div, ln, powi, ceil, clamp_float, least_rate, greatest_rate, ln_2,
    max_sixty_four,
  }

  -- `new` makes a valid filter, whatever the number of items and the rate.
  pub new-IsValid : (expected_items : ℕ) (rate : Float) → IsValid (new f expected_items rate)
  unfolding new
  new-IsValid expected_items rate = record {
    nonempty = rw length-replicate (
        omega (
          arith,
          max_sixty_four (
              ceil (
                div
                  (mul (neg (of_usize (if ltb expected_items 1 then 1 else expected_items)))
                    (ln (clamp_float rate least_rate greatest_rate)))
                  (powi ln_2 2))),
        ));
    bytes = zeros-IsByte _;
    hashes = ground arith;
    few_hashes = ground arith;
  }
