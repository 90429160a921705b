-- ===== src/Bloom/Bits.antt =====
-- Bits of one byte and of a string of bytes.
use lsm_storage_engine.Common.{
  ℕ, zero, suc, ◌*◌, ◌/◌, ◌%◌, ◌^◌, ◌<◌, ◌≡◌, refl, arith, bit_or, bit_and, Bool, true, false, not,
  ◌&&◌, ◌||◌, [], ◌∷◌, ◌==◌, ltb, if◌then◌else◌, length, get_or, set, All, length-set, Bool-cases,
  inl, inr, ==_refl, ==_iff, ◌∙◌,
}
use lsm_storage_engine.Common.Bytes.{Bytes, IsByte}
use lsm_storage_engine.Bloom.{set_bit, has_bit}

all_below : ℕ → (ℕ → Bool) → Bool
all_below zero p = true
all_below (suc n) p = elim (p n) [ true ↦ all_below n p | false ↦ false ]

-- What holds at every place of the table holds at each.
at_place : (test : ℕ → Bool) (bound i : ℕ) → i < bound → all_below bound test ≡ true → test i ≡ true
unfolding all_below
at_place test zero i inside holds = absurd (omega arith)
at_place test (suc bound) i inside holds = ground (arith, at_place test bound i)

-- Bit `k` of the byte `b`.
abbrev byte_bit : ℕ → ℕ → Bool
byte_bit b k = not (bit_and b (2 ^ k) == 0)

-- For a byte and two bit numbers: setting bit `j` sets it, clears no bit `k`, and leaves a byte.
byte_facts : ℕ → ℕ → ℕ → Bool
byte_facts j k b =
    byte_bit (bit_or b (2 ^ j)) j
    && ((not (byte_bit b k) || byte_bit (bit_or b (2 ^ j)) k) && ltb (bit_or b (2 ^ j)) 256)

byte_table : all_below 8 (λ j. all_below 8 (λ k. all_below 256 (byte_facts j k))) ≡ true
unfolding all_below byte_facts
byte_table = refl

byte_fact : (j k b : ℕ) → j < 8 → k < 8 → b < 256 → byte_facts j k b ≡ true
byte_fact j k b hj hk hb = at_place (byte_facts j k) 256 b hb (
    at_place (λ k. all_below 256 (byte_facts j k)) 8 k hk
      (at_place (λ j. all_below 8 (λ k. all_below 256 (byte_facts j k))) 8 j hj byte_table))

byte_set_self : (j b : ℕ) → j < 8 → b < 256 → byte_bit (bit_or b (2 ^ j)) j ≡ true
unfolding byte_facts
byte_set_self j b hj hb = ground (arith, byte_fact j j b hj hj hb)

byte_set_keeps :
    (j k b : ℕ)
    → j < 8
    → k < 8
    → b < 256
    → byte_bit b k ≡ true
    → byte_bit (bit_or b (2 ^ j)) k ≡ true
unfolding byte_facts
byte_set_keeps j k b hj hk hb h = ground (arith, byte_fact j k b hj hk hb)

byte_set-IsByte : (j b : ℕ) → j < 8 → b < 256 → bit_or b (2 ^ j) < 256
unfolding byte_facts
byte_set-IsByte j b hj hb = ground (arith, byte_fact j j b hj hj hb)

get_or-IsByte : (bits : Bytes) (i : ℕ) → All IsByte bits → get_or bits i 0 < 256
get_or-IsByte [] i h = omega arith
get_or-IsByte (b ∷ bits) zero (hb, h) = hb
get_or-IsByte (b ∷ bits) (suc i) (hb, h) = get_or-IsByte bits i h

set-IsByte : (bits : Bytes) (i v : ℕ) → v < 256 → All IsByte bits → All IsByte (set bits i v)
set-IsByte [] i v hv h = tt
set-IsByte (b ∷ bits) zero v hv (hb, h) = (hv, h)
set-IsByte (b ∷ bits) (suc i) v hv (hb, h) = (hb, set-IsByte bits i v hv h)

get_or-set :
    (bits : Bytes) (i j v : ℕ)
    → i < length bits
    → get_or (set bits i v) j 0 ≡ (if i == j then v else get_or bits j 0)
get_or-set [] i j v h = absurd (omega arith)
get_or-set (b ∷ bits) zero zero v h = refl
get_or-set (b ∷ bits) zero (suc j) v h = ground arith
get_or-set (b ∷ bits) (suc i) zero v h = ground arith
get_or-set (b ∷ bits) (suc i) (suc j) v h = get_or-set bits i j v (omega arith) ∙ ground arith

pub length-set_bit : (bits : Bytes) (idx : ℕ) → length (set_bit bits idx) ≡ length bits
unfolding set_bit
length-set_bit bits idx = length-set bits (idx / 8) _

pub set_bit-IsByte : (bits : Bytes) (idx : ℕ) → All IsByte bits → All IsByte (set_bit bits idx)
unfolding set_bit
set_bit-IsByte bits idx h =
    set-IsByte bits (idx / 8) _
      (byte_set-IsByte (idx % 8) (get_or bits (idx / 8) 0) (omega arith)
        (get_or-IsByte bits (idx / 8) h))
      h

pub has_bit-set_bit_self :
    (bits : Bytes) (idx : ℕ)
    → All IsByte bits
    → idx < length bits * 8
    → has_bit (set_bit bits idx) idx ≡ true
unfolding set_bit has_bit
has_bit-set_bit_self bits idx h inside =
    let byte : ℕ = get_or bits (idx / 8) 0 in
    rw
      (
        get_or-set bits (idx / 8) (idx / 8) (bit_or byte (2 ^ (idx % 8))) (omega arith),
        ==_refl (idx / 8),
      )
      (byte_set_self (idx % 8) byte (omega arith) (get_or-IsByte bits (idx / 8) h))

pub has_bit-set_bit_keeps :
    (bits : Bytes) (idx other : ℕ)
    → All IsByte bits
    → idx < length bits * 8
    → has_bit bits other ≡ true
    → has_bit (set_bit bits idx) other ≡ true
unfolding set_bit has_bit
has_bit-set_bit_keeps bits idx other h inside was =
    rw
      (get_or-set bits (idx / 8) (other / 8) (bit_or (get_or bits (idx / 8) 0) (2 ^ (idx % 8)))
        (omega arith))
      (elim (Bool-cases (idx / 8 == other / 8)) [
        | inl same ↦
            let e : idx / 8 ≡ other / 8 = (==_iff _ _).0 same in
            rw same (
              rw e (
                byte_set_keeps (idx % 8) (other % 8) (get_or bits (other / 8) 0) (omega arith)
                  (omega arith) (get_or-IsByte bits (other / 8) h) was))
        | inr differ ↦ rw differ was
      ])
