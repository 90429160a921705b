-- ===== src/Bloom/Whole.antt =====
-- An instance of the interface `F64`, for runs: src/bloom.rs on whole numbers.
use lsm_storage_engine.Common.{ℕ, ◌*◌, ◌/◌, ◌≤◌, arith, ltb, if◌then◌else◌}
use lsm_storage_engine.Bloom.Float.{F64}

pub max_sixty_four_ℕ : (x : ℕ) → 64 ≤ (if ltb x 64 then 64 else x)
max_sixty_four_ℕ x = ground arith

-- Whole numbers in place of floating-point ones: logarithms are 0, and a quotient is cut off.
abbrev pub whole : F64
whole = record {
  Float = ℕ;
  of_usize = λ n. n;
  to_usize = λ x. x;
  to_u32 = λ x. x;
  neg = λ x. x;
  mul = λ x y. x * y;
  div = λ x y. x / y;
  ln = λ x. 0;
  powi = λ x n. x;
  ceil = λ x. x;
  round = λ x. x;
  max_float = λ x y. if ltb x y then y else x;
  clamp_float = λ x low high. x;
  least_rate = 0;
  greatest_rate = 0;
  sixty_four = 64;
  ln_2 = 1;
  max_sixty_four = max_sixty_four_ℕ;
}
