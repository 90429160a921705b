-- ===== src/Bloom/Float.antt =====
-- The floating-point operations that `BloomFilter::new` (src/bloom.rs) uses, as an interface.
use lsm_storage_engine.Common.{ℕ, ◌≤◌}

pub record F64 : Type 1 where
  pub Float : Type 0
  -- `as f64`, `as usize` and `as u32`
  pub of_usize : ℕ → Float
  pub to_usize : Float → ℕ
  pub to_u32 : Float → ℕ
  pub neg : Float → Float
  pub mul : Float → Float → Float
  pub div : Float → Float → Float
  pub ln : Float → Float
  pub powi : Float → ℕ → Float
  pub ceil : Float → Float
  pub round : Float → Float
  pub max_float : Float → Float → Float
  pub clamp_float : Float → Float → Float → Float
  -- the literals 0.000_1, 0.5 and 64.0, and `LN_2`
  pub least_rate : Float
  pub greatest_rate : Float
  pub sixty_four : Float
  pub ln_2 : Float
  -- `max` with 64.0 is no less than 64.0, and the cast of such a number is no less than 64
  pub max_sixty_four : (x : Float) → 64 ≤ to_usize (max_float x sixty_four)
