-- ===== src/Engine/Options.antt =====
-- src/options.rs: the settings of a database. The rate is a number of the given floating-point type.
use lsm_storage_engine.Common.{ℕ, ◌*◌}

pub record Options (Float : Type 0) : Type 0 where
  pub memtable_size_bytes : ℕ
  pub l0_compaction_trigger : ℕ
  pub level_size_multiplier : ℕ
  pub max_levels : ℕ
  pub bloom_false_positive_rate : Float
  pub block_size : ℕ
  pub cache_size_bytes : ℕ

-- The literal 0.01 is given.
module _ {Float : Type 0} (one_percent : Float) where
  abbrev pub default : Options Float
  default = record {
    memtable_size_bytes = 4 * 1024 * 1024;
    l0_compaction_trigger = 4;
    level_size_multiplier = 10;
    max_levels = 7;
    bloom_false_positive_rate = one_percent;
    block_size = 4 * 1024;
    cache_size_bytes = 8 * 1024 * 1024;
  }

  abbrev pub for_test : Options Float
  for_test = record {
    memtable_size_bytes = 2 * 1024;
    l0_compaction_trigger = 2;
    level_size_multiplier = 2;
    max_levels = 4;
    bloom_false_positive_rate = one_percent;
    block_size = 256;
    cache_size_bytes = 16 * 1024;
  }
