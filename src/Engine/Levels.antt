-- ===== src/Engine/Levels.antt =====
-- The levels of tables as a read of one key sees them, and what a compaction does to them.
pub mod First
pub mod Overlap
pub mod Retain
pub mod Apply
pub mod Keeps
pub mod Pick
pub mod Drop
pub mod Same
mod Runs
