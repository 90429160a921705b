-- ===== src/Engine.antt =====
-- src/engine.rs and src/options.rs: the database.
pub mod Options
pub mod Version
pub mod State
pub mod Write
pub mod Compact
pub mod Open
pub mod Scan
pub mod Durable
pub mod Restart
pub mod Reads
pub mod View
pub mod Newest
pub mod Stored
pub mod Shows
pub mod Written
pub mod Session
pub mod Worker
pub mod Levels
pub mod Bounds
mod Examples
mod Runs
