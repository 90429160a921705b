-- ===== src/SsTable.antt =====
-- src/sstable.rs: the sorted, immutable table file.
pub mod Format
pub mod Create
pub mod Open
pub mod Read
pub mod Search
pub mod Blocks
pub mod Index
pub mod Iterate
pub mod Rows
pub mod World
pub mod Lookup
pub mod Segments
pub mod Buffer
pub mod Writer
pub mod Outcome
pub mod Frame
pub mod Created
mod Examples
mod Runs
