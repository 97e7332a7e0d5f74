-- ===== src/Lsm.antt =====
-- crates/lsm/src: sequence numbers, the manifest, the levels of tables, and the engine over them.
pub mod Mvcc
pub mod Manifest
pub mod Levels
pub mod Tables
pub mod Engine
pub mod Flush
pub mod Compaction
