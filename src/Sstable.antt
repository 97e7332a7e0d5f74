-- ===== src/Sstable.antt =====
-- crates/sstable/src: the sorted tables on disk.
pub mod Error
pub mod Bloom
pub mod Block
pub mod Footer
pub mod Builder
pub mod Reader
pub mod Table
