-- ===== src/Sstable/Table.antt =====
-- A table from its builder to its reader: what `SsTableBuilder` writes, `SsTableReader` finds.
pub mod Sorted
pub mod Blocks
pub mod Built
pub mod Rows
pub mod Files
pub mod Lookup
pub mod Iterate
pub mod Bounds
pub mod Fixed
mod Tests
