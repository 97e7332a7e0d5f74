-- ===== src/Sstable/Error.antt =====
-- crates/sstable/src/lib.rs: the errors. A `Fault` is an error that the code returns, or a panic:
-- Rust's slicing of a file out of its bounds.
pub data SsTableError : Type 0 where
  io invalid_magic file_too_small block_crc_mismatch encode_error decode_error not_found persist :
      SsTableError

pub data Fault : Type 0 where
  fails : SsTableError → Fault
  panics : Fault
