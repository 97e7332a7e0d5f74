-- ===== src/Ffi.antt =====
-- crates/ffi/src/lib.rs: the errors of the interface to the app.
pub mod Api
use exepense_db.Lsm.Engine.{LsmError}
use exepense_db.Sql.{SqlError}

pub data FfiError (F64 : Type 0) : Type 0 where
  sql : SqlError F64 → FfiError F64
  lsm : LsmError → FfiError F64
  invalid_handle : FfiError F64
