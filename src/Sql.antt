-- ===== src/Sql.antt =====
-- crates/sql/src/lib.rs: the errors of the SQL layer.
pub mod Ast
pub mod Row
pub mod Eval
pub mod Groups
pub mod Sorting
pub mod Executor
pub mod Parser
pub mod Fixed
use exepense_db.Base.Order.{Bytes}
use exepense_db.Lsm.Engine.{LsmError}
use exepense_db.Sql.Ast.{Value}

-- The message of `execution` is dropped. The `got` of a type error is the value whose debug text the
-- code gives.
pub data SqlError (F64 : Type 0) : Type 0 where
  parse execution encode decode : SqlError F64
  lsm : LsmError → SqlError F64
  unknown_column : Bytes → SqlError F64
  type_error : Bytes → Value F64 → SqlError F64
