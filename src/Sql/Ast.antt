-- ===== src/Sql/Ast.antt =====
-- crates/sql/src/ast.rs, and the 64 bit floating point numbers as a parameter. A `String` is the list
-- of its UTF-8 bytes.
use exepense_db.Base.{ℕ, Bool, Option, List}
use exepense_db.Base.Order.{Bytes}
use exepense_db.Base.Integers.{ℤ}
use Prim.Native.Nat.{Ordering}

-- What the code uses of `f64`: `0.0`, `as` from and to `i64`, `+` and `partial_cmp`. The comparison
-- operators are those that `partial_cmp` gives.
pub record Floats (F64 : Type 0) : Type 0 where
  pub zero : F64
  pub of_i64 : ℤ → F64
  pub to_i64 : F64 → ℤ
  pub add : F64 → F64 → F64
  pub partial_cmp : F64 → F64 → Option Ordering

module _ (F64 : Type 0) where
  pub data Value : Type 0 where
    text : Bytes → Value
    real : F64 → Value
    integer : ℤ → Value
    null : Value

pub data BinOp : Type 0 where
  equal not_equal less less_equal greater greater_equal conj disj : BinOp

pub data Expr (F64 : Type 0) : Type 0 where
  column : Bytes → Expr F64
  literal : Value F64 → Expr F64
  binary_op : BinOp → Expr F64 → Expr F64 → Expr F64

pub data SelectColumns : Type 0 where
  all_columns : SelectColumns
  named : List Bytes → SelectColumns

pub record OrderBy : Type 0 where
  pub column : Bytes
  pub ascending : Bool

pub record InsertStmt (F64 : Type 0) : Type 0 where
  pub columns : List Bytes
  pub values : List (Value F64)

pub record SelectStmt (F64 : Type 0) : Type 0 where
  pub columns : SelectColumns
  pub where_clause : Option (Expr F64)
  pub order_by : Option OrderBy
  pub group_by : Option (List Bytes)
  pub limit : Option ℕ

pub data Statement (F64 : Type 0) : Type 0 where
  insert : InsertStmt F64 → Statement F64
  select : SelectStmt F64 → Statement F64
