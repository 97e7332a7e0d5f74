-- ===== src/Sql/Eval.antt =====
-- crates/sql/src/executor.rs: the evaluation of a WHERE clause.
pub mod Laws
use exepense_db.Base.{
  Bool, true, false, Option, none, some, List, [], ◌∷◌, if◌then◌else◌, Result, ok, err, ◌>>=◌,
}
use Prim.Native.Nat.{Ordering}
use Prim.Native.Nat.Ordering.{lt, eq, gt}
use exepense_db.Base.Order.{Bytes, same, cmp}
use exepense_db.Base.Integers.{ℤ, cmp_int, ascii}
use exepense_db.Sql.{SqlError, execution, unknown_column, type_error}
use exepense_db.Sql.Row.{ExpenseRow}
use exepense_db.Sql.Ast.{
  Floats, Value, text, real, integer, null, BinOp, equal, not_equal, less, less_equal, greater,
  greater_equal, conj, disj, Expr, column, literal, binary_op,
}

-- `apply_op` on a type by its `partial_cmp`.
unfoldable pub apply_op : Option Ordering → BinOp → Bool
apply_op (some eq) equal = true
apply_op _ equal = false
apply_op (some eq) not_equal = false
apply_op _ not_equal = true
apply_op (some lt) less = true
apply_op _ less = false
apply_op (some lt) less_equal = true
apply_op (some eq) less_equal = true
apply_op _ less_equal = false
apply_op (some gt) greater = true
apply_op _ greater = false
apply_op (some gt) greater_equal = true
apply_op (some eq) greater_equal = true
apply_op _ greater_equal = false
apply_op _ conj = false
apply_op _ disj = false

module _ {F64 : Type 0} where
  unfoldable pub extract_id_eq : Option (Expr F64) → Option Bytes
  extract_id_eq (some (binary_op equal (column col) (literal (text id)))) =
      if same col (ascii "id") then some id else none
  extract_id_eq (some (binary_op equal (literal (text id)) (column col))) =
      if same col (ascii "id") then some id else none
  extract_id_eq _ = none

module _ {F64 : Type 0} (fl : Floats F64) where
  abbrev pub value_to_f64 : Value F64 → Result (SqlError F64) F64
  value_to_f64 (real f) = ok f
  value_to_f64 (integer i) = ok (fl.of_i64 i)
  value_to_f64 other = err (type_error (ascii "REAL") other)

  abbrev pub value_to_string : Value F64 → Result (SqlError F64) Bytes
  value_to_string (text s) = ok s
  value_to_string other = err (type_error (ascii "TEXT") other)

  abbrev pub value_to_i64 : Value F64 → Result (SqlError F64) ℤ
  value_to_i64 (integer i) = ok i
  value_to_i64 (real f) = ok (fl.to_i64 f)
  value_to_i64 other = err (type_error (ascii "INTEGER") other)

  abbrev pub compare_values : Value F64 → BinOp → Value F64 → Bool
  compare_values (text a) op (text b) = apply_op (some (cmp a b)) op
  compare_values (real a) op (real b) = apply_op (fl.partial_cmp a b) op
  compare_values (integer a) op (integer b) = apply_op (some (cmp_int a b)) op
  compare_values (real a) op (integer b) = apply_op (fl.partial_cmp a (fl.of_i64 b)) op
  compare_values (integer a) op (real b) = apply_op (fl.partial_cmp (fl.of_i64 a) b) op
  compare_values _ op _ = false

  -- The value of a column.
  abbrev pub column_value : ExpenseRow F64 → Bytes → Result (SqlError F64) (Value F64)
  column_value row col =
      if same col (ascii "id")
      then ok (text row.id)
      else if same col (ascii "amount")
      then ok (real row.amount)
      else if same col (ascii "category")
      then ok (text row.category)
      else if same col (ascii "description")
      then ok (text row.description)
      else if same col (ascii "date")
      then ok (text row.date)
      else if same col (ascii "created_at")
      then ok (integer row.created_at)
      else err (unknown_column col)

  unfoldable pub eval_value_expr : Expr F64 → ExpenseRow F64 → Result (SqlError F64) (Value F64)
  eval_value_expr (literal v) row = ok v
  eval_value_expr (column col) row = column_value row col
  eval_value_expr (binary_op op left right) row = err execution

  -- `Ok(a? && b?)`: the second is not evaluated when the first decides.
  abbrev pub and_then :
      Result (SqlError F64) Bool → Result (SqlError F64) Bool → Result (SqlError F64) Bool
  and_then (err e) b = err e
  and_then (ok false) b = ok false
  and_then (ok true) b = b

  abbrev pub or_else :
      Result (SqlError F64) Bool → Result (SqlError F64) Bool → Result (SqlError F64) Bool
  or_else (err e) b = err e
  or_else (ok true) b = ok true
  or_else (ok false) b = b

  abbrev pub compare_exprs :
      BinOp → Expr F64 → Expr F64 → ExpenseRow F64 → Result (SqlError F64) Bool
  compare_exprs op left right row = do
    lv ← eval_value_expr left row
    rv ← eval_value_expr right row
    ok (compare_values lv op rv)

  unfoldable pub eval_expr : Expr F64 → ExpenseRow F64 → Result (SqlError F64) Bool
  eval_expr (binary_op conj left right) row = and_then (eval_expr left row) (eval_expr right row)
  eval_expr (binary_op disj left right) row = or_else (eval_expr left row) (eval_expr right row)
  eval_expr (binary_op op left right) row = compare_exprs op left right row
  eval_expr _ row = ok false

  -- `eval_expr(expr, row).unwrap_or(false)`
  abbrev pub unwrap_or_false : Result (SqlError F64) Bool → Bool
  unwrap_or_false (ok b) = b
  unwrap_or_false (err e) = false

  unfoldable pub where_filter : Expr F64 → List (ExpenseRow F64) → List (ExpenseRow F64)
  where_filter expr [] = []
  where_filter expr (row ∷ rs) =
      if unwrap_or_false (eval_expr expr row)
      then row ∷ where_filter expr rs
      else where_filter expr rs
