-- ===== src/Sql/Executor.antt =====
-- crates/sql/src/executor.rs: INSERT and SELECT over the engine of Lsm/Engine. The fresh identifier and
-- the time of an INSERT are arguments.
pub mod Insert
pub mod Filter
pub mod Select
pub mod Typed
mod Tests
use exepense_db.Base.{
  ℕ, Option, none, some, List, [], ◌∷◌, ◌++◌, take, if◌then◌else◌, Result, ok, err, ◌>>=◌,
}
use exepense_db.Base.Order.{Bytes, same}
use exepense_db.Base.Integers.{ℤ, ascii}
use exepense_db.Base.BtreeMap.{BtreeMap}
use exepense_db.Wal
use exepense_db.Lsm.Levels.{Tables}
use exepense_db.Lsm.Engine.{Engine, LsmError, put, get, scan_prefix}
use exepense_db.Sql.{SqlError, encode, decode, lsm, unknown_column}
use exepense_db.Sql.Ast.{
  Floats, Value, Expr, OrderBy, InsertStmt, SelectStmt, Statement, insert, select,
}
use exepense_db.Sql.Row.{ExpenseRow, Codec}
use exepense_db.Sql.Eval.{value_to_f64, value_to_string, value_to_i64, extract_id_eq, where_filter}
use exepense_db.Sql.Groups.{Group, Groups, group_by}
use exepense_db.Sql.Sorting.{Std, sort_rows}

pub data QueryResult (F64 : Type 0) : Type 0 where
  inserted : Bytes → QueryResult F64
  rows : List (ExpenseRow F64) → QueryResult F64

-- `format!("expense:{}", id)`
abbrev pub row_key : Bytes → Bytes
row_key id = ascii "expense:" ++ id

module _ {F64 : Type 0} (fl : Floats F64) where
  abbrev pub blank_row : Bytes → ℤ → ExpenseRow F64
  blank_row id now = record {
    id = id;
    amount = fl.zero;
    category = [];
    description = [];
    date = [];
    created_at = now;
  }

  -- One column of an INSERT.
  abbrev pub set_column :
      ExpenseRow F64 → Bytes → Value F64 → Result (SqlError F64) (ExpenseRow F64)
  set_column row col val =
      if same col (ascii "amount")
      then (value_to_f64 fl val >>= λ f. ok (record row { amount = f }))
      else if same col (ascii "category")
      then (value_to_string fl val >>= λ s. ok (record row { category = s }))
      else if same col (ascii "description")
      then (value_to_string fl val >>= λ s. ok (record row { description = s }))
      else if same col (ascii "date")
      then (value_to_string fl val >>= λ s. ok (record row { date = s }))
      else if same col (ascii "created_at")
      then (value_to_i64 fl val >>= λ i. ok (record row { created_at = i }))
      else err (unknown_column col)

  -- The loop over `columns.zip(values)`.
  unfoldable pub set_columns :
      ExpenseRow F64 → List Bytes → List (Value F64) → Result (SqlError F64) (ExpenseRow F64)
  set_columns row (col ∷ cols) (val ∷ vals) =
      set_column row col val >>= λ r. set_columns r cols vals
  set_columns row _ _ = ok row

  module _ {Reader : Type 0} (t : Tables Reader) (wal : Wal.Lib) (codec : Codec F64)
      (rust_std : Std F64) where
    abbrev pub after_put :
        Bytes
        → Result LsmError (Unit {0}) × Engine Reader
        → Result (SqlError F64) (QueryResult F64) × Engine Reader
    after_put id (ok u, e) = (ok (inserted id), e)
    after_put id (err x, e) = (err (lsm x), e)

    abbrev pub put_row :
        Engine Reader
        → Bytes
        → Option Bytes
        → Result (SqlError F64) (QueryResult F64) × Engine Reader
    put_row e id none = (err encode, e)
    put_row e id (some bytes) = after_put id (put wal e (row_key id) bytes)

    abbrev pub insert_row :
        Engine Reader
        → Bytes
        → Result (SqlError F64) (ExpenseRow F64)
        → Result (SqlError F64) (QueryResult F64) × Engine Reader
    insert_row e id (err x) = (err x, e)
    insert_row e id (ok row) = put_row e id (codec.encode_to_vec row)

    unfoldable pub execute_insert :
        Engine Reader
        → Bytes
        → ℤ
        → InsertStmt F64
        → Result (SqlError F64) (QueryResult F64) × Engine Reader
    execute_insert e id now stmt =
        insert_row e id (set_columns (blank_row id now) stmt.columns stmt.values)

    -- `?` on an error of the engine
    abbrev pub lift_lsm {ℓ} : {A : Type ℓ} → Result LsmError A → Result (SqlError F64) A
    lift_lsm (ok a) = ok a
    lift_lsm (err x) = err (lsm x)

    abbrev pub decode_one :
        Option (ExpenseRow F64 × ℕ) → Result (SqlError F64) (List (ExpenseRow F64))
    decode_one none = err decode
    decode_one (some (row, n)) = ok (row ∷ [])

    -- The rows of a lookup by identifier.
    abbrev pub rows_of_lookup : Option Bytes → Result (SqlError F64) (List (ExpenseRow F64))
    rows_of_lookup none = ok []
    rows_of_lookup (some bytes) = decode_one (codec.decode_from_slice bytes)

    -- The `filter_map`: what does not decode is passed over.
    unfoldable pub decode_rows : BtreeMap Bytes → List (ExpenseRow F64)
    decode_rows [] = []
    decode_rows ((key, bytes) ∷ pairs) = elim (codec.decode_from_slice bytes) [
      | none ↦ decode_rows pairs
      | some (row, n) ↦ row ∷ decode_rows pairs
    ]

    abbrev pub apply_where : Option (Expr F64) → List (ExpenseRow F64) → List (ExpenseRow F64)
    apply_where none rs = rs
    apply_where (some expr) rs = where_filter fl expr rs

    abbrev pub apply_group_by : Option (List Bytes) → List (ExpenseRow F64) → List (ExpenseRow F64)
    apply_group_by none rs = rs
    apply_group_by (some cols) rs = group_by fl rust_std.into_values rs cols

    abbrev pub apply_order_by : Option OrderBy → List (ExpenseRow F64) → List (ExpenseRow F64)
    apply_order_by none rs = rs
    apply_order_by (some order) rs = sort_rows fl rust_std.sort_by order rs

    abbrev pub apply_limit : Option ℕ → List (ExpenseRow F64) → List (ExpenseRow F64)
    apply_limit none rs = rs
    apply_limit (some n) rs = take n rs

    unfoldable pub select_by_id : Engine Reader → Bytes → Result (SqlError F64) (QueryResult F64)
    select_by_id e id = do
      found ← lift_lsm (get t e (row_key id))
      rs ← rows_of_lookup found
      ok (rows rs)

    unfoldable pub select_by_scan :
        Engine Reader → SelectStmt F64 → Result (SqlError F64) (QueryResult F64)
    select_by_scan e stmt = do
      pairs ← lift_lsm (scan_prefix t e (ascii "expense:"))
      let filtered = apply_where stmt.where_clause (decode_rows pairs)
      let grouped = apply_group_by stmt.group_by filtered
      ok (rows (apply_limit stmt.limit (apply_order_by stmt.order_by grouped)))

    abbrev pub select_by :
        Engine Reader → SelectStmt F64 → Option Bytes → Result (SqlError F64) (QueryResult F64)
    select_by e stmt (some id) = select_by_id e id
    select_by e stmt none = select_by_scan e stmt

    unfoldable pub execute_select :
        Engine Reader → SelectStmt F64 → Result (SqlError F64) (QueryResult F64)
    execute_select e stmt = select_by e stmt (extract_id_eq stmt.where_clause)

    unfoldable pub execute :
        Engine Reader
        → Bytes
        → ℤ
        → Statement F64
        → Result (SqlError F64) (QueryResult F64) × Engine Reader
    execute e id now (insert stmt) = execute_insert e id now stmt
    execute e id now (select stmt) = (execute_select e stmt, e)
