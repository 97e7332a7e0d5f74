-- ===== src/Sql/Row.antt =====
-- crates/sql/src/executor.rs: the row of an expense, its encoding by bincode as the parameter `Codec`,
-- and its fields for grouping and ordering.
use exepense_db.Base.{ℕ, ◌≡◌, Option, some, [], if◌then◌else◌}
use exepense_db.Base.Order.{Bytes, same}
use exepense_db.Base.Integers.{ℤ, ascii}
use exepense_db.Sql.Ast.{Floats}

pub record ExpenseRow (F64 : Type 0) : Type 0 where
  pub id : Bytes
  pub amount : F64
  pub category : Bytes
  pub description : Bytes
  pub date : Bytes
  pub created_at : ℤ

-- `bincode::serde`: a row and its bytes; reading gives the row and the bytes that it took.
pub record Codec (F64 : Type 0) : Type 0 where
  pub encode_to_vec : ExpenseRow F64 → Option Bytes
  pub decode_from_slice : Bytes → Option (ExpenseRow F64 × ℕ)

-- What is encoded is read back.
abbrev pub IsFaithful : {F64 : Type 0} → Codec F64 → Type 0
IsFaithful {F64} codec =
    (row : ExpenseRow F64) (bytes : Bytes)
    → codec.encode_to_vec row ≡ some bytes
    → (n : ℕ) × (codec.decode_from_slice bytes ≡ some (row, n))

module _ {F64 : Type 0} where
  unfoldable pub row_field_str : ExpenseRow F64 → Bytes → Bytes
  row_field_str row col =
      if same col (ascii "id")
      then row.id
      else if same col (ascii "category")
      then row.category
      else if same col (ascii "description")
      then row.description
      else if same col (ascii "date")
      then row.date
      else []

  unfoldable pub row_field : Floats F64 → ExpenseRow F64 → Bytes → F64
  row_field fl row col =
      if same col (ascii "amount")
      then row.amount
      else if same col (ascii "created_at")
      then fl.of_i64 row.created_at
      else fl.zero
