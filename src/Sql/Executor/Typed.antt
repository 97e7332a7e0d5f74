-- ===== src/Sql/Executor/Typed.antt =====
-- The columns and the values of an INSERT, crates/sql/src/executor.rs.
use exepense_db.Base.{
  ◌≡◌, refl, sym, ap, ◌∙◌, Bool, true, false, ◌&&◌, ◌||◌, inl, inr, ◌⊎◌, List, [], ◌∷◌,
  if◌then◌else◌, Result, ok, err, Result-cases, arith,
}
use exepense_db.Base.Order.{Bytes, same}
use exepense_db.Base.Integers.{ℤ, ascii}
use exepense_db.Wal
use exepense_db.Lsm.Levels.{Tables}
use exepense_db.Lsm.Engine.{Engine}
use exepense_db.Sql.{SqlError}
use exepense_db.Sql.Ast.{Floats, Value, text, real, integer, null, InsertStmt}
use exepense_db.Sql.Row.{ExpenseRow, Codec}
use exepense_db.Sql.Sorting.{Std}
use exepense_db.Sql.Executor.{
  blank_row, set_column, set_columns, put_row, insert_row, execute_insert,
}
use exepense_db.Sql.Executor.Insert.{set_columns-id}

abbrev is_text : {F64 : Type 0} → Value F64 → Bool
is_text (text s) = true
is_text _ = false

abbrev is_numeric : {F64 : Type 0} → Value F64 → Bool
is_numeric (real f) = true
is_numeric (integer i) = true
is_numeric _ = false

-- A number for `amount` and `created_at`, a text for `category`, `description` and `date`.
abbrev suits : {F64 : Type 0} → Bytes → Value F64 → Bool
suits col val =
    if same col (ascii "amount")
    then is_numeric val
    else if same col (ascii "category") || same col (ascii "description") || same col (ascii "date")
    then is_text val
    else same col (ascii "created_at") && is_numeric val

-- Each column that has a value suits it.
unfoldable pub all_suit : {F64 : Type 0} → List Bytes → List (Value F64) → Bool
all_suit (col ∷ cols) (val ∷ vals) = suits col val && all_suit cols vals
all_suit _ _ = true

abbrev pub is_ok : {F64 A : Type 0} → Result (SqlError F64) A → Bool
is_ok (ok a) = true
is_ok (err e) = false

module _ {F64 : Type 0} (fl : Floats F64) where
  set_column-suits :
      (row : ExpenseRow F64) (col : Bytes) (val : Value F64)
      → is_ok (set_column fl row col val) ≡ suits col val
  set_column-suits row col (text s) = ground arith
  set_column-suits row col (real f) = ground arith
  set_column-suits row col (integer i) = ground arith
  set_column-suits row col null = ground arith

  set_columns-all_suit :
      (row : ExpenseRow F64) (cols : List Bytes) (vals : List (Value F64))
      → is_ok (set_columns fl row cols vals) ≡ all_suit cols vals
  unfolding set_columns all_suit
  set_columns-all_suit row [] vals = refl
  set_columns-all_suit row (col ∷ cols) [] = refl
  set_columns-all_suit row (col ∷ cols) (val ∷ vals) =
      elim (Result-cases (set_column fl row col val)) [
        | inl (r, q) ↦
            rw (q, sym (set_column-suits row col val), q) (set_columns-all_suit r cols vals)
        | inr (e, q) ↦ rw (q, sym (set_column-suits row col val), q) refl
      ]

  module _ {Reader : Type 0} (t : Tables Reader) (wal : Wal.Lib) (codec : Codec F64)
      (rust_std : Std F64) where
    -- An INSERT whose values suit their columns, a number for `amount` and `created_at` and a text for
    -- `category`, `description` and `date`, makes a row with the drawn identifier, and its outcome is that of
    -- writing the row. Any other INSERT, with a value of the wrong type or for another column, fails and
    -- leaves the engine as it was.
    pub execute_insert-all_suit :
        (e : Engine Reader) (id : Bytes) (now : ℤ) (stmt : InsertStmt F64)
        → ((all_suit stmt.columns stmt.values ≡ true)
            × (row : ExpenseRow F64) × (set_columns fl
                  (blank_row fl id now)
                  stmt.columns
                  stmt.values
                ≡ ok row)
            × (row.id ≡ id)
            × (execute_insert fl t wal codec rust_std e id now stmt
                ≡ put_row fl t wal codec rust_std e id (codec.encode_to_vec row)))
          ⊎ ((all_suit stmt.columns stmt.values ≡ false)
              × (x : SqlError F64) × (execute_insert fl t wal codec rust_std e id now stmt
                  ≡ (err x, e)))
    unfolding execute_insert
    execute_insert-all_suit e id now stmt =
        let same_test = set_columns-all_suit (blank_row fl id now) stmt.columns stmt.values in
        elim (Result-cases (set_columns fl (blank_row fl id now) stmt.columns stmt.values)) [
          | inl (row, q) ↦ inl (
            sym same_test ∙ ap is_ok q,
            row,
            q,
            set_columns-id fl (blank_row fl id now) row stmt.columns stmt.values q,
            ap (insert_row fl t wal codec rust_std e id) q,
          )
          | inr (x, q) ↦
              inr (sym same_test ∙ ap is_ok q, x, ap (insert_row fl t wal codec rust_std e id) q)
        ]
