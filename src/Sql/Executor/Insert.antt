-- ===== src/Sql/Executor/Insert.antt =====
-- INSERT and the lookup of the inserted row, crates/sql/src/executor.rs.
use exepense_db.Base.{
  ◌+◌, ◌<◌, ◌≡◌, ◌≢◌, sym, ap, ◌∙◌, Bool, true, false, Option, some, List, [], ◌∷◌, not, ◌||◌,
  length, inl, inr, Result, ok, err, ◌>>=◌, >>=-eq-ok, ok-injective, Result-cases, arith,
}
use exepense_db.Base.Order.{Bytes}
use exepense_db.Base.Words.{u64_mod, u32_mod}
use exepense_db.Base.Integers.{ℤ, ascii}
use exepense_db.Wal
use exepense_db.Wal.{IsLawful, tombstone_sentinel}
use exepense_db.Lsm.Levels.{Tables}
use exepense_db.Lsm.Engine.{Engine, put}
use exepense_db.Lsm.Engine.Writes.{IsDurable, put-Written}
use exepense_db.Lsm.Engine.Reads.{get-put}
use exepense_db.Sql.{SqlError}
use exepense_db.Sql.Ast.{Floats, Value, text, real, integer, null, InsertStmt, SelectStmt}
use exepense_db.Sql.Row.{ExpenseRow, Codec, IsFaithful}
use exepense_db.Sql.Eval.{extract_id_eq}
use exepense_db.Sql.Eval.Laws.{is_one_of}
use exepense_db.Sql.Sorting.{Std}
use exepense_db.Sql.Executor.{
  QueryResult, inserted, rows, row_key, blank_row, set_column, set_columns, after_put, put_row,
  insert_row, execute_insert, select_by_id, select_by, execute_select, rows_of_lookup, decode_one,
  lift_lsm,
}

module _ {F64 : Type 0} (fl : Floats F64) where
  set_column-id :
      (row r : ExpenseRow F64) (col : Bytes) (val : Value F64)
      → set_column fl row col val ≡ ok r
      → r.id ≡ row.id
  set_column-id row r col (text s) h = ground arith
  set_column-id row r col (real f) h = ground arith
  set_column-id row r col (integer i) h = ground arith
  set_column-id row r col null h = ground arith

  pub set_columns-id :
      (row r : ExpenseRow F64) (cols : List Bytes) (vals : List (Value F64))
      → set_columns fl row cols vals ≡ ok r
      → r.id ≡ row.id
  unfolding set_columns
  set_columns-id row r [] vals h = ap (λ x. x.id) (sym (ok-injective h))
  set_columns-id row r (col ∷ cols) [] h = ap (λ x. x.id) (sym (ok-injective h))
  set_columns-id row r (col ∷ cols) (val ∷ vals) h =
      let (x, q, k) = >>=-eq-ok (set_column fl row col val) (λ y. set_columns fl y cols vals) h in
      set_columns-id x r cols vals k ∙ set_column-id row x col val q

module _ {F64 : Type 0} (fl : Floats F64) {Reader : Type 0} (t : Tables Reader) {wal : Wal.Lib}
    (law : IsLawful wal) (codec : Codec F64) (rust_std : Std F64) where
  -- Insert on a durable engine, where the values suit their columns, the row encodes, key and value fit
  -- and the counter does not overflow, with a codec that reads back what it wrote. The INSERT returns the
  -- identifier, which the row has, and leaves the engine durable. Every SELECT whose WHERE clause is a
  -- comparison of `id` with that identifier for equality returns exactly the row, whatever its ORDER BY,
  -- GROUP BY and LIMIT are.
  pub execute_select-execute_insert :
      (e : Engine Reader) (id : Bytes) (now : ℤ) (stmt : InsertStmt F64) (row : ExpenseRow F64)
      (bytes : Bytes) (query : SelectStmt F64)
      → IsDurable wal e
      → IsFaithful codec
      → set_columns fl (blank_row fl id now) stmt.columns stmt.values ≡ ok row
      → codec.encode_to_vec row ≡ some bytes
      → length (row_key id) < u32_mod
      → length bytes < tombstone_sentinel
      → e.next_seq + 1 < u64_mod
      → extract_id_eq query.where_clause ≡ some id
      → (after : Engine Reader) × (execute_insert fl t wal codec rust_std e id now stmt
          ≡ (ok (inserted id), after))
        × (execute_select fl t wal codec rust_std after query ≡ ok (rows (row ∷ [])))
        × (row.id ≡ id)
        × IsDurable wal after
  unfolding execute_insert execute_select select_by_id
  execute_select-execute_insert e id now stmt row bytes query d faithful set encoded lk lv hn asks =
      let p = put wal e (row_key id) bytes in
      let w = put-Written law e (row_key id) bytes d not_empty lk lv hn in
      (
        p.1,
        ap (insert_row fl t wal codec rust_std e id) set
            ∙ ap (put_row fl t wal codec rust_std e id) encoded
            ∙ ap (λ x. after_put fl t wal codec rust_std id (x, p.1)) w.acknowledged,
        ap (select_by fl t wal codec rust_std p.1 query) asks
            ∙ ap (λ x. answer (lift_lsm fl t wal codec rust_std x))
                (get-put law t e (row_key id) bytes d not_empty lk lv hn)
            ∙ ap (λ x. shown (decode_one fl t wal codec rust_std x)) (faithful row bytes encoded).1,
        set_columns-id fl (blank_row fl id now) row stmt.columns stmt.values set,
        w.durable,
      )
    where
      not_empty : row_key id ≢ []
      not_empty q = cc

      shown :
          Result (SqlError F64) (List (ExpenseRow F64)) → Result (SqlError F64) (QueryResult F64)
      shown r = r >>= λ rs. ok (rows rs)

      answer : Result (SqlError F64) (Option Bytes) → Result (SqlError F64) (QueryResult F64)
      answer r = r >>= λ found. shown (rows_of_lookup fl t wal codec rust_std found)

abbrev pub insert_columns : List Bytes
insert_columns =
    ascii "amount" ∷ ascii "category" ∷ ascii "description" ∷ ascii "date" ∷ ascii "created_at" ∷ []

-- Whether a column that has a value is none of those that an INSERT sets.
unfoldable pub has_unknown : {F64 : Type 0} → List Bytes → List (Value F64) → Bool
has_unknown (col ∷ cols) (val ∷ vals) = not (is_one_of col insert_columns) || has_unknown cols vals
has_unknown _ _ = false

module _ {F64 : Type 0} (fl : Floats F64) where
  set_column_known :
      (row r : ExpenseRow F64) (col : Bytes) (val : Value F64)
      → set_column fl row col val ≡ ok r
      → is_one_of col insert_columns ≡ true
  unfolding is_one_of
  set_column_known row r col (text s) h = ground arith
  set_column_known row r col (real f) h = ground arith
  set_column_known row r col (integer i) h = ground arith
  set_column_known row r col null h = ground arith

  set_columns-has_unknown :
      (row : ExpenseRow F64) (cols : List Bytes) (vals : List (Value F64))
      → has_unknown cols vals ≡ true
      → (x : SqlError F64) × (set_columns fl row cols vals ≡ err x)
  unfolding set_columns has_unknown
  set_columns-has_unknown row [] vals h = absurd cc
  set_columns-has_unknown row (col ∷ cols) [] h = absurd cc
  set_columns-has_unknown row (col ∷ cols) (val ∷ vals) h =
      elim (Result-cases (set_column fl row col val)) [
        | inr (x, q) ↦ (x, ap (λ m. m >>= λ r. set_columns fl r cols vals) q)
        | inl (r, q) ↦
            let (x, k) =
              set_columns-has_unknown r cols vals (rest (set_column_known row r col val q)) in
            (x, ap (λ m. m >>= λ r. set_columns fl r cols vals) q ∙ k)
      ]
    where
      rest : is_one_of col insert_columns ≡ true → has_unknown cols vals ≡ true
      rest k = rw⁻¹ (ap (λ b. not b || has_unknown cols vals) k) h

  module _ {Reader : Type 0} (t : Tables Reader) (wal : Wal.Lib) (codec : Codec F64)
      (rust_std : Std F64) where
    -- An INSERT in which a column with a value is none of `amount`, `category`, `description`, `date` and
    -- `created_at` fails and leaves the engine as it was. So an INSERT cannot give the `id`.
    pub execute_insert-has_unknown :
        (e : Engine Reader) (id : Bytes) (now : ℤ) (stmt : InsertStmt F64)
        → has_unknown stmt.columns stmt.values ≡ true
        → (x : SqlError F64) × (execute_insert fl t wal codec rust_std e id now stmt ≡ (err x, e))
    unfolding execute_insert
    execute_insert-has_unknown e id now stmt h =
        let (x, q) = set_columns-has_unknown (blank_row fl id now) stmt.columns stmt.values h in
        (x, ap (insert_row fl t wal codec rust_std e id) q)
