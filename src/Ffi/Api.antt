-- ===== src/Ffi/Api.antt =====
-- crates/ffi/src/api.rs: the registry of open engines, and the calls of the app. A handle stands for its
-- 64 bits; a call is one step. `LsmEngine::open` is an argument of `open_db`, and the texts of Rust's `{}` for `f64` the parameter `display`.
pub mod Handles
pub mod Calls
pub mod InsertText
pub mod RoundTrip
mod Tests
use mathlib.Core.Option
use exepense_db.Base.{
  ℕ, ◌+◌, ◌%◌, ◌≡◌, Option, none, some, List, [], ◌∷◌, ◌++◌, ◌==◌, if◌then◌else◌, Result, ok, err,
  map,
}
use exepense_db.Base.Order.{Bytes}
use exepense_db.Base.Words.{u64_mod}
use exepense_db.Base.Integers.{ℤ, ascii}
use exepense_db.Wal
use exepense_db.Lsm.Levels.{Tables}
use exepense_db.Lsm.Mvcc.{first_seq}
use exepense_db.Lsm.Engine.{Engine, LsmError, delete}
use exepense_db.Sql.{SqlError, execution}
use exepense_db.Sql.Ast.{Floats, Statement}
use exepense_db.Sql.Row.{ExpenseRow, Codec}
use exepense_db.Sql.Sorting.{Std}
use exepense_db.Sql.Groups.{Group, Groups}
use exepense_db.Sql.Parser.{Nom, parse_statement}
use exepense_db.Sql.Executor.{QueryResult, inserted, rows, row_key, execute}
use exepense_db.Ffi.{FfiError, sql, lsm, invalid_handle}

-- `ENGINES`, the last insertion first, `NEXT_HANDLE`, and the `NEXT_SEQ` of crates/lsm/src/mvcc.rs, which
-- is one for the process. The counter inside of an engine that is kept is the one that its last call left;
-- a call takes the counter of the registry and leaves it at what it makes of it.
pub record Registry (Reader : Type 0) : Type 0 where
  pub engines : List (ℕ × Engine Reader)
  pub next_handle : ℕ
  pub next_seq : ℕ

abbrev pub first_registry : {Reader : Type 0} → Registry Reader
first_registry = record { engines = []; next_handle = 1; next_seq = first_seq }

pub record FfiExpenseRow (F64 : Type 0) : Type 0 where
  pub id : Bytes
  pub amount : F64
  pub category : Bytes
  pub description : Bytes
  pub date : Bytes
  pub created_at : ℤ

abbrev pub from_row : {F64 : Type 0} → ExpenseRow F64 → FfiExpenseRow F64
from_row r = record {
  id = r.id;
  amount = r.amount;
  category = r.category;
  description = r.description;
  date = r.date;
  created_at = r.created_at;
}

module _ {Reader : Type 0} where
  unfoldable pub lookup : ℕ → List (ℕ × Engine Reader) → Option (Engine Reader)
  lookup handle [] = none
  lookup handle ((h, e) ∷ es) = if h == handle then some e else lookup handle es

  unfoldable pub remove : ℕ → List (ℕ × Engine Reader) → List (ℕ × Engine Reader)
  remove handle [] = []
  remove handle ((h, e) ∷ es) = if h == handle then remove handle es else (h, e) ∷ remove handle es

  -- The engine of a handle after a call.
  unfoldable pub store : ℕ → Engine Reader → List (ℕ × Engine Reader) → List (ℕ × Engine Reader)
  store handle e [] = []
  store handle e ((h, d) ∷ es) = if h == handle then (h, e) ∷ es else (h, d) ∷ store handle e es

  -- The engine with a value of the counter.
  abbrev pub counted : ℕ → Engine Reader → Engine Reader
  counted s e = record e { next_seq = s }

  abbrev pub ok_or_invalid :
      {F64 : Type 0} → Option (Engine Reader) → Result (FfiError F64) (Engine Reader)
  ok_or_invalid none = err invalid_handle
  ok_or_invalid (some e) = ok e

  unfoldable pub get_engine :
      {F64 : Type 0} → Registry Reader → ℕ → Result (FfiError F64) (Engine Reader)
  get_engine reg handle =
      ok_or_invalid (Option.map (counted reg.next_seq) (lookup handle reg.engines))

  abbrev pub register :
      {F64 : Type 0}
      → Registry Reader
      → Result LsmError (Engine Reader)
      → Result (FfiError F64) ℕ × Registry Reader
  register reg (err x) = (err (lsm x), reg)
  register reg (ok e) = (
    ok reg.next_handle,
    record {
      engines = (reg.next_handle, e) ∷ remove reg.next_handle reg.engines;
      next_handle = (reg.next_handle + 1) % u64_mod;
      next_seq = e.next_seq;
    },
  )

  -- `opens` is `LsmEngine::open` on the path, from the counter. Its error leaves the counter: the bump
  -- comes after the replay, and nothing that can fail after it is modelled.
  abbrev pub open_db :
      {F64 : Type 0}
      → Registry Reader
      → (ℕ → Result LsmError (Engine Reader))
      → Result (FfiError F64) ℕ × Registry Reader
  open_db reg opens = register reg (opens reg.next_seq)

  unfoldable pub close_db : Registry Reader → ℕ → Registry Reader
  close_db reg handle = record reg { engines = remove handle reg.engines }

  abbrev pub with_store : Registry Reader → ℕ → Engine Reader → Registry Reader
  with_store reg handle e = record reg {
    engines = store handle e reg.engines;
    next_seq = e.next_seq;
  }

-- `replace('\'', "''")`
unfoldable pub double_quotes : Bytes → Bytes
double_quotes [] = []
double_quotes (c ∷ s) = if c == b'\'' then b'\'' ∷ b'\'' ∷ double_quotes s else c ∷ double_quotes s

abbrev pub quoted : Bytes → Bytes
quoted s = b'\'' ∷ (double_quotes s ++ (b'\'' ∷ []))

module _ {F64 : Type 0} (fl : Floats F64) (nom : Nom F64) (display : F64 → Bytes) {Reader : Type 0}
    (t : Tables Reader) (wal : Wal.Lib) (codec : Codec F64) (rust_std : Std F64) where
  -- The text of the INSERT.
  unfoldable pub insert_text : F64 → Bytes → Bytes → Bytes → Bytes
  insert_text amount category description date =
      ascii "INSERT INTO expenses (amount, category, description, date) VALUES ("
      ++ (display amount
          ++ (ascii ", "
              ++ (quoted category
                  ++ (ascii ", "
                      ++ (quoted description ++ (ascii ", " ++ (quoted date ++ ascii ")")))))))

  abbrev pub after_execute :
      Registry Reader
      → ℕ
      → Result (SqlError F64) (QueryResult F64) × Engine Reader
      → Result (FfiError F64) (QueryResult F64) × Registry Reader
  after_execute reg handle (ok r, e) = (ok r, with_store reg handle e)
  after_execute reg handle (err x, e) = (err (sql x), with_store reg handle e)

  -- `parse` and `execute` on the engine of a handle, and the registry after it.
  abbrev pub run_statement :
      Registry Reader
      → ℕ
      → Engine Reader
      → Bytes
      → ℤ
      → Result (SqlError F64) (Statement F64)
      → Result (FfiError F64) (QueryResult F64) × Registry Reader
  run_statement reg handle e id now (err x) = (err (sql x), reg)
  run_statement reg handle e id now (ok stmt) =
      after_execute reg handle (execute fl t wal codec rust_std e id now stmt)

  abbrev pub run_text :
      Registry Reader
      → ℕ
      → Bytes
      → ℤ
      → Bytes
      → Result (FfiError F64) (Engine Reader)
      → Result (FfiError F64) (QueryResult F64) × Registry Reader
  run_text reg handle id now input (err x) = (err x, reg)
  run_text reg handle id now input (ok e) =
      run_statement reg handle e id now (parse_statement fl nom input)

  abbrev pub inserted_id : Result (FfiError F64) (QueryResult F64) → Result (FfiError F64) Bytes
  inserted_id (err x) = err x
  inserted_id (ok (inserted id)) = ok id
  inserted_id (ok (rows rs)) = err (sql execution)

  abbrev pub found_rows :
      Result (FfiError F64) (QueryResult F64) → Result (FfiError F64) (List (FfiExpenseRow F64))
  found_rows (err x) = err x
  found_rows (ok (rows rs)) = ok (map from_row rs)
  found_rows (ok (inserted id)) = err (sql execution)

  -- `id` is the identifier that the statement draws, and `now` the time.
  unfoldable pub insert_expense :
      Registry Reader
      → ℕ
      → Bytes
      → ℤ
      → F64
      → Bytes
      → Bytes
      → Bytes
      → Result (FfiError F64) Bytes × Registry Reader
  insert_expense reg handle id now amount category description date =
      let (r, reg') =
        run_text reg handle id now (insert_text amount category description date)
          (get_engine reg handle) in
      (inserted_id r, reg')

  unfoldable pub query_expenses :
      Registry Reader
      → ℕ
      → Bytes
      → ℤ
      → Bytes
      → Result (FfiError F64) (List (FfiExpenseRow F64)) × Registry Reader
  query_expenses reg handle id now sql_text =
      let (r, reg') = run_text reg handle id now sql_text (get_engine reg handle) in
      (found_rows r, reg')

  abbrev pub after_delete :
      Registry Reader
      → ℕ
      → Result LsmError (Unit {0}) × Engine Reader
      → Result (FfiError F64) (Unit {0}) × Registry Reader
  after_delete reg handle (ok u, e) = (ok tt, with_store reg handle e)
  after_delete reg handle (err x, e) = (err (lsm x), with_store reg handle e)

  abbrev pub delete_row :
      Registry Reader
      → ℕ
      → Bytes
      → Result (FfiError F64) (Engine Reader)
      → Result (FfiError F64) (Unit {0}) × Registry Reader
  delete_row reg handle id (err x) = (err x, reg)
  delete_row reg handle id (ok e) = after_delete reg handle (delete wal e (row_key id))

  unfoldable pub delete_expense :
      Registry Reader → ℕ → Bytes → Result (FfiError F64) (Unit {0}) × Registry Reader
  delete_expense reg handle id = delete_row reg handle id (get_engine reg handle)
