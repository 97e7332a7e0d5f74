-- ===== src/Ffi/Api/RoundTrip.antt =====
-- A call of insert_expense and the query for its row, crates/ffi/src/api.rs.
mod Tests
use mathlib.Core.Option
use exepense_db.Base.{
  ℕ, ◌+◌, ◌<◌, ◌≡◌, ◌≢◌, refl, sym, ap, ◌∙◌, Bool, true, false, Option, none, some, List, [], ◌∷◌,
  ◌++◌, All, length, map, ◌==◌, if◌then◌else◌, Bool-cases, inl, inr, Result, ok, err, ◌>>=◌,
  ok-injective, arith,
}
use exepense_db.Base.Order.{Bytes, cmp}
use exepense_db.Base.Words.{u64_mod, u32_mod}
use exepense_db.Base.Integers.{ℤ, ascii}
use exepense_db.Wal
use exepense_db.Wal.{IsLawful, tombstone_sentinel}
use exepense_db.Lsm.Levels.{Tables}
use exepense_db.Lsm.Engine.{Engine}
use exepense_db.Lsm.Engine.Writes.{IsDurable}
use exepense_db.Sql.{SqlError, parse}
use exepense_db.Sql.Ast.{Floats, insert, select, InsertStmt, Statement}
use exepense_db.Sql.Eval.{extract_id_eq}
use exepense_db.Sql.Row.{ExpenseRow, Codec, IsFaithful}
use exepense_db.Sql.Sorting.{Std}
use exepense_db.Sql.Groups.{Group, Groups}
use exepense_db.Sql.Parser.{Nom, is_whole, parse_statement}
use exepense_db.Sql.Parser.Lawful
use exepense_db.Sql.Parser.Laws.{IsPlain, is_empty}
use exepense_db.Sql.Parser.Values.{IsShown, value_of}
use exepense_db.Sql.Parser.ById.{by_id_text, by_id, parse_statement-by_id}
use exepense_db.Sql.Executor.{
  row_key, blank_row, set_columns, set_column, execute, QueryResult, inserted, rows,
}
use exepense_db.Sql.Executor.Insert.{execute_select-execute_insert}
use exepense_db.Ffi.{FfiError, sql}
use exepense_db.Ffi.Api.{
  Registry, lookup, store, get_engine, counted, with_store, ok_or_invalid, from_row, insert_text,
  run_text, run_statement, after_execute, inserted_id, found_rows, insert_expense, query_expenses,
}
use exepense_db.Ffi.Api.InsertText.{IsAscii, all_usable}
use exepense_db.Ffi.Api.InsertText.Statement.{statement_of, parse_statement-insert_text}

module _ {Reader : Type 0} where
  lookup-store :
      (h : ℕ) (d e : Engine Reader) (es : List (ℕ × Engine Reader))
      → lookup h es ≡ some d
      → lookup h (store h e es) ≡ some e
  unfolding lookup store
  lookup-store h d e [] q = absurd cc
  lookup-store h d e ((i, c) ∷ es) q = ground (arith, lookup-store h d e es)

  store-lookup :
      (h : ℕ) (e : Engine Reader) (es : List (ℕ × Engine Reader))
      → lookup h es ≡ some e
      → store h e es ≡ es
  unfolding lookup store
  store-lookup h e [] q = refl
  store-lookup h e ((i, c) ∷ es) q = ground (arith, store-lookup h e es)

module _ {F64 : Type 0} (fl : Floats F64) (nom : Nom F64) where
  -- The row of an INSERT of the four columns.
  abbrev pub inserted_row : Bytes → ℤ → F64 → Bytes → Bytes → Bytes → ExpenseRow F64
  inserted_row id now amount category description date = record {
    id = id;
    amount = amount;
    category = category;
    description = description;
    date = date;
    created_at = now;
  }

  set_columns-statement_of :
      (id : Bytes) (now : ℤ) (amount : F64) (category description date : Bytes)
      → (is_whole fl nom amount ≡ true → fl.of_i64 (fl.to_i64 amount) ≡ amount)
      → set_columns fl
          (blank_row fl id now)
          (statement_of fl nom amount (category ∷ description ∷ date ∷ [])).columns
          (statement_of fl nom amount (category ∷ description ∷ date ∷ [])).values
        ≡ ok (inserted_row id now amount category description date)
  unfolding set_columns cmp
  set_columns-statement_of id now amount category description date whole =
      elim (Bool-cases (is_whole fl nom amount)) [
        | inl t ↦ rw (t, whole t) refl
        | inr f ↦ rw f refl
      ]

  id_asked : (id : Bytes) → extract_id_eq {F64 = F64} (by_id {F64 = F64} id).where_clause ≡ some id
  unfolding extract_id_eq cmp
  id_asked id = refl

  engine_there :
      {Reader : Type 0} (reg : Registry Reader) (handle : ℕ) (e : Engine Reader)
      → get_engine {F64 = F64} reg handle ≡ ok e
      → (d : Engine Reader) × (lookup handle reg.engines ≡ some d)
  unfolding get_engine
  engine_there {Reader = Reader} reg handle e h = inside (lookup handle reg.engines) h
    where
      inside :
          (o : Option (Engine Reader))
          → ok_or_invalid {F64 = F64} (Option.map (counted reg.next_seq) o) ≡ ok e
          → (d : Engine Reader) × (o ≡ some d)
      inside none q = absurd cc
      inside (some x) q = (x, refl)

module _ {F64 : Type 0} (fl : Floats F64) {nom : Nom F64} (law : Lawful.IsLawful nom)
    (display : F64 → Bytes) {Reader : Type 0} (t : Tables Reader) {wal : Wal.Lib}
    (wal_law : IsLawful wal) (codec : Codec F64) (rust_std : Std F64) where
  -- With a lawful nom and log library, insert an expense on an open handle whose engine is durable. The
  -- amount's text is one that nom reads back, and an amount that is whole and fits survives the way to
  -- `i64` and back; the three texts are ASCII, not empty and without a quote, and so is the identifier;
  -- the row encodes, its key and bytes fit, the counter does not overflow, and the codec reads back what
  -- it wrote. The call returns the identifier. A query for that identifier with `SELECT * FROM expenses
  -- WHERE id = '…'` then returns exactly one row, with the arguments of the call, the identifier and the
  -- time, and leaves the registry as it is.
  pub query_expenses-insert_expense :
      (reg : Registry Reader) (handle : ℕ) (e : Engine Reader) (id : Bytes) (now : ℤ) (amount : F64)
      (category description date bytes : Bytes)
      → get_engine {F64 = F64} reg handle ≡ ok e
      → IsDurable wal e
      → IsFaithful codec
      → IsShown nom (display amount) amount
      → (is_whole fl nom amount ≡ true → fl.of_i64 (fl.to_i64 amount) ≡ amount)
      → All IsAscii (category ∷ description ∷ date ∷ [])
      → all_usable (category ∷ description ∷ date ∷ []) ≡ true
      → IsPlain id
      → is_empty id ≡ false
      → codec.encode_to_vec (inserted_row fl nom id now amount category description date)
        ≡ some bytes
      → length (row_key id) < u32_mod
      → length bytes < tombstone_sentinel
      → e.next_seq + 1 < u64_mod
      → (after : Registry Reader) × (insert_expense fl nom display t wal codec rust_std reg handle
            id now amount category description date
          ≡ (ok id, after))
        × ((other : Bytes) (later : ℤ)
            → query_expenses fl nom display t wal codec rust_std after handle other later
                (by_id_text id)
              ≡ (
                ok (from_row (inserted_row fl nom id now amount category description date) ∷ []),
                after,
              ))
  unfolding insert_expense query_expenses execute get_engine
  query_expenses-insert_expense reg handle e id now amount category description date bytes
        open_there d faithful shown whole a u plain not_empty encoded lk lv hn =
      let texts = category ∷ description ∷ date ∷ [] in
      let row = inserted_row fl nom id now amount category description date in
      let (after, wrote, found, same_id, durable) =
        execute_select-execute_insert fl t wal_law codec rust_std e id now
          (statement_of fl nom amount texts) row bytes (by_id id) d faithful
          (set_columns-statement_of fl nom id now amount category description date whole) encoded lk
          lv hn (id_asked fl nom id) in
      let (old, was) = engine_there fl nom reg handle e open_there in
      let there = lookup-store handle old after reg.engines was in
      (
        with_store reg handle after,
        rw
            (
              open_there,
              parse_statement-insert_text fl law display t wal codec rust_std amount category
                  description date shown a,
              u,
              wrote,
            )
            refl,
        λ other later.
            rw
              (
                ap (λ o. ok_or_invalid {F64 = F64} (Option.map (counted after.next_seq) o)) there,
                parse_statement-by_id fl law id plain not_empty,
                found,
                store-lookup handle after (store handle after reg.engines) there,
              )
              refl,
      )

  -- With a lawful nom, insert an expense on an open handle, with an amount whose text nom reads back and
  -- three ASCII texts. If a text is empty or has a quote, the call fails with a parse error and the
  -- registry stays as it was.
  pub insert_expense-unusable :
      (reg : Registry Reader) (handle : ℕ) (e : Engine Reader) (id : Bytes) (now : ℤ) (amount : F64)
      (category description date : Bytes)
      → get_engine {F64 = F64} reg handle ≡ ok e
      → IsShown nom (display amount) amount
      → All IsAscii (category ∷ description ∷ date ∷ [])
      → all_usable (category ∷ description ∷ date ∷ []) ≡ false
      → insert_expense fl nom display t wal codec rust_std reg handle id now amount category
          description date
        ≡ (err (sql parse), reg)
  unfolding insert_expense
  insert_expense-unusable reg handle e id now amount category description date open_there shown a
        u =
      rw
        (
          open_there,
          parse_statement-insert_text fl law display t wal codec rust_std amount category
              description date shown a,
          u,
        )
        refl
