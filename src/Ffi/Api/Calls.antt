-- ===== src/Ffi/Api/Calls.antt =====
-- What a call on one handle does to the others, crates/ffi/src/api.rs: they share the counter of
-- crates/lsm/src/mvcc.rs.
use exepense_db.Base.{
  ℕ, ◌+◌, ◌%◌, ◌≡◌, ◌≢◌, refl, ap, ◌∙◌, subst, ◌⊎◌, inl, inr, Bool-cases, Option, none, some,
  Result, ok, err,
}
use exepense_db.Base.Order.{Bytes}
use exepense_db.Base.Words.{u64_mod}
use exepense_db.Base.Integers.{ℤ}
use exepense_db.Wal
use exepense_db.Lsm.Levels.{Tables}
use exepense_db.Lsm.Engine.{Engine, LsmError, put, delete, maybe_freeze, with_memtable, with_wal}
use exepense_db.Lsm.Mvcc.{next_write_seq}
use exepense_db.Memtable
use exepense_db.Memtable.{MemTable, MemTableError}
use exepense_db.Wal.{WalError}
use exepense_db.Sql.{SqlError}
use exepense_db.Sql.Ast.{Floats, Statement, insert, select}
use exepense_db.Sql.Row.{Codec, ExpenseRow}
use exepense_db.Sql.Sorting.{Std}
use exepense_db.Sql.Parser.{Nom, parse_statement}
use exepense_db.Sql.Executor.{
  QueryResult, row_key, after_put, put_row, insert_row, execute_insert, execute,
}
use exepense_db.Ffi.Api.{
  Registry, lookup, counted, get_engine, close_db, with_store, after_execute, after_delete,
  run_statement, run_text, insert_text, insert_expense, query_expenses, delete_row, delete_expense,
}
use exepense_db.Ffi.Api.Handles.{
  if_other, lookup-remove, lookup-store_ne, answer, answer-recount, recount,
}

-- The counter after a call that draws at most one sequence number.
abbrev pub Step : ℕ → ℕ → Type 0
Step s s' = (s' ≡ s) ⊎ (s' ≡ (s + 1) % u64_mod)

module _ {Reader : Type 0} where
  maybe_freeze-next_seq : (e : Engine Reader) → (maybe_freeze e).next_seq ≡ e.next_seq
  unfolding maybe_freeze
  maybe_freeze-next_seq e = elim (Bool-cases (Memtable.is_over_threshold e.memtable)) [
    | inl t ↦ rw t refl
    | inr f ↦ rw f refl
  ]

  with_memtable-next_seq :
      (after : Engine Reader → Engine Reader) (e : Engine Reader)
      (r : Result MemTableError MemTable)
      → ((x : Engine Reader) → (after x).next_seq ≡ x.next_seq)
      → (with_memtable after e r).1.next_seq ≡ e.next_seq
  with_memtable-next_seq after e (err w) h = refl
  with_memtable-next_seq after e (ok mt) h = h (record e { memtable = mt })

  with_wal-next_seq :
      (step : Engine Reader → Result LsmError (Unit {0}) × Engine Reader) (e : Engine Reader)
      (r : Result WalError Bytes)
      → ((x : Engine Reader) → (step x).1.next_seq ≡ x.next_seq)
      → (with_wal step e r).1.next_seq ≡ e.next_seq
  with_wal-next_seq step e (err w) h = refl
  with_wal-next_seq step e (ok file) h = h (record e { wal_file = file })

  put-Step :
      (wal : Wal.Lib) (e : Engine Reader) (key v : Bytes)
      → Step e.next_seq (put wal e key v).1.next_seq
  unfolding put next_write_seq
  put-Step wal e key v = inr (
      with_wal-next_seq
        (λ x. with_memtable maybe_freeze x (Memtable.put x.memtable key v e.next_seq))
        (record e { next_seq = (e.next_seq + 1) % u64_mod })
        (Wal.append wal e.wal_file (record { seq_no = e.next_seq; key = key; value = some v }))
        (λ x.
          with_memtable-next_seq maybe_freeze x (Memtable.put x.memtable key v e.next_seq)
            maybe_freeze-next_seq))

  delete-Step :
      (wal : Wal.Lib) (e : Engine Reader) (key : Bytes)
      → Step e.next_seq (delete wal e key).1.next_seq
  unfolding delete next_write_seq
  delete-Step wal e key = inr (
      with_wal-next_seq (λ x. with_memtable (λ y. y) x (Memtable.delete x.memtable key e.next_seq))
        (record e { next_seq = (e.next_seq + 1) % u64_mod })
        (Wal.append wal e.wal_file (record { seq_no = e.next_seq; key = key; value = none }))
        (λ x.
          with_memtable-next_seq (λ y. y) x (Memtable.delete x.memtable key e.next_seq)
            (λ y. refl)))

module _ {F64 : Type 0} (fl : Floats F64) (nom : Nom F64) (display : F64 → Bytes) {Reader : Type 0}
    (t : Tables Reader) (wal : Wal.Lib) (codec : Codec F64) (rust_std : Std F64) where
  after_put-Step :
      (s : ℕ) (id : Bytes) (x : Result LsmError (Unit {0}) × Engine Reader)
      → Step s x.1.next_seq
      → Step s (after_put fl t wal codec rust_std id x).1.next_seq
  after_put-Step s id (ok u, e) h = h
  after_put-Step s id (err y, e) h = h

  put_row-Step :
      (e : Engine Reader) (id : Bytes) (o : Option Bytes)
      → Step e.next_seq (put_row fl t wal codec rust_std e id o).1.next_seq
  put_row-Step e id none = inl refl
  put_row-Step e id (some bytes) =
      after_put-Step e.next_seq id (put wal e (row_key id) bytes)
        (put-Step wal e (row_key id) bytes)

  insert_row-Step :
      (e : Engine Reader) (id : Bytes) (r : Result (SqlError F64) (ExpenseRow F64))
      → Step e.next_seq (insert_row fl t wal codec rust_std e id r).1.next_seq
  insert_row-Step e id (err x) = inl refl
  insert_row-Step e id (ok row) = put_row-Step e id (codec.encode_to_vec row)

  execute-Step :
      (e : Engine Reader) (id : Bytes) (now : ℤ) (stmt : Statement F64)
      → Step e.next_seq (execute fl t wal codec rust_std e id now stmt).1.next_seq
  unfolding execute execute_insert
  execute-Step e id now (insert stmt) = insert_row-Step e id _
  execute-Step e id now (select stmt) = inl refl

  -- The counter makes at most one step, and the registry gives `j` the same engine with that counter.
  abbrev pub Apart : Registry Reader → ℕ → Registry Reader → Type 0
  Apart reg j after =
      Step reg.next_seq after.next_seq
      × (get_engine {F64 = F64} after j ≡ recount after.next_seq (get_engine reg j))

  unmoved : (reg : Registry Reader) (j : ℕ) → Apart reg j reg
  unfolding get_engine
  unmoved reg j = (inl refl, answer-recount reg.next_seq reg.next_seq (lookup j reg.engines))

  with_store-Apart :
      (reg : Registry Reader) (h j : ℕ) (e : Engine Reader)
      → h ≢ j
      → Step reg.next_seq e.next_seq
      → Apart reg j (with_store reg h e)
  unfolding get_engine
  with_store-Apart reg h j e n step = (
    step,
    ap (answer e.next_seq) (lookup-store_ne h j e reg.engines n)
        ∙ answer-recount e.next_seq reg.next_seq (lookup j reg.engines),
  )

  after_execute-Apart :
      (reg : Registry Reader) (h j : ℕ)
      (x : Result (SqlError F64) (QueryResult F64) × Engine Reader)
      → h ≢ j
      → Step reg.next_seq x.1.next_seq
      → Apart reg j (after_execute fl nom display t wal codec rust_std reg h x).1
  after_execute-Apart reg h j (ok r, e) n step = with_store-Apart reg h j e n step
  after_execute-Apart reg h j (err x, e) n step = with_store-Apart reg h j e n step

  run_statement-Apart :
      (reg : Registry Reader) (h j : ℕ) (e : Engine Reader) (id : Bytes) (now : ℤ)
      (r : Result (SqlError F64) (Statement F64))
      → h ≢ j
      → e.next_seq ≡ reg.next_seq
      → Apart reg j (run_statement fl nom display t wal codec rust_std reg h e id now r).1
  run_statement-Apart reg h j e id now (err x) n q = unmoved reg j
  run_statement-Apart reg h j e id now (ok stmt) n q =
      let x = execute fl t wal codec rust_std e id now stmt in
      after_execute-Apart reg h j x n
        (subst (λ s. Step s x.1.next_seq) q (execute-Step e id now stmt))

  run_text-Apart :
      (reg : Registry Reader) (h j : ℕ) (id : Bytes) (now : ℤ) (input : Bytes)
      (o : Option (Engine Reader))
      → h ≢ j
      → Apart reg j
          (run_text fl nom display t wal codec rust_std reg h id now input
            (answer reg.next_seq o)).1
  run_text-Apart reg h j id now input none n = unmoved reg j
  run_text-Apart reg h j id now input (some e) n =
      run_statement-Apart reg h j (counted reg.next_seq e) id now (parse_statement fl nom input) n
        refl

  after_delete-Apart :
      (reg : Registry Reader) (h j : ℕ) (x : Result LsmError (Unit {0}) × Engine Reader)
      → h ≢ j
      → Step reg.next_seq x.1.next_seq
      → Apart reg j (after_delete fl nom display t wal codec rust_std reg h x).1
  after_delete-Apart reg h j (ok u, e) n step = with_store-Apart reg h j e n step
  after_delete-Apart reg h j (err x, e) n step = with_store-Apart reg h j e n step

  delete_row-Apart :
      (reg : Registry Reader) (h j : ℕ) (id : Bytes) (o : Option (Engine Reader))
      → h ≢ j
      → Apart reg j
          (delete_row fl nom display t wal codec rust_std reg h id (answer reg.next_seq o)).1
  delete_row-Apart reg h j id none n = unmoved reg j
  delete_row-Apart reg h j id (some e) n =
      after_delete-Apart reg h j (delete wal (counted reg.next_seq e) (row_key id)) n
        (delete-Step wal (counted reg.next_seq e) (row_key id))

  -- Whatever insert_expense, query_expenses, delete_expense and close_db do with one handle, the counter
  -- of the process stays or makes one step, modulo 2^64, and every other handle gives the engine that it
  -- gave with that counter, or is invalid as before.
  pub calls_keep_others :
      (reg : Registry Reader) (h j : ℕ) (id : Bytes) (now : ℤ) (amount : F64)
      (category description date sql_text : Bytes)
      → h ≢ j
      → Apart reg j
          (insert_expense fl nom display t wal codec rust_std reg h id now amount category
            description date).1
        × Apart reg j (query_expenses fl nom display t wal codec rust_std reg h id now sql_text).1
        × Apart reg j (delete_expense fl nom display t wal codec rust_std reg h id).1
        × Apart reg j (close_db reg h)
  unfolding insert_expense query_expenses delete_expense close_db get_engine
  calls_keep_others reg h j id now amount category description date sql_text n = (
    run_text-Apart reg h j id now
        (insert_text fl nom display t wal codec rust_std amount category description date)
        (lookup h reg.engines) n,
    run_text-Apart reg h j id now sql_text (lookup h reg.engines) n,
    delete_row-Apart reg h j id (lookup h reg.engines) n,
    (
      inl refl,
      ap (answer reg.next_seq)
            (lookup-remove h j reg.engines ∙ if_other h j none (lookup j reg.engines) n)
          ∙ answer-recount reg.next_seq reg.next_seq (lookup j reg.engines),
    ),
  )
