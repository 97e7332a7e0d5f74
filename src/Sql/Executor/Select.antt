-- ===== src/Sql/Executor/Select.antt =====
-- SELECT over the whole table, crates/sql/src/executor.rs, against the newest versions in the engine.
use exepense_db.Base.{
  ℕ, ◌≡◌, sym, ap, ◌∙◌, true, none, some, List, if◌then◌else◌, Result, ok, ◌>>=◌, Bool-cases, inl,
  inr, [], ◌↔◌,
}
use exepense_db.Base.Order.{Bytes, starts_with}
use exepense_db.Base.Members.{In}
use exepense_db.Base.Integers.{ascii}
use exepense_db.Base.BtreeMap
use exepense_db.Base.BtreeMap.{BtreeMap, IsSorted}
use exepense_db.Wal
use exepense_db.Lsm.Levels.{Tables}
use exepense_db.Lsm.Engine.{Engine, LsmError}
use exepense_db.Lsm.Engine.Layers.{newest}
use exepense_db.Lsm.Engine.Writes.{IsDurable}
use exepense_db.Lsm.Engine.Overlay.{AllSorted}
use exepense_db.Lsm.Engine.Crash.{live}
use exepense_db.Lsm.Engine.Scan.{scan_prefix-newest}
use exepense_db.Sql.{SqlError}
use exepense_db.Sql.Ast.{Floats, SelectStmt}
use exepense_db.Sql.Row.{ExpenseRow, Codec}
use exepense_db.Sql.Eval.{extract_id_eq}
use exepense_db.Sql.Sorting.{Std}
use exepense_db.Sql.Executor.{
  QueryResult, rows, decode_rows, apply_where, apply_order_by, apply_limit, apply_group_by,
  select_by, select_by_scan, execute_select, lift_lsm,
}
use exepense_db.Sql.Executor.Filter.{
  passes, Source, In-decode_rows, decode_rows-In, In-apply_where, apply_where-In, get-In, In-get,
}

module _ {F64 : Type 0} (fl : Floats F64) {Reader : Type 0} (t : Tables Reader) (wal : Wal.Lib)
    (codec : Codec F64) (rust_std : Std F64) where
  -- A stored row: under a key with the prefix, the newest version is a value that decodes to it.
  pub record IsStored (e : Engine Reader) (r : ExpenseRow F64) : Type 0 where
    pub key : Bytes
    pub bytes : Bytes
    pub taken : ℕ
    pub prefixed : starts_with key (ascii "expense:") ≡ true
    pub newest_is : live (newest e key) ≡ some bytes
    pub decodes : codec.decode_from_slice bytes ≡ some (r, taken)

  -- What `scan_prefix` is known to return.
  abbrev Scanned : Engine Reader → BtreeMap Bytes → Type 0
  Scanned e m =
      (q : Bytes)
      → BtreeMap.get q m ≡ (if starts_with q (ascii "expense:") then live (newest e q) else none)

  stored :
      (e : Engine Reader) (m : BtreeMap Bytes)
      → IsSorted m
      → Scanned e m
      → (r : ExpenseRow F64) → Source fl t wal codec rust_std m r
      → IsStored e r
  stored e m s scanned r (k, b, n, i, q) = elim (Bool-cases (starts_with k (ascii "expense:"))) [
    | inl h ↦ record {
      key = k;
      bytes = b;
      taken = n;
      prefixed = h;
      newest_is = sym (scanned k ∙ pick h) ∙ In-get k b m s i;
      decodes = q;
    }
    | inr h ↦ absurd (none_ne (sym (scanned k ∙ pick h) ∙ In-get k b m s i))
  ]
    where
      pick :
          {b c : _}
          → b ≡ c
          → (if b then live (newest e k) else none) ≡ (if c then live (newest e k) else none)
      pick h = ap (λ b. if b then live (newest e k) else none) h

      none_ne : {x : Bytes} → none ≡ some x → ⊥
      none_ne q = cc

  source :
      (e : Engine Reader) (m : BtreeMap Bytes)
      → Scanned e m
      → (r : ExpenseRow F64) → IsStored e r
      → Source fl t wal codec rust_std m r
  source e m scanned r x = (
    x.key,
    x.bytes,
    x.taken,
    get-In x.key x.bytes m (
        scanned x.key
        ∙ ap (λ b. if b then live (newest e x.key) else none) x.prefixed
        ∙ x.newest_is),
    x.decodes,
  )

  -- Select on a durable engine with no open table, whose memtables are in key order, with a query that
  -- is no lookup by `id`. The SELECT succeeds, with the grouping, the order and the limit applied to a
  -- list that has exactly the stored rows that pass the WHERE clause. A row is stored if it is what the
  -- newest version of some key with the prefix decodes to: deleted and overwritten rows are not in it.
  pub execute_select-IsStored :
      (e : Engine Reader) (query : SelectStmt F64)
      → IsDurable wal e
      → e.levels.readers ≡ []
      → AllSorted e.immutable
      → IsSorted e.memtable.inner
      → extract_id_eq query.where_clause ≡ none
      → (rs : List (ExpenseRow F64)) × (execute_select fl t wal codec rust_std e query
          ≡ ok (
              rows (
                apply_limit fl t wal codec rust_std query.limit (
                  apply_order_by fl t wal codec rust_std query.order_by
                    (apply_group_by fl t wal codec rust_std query.group_by rs)))))
        × ((r : ExpenseRow F64)
            → In r rs
              ↔ (IsStored e r × (passes fl t wal codec rust_std query.where_clause r ≡ true)))
  unfolding execute_select select_by_scan
  execute_select-IsStored e query d no_reader si sm asks =
      let (m, scans, sorted, scanned) =
        scan_prefix-newest t (ascii "expense:") wal e d no_reader si sm in
      let all = decode_rows fl t wal codec rust_std m in
      (
        apply_where fl t wal codec rust_std query.where_clause all,
        ap (select_by fl t wal codec rust_std e query) asks ∙ ap answer scans,
        λ r. (
          (λ i.
              let (j, p) = In-apply_where fl t wal codec rust_std query.where_clause all i in
              (stored e m sorted scanned r (In-decode_rows fl t wal codec rust_std m j), p)),
          λ (x, p).
              apply_where-In fl t wal codec rust_std query.where_clause all
                (decode_rows-In fl t wal codec rust_std m (source e m scanned r x)) p,
        ),
      )
    where
      answer : Result LsmError (BtreeMap Bytes) → Result (SqlError F64) (QueryResult F64)
      answer x = lift_lsm fl t wal codec rust_std x >>= λ pairs. ok (
          rows (
            apply_limit fl t wal codec rust_std query.limit (
              apply_order_by fl t wal codec rust_std query.order_by (
                apply_group_by fl t wal codec rust_std query.group_by (
                  apply_where fl t wal codec rust_std query.where_clause
                    (decode_rows fl t wal codec rust_std pairs))))))
