-- ===== src/Sql/Parser/ById.antt =====
-- The SELECT of one row by its identifier, crates/sql/src/parser.rs.
use exepense_db.Base.{◌≡◌, refl, ap, ◌∙◌, false, none, some, [], ◌∷◌, ◌++◌, ok, arith}
use exepense_db.Base.Order.{Bytes}
use exepense_db.Base.Integers.{ascii}
use exepense_db.Sql.Ast.{
  Floats, text, column, literal, binary_op, equal, all_columns, SelectColumns, SelectStmt, insert,
  select,
}
use exepense_db.Sql.Parser.{
  Nom, keyword, sign, parse_insert, parse_select, parse_select_columns, parse_comparison, fold_op,
  parse_and_expr, parse_or_expr, parse_where, parse_order_by, parse_group_by, parse_limit,
  parse_statement, to_statement,
}
use exepense_db.Sql.Parser.Lawful.{IsLawful, skip}
use exepense_db.Sql.Parser.Laws.{IsPlain, is_empty}
use exepense_db.Sql.Parser.Words.{ws_hit, keyword_hit, keyword_miss, keyword_end, sign_hit}
use exepense_db.Sql.Parser.Comparison.{id_comparison}

-- `SELECT * FROM expenses WHERE id = '…'`
abbrev pub by_id_text : Bytes → Bytes
by_id_text id = ascii "SELECT * FROM expenses WHERE id = '" ++ (id ++ ascii "'")

abbrev pub by_id : {F64 : Type 0} → Bytes → SelectStmt F64
by_id id = record {
  columns = all_columns;
  where_clause = some (binary_op equal (column (ascii "id")) (literal (text id)));
  order_by = none;
  group_by = none;
  limit = none;
}

module _ {F64 : Type 0} (fl : Floats F64) {nom : Nom F64} (law : IsLawful nom) where
  id_where :
      (s : Bytes)
      → IsPlain s
      → is_empty s ≡ false
      → parse_where fl nom (ascii "WHERE id = '" ++ (s ++ ascii "'"))
        ≡ some ([], binary_op equal (column (ascii "id")) (literal (text s)))
  unfolding parse_where parse_or_expr parse_and_expr fold_op
  id_where s plain e =
      rw
        (
          keyword_hit fl law (ascii "WHERE") _ (ascii " id = '" ++ (s ++ ascii "'")) refl,
          id_comparison fl law s plain e,
          law.many0_stop (nom.preceded (keyword fl nom (ascii "AND")) (parse_comparison fl nom)) []
              no_more,
          law.many0_stop (nom.preceded (keyword fl nom (ascii "OR")) (parse_and_expr fl nom)) []
              none_other,
        )
        refl
    where
      no_more : nom.preceded (keyword fl nom (ascii "AND")) (parse_comparison fl nom) [] ≡ none
      no_more =
          rw
            (
              law.preceded_is (keyword fl nom (ascii "AND")) (parse_comparison fl nom) [],
              keyword_end fl law b'A' (ascii "ND"),
            )
            refl

      none_other : nom.preceded (keyword fl nom (ascii "OR")) (parse_and_expr fl nom) [] ≡ none
      none_other =
          rw
            (
              law.preceded_is (keyword fl nom (ascii "OR")) (parse_and_expr fl nom) [],
              keyword_end fl law b'O' (ascii "R"),
            )
            refl

  no_order : parse_order_by fl nom [] ≡ none
  unfolding parse_order_by
  no_order =
      rw
        (
          law.tuple_is (keyword fl nom (ascii "ORDER")) (keyword fl nom (ascii "BY")) [],
          keyword_end fl law b'O' (ascii "RDER"),
        )
        refl

  no_group : parse_group_by fl nom [] ≡ none
  unfolding parse_group_by
  no_group =
      rw
        (
          law.tuple_is (keyword fl nom (ascii "GROUP")) (keyword fl nom (ascii "BY")) [],
          keyword_end fl law b'G' (ascii "ROUP"),
        )
        refl

  no_limit : parse_limit fl nom [] ≡ none
  unfolding parse_limit
  no_limit = rw (keyword_end fl law b'L' (ascii "IMIT")) refl

  star :
      (rest : Bytes)
      → parse_select_columns fl nom (ascii "* " ++ rest) ≡ some (skip rest, all_columns)
  unfolding parse_select_columns
  star rest =
      law.alt_first {A = SelectColumns} (nom.map (sign fl nom b'*') (λ c. all_columns)) _ [] _
        (skip rest, all_columns)
        (rw
          (
            law.map_is {B = SelectColumns} (sign fl nom b'*') (λ c. all_columns)
                (ascii "* " ++ rest),
            sign_hit fl law b'*' _ (ascii " " ++ rest) refl,
          )
          refl)

  parse_select-by_id :
      (s : Bytes)
      → IsPlain s
      → is_empty s ≡ false
      → parse_select fl nom (by_id_text s) ≡ some ([], by_id s)
  unfolding parse_select
  parse_select-by_id s plain e =
      let behind = ascii "WHERE id = '" ++ (s ++ ascii "'") in
      rw
        (
          keyword_hit fl law (ascii "SELECT") _ (ascii " * FROM expenses " ++ behind) refl,
          ws_hit fl law (parse_select_columns fl nom) (ascii "* FROM expenses " ++ behind) _
              all_columns (star (ascii "FROM expenses " ++ behind)),
          keyword_hit fl law (ascii "FROM") _ (ascii " expenses " ++ behind) refl,
          keyword_hit fl law (ascii "expenses") _ (ascii " " ++ behind) refl,
          law.opt_is (parse_where fl nom) behind,
          id_where s plain e,
          law.opt_is (parse_order_by fl nom) [],
          no_order,
          law.opt_is (parse_group_by fl nom) [],
          no_group,
          law.opt_is (parse_limit fl nom) [],
          no_limit,
        )
        refl

  insert_miss : (rest : Bytes) → parse_insert fl nom (ascii "SELECT" ++ rest) ≡ none
  unfolding parse_insert
  insert_miss rest =
      rw
        (keyword_miss fl law b'I' b'S' (ascii "NSERT") _ (ascii "ELECT" ++ rest) refl
          (λ q. absurd (omega (arith, q))))
        refl

  -- A SELECT of all columns where `id` is an ASCII text that is not empty and has no quote.
  pub parse_statement-by_id :
      (s : Bytes)
      → IsPlain s
      → is_empty s ≡ false
      → parse_statement fl nom (by_id_text s) ≡ ok (select (by_id s))
  unfolding parse_statement
  parse_statement-by_id s plain e =
      ap
        (λ x. to_statement fl nom (
          nom.alt (nom.map (parse_insert fl nom) insert ∷ nom.map (parse_select fl nom) select ∷ [])
            x))
        trimmed
      ∙ ap (to_statement fl nom) {y = some ([], select (by_id s))} (
          law.alt_next (nom.map (parse_insert fl nom) insert) (nom.map (parse_select fl nom) select)
            [] (by_id_text s)
            (rw
              (
                law.map_is (parse_insert fl nom) insert (by_id_text s),
                insert_miss (ascii " * FROM expenses WHERE id = '" ++ (s ++ ascii "'")),
              )
              refl)
          ∙ law.alt_one (nom.map (parse_select fl nom) select) (by_id_text s)
          ∙ rw
              (law.map_is (parse_select fl nom) select (by_id_text s), parse_select-by_id s plain e)
              refl)
    where
      trimmed : nom.trim (by_id_text s) ≡ by_id_text s
      trimmed =
          law.trim_is b'S' b'\'' (ascii "ELECT * FROM expenses WHERE id = '" ++ s) (omega arith)
            (omega arith) (omega arith) (omega arith)
