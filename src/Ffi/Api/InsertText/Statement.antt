-- ===== src/Ffi/Api/InsertText/Statement.antt =====
-- The statement that the INSERT text of crates/ffi/src/api.rs parses to, crates/sql/src/parser.rs.
use exepense_db.Base.{
  ◌≤◌, ◌≡◌, refl, sym, ap, ◌∙◌, Bool, Option, none, some, List, [], ◌∷◌, ◌++◌, append_assoc, All,
  length, length-append, map, if◌then◌else◌, Bool-cases, inl, inr, ok, err, arith,
}
use exepense_db.Base.Order.{Bytes}
use exepense_db.Base.Integers.{ascii}
use exepense_db.Wal
use exepense_db.Lsm.Levels.{Tables}
use exepense_db.Sql.Row.{Codec}
use exepense_db.Sql.Sorting.{Std}
use exepense_db.Sql.{parse}
use exepense_db.Sql.Ast.{Floats, Value, text, InsertStmt, Statement, insert, select}
use exepense_db.Sql.Parser.{
  Parser, Nom, ◌>>=◌, ws, sign, ident_list, parse_value, parse_insert, parse_select,
  parse_statement, to_statement,
}
use exepense_db.Sql.Parser.Lawful.{IsLawful}
use exepense_db.Sql.Parser.Words.{keyword_hit, keyword_miss, sign_hit}
use exepense_db.Sql.Parser.Values.{IsShown, value_of, value_list, value_number, skip-shown}
use exepense_db.Ffi.Api.{quoted, insert_text}
use exepense_db.Ffi.Api.InsertText.{IsAscii, all_usable, the_texts, usable_values, stuck_values}
use exepense_db.Ffi.Api.InsertText.Columns.{text_columns, columns_lem}

-- A text that ends in a bracket.
abbrev Ends : Bytes → Type 0
Ends i = (s : Bytes) × (i ≡ s ++ b')' ∷ [])

Ends-append : (a i : Bytes) → Ends i → Ends (a ++ i)
Ends-append a i (s, q) = (a ++ s, ap (λ x. a ++ x) q ∙ sym (append_assoc a s (b')' ∷ [])))

the_texts_end : (texts : List Bytes) → Ends (the_texts texts)
unfolding the_texts
the_texts_end [] = ([], refl)
the_texts_end (s ∷ texts) =
    Ends-append (ascii ", ") _ (Ends-append (quoted s) _ (the_texts_end texts))

module _ {F64 : Type 0} (fl : Floats F64) (nom : Nom F64) where
  -- The INSERT of the four columns.
  abbrev pub statement_of : F64 → List Bytes → InsertStmt F64
  statement_of amount texts = record {
    columns = text_columns;
    values = value_of fl nom amount ∷ map text texts;
  }

module _ {F64 : Type 0} (fl : Floats F64) {nom : Nom F64} (law : IsLawful nom) where
  -- From `VALUES` on.
  values_in_brackets :
      (shown : Bytes) (amount : F64) (texts : List Bytes) (s : Bytes)
      → IsShown nom shown amount
      → All IsAscii (s ∷ texts)
      → nom.delimited
          (sign fl nom b'(')
          (value_list fl nom)
          (sign fl nom b')')
          (ascii "(" ++ (shown ++ the_texts (s ∷ texts)))
        ≡ (if all_usable (s ∷ texts)
            then some ([], value_of fl nom amount ∷ map text (s ∷ texts))
            else none)
  unfolding the_texts
  values_in_brackets shown amount texts s is_shown a =
      law.delimited_is (sign fl nom b'(') (value_list fl nom) (sign fl nom b')') (b'(' ∷ i)
      ∙ ap (λ r. r >>= λ (j, x). closed (value_list fl nom j))
          (sign_hit fl law b'(' (b'(' ∷ i) i refl
            ∙ ap (λ x. some (x, b'('))
                (skip-shown fl law shown (the_texts (s ∷ texts)) amount is_shown))
      ∙ elim (Bool-cases (all_usable (s ∷ texts))) [
        | inl t ↦
            ap closed (usable_values fl law (s ∷ texts) i v a t first long)
            ∙ ap (λ r. r >>= λ (l, c). some (l, v ∷ map text (s ∷ texts)))
                (sign_hit fl law b')' (ascii ")") [] refl)
            ∙ rw t refl
        | inr f ↦
            let (l, vs, q, miss) = stuck_values fl law (s ∷ texts) i v a f first long in
            ap closed q ∙ ap (λ r. r >>= λ (k, c). some (k, vs)) miss ∙ rw f refl
      ]
    where
      i : Bytes
      i = shown ++ the_texts (s ∷ texts)

      v : Value F64
      v = value_of fl nom amount

      closed : Option (Bytes × List (Value F64)) → Option (Bytes × List (Value F64))
      closed r = r >>= λ (k, vs). sign fl nom b')' k >>= λ (l, c). some (l, vs)

      first : ws fl nom (parse_value fl nom) i ≡ some (the_texts (s ∷ texts), v)
      first = value_number fl law shown _ amount is_shown

      long : length (the_texts (s ∷ texts)) ≤ length i
      long = omega (arith, length-append shown (the_texts (s ∷ texts)))

  select_miss : (rest : Bytes) → parse_select fl nom (ascii "INSERT" ++ rest) ≡ none
  unfolding parse_select
  select_miss rest =
      rw
        (keyword_miss fl law b'S' b'I' (ascii "ELECT") (ascii "INSERT" ++ rest)
          (ascii "NSERT" ++ rest) refl (λ q. absurd (omega (arith, q))))
        refl

  -- An INSERT of the four columns, up to its values.
  parse_insert-values :
      (rest : Bytes)
      → parse_insert fl nom
          (ascii "INSERT INTO expenses (amount, category, description, date) VALUES (" ++ rest)
        ≡ (nom.delimited
              (sign fl nom b'(')
              (value_list fl nom)
              (sign fl nom b')')
              (ascii "(" ++ rest)
            >>= λ (i, values). some (i, record { columns = text_columns; values = values }))
  unfolding parse_insert
  parse_insert-values rest =
      rw
        (
          keyword_hit fl law (ascii "INSERT") _
              (ascii " INTO expenses (amount, category, description, date) VALUES (" ++ rest) refl,
          keyword_hit fl law (ascii "INTO") _
              (ascii " expenses (amount, category, description, date) VALUES (" ++ rest) refl,
          keyword_hit fl law (ascii "expenses") _
              (ascii " (amount, category, description, date) VALUES (" ++ rest) refl,
          law.delimited_is (sign fl nom b'(') (ident_list fl nom) (sign fl nom b')')
              (ascii "(amount, category, description, date) VALUES (" ++ rest),
          sign_hit fl law b'(' _ (ascii "amount, category, description, date) VALUES (" ++ rest)
              refl,
          columns_lem fl law (ascii " VALUES (" ++ rest),
          sign_hit fl law b')' _ (ascii " VALUES (" ++ rest) refl,
          keyword_hit fl law (ascii "VALUES") _ (ascii " (" ++ rest) refl,
        )
        refl

  abbrev sql_text : Bytes → List Bytes → Bytes
  sql_text shown texts =
      ascii "INSERT INTO expenses (amount, category, description, date) VALUES ("
      ++ (shown ++ the_texts texts)

  trimmed :
      (front shown : Bytes) (texts : List Bytes)
      → nom.trim (b'I' ∷ (front ++ (shown ++ the_texts texts)))
        ≡ b'I' ∷ (front ++ (shown ++ the_texts texts))
  trimmed front shown texts =
      let (s, q) = Ends-append front _ (Ends-append shown _ (the_texts_end texts)) in
      ap (λ x. nom.trim (b'I' ∷ x)) q
      ∙ law.trim_is b'I' b')' s (omega arith) (omega arith) (omega arith) (omega arith)
      ∙ ap (λ x. b'I' ∷ x) (sym q)

  parse_text :
      (shown : Bytes) (amount : F64) (s : Bytes) (texts : List Bytes)
      → IsShown nom shown amount
      → All IsAscii (s ∷ texts)
      → parse_statement fl nom (sql_text shown (s ∷ texts)) ≡ (
          if all_usable (s ∷ texts)
          then ok (insert (statement_of fl nom amount (s ∷ texts)))
          else err parse)
  unfolding parse_statement
  parse_text shown amount s texts is_shown a =
      ap (λ x. to_statement fl nom (branches x))
        (trimmed (ascii "NSERT INTO expenses (amount, category, description, date) VALUES (") shown
          (s ∷ texts))
      ∙ elim (Bool-cases (all_usable (s ∷ texts))) [
        | inl good ↦
            ap (to_statement fl nom) (
              law.alt_first _ _ [] (sql_text shown (s ∷ texts))
                (_, insert (statement_of fl nom amount (s ∷ texts)))
                (law.map_is (parse_insert fl nom) insert _
                  ∙ ap in_insert (inserts ∙ ap outcome good)))
            ∙ rw good refl
        | inr bad ↦
            ap (to_statement fl nom) (
              law.alt_next _ _ [] (sql_text shown (s ∷ texts)) (
                law.map_is (parse_insert fl nom) insert _ ∙ ap in_insert (inserts ∙ ap outcome bad))
              ∙ law.alt_one _ (sql_text shown (s ∷ texts))
              ∙ law.map_is (parse_select fl nom) select _
              ∙ ap (λ r. r >>= λ (x, y). some (x, select y))
                  (select_miss (
                    ascii " INTO expenses (amount, category, description, date) VALUES ("
                    ++ (shown ++ the_texts (s ∷ texts)))))
            ∙ rw bad refl
      ]
    where
      branches : Parser (Statement F64)
      branches =
          nom.alt (nom.map (parse_insert fl nom) insert ∷ nom.map (parse_select fl nom) select ∷ [])

      in_insert : Option (Bytes × InsertStmt F64) → Option (Bytes × Statement F64)
      in_insert r = r >>= λ (x, y). some (x, insert y)

      outcome : Bool → Option (Bytes × InsertStmt F64)
      outcome b = if b then some ([], statement_of fl nom amount (s ∷ texts)) else none

      inserts : parse_insert fl nom (sql_text shown (s ∷ texts)) ≡ outcome (all_usable (s ∷ texts))
      inserts =
          parse_insert-values (shown ++ the_texts (s ∷ texts))
          ∙ ap
              (λ r.
                r >>= λ (i, values). some (i, record { columns = text_columns; values = values }))
              (values_in_brackets shown amount texts s is_shown a)
          ∙ elim (Bool-cases (all_usable (s ∷ texts))) [
            | inl good ↦ rw good refl
            | inr bad ↦ rw bad refl
          ]

module _ {F64 : Type 0} (fl : Floats F64) {nom : Nom F64} (law : IsLawful nom)
    (display : F64 → Bytes) {Reader : Type 0} (t : Tables Reader) (wal : Wal.Lib)
    (codec : Codec F64) (rust_std : Std F64) where
  -- With a lawful nom, the INSERT text for an amount whose text nom reads back and three ASCII texts. If
  -- each text is not empty and has no quote, the text parses to the INSERT of amount, category,
  -- description and date with the number and the three texts as values. Otherwise it does not parse.
  pub parse_statement-insert_text :
      (amount : F64) (category description date : Bytes)
      → IsShown nom (display amount) amount
      → All IsAscii (category ∷ description ∷ date ∷ [])
      → parse_statement fl nom
          (insert_text fl nom display t wal codec rust_std amount category description date)
        ≡ (if all_usable (category ∷ description ∷ date ∷ [])
            then ok (insert (statement_of fl nom amount (category ∷ description ∷ date ∷ [])))
            else err parse)
  unfolding insert_text the_texts
  parse_statement-insert_text amount category description date is_shown a =
      parse_text fl law (display amount) amount category (description ∷ date ∷ []) is_shown a
