-- ===== src/Sql/Parser/Comparison.antt =====
-- A comparison of the column `id` with a text, crates/sql/src/parser.rs.
use exepense_db.Base.{
  ◌≡◌, refl, ap, ◌∙◌, false, none, some, List, [], ◌∷◌, ◌++◌, if◌then◌else◌, arith,
}
use exepense_db.Base.Order.{Bytes, cmp, starts_with}
use exepense_db.Base.Integers.{ascii}
use exepense_db.Sql.Ast.{Floats, Value, text, null, Expr, column, literal, binary_op, equal}
use exepense_db.Sql.Parser.{
  Parser, Nom, ◌>>=◌, ident, number, quoted_string, parse_value, parse_atom, parse_comparison,
}
use exepense_db.Sql.Parser.Lawful.{IsLawful, Stops}
use exepense_db.Sql.Parser.Laws.{IsPlain, is_empty, parse_value-quoted}
use exepense_db.Sql.Parser.Words.{IsWord, ws_hit, ident_hit}

id-IsWord : IsWord (ascii "id")
unfolding IsWord
id-IsWord = ((omega arith, refl), ((omega arith, refl), tt))

module _ {F64 : Type 0} (fl : Floats F64) {nom : Nom F64} (law : IsLawful nom) where
  id_no_value : (rest : Bytes) → parse_value fl nom (ascii "id " ++ rest) ≡ none
  unfolding parse_value quoted_string starts_with
  id_no_value rest =
      let i = ascii "id " ++ rest in
      law.alt_next {A = Value F64} (nom.map (quoted_string fl nom) text) _ _ i (
        rw
          (
            law.map_is (quoted_string fl nom) text i,
            law.char_miss b'\'' b'i' (ascii "d " ++ rest) (λ q. absurd (omega (arith, q))),
          )
          refl)
      ∙ law.alt_next {A = Value F64} _ _ [] i (
          rw
            (
              law.map_is (nom.map_opt nom.double (number fl nom)) (λ v. v) i,
              law.map_opt_is nom.double (number fl nom) i,
              law.double_miss i refl,
            )
            refl)
      ∙ law.alt_one {A = Value F64} _ i
      ∙ rw
          (
            law.map_is {B = Value F64} (nom.tag_no_case (ascii "NULL")) (λ s. null) i,
            law.tag_no_case_miss b'N' b'i' (ascii "ULL") (ascii "d " ++ rest)
                (λ q. absurd (omega (arith, q))),
          )
          refl

  id_atom :
      (rest : Bytes)
      → parse_atom fl nom (ascii "id " ++ rest) ≡ some (ascii " " ++ rest, column (ascii "id"))
  unfolding parse_atom Stops
  id_atom rest =
      let i = ascii "id " ++ rest in
      law.alt_next {A = Expr F64} (nom.map (parse_value fl nom) literal) _ [] i
        (rw (law.map_is (parse_value fl nom) literal i, id_no_value rest) refl)
      ∙ law.alt_one {A = Expr F64} _ i
      ∙ rw
          (
            law.map_is {B = Expr F64} (ident fl nom) column i,
            ident_hit fl law (ascii "id") (ascii " " ++ rest) (λ q. cc) id-IsWord
                (omega arith, refl),
          )
          refl

  text_atom :
      (s rest : Bytes)
      → IsPlain s
      → is_empty s ≡ false
      → parse_atom fl nom (b'\'' ∷ (s ++ b'\'' ∷ rest)) ≡ some (rest, literal (text s))
  unfolding parse_atom
  text_atom s rest plain e =
      law.alt_first {A = Expr F64} (nom.map (parse_value fl nom) literal) _ [] _
        (rest, literal (text s))
        (law.map_is (parse_value fl nom) literal _
          ∙ ap (λ r. r >>= λ (x, y). some (x, literal y))
              (parse_value-quoted fl law s rest plain
                ∙ ap (λ b. if b then none else some (rest, text s)) e))

  abbrev operators : List (Parser Bytes)
  operators =
      nom.tag (ascii "!=")
      ∷ nom.tag (ascii "<=")
      ∷ nom.tag (ascii ">=")
      ∷ nom.tag (ascii "=")
      ∷ nom.tag (ascii "<")
      ∷ nom.tag (ascii ">")
      ∷ []

  equal_sign : (rest : Bytes) → nom.alt operators (ascii "=" ++ rest) ≡ some (rest, ascii "=")
  equal_sign rest =
      law.alt_next {A = Bytes} _ _ _ (ascii "=" ++ rest)
        (law.tag_miss b'!' b'=' (ascii "=") rest (λ q. absurd (omega (arith, q))))
      ∙ law.alt_next {A = Bytes} _ _ _ (ascii "=" ++ rest)
          (law.tag_miss b'<' b'=' (ascii "=") rest (λ q. absurd (omega (arith, q))))
      ∙ law.alt_next {A = Bytes} _ _ _ (ascii "=" ++ rest)
          (law.tag_miss b'>' b'=' (ascii "=") rest (λ q. absurd (omega (arith, q))))
      ∙ law.alt_first {A = Bytes} (nom.tag (ascii "=")) (nom.tag (ascii "<"))
          (nom.tag (ascii ">") ∷ []) (ascii "=" ++ rest) (rest, ascii "=")
          (law.tag_hit (ascii "=") rest)

  pub id_comparison :
      (s : Bytes)
      → IsPlain s
      → is_empty s ≡ false
      → parse_comparison fl nom (ascii "id = '" ++ (s ++ ascii "'"))
        ≡ some ([], binary_op equal (column (ascii "id")) (literal (text s)))
  unfolding parse_comparison cmp
  id_comparison s plain e =
      rw
        (
          ws_hit fl law (parse_atom fl nom) (ascii "id = '" ++ (s ++ ascii "'"))
              (ascii " = '" ++ (s ++ ascii "'")) (column (ascii "id"))
              (id_atom (ascii "= '" ++ (s ++ ascii "'"))),
          ws_hit fl law (nom.alt operators) (ascii "= '" ++ (s ++ ascii "'"))
              (ascii " '" ++ (s ++ ascii "'")) (ascii "=")
              (equal_sign (ascii " '" ++ (s ++ ascii "'"))),
          ws_hit fl law (parse_atom fl nom) (ascii "'" ++ (s ++ ascii "'")) [] (literal (text s))
              (text_atom s [] plain e),
        )
        refl
