-- ===== src/Sql/Parser/Values.antt =====
-- The values of an INSERT, crates/sql/src/parser.rs.
use exepense_db.Base.{
  ℕ, ◌≡◌, ◌≢◌, refl, sym, ap, ◌∙◌, false, none, some, List, [], ◌∷◌, ◌++◌, if◌then◌else◌, arith,
}
use exepense_db.Base.Order.{Bytes}
use exepense_db.Sql.Ast.{Floats, Value, text, real, integer}
use exepense_db.Sql.Parser.{Parser, Nom, ws, sign, is_whole, number, quoted_string, parse_value}
use exepense_db.Sql.Parser.Lawful.{IsLawful, is_space, skip}
use exepense_db.Sql.Parser.Laws.{IsPlain, is_empty, parse_value-quoted}
use exepense_db.Sql.Parser.Words.{ws_hit, ws_miss}

-- The text of a number, before a comma: it starts with a visible character that is no quote, and nom
-- reads it back.
pub record IsShown {F64 : Type 0} (nom : Nom F64) (shown : Bytes) (amount : F64) : Type 0 where
  pub first : ℕ
  pub more : Bytes
  pub starts : shown ≡ first ∷ more
  pub no_space : is_space first ≡ false
  pub no_quote : b'\'' ≢ first
  pub reads : (rest : Bytes) → nom.double (shown ++ b',' ∷ rest) ≡ some (b',' ∷ rest, amount)

module _ {F64 : Type 0} (fl : Floats F64) (nom : Nom F64) where
  -- A whole number that an `i64` holds is an integer.
  abbrev pub value_of : F64 → Value F64
  value_of amount = if is_whole fl nom amount then integer (fl.to_i64 amount) else real amount

  abbrev pub value_list : Parser (List (Value F64))
  value_list = nom.separated_list1 (sign fl nom b',') (ws fl nom (parse_value fl nom))

module _ {F64 : Type 0} (fl : Floats F64) {nom : Nom F64} (law : IsLawful nom) where
  pub value_quoted :
      (i s rest : Bytes)
      → skip i ≡ b'\'' ∷ (s ++ b'\'' ∷ rest)
      → IsPlain s
      → is_empty s ≡ false
      → ws fl nom (parse_value fl nom) i ≡ some (skip rest, text s)
  value_quoted i s rest h plain e = ws_hit fl law (parse_value fl nom) i rest (text s) (
      ap (parse_value fl nom) h
      ∙ parse_value-quoted fl law s rest plain
      ∙ ap (λ b. if b then none else some (rest, text s)) e)

  -- Nothing between two quotes.
  pub value_empty :
      (i rest : Bytes) → skip i ≡ b'\'' ∷ b'\'' ∷ rest → ws fl nom (parse_value fl nom) i ≡ none
  unfolding IsPlain
  value_empty i rest h =
      ws_miss fl law (parse_value fl nom) i
        (ap (parse_value fl nom) h ∙ parse_value-quoted fl law [] rest tt)

  number_value : (amount : F64) → number fl nom amount ≡ some (value_of fl nom amount)
  number_value amount = ground arith

  parse_value-number :
      (i rest : Bytes) (c : ℕ) (amount : F64)
      → b'\'' ≢ c
      → nom.double (c ∷ i) ≡ some (rest, amount)
      → parse_value fl nom (c ∷ i) ≡ some (rest, value_of fl nom amount)
  unfolding parse_value quoted_string
  parse_value-number i rest c amount n h =
      law.alt_next {A = Value F64} (nom.map (quoted_string fl nom) text) _ _ (c ∷ i)
        (rw (law.map_is (quoted_string fl nom) text (c ∷ i), law.char_miss b'\'' c i n) refl)
      ∙ law.alt_first {A = Value F64} _ _ [] (c ∷ i) (rest, value_of fl nom amount)
          (rw
            (
              law.map_is (nom.map_opt nom.double (number fl nom)) (λ v. v) (c ∷ i),
              law.map_opt_is nom.double (number fl nom) (c ∷ i),
              h,
              number_value amount,
            )
            refl)

  pub skip-shown :
      (shown rest : Bytes) (amount : F64)
      → IsShown nom shown amount
      → skip (shown ++ rest) ≡ shown ++ rest
  skip-shown shown rest amount s =
      ap (λ x. skip (x ++ rest)) s.starts
      ∙ ap (λ b. if b then skip (s.more ++ rest) else s.first ∷ (s.more ++ rest)) s.no_space
      ∙ ap (λ x. x ++ rest) (sym s.starts)

  pub value_number :
      (shown rest : Bytes) (amount : F64)
      → IsShown nom shown amount
      → ws fl nom (parse_value fl nom) (shown ++ b',' ∷ rest)
        ≡ some (b',' ∷ rest, value_of fl nom amount)
  value_number shown rest amount s =
      ws_hit fl law (parse_value fl nom) (shown ++ b',' ∷ rest) (b',' ∷ rest)
        (value_of fl nom amount)
        (ap (parse_value fl nom)
            (skip-shown shown (b',' ∷ rest) amount s ∙ ap (λ x. x ++ b',' ∷ rest) s.starts)
          ∙ parse_value-number (s.more ++ b',' ∷ rest) (b',' ∷ rest) s.first amount s.no_quote
              (ap (λ x. nom.double (x ++ b',' ∷ rest)) (sym s.starts) ∙ s.reads rest))
