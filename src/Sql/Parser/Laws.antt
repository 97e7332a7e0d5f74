-- ===== src/Sql/Parser/Laws.antt =====
-- The parse of quoted texts, crates/sql/src/parser.rs.
use exepense_db.Base.{
  ◌<◌, ◌≡◌, ◌≢◌, refl, ap, ◌∙◌, Bool, true, false, none, some, [], ◌∷◌, ◌++◌, All, if◌then◌else◌,
  arith,
}
use exepense_db.Base.Order.{Bytes, starts_with}
use exepense_db.Base.Integers.{ascii}
use exepense_db.Sql.Ast.{Floats, Value, text, null}
use exepense_db.Sql.Parser.{Nom, ◌>>=◌, not_quote, number, quoted_string, parse_value}
use exepense_db.Sql.Parser.Lawful.{IsLawful, Stops}

-- ASCII without a quote.
unfoldable pub IsPlain : Bytes → Type 0
IsPlain = All (λ c. (c < 128) × (not_quote c ≡ true))

abbrev pub is_empty : Bytes → Bool
is_empty [] = true
is_empty (c ∷ s) = false

module _ {F64 : Type 0} (fl : Floats F64) {nom : Nom F64} (law : IsLawful nom) where
  quote-Stops : (rest : Bytes) → Stops not_quote (b'\'' ∷ rest)
  unfolding Stops
  quote-Stops rest = (omega arith, refl)

  quoted_lem :
      (s rest : Bytes)
      → s ≢ []
      → IsPlain s
      → quoted_string fl nom (b'\'' ∷ (s ++ b'\'' ∷ rest)) ≡ some (rest, s)
  unfolding quoted_string IsPlain
  quoted_lem s rest not_empty plain =
      rw
        (
          law.char_hit b'\'' (s ++ b'\'' ∷ rest),
          law.take_while1_hit not_quote s (b'\'' ∷ rest) not_empty plain (quote-Stops rest),
          law.char_hit b'\'' rest,
        )
        refl

  empty_lem : (rest : Bytes) → quoted_string fl nom (b'\'' ∷ b'\'' ∷ rest) ≡ none
  unfolding quoted_string
  empty_lem rest =
      rw
        (
          law.char_hit b'\'' (b'\'' ∷ rest),
          law.take_while1_miss not_quote (b'\'' ∷ rest) (quote-Stops rest),
        )
        refl

  no_number :
      (rest : Bytes)
      → nom.map (nom.map_opt nom.double (number fl nom)) (λ v. v) (b'\'' ∷ rest) ≡ none
  unfolding starts_with
  no_number rest =
      rw
        (
          law.map_is (nom.map_opt nom.double (number fl nom)) (λ v. v) (b'\'' ∷ rest),
          law.map_opt_is nom.double (number fl nom) (b'\'' ∷ rest),
          law.double_miss (b'\'' ∷ rest) refl,
        )
        refl

  no_null :
      (rest : Bytes)
      → nom.map {B = Value F64} (nom.tag_no_case (ascii "NULL")) (λ s. null) (b'\'' ∷ rest) ≡ none
  no_null rest =
      rw
        (
          law.map_is {B = Value F64} (nom.tag_no_case (ascii "NULL")) (λ s. null) (b'\'' ∷ rest),
          law.tag_no_case_miss b'N' b'\'' (ascii "ULL") rest (λ q. absurd (omega (arith, q))),
        )
        refl

  -- Parse a quote, then ASCII without a quote, then a quote, then anything. The value is the text between
  -- the quotes and the rest is left, so a doubled quote ends the text; but if there is nothing between
  -- the quotes the parse fails.
  pub parse_value-quoted :
      (s rest : Bytes)
      → IsPlain s
      → parse_value fl nom (b'\'' ∷ (s ++ b'\'' ∷ rest))
        ≡ (if is_empty s then none else some (rest, text s))
  unfolding parse_value
  parse_value-quoted [] rest plain =
      law.alt_next (nom.map (quoted_string fl nom) text) _ _ (b'\'' ∷ b'\'' ∷ rest) (
        law.map_is (quoted_string fl nom) text _
        ∙ ap (λ r. r >>= λ (i, a). some (i, text a)) (empty_lem rest))
      ∙ law.alt_next _ _ [] (b'\'' ∷ b'\'' ∷ rest) (no_number (b'\'' ∷ rest))
      ∙ law.alt_one _ (b'\'' ∷ b'\'' ∷ rest)
      ∙ no_null (b'\'' ∷ rest)
  parse_value-quoted (c ∷ s) rest plain =
      law.alt_first (nom.map (quoted_string fl nom) text) _ _ (b'\'' ∷ ((c ∷ s) ++ b'\'' ∷ rest))
        (rest, text (c ∷ s))
        (law.map_is (quoted_string fl nom) text _
          ∙ ap (λ r. r >>= λ (i, a). some (i, text a)) (quoted_lem (c ∷ s) rest not_empty plain))
    where
      not_empty : c ∷ s ≢ []
      not_empty q = cc
