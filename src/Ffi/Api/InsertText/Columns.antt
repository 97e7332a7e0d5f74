-- ===== src/Ffi/Api/InsertText/Columns.antt =====
-- The columns in the INSERT of crates/ffi/src/api.rs, as crates/sql/src/parser.rs reads them.
use exepense_db.Base.{
  ℕ, ◌<◌, ◌≡◌, ◌≢◌, refl, ap, ◌∙◌, Bool, true, false, ◌&&◌, some, List, [], ◌∷◌, ◌++◌,
  length-append, ltb, ltb→lt, arith,
}
use exepense_db.Base.Order.{Bytes}
use exepense_db.Base.Integers.{ascii}
use exepense_db.Sql.Ast.{Floats}
use exepense_db.Sql.Parser.{Nom, sign, ident_list}
use exepense_db.Sql.Parser.Lawful.{IsLawful, Stops, skip}
use exepense_db.Sql.Parser.Words.{is_word, IsWord, sign_hit, sign_miss, name_hit, one_name}

abbrev all_words : Bytes → Bool
all_words [] = true
all_words (c ∷ s) = (ltb c 128 && is_word c) && all_words s

literal-IsWord : (s : Bytes) → all_words s ≡ true → IsWord s
unfolding IsWord
literal-IsWord [] h = tt
literal-IsWord (c ∷ s) h =
    ((ltb→lt c 128 (ground arith), ground arith), literal-IsWord s (ground arith))

-- The columns that the text names.
abbrev pub text_columns : List Bytes
text_columns = ascii "amount" ∷ ascii "category" ∷ ascii "description" ∷ ascii "date" ∷ []

module _ {F64 : Type 0} (fl : Floats F64) {nom : Nom F64} (law : IsLawful nom) where
  column_hit :
      (s i rest : Bytes) (c : ℕ)
      → skip i ≡ s ++ c ∷ rest
      → s ≢ []
      → all_words s ≡ true
      → c < 128
      → is_word c ≡ false
      → one_name fl law i ≡ some (skip (c ∷ rest), s)
  unfolding Stops
  column_hit s i rest c h n w l stops =
      name_hit fl law s i (c ∷ rest) h n (literal-IsWord s w) (l, stops)

  names_more :
      (s rest l : Bytes) (names : List Bytes)
      → skip (s ++ (ascii ", " ++ rest)) ≡ s ++ (ascii ", " ++ rest)
      → s ≢ []
      → all_words s ≡ true
      → skip rest ≡ rest
      → ident_list fl nom rest ≡ some (l, names)
      → ident_list fl nom (s ++ (ascii ", " ++ rest)) ≡ some (l, s ∷ names)
  names_more s rest l names visible n w h q =
      law.separated_more (sign fl nom b',') (one_name fl law) (s ++ (ascii ", " ++ rest))
        (ascii ", " ++ rest) rest l s b',' names
        (column_hit s (s ++ (ascii ", " ++ rest)) (ascii " " ++ rest) b',' visible n w (omega arith)
          refl)
        (sign_hit fl law b',' (ascii ", " ++ rest) (ascii " " ++ rest) refl
          ∙ ap (λ x. some (x, b',')) h)
        (omega (arith, length-append s (ascii ", " ++ rest))) (omega arith) q

  pub columns_lem :
      (rest : Bytes)
      → ident_list fl nom (ascii "amount, category, description, date)" ++ rest)
        ≡ some (ascii ")" ++ rest, text_columns)
  columns_lem rest =
      names_more (ascii "amount") (ascii "category, description, date)" ++ rest) _ _ refl (λ q. cc)
        refl refl
        (names_more (ascii "category") (ascii "description, date)" ++ rest) _ _ refl (λ q. cc) refl
          refl
          (names_more (ascii "description") (ascii "date)" ++ rest) _ _ refl (λ q. cc) refl refl
            (law.separated_one (sign fl nom b',') (one_name fl law) (ascii "date)" ++ rest)
              (ascii ")" ++ rest) (ascii "date")
              (column_hit (ascii "date") (ascii "date)" ++ rest) rest b')' refl (λ q. cc) refl
                (omega arith) refl)
              (sign_miss fl law b',' b')' (ascii ")" ++ rest) rest refl
                (λ q. absurd (omega (arith, q)))))))
