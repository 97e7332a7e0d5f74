-- ===== src/Sql/Parser/Words.antt =====
-- The words of a statement, crates/sql/src/parser.rs: a parser between spaces, the keywords, the
-- names, and the lists with commas between brackets.
use exepense_db.Base.{
  ℕ, ◌<◌, ◌≡◌, ◌≢◌, refl, ap, ◌∙◌, Bool, true, ◌||◌, none, some, [], ◌∷◌, ◌++◌, All, ◌==◌,
}
use exepense_db.Base.Order.{Bytes}
use exepense_db.Sql.Ast.{Floats}
use exepense_db.Sql.Parser.{Parser, Nom, ◌>>=◌, ws, ident, keyword, sign}
use exepense_db.Sql.Parser.Lawful.{IsLawful, Stops, lower, skip, is_ascii_alphanumeric}

abbrev pub is_word : ℕ → Bool
is_word c = is_ascii_alphanumeric c || c == b'_'

-- ASCII letters, digits and underscores.
unfoldable pub IsWord : Bytes → Type 0
IsWord = All (λ c. (c < 128) × (is_word c ≡ true))

module _ {F64 : Type 0} (fl : Floats F64) {nom : Nom F64} (law : IsLawful nom) where
  -- Spaces around what a parser takes are dropped.
  pub ws_hit :
      {A : Type 0} (p : Parser A) (i j : Bytes) (a : A)
      → p (skip i) ≡ some (j, a)
      → ws fl nom p i ≡ some (skip j, a)
  ws_hit p i j a h =
      rw
        (
          law.delimited_is nom.multispace0 p nom.multispace0 i,
          (law.multispace0_is i).1,
          h,
          (law.multispace0_is j).1,
        )
        refl

  pub ws_miss : {A : Type 0} (p : Parser A) (i : Bytes) → p (skip i) ≡ none → ws fl nom p i ≡ none
  ws_miss p i h =
      rw (law.delimited_is nom.multispace0 p nom.multispace0 i, (law.multispace0_is i).1, h) refl

  pub keyword_hit :
      (word i rest : Bytes) → skip i ≡ word ++ rest → keyword fl nom word i ≡ some (skip rest, word)
  keyword_hit word i rest h =
      ws_hit (nom.tag_no_case word) i rest word
        (ap (nom.tag_no_case word) h ∙ law.tag_no_case_hit word rest)

  pub keyword_miss :
      (c d : ℕ) (word i rest : Bytes)
      → skip i ≡ d ∷ rest
      → lower c ≢ lower d
      → keyword fl nom (c ∷ word) i ≡ none
  keyword_miss c d word i rest h n =
      ws_miss (nom.tag_no_case (c ∷ word)) i
        (ap (nom.tag_no_case (c ∷ word)) h ∙ law.tag_no_case_miss c d word rest n)

  pub keyword_end : (c : ℕ) (word : Bytes) → keyword fl nom (c ∷ word) [] ≡ none
  keyword_end c word = ws_miss (nom.tag_no_case (c ∷ word)) [] (law.tag_no_case_end c word)

  pub sign_hit :
      (c : ℕ) (i rest : Bytes) → skip i ≡ c ∷ rest → sign fl nom c i ≡ some (skip rest, c)
  sign_hit c i rest h = ws_hit (nom.char c) i rest c (ap (nom.char c) h ∙ law.char_hit c rest)

  pub sign_miss : (c d : ℕ) (i rest : Bytes) → skip i ≡ d ∷ rest → c ≢ d → sign fl nom c i ≡ none
  sign_miss c d i rest h n = ws_miss (nom.char c) i (ap (nom.char c) h ∙ law.char_miss c d rest n)

  same_word : (c : ℕ) → c < 128 → (nom.is_alphanumeric c || c == b'_') ≡ is_word c
  same_word c l = ap (λ b. b || c == b'_') (law.alphanumeric_is c l)

  words :
      (s : Bytes)
      → IsWord s
      → All (λ c. (c < 128) × ((nom.is_alphanumeric c || c == b'_') ≡ true)) s
  unfolding IsWord
  words [] a = tt
  words (c ∷ s) ((l, t), a) = ((l, same_word c l ∙ t), words s a)

  word_ends :
      (rest : Bytes) → Stops is_word rest → Stops (λ c. nom.is_alphanumeric c || c == b'_') rest
  unfolding Stops
  word_ends [] h = tt
  word_ends (c ∷ rest) (l, f) = (l, same_word c l ∙ f)

  pub ident_hit :
      (s rest : Bytes)
      → s ≢ []
      → IsWord s
      → Stops is_word rest
      → ident fl nom (s ++ rest) ≡ some (rest, s)
  unfolding ident
  ident_hit s rest n a h =
      law.take_while1_hit (λ c. nom.is_alphanumeric c || c == b'_') s rest n (words s a)
        (word_ends rest h)

  pub ident_miss : (rest : Bytes) → Stops is_word rest → ident fl nom rest ≡ none
  unfolding ident
  ident_miss rest h =
      law.take_while1_miss (λ c. nom.is_alphanumeric c || c == b'_') rest (word_ends rest h)

  abbrev pub one_name : Parser Bytes
  one_name = nom.map (ws fl nom (ident fl nom)) (λ s. s)

  pub name_hit :
      (s i rest : Bytes)
      → skip i ≡ s ++ rest
      → s ≢ []
      → IsWord s
      → Stops is_word rest
      → one_name i ≡ some (skip rest, s)
  name_hit s i rest h n a stops =
      law.map_is (ws fl nom (ident fl nom)) (λ x. x) i
      ∙ ap (λ r. r >>= λ (x, y). some (x, y))
          (ws_hit (ident fl nom) i rest s (ap (ident fl nom) h ∙ ident_hit s rest n a stops))

  pub name_miss : (i rest : Bytes) → skip i ≡ rest → Stops is_word rest → one_name i ≡ none
  name_miss i rest h stops =
      law.map_is (ws fl nom (ident fl nom)) (λ x. x) i
      ∙ ap (λ r. r >>= λ (x, y). some (x, y))
          (ws_miss (ident fl nom) i (ap (ident fl nom) h ∙ ident_miss rest stops))
