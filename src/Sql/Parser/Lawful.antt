-- ===== src/Sql/Parser/Lawful.antt =====
-- What nom documents of the combinators that crates/sql/src/parser.rs uses, and the standard library of
-- `trim` and `is_alphanumeric`.
use exepense_db.Base.{
  ℕ, ◌+◌, ◌<◌, ◌≤◌, ◌≡◌, ◌≢◌, Bool, true, false, ◌&&◌, ◌||◌, Option, none, some, List, [], ◌∷◌,
  ◌++◌, All, length, leb, ◌==◌, map, if◌then◌else◌,
}
use exepense_db.Base.Order.{Bytes, starts_with}
use exepense_db.Base.Integers.{ascii}
use exepense_db.Sql.Parser.{Parser, Nom, ◌>>=◌}

-- An ASCII letter in lower case.
abbrev pub lower : ℕ → ℕ
lower c = if leb b'A' c && leb c b'Z' then c + 32 else c

-- An ASCII letter or digit.
abbrev pub is_ascii_alphanumeric : ℕ → Bool
is_ascii_alphanumeric c = leb b'a' (lower c) && leb (lower c) b'z' || leb b'0' c && leb c b'9'

-- A space, a tab, a carriage return or a line feed.
abbrev pub is_space : ℕ → Bool
is_space c = c == 32 || c == 9 || c == 13 || c == 10

abbrev pub skip : Bytes → Bytes
skip [] = []
skip (c ∷ i) = if is_space c then skip i else c ∷ i

-- A text that ends, or goes on with an ASCII character that the predicate does not hold of.
unfoldable pub Stops : (ℕ → Bool) → Bytes → Type 0
Stops P [] = Unit
Stops P (c ∷ rest) = (c < 128) × (P c ≡ false)

-- Whether a text starts like a number: a digit, a sign or a point, or `inf` or `nan` in any case.
abbrev pub starts_number : Bytes → Bool
starts_number [] = false
starts_number (c ∷ i) =
    leb b'0' c && leb c b'9'
    || c == b'+'
    || c == b'-'
    || c == b'.'
    || starts_with (map lower (c ∷ i)) (ascii "inf")
    || starts_with (map lower (c ∷ i)) (ascii "nan")

abbrev pub or_none {ℓ} : {A : Type ℓ} → Bytes → Option (Bytes × A) → Bytes × Option A
or_none i none = (i, none)
or_none i (some (rest, a)) = (rest, some a)

pub record IsLawful {F64 : Type 0} (nom : Nom F64) : Type 1 where
  pub map_is :
      {A B : Type 0} (p : Parser A) (f : A → B) (i : Bytes)
      → nom.map p f i ≡ (p i >>= λ (rest, a). some (rest, f a))
  pub map_opt_is :
      {A B : Type 0} (p : Parser A) (f : A → Option B) (i : Bytes)
      → nom.map_opt p f i ≡ (p i >>= λ (rest, a). f a >>= λ b. some (rest, b))
  pub delimited_is :
      {A B C : Type 0} (p : Parser A) (q : Parser B) (r : Parser C) (i : Bytes)
      → nom.delimited p q r i ≡ (p i >>= λ (j, a). q j >>= λ (k, b). r k >>= λ (l, c). some (l, b))
  pub preceded_is :
      {A B : Type 0} (p : Parser A) (q : Parser B) (i : Bytes)
      → nom.preceded p q i ≡ (p i >>= λ (j, a). q j)
  pub tuple_is :
      {A B : Type 0} (p : Parser A) (q : Parser B) (i : Bytes)
      → nom.tuple p q i ≡ (p i >>= λ (j, a). q j >>= λ (k, b). some (k, (a, b)))
  pub opt_is : {A : Type 0} (p : Parser A) (i : Bytes) → nom.opt p i ≡ some (or_none i (p i))
  pub alt_one : {A : Type 0} (p : Parser A) (i : Bytes) → nom.alt (p ∷ []) i ≡ p i
  pub alt_first :
      {A : Type 0} (p q : Parser A) (ps : List (Parser A)) (i : Bytes) (r : Bytes × A)
      → p i ≡ some r
      → nom.alt (p ∷ q ∷ ps) i ≡ some r
  pub alt_next :
      {A : Type 0} (p q : Parser A) (ps : List (Parser A)) (i : Bytes)
      → p i ≡ none
      → nom.alt (p ∷ q ∷ ps) i ≡ nom.alt (q ∷ ps) i
  pub many0_stop :
      {A : Type 0} (p : Parser A) (i : Bytes) → p i ≡ none → nom.many0 p i ≡ some (i, [])
  -- An element, then no separator; or a separator that takes something, and the elements behind it.
  pub separated_fail :
      {A B : Type 0} (s : Parser A) (p : Parser B) (i : Bytes)
      → p i ≡ none
      → nom.separated_list1 s p i ≡ none
  pub separated_one :
      {A B : Type 0} (s : Parser A) (p : Parser B) (i j : Bytes) (b : B)
      → p i ≡ some (j, b)
      → s j ≡ none
      → nom.separated_list1 s p i ≡ some (j, b ∷ [])
  pub separated_more :
      {A B : Type 0} (s : Parser A) (p : Parser B) (i j k l : Bytes) (b : B) (a : A) (bs : List B)
      → p i ≡ some (j, b)
      → s j ≡ some (k, a)
      → length j ≤ length i
      → length k < length j
      → nom.separated_list1 s p k ≡ some (l, bs)
      → nom.separated_list1 s p i ≡ some (l, b ∷ bs)
  pub separated_last :
      {A B : Type 0} (s : Parser A) (p : Parser B) (i j k : Bytes) (b : B) (a : A)
      → p i ≡ some (j, b)
      → s j ≡ some (k, a)
      → length j ≤ length i
      → length k < length j
      → p k ≡ none
      → nom.separated_list1 s p i ≡ some (j, b ∷ [])
  pub multispace0_is : (i : Bytes) → (s : Bytes) × (nom.multispace0 i ≡ some (skip i, s))
  pub char_hit : (c : ℕ) (rest : Bytes) → nom.char c (c ∷ rest) ≡ some (rest, c)
  pub char_miss : (c d : ℕ) (rest : Bytes) → c ≢ d → nom.char c (d ∷ rest) ≡ none
  pub char_end : (c : ℕ) → nom.char c [] ≡ none
  pub take_while1_hit :
      (P : ℕ → Bool) (s rest : Bytes)
      → s ≢ []
      → All (λ c. (c < 128) × (P c ≡ true)) s
      → Stops P rest
      → nom.take_while1 P (s ++ rest) ≡ some (rest, s)
  pub take_while1_miss :
      (P : ℕ → Bool) (rest : Bytes) → Stops P rest → nom.take_while1 P rest ≡ none
  pub tag_hit : (word rest : Bytes) → nom.tag word (word ++ rest) ≡ some (rest, word)
  pub tag_miss : (c d : ℕ) (word rest : Bytes) → c ≢ d → nom.tag (c ∷ word) (d ∷ rest) ≡ none
  pub tag_no_case_hit :
      (word rest : Bytes) → nom.tag_no_case word (word ++ rest) ≡ some (rest, word)
  pub tag_no_case_miss :
      (c d : ℕ) (word rest : Bytes)
      → lower c ≢ lower d
      → nom.tag_no_case (c ∷ word) (d ∷ rest) ≡ none
  pub tag_no_case_end : (c : ℕ) (word : Bytes) → nom.tag_no_case (c ∷ word) [] ≡ none
  pub double_miss : (i : Bytes) → starts_number i ≡ false → nom.double i ≡ none
  -- Nothing is trimmed where both ends are visible ASCII.
  pub trim_is :
      (c d : ℕ) (s : Bytes)
      → 32 < c
      → c < 127
      → 32 < d
      → d < 127
      → nom.trim (c ∷ (s ++ d ∷ [])) ≡ c ∷ (s ++ d ∷ [])
  pub alphanumeric_is : (c : ℕ) → c < 128 → nom.is_alphanumeric c ≡ is_ascii_alphanumeric c
