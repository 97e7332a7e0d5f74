-- ===== src/Sql/Parser/Simple.antt =====
-- Parsers that meet the laws assumed of nom, with numbers of one digit: the instance at which the tests
-- run.
pub mod Holds
use exepense_db.Base.{
  ℕ, zero, suc, ◌<◌, ◌≡◌, ◌≢◌, refl, Bool, true, ◌&&◌, ◌||◌, Option, none, some, List, [], ◌∷◌,
  ◌++◌, ◌+◌, ◌-◌, ◌%◌, ltb, leb, ◌==◌, ==_refl, ne→==, length, if◌then◌else◌,
}
use exepense_db.Base.Order.{Bytes}
use exepense_db.Base.Integers.{ℤ, pos, negsuc}
use exepense_db.Sql.Parser.{Parser, Nom, ◌>>=◌}
use exepense_db.Sql.Parser.Lawful.{lower, is_ascii_alphanumeric, skip}

abbrev pub one_char : ℕ → Parser ℕ
one_char c [] = none
one_char c (d ∷ rest) = if c == d then some (rest, c) else none

pub exact : (ℕ → ℕ) → Bytes → Parser Bytes
exact f [] i = some (i, [])
exact f (c ∷ word) [] = none
exact f (c ∷ word) (d ∷ rest) =
    if f c == f d then (exact f word rest >>= λ (i, s). some (i, d ∷ s)) else none

-- The longest front of characters that the predicate holds of.
pub span : (ℕ → Bool) → Bytes → Bytes × Bytes
span P [] = ([], [])
span P (c ∷ i) = let (rest, s) = span P i in if P c then (rest, c ∷ s) else (c ∷ i, [])

pub not_none : Bytes × Bytes → Option (Bytes × Bytes)
not_none (rest, []) = none
not_none (rest, c ∷ s) = some (rest, c ∷ s)

pub first_of {ℓ} : {A : Type ℓ} → Option A → Option A → Option A
first_of (some a) b = some a
first_of none b = b

pub choice : {A : Type 0} → List (Parser A) → Parser A
choice [] i = none
choice (p ∷ ps) i = first_of (p i) (choice ps i)

pub optional : {A : Type 0} → Bytes → Option (Bytes × A) → Option (Bytes × Option A)
optional i none = some (i, none)
optional i (some (rest, a)) = some (rest, some a)

pub many : {A : Type 0} → ℕ → Parser A → Bytes → Bytes × List A
many zero p i = (i, [])
many (suc n) p i = elim (p i) [
  | none ↦ (i, [])
  | some (j, a) ↦ let (rest, found) = many n p j in (rest, a ∷ found)
]

-- What follows an element: no separator, or one and the other elements, which are shorter than `n`.
pub or_last : {B : Type 0} → Bytes → B → Option (Bytes × List B) → Bytes × List B
or_last j b none = (j, b ∷ [])
or_last j b (some (l, bs)) = (l, b ∷ bs)

pub next :
    {A B : Type 0}
    → ℕ
    → Bytes
    → B
    → Option (Bytes × A)
    → (Bytes → Option (Bytes × List B))
    → Bytes × List B
next n j b none others = (j, b ∷ [])
next n j b (some (k, a)) others = if ltb (length k) n then or_last j b (others k) else (j, b ∷ [])

pub items : {A B : Type 0} → ℕ → Parser A → Parser B → Parser (List B)
items zero s p i = none
items (suc n) s p i = p i >>= λ (j, b). some (next (length i) j b (s j) (λ k. items n s p k))

abbrev pub is_digit : ℕ → Bool
is_digit c = leb b'0' c && leb c b'9'

abbrev pub one_digit : Parser ℤ
one_digit [] = none
one_digit (c ∷ rest) = if is_digit c then some (rest, pos (c - b'0')) else none

-- The last digit of a number.
abbrev pub digit : ℤ → Bytes
digit (pos n) = (b'0' + n % 10) ∷ []
digit (negsuc n) = b'0' ∷ []

abbrev pub then_is : {A B : Type 0} → Parser A → Parser B → Parser (A × B)
then_is p q i = p i >>= λ (j, a). q j >>= λ (k, b). some (k, (a, b))

abbrev pub second_of : {A B : Type 0} → Parser A → Parser B → Parser B
second_of p q i = p i >>= λ (j, a). q j

abbrev pub simple : Nom ℤ
simple = record {
  tag = exact (λ c. c);
  tag_no_case = exact lower;
  char = one_char;
  take_while1 = λ P i. not_none (span P i);
  multispace0 = λ i. some (skip i, []);
  double = one_digit;
  u64 = λ i. none;
  alt = choice;
  opt = λ p i. optional i (p i);
  map = λ p f i. p i >>= λ (j, a). some (j, f a);
  map_opt = λ p f i. p i >>= λ (j, a). f a >>= λ b. some (j, b);
  many0 = λ p i. some (many (length i) p i);
  separated_list1 = λ s p i. items (suc (length i)) s p i;
  delimited = λ p q r i. p i >>= λ (j, a). q j >>= λ (k, b). r k >>= λ (l, c). some (l, b);
  preceded = second_of;
  tuple = then_is;
  trim = λ i. i;
  is_alphanumeric = is_ascii_alphanumeric;
  fract = λ f. pos 0;
  abs = λ f. f;
}
