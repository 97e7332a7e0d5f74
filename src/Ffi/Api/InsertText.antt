-- ===== src/Ffi/Api/InsertText.antt =====
-- The quoted texts in the INSERT of crates/ffi/src/api.rs: what the parser of crates/sql/src/parser.rs
-- makes of them.
pub mod Columns
pub mod Statement
use exepense_db.Base.{
  ℕ, zero, suc, ◌+◌, ◌<◌, ◌≤◌, ◌≡◌, ◌≢◌, refl, sym, ap, ◌∙◌, Bool, true, false, ◌&&◌, not, Option,
  none, some, List, [], ◌∷◌, ◌++◌, append_assoc, All, length, length-append, map, ◌==◌,
  if◌then◌else◌, Bool-cases, ◌⊎◌, inl, inr, arith,
}
use exepense_db.Base.Order.{Bytes}
use exepense_db.Base.Integers.{ascii}
use exepense_db.Sql.Ast.{Floats, Value, text}
use exepense_db.Sql.Parser.{Nom, not_quote, ws, sign, parse_value}
use exepense_db.Sql.Parser.Lawful.{IsLawful, is_space, skip}
use exepense_db.Sql.Parser.Laws.{IsPlain, is_empty}
use exepense_db.Sql.Parser.Words.{sign_hit, sign_miss}
use exepense_db.Sql.Parser.Values.{value_list, value_quoted, value_empty}
use exepense_db.Ffi.Api.{double_quotes, quoted}

abbrev pub IsAscii : Bytes → Type 0
IsAscii = All (λ c. c < 128)

unfoldable pub has_no_quote : Bytes → Bool
has_no_quote [] = true
has_no_quote (c ∷ s) = not_quote c && has_no_quote s

-- Whether a text is not empty and has no quote.
abbrev pub is_usable : Bytes → Bool
is_usable s = not (is_empty s) && has_no_quote s

unfoldable pub all_usable : List Bytes → Bool
all_usable [] = true
all_usable (s ∷ texts) = is_usable s && all_usable texts

-- What the INSERT has behind its number.
unfoldable pub the_texts : List Bytes → Bytes
the_texts [] = ascii ")"
the_texts (s ∷ texts) = ascii ", " ++ (quoted s ++ the_texts texts)

skip-the_texts : (texts : List Bytes) → skip (the_texts texts) ≡ the_texts texts
unfolding the_texts
skip-the_texts [] = refl
skip-the_texts (s ∷ texts) = refl

has_no_quote-IsPlain : (s : Bytes) → IsAscii s → has_no_quote s ≡ true → IsPlain s
unfolding IsPlain has_no_quote
has_no_quote-IsPlain [] a h = tt
has_no_quote-IsPlain (c ∷ s) (l, a) h = ((l, ground arith), has_no_quote-IsPlain s a (ground arith))

plain_same : (s : Bytes) → has_no_quote s ≡ true → double_quotes s ≡ s
unfolding has_no_quote double_quotes
plain_same [] h = refl
plain_same (c ∷ s) h = ground (arith, plain_same s)

-- A text with a quote, cut at its first quote; the quoted text has two of them there.
first_quote :
    (s : Bytes)
    → IsAscii s
    → has_no_quote s ≡ false
    → (front back : Bytes) × IsPlain front
      × (double_quotes s ≡ front ++ b'\'' ∷ b'\'' ∷ double_quotes back)
unfolding has_no_quote double_quotes IsPlain
first_quote [] a h = absurd cc
first_quote (c ∷ s) (l, a) h = elim (Bool-cases (not_quote c)) [
  | inl t ↦
      let (front, back, plain, q) = first_quote s a (ground arith) in
      (c ∷ front, back, ((l, t), plain), ground (arith, q))
  | inr f ↦ ([], s, tt, ground arith)
]

quoted_plain :
    (s rest : Bytes) → has_no_quote s ≡ true → quoted s ++ rest ≡ b'\'' ∷ (s ++ b'\'' ∷ rest)
quoted_plain s rest h =
    ap (λ x. b'\'' ∷ ((x ++ b'\'' ∷ []) ++ rest)) (plain_same s h)
    ∙ ap (λ x. b'\'' ∷ x) (append_assoc s (b'\'' ∷ []) rest)

quoted_cut :
    (s front back rest : Bytes)
    → double_quotes s ≡ front ++ b'\'' ∷ b'\'' ∷ double_quotes back
    → quoted s ++ rest
      ≡ b'\'' ∷ (front ++ b'\'' ∷ b'\'' ∷ ((double_quotes back ++ b'\'' ∷ []) ++ rest))
quoted_cut s front back rest h =
    ap (λ x. b'\'' ∷ ((x ++ b'\'' ∷ []) ++ rest)) h
    ∙ ap (λ x. b'\'' ∷ (x ++ rest)) (append_assoc front _ (b'\'' ∷ []))
    ∙ ap (λ x. b'\'' ∷ x) (append_assoc front _ rest)

module _ {F64 : Type 0} (fl : Floats F64) {nom : Nom F64} (law : IsLawful nom) where
  comma_hit : (rest : Bytes) → sign fl nom b',' (ascii ", " ++ rest) ≡ some (skip rest, b',')
  comma_hit rest = sign_hit fl law b',' (ascii ", " ++ rest) (ascii " " ++ rest) refl

  usable_value :
      (s : Bytes) (texts : List Bytes)
      → IsAscii s
      → is_usable s ≡ true
      → ws fl nom (parse_value fl nom) (quoted s ++ the_texts texts)
        ≡ some (the_texts texts, text s)
  usable_value s texts a u =
      value_quoted fl law (quoted s ++ the_texts texts) s (the_texts texts)
        (quoted_plain s (the_texts texts) (ground arith)) (has_no_quote-IsPlain s a (ground arith))
        (ground arith)
      ∙ ap (λ x. some (x, text s)) (skip-the_texts texts)

  -- The values behind an element, where every text is usable.
  pub usable_values :
      (texts : List Bytes) (i : Bytes) (v : Value F64)
      → All IsAscii texts
      → all_usable texts ≡ true
      → ws fl nom (parse_value fl nom) i ≡ some (the_texts texts, v)
      → length (the_texts texts) ≤ length i
      → value_list fl nom i ≡ some (ascii ")", v ∷ map text texts)
  unfolding the_texts all_usable
  usable_values [] i v a u h l =
      law.separated_one (sign fl nom b',') (ws fl nom (parse_value fl nom)) i (ascii ")") v h
        (sign_miss fl law b',' b')' (ascii ")") [] refl (λ q. absurd (omega (arith, q))))
  usable_values (s ∷ texts) i v (b, a) u h l =
      let rest = quoted s ++ the_texts texts in
      law.separated_more (sign fl nom b',') (ws fl nom (parse_value fl nom)) i (ascii ", " ++ rest)
        rest (ascii ")") v b',' (map text (s ∷ texts)) h (comma_hit rest) l (omega arith)
        (usable_values texts rest (text s) a (ground arith) (usable_value s texts b (ground arith))
          (omega (arith, length-append (quoted s) (the_texts texts))))

  cut_value :
      (s front back rest : Bytes)
      → IsPlain front
      → double_quotes s ≡ front ++ b'\'' ∷ b'\'' ∷ double_quotes back
      → (ws fl nom (parse_value fl nom) (quoted s ++ rest) ≡ none)
        ⊎ ((l found : Bytes) × (ws fl nom (parse_value fl nom) (quoted s ++ rest)
              ≡ some (b'\'' ∷ l, text found)))
  cut_value s [] back rest plain q =
      inl (value_empty fl law (quoted s ++ rest) _ (ap skip (quoted_cut s [] back rest q)))
  cut_value s (d ∷ front) back rest plain q =
      let behind = (double_quotes back ++ b'\'' ∷ []) ++ rest in
      inr (
        behind,
        d ∷ front,
        value_quoted fl law (quoted s ++ rest) (d ∷ front) (b'\'' ∷ behind)
            (ap skip (quoted_cut s (d ∷ front) back rest q)) plain refl,
      )

  -- No value, or one that ends before a quote.
  unusable_value :
      (s rest : Bytes)
      → IsAscii s
      → is_usable s ≡ false
      → (ws fl nom (parse_value fl nom) (quoted s ++ rest) ≡ none)
        ⊎ ((l front : Bytes) × (ws fl nom (parse_value fl nom) (quoted s ++ rest)
              ≡ some (b'\'' ∷ l, text front)))
  unfolding double_quotes
  unusable_value [] rest a u = inl (value_empty fl law (quoted [] ++ rest) rest refl)
  unusable_value (c ∷ s) rest a u =
      let (front, back, plain, q) = first_quote (c ∷ s) a (ground arith) in
      cut_value (c ∷ s) front back rest plain q

  -- The values behind an element, where a text is not usable: the list ends before it or inside it, and
  -- no closing bracket follows.
  pub stuck_values :
      (texts : List Bytes) (i : Bytes) (v : Value F64)
      → All IsAscii texts
      → all_usable texts ≡ false
      → ws fl nom (parse_value fl nom) i ≡ some (the_texts texts, v)
      → length (the_texts texts) ≤ length i
      → (l : Bytes) × (vs : List (Value F64)) × (value_list fl nom i ≡ some (l, vs))
        × (sign fl nom b')' l ≡ none)
  unfolding the_texts all_usable
  stuck_values [] i v a u h l = absurd cc
  stuck_values (s ∷ texts) i v (b, a) u h l =
      let rest = quoted s ++ the_texts texts in
      elim (Bool-cases (is_usable s)) [
        | inl t ↦
            let (m, vs, q, r) =
              stuck_values texts rest (text s) a (ground arith) (usable_value s texts b t)
                (omega (arith, length-append (quoted s) (the_texts texts))) in
            (m, v ∷ vs, more rest (m, vs) q, r)
        | inr f ↦ elim (unusable_value s (the_texts texts) b f) [
          | inl none_there ↦ (
            ascii ", " ++ rest,
            v ∷ [],
            law.separated_last (sign fl nom b',') (ws fl nom (parse_value fl nom)) i
                (ascii ", " ++ rest) rest v b',' h (comma_hit rest) l (omega arith) none_there,
            sign_miss fl law b')' b',' (ascii ", " ++ rest) (ascii " " ++ rest) refl
                (λ q. absurd (omega (arith, q))),
          )
          | inr (m, front, q) ↦ (
            b'\'' ∷ m,
            v ∷ text front ∷ [],
            more rest (b'\'' ∷ m, text front ∷ [])
                (law.separated_one (sign fl nom b',') (ws fl nom (parse_value fl nom)) rest
                  (b'\'' ∷ m) (text front) q
                  (sign_miss fl law b',' b'\'' (b'\'' ∷ m) m refl
                    (λ e. absurd (omega (arith, e))))),
            sign_miss fl law b')' b'\'' (b'\'' ∷ m) m refl (λ e. absurd (omega (arith, e))),
          )
        ]
      ]
    where
      more :
          (k : Bytes) (r : Bytes × List (Value F64))
          → value_list fl nom (quoted s ++ the_texts texts) ≡ some r
          → value_list fl nom i ≡ some (r.0, v ∷ r.1)
      more k (m, vs) q =
          law.separated_more (sign fl nom b',') (ws fl nom (parse_value fl nom)) i
            (ascii ", " ++ (quoted s ++ the_texts texts)) (quoted s ++ the_texts texts) m v b',' vs
            h (comma_hit (quoted s ++ the_texts texts)) l (omega arith) q
