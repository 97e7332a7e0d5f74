-- ===== src/Sql/Parser.antt =====
-- crates/sql/src/parser.rs. The combinators of the nom crate are the parameter `Nom`, whose parsers take
-- the rest of a text, as UTF-8 bytes, to what is left and a result. An error's message is dropped.
pub mod Lawful
pub mod Laws
pub mod Words
pub mod Values
pub mod Comparison
pub mod ById
pub mod Simple
use exepense_db.Base.{
  ℕ, ◌≡◌, ◌≢◌, Bool, true, false, ◌||◌, ◌&&◌, not, Option, none, some, List, [], ◌∷◌, ◌++◌, All,
  ◌==◌, if◌then◌else◌, Result, ok, err,
}
use exepense_db.Base.Order.{Bytes, same}
use exepense_db.Base.Integers.{ℤ, pos, ascii}
use exepense_db.Sql.{SqlError, parse}
use exepense_db.Sql.Eval.{apply_op}
use exepense_db.Sql.Ast.{
  Floats, Value, text, real, integer, null, BinOp, equal, not_equal, less, less_equal, greater,
  greater_equal, conj, disj, Expr, column, literal, binary_op, SelectColumns, all_columns, named,
  OrderBy, InsertStmt, SelectStmt, Statement, insert, select,
}

abbrev pub Parser {ℓ} : Type ℓ → Type ℓ
Parser A = Bytes → Option (Bytes × A)

-- What the code uses of nom and of the standard library's characters and numbers. A predicate on
-- characters takes the code point.
pub record Nom (F64 : Type 0) : Type 1 where
  pub tag : Bytes → Parser Bytes
  pub tag_no_case : Bytes → Parser Bytes
  pub char : ℕ → Parser ℕ
  pub take_while1 : (ℕ → Bool) → Parser Bytes
  pub multispace0 : Parser Bytes
  pub double : Parser F64
  pub u64 : Parser ℕ
  pub alt : {A : Type 0} → List (Parser A) → Parser A
  pub opt : {A : Type 0} → Parser A → Parser (Option A)
  pub map : {A B : Type 0} → Parser A → (A → B) → Parser B
  pub map_opt : {A B : Type 0} → Parser A → (A → Option B) → Parser B
  pub many0 : {A : Type 0} → Parser A → Parser (List A)
  pub separated_list1 : {A B : Type 0} → Parser A → Parser B → Parser (List B)
  pub delimited : {A B C : Type 0} → Parser A → Parser B → Parser C → Parser B
  pub preceded : {A B : Type 0} → Parser A → Parser B → Parser B
  pub tuple : {A B : Type 0} → Parser A → Parser B → Parser (A × B)
  pub trim : Bytes → Bytes
  pub is_alphanumeric : ℕ → Bool
  pub fract : F64 → F64
  pub abs : F64 → F64

-- `?` on the result of a parser
infixl 5 ◌>>=◌
abbrev pub ◌>>=◌ {ℓ κ} : {A : Type ℓ} {B : Type κ} → Option A → (A → Option B) → Option B
none >>= k = none
some x >>= k = k x

abbrev pub not_quote : ℕ → Bool
not_quote c = not (c == b'\'')

module _ {F64 : Type 0} (fl : Floats F64) (nom : Nom F64) where
  abbrev pub ws : {A : Type 0} → Parser A → Parser A
  ws f = nom.delimited nom.multispace0 f nom.multispace0

  unfoldable pub ident : Parser Bytes
  ident = nom.take_while1 (λ c. nom.is_alphanumeric c || c == b'_')

  unfoldable pub quoted_string : Parser Bytes
  quoted_string i0 = do
    (i1, open_quote) ← nom.char b'\'' i0
    (i2, s) ← nom.take_while1 not_quote i1
    (i3, close_quote) ← nom.char b'\'' i2
    some (i3, s)

  -- `f.fract() == 0.0 && f.abs() < i64::MAX as f64`
  abbrev pub is_whole : F64 → Bool
  is_whole f =
      apply_op (fl.partial_cmp (nom.fract f) fl.zero) equal
      && apply_op (fl.partial_cmp (nom.abs f) (fl.of_i64 (pos 9223372036854775807))) less

  -- The value of a number.
  abbrev pub number : F64 → Option (Value F64)
  number f = if is_whole f then some (integer (fl.to_i64 f)) else some (real f)

  unfoldable pub parse_value : Parser (Value F64)
  parse_value = nom.alt (
      nom.map quoted_string text
      ∷ nom.map (nom.map_opt nom.double number) (λ v. v)
      ∷ nom.map (nom.tag_no_case (ascii "NULL")) (λ s. null)
      ∷ [])

  abbrev pub keyword : Bytes → Parser Bytes
  keyword word = ws (nom.tag_no_case word)

  abbrev pub sign : ℕ → Parser ℕ
  sign c = ws (nom.char c)

  -- `separated_list1(ws(char(',')), map(ws(ident), str::to_string))`
  abbrev pub ident_list : Parser (List Bytes)
  ident_list = nom.separated_list1 (sign b',') (nom.map (ws ident) (λ s. s))

  unfoldable pub parse_insert : Parser (InsertStmt F64)
  parse_insert i0 = do
    (i1, _) ← keyword (ascii "INSERT") i0
    (i2, _) ← keyword (ascii "INTO") i1
    (i3, _) ← keyword (ascii "expenses") i2
    (i4, columns) ← nom.delimited (sign b'(') ident_list (sign b')') i3
    (i5, _) ← keyword (ascii "VALUES") i4
    (i6, values) ←
        nom.delimited (sign b'(') (nom.separated_list1 (sign b',') (ws parse_value)) (sign b')') i5
    some (i6, record { columns = columns; values = values })

  unfoldable pub parse_select_columns : Parser SelectColumns
  parse_select_columns =
      nom.alt (nom.map (sign b'*') (λ c. all_columns) ∷ nom.map ident_list named ∷ [])

  unfoldable pub parse_atom : Parser (Expr F64)
  parse_atom = nom.alt (nom.map parse_value literal ∷ nom.map ident column ∷ [])

  -- The match on the text of an operator; `none` is `unreachable!()`.
  abbrev pub op_of : Bytes → Option BinOp
  op_of s =
      if same s (ascii "=")
      then some equal
      else if same s (ascii "!=")
      then some not_equal
      else if same s (ascii "<")
      then some less
      else if same s (ascii "<=")
      then some less_equal
      else if same s (ascii ">")
      then some greater
      else if same s (ascii ">=")
      then some greater_equal
      else none

  unfoldable pub parse_comparison : Parser (Expr F64)
  parse_comparison i0 = do
    (i1, left) ← ws parse_atom i0
    (i2, op_str) ←
        ws
          (nom.alt (
            nom.tag (ascii "!=")
            ∷ nom.tag (ascii "<=")
            ∷ nom.tag (ascii ">=")
            ∷ nom.tag (ascii "=")
            ∷ nom.tag (ascii "<")
            ∷ nom.tag (ascii ">")
            ∷ []))
          i1
    (i3, right) ← ws parse_atom i2
    op ← op_of op_str
    some (i3, binary_op op left right)

  -- `rest.into_iter().fold(left, …)`
  unfoldable pub fold_op : BinOp → Expr F64 → List (Expr F64) → Expr F64
  fold_op op acc [] = acc
  fold_op op acc (r ∷ rs) = fold_op op (binary_op op acc r) rs

  unfoldable pub parse_and_expr : Parser (Expr F64)
  parse_and_expr i0 = do
    (i1, left) ← parse_comparison i0
    (i2, rest) ← nom.many0 (nom.preceded (keyword (ascii "AND")) parse_comparison) i1
    some (i2, fold_op conj left rest)

  unfoldable pub parse_or_expr : Parser (Expr F64)
  parse_or_expr i0 = do
    (i1, left) ← parse_and_expr i0
    (i2, rest) ← nom.many0 (nom.preceded (keyword (ascii "OR")) parse_and_expr) i1
    some (i2, fold_op disj left rest)

  unfoldable pub parse_where : Parser (Expr F64)
  parse_where i0 = do (i1, _) ← keyword (ascii "WHERE") i0; parse_or_expr i1

  -- `dir.unwrap_or(true)`
  abbrev pub or_ascending : Option Bool → Bool
  or_ascending none = true
  or_ascending (some b) = b

  unfoldable pub parse_order_by : Parser OrderBy
  parse_order_by i0 = do
    (i1, _) ← nom.tuple (keyword (ascii "ORDER")) (keyword (ascii "BY")) i0
    (i2, col) ← nom.map (ws ident) (λ s. s) i1
    (i3, dir) ←
        nom.opt
          (nom.alt (
            nom.map (keyword (ascii "ASC")) (λ s. true)
            ∷ nom.map (keyword (ascii "DESC")) (λ s. false)
            ∷ []))
          i2
    some (i3, record { column = col; ascending = or_ascending dir })

  unfoldable pub parse_group_by : Parser (List Bytes)
  parse_group_by i0 = do
    (i1, _) ← nom.tuple (keyword (ascii "GROUP")) (keyword (ascii "BY")) i0
    ident_list i1

  unfoldable pub parse_limit : Parser ℕ
  parse_limit i0 = do (i1, _) ← keyword (ascii "LIMIT") i0; nom.map (ws nom.u64) (λ n. n) i1

  unfoldable pub parse_select : Parser (SelectStmt F64)
  parse_select i0 = do
    (i1, _) ← keyword (ascii "SELECT") i0
    (i2, columns) ← ws parse_select_columns i1
    (i3, _) ← keyword (ascii "FROM") i2
    (i4, _) ← keyword (ascii "expenses") i3
    (i5, where_clause) ← nom.opt parse_where i4
    (i6, order_by) ← nom.opt parse_order_by i5
    (i7, group_by) ← nom.opt parse_group_by i6
    (i8, limit) ← nom.opt parse_limit i7
    some (
      i8,
      record {
        columns = columns;
        where_clause = where_clause;
        order_by = order_by;
        group_by = group_by;
        limit = limit;
      },
    )

  -- What is left of the text is dropped.
  abbrev pub to_statement : Option (Bytes × Statement F64) → Result (SqlError F64) (Statement F64)
  to_statement none = err parse
  to_statement (some (rest, stmt)) = ok stmt

  unfoldable pub parse_statement : Bytes → Result (SqlError F64) (Statement F64)
  parse_statement input =
      to_statement
        (nom.alt (nom.map parse_insert insert ∷ nom.map parse_select select ∷ []) (nom.trim input))
