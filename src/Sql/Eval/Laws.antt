-- ===== src/Sql/Eval/Laws.antt =====
-- The comparisons of a WHERE clause, crates/sql/src/executor.rs.
use exepense_db.Base.{
  ◌≡◌, refl, ap, ◌∙◌, Bool, false, ◌||◌, Option, some, List, [], ◌∷◌, Result, ok, err, ◌>>=◌,
}
use Prim.Native.Nat.{Ordering, compare}
use native.Mathlib.Omega.{arith}
use exepense_db.Base.Order.{Bytes, same, cmp, cmp-cases, below, equal, above, gt_of_lt, cmp_refl}
use exepense_db.Base.Integers.{ℤ, pos, negsuc, cmp_int, ascii}
use exepense_db.Sql.{SqlError}
use exepense_db.Sql.Row.{ExpenseRow}
use exepense_db.Sql.Ast.{
  Floats, Value, text, real, integer, null, BinOp, not_equal, less, less_equal, greater,
  greater_equal, conj, disj, Expr, column, literal, binary_op,
}
use exepense_db.Sql.Ast
use exepense_db.Sql.Sorting.{reverse_ordering}
use exepense_db.Sql.Sorting.Laws.{flip_option}
use exepense_db.Sql.Eval.{
  apply_op, compare_values, eval_value_expr, compare_exprs, eval_expr, unwrap_or_false,
  where_filter,
}

cmp-reverse : (a b : Bytes) → cmp b a ≡ reverse_ordering (cmp a b)
cmp-reverse a b = elim (cmp-cases a b) [
  | below c ↦ rw (c, gt_of_lt a b c) refl
  | equal c e ↦ rw (e, cmp_refl b) refl
  | above c d ↦ rw (c, d) refl
]

compare-reverse : (a b : _) → compare b a ≡ reverse_ordering (compare a b)
compare-reverse a b = ground arith

pub cmp_int-reverse : (a b : ℤ) → cmp_int b a ≡ reverse_ordering (cmp_int a b)
cmp_int-reverse (pos a) (pos b) = compare-reverse a b
cmp_int-reverse (pos a) (negsuc b) = refl
cmp_int-reverse (negsuc a) (pos b) = refl
cmp_int-reverse (negsuc a) (negsuc b) = compare-reverse b a

-- The operator with its sides exchanged.
pub flip_op : BinOp → BinOp
flip_op less = greater
flip_op less_equal = greater_equal
flip_op greater = less
flip_op greater_equal = less_equal
flip_op op = op

apply_op-flip_op :
    (o : Option Ordering) (op : BinOp) → apply_op (flip_option o) (flip_op op) ≡ apply_op o op
unfolding apply_op flip_op
apply_op-flip_op o op = ground arith

unfoldable pub IsComparison : BinOp → Type 0
IsComparison conj = ⊥
IsComparison disj = ⊥
IsComparison op = Unit

abbrev pub known_columns : List Bytes
known_columns =
    ascii "id"
    ∷ ascii "amount"
    ∷ ascii "category"
    ∷ ascii "description"
    ∷ ascii "date"
    ∷ ascii "created_at"
    ∷ []

unfoldable pub is_one_of : Bytes → List Bytes → Bool
is_one_of c [] = false
is_one_of c (k ∷ ks) = same c k || is_one_of c ks

module _ {F64 : Type 0} (fl : Floats F64)
    (flips : (a b : F64) → fl.partial_cmp b a ≡ flip_option (fl.partial_cmp a b)) where
  flipped :
      (o : Option Ordering) {p : Option Ordering}
      → p ≡ flip_option o
      → (op : BinOp) → apply_op p (flip_op op) ≡ apply_op o op
  flipped o q op = ap (λ x. apply_op x (flip_op op)) q ∙ apply_op-flip_op o op

  compare_values-flip_op :
      (v w : Value F64) (op : BinOp) → compare_values fl w (flip_op op) v ≡ compare_values fl v op w
  compare_values-flip_op (text a) (text b) op =
      flipped (some (cmp a b)) (ap some (cmp-reverse a b)) op
  compare_values-flip_op (text a) (real b) op = refl
  compare_values-flip_op (text a) (integer b) op = refl
  compare_values-flip_op (text a) null op = refl
  compare_values-flip_op (real a) (text b) op = refl
  compare_values-flip_op (real a) (real b) op = flipped (fl.partial_cmp a b) (flips a b) op
  compare_values-flip_op (real a) (integer b) op =
      flipped (fl.partial_cmp a (fl.of_i64 b)) (flips a (fl.of_i64 b)) op
  compare_values-flip_op (real a) null op = refl
  compare_values-flip_op (integer a) (text b) op = refl
  compare_values-flip_op (integer a) (real b) op =
      flipped (fl.partial_cmp (fl.of_i64 a) b) (flips (fl.of_i64 a) b) op
  compare_values-flip_op (integer a) (integer b) op =
      flipped (some (cmp_int a b)) (ap some (cmp_int-reverse a b)) op
  compare_values-flip_op (integer a) null op = refl
  compare_values-flip_op null (text b) op = refl
  compare_values-flip_op null (real b) op = refl
  compare_values-flip_op null (integer b) op = refl
  compare_values-flip_op null null op = refl

  compare_exprs-flip_op :
      (op : BinOp) (l r : Expr F64) (row : ExpenseRow F64)
      → unwrap_or_false fl (compare_exprs fl (flip_op op) r l row)
        ≡ unwrap_or_false fl (compare_exprs fl op l r row)
  compare_exprs-flip_op op l r row = chain (eval_value_expr fl l row) (eval_value_expr fl r row)
    where
      chain :
          (a b : Result (SqlError F64) (Value F64))
          → unwrap_or_false fl (b >>= λ rv. a >>= λ lv. ok (compare_values fl rv (flip_op op) lv))
            ≡ unwrap_or_false fl (a >>= λ lv. b >>= λ rv. ok (compare_values fl lv op rv))
      chain (ok v) (ok w) = compare_values-flip_op v w op
      chain (ok v) (err e) = refl
      chain (err d) (ok w) = refl
      chain (err d) (err e) = refl

  eval_flip :
      (op : BinOp) (l r : Expr F64) (row : ExpenseRow F64)
      → IsComparison op
      → unwrap_or_false fl (eval_expr fl (binary_op (flip_op op) r l) row)
        ≡ unwrap_or_false fl (eval_expr fl (binary_op op l r) row)
  unfolding eval_expr flip_op IsComparison
  eval_flip conj l r row h = elim h [ ]
  eval_flip disj l r row h = elim h [ ]
  eval_flip Ast.equal l r row h = compare_exprs-flip_op Ast.equal l r row
  eval_flip not_equal l r row h = compare_exprs-flip_op not_equal l r row
  eval_flip less l r row h = compare_exprs-flip_op less l r row
  eval_flip less_equal l r row h = compare_exprs-flip_op less_equal l r row
  eval_flip greater l r row h = compare_exprs-flip_op greater l r row
  eval_flip greater_equal l r row h = compare_exprs-flip_op greater_equal l r row

  -- Where `partial_cmp` of exchanged numbers is reversed, a comparison with its sides and its operator
  -- exchanged keeps the same rows, whatever the sides are: also if they are of different types, or fail.
  pub where_filter-flip_op :
      (op : BinOp) (l r : Expr F64) (rs : List (ExpenseRow F64))
      → IsComparison op
      → where_filter fl (binary_op (flip_op op) r l) rs ≡ where_filter fl (binary_op op l r) rs
  unfolding where_filter
  where_filter-flip_op op l r [] h = refl
  where_filter-flip_op op l r (row ∷ rs) h =
      rw (eval_flip op l r row h, where_filter-flip_op op l r rs h) refl
