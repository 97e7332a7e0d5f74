-- ===== src/Sql/Sorting.antt =====
-- crates/sql/src/executor.rs: ORDER BY. What the standard library leaves open is the parameter `Std`:
-- the order in which a `HashMap` gives its values, and the algorithm of the slices' `sort_by`.
pub mod Insertion
pub mod Laws
use mathlib.Core.List.{Perm}
use exepense_db.Base.{
  ◌≡◌, ◌≢◌, All, Bool, true, false, Option, none, some, List, [], ◌∷◌, if◌then◌else◌,
}
use Prim.Native.Nat.{Ordering}
use Prim.Native.Nat.Ordering.{lt, eq, gt}
use exepense_db.Base.Members.{In}
use exepense_db.Sql.Groups.{Group, Groups}
use exepense_db.Sql.Ast.{Floats, OrderBy}
use exepense_db.Sql.Row.{ExpenseRow, row_field}

abbrev pub reverse_ordering : Ordering → Ordering
reverse_ordering lt = gt
reverse_ordering eq = eq
reverse_ordering gt = lt

-- `unwrap_or(Ordering::Equal)`
abbrev pub or_equal : Option Ordering → Ordering
or_equal none = eq
or_equal (some o) = o

pub record Std (F64 : Type 0) : Type 0 where
  pub into_values : Groups F64 → List (Group F64)
  pub sort_by :
      (ExpenseRow F64 → ExpenseRow F64 → Ordering) → List (ExpenseRow F64) → List (ExpenseRow F64)

-- A comparison that is a total order on what `Good` holds of.
pub record IsTotal {A : Type 0} (compare : A → A → Ordering) (Good : A → Type 0) : Type 0 where
  pub flips : (a b : A) → Good a → Good b → compare b a ≡ reverse_ordering (compare a b)
  pub trans :
      (a b c : A)
      → Good a
      → Good b
      → Good c
      → compare a b ≢ gt
      → compare b c ≢ gt
      → compare a c ≢ gt

abbrev pub is_eq : Ordering → Bool
is_eq eq = true
is_eq lt = false
is_eq gt = false

module _ {A : Type 0} (compare : A → A → Ordering) where
  -- Every element is not greater than those behind it.
  unfoldable pub Sorted : List A → Type 0
  Sorted [] = Unit
  Sorted (x ∷ xs) = All (λ y. compare x y ≢ gt) xs × Sorted xs

  -- The elements that compare equal to one.
  unfoldable pub ties : A → List A → List A
  ties x [] = []
  ties x (y ∷ ys) = if is_eq (compare x y) then y ∷ ties x ys else ties x ys

-- What the standard library documents of `sort_by` where the comparison is a total order on the
-- elements: it reorders them, sorts them, and is stable. Otherwise, as with a NaN, it leaves the order
-- open.
pub record IsStableSort {A : Type 0} (sort_by : (A → A → Ordering) → List A → List A) : Type 0 where
  pub perm :
      (compare : A → A → Ordering) (xs : List A)
      → IsTotal compare (λ x. In x xs)
      → Perm (sort_by compare xs) xs
  pub ordered :
      (compare : A → A → Ordering) (xs : List A)
      → IsTotal compare (λ x. In x xs)
      → Sorted compare (sort_by compare xs)
  pub stable :
      (compare : A → A → Ordering) (xs : List A)
      → IsTotal compare (λ x. In x xs)
      → (x : A) → In x xs
      → ties compare x (sort_by compare xs) ≡ ties compare x xs

module _ {F64 : Type 0} (fl : Floats F64) where
  abbrev pub compare_rows : OrderBy → ExpenseRow F64 → ExpenseRow F64 → Ordering
  compare_rows order a b =
      let ord =
        or_equal (fl.partial_cmp (row_field fl a order.column) (row_field fl b order.column)) in
      if order.ascending then ord else reverse_ordering ord

  unfoldable pub sort_rows :
      ((ExpenseRow F64 → ExpenseRow F64 → Ordering) → List (ExpenseRow F64) → List (ExpenseRow F64))
      → OrderBy
      → List (ExpenseRow F64)
      → List (ExpenseRow F64)
  sort_rows sort_by order rows = sort_by (compare_rows order) rows
