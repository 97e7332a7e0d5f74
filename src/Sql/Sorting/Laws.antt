-- ===== src/Sql/Sorting/Laws.antt =====
-- ORDER BY gives the same rows in order where the column has no NaN, and leaves the rows of a column
-- that is neither `amount` nor `created_at` as they are; crates/sql/src/executor.rs.
use exepense_db.Base.{
  ◌≡◌, ◌≢◌, refl, sym, ap, ◌∙◌, Bool, true, false, Option, none, some, List, [], ◌∷◌, All,
  if◌then◌else◌,
}
use mathlib.Core.List.{Perm}
use mathlib.Core.List.Perm.{eq-nil}
use Prim.Native.Nat.{Ordering}
use Prim.Native.Nat.Ordering.{lt, eq, gt}
use exepense_db.Base.Order.{same, cmp}
use exepense_db.Base.Members.{In, here, there}
use exepense_db.Base.Integers.{ascii}
use exepense_db.Sql.Ast.{Floats, OrderBy}
use exepense_db.Sql.Row.{ExpenseRow, row_field}
use exepense_db.Sql.Sorting.{
  IsTotal, Sorted, ties, IsStableSort, reverse_ordering, or_equal, compare_rows, sort_rows,
}

abbrev pub flip_option : Option Ordering → Option Ordering
flip_option none = none
flip_option (some o) = some (reverse_ordering o)

reverse_twice : (o : Ordering) → reverse_ordering (reverse_ordering o) ≡ o
reverse_twice lt = refl
reverse_twice eq = refl
reverse_twice gt = refl

module _ {F64 : Type 0} (fl : Floats F64) where
  -- Not a NaN.
  abbrev pub IsNumber : F64 → Type 0
  IsNumber x = fl.partial_cmp x x ≡ some eq

  -- What IEEE 754 says of the comparison of `f64`.
  pub record IsOrdered : Type 0 where
    pub flips : (a b : F64) → fl.partial_cmp b a ≡ flip_option (fl.partial_cmp a b)
    pub trans :
        (a b c : F64)
        → IsNumber a
        → IsNumber b
        → IsNumber c
        → fl.partial_cmp a b ≢ some gt
        → fl.partial_cmp b c ≢ some gt
        → fl.partial_cmp a c ≢ some gt

abbrev pub by_amount : Bool → OrderBy
by_amount asc = record { column = ascii "amount"; ascending = asc }

module _ {F64 : Type 0} (fl : Floats F64) where
  -- Two numbers as ORDER BY puts one before the other: ascending, the first is not greater, and
  -- descending, it is not less.
  abbrev pub Respects : Bool → F64 → F64 → Type 0
  Respects true a b = fl.partial_cmp a b ≢ some gt
  Respects false a b = fl.partial_cmp a b ≢ some lt

  -- Every row respects the order of the amounts with all that are behind it.
  unfoldable pub AmountsInOrder : Bool → List (ExpenseRow F64) → Type 0
  AmountsInOrder asc [] = Unit
  AmountsInOrder asc (r ∷ rs) = All (λ s. Respects asc r.amount s.amount) rs × AmountsInOrder asc rs

module _ {F64 : Type 0} {fl : Floats F64} (law : IsOrdered fl) where
  or_equal_flips : (o : Option Ordering) → or_equal (flip_option o) ≡ reverse_ordering (or_equal o)
  or_equal_flips none = refl
  or_equal_flips (some o) = refl

  or_equal-gt : (o : Option Ordering) → or_equal o ≢ gt → o ≢ some gt
  or_equal-gt none h q = cc
  or_equal-gt (some o) h q = h (ap or_equal q)

  gt-or_equal : (o : Option Ordering) → o ≢ some gt → or_equal o ≢ gt
  gt-or_equal none h q = cc
  gt-or_equal (some o) h q = h (ap some q)

  -- The comparison of two numbers in the order of the clause.
  compare_in : Bool → F64 → F64 → Ordering
  compare_in asc a b =
      if asc
      then or_equal (fl.partial_cmp a b)
      else reverse_ordering (or_equal (fl.partial_cmp a b))

  compare_in-desc : (a b : F64) → compare_in false a b ≡ compare_in true b a
  unfolding compare_in
  compare_in-desc a b = sym (ap or_equal (law.flips a b) ∙ or_equal_flips (fl.partial_cmp a b))

  compare_in-flips :
      (asc : Bool) (a b : F64) → compare_in asc b a ≡ reverse_ordering (compare_in asc a b)
  unfolding compare_in
  compare_in-flips true a b = ap or_equal (law.flips a b) ∙ or_equal_flips (fl.partial_cmp a b)
  compare_in-flips false a b =
      ap reverse_ordering (ap or_equal (law.flips a b) ∙ or_equal_flips (fl.partial_cmp a b))

  trans_asc :
      (a b c : F64)
      → IsNumber fl a
      → IsNumber fl b
      → IsNumber fl c
      → compare_in true a b ≢ gt
      → compare_in true b c ≢ gt
      → compare_in true a c ≢ gt
  unfolding compare_in
  trans_asc a b c na nb nc h k = gt-or_equal (fl.partial_cmp a c) (
      law.trans a b c na nb nc (or_equal-gt (fl.partial_cmp a b) h)
        (or_equal-gt (fl.partial_cmp b c) k))

  compare_in_trans :
      (asc : Bool) (a b c : F64)
      → IsNumber fl a
      → IsNumber fl b
      → IsNumber fl c
      → compare_in asc a b ≢ gt
      → compare_in asc b c ≢ gt
      → compare_in asc a c ≢ gt
  compare_in_trans true a b c na nb nc h k = trans_asc a b c na nb nc h k
  compare_in_trans false a b c na nb nc h k = λ q.
      trans_asc c b a nc nb na (λ e. k (compare_in-desc b c ∙ e)) (λ e. h (compare_in-desc a b ∙ e))
        (sym (compare_in-desc a c) ∙ q)

  compare_rows-IsTotal :
      (order : OrderBy)
      → IsTotal (compare_rows fl order) (λ r. IsNumber fl (row_field fl r order.column))
  unfolding compare_in
  compare_rows-IsTotal order = record {
    flips = λ a b ga gb.
        compare_in-flips order.ascending (row_field fl a order.column)
          (row_field fl b order.column);
    trans = λ a b c.
        compare_in_trans order.ascending (row_field fl a order.column) (row_field fl b order.column)
          (row_field fl c order.column);
  }

  In-All :
      (P : ExpenseRow F64 → Type 0) (rs : List (ExpenseRow F64)) {r : ExpenseRow F64}
      → All P rs
      → In r rs
      → P r
  In-All P [] h i = elim i [ ]
  In-All P (r ∷ rs) (p, h) here = p
  In-All P (r ∷ rs) (p, h) (there i) = In-All P rs h i

  All-map :
      (P Q : ExpenseRow F64 → Type 0) (rs : List (ExpenseRow F64))
      → ((r : ExpenseRow F64) → P r → Q r)
      → All P rs
      → All Q rs
  All-map P Q [] f h = tt
  All-map P Q (r ∷ rs) f (p, h) = (f r p, All-map P Q rs f h)

  amounts_total :
      (asc : Bool) (rs : List (ExpenseRow F64))
      → All (λ r. IsNumber fl r.amount) rs
      → IsTotal (compare_rows fl (by_amount asc)) (λ r. In r rs)
  unfolding row_field cmp
  amounts_total asc rs numbers = record {
    flips = λ a b ia ib.
        (compare_rows-IsTotal (by_amount asc)).flips a b
          (In-All (λ r. IsNumber fl r.amount) rs numbers ia)
          (In-All (λ r. IsNumber fl r.amount) rs numbers ib);
    trans = λ a b c ia ib ic.
        (compare_rows-IsTotal (by_amount asc)).trans a b c
          (In-All (λ r. IsNumber fl r.amount) rs numbers ia)
          (In-All (λ r. IsNumber fl r.amount) rs numbers ib)
          (In-All (λ r. IsNumber fl r.amount) rs numbers ic);
  }

  respects :
      (asc : Bool) (r s : ExpenseRow F64)
      → compare_rows fl (by_amount asc) r s ≢ gt
      → Respects fl asc r.amount s.amount
  unfolding row_field cmp
  respects true r s h = or_equal-gt (fl.partial_cmp r.amount s.amount) h
  respects false r s h = λ q. h (ap (λ o. reverse_ordering (or_equal o)) q)

  Sorted-AmountsInOrder :
      (asc : Bool) (rs : List (ExpenseRow F64))
      → Sorted (compare_rows fl (by_amount asc)) rs
      → AmountsInOrder fl asc rs
  unfolding Sorted AmountsInOrder
  Sorted-AmountsInOrder asc [] h = tt
  Sorted-AmountsInOrder asc (r ∷ rs) (over, h) =
      (All-map _ _ rs (λ s k. respects asc r s k) over, Sorted-AmountsInOrder asc rs h)

  -- Order by `amount`, with a `sort_by` as documented and a comparison of numbers as in IEEE 754, rows
  -- whose amounts are not NaN. The result has the same rows. Ascending, no amount is greater than one
  -- behind it, and descending, none is less.
  pub sort_rows-AmountsInOrder :
      (sort_by : (ExpenseRow F64 → ExpenseRow F64 → Ordering)
        → List (ExpenseRow F64)
        → List (ExpenseRow F64))
      (asc : Bool) (rs : List (ExpenseRow F64))
      → IsStableSort sort_by
      → All (λ r. IsNumber fl r.amount) rs
      → Perm (sort_rows fl sort_by (by_amount asc) rs) rs
        × AmountsInOrder fl asc (sort_rows fl sort_by (by_amount asc) rs)
  unfolding sort_rows
  sort_rows-AmountsInOrder sort_by asc rs sorts numbers =
      let total = amounts_total asc rs numbers in
      (
        sorts.perm (compare_rows fl (by_amount asc)) rs total,
        Sorted-AmountsInOrder asc _ (sorts.ordered (compare_rows fl (by_amount asc)) rs total),
      )

-- A stable sort with a comparison that calls all elements equal.
module _ {A : Type 0} (compare : A → A → Ordering) (all_equal : (a b : A) → compare a b ≡ eq) where
  ties-all : (x : A) (xs : List A) → ties compare x xs ≡ xs
  unfolding ties
  ties-all x [] = refl
  ties-all x (y ∷ ys) = rw (ties, all_equal x y) (ap (λ l. y ∷ l) (ties-all x ys))

  equal-IsTotal : (Good : A → Type 0) → IsTotal compare Good
  equal-IsTotal Good = record {
    flips = λ a b ga gb. rw (all_equal a b, all_equal b a) refl;
    trans = λ a b c ga gb gc h k q. h (cc (all_equal a c));
  }

  stays :
      (sort_by : (A → A → Ordering) → List A → List A) (xs : List A)
      → IsStableSort sort_by
      → sort_by compare xs ≡ xs
  stays sort_by [] sorts = eq-nil (sorts.perm compare [] (equal-IsTotal _))
  stays sort_by (x ∷ xs) sorts =
      sym (ties-all x (sort_by compare (x ∷ xs)))
      ∙ sorts.stable compare (x ∷ xs) (equal-IsTotal _) x here
      ∙ ties-all x (x ∷ xs)

module _ {F64 : Type 0} (fl : Floats F64) where
  -- Order by a column that is neither `amount` nor `created_at`, such as the date or the category, with a
  -- `sort_by` as documented, where zero equals itself. The rows stay as they are, in either direction.
  pub sort_rows-other :
      (sort_by : (ExpenseRow F64 → ExpenseRow F64 → Ordering)
        → List (ExpenseRow F64)
        → List (ExpenseRow F64))
      (order : OrderBy) (rs : List (ExpenseRow F64))
      → IsStableSort sort_by
      → same order.column (ascii "amount") ≡ false
      → same order.column (ascii "created_at") ≡ false
      → fl.partial_cmp fl.zero fl.zero ≡ some eq
      → sort_rows fl sort_by order rs ≡ rs
  unfolding sort_rows row_field
  sort_rows-other sort_by order rs sorts not_amount not_created z =
      stays (compare_rows fl order) (λ a b. even order.ascending a b) sort_by rs sorts
    where
      even :
          (asc : Bool) (a b : ExpenseRow F64)
          → compare_rows fl (record { column = order.column; ascending = asc }) a b ≡ eq
      even true a b = rw (row_field, not_amount, not_created, z)
      even false a b = rw (row_field, not_amount, not_created, z)
