-- ===== src/Sql/Groups.antt =====
-- crates/sql/src/executor.rs: GROUP BY. The `HashMap` is an association list of its keys; the order in
-- which it gives its values is the parameter `into_values`.
pub mod Laws
pub mod Sums
use exepense_db.Base.{
  ℕ, zero, ◌+◌, ◌≡◌, Option, none, some, List, [], ◌∷◌, ◌++◌, if◌then◌else◌, length,
}
use exepense_db.Base.Order.{Bytes, same}
use exepense_db.Base.Members.{In}
use exepense_db.Base.Integers.{ascii}
use exepense_db.Sql.Ast.{Floats}
use exepense_db.Sql.Row.{ExpenseRow, row_field_str}

-- The first row of a group, the total and the count.
pub record Group (F64 : Type 0) : Type 0 where
  pub row : ExpenseRow F64
  pub total : F64
  pub count : ℕ

abbrev pub Groups : Type 0 → Type 0
Groups F64 = List (Bytes × Group F64)

-- `join("|")`
unfoldable pub join : List Bytes → Bytes
join [] = []
join (s ∷ []) = s
join (s ∷ t ∷ ss) = s ++ (ascii "|" ++ join (t ∷ ss))

module _ {F64 : Type 0} where
  unfoldable pub fields : ExpenseRow F64 → List Bytes → List Bytes
  fields row [] = []
  fields row (c ∷ cs) = row_field_str row c ∷ fields row cs

  abbrev pub group_key : List Bytes → ExpenseRow F64 → Bytes
  group_key cols row = join (fields row cols)

module _ {F64 : Type 0} (fl : Floats F64) where
  abbrev pub bump : ExpenseRow F64 → Group F64 → Group F64
  bump row g = record { row = g.row; total = fl.add g.total row.amount; count = g.count + 1 }

  abbrev pub new_group : ExpenseRow F64 → Group F64
  new_group row = record { row = row; total = fl.zero; count = 0 }

  -- `groups.entry(key).or_insert_with(…)`, and the two additions.
  unfoldable pub add_to : Bytes → ExpenseRow F64 → Groups F64 → Groups F64
  add_to key row [] = (key, bump row (new_group row)) ∷ []
  add_to key row ((k, g) ∷ gs) =
      if same k key then (k, bump row g) ∷ gs else (k, g) ∷ add_to key row gs

  unfoldable pub group_loop : List Bytes → Groups F64 → List (ExpenseRow F64) → Groups F64
  group_loop cols gs [] = gs
  group_loop cols gs (row ∷ rs) = group_loop cols (add_to (group_key cols row) row gs) rs

  abbrev pub grouped_row : Group F64 → ExpenseRow F64
  grouped_row g = record g.row { amount = g.total }

  unfoldable pub grouped_rows : List (Group F64) → List (ExpenseRow F64)
  grouped_rows [] = []
  grouped_rows (g ∷ gs) = grouped_row g ∷ grouped_rows gs

  unfoldable pub group_by :
      (Groups F64 → List (Group F64)) → List (ExpenseRow F64) → List Bytes → List (ExpenseRow F64)
  group_by into_values rows cols = grouped_rows (into_values (group_loop cols [] rows))

-- The values of a map in some order.
pub record IsValues {F64 : Type 0} (into_values : Groups F64 → List (Group F64)) : Type 0 where
  pub same_length : (gs : Groups F64) → length (into_values gs) ≡ length gs
  pub sound : (gs : Groups F64) (g : Group F64) → In g (into_values gs) → (k : Bytes) × In (k, g) gs
  pub complete :
      (gs : Groups F64) (k : Bytes) (g : Group F64) → In (k, g) gs → In g (into_values gs)
