-- ===== src/Sql/Executor/Tests.antt =====
-- Statements at small engines, and the theorems on INSERT, SELECT and its clauses at them.
use exepense_db.Base.{
  ◌≡◌, ◌≢◌, refl, ap, true, false, ◌⊎◌, none, some, List, [], ◌∷◌, All, ok, err, arith, ◌↔◌,
}
use mathlib.Core.List.{Perm}
use exepense_db.Base.Order.{Bytes, cmp}
use exepense_db.Base.Integers.{ℤ, pos, ascii}
use exepense_db.Base.Members.{In}
use exepense_db.Memtable
use exepense_db.Memtable.{value}
use exepense_db.Base.BtreeMap
use exepense_db.Lsm.Mvcc.{next_write_seq}
use exepense_db.Wal
use exepense_db.Wal.Fixed.{fixed, fixed-IsLawful}
use exepense_db.Lsm.Levels.{Tables}
use exepense_db.Sstable.Error.{panics}
use exepense_db.Lsm.Engine.{Engine, put, maybe_freeze}
use exepense_db.Lsm.Engine.Writes.{IsDurable, Written, put-Written}
use exepense_db.Lsm.Engine.Crash.{fresh, fresh-IsDurable}
use exepense_db.Sql.{SqlError}
use exepense_db.Sql.Ast.{
  text, real, integer, equal, less, conj, Expr, column, literal, binary_op, all_columns, OrderBy,
  InsertStmt, SelectStmt,
}
use exepense_db.Sql.Row.{ExpenseRow}
use exepense_db.Sql.Eval.{extract_id_eq, where_filter}
use exepense_db.Sql.Eval.Laws.{IsComparison, flip_op, where_filter-flip_op}
use exepense_db.Sql.Groups.{group_by}
use exepense_db.Sql.Groups.Sums.{of_key, summed, group_by-of_key}
use exepense_db.Sql.Sorting.{sort_rows}
use exepense_db.Sql.Sorting.Laws.{
  sort_rows-AmountsInOrder, sort_rows-other, IsNumber, AmountsInOrder, by_amount,
}
use exepense_db.Sql.Sorting.Insertion.{sort_by, sort_by-IsStableSort}
use exepense_db.Sql.Executor.{
  inserted, rows, row_key, blank_row, set_columns, put_row, execute_insert, execute_select,
  apply_limit, apply_order_by, apply_group_by,
}
use exepense_db.Sql.Executor.Typed.{all_suit, execute_insert-all_suit}
use exepense_db.Sql.Executor.Insert.{execute_select-execute_insert}
use exepense_db.Sql.Executor.Filter.{passes}
use exepense_db.Sql.Executor.Select.{IsStored, execute_select-IsStored}
use exepense_db.Sql.Fixed.{
  whole, whole-IsOrdered, plain, plain-IsFaithful, ordered, in_order, in_order-IsValues, write_row,
}

abbrev no_table : Tables (Unit {0})
no_table = record { open_path = λ p. err panics; get = λ r k s. ok none; entries = λ r. ([], none) }

abbrev start : Engine (Unit {0})
start = fresh

abbrev coffee : InsertStmt ℤ
coffee = record {
  columns = ascii "amount" ∷ ascii "category" ∷ ascii "date" ∷ [];
  values = real (pos 12) ∷ text (ascii "food") ∷ text (ascii "2024") ∷ [];
}

abbrev id : Bytes
id = ascii "x1"

abbrev coffee_row : ExpenseRow ℤ
coffee_row = record {
  id = id;
  amount = pos 12;
  category = ascii "food";
  description = [];
  date = ascii "2024";
  created_at = pos 7;
}

coffee_set :
    set_columns whole (blank_row whole id (pos 7)) coffee.columns coffee.values ≡ ok coffee_row
unfolding set_columns cmp
coffee_set = refl

-- A limit of zero does not reach the lookup.
abbrev by_id : SelectStmt ℤ
by_id = record {
  columns = all_columns;
  where_clause = some (binary_op equal (column (ascii "id")) (literal (text id)));
  order_by = none;
  group_by = none;
  limit = some 0;
}

by_id_asks : extract_id_eq by_id.where_clause ≡ some id
unfolding extract_id_eq cmp
by_id_asks = refl

execute_select-execute_insert_example :
    (after : Engine (Unit {0})) × (execute_insert whole no_table fixed plain ordered start id
        (pos 7)
        coffee
      ≡ (ok (inserted id), after))
    × (execute_select whole no_table fixed plain ordered after by_id ≡ ok (rows (coffee_row ∷ [])))
    × (coffee_row.id ≡ id)
    × IsDurable fixed after
execute_select-execute_insert_example =
    execute_select-execute_insert whole no_table fixed-IsLawful plain ordered start id (pos 7)
      coffee coffee_row (write_row coffee_row) by_id (fresh-IsDurable fixed) plain-IsFaithful
      coffee_set refl (omega arith) (omega arith) (omega arith) by_id_asks

execute_insert-all_suit_example :
    ((all_suit coffee.columns coffee.values ≡ true)
      × (row : ExpenseRow ℤ) × (set_columns whole
            (blank_row whole id (pos 7))
            coffee.columns
            coffee.values
          ≡ ok row)
      × (row.id ≡ id)
      × (execute_insert whole no_table fixed plain ordered start id (pos 7) coffee
          ≡ put_row whole no_table fixed plain ordered start id (plain.encode_to_vec row)))
    ⊎ ((all_suit coffee.columns coffee.values ≡ false)
        × (x : SqlError ℤ) × (execute_insert whole no_table fixed plain ordered start id
              (pos 7)
              coffee
            ≡ (err x, start)))
execute_insert-all_suit_example =
    execute_insert-all_suit whole no_table fixed plain ordered start id (pos 7) coffee

-- A text for the amount is of the wrong type.
coffee_suits :
    (all_suit coffee.columns coffee.values ≡ true)
    × (all_suit {F64 = ℤ} coffee.columns (text (ascii "12") ∷ []) ≡ false)
unfolding all_suit cmp
coffee_suits = (refl, refl)

abbrev cheap_food : Expr ℤ
cheap_food =
    binary_op conj (binary_op equal (column (ascii "category")) (literal (text (ascii "food"))))
      (binary_op less (column (ascii "amount")) (literal (integer (pos 20))))

abbrev cheap_first : SelectStmt ℤ
cheap_first = record {
  columns = all_columns;
  where_clause = some cheap_food;
  order_by = some (record { column = ascii "amount"; ascending = true });
  group_by = none;
  limit = some 3;
}

not_by_id : extract_id_eq cheap_first.where_clause ≡ none
unfolding extract_id_eq
not_by_id = refl

-- The engine after the row is stored.
abbrev one : Engine (Unit {0})
one = (put fixed start (row_key id) (write_row coffee_row)).1

row_key_not_empty : row_key id ≢ []
row_key_not_empty q = cc

one-Written :
    Written fixed start
      (put fixed start (row_key id) (write_row coffee_row))
      (row_key id)
      (value (write_row coffee_row) 1)
one-Written =
    put-Written fixed-IsLawful start (row_key id) (write_row coffee_row) (fresh-IsDurable fixed)
      row_key_not_empty (omega arith) (omega arith) (omega arith)

one_memory :
    (one.immutable ≡ [])
    × (one.memtable.inner ≡ ((row_key id, value (write_row coffee_row) 1) ∷ []))
unfolding put Wal.append Wal.encode Memtable.put Memtable.new BtreeMap.get BtreeMap.insert
    maybe_freeze Memtable.is_over_threshold next_write_seq
one_memory = (refl, refl)

execute_select-IsStored_example :
    (rs : List (ExpenseRow ℤ)) × (execute_select whole no_table fixed plain ordered one cheap_first
      ≡ ok (
          rows (
            apply_limit whole no_table fixed plain ordered (some 3) (
              apply_order_by whole no_table fixed plain ordered cheap_first.order_by
                (apply_group_by whole no_table fixed plain ordered none rs)))))
    × ((r : ExpenseRow ℤ)
        → In r rs ↔ (
            IsStored whole no_table fixed plain ordered one r
            × (passes whole no_table fixed plain ordered (some cheap_food) r ≡ true)))
execute_select-IsStored_example =
    execute_select-IsStored whole no_table fixed plain ordered one cheap_first one-Written.durable
      (ap (λ l. l.readers) one-Written.same_levels) (rw (one_memory.0) tt)
      (rw (one_memory.1) (tt, tt)) not_by_id

less-IsComparison : IsComparison less
unfolding IsComparison
less-IsComparison = tt

where_filter-flip_op_example :
    where_filter whole
      (binary_op (flip_op less) (literal (integer (pos 20))) (column (ascii "amount")))
      (coffee_row ∷ [])
    ≡ where_filter whole
        (binary_op less (column (ascii "amount")) (literal (integer (pos 20))))
        (coffee_row ∷ [])
where_filter-flip_op_example =
    where_filter-flip_op whole whole-IsOrdered.flips less (column (ascii "amount"))
      (literal (integer (pos 20))) (coffee_row ∷ []) less-IsComparison

abbrev tea_row : ExpenseRow ℤ
tea_row = record coffee_row { amount = pos 3; date = ascii "2020" }

abbrev two_rows : List (ExpenseRow ℤ)
two_rows = coffee_row ∷ tea_row ∷ []

abbrev by_date : OrderBy
by_date = record { column = ascii "date"; ascending = true }

amounts_are_numbers : All (λ r. IsNumber whole r.amount) two_rows
unfolding cmp
amounts_are_numbers = (refl, (refl, tt))

sort_rows-AmountsInOrder_example :
    Perm (sort_rows whole sort_by (by_amount false) two_rows) two_rows
    × AmountsInOrder whole false (sort_rows whole sort_by (by_amount false) two_rows)
sort_rows-AmountsInOrder_example =
    sort_rows-AmountsInOrder whole-IsOrdered sort_by false two_rows sort_by-IsStableSort
      amounts_are_numbers

sort_rows-other_example : sort_rows whole sort_by by_date two_rows ≡ two_rows
unfolding cmp
sort_rows-other_example =
    sort_rows-other whole sort_by by_date two_rows sort_by-IsStableSort refl refl refl

abbrev by_category : List Bytes
by_category = ascii "category" ∷ []

group_by-of_key_example :
    ((r : ExpenseRow ℤ)
      → In r (group_by whole in_order two_rows by_category)
      → (k : Bytes) × (first : ExpenseRow ℤ) × (more : List (ExpenseRow ℤ)) × (of_key by_category k
            two_rows
          ≡ first ∷ more)
        × (r ≡ summed whole first more))
    × ((k : Bytes) (first : ExpenseRow ℤ) (more : List (ExpenseRow ℤ))
        → of_key by_category k two_rows ≡ first ∷ more
        → In (summed whole first more) (group_by whole in_order two_rows by_category))
group_by-of_key_example = group_by-of_key whole in_order two_rows by_category in_order-IsValues
