-- ===== src/Sql/Groups/Sums.antt =====
-- GROUP BY as the sums of the rows with a key, crates/sql/src/executor.rs.
use exepense_db.Base.{
  ◌+◌, ◌++◌, length, arith, ◌≡◌, refl, sym, ap, ◌∙◌, Option, none, some, List, [], ◌∷◌,
  if◌then◌else◌, Bool-cases, inl, inr,
}
use exepense_db.Base.Order.{Bytes, same}
use exepense_db.Base.Members.{In}
use exepense_db.Sql.Ast.{Floats}
use exepense_db.Sql.Row.{ExpenseRow, row_field_str}
use exepense_db.Base.Integers.{ascii}
use exepense_db.Sql.Groups.{
  Group, Groups, join, fields, bump, new_group, group_key, grouped_row, group_by, IsValues,
}
use exepense_db.Sql.Groups.Laws.{group_of, some-injective, group_by-group_of}

module _ {F64 : Type 0} where
  -- The texts of a row's fields in the columns, with bars between them.
  unfoldable pub key_of : List Bytes → ExpenseRow F64 → Bytes
  key_of [] row = []
  key_of (c ∷ []) row = row_field_str row c
  key_of (c ∷ d ∷ cs) row = row_field_str row c ++ (ascii "|" ++ key_of (d ∷ cs) row)

  -- The rows with a key.
  unfoldable pub of_key : List Bytes → Bytes → List (ExpenseRow F64) → List (ExpenseRow F64)
  of_key cols k [] = []
  of_key cols k (row ∷ rs) =
      if same (key_of cols row) k then row ∷ of_key cols k rs else of_key cols k rs

  group_key-key_of :
      (cols : List Bytes) (row : ExpenseRow F64) → group_key cols row ≡ key_of cols row
  unfolding key_of join fields
  group_key-key_of [] row = refl
  group_key-key_of (c ∷ []) row = refl
  group_key-key_of (c ∷ d ∷ cs) row =
      ap (λ t. row_field_str row c ++ (ascii "|" ++ t)) (group_key-key_of (d ∷ cs) row)

module _ {F64 : Type 0} (fl : Floats F64) where
  -- The amounts of some rows added to a number, in their order.
  unfoldable pub sum_from : F64 → List (ExpenseRow F64) → F64
  sum_from x [] = x
  sum_from x (row ∷ rs) = sum_from (fl.add x row.amount) rs

  group_from : List (ExpenseRow F64) → Option (Group F64)
  group_from [] = none
  group_from (row ∷ rs) =
      some (record { row = row; total = sum_from fl.zero (row ∷ rs); count = 1 + length rs })

  group_of-some :
      (cols : List Bytes) (k : Bytes) (g : Group F64) (rs : List (ExpenseRow F64))
      → group_of fl cols k (some g) rs
        ≡ some (record {
          row = g.row;
          total = sum_from g.total (of_key cols k rs);
          count = g.count + length (of_key cols k rs);
        })
  unfolding group_of of_key sum_from
  group_of-some cols k g [] = ap (λ n. some (record g { count = n })) (omega arith)
  group_of-some cols k g (row ∷ rs) = elim (Bool-cases (same (key_of cols row) k)) [
    | inl t ↦
        rw (group_of, group_key-key_of cols row, of_key, t, group_of-some cols k (bump fl row g) rs)
          (ap
            (λ n. some (record {
              row = g.row;
              total = sum_from (fl.add g.total row.amount) (of_key cols k rs);
              count = n;
            }))
            (omega arith))
    | inr f ↦ rw (group_of, group_key-key_of cols row, of_key, f) (group_of-some cols k g rs)
  ]

  group_of-none :
      (cols : List Bytes) (k : Bytes) (rs : List (ExpenseRow F64))
      → group_of fl cols k none rs ≡ group_from (of_key cols k rs)
  unfolding group_of of_key group_from sum_from
  group_of-none cols k [] = refl
  group_of-none cols k (row ∷ rs) = elim (Bool-cases (same (key_of cols row) k)) [
    | inl t ↦
        rw (group_of, group_key-key_of cols row, of_key, t)
          (group_of-some cols k (bump fl row (new_group fl row)) rs)
    | inr f ↦ rw (group_of, group_key-key_of cols row, of_key, f) (group_of-none cols k rs)
  ]

  -- The row of a group: its first row, with the sum of the amounts.
  abbrev pub summed : ExpenseRow F64 → List (ExpenseRow F64) → ExpenseRow F64
  summed first more = record first { amount = sum_from fl.zero (first ∷ more) }

  from_group :
      (l : List (ExpenseRow F64)) (g : Group F64)
      → group_from l ≡ some g
      → (first : ExpenseRow F64) × (more : List (ExpenseRow F64)) × (l ≡ first ∷ more)
        × (grouped_row fl g ≡ summed first more)
  unfolding group_from
  from_group [] g q = absurd cc
  from_group (row ∷ rs) g q = (row, rs, refl, ap (grouped_row fl) (sym (some-injective fl q)))

  -- The rows of a GROUP BY, where the map gives all its values in some order. Each is the first of all
  -- the rows with one key, the texts of the columns joined by bars, with the sum of their amounts, added
  -- from zero in their order; and there is such a row for every key that a row has.
  pub group_by-of_key :
      (into_values : Groups F64 → List (Group F64)) (rs : List (ExpenseRow F64)) (cols : List Bytes)
      → IsValues into_values
      → ((r : ExpenseRow F64)
          → In r (group_by fl into_values rs cols)
          → (k : Bytes) × (first : ExpenseRow F64) × (more : List (ExpenseRow F64)) × (of_key cols k
                rs
              ≡ first ∷ more)
            × (r ≡ summed first more))
        × ((k : Bytes) (first : ExpenseRow F64) (more : List (ExpenseRow F64))
            → of_key cols k rs ≡ first ∷ more
            → In (summed first more) (group_by fl into_values rs cols))
  unfolding group_from
  group_by-of_key into_values rs cols law =
      let (sound, complete) = group_by-group_of fl into_values rs cols law in
      (
        λ r i.
            let (k, g, q, e) = sound r i in
            let (first, more, p, s) =
              from_group (of_key cols k rs) g (sym (group_of-none cols k rs) ∙ q) in
            (k, first, more, p, e ∙ s),
        λ k first more p.
            complete k
              (record {
                row = first;
                total = sum_from fl.zero (first ∷ more);
                count = 1 + length more;
              })
              (group_of-none cols k rs ∙ ap group_from p),
      )
