-- ===== src/Sql/Groups/Laws.antt =====
-- GROUP BY against a reference that looks at one group at a time, crates/sql/src/executor.rs.
use exepense_db.Base.{
  ◌≡◌, refl, sym, ap, subst, ◌∙◌, Bool, true, false, Option, none, some, List, [], ◌∷◌,
  if◌then◌else◌, Bool-cases, inl, inr,
}
use exepense_db.Base.Order.{Bytes, same, same_refl, same_sym, eq_of_same}
use exepense_db.Base.Members.{In, here, there}
use exepense_db.Sql.Ast.{Floats}
use exepense_db.Sql.Row.{ExpenseRow}
use exepense_db.Sql.Groups.{
  Group, Groups, bump, new_group, add_to, group_key, group_loop, grouped_row, grouped_rows,
  group_by, IsValues,
}

module _ {F64 : Type 0} (fl : Floats F64) where
  abbrev pub or_new : ExpenseRow F64 → Option (Group F64) → Group F64
  or_new row none = new_group fl row
  or_new row (some g) = g

  -- The group of one key: its first row, and the amounts added from zero in the order of the rows.
  unfoldable pub group_of :
      List Bytes → Bytes → Option (Group F64) → List (ExpenseRow F64) → Option (Group F64)
  group_of cols k o [] = o
  group_of cols k o (row ∷ rs) =
      if same (group_key cols row) k
      then group_of cols k (some (bump fl row (or_new row o))) rs
      else group_of cols k o rs

  find : Bytes → Groups F64 → Option (Group F64)
  find k [] = none
  find k ((j, g) ∷ gs) = if same j k then some g else find k gs

  -- No key twice.
  Distinct : Groups F64 → Type 0
  Distinct [] = Unit
  Distinct ((k, g) ∷ gs) = (find k gs ≡ none) × Distinct gs

  find-add_to :
      (k j : Bytes) (row : ExpenseRow F64) (gs : Groups F64)
      → find j (add_to fl k row gs)
        ≡ (if same k j then some (bump fl row (or_new row (find j gs))) else find j gs)
  unfolding find add_to
  find-add_to k j row [] = refl
  find-add_to k j row ((i, g) ∷ gs) = elim (Bool-cases (same i k)) [
    | inl t ↦ hit (eq_of_same i k t)
    | inr f ↦ rw f (elim (Bool-cases (same i j)) [
      | inl u ↦ rw (u, apart f (eq_of_same i j u))
      | inr v ↦ rw v (find-add_to k j row gs)
    ])
  ]
    where
      bumped :
          (b : Bool) (o : Option (Group F64))
          → (if b then some (bump fl row g) else o) ≡ (
              if b
              then some (bump fl row (or_new row (if b then some g else o)))
              else (if b then some g else o))
      bumped true o = refl
      bumped false o = refl

      apart : same i k ≡ false → i ≡ j → same k j ≡ false
      apart f e = rw (sym e) (same_sym k i ∙ f)

      hit :
          i ≡ k
          → find j (add_to fl k row ((i, g) ∷ gs)) ≡ (
              if same k j
              then some (bump fl row (or_new row (find j ((i, g) ∷ gs))))
              else find j ((i, g) ∷ gs))
      hit e = rw (sym e, add_to, find, same_refl i) (bumped (same i j) (find j gs))

  find-group_loop :
      (cols : List Bytes) (k : Bytes) (gs : Groups F64) (rs : List (ExpenseRow F64))
      → find k (group_loop fl cols gs rs) ≡ group_of cols k (find k gs) rs
  unfolding group_loop group_of
  find-group_loop cols k gs [] = refl
  find-group_loop cols k gs (row ∷ rs) =
      find-group_loop cols k (add_to fl (group_key cols row) row gs) rs
      ∙ ap (λ o. group_of cols k o rs) (find-add_to (group_key cols row) k row gs)
      ∙ if_group (same (group_key cols row) k)
    where
      if_group :
          (b : Bool)
          → group_of cols k
              (if b then some (bump fl row (or_new row (find k gs))) else find k gs)
              rs
            ≡ (if b
                then group_of cols k (some (bump fl row (or_new row (find k gs)))) rs
                else group_of cols k (find k gs) rs)
      if_group true = refl
      if_group false = refl

  add_to-Distinct :
      (k : Bytes) (row : ExpenseRow F64) (gs : Groups F64)
      → Distinct gs
      → Distinct (add_to fl k row gs)
  unfolding add_to Distinct find
  add_to-Distinct k row [] d = (refl, tt)
  add_to-Distinct k row ((i, g) ∷ gs) (n, d) = elim (Bool-cases (same i k)) [
    | inl t ↦ rw t (n, d)
    | inr f ↦ rw f (find-add_to k i row gs ∙ rw (same_sym k i ∙ f) n, add_to-Distinct k row gs d)
  ]

  group_loop-Distinct :
      (cols : List Bytes) (gs : Groups F64) (rs : List (ExpenseRow F64))
      → Distinct gs
      → Distinct (group_loop fl cols gs rs)
  unfolding group_loop
  group_loop-Distinct cols gs [] d = d
  group_loop-Distinct cols gs (row ∷ rs) d =
      group_loop-Distinct cols (add_to fl (group_key cols row) row gs) rs
        (add_to-Distinct (group_key cols row) row gs d)

  In-find :
      (k : Bytes) (g : Group F64) (gs : Groups F64)
      → Distinct gs
      → In (k, g) gs
      → find k gs ≡ some g
  unfolding find Distinct
  In-find k g [] d i = elim i [ ]
  In-find k g ((j, h) ∷ gs) d here = rw (same_refl k)
  In-find k g ((j, h) ∷ gs) (n, d) (there i) = elim (Bool-cases (same j k)) [
    | inl t ↦ absurd (clash (eq_of_same j k t) (In-find k g gs d i))
    | inr f ↦ rw f (In-find k g gs d i)
  ]
    where
      none_ne : {x : Group F64} → none ≡ some x → ⊥
      none_ne q = cc

      clash : j ≡ k → find k gs ≡ some g → ⊥
      clash e f = none_ne (sym n ∙ ap (λ x. find x gs) e ∙ f)

  pub some-injective : {x y : Group F64} → some x ≡ some y → x ≡ y
  some-injective e = cc

  find-In :
      (k : Bytes) (g : Group F64) (gs : Groups F64)
      → find k gs ≡ some g
      → (j : Bytes) × In (j, g) gs
  unfolding find
  find-In k g [] q = absurd cc
  find-In k g ((j, h) ∷ gs) q = elim (Bool-cases (same j k)) [
    | inl t ↦ first_one (subst (λ b. (if b then some h else find k gs) ≡ some g) t q)
    | inr f ↦
        later_one (find-In k g gs (subst (λ b. (if b then some h else find k gs) ≡ some g) f q))
  ]
    where
      first_one : some h ≡ some g → (i : Bytes) × In (i, g) ((j, h) ∷ gs)
      first_one e = (j, subst (λ x. In (j, x) ((j, h) ∷ gs)) (some-injective e) here)

      later_one : (i : Bytes) × In (i, g) gs → (i : Bytes) × In (i, g) ((j, h) ∷ gs)
      later_one (i, m) = (i, there m)

  In-grouped_rows :
      (g : Group F64) (gs : List (Group F64)) → In g gs → In (grouped_row fl g) (grouped_rows fl gs)
  unfolding grouped_rows
  In-grouped_rows g [] i = elim i [ ]
  In-grouped_rows g (h ∷ gs) here = here
  In-grouped_rows g (h ∷ gs) (there i) = there (In-grouped_rows g gs i)

  grouped_rows-In :
      (gs : List (Group F64)) {r : ExpenseRow F64}
      → In r (grouped_rows fl gs)
      → (g : Group F64) × In g gs × (r ≡ grouped_row fl g)
  unfolding grouped_rows
  grouped_rows-In [] i = elim i [ ]
  grouped_rows-In (g ∷ gs) here = (g, here, refl)
  grouped_rows-In (g ∷ gs) (there i) = let (h, j, e) = grouped_rows-In gs i in (h, there j, e)

  pub group_by-group_of :
      (into_values : Groups F64 → List (Group F64)) (rs : List (ExpenseRow F64)) (cols : List Bytes)
      → IsValues into_values
      → ((r : ExpenseRow F64)
          → In r (group_by fl into_values rs cols)
          → (k : Bytes) × (g : Group F64) × (group_of cols k none rs ≡ some g)
            × (r ≡ grouped_row fl g))
        × ((k : Bytes) (g : Group F64)
            → group_of cols k none rs ≡ some g
            → In (grouped_row fl g) (group_by fl into_values rs cols))
  unfolding group_by find Distinct
  group_by-group_of into_values rs cols law = (λ r i. sound i, λ k g q. complete k g q)
    where
      gs : Groups F64
      gs = group_loop fl cols [] rs

      sound :
          {r : ExpenseRow F64}
          → In r (grouped_rows fl (into_values gs))
          → (k : Bytes) × (g : Group F64) × (group_of cols k none rs ≡ some g)
            × (r ≡ grouped_row fl g)
      sound i =
          let (g, j, e) = grouped_rows-In (into_values gs) i in
          let (k, m) = law.sound gs g j in
          (
            k,
            g,
            sym (find-group_loop cols k [] rs)
                ∙ In-find k g gs (group_loop-Distinct cols [] rs tt) m,
            e,
          )

      complete :
          (k : Bytes) (g : Group F64)
          → group_of cols k none rs ≡ some g
          → In (grouped_row fl g) (grouped_rows fl (into_values gs))
      complete k g q =
          let (j, m) = find-In k g gs (find-group_loop cols k [] rs ∙ q) in
          In-grouped_rows g (into_values gs) (law.complete gs j g m)
