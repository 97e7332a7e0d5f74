-- ===== src/Sql/Executor/Filter.antt =====
-- What a SELECT decodes and filters, crates/sql/src/executor.rs.
use exepense_db.Base.{
  ℕ, ◌≡◌, refl, sym, ap, ◌∙◌, subst, Bool, true, Option, none, some, List, [], ◌∷◌, Bool-cases,
  Option-cases, inl, inr, if◌then◌else◌, arith,
}
use exepense_db.Base.Order.{Bytes, same, same_refl, eq_of_same, ◌≺◌, gt_of_lt}
use exepense_db.Base.Members.{In, here, there}
use exepense_db.Base.BtreeMap
use exepense_db.Base.BtreeMap.{BtreeMap, IsSorted, Above, get-Above}
use exepense_db.Wal
use exepense_db.Lsm.Levels.{Tables}
use exepense_db.Sql.Ast.{Floats, Expr}
use exepense_db.Sql.Row.{ExpenseRow, Codec}
use exepense_db.Sql.Eval.{eval_expr, unwrap_or_false, where_filter}
use exepense_db.Sql.Sorting.{Std}
use exepense_db.Sql.Executor.{decode_rows, apply_where}

module _ {V : Type 0} where
  pub get-In : (q : Bytes) (v : V) (m : BtreeMap V) → BtreeMap.get q m ≡ some v → In (q, v) m
  unfolding BtreeMap.get
  get-In q v [] h = absurd cc
  get-In q v ((j, w) ∷ m) h = elim (Bool-cases (same q j)) [
    | inl t ↦
        found (eq_of_same q j t)
          (subst (λ b. (if b then some w else BtreeMap.get q m) ≡ some v) t h)
    | inr f ↦
        there (get-In q v m (subst (λ b. (if b then some w else BtreeMap.get q m) ≡ some v) f h))
  ]
    where
      found : q ≡ j → some w ≡ some v → In (q, v) ((j, w) ∷ m)
      found e k =
          let q : ◌≡◌ {A = Bytes × V} (j, w) (q, v) = cc in subst (λ p. In p ((j, w) ∷ m)) q here

  behind : (k q : Bytes) (v : V) (m : BtreeMap V) → Above k m → In (q, v) m → k ≺ q
  behind k q v [] a i = elim i [ ]
  behind k q v ((j, w) ∷ m) (p, a) here = p
  behind k q v ((j, w) ∷ m) (p, a) (there i) = behind k q v m a i

  pub In-get :
      (q : Bytes) (v : V) (m : BtreeMap V) → IsSorted m → In (q, v) m → BtreeMap.get q m ≡ some v
  unfolding BtreeMap.get
  In-get q v [] s i = elim i [ ]
  In-get q v ((j, w) ∷ m) (a, s) here = rw (same_refl q) refl
  In-get q v ((j, w) ∷ m) (a, s) (there i) = passes (behind j q v m a i) (In-get q v m s i)
    where
      passes :
          j ≺ q
          → BtreeMap.get q m ≡ some v
          → (if same q j then some w else BtreeMap.get q m) ≡ some v
      passes p h = ground (arith, gt_of_lt j q)

module _ {F64 : Type 0} (fl : Floats F64) {Reader : Type 0} (t : Tables Reader) (wal : Wal.Lib)
    (codec : Codec F64) (rust_std : Std F64) where
  -- Whether a row passes the WHERE clause; an evaluation that fails does not pass.
  abbrev pub passes : Option (Expr F64) → ExpenseRow F64 → Bool
  passes none r = true
  passes (some expr) r = unwrap_or_false fl (eval_expr fl expr r)

  abbrev decoded : Option (ExpenseRow F64 × ℕ) → List (ExpenseRow F64) → List (ExpenseRow F64)
  decoded none rs = rs
  decoded (some (r, n)) rs = r ∷ rs

  decode_rows-cons :
      (k b : Bytes) (m : BtreeMap Bytes)
      → decode_rows fl t wal codec rust_std ((k, b) ∷ m)
        ≡ decoded (codec.decode_from_slice b) (decode_rows fl t wal codec rust_std m)
  unfolding decode_rows
  decode_rows-cons k b m = elim (Option-cases (codec.decode_from_slice b)) [
    | inl q ↦ rw (decode_rows, q) refl
    | inr (x, q) ↦ rw (decode_rows, q) refl
  ]

  abbrev pub Source : BtreeMap Bytes → ExpenseRow F64 → Type 0
  Source m r =
      (k : Bytes) × (b : Bytes) × (n : ℕ) × In (k, b) m × (codec.decode_from_slice b ≡ some (r, n))

  pub In-decode_rows :
      (m : BtreeMap Bytes) {r : ExpenseRow F64}
      → In r (decode_rows fl t wal codec rust_std m)
      → Source m r
  unfolding decode_rows
  In-decode_rows [] i = elim i [ ]
  In-decode_rows ((k, b) ∷ m) {r} i =
      split (codec.decode_from_slice b) refl (subst (In r) (decode_rows-cons k b m) i)
        (λ j. In-decode_rows m j)
    where
      later : Source m r → Source ((k, b) ∷ m) r
      later (j, c, n, i, q) = (j, c, n, there i, q)

      split :
          (o : Option (ExpenseRow F64 × ℕ))
          → codec.decode_from_slice b ≡ o
          → In r (decoded o (decode_rows fl t wal codec rust_std m))
          → (In r (decode_rows fl t wal codec rust_std m) → Source m r)
          → Source ((k, b) ∷ m) r
      split none q j f = later (f j)
      split (some (x, n)) q here f = (k, b, n, here, q)
      split (some (x, n)) q (there j) f = later (f j)

  pub decode_rows-In :
      (m : BtreeMap Bytes) {r : ExpenseRow F64}
      → Source m r
      → In r (decode_rows fl t wal codec rust_std m)
  unfolding decode_rows
  decode_rows-In [] (k, b, n, i, q) = elim i [ ]
  decode_rows-In ((j, c) ∷ m) {r} (k, b, n, here, q) =
      subst (In r)
        (sym
          (decode_rows-cons j c m ∙ ap (λ o. decoded o (decode_rows fl t wal codec rust_std m)) q))
        here
  decode_rows-In ((j, c) ∷ m) {r} (k, b, n, there i, q) =
      subst (In r) (sym (decode_rows-cons j c m))
        (behind_one (codec.decode_from_slice c) (decode_rows-In m (k, b, n, i, q)))
    where
      behind_one :
          (o : Option (ExpenseRow F64 × ℕ)) {rs : List (ExpenseRow F64)}
          → In r rs
          → In r (decoded o rs)
      behind_one none i = i
      behind_one (some (x, n)) i = there i

  In-where_filter :
      (expr : Expr F64) (rs : List (ExpenseRow F64)) {r : ExpenseRow F64}
      → In r (where_filter fl expr rs)
      → In r rs × (passes (some expr) r ≡ true)
  unfolding where_filter
  In-where_filter expr [] i = elim i [ ]
  In-where_filter expr (x ∷ rs) {r} i = elim (Bool-cases (passes (some expr) x)) [
    | inl p ↦
        kept p
          (subst (λ b. In r (if b then x ∷ where_filter fl expr rs else where_filter fl expr rs)) p
            i)
          (λ j. In-where_filter expr rs j)
    | inr f ↦
        let (j, q) = In-where_filter expr rs (
          subst (λ b. In r (if b then x ∷ where_filter fl expr rs else where_filter fl expr rs)) f
            i) in
        (there j, q)
  ]
    where
      kept :
          {r : ExpenseRow F64}
          → passes (some expr) x ≡ true
          → In r (x ∷ where_filter fl expr rs)
          → (In r (where_filter fl expr rs) → In r rs × (passes (some expr) r ≡ true))
          → In r (x ∷ rs) × (passes (some expr) r ≡ true)
      kept p here f = (here, p)
      kept p (there j) f = let (k, q) = f j in (there k, q)

  where_filter-In :
      (expr : Expr F64) (rs : List (ExpenseRow F64)) {r : ExpenseRow F64}
      → In r rs
      → passes (some expr) r ≡ true
      → In r (where_filter fl expr rs)
  unfolding where_filter
  where_filter-In expr [] i p = elim i [ ]
  where_filter-In expr (x ∷ rs) here p = rw p here
  where_filter-In expr (x ∷ rs) (there i) p = elim (Bool-cases (passes (some expr) x)) [
    | inl q ↦ rw q (there (where_filter-In expr rs i p))
    | inr q ↦ rw q (where_filter-In expr rs i p)
  ]

  pub In-apply_where :
      (c : Option (Expr F64)) (rs : List (ExpenseRow F64)) {r : ExpenseRow F64}
      → In r (apply_where fl t wal codec rust_std c rs)
      → In r rs × (passes c r ≡ true)
  In-apply_where none rs i = (i, refl)
  In-apply_where (some expr) rs i = In-where_filter expr rs i

  pub apply_where-In :
      (c : Option (Expr F64)) (rs : List (ExpenseRow F64)) {r : ExpenseRow F64}
      → In r rs
      → passes c r ≡ true
      → In r (apply_where fl t wal codec rust_std c rs)
  apply_where-In none rs i p = i
  apply_where-In (some expr) rs i p = where_filter-In expr rs i p
