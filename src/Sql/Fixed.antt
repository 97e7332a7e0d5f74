-- ===== src/Sql/Fixed.antt =====
-- Numbers, a codec and a map order that meet the laws assumed of `f64`, bincode and `HashMap`: the
-- instances at which the tests of the SQL layer run.
use exepense_db.Base.{
  ℕ, zero, suc, ◌+◌, ◌≡◌, ◌≢◌, refl, sym, ap, ◌∙◌, some, List, [], ◌∷◌, ◌++◌, take, drop, length,
  take-append, drop-append, arith, ◌≤◌, leb, leb→le, Bool-cases, inl, inr,
}
use Prim.Native.Nat.{Ordering, compare}
use Prim.Native.Nat.Ordering.{gt}
use exepense_db.Base.Order.{Bytes}
use exepense_db.Base.Members.{In, here, there}
use exepense_db.Base.Integers.{ℤ, pos, negsuc, cmp_int}
use exepense_db.Sql.Ast.{Floats}
use exepense_db.Sql.Row.{ExpenseRow, Codec, IsFaithful}
use exepense_db.Sql.Eval.Laws.{cmp_int-reverse}
use exepense_db.Sql.Sorting.{Std}
use exepense_db.Sql.Sorting.Insertion.{sort_by}
use exepense_db.Sql.Groups.{Group, Groups, IsValues}
use exepense_db.Sql.Sorting.Laws.{IsOrdered}

-- Whole amounts that are added as long as they are not negative.
abbrev pub add_whole : ℤ → ℤ → ℤ
add_whole (pos a) (pos b) = pos (a + b)
add_whole a b = a

abbrev pub whole : Floats ℤ
whole = record {
  zero = pos 0;
  of_i64 = λ i. i;
  to_i64 = λ i. i;
  add = add_whole;
  partial_cmp = λ a b. some (cmp_int a b);
}

compare_le : (a b : ℕ) → compare a b ≢ gt → a ≤ b
compare_le a b h = elim (Bool-cases (leb a b)) [
  | inl t ↦ leb→le a b t
  | inr f ↦ absurd (h (ground arith))
]

le_compare : (a b : ℕ) → a ≤ b → compare a b ≢ gt
le_compare a b h q = absurd (ground arith)

compare_trans : (a b c : ℕ) → compare a b ≢ gt → compare b c ≢ gt → compare a c ≢ gt
compare_trans a b c h k = le_compare a c (omega (arith, compare_le a b h, compare_le b c k))

cmp_int_trans : (a b c : ℤ) → cmp_int a b ≢ gt → cmp_int b c ≢ gt → cmp_int a c ≢ gt
cmp_int_trans (pos a) (pos b) (pos c) h k = compare_trans a b c h k
cmp_int_trans (pos a) (pos b) (negsuc c) h k = absurd (k refl)
cmp_int_trans (pos a) (negsuc b) c h k = absurd (h refl)
cmp_int_trans (negsuc a) b (pos c) h k = λ q. absurd cc
cmp_int_trans (negsuc a) (pos b) (negsuc c) h k = absurd (k refl)
cmp_int_trans (negsuc a) (negsuc b) (negsuc c) h k = compare_trans c b a k h

some-gt : {o : Ordering} → some o ≢ some gt → o ≢ gt
some-gt h q = h (ap some q)

pub whole-IsOrdered : IsOrdered whole
whole-IsOrdered = record {
  flips = λ a b. ap some (cmp_int-reverse a b);
  trans = λ a b c _ _ _ h k q. cmp_int_trans a b c (some-gt h) (some-gt k) (inside q);
}
  where
    inside : {o p : Ordering} → some o ≡ some p → o ≡ p
    inside q = cc

abbrev pub write_int : ℤ → Bytes → Bytes
write_int (pos n) rest = 0 ∷ n ∷ rest
write_int (negsuc n) rest = 1 ∷ n ∷ rest

unfoldable pub read_int : Bytes → ℤ × Bytes
read_int (zero ∷ n ∷ rest) = (pos n, rest)
read_int (suc m ∷ n ∷ rest) = (negsuc n, rest)
read_int other = (pos 0, other)

abbrev pub write_text : Bytes → Bytes → Bytes
write_text s rest = length s ∷ (s ++ rest)

unfoldable pub read_text : Bytes → Bytes × Bytes
read_text [] = ([], [])
read_text (n ∷ rest) = (take n rest, drop n rest)

abbrev pub write_row : ExpenseRow ℤ → Bytes
write_row r = write_int r.amount (
    write_int r.created_at
      (write_text r.id (write_text r.category (write_text r.description (write_text r.date [])))))

abbrev pub read_row : Bytes → ExpenseRow ℤ × ℕ
read_row b =
    let (amount, b1) = read_int b in
    let (created_at, b2) = read_int b1 in
    let (id, b3) = read_text b2 in
    let (category, b4) = read_text b3 in
    let (description, b5) = read_text b4 in
    let (date, b6) = read_text b5 in
    (
      record {
        id = id;
        amount = amount;
        category = category;
        description = description;
        date = date;
        created_at = created_at;
      },
      length b,
    )

abbrev pub plain : Codec ℤ
plain = record {
  encode_to_vec = λ r. some (write_row r);
  decode_from_slice = λ b. some (read_row b);
}

read-write_int : (i : ℤ) (rest : Bytes) → read_int (write_int i rest) ≡ (i, rest)
unfolding read_int
read-write_int (pos n) rest = refl
read-write_int (negsuc n) rest = refl

read-write_text : (s rest : Bytes) → read_text (write_text s rest) ≡ (s, rest)
unfolding read_text
read-write_text s rest = rw (take-append s rest refl, drop-append s rest refl) refl

read-write_row : (r : ExpenseRow ℤ) → read_row (write_row r) ≡ (r, length (write_row r))
read-write_row r =
    let b4 = write_text r.date [] in
    let b3 = write_text r.description b4 in
    let b2 = write_text r.category b3 in
    let b1 = write_text r.id b2 in
    rw
      (
        read-write_int r.amount (write_int r.created_at b1),
        read-write_int r.created_at b1,
        read-write_text r.id b2,
        read-write_text r.category b3,
        read-write_text r.description b4,
        read-write_text r.date [],
      )
      refl

some-eq {ℓ} : {A : Type ℓ} {a b : A} → some a ≡ some b → a ≡ b
some-eq q = cc

pub plain-IsFaithful : IsFaithful plain
plain-IsFaithful row bytes h = (
  length bytes,
  ap some
      (ap read_row (sym (some-eq h)) ∙ read-write_row row ∙ ap (λ b. (row, length b)) (some-eq h)),
)

unfoldable pub in_order : {F64 : Type 0} → Groups F64 → List (Group F64)
in_order [] = []
in_order ((k, g) ∷ gs) = g ∷ in_order gs

-- The values of a map in the order of its keys' first insertion, and an insertion sort.
abbrev pub ordered : {F64 : Type 0} → Std F64
ordered = record { into_values = in_order; sort_by = sort_by }

in_order-In :
    {F64 : Type 0} (gs : Groups F64) (g : Group F64)
    → In g (in_order gs)
    → (k : Bytes) × In (k, g) gs
unfolding in_order
in_order-In [] g i = elim i [ ]
in_order-In ((k, h) ∷ gs) g here = (k, here)
in_order-In ((k, h) ∷ gs) g (there i) = let (j, m) = in_order-In gs g i in (j, there m)

In-in_order :
    {F64 : Type 0} (gs : Groups F64) (k : Bytes) (g : Group F64) → In (k, g) gs → In g (in_order gs)
unfolding in_order
In-in_order [] k g i = elim i [ ]
In-in_order ((j, h) ∷ gs) k g here = here
In-in_order ((j, h) ∷ gs) k g (there i) = there (In-in_order gs k g i)

length-in_order : {F64 : Type 0} (gs : Groups F64) → length (in_order gs) ≡ length gs
unfolding in_order
length-in_order [] = refl
length-in_order ((k, g) ∷ gs) = ap suc (length-in_order gs)

pub in_order-IsValues : IsValues {F64 = ℤ} in_order
in_order-IsValues = record {
  same_length = length-in_order;
  sound = in_order-In;
  complete = In-in_order;
}
