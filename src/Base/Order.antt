-- ===== src/Base/Order.antt =====
-- `Vec<u8>` and `[u8]` as lists of numbers: their equality, their lexicographic `Ord`, and
-- `starts_with`.
use Prim.Native.Nat.{ℕ, compare, Ordering}
use Prim.Native.Nat.Ordering.{lt, eq, gt}
use mathlib.Core.Path.{◌≡◌, refl}
use mathlib.Core.Logic.{◌⊎◌, inl, inr}
use mathlib.Core.Bool.{Bool, true, false}
use mathlib.Core.List.{List, [], ◌∷◌, ◌++◌}
use native.Mathlib.Omega.{arith}

abbrev pub Bytes : Type 0
Bytes = List ℕ

-- `Vec<u8>::cmp`
unfoldable pub cmp : Bytes → Bytes → Ordering
cmp [] [] = eq
cmp [] (y ∷ ys) = lt
cmp (x ∷ xs) [] = gt
cmp (x ∷ xs) (y ∷ ys) = elim (compare x y) [ lt ↦ lt | eq ↦ cmp xs ys | gt ↦ gt ]

pub cmp_refl : (a : Bytes) → cmp a a ≡ eq
unfolding cmp
cmp_refl [] = refl
cmp_refl (x ∷ xs) = ground (arith, cmp_refl xs)

-- The three answers of a comparison, as facts.
pub data Compared (a b : Bytes) : Type 0 where
  below : cmp a b ≡ lt → Compared a b
  equal : cmp a b ≡ eq → a ≡ b → Compared a b
  above : cmp a b ≡ gt → cmp b a ≡ lt → Compared a b

pub eq_of_cmp : (a b : Bytes) → cmp a b ≡ eq → a ≡ b
unfolding cmp
eq_of_cmp [] [] h = refl
eq_of_cmp [] (y ∷ ys) h = cc
eq_of_cmp (x ∷ xs) [] h = cc
eq_of_cmp (x ∷ xs) (y ∷ ys) h = ground (arith, eq_of_cmp xs ys)

pub lt_of_gt : (a b : Bytes) → cmp a b ≡ gt → cmp b a ≡ lt
unfolding cmp
lt_of_gt [] [] h = cc
lt_of_gt [] (y ∷ ys) h = cc
lt_of_gt (x ∷ xs) [] h = refl
lt_of_gt (x ∷ xs) (y ∷ ys) h = ground (arith, lt_of_gt xs ys)

pub gt_of_lt : (a b : Bytes) → cmp a b ≡ lt → cmp b a ≡ gt
unfolding cmp
gt_of_lt [] [] h = cc
gt_of_lt [] (y ∷ ys) h = refl
gt_of_lt (x ∷ xs) [] h = cc
gt_of_lt (x ∷ xs) (y ∷ ys) h = ground (arith, gt_of_lt xs ys)

ordering_cases : (o : Ordering) → (o ≡ lt) ⊎ ((o ≡ eq) ⊎ (o ≡ gt))
ordering_cases lt = inl refl
ordering_cases eq = inr (inl refl)
ordering_cases gt = inr (inr refl)

pub cmp-cases : (a b : Bytes) → Compared a b
cmp-cases a b = elim (ordering_cases (cmp a b)) [
  | inl h ↦ below h
  | inr (inl h) ↦ equal h (eq_of_cmp a b h)
  | inr (inr h) ↦ above h (lt_of_gt a b h)
]

pub cmp_trans : (a b c : Bytes) → cmp a b ≡ lt → cmp b c ≡ lt → cmp a c ≡ lt
unfolding cmp
cmp_trans [] [] c h k = cc
cmp_trans [] (y ∷ ys) [] h k = cc
cmp_trans [] (y ∷ ys) (z ∷ zs) h k = refl
cmp_trans (x ∷ xs) [] c h k = cc
cmp_trans (x ∷ xs) (y ∷ ys) [] h k = cc
cmp_trans (x ∷ xs) (y ∷ ys) (z ∷ zs) h k = ground (arith, cmp_trans xs ys zs)

-- `a == b`
abbrev pub same : Bytes → Bytes → Bool
same a b = elim (cmp a b) [ eq ↦ true | _ ↦ false ]

pub same_refl : (a : Bytes) → same a a ≡ true
same_refl a = ground (arith, cmp_refl a)

pub eq_of_same : (a b : Bytes) → same a b ≡ true → a ≡ b
eq_of_same a b h = ground (arith, eq_of_cmp a b)

-- `a <= b`
abbrev pub le_bytes : Bytes → Bytes → Bool
le_bytes a b = elim (cmp a b) [ gt ↦ false | _ ↦ true ]

-- `a < b` as a statement
infix 50 ◌≺◌
abbrev pub ◌≺◌ : Bytes → Bytes → Type 0
a ≺ b = cmp a b ≡ lt

pub lt_of_not_le : (a b : Bytes) → le_bytes a b ≡ false → b ≺ a
lt_of_not_le a b h = elim (cmp-cases a b) [
  | below c ↦ absurd (ground arith)
  | equal c e ↦ absurd (ground arith)
  | above c d ↦ d
]

-- `key.starts_with(prefix)`
unfoldable pub starts_with : Bytes → Bytes → Bool
starts_with key [] = true
starts_with [] (p ∷ ps) = false
starts_with (x ∷ xs) (p ∷ ps) = elim (compare x p) [ eq ↦ starts_with xs ps | _ ↦ false ]

pub starts_with-append : (p s : Bytes) → starts_with (p ++ s) p ≡ true
unfolding starts_with
starts_with-append [] s = refl
starts_with-append (x ∷ p) s = ground (arith, starts_with-append p s)

pub same_sym : (a b : Bytes) → same a b ≡ same b a
same_sym a b = elim (cmp-cases a b) [
  | below c ↦ ground (arith, gt_of_lt a b c)
  | equal c e ↦ rw e
  | above c d ↦ ground arith
]
