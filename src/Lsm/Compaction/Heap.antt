-- ===== src/Lsm/Compaction/Heap.antt =====
-- A heap that meets the laws of `MaxHeap`, at which the tests of the compaction run.
use exepense_db.Base.{
  ◌≡◌, refl, sym, inl, inr, ◌∙◌, Bool, true, false, Option, none, some, List, [], ◌∷◌, Bool-cases,
  leb, if◌then◌else◌, arith,
}
use exepense_db.Base.Order.{cmp, cmp-cases, below, equal, above, cmp_trans}
use exepense_db.Base.Members.{In, here, there, Picked, first, later}
use exepense_db.Lsm.Compaction.{HeapEntry, Before, MaxHeap, IsLawful}
use Prim.Native.Nat.Ordering.{lt, eq, gt}

-- `a` comes before `b`.
abbrev pub before : HeapEntry → HeapEntry → Bool
before a b = elim (cmp a.key b.key) [ lt ↦ true | eq ↦ leb b.seq a.seq | gt ↦ false ]

before_total :
    (a b : HeapEntry) → (before a b ≡ true → Before a b) × (before a b ≡ false → Before b a)
before_total a b = elim (cmp-cases a.key b.key) [
  | below c ↦ ((λ h. inl c), λ h. absurd (ground (arith, c, h)))
  | equal c e ↦ ((λ h. inr (e, ground (arith, c, h))), λ h. inr (sym e, ground (arith, c, h)))
  | above c d ↦ ((λ h. absurd (ground (arith, c, h))), λ h. inl d)
]

Before-trans : (a b c : HeapEntry) → Before a b → Before b c → Before a c
Before-trans a b c (inl p) (inl q) = inl (cmp_trans a.key b.key c.key p q)
Before-trans a b c (inl p) (inr (e, s)) = inl (rw (sym e) p)
Before-trans a b c (inr (e, s)) (inl q) = inl (rw e q)
Before-trans a b c (inr (e, s)) (inr (f, u)) = inr (e ∙ f, omega (arith, s, u))

-- The entry of `x ∷ xs` that comes first, and the others.
unfoldable pub take_least : HeapEntry → List HeapEntry → HeapEntry × List HeapEntry
take_least x [] = (x, [])
take_least x (y ∷ ys) =
    let (m, rest) = take_least y ys in if before x m then (x, y ∷ ys) else (m, x ∷ rest)

abbrev pub pop_least : List HeapEntry → Option (HeapEntry × List HeapEntry)
pop_least [] = none
pop_least (x ∷ xs) = some (take_least x xs)

take_least_lem :
    (x : HeapEntry) (xs : List HeapEntry)
    → Picked (take_least x xs).0 (x ∷ xs) (take_least x xs).1
      × ((y : HeapEntry) → In y (x ∷ xs) → Before (take_least x xs).0 y)
unfolding take_least
take_least_lem x [] = (first, λ y i. only i)
  where
    only : {y : HeapEntry} → In y (x ∷ []) → Before x y
    only here = inr (refl, omega arith)
    only (there i) = elim i [ ]
take_least_lem x (y ∷ ys) = elim (Bool-cases (before x (take_least y ys).0)) [
  | inl t ↦
      rw t (first, λ z i. start (take_least_lem y ys) ((before_total x (take_least y ys).0).0 t) i)
  | inr f ↦ rw f (
    later (take_least_lem y ys).0,
    λ z i. move (take_least_lem y ys) ((before_total x (take_least y ys).0).1 f) i,
  )
]
  where
    start :
        {m z : HeapEntry} {r : List HeapEntry}
        → Picked m (y ∷ ys) r × ((z : HeapEntry) → In z (y ∷ ys) → Before m z)
        → Before x m
        → In z (x ∷ y ∷ ys)
        → Before x z
    start h b here = inr (refl, omega arith)
    start {m} {z} h b (there i) = Before-trans x m z b (h.1 z i)

    move :
        {m z : HeapEntry} {r : List HeapEntry}
        → Picked m (y ∷ ys) r × ((z : HeapEntry) → In z (y ∷ ys) → Before m z)
        → Before m x
        → In z (x ∷ y ∷ ys)
        → Before m z
    move h b here = b
    move {m} {z} h b (there i) = h.1 z i

abbrev pub least_first : MaxHeap
least_first = record { pop = pop_least }

pub least_first-IsLawful : IsLawful least_first
least_first-IsLawful = record {
  empty = refl;
  takes = λ x xs. record {
    entry = (take_least x xs).0;
    rest = (take_least x xs).1;
    popped = refl;
    removed = (take_least_lem x xs).0;
    least = (take_least_lem x xs).1;
  };
}
