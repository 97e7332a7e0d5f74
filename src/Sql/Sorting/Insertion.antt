-- ===== src/Sql/Sorting/Insertion.antt =====
-- An insertion sort, which is a stable sort: the instance at which the tests run ORDER BY of
-- crates/sql/src/executor.rs.
use exepense_db.Base.{
  Bool, true, false, if◌then◌else◌, ◌≡◌, ◌≢◌, refl, ap, ◌∙◌, List, [], ◌∷◌, All, inl, inr, ◌⊎◌,
}
use mathlib.Core.List.{Perm}
use mathlib.Core.List.Perm
use Prim.Native.Nat.{Ordering}
use Prim.Native.Nat.Ordering.{lt, eq, gt}
use exepense_db.Base.Members.{In, here, there}
use exepense_db.Sql.Sorting.{IsTotal, is_eq, Sorted, ties, IsStableSort}

module _ {ℓ} {A : Type ℓ} (compare : A → A → Ordering) where
  unfoldable pub insert_sorted : A → List A → List A
  insert_sorted x [] = x ∷ []
  insert_sorted x (y ∷ ys) = elim (compare x y) [ gt ↦ y ∷ insert_sorted x ys | _ ↦ x ∷ y ∷ ys ]

  unfoldable pub sort_by : List A → List A
  sort_by [] = []
  sort_by (x ∷ xs) = insert_sorted x (sort_by xs)

ordering_cases : (o : Ordering) → (o ≡ gt) ⊎ (o ≢ gt)
ordering_cases gt = inl refl
ordering_cases lt = inr (λ e. cc)
ordering_cases eq = inr (λ e. cc)

module _ {A : Type 0} (compare : A → A → Ordering) where
  insert_greater :
      (x y : A) (ys : List A)
      → compare x y ≡ gt
      → insert_sorted compare x (y ∷ ys) ≡ y ∷ insert_sorted compare x ys
  unfolding insert_sorted
  insert_greater x y ys q = rw (insert_sorted, q)

  insert_first :
      (x y : A) (ys : List A) → compare x y ≢ gt → insert_sorted compare x (y ∷ ys) ≡ x ∷ y ∷ ys
  unfolding insert_sorted
  insert_first x y ys n = by_case (compare x y) n
    where
      by_case :
          (o : Ordering)
          → o ≢ gt
          → (elim o as (λ o. List A) [ gt ↦ y ∷ insert_sorted compare x ys | _ ↦ x ∷ y ∷ ys ])
            ≡ x ∷ y ∷ ys
      by_case gt h = absurd (h refl)
      by_case lt h = refl
      by_case eq h = refl

  insert_sorted-perm : (x : A) (ys : List A) → Perm (insert_sorted compare x ys) (x ∷ ys)
  unfolding insert_sorted
  insert_sorted-perm x [] = Perm.rfl
  insert_sorted-perm x (y ∷ ys) = elim (ordering_cases (compare x y)) [
    | inl q ↦
        rw (insert_greater x y ys q)
          (Perm.trans (Perm.cons y (insert_sorted-perm x ys)) (Perm.swap x y ys))
    | inr n ↦ rw (insert_first x y ys n) Perm.rfl
  ]

  pub sort_by-perm : (xs : List A) → Perm (sort_by compare xs) xs
  unfolding sort_by
  sort_by-perm [] = Perm.rfl
  sort_by-perm (x ∷ xs) =
      Perm.trans (insert_sorted-perm x (sort_by compare xs)) (Perm.cons x (sort_by-perm xs))

  insert_sorted-All :
      (P : A → Type 0) (x : A) (ys : List A) → P x → All P ys → All P (insert_sorted compare x ys)
  unfolding insert_sorted
  insert_sorted-All P x [] p h = (p, tt)
  insert_sorted-All P x (y ∷ ys) p (q, h) = elim (ordering_cases (compare x y)) [
    | inl g ↦ rw (insert_greater x y ys g) (q, insert_sorted-All P x ys p h)
    | inr n ↦ rw (insert_first x y ys n) (p, (q, h))
  ]

  sort_by-All : (P : A → Type 0) (xs : List A) → All P xs → All P (sort_by compare xs)
  unfolding sort_by
  sort_by-All P [] h = tt
  sort_by-All P (x ∷ xs) (p, h) = insert_sorted-All P x (sort_by compare xs) p (sort_by-All P xs h)

  module _ {Good : A → Type 0} (total : IsTotal compare Good) where
    le-All :
        (x y : A) (ys : List A)
        → Good x
        → Good y
        → All Good ys
        → compare x y ≢ gt
        → All (λ z. compare y z ≢ gt) ys
        → All (λ z. compare x z ≢ gt) ys
    le-All x y [] gx gy g h a = tt
    le-All x y (z ∷ zs) gx gy (gz, g) h (b, a) =
        (total.trans x y z gx gy gz h b, le-All x y zs gx gy g h a)

    insert_sorted-Sorted :
        (x : A) (ys : List A)
        → Good x
        → All Good ys
        → Sorted compare ys
        → Sorted compare (insert_sorted compare x ys)
    unfolding insert_sorted Sorted
    insert_sorted-Sorted x [] gx g s = (tt, tt)
    insert_sorted-Sorted x (y ∷ ys) gx (gy, g) (over, s) = elim (ordering_cases (compare x y)) [
      | inl q ↦ rw (insert_greater x y ys q) (
        insert_sorted-All (λ z. compare y z ≢ gt) x ys (flipped q) over,
        insert_sorted-Sorted x ys gx g s,
      )
      | inr n ↦ rw (insert_first x y ys n) ((n, le-All x y ys gx gy g n over), (over, s))
    ]
      where
        flipped : compare x y ≡ gt → compare y x ≢ gt
        flipped q e = cc (total.flips x y gx gy)

    pub sort_by-Sorted : (xs : List A) → All Good xs → Sorted compare (sort_by compare xs)
    unfolding sort_by Sorted
    sort_by-Sorted [] g = tt
    sort_by-Sorted (x ∷ xs) (gx, g) =
        insert_sorted-Sorted x (sort_by compare xs) gx (sort_by-All Good xs g) (sort_by-Sorted xs g)

    is_eq-eq : (o : Ordering) → is_eq o ≡ true → o ≡ eq
    is_eq-eq eq q = refl
    is_eq-eq lt q = absurd cc
    is_eq-eq gt q = absurd cc

    tied :
        (x y z : A)
        → Good x
        → Good y
        → Good z
        → compare x y ≡ eq
        → compare x z ≡ eq
        → compare y z ≢ gt
    tied x y z gx gy gz q r = total.trans y x z gy gx gz (λ e. cc (total.flips x y gx gy)) (λ e. cc)

    swapped :
        (b c : Bool) (y z : A) (l : List A)
        → (b ≡ true → c ≡ true → ⊥)
        → (if b then z ∷ (if c then y ∷ l else l) else (if c then y ∷ l else l))
          ≡ (if c then y ∷ (if b then z ∷ l else l) else (if b then z ∷ l else l))
    swapped true true y z l h = absurd (h refl refl)
    swapped true false y z l h = refl
    swapped false true y z l h = refl
    swapped false false y z l h = refl

    ties-insert_sorted :
        (x y : A) (ys : List A)
        → Good x
        → Good y
        → All Good ys
        → ties compare x (insert_sorted compare y ys) ≡ ties compare x (y ∷ ys)
    unfolding ties insert_sorted
    ties-insert_sorted x y [] gx gy g = refl
    ties-insert_sorted x y (z ∷ zs) gx gy (gz, g) = elim (ordering_cases (compare y z)) [
      | inl q ↦
          ap (ties compare x) (insert_greater y z zs q)
          ∙ ap (λ l. if is_eq (compare x z) then z ∷ l else l) (ties-insert_sorted x y zs gx gy g)
          ∙ swapped (is_eq (compare x z)) (is_eq (compare x y)) y z (ties compare x zs)
              (λ b c. tied x y z gx gy gz (is_eq-eq (compare x y) c) (is_eq-eq (compare x z) b) q)
      | inr n ↦ ap (ties compare x) (insert_first y z zs n)
    ]

    pub sort_by-ties :
        (x : A) (xs : List A)
        → Good x
        → All Good xs
        → ties compare x (sort_by compare xs) ≡ ties compare x xs
    unfolding ties sort_by
    sort_by-ties x [] gx g = refl
    sort_by-ties x (y ∷ ys) gx (gy, g) =
        ties-insert_sorted x y (sort_by compare ys) gx gy (sort_by-All Good ys g)
        ∙ ap (λ l. if is_eq (compare x y) then y ∷ l else l) (sort_by-ties x ys gx g)

All-of : {A : Type 0} (P : A → Type 0) (xs : List A) → ((x : A) → In x xs → P x) → All P xs
All-of P [] h = tt
All-of P (x ∷ xs) h = (h x here, All-of P xs (λ y i. h y (there i)))

pub sort_by-IsStableSort : {A : Type 0} → IsStableSort {A = A} sort_by
sort_by-IsStableSort = record {
  perm = λ compare xs total. sort_by-perm compare xs;
  ordered =
      λ compare xs total. sort_by-Sorted compare total xs (All-of (λ x. In x xs) xs (λ x i. i));
  stable = λ compare xs total x i.
      sort_by-ties compare total x xs i (All-of (λ x. In x xs) xs (λ x i. i));
}
