-- ===== src/Base/Members.antt =====
-- Membership in a list as a predicate by recursion, the element at a place, and the removal of one
-- element.
use Prim.Native.Nat.{ℕ, zero, suc, ◌+◌, ◌<◌}
use mathlib.Core.Path.{◌≡◌, refl, ap}
use mathlib.Core.Logic.{◌⊎◌, inl, inr}
use mathlib.Core.List.{List, [], ◌∷◌, ◌++◌}
use native.Mathlib.Omega.{arith}
use exepense_db.Base.Lists.{length}

module _ {ℓ} {A : Type ℓ} where
  pub data In (a : A) : List A → Type ℓ where
    here : {xs : List A} → In a (a ∷ xs)
    there : {x : A} {xs : List A} → In a xs → In a (x ∷ xs)

  -- `rest` is the list without one occurrence of `a`.
  pub data Picked (a : A) : List A → List A → Type ℓ where
    first : {xs : List A} → Picked a (a ∷ xs) xs
    later : {x : A} {xs ys : List A} → Picked a xs ys → Picked a (x ∷ xs) (x ∷ ys)

  pub Picked-In : {a : A} {xs ys : List A} → Picked a xs ys → In a xs
  Picked-In first = here
  Picked-In (later p) = there (Picked-In p)

  pub In-Picked : {a b : A} {xs ys : List A} → Picked a xs ys → In b ys → In b xs
  In-Picked first i = there i
  In-Picked (later p) here = here
  In-Picked (later p) (there i) = there (In-Picked p i)

  -- What was in the list is the removed element or still there.
  pub Picked-cases : {a b : A} {xs ys : List A} → Picked a xs ys → In b xs → (b ≡ a) ⊎ In b ys
  Picked-cases first here = inl refl
  Picked-cases first (there i) = inr i
  Picked-cases (later p) here = inr here
  Picked-cases (later p) (there i) = elim (Picked-cases p i) [
    | inl e ↦ inl e
    | inr j ↦ inr (there j)
  ]

  pub length-Picked : {a : A} {xs ys : List A} → Picked a xs ys → length xs ≡ suc (length ys)
  length-Picked first = refl
  length-Picked (later p) = ap suc (length-Picked p)

  pub In-append : {a : A} (xs ys : List A) → In a (xs ++ ys) → In a xs ⊎ In a ys
  In-append [] ys i = inr i
  In-append (x ∷ xs) ys here = inl here
  In-append (x ∷ xs) ys (there i) = elim (In-append xs ys i) [
    | inl j ↦ inl (there j)
    | inr j ↦ inr j
  ]

-- The list at a place in a list of lists; past the end, the empty one.
module _ {ℓ} {A : Type ℓ} where
  unfoldable pub nth : ℕ → List (List A) → List A
  nth i [] = []
  nth zero (l ∷ ls) = l
  nth (suc i) (l ∷ ls) = nth i ls

  unfoldable pub set : ℕ → List A → List (List A) → List (List A)
  set i l [] = []
  set zero l (m ∷ ls) = l ∷ ls
  set (suc i) l (m ∷ ls) = m ∷ set i l ls

  unfoldable pub total : List (List A) → ℕ
  total [] = 0
  total (l ∷ ls) = length l + total ls

  pub length-set : (i : ℕ) (l : List A) (ls : List (List A)) → length (set i l ls) ≡ length ls
  unfolding set
  length-set i l [] = refl
  length-set zero l (m ∷ ls) = refl
  length-set (suc i) l (m ∷ ls) = ap suc (length-set i l ls)

  pub nth-set_self :
      (i : ℕ) (l : List A) (ls : List (List A)) → i < length ls → nth i (set i l ls) ≡ l
  unfolding set nth
  nth-set_self i l [] h = absurd (omega arith)
  nth-set_self zero l (m ∷ ls) h = refl
  nth-set_self (suc i) l (m ∷ ls) h = nth-set_self i l ls (omega arith)

  pub nth-set_ne :
      (i j : ℕ) (l : List A) (ls : List (List A)) → (i ≡ j → ⊥) → nth j (set i l ls) ≡ nth j ls
  unfolding set nth
  nth-set_ne i j l [] h = refl
  nth-set_ne zero zero l (m ∷ ls) h = absurd (h refl)
  nth-set_ne zero (suc j) l (m ∷ ls) h = refl
  nth-set_ne (suc i) zero l (m ∷ ls) h = refl
  nth-set_ne (suc i) (suc j) l (m ∷ ls) h = nth-set_ne i j l ls (λ e. h (ap suc e))

  pub total-set :
      (i : ℕ) (l : List A) (ls : List (List A))
      → i < length ls
      → total (set i l ls) + length (nth i ls) ≡ total ls + length l
  unfolding set nth total
  total-set i l [] h = absurd (omega arith)
  total-set zero l (m ∷ ls) h = omega arith
  total-set (suc i) l (m ∷ ls) h = omega (arith, total-set i l ls (omega arith))
