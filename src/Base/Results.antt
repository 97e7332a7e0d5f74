-- ===== src/Base/Results.antt =====
-- `std::result::Result<A, E>`, and the `?` operator as bind.
use mathlib.Core.Path.{◌≡◌, refl}
use mathlib.Core.Logic.{◌⊎◌, inl, inr}

pub data Result {ℓ κ} (E : Type ℓ) (A : Type κ) : Type (ℓ ⊔ κ) where
  err : E → Result E A
  ok : A → Result E A

module _ {ℓ κ μ} {E : Type ℓ} {A : Type κ} {B : Type μ} where
  infixl 5 ◌>>=◌
  abbrev pub ◌>>=◌ : Result E A → (A → Result E B) → Result E B
  err w >>= k = err w
  ok x >>= k = k x

  pub bind_cong :
      (m : Result E A) {f g : A → Result E B} → ((a : A) → f a ≡ g a) → (m >>= f) ≡ (m >>= g)
  bind_cong (err w) h = refl
  bind_cong (ok x) h = h x

  -- A chain that succeeds has passed its first step.
  pub >>=-eq-ok :
      (first : Result E A) (k : A → Result E B) {y : B}
      → (first >>= k) ≡ ok y
      → (x : A) × (first ≡ ok x) × (k x ≡ ok y)
  >>=-eq-ok (err w) k h = cc
  >>=-eq-ok (ok x) k h = (x, refl, h)

pub bind_assoc {ℓ κ μ ν} :
    {E : Type ℓ} {A : Type κ} {B : Type μ} {C : Type ν} (m : Result E A) (f : A → Result E B)
    (g : B → Result E C)
    → ((m >>= f) >>= g) ≡ (m >>= λ a. f a >>= g)
bind_assoc (err w) f g = refl
bind_assoc (ok x) f g = refl

pub ok-injective {ℓ κ} :
    {E : Type ℓ} {A : Type κ} {a b : A} → ◌≡◌ {A = Result E A} (ok a) (ok b) → a ≡ b
ok-injective h = cc

pub Result-cases {ℓ κ} :
    {E : Type ℓ} {A : Type κ} (x : Result E A) → ((a : A) × (x ≡ ok a)) ⊎ ((e : E) × (x ≡ err e))
Result-cases (ok a) = inl (a, refl)
Result-cases (err e) = inr (e, refl)
