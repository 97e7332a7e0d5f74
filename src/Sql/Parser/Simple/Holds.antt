-- ===== src/Sql/Parser/Simple/Holds.antt =====
-- The laws assumed of nom hold of the parsers that the tests run.
use exepense_db.Base.{
  ℕ, zero, suc, ◌<◌, ◌≤◌, ◌≡◌, ◌≢◌, refl, ap, ◌∙◌, Bool, true, false, Option, none, some, List, [],
  ◌∷◌, ◌++◌, All, ==_refl, ne→==, length, arith,
}
use exepense_db.Base.Order.{Bytes}
use exepense_db.Sql.Parser.{Parser, ◌>>=◌}
use exepense_db.Sql.Parser.Lawful.{IsLawful, Stops, lower, starts_number, or_none}
use exepense_db.Sql.Parser.Simple.{
  exact, span, not_none, first_of, choice, optional, many, or_last, next, items, one_digit, simple,
}

span-Stops : (P : ℕ → Bool) (rest : Bytes) → Stops P rest → span P rest ≡ (rest, [])
unfolding span Stops
span-Stops P [] h = refl
span-Stops P (c ∷ rest) (a, f) = rw f refl

span-append :
    (P : ℕ → Bool) (s rest : Bytes)
    → All (λ c. (c < 128) × (P c ≡ true)) s
    → Stops P rest
    → span P (s ++ rest) ≡ (rest, s)
unfolding span
span-append P [] rest a h = span-Stops P rest h
span-append P (c ∷ s) rest ((l, t), a) h = rw (span-append P s rest a h, t) refl

some-not_none : (rest s : Bytes) → s ≢ [] → not_none (rest, s) ≡ some (rest, s)
unfolding not_none
some-not_none rest [] n = absurd (n refl)
some-not_none rest (c ∷ s) n = refl

exact_hit : (f : ℕ → ℕ) (word rest : Bytes) → exact f word (word ++ rest) ≡ some (rest, word)
unfolding exact
exact_hit f [] rest = refl
exact_hit f (c ∷ word) rest = rw (==_refl (f c), exact_hit f word rest) refl

exact_miss :
    (f : ℕ → ℕ) (c d : ℕ) (word rest : Bytes) → f c ≢ f d → exact f (c ∷ word) (d ∷ rest) ≡ none
unfolding exact
exact_miss f c d word rest n = rw (ne→== (f c) (f d) n) refl

one_digit_miss : (i : Bytes) → starts_number i ≡ false → one_digit i ≡ none
one_digit_miss [] h = refl
one_digit_miss (c ∷ i) h = ground arith

optional-or_none :
    {A : Type 0} (i : Bytes) (o : Option (Bytes × A)) → optional i o ≡ some (or_none i o)
unfolding optional
optional-or_none i none = refl
optional-or_none i (some r) = refl

many_stop : {A : Type 0} (n : ℕ) (p : Parser A) (i : Bytes) → p i ≡ none → many n p i ≡ (i, [])
unfolding many
many_stop zero p i h = refl
many_stop (suc n) p i h = rw (many, h) refl

>>=_same :
    {A B : Type 0} (o : Option A) (f g : A → Option B) → ((a : A) → f a ≡ g a) → o >>= f ≡ (o >>= g)
>>=_same none f g h = refl
>>=_same (some a) f g h = h a

next_same :
    {A B : Type 0} (n : ℕ) (j : Bytes) (b : B) (o : Option (Bytes × A))
    (f g : Bytes → Option (Bytes × List B))
    → ((k : Bytes) → length k < n → f k ≡ g k)
    → next n j b o f ≡ next n j b o g
unfolding next
next_same n j b none f g h = refl
next_same n j b (some (k, a)) f g h = ground (arith, h k)

-- Fuel beyond the length of the text changes nothing.
items_enough :
    {A B : Type 0} (n m : ℕ) (s : Parser A) (p : Parser B) (i : Bytes)
    → length i < n
    → length i < m
    → items n s p i ≡ items m s p i
unfolding items
items_enough zero m s p i l k = absurd (omega (arith, l))
items_enough (suc n) zero s p i l k = absurd (omega (arith, k))
items_enough (suc n) (suc m) s p i l k = >>=_same (p i) _ _ (λ (j, b). ap some (
    next_same (length i) j b (s j) _ _
      (λ x lx. items_enough n m s p x (omega (arith, l, lx)) (omega (arith, k, lx)))))

next_more :
    {A B : Type 0} (n : ℕ) (j k : Bytes) (b : B) (a : A) (f : Bytes → Option (Bytes × List B))
    → length k < n
    → next n j b (some (k, a)) f ≡ or_last j b (f k)
unfolding next
next_more n j k b a f l = ground arith

items_more :
    {A B : Type 0} (s : Parser A) (p : Parser B) (i j k : Bytes) (b : B) (a : A)
    (o : Option (Bytes × List B))
    → p i ≡ some (j, b)
    → s j ≡ some (k, a)
    → length j ≤ length i
    → length k < length j
    → items (suc (length k)) s p k ≡ o
    → items (suc (length i)) s p i ≡ some (or_last j b o)
unfolding items
items_more s p i j k b a o hp hs l m h =
    ap (λ r. r >>= λ (x, y). some (next (length i) x y (s x) (λ z. items (length i) s p z))) hp
    ∙ ap (λ r. some (next (length i) j b r (λ z. items (length i) s p z))) hs
    ∙ ap some (
        next_more (length i) j k b a (λ z. items (length i) s p z) (omega (arith, l, m))
        ∙ ap (or_last j b) (
            items_enough (length i) (suc (length k)) s p k (omega (arith, l, m)) (omega arith) ∙ h))

items_fail :
    {A B : Type 0} (n : ℕ) (s : Parser A) (p : Parser B) (i : Bytes)
    → p i ≡ none
    → items (suc n) s p i ≡ none
unfolding items
items_fail n s p i h = rw h refl

items_one :
    {A B : Type 0} (n : ℕ) (s : Parser A) (p : Parser B) (i j : Bytes) (b : B)
    → p i ≡ some (j, b)
    → s j ≡ none
    → items (suc n) s p i ≡ some (j, b ∷ [])
unfolding items next
items_one n s p i j b h k = rw (h, k) refl

pub simple-IsLawful : IsLawful simple
unfolding choice exact not_none first_of or_last
simple-IsLawful = record {
  map_is = λ p f i. refl;
  map_opt_is = λ p f i. refl;
  delimited_is = λ p q r i. refl;
  preceded_is = λ p q i. refl;
  tuple_is = λ p q i. refl;
  opt_is = λ p i. optional-or_none i (p i);
  alt_one = λ p i. alone (p i);
  alt_first = λ p q ps i r h. rw h refl;
  alt_next = λ p q ps i h. rw h refl;
  many0_stop = λ p i h. ap some (many_stop (length i) p i h);
  separated_fail = λ s p i h. items_fail (length i) s p i h;
  separated_one = λ s p i j b h k. items_one (length i) s p i j b h k;
  separated_more =
      λ s p i j k l b a bs hp hs lj lk h. items_more s p i j k b a (some (l, bs)) hp hs lj lk h;
  separated_last = λ s p i j k b a hp hs lj lk h.
      items_more s p i j k b a none hp hs lj lk (items_fail (length k) s p k h);
  multispace0_is = λ i. ([], refl);
  char_hit = λ c rest. rw (==_refl c) refl;
  char_miss = λ c d rest n. rw (ne→== c d n) refl;
  char_end = λ c. refl;
  take_while1_hit = λ P s rest n a h. rw (span-append P s rest a h) (some-not_none rest s n);
  take_while1_miss = λ P rest h. rw (span-Stops P rest h) refl;
  tag_hit = λ word rest. exact_hit (λ c. c) word rest;
  tag_miss = λ c d word rest n. exact_miss (λ c. c) c d word rest n;
  tag_no_case_hit = λ word rest. exact_hit lower word rest;
  tag_no_case_miss = λ c d word rest n. exact_miss lower c d word rest n;
  tag_no_case_end = λ c word. refl;
  double_miss = one_digit_miss;
  trim_is = λ c d s a b e f. refl;
  alphanumeric_is = λ c l. refl;
}
  where
    alone : {A : Type 0} (o : Option A) → first_of o none ≡ o
    alone none = refl
    alone (some a) = refl
