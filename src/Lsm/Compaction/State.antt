-- ===== src/Lsm/Compaction/State.antt =====
-- The state of the merge loop: each iterator with something left has its next smaller entry in the
-- heap, and a round takes the least of all that is left.
use exepense_db.Base.{
  ℕ, zero, suc, ◌+◌, ◌<◌, ◌≤◌, ◌≡◌, ◌≢◌, ◌⊎◌, inl, inr, refl, sym, ap, ◌∙◌, subst, Option, none,
  some, List, [], ◌∷◌, length, arith,
}
use native.Mathlib.Decide.{ℕ_discrete}
use exepense_db.Base.Order.{Bytes, ◌≺◌, cmp_trans}
use exepense_db.Base.Members.{
  In, here, there, Picked, Picked-In, In-Picked, Picked-cases, length-Picked, nth, set, total,
  length-set, nth-set_self, nth-set_ne, total-set,
}
use exepense_db.Sstable.Block.{BlockEntry}
use exepense_db.Sstable.Table.Sorted.{IsSorted, Above}
use exepense_db.Sstable.Table.Rows.{Row}
use exepense_db.Lsm.Compaction.{HeapEntry, Before, heap_entry, take_next, push_next, value_of}

-- What the builder is given of an entry.
abbrev pub row_of : HeapEntry → Row
row_of e = record { key = e.key; seq = e.seq; value = value_of e.tombstone e.value }

abbrev pub row_of_entry : BlockEntry → Row
row_of_entry x = row_of (heap_entry 0 x)

abbrev pub head : List BlockEntry → Option BlockEntry
head [] = none
head (x ∷ xs) = some x

abbrev pub tail : List BlockEntry → List BlockEntry
tail [] = []
tail (x ∷ xs) = xs

pub take_next_lem :
    (i : ℕ) (its : List (List BlockEntry))
    → i < length its
    → take_next i its ≡ some (head (nth i its), set i (tail (nth i its)) its)
unfolding take_next nth set
take_next_lem i [] h = absurd (omega arith)
take_next_lem zero ([] ∷ its) h = refl
take_next_lem zero ((x ∷ xs) ∷ its) h = refl
take_next_lem (suc i) (l ∷ its) h = rw (take_next_lem i its (omega arith))

-- A heap and iterators that belong together.
pub record Ready (h : List HeapEntry) (its : List (List BlockEntry)) : Type 0 where
  pub in_range : (y : HeapEntry) → In y h → y.source_idx < length its
  pub sorted : (i : ℕ) → IsSorted (nth i its)
  pub headed :
      (i : ℕ) (x : BlockEntry)
      → In x (nth i its)
      → (y : HeapEntry) × In y h × (y.source_idx ≡ i) × (y.key ≺ x.key)

-- A row that is still to come.
pub data Pending (h : List HeapEntry) (its : List (List BlockEntry)) (r : Row) : Type 0 where
  queued : (y : HeapEntry) → In y h → r ≡ row_of y → Pending h its r
  waiting : (i : ℕ) (x : BlockEntry) → In x (nth i its) → r ≡ row_of_entry x → Pending h its r

-- `e` comes before the row.
abbrev pub Leads : HeapEntry → Row → Type 0
Leads e r = (e.key ≺ r.key) ⊎ ((e.key ≡ r.key) × (r.seq ≤ e.seq))

pub Above-In :
    (k : Bytes) {x : BlockEntry} (xs : List BlockEntry) → Above k xs → In x xs → k ≺ x.key
Above-In k [] a m = elim m [ ]
Above-In k (y ∷ xs) (p, a) here = p
Above-In k (y ∷ xs) (p, a) (there m) = Above-In k xs a m

before_below : (e y : HeapEntry) (k : Bytes) → Before e y → y.key ≺ k → e.key ≺ k
before_below e y k (inl b) h = cmp_trans e.key y.key k b h
before_below e y k (inr (b, s)) h = rw b h

-- What `push_next` adds is the head of the iterator.
In-push_next :
    (i : ℕ) (l : List BlockEntry) (h : List HeapEntry) {y : HeapEntry}
    → In y (push_next i (head l) h)
    → In y h ⊎ ((x : BlockEntry) × In x l × (y ≡ heap_entry i x))
In-push_next i [] h m = inl m
In-push_next i (x ∷ l) h here = inr (x, here, refl)
In-push_next i (x ∷ l) h (there m) = inl m

stays :
    (i : ℕ) (l : List BlockEntry) {h : List HeapEntry} {y : HeapEntry}
    → In y h
    → In y (push_next i (head l) h)
stays i [] m = m
stays i (x ∷ l) m = there m

In-tail : (l : List BlockEntry) {x : BlockEntry} → In x (tail l) → In x l
In-tail [] m = m
In-tail (a ∷ l) m = there m

-- An entry of an iterator is the head, which is pushed, or behind it and greater.
In-split :
    (i : ℕ) (l : List BlockEntry) (h : List HeapEntry) {x : BlockEntry}
    → In x l
    → In (heap_entry i x) (push_next i (head l) h) ⊎ In x (tail l)
In-split i [] h m = elim m [ ]
In-split i (a ∷ l) h here = inl here
In-split i (a ∷ l) h (there m) = inr m

behind_head :
    (i : ℕ) (l : List BlockEntry) (h : List HeapEntry) {x : BlockEntry}
    → IsSorted l
    → In x (tail l)
    → (y : HeapEntry) × In y (push_next i (head l) h) × (y.source_idx ≡ i) × (y.key ≺ x.key)
behind_head i [] h s m = elim m [ ]
behind_head i (a ∷ l) h (over, s) m = (heap_entry i a, here, refl, Above-In a.key l over m)

IsSorted-tail : (l : List BlockEntry) → IsSorted l → IsSorted (tail l)
IsSorted-tail [] s = s
IsSorted-tail (x ∷ l) s = s.1

length-push_next :
    (i : ℕ) (l : List BlockEntry) (h : List HeapEntry)
    → length (push_next i (head l) h) + length (tail l) ≡ length h + length l
length-push_next i [] h = refl
length-push_next i (x ∷ l) h = omega arith

-- One round: `e` leaves the heap, and the next entry of its iterator enters.
module _ (e : HeapEntry) (h rest : List HeapEntry) (its : List (List BlockEntry))
    (ready : Ready h its) (removed : Picked e h rest)
    (least : (y : HeapEntry) → In y h → Before e y) where
  abbrev i : ℕ
  i = e.source_idx

  abbrev pub heap_after : List HeapEntry
  heap_after = push_next i (head (nth i its)) rest

  abbrev pub its_after : List (List BlockEntry)
  its_after = set i (tail (nth i its)) its

  bounded : i < length its
  bounded = ready.in_range e (Picked-In removed)

  pub takes : take_next i its ≡ some (head (nth i its), its_after)
  takes = take_next_lem i its bounded

  pub Pending-Leads : (r : Row) → Pending h its r → Leads e r
  Pending-Leads r (queued y m q) = rw q (least y m)
  Pending-Leads r (waiting j x m q) =
      let (y, my, _, below) = ready.headed j x m in
      rw q (inl (before_below e y x.key (least y my) below))

  nth_after :
      (j : ℕ)
      → ((i ≡ j) × (nth j its_after ≡ tail (nth j its))) ⊎ ((i ≢ j) × (nth j its_after ≡ nth j its))
  nth_after j = elim (ℕ_discrete i j) [
    | yes q ↦ inl (
      q,
      subst (λ j. nth j its_after ≡ tail (nth j its)) q
          (nth-set_self i (tail (nth i its)) its bounded),
    )
    | no q ↦ inr (q, nth-set_ne i j (tail (nth i its)) its q)
  ]

  -- What was still to come is the entry taken, or still to come.
  pub Pending-splits : (r : Row) → Pending h its r → (r ≡ row_of e) ⊎ Pending heap_after its_after r
  Pending-splits r (queued y m q) = elim (Picked-cases removed m) [
    | inl same ↦ inl (q ∙ ap row_of same)
    | inr m' ↦ inr (queued y (stays i (nth i its) m') q)
  ]
  Pending-splits r (waiting j x m q) = elim (nth_after j) [
    | inr (ne, k) ↦ inr (waiting j x (rw k m) q)
    | inl (eq, k) ↦ elim (In-split i (nth j its) rest m) [
      | inl m' ↦ inr (queued (heap_entry i x) (rw (← eq) at m') q)
      | inr m' ↦ inr (waiting j x (rw k m') q)
    ]
  ]

  pub Pending-before : (r : Row) → Pending heap_after its_after r → Pending h its r
  Pending-before r (queued y m q) = elim (In-push_next i (nth i its) rest m) [
    | inl m' ↦ queued y (In-Picked removed m') q
    | inr (x, mx, k) ↦ waiting i x mx (q ∙ ap row_of k)
  ]
  Pending-before r (waiting j x m q) = elim (nth_after j) [
    | inr (ne, k) ↦ waiting j x (rw k at m) q
    | inl (eq, k) ↦ waiting j x (In-tail (nth j its) (rw k at m)) q
  ]

  pub Ready-after : Ready heap_after its_after
  Ready-after = record {
    in_range = λ y m. elim (In-push_next i (nth i its) rest m) [
      | inl m' ↦
          omega
            (arith, ready.in_range y (In-Picked removed m'), length-set i (tail (nth i its)) its)
      | inr (x, mx, k) ↦ rw k (omega (arith, bounded, length-set i (tail (nth i its)) its))
    ];
    sorted = λ j. elim (nth_after j) [
      | inr (ne, k) ↦ rw k (ready.sorted j)
      | inl (eq, k) ↦ rw k (IsSorted-tail (nth j its) (ready.sorted j))
    ];
    headed = λ j x m. elim (nth_after j) [
      | inr (ne, k) ↦ still j x ne (ready.headed j x (rw k at m))
      | inl (eq, k) ↦
          subst (λ j. (y : HeapEntry) × In y heap_after × (y.source_idx ≡ j) × (y.key ≺ x.key)) eq
            (behind_head i (nth i its) rest (ready.sorted i) (rw (← eq) at (rw k at m)))
    ];
  }
    where
      still :
          (j : ℕ) (x : BlockEntry)
          → i ≢ j
          → (y : HeapEntry) × In y h × (y.source_idx ≡ j) × (y.key ≺ x.key)
          → (y : HeapEntry) × In y heap_after × (y.source_idx ≡ j) × (y.key ≺ x.key)
      still j x ne (y, m, s, b) = elim (Picked-cases removed m) [
        | inl same ↦ absurd (ne (sym (ap (λ z. z.source_idx) same) ∙ s))
        | inr m' ↦ (y, stays i (nth i its) m', s, b)
      ]

  pub measure_falls : length heap_after + total its_after + 1 ≡ length h + total its
  measure_falls = omega (
    arith,
    length-push_next i (nth i its) rest,
    total-set i (tail (nth i its)) its bounded,
    length-Picked removed,
  )
