-- ===== src/Lsm/Compaction/Sources.antt =====
-- The whole merge of crates/lsm/src/compaction.rs, from the iterators of the tables.
use exepense_db.Base.{
  ℕ, zero, suc, ◌+◌, ◌<◌, ◌≤◌, ◌≡◌, ◌⊎◌, inl, inr, refl, sym, ap, ◌∙◌, subst, Option, none, some,
  List, [], ◌∷◌, length, All, arith,
}
use exepense_db.Base.Order.{◌≺◌}
use exepense_db.Base.Members.{In, here, there, nth, total}
use exepense_db.Sstable.Bloom
use exepense_db.Sstable.Block.{BlockEntry}
use exepense_db.Sstable.Builder
use exepense_db.Sstable.Table.Sorted.{IsSorted}
use exepense_db.Sstable.Table.Rows.{Row, row_entries, add_rows}
use exepense_db.Lsm.Compaction.{HeapEntry, MaxHeap, IsLawful, heap_entry, fill, merge_all}
use exepense_db.Lsm.Compaction.State.{
  Ready, Pending, queued, waiting, row_of, row_of_entry, Above-In,
}
use exepense_db.Lsm.Compaction.Merge.{Merged, merge_rows, merge_rows-Merged, merge_loop-merge_rows}

-- A row of the sources.
pub record From (its : List (List BlockEntry)) (r : Row) : Type 0 where
  pub source : ℕ
  pub entry : BlockEntry
  pub member : In entry (nth source its)
  pub row : r ≡ row_of_entry entry

-- The rows are in key order and come from the sources, and no source has a newer version of a key than
-- the row of that key, which is there.
pub record NewestOf (its : List (List BlockEntry)) (rows : List Row) : Type 0 where
  pub sorted : IsSorted (row_entries rows)
  pub sound : (r : Row) → In r rows → From its r
  pub complete : (r : Row) → From its r → (s : Row) × In s rows × (s.key ≡ r.key) × (r.seq ≤ s.seq)

-- What `fill` leaves, where the first iterator has the number `k`.
record Filled (k : ℕ) (its : List (List BlockEntry)) (h : List HeapEntry)
    (its' : List (List BlockEntry)) : Type 0 where
  same_length : length its' ≡ length its
  measure : length h + total its' ≡ total its
  in_range : (y : HeapEntry) → In y h → y.source_idx < k + length its
  sorted : (i : ℕ) → IsSorted (nth i its')
  headed :
      (i : ℕ) (x : BlockEntry)
      → In x (nth i its')
      → (y : HeapEntry) × In y h × (y.source_idx ≡ k + i) × (y.key ≺ x.key)
  from_heap : (y : HeapEntry) → In y h → From its (row_of y)
  from_rest : (i : ℕ) (x : BlockEntry) → In x (nth i its') → In x (nth i its)
  all_there :
      (i : ℕ) (x : BlockEntry)
      → In x (nth i its)
      → ((y : HeapEntry) × In y h × (row_of y ≡ row_of_entry x)) ⊎ In x (nth i its')

next_source :
    {l : List BlockEntry} {its : List (List BlockEntry)} {r : Row} → From its r → From (l ∷ its) r
unfolding nth
next_source f = record { source = suc f.source; entry = f.entry; member = f.member; row = f.row }

module _ (k : ℕ) (its : List (List BlockEntry)) where
  abbrev h : List HeapEntry
  h = (fill (k + 1) its).0

  abbrev r : List (List BlockEntry)
  r = (fill (k + 1) its).1

  skips : Filled (k + 1) its h r → Filled k ([] ∷ its) h ([] ∷ r)
  unfolding nth total
  skips f = record {
    same_length = ap suc f.same_length;
    measure = omega (arith, f.measure);
    in_range = λ y m. omega (arith, f.in_range y m);
    sorted = λ i. sorts i;
    headed = λ i x m. heads i x m;
    from_heap = λ y m. next_source (f.from_heap y m);
    from_rest = λ i x m. rests i x m;
    all_there = λ i x m. theres i x m;
  }
    where
      sorts : (i : ℕ) → IsSorted (nth i ([] ∷ r))
      sorts zero = tt
      sorts (suc i) = f.sorted i

      heads :
          (i : ℕ) (x : BlockEntry)
          → In x (nth i ([] ∷ r))
          → (y : HeapEntry) × In y h × (y.source_idx ≡ k + i) × (y.key ≺ x.key)
      heads zero x m = elim m [ ]
      heads (suc i) x m = let (y, my, s, b) = f.headed i x m in (y, my, omega (arith, s), b)

      rests : (i : ℕ) (x : BlockEntry) → In x (nth i ([] ∷ r)) → In x (nth i ([] ∷ its))
      rests zero x m = m
      rests (suc i) x m = f.from_rest i x m

      theres :
          (i : ℕ) (x : BlockEntry)
          → In x (nth i ([] ∷ its))
          → ((y : HeapEntry) × In y h × (row_of y ≡ row_of_entry x)) ⊎ In x (nth i ([] ∷ r))
      theres zero x m = elim m [ ]
      theres (suc i) x m = f.all_there i x m

  starts :
      (a : BlockEntry) (l : List BlockEntry)
      → IsSorted (a ∷ l)
      → Filled (k + 1) its h r
      → Filled k ((a ∷ l) ∷ its) (heap_entry k a ∷ h) (l ∷ r)
  unfolding nth total
  starts a l (over, s) f = record {
    same_length = ap suc f.same_length;
    measure = omega (arith, f.measure);
    in_range = λ y m. ranges y m;
    sorted = λ i. sorts i;
    headed = λ i x m. heads i x m;
    from_heap = λ y m. froms y m;
    from_rest = λ i x m. rests i x m;
    all_there = λ i x m. theres i x m;
  }
    where
      ranges :
          (y : HeapEntry) → In y (heap_entry k a ∷ h) → y.source_idx < k + length ((a ∷ l) ∷ its)
      ranges y here = omega arith
      ranges y (there m) = omega (arith, f.in_range y m)

      sorts : (i : ℕ) → IsSorted (nth i (l ∷ r))
      sorts zero = s
      sorts (suc i) = f.sorted i

      heads :
          (i : ℕ) (x : BlockEntry)
          → In x (nth i (l ∷ r))
          → (y : HeapEntry) × In y (heap_entry k a ∷ h) × (y.source_idx ≡ k + i) × (y.key ≺ x.key)
      heads zero x m = (heap_entry k a, here, omega arith, Above-In a.key l over m)
      heads (suc i) x m = let (y, my, q, b) = f.headed i x m in (y, there my, omega (arith, q), b)

      froms : (y : HeapEntry) → In y (heap_entry k a ∷ h) → From ((a ∷ l) ∷ its) (row_of y)
      froms y here = record { source = 0; entry = a; member = here; row = refl }
      froms y (there m) = next_source (f.from_heap y m)

      rests : (i : ℕ) (x : BlockEntry) → In x (nth i (l ∷ r)) → In x (nth i ((a ∷ l) ∷ its))
      rests zero x m = there m
      rests (suc i) x m = f.from_rest i x m

      first_there :
          {x : BlockEntry}
          → In x (a ∷ l)
          → ((y : HeapEntry) × In y (heap_entry k a ∷ h) × (row_of y ≡ row_of_entry x)) ⊎ In x l
      first_there here = inl (heap_entry k a, here, refl)
      first_there (there m) = inr m

      theres :
          (i : ℕ) (x : BlockEntry)
          → In x (nth i ((a ∷ l) ∷ its))
          → ((y : HeapEntry) × In y (heap_entry k a ∷ h) × (row_of y ≡ row_of_entry x))
            ⊎ In x (nth i (l ∷ r))
      theres zero x m = first_there m
      theres (suc i) x m = elim (f.all_there i x m) [
        | inl (y, my, q) ↦ inl (y, there my, q)
        | inr m' ↦ inr m'
      ]

fill-Filled :
    (k : ℕ) (its : List (List BlockEntry))
    → All IsSorted its
    → Filled k its (fill k its).0 (fill k its).1
unfolding fill nth total
fill-Filled k [] s = record {
  same_length = refl;
  measure = refl;
  in_range = λ y m. elim m [ ];
  sorted = λ i. tt;
  headed = λ i x m. elim (nothing m) [ ];
  from_heap = λ y m. elim m [ ];
  from_rest = λ i x m. m;
  all_there = λ i x m. elim (nothing m) [ ];
}
  where
    nothing : {x : BlockEntry} → In x [] → ⊥
    nothing m = elim m [ ]
fill-Filled k ([] ∷ its) (s, ss) = skips k its (fill-Filled (k + 1) its ss)
fill-Filled k ((a ∷ l) ∷ its) (s, ss) = starts k its a l s (fill-Filled (k + 1) its ss)

module _ {k : ℕ} {its its' : List (List BlockEntry)} {h : List HeapEntry} where
  Pending-From : Filled k its h its' → (r : Row) → Pending h its' r → From its r
  Pending-From f r (queued y m q) = rw q (f.from_heap y m)
  Pending-From f r (waiting i x m q) = record {
    source = i;
    entry = x;
    member = f.from_rest i x m;
    row = q;
  }

  From-Pending : Filled k its h its' → (r : Row) → From its r → Pending h its' r
  From-Pending f r c = elim (f.all_there c.source c.entry c.member) [
    | inl (y, m, q) ↦ queued y m (c.row ∙ sym q)
    | inr m ↦ waiting c.source c.entry m c.row
  ]

Filled-Ready :
    {its its' : List (List BlockEntry)} {h : List HeapEntry} → Filled 0 its h its' → Ready h its'
Filled-Ready f = record {
  in_range = λ y m. omega (arith, f.in_range y m, f.same_length);
  sorted = f.sorted;
  headed = λ i x m. let (y, my, s, b) = f.headed i x m in (y, my, omega (arith, s), b);
}

Merged-NewestOf :
    {its its' : List (List BlockEntry)} {h : List HeapEntry} {rows : List Row}
    → Filled 0 its h its'
    → Merged h its' none rows
    → NewestOf its rows
Merged-NewestOf f m = record {
  sorted = m.sorted;
  sound = λ r i. Pending-From f r (m.sound r i);
  complete = λ r c. elim (m.complete r (From-Pending f r c)) [ inl q ↦ cc | inr s ↦ s ];
}

abbrev rows_or_nil : Option (List Row) → List Row
rows_or_nil none = []
rows_or_nil (some rows) = rows

-- The rows of the merge of `its`.
unfoldable pub merged_rows : MaxHeap → List (List BlockEntry) → List Row
merged_rows heap its =
    let (h, its') = fill 0 its in rows_or_nil (merge_rows heap (total its + 1) h its' none)

none_ne {ℓ} : {A : Type ℓ} {a : A} → none ≡ some a → ⊥
none_ne q = cc

or_nil_lem :
    (its : List (List BlockEntry)) (o : Option (List Row)) (rows : List Row)
    → o ≡ some rows
    → NewestOf its rows
    → (o ≡ some (rows_or_nil o)) × NewestOf its (rows_or_nil o)
or_nil_lem its none rows q n = absurd (none_ne q)
or_nil_lem its (some rs) rows q n = (refl, subst (NewestOf its) (sym (ap rows_or_nil q)) n)

module _ (heap : MaxHeap) (its : List (List BlockEntry)) (law : IsLawful heap)
    (s : All IsSorted its) where
  merged_lem :
      (merge_rows heap (total its + 1) (fill 0 its).0 (fill 0 its).1 none
        ≡ some (merged_rows heap its))
      × NewestOf its (merged_rows heap its)
  unfolding merged_rows
  merged_lem =
      let f = fill-Filled 0 its s in
      let (rows, ran, merged) =
        merge_rows-Merged heap (total its + 1) (fill 0 its).0 (fill 0 its).1 none law
          (Filled-Ready f) (λ k q. absurd (none_ne q)) (omega (arith, f.measure)) in
      or_nil_lem its _ rows ran (Merged-NewestOf f merged)

  -- The merge of iterators that are each in key order ends, with no index out of bounds. The builder is
  -- given rows in key order, all from the iterators, and for each key of an iterator a row that is at
  -- least as new as any version of the key. The heap may choose among equal entries.
  pub merge_all-NewestOf :
      {Filter : Type 0} (lib : Bloom.Lib Filter)
      → (merge_all lib heap its ≡ some (add_rows lib (Builder.new lib 1000) (merged_rows heap its)))
        × NewestOf its (merged_rows heap its)
  unfolding merge_all
  merge_all-NewestOf lib =
      let (ran, newest) = merged_lem in
      (
        rw (
          merge_loop-merge_rows lib heap (total its + 1) (fill 0 its).0 (fill 0 its).1
              (Builder.new lib 1000) none,
          ran,
        ),
        newest,
      )
