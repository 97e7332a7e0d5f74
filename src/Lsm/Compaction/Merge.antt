-- ===== src/Lsm/Compaction/Merge.antt =====
-- The merge loop: it ends, and what it gives the builder is, in key order, the newest version of every
-- key of its sources.
use exepense_db.Base.{
  ℕ, zero, suc, ◌+◌, ◌<◌, ◌≤◌, ◌≡◌, ◌⊎◌, inl, inr, refl, sym, ap, ◌∙◌, Bool, true, false, Option,
  none, some, List, [], ◌∷◌, length, Bool-cases, Option-cases, if◌then◌else◌, arith,
}
use native.Mathlib.Nat.{le_refl}
use exepense_db.Base.Order.{Bytes, cmp, same, eq_of_same, same_refl, ◌≺◌, cmp_refl}
use exepense_db.Base.Members.{In, here, there, Picked, Picked-In, total}
use exepense_db.Sstable.Bloom
use exepense_db.Sstable.Block.{BlockEntry}
use exepense_db.Sstable.Builder.{SsTableBuilder, add}
use exepense_db.Sstable.Table.Sorted.{IsSorted, Above, Above-trans}
use exepense_db.Sstable.Table.Rows.{Row, row_entries, add_rows}
use exepense_db.Lsm.Compaction.{
  HeapEntry, Before, MaxHeap, IsLawful, take_next, push_next, merge_loop, is_last, value_of,
}
use exepense_db.Lsm.Compaction.State.{
  Ready, Pending, queued, waiting, row_of, heap_after, its_after, takes, Pending-Leads,
  Pending-splits, Pending-before, Ready-after, measure_falls,
}

abbrev cons_unless : Bool → Row → List Row → List Row
cons_unless true r rs = rs
cons_unless false r rs = r ∷ rs

abbrev next_last : Option Bytes → HeapEntry → Option Bytes
next_last last e = if is_last last e.key then last else some e.key

-- The rows that the loop gives the builder.
unfoldable pub merge_rows :
    MaxHeap → ℕ → List HeapEntry → List (List BlockEntry) → Option Bytes → Option (List Row)
merge_rows heap zero h its last = none
merge_rows heap (suc fuel) h its last = elim (heap.pop h) [
  | none ↦ some []
  | some (e, rest) ↦ elim (take_next e.source_idx its) [
    | none ↦ none
    | some (x, its') ↦
        elim (merge_rows heap fuel (push_next e.source_idx x rest) its' (next_last last e)) [
          | none ↦ none
          | some rs ↦ some (cons_unless (is_last last e.key) (row_of e) rs)
        ]
  ]
]

-- The rows `out` of a merge that starts after the key `last`: ascending, all of them from what is to
-- come, and for each row to come one that is at least as new.
pub record Merged (h : List HeapEntry) (its : List (List BlockEntry)) (last : Option Bytes)
    (out : List Row) : Type 0 where
  pub sorted : IsSorted (row_entries out)
  pub after : (k : Bytes) → last ≡ some k → Above k (row_entries out)
  pub sound : (r : Row) → In r out → Pending h its r
  pub complete :
      (r : Row)
      → Pending h its r
      → (last ≡ some r.key) ⊎ ((s : Row) × In s out × (s.key ≡ r.key) × (r.seq ≤ s.seq))

-- Nothing to come stands before the last key.
abbrev Follows : List HeapEntry → List (List BlockEntry) → Option Bytes → Type 0
Follows h its last =
    (k : Bytes) → last ≡ some k → (r : Row) → Pending h its r → (k ≺ r.key) ⊎ (k ≡ r.key)

last_cases :
    (last : Option Bytes) (key : Bytes)
    → ((is_last last key ≡ true) × (last ≡ some key)) ⊎ (is_last last key ≡ false)
last_cases none key = inr refl
last_cases (some k) key = elim (Bool-cases (same k key)) [
  | inl hit ↦ inl (hit, ap some (eq_of_same k key hit))
  | inr miss ↦ inr miss
]

module _ (e : HeapEntry) (h rest : List HeapEntry) (its : List (List BlockEntry))
    (ready : Ready h its) (removed : Picked e h rest)
    (least : (y : HeapEntry) → In y h → Before e y) where
  abbrev h' : List HeapEntry
  h' = heap_after e h rest its ready removed least

  abbrev its' : List (List BlockEntry)
  its' = its_after e h rest its ready removed least

  Follows-after : Follows h' its' (some e.key)
  Follows-after k q r p =
      elim (Pending-Leads e h rest its ready removed least r
        (Pending-before e h rest its ready removed least r p)) [
          | inl b ↦ inl (cc)
          | inr (b, s) ↦ inr (cc)
        ]

  covers :
      (out : List Row)
      → Merged h' its' (some e.key) out
      → (r : Row) → Pending h its r
      → (e.key ≡ r.key × (r.seq ≤ e.seq))
        ⊎ ((s : Row) × In s out × (s.key ≡ r.key) × (r.seq ≤ s.seq))
  covers out m r p = elim (Pending-splits e h rest its ready removed least r p) [
    | inl q ↦ inl (rw q (refl, le_refl e.seq))
    | inr p' ↦ elim (m.complete r p') [
      | inr s ↦ inr s
      | inl q ↦ elim (Pending-Leads e h rest its ready removed least r p) [
        | inl b ↦ absurd (not_below (some_inj q) b)
        | inr l ↦ inl l
      ]
    ]
  ]
    where
      some_inj : {a b : Bytes} → some a ≡ some b → a ≡ b
      some_inj q = cc

      not_below : {a b : Bytes} → a ≡ b → a ≺ b → ⊥
      not_below {a} q b = cc (cmp_refl a, ap (cmp a) q)

  before_out :
      (out : List Row) → Merged h' its' (some e.key) out → (r : Row) → In r out → Pending h its r
  before_out out m r i = Pending-before e h rest its ready removed least r (m.sound r i)

  -- A key for the second time: the row is dropped.
  dropped :
      (last : Option Bytes) (out : List Row)
      → last ≡ some e.key
      → Merged h' its' (some e.key) out
      → Merged h its last out
  dropped last out q m = record {
    sorted = m.sorted;
    after = λ k hk. m.after k (sym q ∙ hk);
    sound = before_out out m;
    complete = λ r p. elim (covers out m r p) [
      | inl (same_key, _) ↦ inl (q ∙ ap some same_key)
      | inr s ↦ inr s
    ];
  }

  -- A key for the first time: its row is the newest.
  emitted :
      (last : Option Bytes) (out : List Row)
      → is_last last e.key ≡ false
      → Follows h its last
      → Merged h' its' (some e.key) out
      → Merged h its last (row_of e ∷ out)
  unfolding row_entries
  emitted last out q f m = record {
    sorted = (m.after e.key refl, m.sorted);
    after = λ k hk.
        let b = strictly k hk in (b, Above-trans k e.key (row_entries out) b (m.after e.key refl));
    sound = λ r i. sounds r i;
    complete = λ r p. elim (covers out m r p) [
      | inl (same_key, newer) ↦ inr (row_of e, here, same_key, newer)
      | inr (s, i, same_key, newer) ↦ inr (s, there i, same_key, newer)
    ];
  }
    where
      sounds : (r : Row) → In r (row_of e ∷ out) → Pending h its r
      sounds r here = queued e (Picked-In removed) refl
      sounds r (there i) = before_out out m r i

      strictly : (k : Bytes) → last ≡ some k → k ≺ e.key
      strictly k hk = elim (f k hk (row_of e) (queued e (Picked-In removed) refl)) [
        | inl b ↦ b
        | inr same_key ↦ absurd (cc (ap (λ l. is_last l e.key) hk, same_key, same_refl e.key, q))
      ]

next_last_lem : (last : Option Bytes) (e : HeapEntry) → next_last last e ≡ some e.key
next_last_lem last e = elim (last_cases last e.key) [
  | inl (dup, q) ↦ rw dup q
  | inr fresh ↦ rw fresh
]

merge_rows_step :
    (heap : MaxHeap) (fuel : ℕ) (h rest h' : List HeapEntry) (its its' : List (List BlockEntry))
    (last : Option Bytes) (e : HeapEntry) (x : Option BlockEntry) (out : List Row)
    → heap.pop h ≡ some (e, rest)
    → take_next e.source_idx its ≡ some (x, its')
    → push_next e.source_idx x rest ≡ h'
    → merge_rows heap fuel h' its' (some e.key) ≡ some out
    → merge_rows heap (suc fuel) h its last ≡ some (cons_unless (is_last last e.key) (row_of e) out)
unfolding merge_rows
merge_rows_step heap fuel h rest h' its its' last e x out hp ht hh ran =
    rw (merge_rows, hp, ht, hh, next_last_lem last e, ran)

-- With more rounds than entries, the loop ends without an index out of bounds, and merges.
pub merge_rows-Merged :
    (heap : MaxHeap) (fuel : ℕ) (h : List HeapEntry) (its : List (List BlockEntry))
    (last : Option Bytes)
    → IsLawful heap
    → Ready h its
    → Follows h its last
    → length h + total its < fuel
    → (out : List Row) × (merge_rows heap fuel h its last ≡ some out) × Merged h its last out
unfolding merge_rows row_entries
merge_rows-Merged heap zero h its last law ready f m = absurd (omega arith)
merge_rows-Merged heap (suc fuel) [] its last law ready f m = (
  [],
  rw (merge_rows, law.empty),
  record {
    sorted = tt;
    after = λ k q. tt;
    sound = λ r i. elim i [ ];
    complete = λ r p. absurd (nothing r p);
  },
)
  where
    nothing : (r : Row) → Pending [] its r → ⊥
    nothing r (queued y i q) = elim i [ ]
    nothing r (waiting j x i q) = elim ((ready.headed j x i).1) [ ]
merge_rows-Merged heap (suc fuel) (y ∷ ys) its last law ready f m =
    let p = law.takes y ys in
    let h = y ∷ ys in
    let e = p.entry in
    let (out, ran, merged) =
      merge_rows-Merged heap fuel (heap_after e h p.rest its ready p.removed p.least)
        (its_after e h p.rest its ready p.removed p.least) (some e.key) law
        (Ready-after e h p.rest its ready p.removed p.least)
        (Follows-after e h p.rest its ready p.removed p.least)
        (omega (arith, measure_falls e h p.rest its ready p.removed p.least)) in
    let ran' =
      merge_rows_step heap fuel h p.rest _ its _ last e _ out p.popped
        (takes e h p.rest its ready p.removed p.least) refl ran in
    elim (last_cases last e.key) [
      | inl (dup, q) ↦ (
        out,
        ran' ∙ ap (λ d. some (cons_unless d (row_of e) out)) dup,
        dropped e h p.rest its ready p.removed p.least last out q merged,
      )
      | inr fresh ↦ (
        row_of e ∷ out,
        ran' ∙ ap (λ d. some (cons_unless d (row_of e) out)) fresh,
        emitted e h p.rest its ready p.removed p.least last out fresh f merged,
      )
    ]

module _ {Filter : Type 0} (lib : Bloom.Lib Filter) where
  abbrev given : SsTableBuilder Filter → Option (List Row) → Option (SsTableBuilder Filter)
  given b none = none
  given b (some out) = some (add_rows lib b out)

  given_step :
      (dup : Bool) (e : HeapEntry) (b : SsTableBuilder Filter) (o : Option (List Row))
      → given (if dup then b else add lib b e.key e.seq (value_of e.tombstone e.value)) o
        ≡ given b (elim o [ none ↦ none | some rs ↦ some (cons_unless dup (row_of e) rs) ])
  unfolding add_rows
  given_step true e b none = refl
  given_step true e b (some rs) = refl
  given_step false e b none = refl
  given_step false e b (some rs) = refl

  -- The builder is given the rows, one after the other.
  pub merge_loop-merge_rows :
      (heap : MaxHeap) (fuel : ℕ) (h : List HeapEntry) (its : List (List BlockEntry))
      (b : SsTableBuilder Filter) (last : Option Bytes)
      → merge_loop lib heap fuel h its b last ≡ given b (merge_rows heap fuel h its last)
  unfolding merge_loop merge_rows add_rows
  merge_loop-merge_rows heap zero h its b last = refl
  merge_loop-merge_rows heap (suc fuel) h its b last = elim (Option-cases (heap.pop h)) [
    | inl q ↦ rw (merge_loop, merge_rows, q)
    | inr ((e, rest), q) ↦ elim (Option-cases (take_next e.source_idx its)) [
      | inl r ↦ rw (merge_loop, merge_rows, q, r)
      | inr ((x, its'), r) ↦
          rw (merge_loop, merge_rows, q, r)
            (merge_loop-merge_rows heap fuel (push_next e.source_idx x rest) its'
                (if is_last last e.key
                  then b
                  else add lib b e.key e.seq (value_of e.tombstone e.value))
                (next_last last e)
              ∙ given_step (is_last last e.key) e b
                  (merge_rows heap fuel (push_next e.source_idx x rest) its' (next_last last e)))
    ]
  ]
