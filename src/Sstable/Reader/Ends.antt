-- ===== src/Sstable/Reader/Ends.antt =====
-- The loops of crates/sstable/src/reader.rs on a file of any bytes.
use exepense_db.Base.{
  Result-cases, ℕ, zero, suc, ◌+◌, ◌-◌, ◌<◌, ◌≤◌, ◌≡◌, refl, ap, Bool, true, false, not, ◌&&◌, ◌⊎◌,
  inl, inr, Bool-cases, Option, none, some, List, [], ◌∷◌, length, slice, drop, ltb, leb,
  if◌then◌else◌, Result, ok, err, arith,
}
use exepense_db.Base.Order.{Bytes, same}
use exepense_db.Base.Words.{from_le}
use exepense_db.Sstable.Error.{SsTableError, Fault, fails}
use exepense_db.Sstable.Bloom
use exepense_db.Sstable.Block
use exepense_db.Sstable.Block.{BlockEntry, BlockIterator, parse_entry, next_match}
use exepense_db.Sstable.Reader.{
  SsTableReader, SsTableIter, slice_checked, scan, find_loop, iter_next, find_block, scan_block,
  iter, get,
}
use exepense_db.Sstable.Reader.Drain.{drain}

-- The loop has a value.
abbrev Ends : {A : Type 0} → Option A → Type 0
Ends {A = A} o = (a : A) × (o ≡ some a)

if-Ends : {A : Type 0} {o p : Option A} (b : Bool) → Ends o → Ends p → Ends (if b then o else p)
if-Ends true e f = e
if-Ends false e f = f

parse_entry_takes : (buf : Bytes) (e : BlockEntry) (n : ℕ) → parse_entry buf ≡ ok (e, n) → 15 ≤ n
unfolding parse_entry
parse_entry_takes buf e n h = ground arith

-- A step of the block iterator that returns an entry.
record Advanced (it it' : BlockIterator) : Type 0 where
  same_contents : it'.contents ≡ it.contents
  moved : it.pos + 15 ≤ it'.pos
  was_inside : it.pos < length it.contents

next-Advanced :
    (it : BlockIterator)
    → ((w : SsTableError) × (Block.next it ≡ (some (err w), it)))
      ⊎ ((Block.next it ≡ (none, it))
          ⊎ ((e : BlockEntry) × (it' : BlockIterator) × (Block.next it ≡ (some (ok e), it'))
              × Advanced it it'))
unfolding Block.next
next-Advanced it = elim (Bool-cases (leb (length it.contents) it.pos)) [
  | inl t ↦ inr (inl (rw (Block.next, t) refl))
  | inr f ↦ elim (Result-cases (parse_entry (drop it.pos it.contents))) [
    | inr (w, q) ↦ inl (w, rw (Block.next, f, q) refl)
    | inl ((e, n), q) ↦ inr (
        inr (
          e,
          record it { pos = it.pos + n },
          rw (Block.next, f, q) refl,
          record {
            same_contents = refl;
            moved = omega (arith, parse_entry_takes (drop it.pos it.contents) e n q);
            was_inside = ground (arith, f);
          },
        ))
  ]
]

scan-Ends :
    (fuel : ℕ) (it : BlockIterator) (key : Bytes) (read_seq : ℕ) (result : Option Bytes)
    → length it.contents - it.pos < fuel
    → Ends (scan fuel it key read_seq result)
unfolding scan
scan-Ends zero it key read_seq result h = absurd (omega (arith, h))
scan-Ends (suc fuel) it key read_seq result h = elim (next-Advanced it) [
  | inl (w, q) ↦ (err (fails w), rw (scan, ap (λ p. p.0) q) refl)
  | inr (inl q) ↦ (ok result, rw (scan, ap (λ p. p.0) q) refl)
  | inr (inr (e, it', q, a)) ↦
      let near : length it'.contents - it'.pos < fuel =
        omega (arith, h, a.moved, a.was_inside, ap length a.same_contents) in
      let (x, p) =
        if-Ends (same e.key key && leb e.seq read_seq)
          (if-Ends e.tombstone (ok none, refl)
            (scan-Ends fuel it' key read_seq (some e.value) near))
          (scan-Ends fuel it' key read_seq result near) in
      (x, rw (scan, ap (λ p. p.0) q, ap (λ p. p.1) q) p)
]

find_loop-Ends :
    (fuel : ℕ) (index_buf : Bytes) (pos : ℕ) (key : Bytes)
    → length index_buf - pos < fuel
    → Ends (find_loop fuel index_buf pos key)
unfolding find_loop
find_loop-Ends zero index_buf pos key h = absurd (omega (arith, h))
find_loop-Ends (suc fuel) index_buf pos key h = elim (Bool-cases (leb (length index_buf) pos)) [
  | inl t ↦ (none, rw (find_loop, t) refl)
  | inr f ↦
      let key_start = pos + 2 in
      let key_end = key_start + from_le (slice pos key_start index_buf) in
      let outside : pos < length index_buf = ground (arith, f) in
      let on = find_loop-Ends fuel index_buf (key_end + 12) key (omega (arith, h, outside)) in
      if-Ends (leb (length index_buf) pos) (none, refl)
        (if-Ends (ltb (length index_buf - pos) 2) (none, refl)
          (if-Ends
            (ltb (length index_buf - key_start) (from_le (slice pos key_start index_buf) + 12))
            (none, refl) (if-Ends _ (_, refl) on)))
]

slice_checked_inside : (i j : ℕ) (b w : Bytes) → slice_checked i j b ≡ ok w → j ≤ length b
unfolding slice_checked
slice_checked_inside i j b w h = ground arith

-- A step of the iteration that returns an entry.
record Iterated (it it' : SsTableIter) : Type 0 where
  same_mmap : it'.mmap ≡ it.mmap
  moved : it.pos + 15 ≤ it'.pos
  was_inside : it.pos < length it.mmap

iter_next-Iterated :
    (it : SsTableIter)
    → (iter_next it ≡ (none, it))
      ⊎ (((w : Fault) × (iter_next it ≡ (some (err w), it)))
          ⊎ ((e : BlockEntry) × (it' : SsTableIter) × (iter_next it ≡ (some (ok e), it'))
              × Iterated it it'))
unfolding iter_next
iter_next-Iterated it = elim (Bool-cases (leb it.data_end it.pos)) [
  | inl t ↦ inl (rw (iter_next, t) refl)
  | inr f ↦ elim (Result-cases (slice_checked it.pos it.data_end it.mmap)) [
    | inr (w, q) ↦ inr (inl (w, rw (iter_next, f, q) refl))
    | inl (buf, q) ↦ elim (next-Advanced (record { contents = buf; pos = 0 })) [
      | inl (w, k) ↦ inr (inl (fails w, rw (iter_next, f, q, k) refl))
      | inr (inl k) ↦ inl (rw (iter_next, f, q, k) refl)
      | inr (inr (e, jt, k, a)) ↦ inr (
          inr (
            e,
            record it { pos = it.pos + (15 + length e.key + length e.value) },
            rw (iter_next, f, q, k) refl,
            record {
              same_mmap = refl;
              moved = omega arith;
              was_inside = ground (arith, f, slice_checked_inside it.pos it.data_end it.mmap buf q);
            },
          ))
    ]
  ]
]

drain-Ends : (fuel : ℕ) (it : SsTableIter) → length it.mmap - it.pos < fuel → Ends (drain fuel it)
unfolding drain
drain-Ends zero it h = absurd (omega (arith, h))
drain-Ends (suc fuel) it h = elim (iter_next-Iterated it) [
  | inl q ↦ (([], none), rw (drain, ap (λ p. p.0) q) refl)
  | inr (inl (w, q)) ↦ (([], some w), rw (drain, ap (λ p. p.0) q) refl)
  | inr (inr (e, it', q, a)) ↦
      let ((es, w), p) =
        drain-Ends fuel it' (omega (arith, h, a.moved, a.was_inside, ap length a.same_mmap)) in
      ((e ∷ es, w), rw (drain, ap (λ p. p.0) q, ap (λ p. p.1) q, p) refl)
]

module _ {Filter : Type 0} where
  scan_block-Ends :
      (r : SsTableReader Filter) (key : Bytes) (read_seq : ℕ) (found : Option (ℕ × ℕ))
      → Ends (scan_block r key read_seq (some found))
  unfolding scan_block
  scan_block-Ends r key read_seq none = (ok none, refl)
  scan_block-Ends r key read_seq (some (offset, len)) =
      elim (Result-cases (slice_checked offset (offset + len) r.mmap)) [
        | inr (w, q) ↦ (err w, rw (scan_block, q) refl)
        | inl (block, q) ↦
            let (x, p) =
              scan-Ends (length block + 1) (record { contents = block; pos = 0 }) key read_seq none
                (omega arith) in
            (x, rw (scan_block, q) p)
      ]

  find_block-Ends :
      (r : SsTableReader Filter) (key : Bytes)
      → ((w : Fault) × (find_block r key ≡ err w))
        ⊎ ((found : Option (ℕ × ℕ)) × (find_block r key ≡ ok (some found)))
  unfolding find_block
  find_block-Ends r key =
      elim (Result-cases
        (slice_checked r.footer.index_offset (r.footer.index_offset + r.footer.index_len) r.mmap)) [
          | inr (w, q) ↦ inl (w, rw (find_block, q) refl)
          | inl (index_buf, q) ↦
              let (x, p) = find_loop-Ends (length index_buf + 1) index_buf 0 key (omega arith) in
              inr (x, rw (find_block, q, p) refl)
        ]

  -- For every reader, whatever the bytes of its file, its footer and its filter are: `get` of any key at
  -- any snapshot ends with a result, an error or a panic, and so does the iteration up to its end or its
  -- first error, with as many rounds as the file has bytes and one more.
  pub get-Ends :
      (lib : Bloom.Lib Filter) (r : SsTableReader Filter) (key : Bytes) (read_seq : ℕ)
      → ((x : Result Fault (Option Bytes)) × (get lib r key read_seq ≡ some x))
        × ((es : List BlockEntry) × (w : Option Fault) × (drain (length r.mmap + 1) (iter r)
              ≡ some (es, w)))
  unfolding get iter
  get-Ends lib r key read_seq =
      let ((es, w), q) = drain-Ends (length r.mmap + 1) (iter r) (omega arith) in
      (
        elim (find_block-Ends r key) [
          | inl (w, q) ↦
              if-Ends (not (Bloom.contains lib r.bloom key)) (ok none, refl)
                (err w, rw (get, q) refl)
          | inr (found, q) ↦
              let (x, p) = scan_block-Ends r key read_seq found in
              if-Ends (not (Bloom.contains lib r.bloom key)) (ok none, refl) (x, rw (get, q) p)
        ],
        (es, w, q),
      )
