-- ===== src/Wal/Reader.antt =====
-- The reader on a log that the writer made: it returns the records, in order, and then stops.
use exepense_db.Base.{
  ◌<◌, ◌≤◌, ltb, true, false, ◌⊎◌, inl, inr, ℕ, ◌+◌, ◌<◌, ◌≤◌, ◌≡◌, ap, ◌∙◌, none, some, List, [],
  ◌∷◌, ◌++◌, append_assoc, append-nil, length, drop, length-append, length-drop, All, lt→leb,
  le→leb, ok, arith,
}
use mathlib.Core.Option
use native.Mathlib.Nat.{suc-add, zero-add, add-zero, add_assoc}
use exepense_db.Base.Order.{Bytes}
use exepense_db.Wal.{
  Lib, IsLawful, WalRecord, open_reader, encode, encode_all, next, read_all, collect_ok, newer,
  truncate_after,
}
use exepense_db.Wal.Record.{IsEncodable, decode-encode, encode_parts, length-parts}
use exepense_db.Wal.Steps.{
  at, onto, onto-nil, onto-cons, map-nil, map-cons, drop-after, encode_all_nil, encode_all_cons,
  read_all-ok, read_all-none, collect_ok-ok, collect_ok-none,
}

-- The records that a flush up to a sequence number leaves: those above it, in their order.
pub data Kept (flushed_seq : ℕ) : List WalRecord → List WalRecord → Type 0 where
  kept_all : Kept flushed_seq [] []
  keeps :
      {r : WalRecord} {rs ks : List WalRecord}
      → flushed_seq < r.seq_no
      → Kept flushed_seq rs ks
      → Kept flushed_seq (r ∷ rs) (r ∷ ks)
  drops :
      {r : WalRecord} {rs ks : List WalRecord}
      → r.seq_no ≤ flushed_seq
      → Kept flushed_seq rs ks
      → Kept flushed_seq (r ∷ rs) ks

newer-Kept : (flushed_seq : ℕ) (rs : List WalRecord) → Kept flushed_seq rs (newer flushed_seq rs)
unfolding newer
newer-Kept flushed_seq [] = kept_all
newer-Kept flushed_seq (r ∷ rs) = elim (lt_cases flushed_seq r.seq_no) [
  | inl (later, q) ↦ rw (newer, q) (keeps later (newer-Kept flushed_seq rs))
  | inr (flushed, q) ↦ rw (newer, q) (drops flushed (newer-Kept flushed_seq rs))
]
  where
    lt_cases : (m n : ℕ) → ((m < n) × (ltb m n ≡ true)) ⊎ ((n ≤ m) × (ltb m n ≡ false))
    lt_cases m n = ground arith

module _ {lib : Lib} (law : IsLawful lib) where
  pub encode-pos : (r : WalRecord) (b : Bytes) → IsEncodable r → encode lib r ≡ ok b → 0 < length b
  encode-pos r b h e =
      let (hb, eh, eb) = encode_parts law r b h e in rw eb (omega (arith, length-parts law r hb))

  pub next-record :
      (r : WalRecord) (c b rest : Bytes) (pos : ℕ)
      → IsEncodable r
      → encode lib r ≡ ok b
      → drop pos c ≡ b ++ rest
      → next lib (at c pos) ≡ (some (ok r), at c (pos + length b))
  unfolding next
  next-record r c b rest pos h e hd = rw (
    lt→leb (length c) pos
        (omega (arith, length-drop pos c, ap length hd, length-append b rest, encode-pos r b h e)),
    hd,
    decode-encode law r b rest h e,
  )

  -- The iteration passes over the records of a log one by one, whatever follows them.
  pub read_all-encode_all :
      (rs : List WalRecord) (c bytes tail : Bytes) (pos fuel : ℕ)
      → All IsEncodable rs
      → encode_all lib rs ≡ ok bytes
      → drop pos c ≡ bytes ++ tail
      → read_all lib (length rs + fuel) (at c pos)
        ≡ onto rs (read_all lib fuel (at c (pos + length bytes)))
  read_all-encode_all [] c bytes tail pos fuel h e hd =
      rw (zero-add, ← encode_all_nil lib bytes e, onto-nil, add-zero)
  read_all-encode_all (r ∷ rs) c bytes tail pos fuel (hr, h) e hd =
      let (b, rest, eb, erest, split) = encode_all_cons lib r rs bytes e in
      rw
        (
          suc-add,
          read_all-ok lib _ _ _
              (next-record r c b (rest ++ tail) pos hr eb (hd ∙ rw (split, append_assoc))),
          read_all-encode_all rs c rest tail (pos + length b) fuel h erest
              (drop-after pos c bytes b rest tail split hd),
          ap length split,
          length-append b rest,
          ← add_assoc pos (length b) (length rest),
        )
        (onto-cons r rs _)

  pub collect_ok-encode_all :
      (rs : List WalRecord) (c bytes tail : Bytes) (pos fuel : ℕ)
      → All IsEncodable rs
      → encode_all lib rs ≡ ok bytes
      → drop pos c ≡ bytes ++ tail
      → collect_ok lib (length rs + fuel) (at c pos)
        ≡ Option.map (λ ts. rs ++ ts) (collect_ok lib fuel (at c (pos + length bytes)))
  collect_ok-encode_all [] c bytes tail pos fuel h e hd =
      rw (zero-add, ← encode_all_nil lib bytes e, map-nil, add-zero)
  collect_ok-encode_all (r ∷ rs) c bytes tail pos fuel (hr, h) e hd =
      let (b, rest, eb, erest, split) = encode_all_cons lib r rs bytes e in
      rw
        (
          suc-add,
          collect_ok-ok lib _ _ _
              (next-record r c b (rest ++ tail) pos hr eb (hd ∙ rw (split, append_assoc))),
          collect_ok-encode_all rs c rest tail (pos + length b) fuel h erest
              (drop-after pos c bytes b rest tail split hd),
          ap length split,
          length-append b rest,
          ← add_assoc pos (length b) (length rest),
        )
        (map-cons r rs _)

  -- At the end of the file the reader stops.
  pub next-end : (c : Bytes) (pos : ℕ) → length c ≤ pos → next lib (at c pos) ≡ (none, at c pos)
  unfolding next
  next-end c pos h = rw (le→leb (length c) pos h)

  -- Reading a log that was written of records whose fields fit gives back the records, in order, with
  -- no error, in one round of the loop more than there are records.
  pub read_all-log :
      (rs : List WalRecord) (bytes : Bytes)
      → All IsEncodable rs
      → encode_all lib rs ≡ ok bytes
      → read_all lib (length rs + 1) (open_reader bytes) ≡ some (ok rs)
  read_all-log rs bytes h e =
      read_all-encode_all rs bytes bytes [] 0 1 h e (rw append-nil)
      ∙ rw (
        zero-add,
        read_all-none lib 0 _ _ (next-end bytes (length bytes) (omega arith)),
        append-nil,
      )

  collect_ok-log :
      (rs : List WalRecord) (bytes : Bytes)
      → All IsEncodable rs
      → encode_all lib rs ≡ ok bytes
      → collect_ok lib (length rs + 1) (open_reader bytes) ≡ some rs
  collect_ok-log rs bytes h e =
      collect_ok-encode_all rs bytes bytes [] 0 1 h e (rw append-nil)
      ∙ rw (
        zero-add,
        collect_ok-none lib 0 _ _ (next-end bytes (length bytes) (omega arith)),
        append-nil,
      )

  -- Truncating a log that was written of records whose fields fit ends, and leaves the log of some
  -- records: in their order, every record with a sequence number above the flushed one and no other.
  pub truncate_after-log :
      (rs : List WalRecord) (bytes : Bytes) (flushed_seq : ℕ)
      → All IsEncodable rs
      → encode_all lib rs ≡ ok bytes
      → (kept : List WalRecord) × (truncate_after lib (length rs + 1) bytes flushed_seq
          ≡ some (encode_all lib kept))
        × Kept flushed_seq rs kept
  unfolding truncate_after
  truncate_after-log rs bytes flushed_seq h e =
      (newer flushed_seq rs, rw (collect_ok-log rs bytes h e), newer-Kept flushed_seq rs)
