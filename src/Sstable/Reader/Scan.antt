-- ===== src/Sstable/Reader/Scan.antt =====
-- The loop of `SsTableReader::get` over a block, crates/sstable/src/reader.rs.
use exepense_db.Base.{
  ℕ, suc, ◌+◌, ◌-◌, ◌≤◌, ◌≡◌, refl, ap, ◌∙◌, subst, ◌&&◌, Option, none, some, List, [], ◌∷◌, ◌++◌,
  length, length-append, All, leb, le→leb, lt→leb, if◌then◌else◌, ok, arith, enough,
}
use native.Mathlib.Nat.{suc-add, zero-add}
use exepense_db.Base.Order.{Bytes, same}
use exepense_db.Base.Cuts.{Cut, Cut-start, drop-Cut, length-Cut, Cut-past}
use exepense_db.Sstable.Block
use exepense_db.Sstable.Block.{BlockEntry, BlockIterator, entry_bytes, needed, next_match}
use exepense_db.Sstable.Block.Entries.{
  IsEncodable, entries_bytes, length-entry_bytes, parse_entry-entry_bytes,
}
use exepense_db.Sstable.Reader.{scan}

abbrev pub at : Bytes → ℕ → BlockIterator
at c pos = record { contents = c; pos = pos }

next-end : (c : Bytes) (pos : ℕ) → length c ≤ pos → Block.next (at c pos) ≡ (none, at c pos)
unfolding Block.next
next-end c pos h = rw (Block.next, le→leb (length c) pos h)

pub next-entry :
    (c rest : Bytes) (pos : ℕ) (e : BlockEntry)
    → IsEncodable e
    → Cut c pos (entry_bytes e ++ rest)
    → Block.next (at c pos) ≡ (some (ok e), at c (pos + needed e))
unfolding Block.next
next-entry c rest pos e h cut = rw (
  Block.next,
  lt→leb (length c) pos
      (omega (arith, length-Cut cut, length-append (entry_bytes e) rest, length-entry_bytes e)),
  drop-Cut cut,
  parse_entry-entry_bytes e rest h,
)

-- What the loop computes of the entries.
unfoldable pub scan_list : List BlockEntry → Bytes → ℕ → Option Bytes → Option Bytes
scan_list [] key read_seq result = result
scan_list (e ∷ es) key read_seq result =
    let found = scan_list es key read_seq (some e.value) in
    let on = scan_list es key read_seq result in
    if same e.key key && leb e.seq read_seq then (if e.tombstone then none else found) else on

scan-next :
    (fuel : ℕ) (it it' : BlockIterator) (e : BlockEntry) (es : List BlockEntry) (key : Bytes)
    (read_seq : ℕ) (result : Option Bytes)
    → Block.next it ≡ (some (ok e), it')
    → ((r : Option Bytes) → scan fuel it' key read_seq r ≡ some (ok (scan_list es key read_seq r)))
    → scan (suc fuel) it key read_seq result ≡ some (ok (scan_list (e ∷ es) key read_seq result))
unfolding scan scan_list
scan-next fuel it it' e es key read_seq result h rec =
    rw (scan, ap (λ p. p.0) h, ap (λ p. p.1) h, rec (some e.value), rec result) (ground arith)

scan-stop :
    (fuel : ℕ) (it it' : BlockIterator) (key : Bytes) (read_seq : ℕ) (result : Option Bytes)
    → Block.next it ≡ (none, it')
    → scan (suc fuel) it key read_seq result ≡ some (ok result)
unfolding scan
scan-stop fuel it it' key read_seq result h = rw (scan, ap (λ p. p.0) h)

scan_from :
    (es : List BlockEntry) (c : Bytes) (pos extra : ℕ) (key : Bytes) (read_seq : ℕ)
    (result : Option Bytes)
    → All IsEncodable es
    → Cut c pos (entries_bytes es)
    → scan (length es + suc extra) (at c pos) key read_seq result
      ≡ some (ok (scan_list es key read_seq result))
unfolding entries_bytes
scan_from [] c pos extra key read_seq result h cut = rw zero-add (
    scan-stop extra (at c pos) (at c pos) key read_seq result
      (next-end c pos (omega (arith, length-Cut cut)))
    ∙ unfold scan_list in refl)
scan_from (e ∷ es) c pos extra key read_seq result h cut = rw suc-add (
    scan-next (length es + suc extra) (at c pos) (at c (pos + needed e)) e es key read_seq result
      (next-entry c (entries_bytes es) pos e h.0 cut)
      (λ r.
        scan_from es c (pos + needed e) extra key read_seq r h.1
          (Cut-past (entry_bytes e) (entries_bytes es) cut (omega (arith, length-entry_bytes e)))))

pub length-le-entries_bytes : (es : List BlockEntry) → length es ≤ length (entries_bytes es)
unfolding entries_bytes
length-le-entries_bytes [] = omega arith
length-le-entries_bytes (e ∷ es) = omega (
  arith,
  length-le-entries_bytes es,
  length-append (entry_bytes e) (entries_bytes es),
  length-entry_bytes e,
)

-- The loop over a block that was built of entries `es` whose fields fit ends, with as many rounds as the block has bytes and
-- one more, and returns what `scan_list` says.
pub scan-entries_bytes :
    (es : List BlockEntry) (key : Bytes) (read_seq : ℕ)
    → All IsEncodable es
    → scan
        (length (entries_bytes es) + 1)
        (record { contents = entries_bytes es; pos = 0 })
        key
        read_seq
        none
      ≡ some (ok (scan_list es key read_seq none))
scan-entries_bytes es key read_seq h =
    subst
      (λ n.
        scan n (at (entries_bytes es) 0) key read_seq none
        ≡ some (ok (scan_list es key read_seq none)))
      (enough (length es) (length (entries_bytes es)) (length-le-entries_bytes es))
      (scan_from es (entries_bytes es) 0 (length (entries_bytes es) - length es) key read_seq none h
        (Cut-start (entries_bytes es)))
