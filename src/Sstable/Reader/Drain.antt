-- ===== src/Sstable/Reader/Drain.antt =====
-- The iteration over all entries of a table to its end, crates/sstable/src/reader.rs.
use exepense_db.Base.{
  ℕ, zero, suc, ◌+◌, ◌<◌, ◌≤◌, ◌≡◌, refl, ap, subst, Option, none, some, List, [], ◌∷◌, ◌++◌,
  append_assoc, length, length-append, All, le→leb, lt→leb, ok, err, arith,
}
use native.Mathlib.Nat.{suc-add, zero-add}
use exepense_db.Base.Order.{Bytes}
use exepense_db.Base.Cuts.{Cut, Cut-start, Cut-past, length-Cut, slice-Cut}
use exepense_db.Sstable.Error.{Fault}
use exepense_db.Sstable.Block.{BlockEntry, entry_bytes, needed}
use exepense_db.Sstable.Block.Entries.{IsEncodable, entries_bytes, length-entry_bytes}
use exepense_db.Sstable.Reader.{SsTableIter, slice_checked, iter_next}
use exepense_db.Sstable.Reader.Scan.{next-entry}

pub slice_checked-Cut :
    {b : Bytes} {pos : ℕ} (w rest : Bytes)
    → Cut b pos (w ++ rest)
    → slice_checked pos (pos + length w) b ≡ ok w
unfolding slice_checked
slice_checked-Cut {b} {pos} w rest c = rw (
  slice_checked,
  le→leb pos (pos + length w) (omega arith),
  le→leb (pos + length w) (length b) (omega (arith, length-Cut c, length-append w rest)),
  slice-Cut w rest {end = pos + length w} c refl,
)

abbrev pub in_front :
    BlockEntry → Option (List BlockEntry × Option Fault) → Option (List BlockEntry × Option Fault)
in_front e none = none
in_front e (some (es, w)) = some (e ∷ es, w)

-- The entries that the iterator returns before its end or its first error, and that error. `none` is no
-- value of the program: the rounds ran out.
unfoldable pub drain : ℕ → SsTableIter → Option (List BlockEntry × Option Fault)
drain zero it = none
drain (suc n) it =
    let (item, it') = iter_next it in
    elim item [
      | none ↦ some ([], none)
      | some (err w) ↦ some ([], some w)
      | some (ok e) ↦ in_front e (drain n it')
    ]

drain-stop :
    (n : ℕ) (it it' : SsTableIter) → iter_next it ≡ (none, it') → drain (suc n) it ≡ some ([], none)
unfolding drain
drain-stop n it it' h = rw (drain, ap (λ p. p.0) h) refl

drain-next :
    (n : ℕ) (it it' : SsTableIter) (e : BlockEntry) (es : List BlockEntry)
    → iter_next it ≡ (some (ok e), it')
    → drain n it' ≡ some (es, none)
    → drain (suc n) it ≡ some (e ∷ es, none)
unfolding drain
drain-next n it it' e es h k = rw (drain, ap (λ p. p.0) h, ap (λ p. p.1) h, k) refl

abbrev from : Bytes → ℕ → ℕ → SsTableIter
from b pos end = record { mmap = b; pos = pos; data_end = end }

iter_next-end :
    (b : Bytes) (pos end : ℕ) → end ≤ pos → iter_next (from b pos end) ≡ (none, from b pos end)
unfolding iter_next
iter_next-end b pos end h = rw (iter_next, le→leb end pos h) refl

iter_next-entry :
    (b rest : Bytes) (pos end : ℕ) (e : BlockEntry)
    → IsEncodable e
    → pos < end
    → slice_checked pos end b ≡ ok (entry_bytes e ++ rest)
    → iter_next (from b pos end) ≡ (some (ok e), from b (pos + needed e) end)
unfolding iter_next
iter_next-entry b rest pos end e h l s =
    rw
      (
        iter_next,
        lt→leb end pos l,
        s,
        next-entry (entry_bytes e ++ rest) rest 0 e h (Cut-start (entry_bytes e ++ rest)),
      )
      refl

pub drain_from :
    (es : List BlockEntry) (b rest : Bytes) (pos end extra : ℕ)
    → All IsEncodable es
    → Cut b pos (entries_bytes es ++ rest)
    → end ≡ pos + length (entries_bytes es)
    → drain (length es + suc extra) (from b pos end) ≡ some (es, none)
unfolding entries_bytes
drain_from [] b rest pos end extra h cut e =
    rw zero-add (drain-stop extra _ _ (iter_next-end b pos end (omega (arith, e))))
drain_from (x ∷ es) b rest pos end extra (hx, h) cut e = rw suc-add (
    drain-next (length es + suc extra) (from b pos end) (from b (pos + needed x) end) x es
      (iter_next-entry b (entries_bytes es) pos end x hx
        (omega (arith, e, length-append (entry_bytes x) (entries_bytes es), length-entry_bytes x))
        (rw e (slice_checked-Cut (entry_bytes x ++ entries_bytes es) rest cut)))
      (drain_from es b rest (pos + needed x) end extra h
        (Cut-past (entry_bytes x) _ (regroup cut) (omega (arith, length-entry_bytes x)))
        (omega (arith, e, length-append (entry_bytes x) (entries_bytes es), length-entry_bytes x))))
  where
    regroup :
        Cut b pos ((entry_bytes x ++ entries_bytes es) ++ rest)
        → Cut b pos (entry_bytes x ++ (entries_bytes es ++ rest))
    regroup c = subst (Cut b pos) (append_assoc (entry_bytes x) (entries_bytes es) rest) c
