-- ===== src/Sstable/Block/Entries.antt =====
-- The block iterator over the bytes that the block builder appended, crates/sstable/src/block.rs.
use exepense_db.Base.{
  ◌+◌, ◌<◌, ◌%◌, ◌≡◌, refl, ap, ◌∙◌, Bool, true, false, not, List, [], ◌∷◌, ◌++◌, length,
  length-append, append_assoc, le→ltb, ◌==◌, ok, arith,
}
use native.Mathlib.Nat.{mod-eq_of_lt}
use exepense_db.Base.Order.{Bytes}
use exepense_db.Base.Words.{u16_mod, u32_mod, u64_mod, to_le, from_le, length-to_le}
use exepense_db.Base.Cuts.{Cut-start, length-Cut, word_past, word_at, slice-Cut, Cut-past}
use exepense_db.Sstable.Block.{BlockEntry, entry_bytes, needed, parse_entry, bit}

-- The fields of an entry hold in their words.
pub record IsEncodable (e : BlockEntry) : Type 0 where
  pub seq_fits : e.seq < u64_mod
  pub key_fits : length e.key < u16_mod
  pub value_fits : length e.value < u32_mod

unfoldable pub entries_bytes : List BlockEntry → Bytes
entries_bytes [] = []
entries_bytes (e ∷ es) = entry_bytes e ++ entries_bytes es

bit_back : (t : Bool) → not (from_le (bit t ∷ []) == 0) ≡ t
unfolding from_le
bit_back true = refl
bit_back false = refl

pub length-entry_bytes : (e : BlockEntry) → length (entry_bytes e) ≡ needed e
unfolding entry_bytes
length-entry_bytes e = omega (
  arith,
  length-append (to_le 8 e.seq) (
      bit e.tombstone
      ∷ (to_le 2 (length e.key % u16_mod)
          ++ (to_le 4 (length e.value % u32_mod) ++ (e.key ++ e.value)))),
  length-append (to_le 2 (length e.key % u16_mod))
      (to_le 4 (length e.value % u32_mod) ++ (e.key ++ e.value)),
  length-append (to_le 4 (length e.value % u32_mod)) (e.key ++ e.value),
  length-append e.key e.value,
  length-to_le 8 e.seq,
  length-to_le 2 (length e.key % u16_mod),
  length-to_le 4 (length e.value % u32_mod),
)

module _ (e : BlockEntry) (rest : Bytes) (h : IsEncodable e) where
  abbrev after_key : Bytes
  after_key = e.value ++ rest

  abbrev after_lengths : Bytes
  after_lengths = e.key ++ after_key

  -- The entry's bytes, with the lengths as they are.
  abbrev laid_out : Bytes
  laid_out =
      to_le 8 e.seq
      ++ ((bit e.tombstone ∷ [])
          ++ (to_le 2 (length e.key) ++ (to_le 4 (length e.value) ++ after_lengths)))

  layout : entry_bytes e ++ rest ≡ laid_out
  unfolding entry_bytes
  layout = rw (entry_bytes, mod-eq_of_lt h.key_fits, mod-eq_of_lt h.value_fits) (simp append_assoc)

  parse_laid_out : parse_entry laid_out ≡ ok (e, needed e)
  unfolding parse_entry
  parse_laid_out =
      let c0 = Cut-start laid_out in
      let c1 = word_past 8 e.seq _ c0 in
      let c2 = Cut-past (bit e.tombstone ∷ []) _ {end = 9} c1 refl in
      let c3 = word_past 2 (length e.key) _ c2 in
      let c4 = word_past 4 (length e.value) _ c3 in
      let c5 = Cut-past e.key after_key {end = 15 + length e.key} c4 refl in
      rw (
        parse_entry,
        word_at 2 (length e.key) _ c2 h.key_fits,
        word_at 4 (length e.value) _ c3 h.value_fits,
        le→ltb (length laid_out) 15 (omega (arith, length-Cut c4)),
        le→ltb (length laid_out) (15 + length e.key + length e.value)
            (omega (arith, length-Cut c5, length-append e.value rest)),
        word_at 8 e.seq _ c0 h.seq_fits,
        slice-Cut (bit e.tombstone ∷ []) _ {end = 9} c1 refl,
        bit_back e.tombstone,
        slice-Cut e.key after_key {end = 15 + length e.key} c4 refl,
        slice-Cut e.value rest {end = 15 + length e.key + length e.value} c5 refl,
      )

  -- In front of any bytes, the iterator's parsing reads the entry whose fields fit in their words,
  -- and takes its 15 bytes of header, its key and its value.
  pub parse_entry-entry_bytes : parse_entry (entry_bytes e ++ rest) ≡ ok (e, needed e)
  parse_entry-entry_bytes = ap parse_entry layout ∙ parse_laid_out
