-- ===== src/Sstable/Reader/Index.antt =====
-- The loop of `SsTableReader::find_block` over the index block, crates/sstable/src/reader.rs.
use exepense_db.Base.{
  ℕ, suc, ◌+◌, ◌-◌, ◌%◌, ◌<◌, ◌≤◌, ◌≡◌, refl, ap, ◌∙◌, subst, Option, none, some, List, [], ◌∷◌,
  ◌++◌, length, slice, length-append, append_assoc, All, le→leb, lt→leb, le→ltb, if◌then◌else◌,
  arith, enough,
}
use native.Mathlib.Nat.{suc-add, zero-add, mod-eq_of_lt}
use exepense_db.Base.Order.{Bytes, le_bytes}
use exepense_db.Base.Words.{u16_mod, u32_mod, u64_mod, to_le, from_le, length-to_le}
use exepense_db.Base.Cuts.{Cut, Cut-start, length-Cut, word_past, word_at, slice-Cut, Cut-past}
use exepense_db.Sstable.Builder.{IndexEntry, index_bytes, index_buf}
use exepense_db.Sstable.Reader.{find_loop}

-- The fields of an index entry hold in their words.
pub record IsEncodable (x : IndexEntry) : Type 0 where
  pub key_fits : length x.last_key < u16_mod
  pub offset_fits : x.offset < u64_mod
  pub len_fits : x.len < u32_mod

abbrev pub width : IndexEntry → ℕ
width x = 14 + length x.last_key

-- The first block whose last key is not below the key.
unfoldable pub find_list : List IndexEntry → Bytes → Option (ℕ × ℕ)
find_list [] key = none
find_list (x ∷ xs) key =
    if le_bytes key x.last_key then some (x.offset, x.len) else find_list xs key

pub length-index_bytes : (x : IndexEntry) → length (index_bytes x) ≡ width x
unfolding index_bytes
length-index_bytes x = omega (
  arith,
  length-append (to_le 2 (length x.last_key % u16_mod))
      (x.last_key ++ (to_le 8 x.offset ++ to_le 4 x.len)),
  length-append x.last_key (to_le 8 x.offset ++ to_le 4 x.len),
  length-append (to_le 8 x.offset) (to_le 4 x.len),
  length-to_le 2 (length x.last_key % u16_mod),
  length-to_le 8 x.offset,
  length-to_le 4 x.len,
)

module _ (c rest : Bytes) (pos : ℕ) (x : IndexEntry) (h : IsEncodable x)
    (cut : Cut c pos (index_bytes x ++ rest)) where
  abbrev laid_out : Bytes
  laid_out =
      to_le 2 (length x.last_key) ++ (x.last_key ++ (to_le 8 x.offset ++ (to_le 4 x.len ++ rest)))

  layout : index_bytes x ++ rest ≡ laid_out
  unfolding index_bytes
  layout = rw (index_bytes, mod-eq_of_lt h.key_fits) (simp append_assoc)

  find_loop-index_bytes :
      (fuel : ℕ) (key : Bytes)
      → find_loop (suc fuel) c pos key ≡ (
          if le_bytes key x.last_key
          then some (some (x.offset, x.len))
          else find_loop fuel c (pos + width x) key)
  unfolding find_loop
  find_loop-index_bytes fuel key =
      let c0 : Cut c pos laid_out = subst (Cut c pos) layout cut in
      let c1 = word_past 2 (length x.last_key) _ c0 in
      let c2 = Cut-past x.last_key _ {end = pos + 2 + length x.last_key} c1 refl in
      let c3 = word_past 8 x.offset _ c2 in
      let c4 = word_past 4 x.len _ c3 in
      rw (
        find_loop,
        lt→leb (length c) pos (omega (arith, length-Cut c4)),
        le→ltb (length c - pos) 2 (omega (arith, length-Cut c4)),
        word_at 2 (length x.last_key) _ c0 h.key_fits,
        le→ltb (length c - (pos + 2)) (length x.last_key + 12) (omega (arith, length-Cut c4)),
        slice-Cut x.last_key _ {end = pos + 2 + length x.last_key} c1 refl,
        word_at 8 x.offset _ c2 h.offset_fits,
        len_at (word_at 4 x.len _ c3 h.len_fits),
        end_at,
      )
    where
      len_at :
          from_le (slice (pos + 2 + length x.last_key + 8) (pos + 2 + length x.last_key + 8 + 4) c)
            ≡ x.len
          → from_le (slice (pos + 2 + length x.last_key + 8) (pos + 2 + length x.last_key + 12) c)
            ≡ x.len
      len_at e = ap (λ n. from_le (slice (pos + 2 + length x.last_key + 8) n c)) sums ∙ e
        where
          sums : pos + 2 + length x.last_key + 12 ≡ pos + 2 + length x.last_key + 8 + 4
          sums = omega arith

      end_at : pos + 2 + length x.last_key + 12 ≡ pos + width x
      end_at = omega arith

find_loop-end :
    (fuel : ℕ) (c : Bytes) (pos : ℕ) (key : Bytes)
    → length c ≤ pos
    → find_loop (suc fuel) c pos key ≡ some none
unfolding find_loop
find_loop-end fuel c pos key h = rw (find_loop, le→leb (length c) pos h)

find_from :
    (xs : List IndexEntry) (c : Bytes) (pos extra : ℕ) (key : Bytes)
    → All IsEncodable xs
    → Cut c pos (index_buf xs)
    → find_loop (length xs + suc extra) c pos key ≡ some (find_list xs key)
unfolding index_buf find_list
find_from [] c pos extra key h cut =
    rw zero-add (find_loop-end extra c pos key (omega (arith, length-Cut cut)))
find_from (x ∷ xs) c pos extra key h cut = rw suc-add (
    find_loop-index_bytes c (index_buf xs) pos x h.0 cut (length xs + suc extra) key
    ∙ ground (
      arith,
      find_from xs c (pos + width x) extra key h.1
          (Cut-past (index_bytes x) (index_buf xs) cut (omega (arith, length-index_bytes x))),
    ))

length-le-index_buf : (xs : List IndexEntry) → length xs ≤ length (index_buf xs)
unfolding index_buf
length-le-index_buf [] = omega arith
length-le-index_buf (x ∷ xs) = omega (
  arith,
  length-le-index_buf xs,
  length-append (index_bytes x) (index_buf xs),
  length-index_bytes x,
)

-- The loop over an index block that was built of entries `xs` whose fields fit ends, with as many rounds as the block has
-- bytes and one more, and finds the first block whose last key is not below the key.
pub find_loop-index_buf :
    (xs : List IndexEntry) (key : Bytes)
    → All IsEncodable xs
    → find_loop (length (index_buf xs) + 1) (index_buf xs) 0 key ≡ some (find_list xs key)
find_loop-index_buf xs key h =
    subst (λ n. find_loop n (index_buf xs) 0 key ≡ some (find_list xs key))
      (enough (length xs) (length (index_buf xs)) (length-le-index_buf xs))
      (find_from xs (index_buf xs) 0 (length (index_buf xs) - length xs) key h
        (Cut-start (index_buf xs)))
