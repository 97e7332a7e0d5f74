-- ===== src/Sstable/Footer/RoundTrip.antt =====
-- `Footer::encode` and `decode`: the round trip of the unit test in footer.rs, for every footer.
use exepense_db.Base.{
  ◌-◌, ◌≡◌, refl, some, ◌++◌, length, slice, length-append, drop-append, le→ltb, arith,
}
use exepense_db.Base.Order.{Bytes}
use exepense_db.Base.Words.{to_le, from_le}
use exepense_db.Base.Cuts.{Cut-start, word_past, word_at}
use exepense_db.Sstable.Footer.{Footer, IsInRange, encode, decode, fields, footer_size, magic}

pub length-encode : (f : Footer) → length (encode f) ≡ footer_size
unfolding encode to_le
length-encode f = refl

module _ (f : Footer) (h : IsInRange f) where
  -- Each field stands in the encoding at the place where `decode` looks for it.
  fields-encode : fields (encode f) ≡ f
  unfolding encode
  fields-encode =
      let c0 = Cut-start (encode f) in
      let c1 = word_past 8 f.index_offset _ c0 in
      let c2 = word_past 4 f.index_len _ c1 in
      let c3 = word_past 8 f.bloom_offset _ c2 in
      let c4 = word_past 4 f.bloom_len _ c3 in
      let c5 = word_past 8 f.entry_count _ c4 in
      let c6 = word_past 8 f.min_seq _ c5 in
      let c7 = word_past 8 f.bloom_bits _ c6 in
      rw (
        word_at 8 f.index_offset _ c0 h.index_offset,
        word_at 4 f.index_len _ c1 h.index_len,
        word_at 8 f.bloom_offset _ c2 h.bloom_offset,
        word_at 4 f.bloom_len _ c3 h.bloom_len,
        word_at 8 f.entry_count _ c4 h.entry_count,
        word_at 8 f.min_seq _ c5 h.min_seq,
        word_at 8 f.bloom_bits _ c6 h.bloom_bits,
        word_at 4 f.bloom_k _ c7 h.bloom_k,
      )

magic-encode : (f : Footer) → from_le (slice 52 56 (encode f)) ≡ magic
unfolding encode to_le from_le
magic-encode f = refl

-- Behind any bytes of a file, `decode` reads the footer that `encode` wrote, when every field is in
-- its word's range.
pub decode-encode_footer :
    (front : Bytes) (f : Footer) → IsInRange f → decode (front ++ encode f) ≡ some f
unfolding decode
decode-encode_footer front f h = rw (
  decode,
  le→ltb (length (front ++ encode f)) footer_size
      (omega (arith, length-append front (encode f), length-encode f)),
  drop-append front (encode f) {n = length (front ++ encode f) - footer_size}
      (omega (arith, length-append front (encode f), length-encode f)),
  magic-encode f,
  fields-encode f h,
)
