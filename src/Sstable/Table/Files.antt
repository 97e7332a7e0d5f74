-- ===== src/Sstable/Table/Files.antt =====
-- The four parts of a finished table's file, and `SsTableReader::open` of it.
use exepense_db.Base.{
  ℕ, ◌+◌, ◌-◌, ◌%◌, ◌<◌, ◌≤◌, ◌≡◌, refl, ap, ◌∙◌, some, List, [], ◌∷◌, ◌++◌, append_assoc, length,
  length-append, All, ◌==◌, le→ltb, if◌then◌else◌, ok, arith,
}
use native.Mathlib.Nat.{mod-eq_of_lt}
use exepense_db.Base.Order.{Bytes}
use exepense_db.Base.Words.{u16_mod, u32_mod, u64_mod}
use exepense_db.Base.Cuts.{Cut, Cut-start, Cut-past}
use exepense_db.Sstable.Bloom
use exepense_db.Sstable.Bloom.{IsLawful}
use exepense_db.Sstable.Block.{BlockEntry, entry_bytes, needed}
use exepense_db.Sstable.Block.Entries.{IsEncodable, entries_bytes, length-entry_bytes}
use exepense_db.Sstable.Footer
use exepense_db.Sstable.Footer.{Footer, IsInRange, footer_size}
use exepense_db.Sstable.Footer.RoundTrip.{decode-encode_footer, length-encode}
use exepense_db.Sstable.Builder.{SsTableBuilder, index_bytes, index_buf, footer_of, file_of}
use exepense_db.Sstable.Reader.{SsTableReader, open_table}
use exepense_db.Sstable.Reader.Drain.{slice_checked-Cut}
use exepense_db.Sstable.Reader.Scan.{length-le-entries_bytes}
use exepense_db.Sstable.Reader.Index
use exepense_db.Sstable.Reader.Index.{length-index_bytes}
use exepense_db.Sstable.Table.Sorted.{last_key_of}
use exepense_db.Sstable.Table.Blocks.{
  Block, entries, all_entries, data_of, index_of, index_entry, entries_bytes-append,
}
use exepense_db.Sstable.Table.Rows.{Summary}

length-entries_bytes_cons :
    (e : BlockEntry) (es : List BlockEntry)
    → length (entries_bytes (e ∷ es)) ≡ needed e + length (entries_bytes es)
unfolding entries_bytes
length-entries_bytes_cons e es =
    omega (arith, length-append (entry_bytes e) (entries_bytes es), length-entry_bytes e)

last_key_bound :
    (e : BlockEntry) (es : List BlockEntry)
    → 15 + length (last_key_of (e ∷ es)) ≤ length (entries_bytes (e ∷ es))
unfolding last_key_of
last_key_bound e [] = omega (arith, length-entries_bytes_cons e [])
last_key_bound e (x ∷ es) = omega (arith, last_key_bound x es, length-entries_bytes_cons e (x ∷ es))

last_key_fits :
    (e : BlockEntry) (es : List BlockEntry)
    → All IsEncodable (e ∷ es)
    → length (last_key_of (e ∷ es)) < u16_mod
unfolding last_key_of
last_key_fits e [] (h, _) = h.key_fits
last_key_fits e (x ∷ es) (_, h) = last_key_fits x es h

pub All-back {κ} :
    (P : BlockEntry → Type κ) (xs ys : List BlockEntry) → All P (xs ++ ys) → All P xs × All P ys
All-back P [] ys h = (tt, h)
All-back P (x ∷ xs) ys (p, h) = let (hx, hy) = All-back P xs ys h in ((p, hx), hy)

pub length-data_of :
    (bs : List Block) → length (data_of bs) ≡ length (entries_bytes (all_entries bs))
unfolding data_of all_entries entries_bytes
length-data_of [] = refl
length-data_of (b ∷ bs) = omega (
  arith,
  length-data_of bs,
  length-append (entries_bytes (entries b)) (data_of bs),
  ap length (entries_bytes-append (entries b) (all_entries bs)),
  length-append (entries_bytes (entries b)) (entries_bytes (all_entries bs)),
)

length-index_of :
    (offset : ℕ) (bs : List Block) → length (index_buf (index_of offset bs)) ≤ length (data_of bs)
unfolding index_of data_of index_buf
length-index_of offset [] = omega arith
length-index_of offset (b ∷ bs) = omega (
  arith,
  length-index_of (offset + length (entries_bytes (entries b))) bs,
  length-append (entries_bytes (entries b)) (data_of bs),
  length-append (index_bytes (index_entry offset b))
      (index_buf (index_of (offset + length (entries_bytes (entries b))) bs)),
  length-index_bytes (index_entry offset b),
  last_key_bound b.first b.others,
)

pub index_of-IsEncodable :
    (offset : ℕ) (bs : List Block)
    → All IsEncodable (all_entries bs)
    → All Index.IsEncodable (index_of offset bs)
unfolding index_of all_entries
index_of-IsEncodable offset [] h = tt
index_of-IsEncodable offset (b ∷ bs) h =
    let (hb, hs) = All-back IsEncodable (entries b) (all_entries bs) h in
    (
      record {
        key_fits = last_key_fits b.first b.others hb;
        offset_fits = omega arith;
        len_fits = omega arith;
      },
      index_of-IsEncodable (offset + length (entries_bytes (entries b))) bs hs,
    )

-- A sealed builder: its blocks, which hold `es`, are small enough for the footer's words.
pub record Sealed {Filter : Type 0} (lib : Bloom.Lib Filter) (b : SsTableBuilder Filter)
    (es : List BlockEntry) : Type 0 where
  pub done : List Block
  pub holds : all_entries done ≡ es
  pub data_is : b.data_buf ≡ data_of done
  pub index_is : b.blocks ≡ index_of 0 done
  pub summary : Summary lib b es
  pub small : length (data_of done) < u32_mod
  pub filter_small : length (Bloom.to_bytes lib b.bloom) < u32_mod

module _ {Filter : Type 0} {lib : Bloom.Lib Filter} (law : IsLawful lib) (b : SsTableBuilder Filter)
    (es : List BlockEntry) (s : Sealed lib b es) where
  abbrev pub index : Bytes
  index = index_buf b.blocks

  abbrev filter : Bytes
  filter = Bloom.to_bytes lib b.bloom

  abbrev pub file : Bytes
  file = file_of lib b

  abbrev pub the_footer : Footer
  the_footer = record {
    index_offset = length b.data_buf;
    index_len = length index;
    bloom_offset = length b.data_buf + length index;
    bloom_len = length filter;
    entry_count = b.entry_count;
    min_seq = if b.min_seq == u64_mod - 1 then 0 else b.min_seq;
    bloom_bits = lib.number_of_bits b.bloom;
    bloom_k = lib.number_of_hash_functions b.bloom;
  }

  small_data : length b.data_buf < u32_mod
  small_data = rw (s.data_is) (s.small)

  small_index : length index < u32_mod
  small_index = rw (s.index_is) (omega (arith, length-index_of 0 s.done, s.small))

  count_fits : b.entry_count < u64_mod
  count_fits = omega (
    arith,
    s.summary.count,
    length-le-entries_bytes es,
    ap (λ es. length (entries_bytes es)) (s.holds),
    length-data_of s.done,
    s.small,
  )

  footer_lem : footer_of lib b ≡ the_footer
  unfolding footer_of
  footer_lem =
      let e1 : length b.data_buf % u64_mod ≡ length b.data_buf =
        mod-eq_of_lt (omega (arith, small_data)) in
      let e2 : length index % u32_mod ≡ length index = mod-eq_of_lt small_index in
      let e3 : length filter % u32_mod ≡ length filter = mod-eq_of_lt (s.filter_small) in
      rw (footer_of, e1, e2, e3)

  the_footer-IsInRange : IsInRange the_footer
  the_footer-IsInRange = record {
    index_offset = omega (arith, small_data);
    index_len = small_index;
    bloom_offset = omega (arith, small_data, small_index);
    bloom_len = s.filter_small;
    entry_count = count_fits;
    min_seq = ground (arith, s.summary.min_fits);
    bloom_bits = law.bits_fit b.bloom;
    bloom_k = law.hashes_fit b.bloom;
  }

  abbrev tail : Bytes
  tail = Footer.encode (footer_of lib b)

  pub index-Cut : Cut file (length b.data_buf) (index ++ (filter ++ tail))
  unfolding file_of
  index-Cut = Cut-past b.data_buf _ (Cut-start file) (omega arith)

  filter-Cut : Cut file (length b.data_buf + length index) (filter ++ tail)
  filter-Cut = Cut-past index _ index-Cut refl

  regroup : file ≡ (b.data_buf ++ (index ++ filter)) ++ tail
  unfolding file_of
  regroup = simp append_assoc

  decodes : Footer.decode file ≡ some the_footer
  decodes =
      ap Footer.decode regroup
      ∙ rw footer_lem
          (decode-encode_footer (b.data_buf ++ (index ++ filter)) the_footer the_footer-IsInRange)

  rebuilt_lem :
      Bloom.from_bytes lib filter
        (lib.number_of_bits b.bloom)
        (lib.number_of_hash_functions b.bloom)
      ≡ Bloom.rebuilt lib b.bloom
  unfolding Bloom.from_bytes Bloom.to_bytes
  rebuilt_lem =
      let (e, he) = law.encodes (lib.bitmap b.bloom) in
      let (n, hn) = law.decodes (lib.bitmap b.bloom) e he in
      rw (Bloom.from_bytes, Bloom.to_bytes, he, hn) refl

  abbrev pub the_reader : SsTableReader Filter
  the_reader = record { mmap = file; footer = the_footer; bloom = Bloom.rebuilt lib b.bloom }

  -- The reader of the file: its footer is the builder's, its filter is rebuilt.
  pub opens : open_table lib file ≡ ok the_reader
  unfolding open_table
  opens = rw (
    open_table,
    le→ltb (length file) footer_size (
        omega (
          arith,
          ap length regroup,
          length-append (b.data_buf ++ (index ++ filter)) tail,
          length-encode (footer_of lib b),
        )),
    decodes,
    slice_checked-Cut filter tail filter-Cut,
    rebuilt_lem,
  )
