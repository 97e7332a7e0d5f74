-- ===== src/Sstable/Table/Iterate.antt =====
-- The iteration over a table that `SsTableBuilder` wrote, crates/sstable/src/reader.rs and builder.rs.
use exepense_db.Base.{
  ℕ, ◌+◌, ◌-◌, ◌<◌, ◌≤◌, ◌≡◌, refl, sym, ap, ◌∙◌, subst, none, some, List, [], ◌∷◌, ◌++◌, length,
  length-append, All, ok, arith, enough,
}
use exepense_db.Base.Order.{Bytes}
use exepense_db.Base.Words.{u32_mod}
use exepense_db.Sstable.Bloom
use exepense_db.Sstable.Bloom.{IsLawful}
use exepense_db.Sstable.Block.{BlockEntry}
use exepense_db.Sstable.Block.Entries.{IsEncodable, entries_bytes}
use exepense_db.Sstable.Builder
use exepense_db.Sstable.Footer
use exepense_db.Sstable.Builder.{index_buf, footer_of, SsTableBuilder, seal_block, finish, file_of}
use exepense_db.Sstable.Reader.{SsTableReader, open_table, iter}
use exepense_db.Sstable.Reader.Scan.{length-le-entries_bytes}
use exepense_db.Sstable.Reader.Drain.{drain, drain_from}
use exepense_db.Sstable.Table.Blocks.{Block, entries, all_entries, data_of, entries_bytes-append}
use exepense_db.Sstable.Table.Rows.{
  Row, row_entries, add_rows, build_sstable, add_rows-Layout, add_rows-Summary, new-Layout,
  new-Summary,
}
use exepense_db.Sstable.Table.Files.{Sealed, the_reader, opens}
use exepense_db.Sstable.Table.Lookup.{seals}

data_of-all_entries : (bs : List Block) → data_of bs ≡ entries_bytes (all_entries bs)
unfolding data_of all_entries entries_bytes
data_of-all_entries [] = refl
data_of-all_entries (b ∷ bs) =
    ap (λ x. entries_bytes (entries b) ++ x) (data_of-all_entries bs)
    ∙ sym (entries_bytes-append (entries b) (all_entries bs))

module _ {Filter : Type 0} {lib : Bloom.Lib Filter} (law : IsLawful lib) (b : SsTableBuilder Filter)
    (es : List BlockEntry) (s : Sealed lib b es) where
  data_lem : b.data_buf ≡ entries_bytes es
  data_lem = s.data_is ∙ data_of-all_entries s.done ∙ ap entries_bytes s.holds

  abbrev behind : Bytes
  behind = index_buf b.blocks ++ (Bloom.to_bytes lib b.bloom ++ Footer.encode (footer_of lib b))

  es_fit : length es ≤ length (file_of lib b)
  unfolding file_of
  es_fit =
      omega (arith, length-le-entries_bytes es, ap length data_lem, length-append b.data_buf behind)

  -- As many rounds as the file has bytes, and one more.
  pub drain-the_reader :
      All IsEncodable es
      → drain (length (file_of lib b) + 1) (iter (the_reader law b es s)) ≡ some (es, none)
  unfolding iter file_of
  drain-the_reader h =
      subst (λ n. drain n (iter (the_reader law b es s)) ≡ some (es, none))
        (enough (length es) (length (file_of lib b)) es_fit)
        (drain_from es (file_of lib b) behind 0 (length b.data_buf)
          (length (file_of lib b) - length es) h
          (record { front = []; split = ap (λ x. x ++ behind) data_lem; reach = refl })
          (omega (arith, ap length data_lem)))

module _ {Filter : Type 0} {lib : Bloom.Lib Filter} (law : IsLawful lib) where
  -- Build a table of rows whose fields fit and whose data and filter are below 4 GiB, with a lawful filter.
  -- The file opens, and the iteration over all entries ends, without an error, after exactly the rows, in
  -- their order, with their tombstones.
  pub build_sstable-iter :
      (n : ℕ) (rows : List Row)
      → All IsEncodable (row_entries rows)
      → length (entries_bytes (row_entries rows)) < u32_mod
      → length (Bloom.to_bytes lib (add_rows lib (Builder.new lib n) rows).bloom) < u32_mod
      → (r : SsTableReader Filter) × (open_table lib (build_sstable lib n rows) ≡ ok r)
        × (drain (length r.mmap + 1) (iter r) ≡ some (row_entries rows, none))
  unfolding build_sstable finish
  build_sstable-iter n rows h small filter_small =
      let b = add_rows lib (Builder.new lib n) rows in
      let es = row_entries rows in
      let s =
        seals law b es (add_rows-Layout law rows (Builder.new lib n) [] (new-Layout law n))
          (add_rows-Summary law rows (Builder.new lib n) [] h (new-Summary law n)) small
          filter_small in
      (
        the_reader law (seal_block b) es s,
        opens law (seal_block b) es s,
        drain-the_reader law (seal_block b) es s h,
      )
