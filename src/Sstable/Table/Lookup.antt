-- ===== src/Sstable/Table/Lookup.antt =====
-- `SsTableReader::get` of a table that `SsTableBuilder` wrote.
use exepense_db.Base.{
  ℕ, ◌<◌, ◌≡◌, refl, sym, ap, ◌∙◌, true, if◌then◌else◌, Option, none, some, List, [], ◌∷◌, ◌++◌,
  append_assoc, append-nil, length, All, Bool-cases, inl, inr, ok, arith,
}
use exepense_db.Base.Order.{Bytes}
use exepense_db.Base.Words.{u32_mod}
use exepense_db.Base.Cuts.{Cut}
use exepense_db.Sstable.Bloom
use exepense_db.Sstable.Bloom.{IsLawful}
use exepense_db.Sstable.Block.{BlockEntry}
use exepense_db.Sstable.Block.Entries.{IsEncodable, entries_bytes}
use exepense_db.Sstable.Builder
use exepense_db.Sstable.Footer
use native.Mathlib.Nat.{zero-add}
use exepense_db.Sstable.Builder.{SsTableBuilder, seal_block, finish, file_of}
use exepense_db.Sstable.Reader.{SsTableReader, open_table, get, find_block, scan_block}
use exepense_db.Sstable.Reader.Scan.{scan-entries_bytes}
use exepense_db.Sstable.Reader.Drain.{slice_checked-Cut}
use exepense_db.Sstable.Reader.Index.{find_list, find_loop-index_buf}
use exepense_db.Sstable.Table.Sorted.{IsSorted, IsSorted-append, lookup, scan_list-lookup}
use exepense_db.Sstable.Table.Blocks.{
  Block, entries, all_entries, data_of, index_of, Located, nowhere, inside, locate,
}
use exepense_db.Sstable.Table.Built.{Layout, seal-Layout}
use exepense_db.Sstable.Table.Rows.{
  Row, row_entries, Summary, add_rows, build_sstable, add_rows-Layout, add_rows-Summary, new-Layout,
  new-Summary, seal_keeps,
}
use exepense_db.Sstable.Table.Files.{
  Sealed, All-back, length-data_of, index_of-IsEncodable, index, file, index-Cut, the_reader, opens,
}

data_of-inside :
    (front : List Block) (b : Block) (back : List Block)
    → data_of (front ++ (b ∷ back)) ≡ data_of front ++ (entries_bytes (entries b) ++ data_of back)
unfolding data_of
data_of-inside [] b back = refl
data_of-inside (x ∷ front) b back = rw (data_of-inside front b back) (
    sym (
      append_assoc (entries_bytes (entries x)) (data_of front)
        (entries_bytes (entries b) ++ data_of back)))

All-inside :
    (front : List Block) (b : Block) (back : List Block)
    → All IsEncodable (all_entries (front ++ (b ∷ back)))
    → IsSorted (all_entries (front ++ (b ∷ back)))
    → All IsEncodable (entries b) × IsSorted (entries b)
unfolding all_entries
All-inside [] b back h s = (
  (All-back IsEncodable (entries b) (all_entries back) h).0,
  (IsSorted-append (entries b) (all_entries back) s).0,
)
All-inside (x ∷ front) b back h s =
    All-inside front b back
      (All-back IsEncodable (entries x) (all_entries (front ++ (b ∷ back))) h).1
      (IsSorted-append (entries x) (all_entries (front ++ (b ∷ back))) s).1

module _ {Filter : Type 0} {lib : Bloom.Lib Filter} (law : IsLawful lib) (b : SsTableBuilder Filter)
    (es : List BlockEntry) (s : Sealed lib b es) where
  abbrev r : SsTableReader Filter
  r = the_reader law b es s

  finds :
      (key : Bytes)
      → All IsEncodable es
      → find_block r key ≡ ok (some (find_list (index_of 0 s.done) key))
  unfolding find_block
  finds key h =
      rw (find_block, slice_checked-Cut (index law b es s) _ (index-Cut law b es s))
        (ap ok (
          find_loop-index_buf b.blocks key
            (rw (s.index_is) (index_of-IsEncodable 0 s.done (rw (s.holds) h)))
          ∙ ap (λ xs. some (find_list xs key)) (s.index_is)))

  block-Cut :
      (front : List Block) (x : Block) (back : List Block)
      → s.done ≡ front ++ (x ∷ back)
      → Cut (file law b es s) (length (data_of front)) (
          entries_bytes (entries x)
          ++ (data_of back
              ++ (index law b es s
                  ++ (Bloom.to_bytes lib b.bloom ++ Footer.encode (Builder.footer_of lib b)))))
  unfolding file_of
  block-Cut front x back split = record {
    front = data_of front;
    split = rw (file_of, s.data_is, split, data_of-inside front x back) (simp append_assoc);
    reach = refl;
  }

  scans :
      (key : Bytes) (read_seq : ℕ) (found : Option (ℕ × ℕ))
      → All IsEncodable es
      → IsSorted es
      → Located found 0 s.done key read_seq
      → scan_block r key read_seq (some found) ≡ some (ok (lookup es key read_seq))
  unfolding scan_block
  scans key read_seq found h sorted (nowhere e l) =
      rw (e, scan_block)
        (ap (λ o. some (ok o)) (sym l ∙ ap (λ es. lookup es key read_seq) (s.holds)))
  scans key read_seq found h sorted (inside front x back split e l) =
      let (hx, sx) =
        All-inside front x back (rw (← split, s.holds) h) (rw (← split, s.holds) sorted) in
      rw
        (
          e,
          scan_block,
          zero-add,
          slice_checked-Cut (entries_bytes (entries x)) _ (block-Cut front x back split),
        )
        (scan-entries_bytes (entries x) key read_seq hx
          ∙ ap (λ o. some (ok o))
              (scan_list-lookup (entries x) key read_seq sx
                ∙ sym l
                ∙ ap (λ es. lookup es key read_seq) (s.holds)))

  pub get-lookup :
      (key : Bytes) (read_seq : ℕ)
      → All IsEncodable es
      → IsSorted es
      → get lib r key read_seq
        ≡ some (ok (if lib.check r.bloom key then lookup es key read_seq else none))
  unfolding get Bloom.contains
  get-lookup key read_seq h sorted = elim (Bool-cases (lib.check r.bloom key)) [
    | inr unknown ↦ rw (get, unknown) refl
    | inl known ↦
        rw (get, known, finds key h)
          (scans key read_seq (find_list (index_of 0 s.done) key) h sorted
            (locate 0 s.done key read_seq (rw (s.holds) sorted) (omega (arith, s.small))))
  ]

module _ {Filter : Type 0} {lib : Bloom.Lib Filter} (law : IsLawful lib) where
  pub seals :
      (b : SsTableBuilder Filter) (es : List BlockEntry)
      → Layout b es
      → Summary lib b es
      → length (entries_bytes es) < u32_mod
      → length (Bloom.to_bytes lib b.bloom) < u32_mod
      → Sealed lib (seal_block b) es
  seals b es l s h hf =
      let (l', _, closed) = seal-Layout b es l in
      let keeps = seal_keeps b in
      let holds : all_entries l'.done ≡ es =
        sym (
          l'.holds
          ∙ ap (λ c. all_entries l'.done ++ c) closed
          ∙ append-nil (all_entries l'.done)) in
      record {
        done = l'.done;
        holds = holds;
        data_is = l'.data_is;
        index_is = l'.index_is;
        summary = record {
          known = rw (keeps.0) (s.known);
          count = keeps.1 ∙ s.count;
          min_fits = rw (keeps.2) (s.min_fits);
        };
        small =
            omega (arith, length-data_of l'.done, ap (λ es. length (entries_bytes es)) holds, h);
        filter_small = rw (keeps.0) hf;
      }

  -- Build a table of rows with strictly ascending keys, whose fields fit and whose data and filter are
  -- below 4 GiB, with a lawful filter. The file opens, and the builder's filter knows every key of the
  -- rows. The reader's filter has the bitmap and the sizes of the builder's, but the hash keys of
  -- `from_bytes`. `get` of any key at any snapshot ends and returns nothing if the reader's filter does not
  -- know the key, and else what the rows say: the value of the key's row, or nothing if the row is a
  -- tombstone or newer than the snapshot or there is none.
  pub table_lookup :
      (n : ℕ) (rows : List Row)
      → All IsEncodable (row_entries rows)
      → IsSorted (row_entries rows)
      → length (entries_bytes (row_entries rows)) < u32_mod
      → length (Bloom.to_bytes lib (add_rows lib (Builder.new lib n) rows).bloom) < u32_mod
      → (r : SsTableReader Filter) × (open_table lib (build_sstable lib n rows) ≡ ok r)
        × All
            (λ e. lib.check (add_rows lib (Builder.new lib n) rows).bloom e.key ≡ true)
            (row_entries rows)
        × (r.bloom ≡ Bloom.rebuilt lib (add_rows lib (Builder.new lib n) rows).bloom)
        × ((key : Bytes) (read_seq : ℕ)
            → get lib r key read_seq
              ≡ some (
                  ok (
                    if lib.check r.bloom key
                    then lookup (row_entries rows) key read_seq
                    else none)))
  unfolding build_sstable finish
  table_lookup n rows h sorted small filter_small =
      let b = add_rows lib (Builder.new lib n) rows in
      let es = row_entries rows in
      let summary = add_rows-Summary law rows (Builder.new lib n) [] h (new-Summary law n) in
      let s =
        seals b es (add_rows-Layout law rows (Builder.new lib n) [] (new-Layout law n)) summary
          small filter_small in
      (
        the_reader law (seal_block b) es s,
        opens law (seal_block b) es s,
        summary.known,
        ap (Bloom.rebuilt lib) (seal_keeps b).0,
        λ key read_seq. get-lookup law (seal_block b) es s key read_seq h sorted,
      )
