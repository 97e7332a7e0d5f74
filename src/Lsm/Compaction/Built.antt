-- ===== src/Lsm/Compaction/Built.antt =====
-- A compaction of tables that were built from rows, crates/lsm/src/compaction.rs over crates/sstable.
mod Tests
use exepense_db.Base.{
  ℕ, zero, suc, ◌+◌, ◌<◌, ◌≡◌, refl, sym, ap, ◌∙◌, subst, Bool, true, false, if◌then◌else◌, Option,
  none, some, List, [], ◌∷◌, length, All, Result, ok, err, ok-injective, max, arith,
}
use exepense_db.Base.Order.{Bytes}
use exepense_db.Base.Words.{u32_mod}
use exepense_db.Base.Members.{In, here, there, nth}
use exepense_db.Sstable.Error.{Fault}
use exepense_db.Sstable.Bloom
use exepense_db.Sstable.Builder
use exepense_db.Sstable.Block.{BlockEntry}
use exepense_db.Sstable.Block.Entries.{IsEncodable, entries_bytes}
use exepense_db.Sstable.Table.Sorted.{IsSorted, lookup}
use exepense_db.Sstable.Table.Rows.{Row, row_entry, row_entries, build_sstable, add_rows}
use exepense_db.Sstable.Table.Lookup.{table_lookup}
use exepense_db.Sstable.Table.Iterate.{build_sstable-iter}
use exepense_db.Sstable.Reader.{SsTableReader, open_table, get, iter}
use exepense_db.Sstable.Reader.Drain.{drain}
use exepense_db.Lsm.Manifest
use exepense_db.Lsm.Manifest.{SstMeta, Manifest, Json}
use exepense_db.Lsm.Levels.{Tables, Readers, reader_of}
use exepense_db.Lsm.Engine.{Engine}
use exepense_db.Lsm.Engine.ScanTables.{Serves}
use exepense_db.Lsm.Tables.{file_tables, drained}
use exepense_db.Lsm.Compaction.{
  MaxHeap, IsLawful, Compacting, done, first_level, compacted, iterators, any_panics,
  run_l0_compaction, value_of,
}
use exepense_db.Lsm.Compaction.State.{row_of_entry}
use exepense_db.Lsm.Compaction.Sources.{From, NewestOf, merged_rows, merge_all-NewestOf}
use exepense_db.Lsm.Compaction.Run.{Compacted, run_l0_compaction-Compacted}

-- A reader of the file that a builder wrote of rows with strictly ascending keys, whose fields fit and
-- whose data and filter are below 4 GiB.
pub record IsBuilt {Filter : Type 0} (lib : Bloom.Lib Filter) (rows : List Row)
    (r : SsTableReader Filter) : Type 0 where
  pub expected : ℕ
  pub opens : open_table lib (build_sstable lib expected rows) ≡ ok r
  pub fits : All IsEncodable (row_entries rows)
  pub sorted : IsSorted (row_entries rows)
  pub small : length (entries_bytes (row_entries rows)) < u32_mod
  pub filter_small :
      length (Bloom.to_bytes lib (add_rows lib (Builder.new lib expected) rows).bloom) < u32_mod

-- The table of the metadata is open, with a reader of the rows that it has.
abbrev pub IsOpen :
    {Filter : Type 0}
    → Bloom.Lib Filter
    → (ℕ → List Row)
    → Readers (SsTableReader Filter)
    → SstMeta
    → Type 0
IsOpen {Filter = Filter} lib rows_of readers m =
    (r : SsTableReader Filter) × (reader_of m.id readers ≡ some r) × IsBuilt lib (rows_of m.id) r

-- The rows of the tables.
unfoldable pub contents : (ℕ → List Row) → List SstMeta → List (List BlockEntry)
contents rows_of [] = []
contents rows_of (m ∷ ms) = row_entries (rows_of m.id) ∷ contents rows_of ms

module _ {Filter : Type 0} {lib : Bloom.Lib Filter} (law : Bloom.IsLawful lib) where
  IsBuilt-drains :
      (rows : List Row) (r : SsTableReader Filter)
      → IsBuilt lib rows r
      → drain (length r.mmap + 1) (iter r) ≡ some (row_entries rows, none)
  IsBuilt-drains rows r b =
      let (s, opens, drains) =
        build_sstable-iter law b.expected rows b.fits b.small b.filter_small in
      subst (λ x. drain (length x.mmap + 1) (iter x) ≡ some (row_entries rows, none))
        (ok-injective (sym opens ∙ b.opens)) drains

  IsBuilt-lookup :
      (rows : List Row) (r : SsTableReader Filter)
      → IsBuilt lib rows r
      → (key : Bytes) (read_seq : ℕ)
      → get lib r key read_seq
        ≡ some (ok (if lib.check r.bloom key then lookup (row_entries rows) key read_seq else none))
  IsBuilt-lookup rows r b key read_seq =
      let (s, opens, known, rebuilt, reads) =
        table_lookup law b.expected rows b.fits b.sorted b.small b.filter_small in
      subst
        (λ x.
          get lib x key read_seq
          ≡ some
              (ok (if lib.check x.bloom key then lookup (row_entries rows) key read_seq else none)))
        (ok-injective (sym opens ∙ b.opens)) (reads key read_seq)

  -- The engine sees the rows through a reader whose filter knows every key.
  pub IsBuilt-Serves :
      (read_file : Bytes → Result Fault Bytes) (e : Engine (SsTableReader Filter)) (m : SstMeta)
      (rows : List Row) (r : SsTableReader Filter)
      → reader_of m.id e.levels.readers ≡ some r
      → IsBuilt lib rows r
      → ((key : Bytes) → lib.check r.bloom key ≡ true)
      → Serves (file_tables lib read_file) e m (row_entries rows)
  IsBuilt-Serves read_file e m rows r q b all = record {
    reader = r;
    opened = q;
    lists = rw (IsBuilt-drains rows r b) refl;
    sorted = b.sorted;
    finds = λ key read_seq. rw (IsBuilt-lookup rows r b key read_seq, all key) refl;
  }

  iterators-contents :
      (read_file : Bytes → Result Fault Bytes) (rows_of : ℕ → List Row)
      (readers : Readers (SsTableReader Filter)) (ms : List SstMeta)
      → All (IsOpen lib rows_of readers) ms
      → iterators (file_tables lib read_file) readers ms ≡ contents rows_of ms
  unfolding iterators contents
  iterators-contents read_file rows_of readers [] h = refl
  iterators-contents read_file rows_of readers (m ∷ ms) ((r, q, b), h) =
      rw
        (
          iterators,
          q,
          IsBuilt-drains (rows_of m.id) r b,
          iterators-contents read_file rows_of readers ms h,
        )
        refl

  open-any_panics :
      (read_file : Bytes → Result Fault Bytes) (rows_of : ℕ → List Row)
      (readers : Readers (SsTableReader Filter)) (ms : List SstMeta)
      → All (IsOpen lib rows_of readers) ms
      → any_panics (file_tables lib read_file) readers ms ≡ false
  unfolding any_panics
  open-any_panics read_file rows_of readers [] h = refl
  open-any_panics read_file rows_of readers (m ∷ ms) ((r, q, b), h) =
      rw
        (
          any_panics,
          q,
          IsBuilt-drains (rows_of m.id) r b,
          open-any_panics read_file rows_of readers ms h,
        )
        refl

  contents-All :
      (rows_of : ℕ → List Row) (readers : Readers (SsTableReader Filter)) (ms : List SstMeta)
      → All (IsOpen lib rows_of readers) ms
      → All IsSorted (contents rows_of ms) × All (All IsEncodable) (contents rows_of ms)
  unfolding contents
  contents-All rows_of readers [] h = (tt, tt)
  contents-All rows_of readers (m ∷ ms) ((r, q, b), h) =
      let (s, e) = contents-All rows_of readers ms h in ((b.sorted, s), (b.fits, e))

In-All : (es : List BlockEntry) (x : BlockEntry) → All IsEncodable es → In x es → IsEncodable x
In-All [] x h i = elim i [ ]
In-All (e ∷ es) x (h, hs) here = h
In-All (e ∷ es) x (h, hs) (there i) = In-All es x hs i

nth-IsEncodable :
    (its : List (List BlockEntry)) (i : ℕ) → All (All IsEncodable) its → All IsEncodable (nth i its)
unfolding nth
nth-IsEncodable [] i h = tt
nth-IsEncodable (l ∷ ls) zero (h, hs) = h
nth-IsEncodable (l ∷ ls) (suc i) (h, hs) = nth-IsEncodable ls i hs

entry-IsEncodable : (x : BlockEntry) → IsEncodable x → IsEncodable (row_entry (row_of_entry x))
entry-IsEncodable x h = record {
  seq_fits = h.seq_fits;
  key_fits = h.key_fits;
  value_fits = shorter x.tombstone;
}
  where
    shorter : (t : Bool) → length (Builder.or_default (value_of t x.value)) < u32_mod
    shorter true = omega arith
    shorter false = h.value_fits

rows-IsEncodable :
    (rows : List Row)
    → ((r : Row) → In r rows → IsEncodable (row_entry r))
    → All IsEncodable (row_entries rows)
unfolding row_entries
rows-IsEncodable [] h = tt
rows-IsEncodable (r ∷ rs) h = (h r here, rows-IsEncodable rs (λ s i. h s (there i)))

-- The rows of the merge fit where those of the sources do.
merged-IsEncodable :
    (its : List (List BlockEntry)) (rows : List Row)
    → All (All IsEncodable) its
    → NewestOf its rows
    → All IsEncodable (row_entries rows)
merged-IsEncodable its rows h n = rows-IsEncodable rows (λ r i.
    let f = n.sound r i in
    subst (λ s. IsEncodable (row_entry s)) (sym f.row)
      (entry-IsEncodable f.entry
        (In-All (nth f.source its) f.entry (nth-IsEncodable its f.source h) f.member)))

module _ {Filter : Type 0} {lib : Bloom.Lib Filter} (bloom_law : Bloom.IsLawful lib)
    (heap : MaxHeap) (codec : Json) (path_of : ℕ → Bytes)
    (read_file : Bytes → Result Fault Bytes) where
  -- Compact levels whose level 0 has a table, with a lawful heap and filter and a codec that prints every
  -- manifest, where each table to compact is open with a reader of the file that a builder wrote of its
  -- rows: with ascending keys, fields that fit, and data and filter below 4 GiB. The data and the filter
  -- of the merged rows are below 4 GiB too. The compaction ends. The new table has rows with the newest
  -- version of each key of the compacted tables, and no others. It is open, its reader is again of a file
  -- that a builder wrote of such rows, and at every snapshot it answers every key that the reader's filter
  -- knows from them, and nothing for any other key. Exactly the compacted tables are replaced by it in the
  -- manifest, and in memory it is put before the tables of level 0.
  pub run_l0_compaction-IsBuilt :
      (c : Compacting (SsTableReader Filter)) (m : SstMeta) (ms : List SstMeta)
      (ls : List (List SstMeta)) (rows_of : ℕ → List Row) (file_of : Manifest → Bytes)
      → c.levels.levels ≡ (m ∷ ms) ∷ ls
      → IsLawful heap
      → All (IsOpen lib rows_of c.levels.readers) (compacted (m ∷ ms) (first_level ls))
      → ((man : Manifest) → Manifest.save codec man ≡ ok (file_of man))
      → length (
          entries_bytes (
            row_entries
              (merged_rows heap (contents rows_of (compacted (m ∷ ms) (first_level ls))))))
        < u32_mod
      → length (
          Bloom.to_bytes lib
            (add_rows lib
              (Builder.new lib 1000)
              (merged_rows heap (contents rows_of (compacted (m ∷ ms) (first_level ls))))).bloom)
        < u32_mod
      → (rows : List Row) × (new : SstMeta) × (r : SsTableReader Filter) × (after : Compacting
          (SsTableReader Filter))
        × (run_l0_compaction lib heap (file_tables lib read_file) codec path_of (open_table lib) c
            ≡ (done, after))
        × NewestOf (contents rows_of (compacted (m ∷ ms) (first_level ls))) rows
        × IsBuilt lib rows r
        × ((key : Bytes) (read_seq : ℕ)
            → get lib r key read_seq
              ≡ some (
                  ok (
                    if lib.check r.bloom key
                    then lookup (row_entries rows) key read_seq
                    else none)))
        × Compacted codec (m ∷ ms) ls (compacted (m ∷ ms) (first_level ls)) new r c after
  run_l0_compaction-IsBuilt c m ms ls rows_of file_of q law open_tables saves small filter_small =
      let gone = compacted (m ∷ ms) (first_level ls) in
      let its = contents rows_of gone in
      let same_rows =
        iterators-contents bloom_law read_file rows_of c.levels.readers gone open_tables in
      let (sorted, fit) = contents-All bloom_law rows_of c.levels.readers gone open_tables in
      let (ran, newest) = merge_all-NewestOf heap its law sorted lib in
      let fits = merged-IsEncodable its (merged_rows heap its) fit newest in
      let (r, opens, known, rebuilt, reads) =
        table_lookup bloom_law 1000 (merged_rows heap its) fits newest.sorted small filter_small in
      let (new, after, compacts, holds) =
        run_l0_compaction-Compacted lib heap (file_tables lib read_file) codec path_of
          (open_table lib) c m ms ls r file_of q law
          (open-any_panics bloom_law read_file rows_of c.levels.readers gone open_tables)
          (subst (All IsSorted) (sym same_rows) sorted) saves
          (subst (λ x. open_table lib (build_sstable lib 1000 (merged_rows heap x)) ≡ ok r)
            (sym same_rows) opens) in
      (
        merged_rows heap its,
        new,
        r,
        after,
        compacts,
        newest,
        record {
          expected = 1000;
          opens = opens;
          fits = fits;
          sorted = newest.sorted;
          small = small;
          filter_small = filter_small;
        },
        reads,
        holds,
      )
