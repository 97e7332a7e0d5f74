-- ===== src/Lsm/Compaction/Built/Tests.antt =====
-- A compaction of two tables of level 0, read from their files.
use exepense_db.Base.{
  ℕ, ◌<◌, ◌≡◌, refl, true, none, some, List, [], ◌∷◌, length, ok, All, ap, ◌==◌, if◌then◌else◌,
  arith,
}
use exepense_db.Base.Order.{Bytes, cmp, starts_with}
use exepense_db.Base.Words.{u32_mod, to_le}
use exepense_db.Base.Members.{total}
use exepense_db.Sstable.Bloom
use exepense_db.Sstable.Builder
use exepense_db.Sstable.Block.{entry_bytes}
use exepense_db.Sstable.Block.Entries.{IsEncodable, entries_bytes}
use exepense_db.Sstable.Table.Sorted.{IsSorted, lookup}
use exepense_db.Sstable.Table.Rows.{Row, row_entries, add_rows}
use exepense_db.Sstable.Table.Fixed.{AnyKey, any_key, any_key-IsLawful, to_bytes_small}
use exepense_db.Sstable.Reader.{SsTableReader, open_table, get}
use exepense_db.Lsm.Manifest
use exepense_db.Lsm.Manifest.{SstMeta, Manifest, Json}
use exepense_db.Lsm.Levels.{reader_of}
use exepense_db.Memtable
use exepense_db.Base.BtreeMap
use exepense_db.Base.BtreeMap.{BtreeMap}
use exepense_db.Lsm.Mvcc.{begin_read}
use exepense_db.Lsm.Engine.{Engine, scan_prefix, get as get_key}
use exepense_db.Lsm.Engine.ScanTables.{Serves, scan_prefix-older}
use exepense_db.Lsm.Tables.{file_tables}
use exepense_db.Lsm.Compaction.{
  Compacting, done, fill, take_next, first_level, compacted, overlapping, run_l0_compaction,
}
use exepense_db.Lsm.Compaction.Merge.{merge_rows}
use exepense_db.Lsm.Compaction.Sources.{NewestOf, merged_rows}
use exepense_db.Lsm.Compaction.Run.{Compacted}
use exepense_db.Lsm.Compaction.Built.{
  IsBuilt, IsOpen, contents, IsBuilt-Serves, run_l0_compaction-IsBuilt,
}
use exepense_db.Lsm.Compaction.Samples.{
  prints, prints_file, prints_lem, no_file, path_of, meta, table_of,
}
use exepense_db.Lsm.Compaction.Heap.{least_first, least_first-IsLawful, take_least}

-- The newer table changes `a` and deletes `b`.
abbrev newer : List Row
newer =
    record { key = 97 ∷ []; seq = 5; value = some (1 ∷ []) }
    ∷ record { key = 98 ∷ []; seq = 6; value = none }
    ∷ []

abbrev older : List Row
older =
    record { key = 97 ∷ []; seq = 2; value = some (2 ∷ []) }
    ∷ record { key = 99 ∷ []; seq = 3; value = some (3 ∷ []) }
    ∷ []

abbrev rows_of : ℕ → List Row
rows_of id = if id == 3 then newer else older

rows-IsEncodable : All IsEncodable (row_entries newer) × All IsEncodable (row_entries older)
unfolding row_entries
rows-IsEncodable = omega arith

rows-IsSorted : IsSorted (row_entries newer) × IsSorted (row_entries older)
unfolding row_entries cmp
rows-IsSorted = (((refl, tt), (tt, tt)), ((refl, tt), (tt, tt)))

rows_small :
    (length (entries_bytes (row_entries newer)) < u32_mod)
    × (length (entries_bytes (row_entries older)) < u32_mod)
unfolding row_entries entries_bytes entry_bytes to_le
rows_small = omega arith

newer_full :
    (r : SsTableReader AnyKey) × IsBuilt any_key newer r
    × (r.bloom ≡ Bloom.rebuilt any_key (add_rows any_key (Builder.new any_key 10) newer).bloom)
newer_full = table_of newer rows-IsEncodable.0 rows-IsSorted.0 rows_small.0

abbrev newer_table : (r : SsTableReader AnyKey) × IsBuilt any_key newer r
newer_table = (newer_full.0, newer_full.1)

older_full :
    (r : SsTableReader AnyKey) × IsBuilt any_key older r
    × (r.bloom ≡ Bloom.rebuilt any_key (add_rows any_key (Builder.new any_key 10) older).bloom)
older_full = table_of older rows-IsEncodable.1 rows-IsSorted.1 rows_small.1

abbrev older_table : (r : SsTableReader AnyKey) × IsBuilt any_key older r
older_table = (older_full.0, older_full.1)

abbrev l0 : List SstMeta
l0 = meta 3 97 98 ∷ meta 2 97 99 ∷ []

abbrev start : Compacting (SsTableReader AnyKey)
start = record {
  levels = record { levels = l0 ∷ []; readers = (3, newer_table.0) ∷ (2, older_table.0) ∷ [] };
  manifest = record Manifest.new { next_sst_id = 3; levels = l0 ∷ [] };
  manifest_file = none;
}

abbrev gone : List SstMeta
gone = compacted l0 (first_level [])

tables-IsOpen : All (IsOpen any_key rows_of start.levels.readers) gone
unfolding overlapping reader_of
tables-IsOpen = ((newer_table.0, refl, newer_table.1), ((older_table.0, refl, older_table.1), tt))

merged_small :
    length (entries_bytes (row_entries (merged_rows least_first (contents rows_of gone)))) < u32_mod
unfolding row_entries merged_rows merge_rows fill take_next total take_least cmp contents
    overlapping entries_bytes entry_bytes to_le
merged_small = omega arith

run_l0_compaction-IsBuilt_example :
    (rows : List Row) × (new : SstMeta) × (r : SsTableReader AnyKey) × (after : Compacting
      (SsTableReader AnyKey))
    × (run_l0_compaction any_key least_first
          (file_tables any_key no_file)
          prints
          path_of
          (open_table any_key)
          start
        ≡ (done, after))
    × NewestOf (contents rows_of gone) rows
    × IsBuilt any_key rows r
    × ((key : Bytes) (read_seq : ℕ)
        → get any_key r key read_seq
          ≡ some (
              ok (
                if any_key.check r.bloom key
                then lookup (row_entries rows) key read_seq
                else none)))
    × Compacted prints l0 [] gone new r start after
run_l0_compaction-IsBuilt_example =
    run_l0_compaction-IsBuilt any_key-IsLawful least_first prints path_of no_file start
      (meta 3 97 98) (meta 2 97 99 ∷ []) [] rows_of prints_file refl least_first-IsLawful
      tables-IsOpen prints_lem merged_small (to_bytes_small _)

-- An engine with the two tables and nothing in memory.
abbrev two_tables : Engine (SsTableReader AnyKey)
two_tables = record {
  next_seq = 10;
  memtable = Memtable.new;
  immutable = [];
  wal_file = [];
  levels = start.levels;
  manifest = start.manifest;
}

newer_known : (key : Bytes) → any_key.check newer_table.0.bloom key ≡ true
unfolding add_rows Builder.add newer_full exepense_db.Sstable.Block.add Builder.new entry_bytes
    to_le Bloom.insert
newer_known key = ap (λ f. any_key.check f key) newer_full.2

older_known : (key : Bytes) → any_key.check older_table.0.bloom key ≡ true
unfolding add_rows Builder.add older_full exepense_db.Sstable.Block.add Builder.new entry_bytes
    to_le Bloom.insert
older_known key = ap (λ f. any_key.check f key) older_full.2

newer-Serves : Serves (file_tables any_key no_file) two_tables (meta 3 97 98) (row_entries newer)
unfolding reader_of
newer-Serves =
    IsBuilt-Serves any_key-IsLawful no_file two_tables (meta 3 97 98) newer newer_table.0 refl
      newer_table.1 newer_known

older-Serves : Serves (file_tables any_key no_file) two_tables (meta 2 97 99) (row_entries older)
unfolding reader_of
older-Serves =
    IsBuilt-Serves any_key-IsLawful no_file two_tables (meta 2 97 99) older older_table.0 refl
      older_table.1 older_known

both_have :
    (lookup (row_entries newer) (97 ∷ []) (begin_read 10) ≡ some (1 ∷ []))
    × (lookup (row_entries older) (97 ∷ []) (begin_read 10) ≡ some (2 ∷ []))
unfolding row_entries lookup cmp begin_read
both_have = (refl, refl)

starts : starts_with (97 ∷ []) (97 ∷ []) ≡ true
unfolding starts_with
starts = refl

nothing_written : two_tables.memtable.inner ≡ []
unfolding Memtable.new
nothing_written = refl

scan_prefix-older_example :
    (get_key (file_tables any_key no_file) two_tables (97 ∷ []) ≡ ok (some (1 ∷ [])))
    × (m : BtreeMap Bytes) × (scan_prefix (file_tables any_key no_file) two_tables (97 ∷ []) ≡ ok m)
    × (BtreeMap.get (97 ∷ []) m ≡ some (2 ∷ []))
scan_prefix-older_example =
    scan_prefix-older (file_tables any_key no_file) two_tables (meta 3 97 98) (meta 2 97 99)
      (row_entries newer) (row_entries older) (97 ∷ []) (97 ∷ []) (1 ∷ []) (2 ∷ []) refl
      newer-Serves older-Serves refl nothing_written starts both_have.0 both_have.1
