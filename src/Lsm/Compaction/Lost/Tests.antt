-- ===== src/Lsm/Compaction/Lost/Tests.antt =====
-- A table of level 0 with the keys `a` and `b`, and one of level 1 with `b` and `z`.
use exepense_db.Base.{
  ℕ, suc, zero, ◌<◌, ◌≤◌, ◌≡◌, refl, true, false, none, some, List, [], ◌∷◌, length, ok, All, ◌==◌,
  if◌then◌else◌, arith,
}
use mathlib.Core.List.{reverse}
use exepense_db.Base.Order.{cmp, le_bytes}
use exepense_db.Base.Words.{u32_mod, to_le}
use exepense_db.Base.Members.{In, here, there, nth, total}
use exepense_db.Memtable
use exepense_db.Sstable.Block.{entry_bytes}
use exepense_db.Sstable.Block.Entries.{IsEncodable, entries_bytes}
use exepense_db.Sstable.Table.Sorted.{IsSorted}
use exepense_db.Sstable.Table.Rows.{Row, row_entries}
use exepense_db.Sstable.Table.Fixed.{AnyKey, any_key, any_key-IsLawful, to_bytes_small}
use exepense_db.Sstable.Reader.{SsTableReader, open_table}
use exepense_db.Lsm.Manifest
use exepense_db.Lsm.Manifest.{SstMeta, Manifest, Json}
use exepense_db.Lsm.Levels.{Tables, reader_of}
use exepense_db.Lsm.Tables.{file_tables}
use exepense_db.Lsm.Engine.{Engine, get_immutable, get_at}
use exepense_db.Lsm.Compaction.{
  Compacting, done, fill, take_next, first_level, compacted, overlapping, min_of, max_of, has_id,
  run_l0_compaction,
}
use exepense_db.Lsm.Compaction.Merge.{merge_rows}
use exepense_db.Lsm.Compaction.Sources.{From, merged_rows}
use exepense_db.Lsm.Compaction.Built.{IsBuilt, IsOpen, contents}
use exepense_db.Lsm.Compaction.Lost.{run_l0_compaction-lost}
use exepense_db.Lsm.Compaction.Samples.{
  prints, prints_file, prints_lem, no_file, path_of, meta, table_of,
}
use exepense_db.Lsm.Compaction.Heap.{least_first, least_first-IsLawful, take_least}

abbrev upper : List Row
upper =
    record { key = 97 ∷ []; seq = 5; value = some (1 ∷ []) }
    ∷ record { key = 98 ∷ []; seq = 6; value = none }
    ∷ []

abbrev z_row : Row
z_row = record { key = 122 ∷ []; seq = 3; value = some (3 ∷ []) }

abbrev lower_rows : List Row
lower_rows = record { key = 98 ∷ []; seq = 2; value = some (2 ∷ []) } ∷ z_row ∷ []

abbrev rows_of : ℕ → List Row
rows_of id = if id == 3 then upper else lower_rows

rows-IsEncodable : All IsEncodable (row_entries upper) × All IsEncodable (row_entries lower_rows)
unfolding row_entries
rows-IsEncodable = omega arith

rows-IsSorted : IsSorted (row_entries upper) × IsSorted (row_entries lower_rows)
unfolding row_entries cmp
rows-IsSorted = (((refl, tt), (tt, tt)), ((refl, tt), (tt, tt)))

rows_small :
    (length (entries_bytes (row_entries upper)) < u32_mod)
    × (length (entries_bytes (row_entries lower_rows)) < u32_mod)
unfolding row_entries entries_bytes entry_bytes to_le
rows_small = omega arith

built_of :
    (rows : List Row)
    → All IsEncodable (row_entries rows)
    → IsSorted (row_entries rows)
    → length (entries_bytes (row_entries rows)) < u32_mod
    → (r : SsTableReader AnyKey) × IsBuilt any_key rows r
built_of rows fits sorted small = let (r, b, known) = table_of rows fits sorted small in (r, b)

upper_table : (r : SsTableReader AnyKey) × IsBuilt any_key upper r
upper_table = built_of upper rows-IsEncodable.0 rows-IsSorted.0 rows_small.0

lower_table : (r : SsTableReader AnyKey) × IsBuilt any_key lower_rows r
lower_table = built_of lower_rows rows-IsEncodable.1 rows-IsSorted.1 rows_small.1

abbrev l0 : List SstMeta
l0 = meta 3 97 98 ∷ []

abbrev l1 : List SstMeta
l1 = meta 1 98 122 ∷ []

abbrev start : Compacting (SsTableReader AnyKey)
start = record {
  levels = record { levels = l0 ∷ l1 ∷ []; readers = (3, upper_table.0) ∷ (1, lower_table.0) ∷ [] };
  manifest = record Manifest.new { next_sst_id = 3; levels = l0 ∷ l1 ∷ [] };
  manifest_file = none;
}

abbrev gone : List SstMeta
gone = compacted l0 (first_level (l1 ∷ []))

tables-IsOpen : All (IsOpen any_key rows_of start.levels.readers) gone
unfolding overlapping min_of max_of cmp reader_of
tables-IsOpen = ((upper_table.0, refl, upper_table.1), ((lower_table.0, refl, lower_table.1), tt))

merged_small :
    length (entries_bytes (row_entries (merged_rows least_first (contents rows_of gone)))) < u32_mod
unfolding row_entries merged_rows merge_rows fill take_next total take_least cmp contents
    overlapping min_of max_of entries_bytes entry_bytes to_le
merged_small = omega arith

listed : (i : ℕ) (x : SstMeta) → In x (nth i start.manifest.levels) → has_id x.id gone ≡ true
unfolding nth has_id overlapping min_of max_of cmp
listed zero x here = refl
listed zero x (there i) = elim i [ ]
listed (suc zero) x here = refl
listed (suc zero) x (there i) = elim i [ ]
listed (suc (suc i)) x j = elim j [ ]

z_source : From (contents rows_of gone) z_row
unfolding contents row_entries nth overlapping min_of max_of cmp
z_source = record {
  source = 1;
  entry = record { seq = 3; tombstone = false; key = 122 ∷ []; value = 3 ∷ [] };
  member = there here;
  row = refl;
}

z_above : le_bytes z_row.key (max_of l0) ≡ false
unfolding max_of cmp
z_above = refl

run_l0_compaction-lost_example :
    (rows : List Row) × (s : Row) × (r : SsTableReader AnyKey) × (after : Compacting
      (SsTableReader AnyKey))
    × (run_l0_compaction any_key least_first
          (file_tables any_key no_file)
          prints
          path_of
          (open_table any_key)
          start
        ≡ (done, after))
    × IsBuilt any_key rows r
    × In s rows
    × (s.key ≡ z_row.key)
    × (z_row.seq ≤ s.seq)
    × ((t : Tables (SsTableReader AnyKey)) (e : Engine (SsTableReader AnyKey)) (read_seq : ℕ)
        → e.levels.levels ≡ after.manifest.levels
        → Memtable.get e.memtable z_row.key read_seq ≡ none
        → get_immutable (reverse e.immutable) z_row.key read_seq ≡ none
        → get_at t e z_row.key read_seq ≡ ok none)
run_l0_compaction-lost_example =
    run_l0_compaction-lost any_key-IsLawful least_first prints path_of no_file start (meta 3 97 98)
      [] (l1 ∷ []) rows_of prints_file z_row refl least_first-IsLawful tables-IsOpen prints_lem
      merged_small (to_bytes_small _) listed z_source z_above
