-- ===== src/Lsm/Compaction/Tests.antt =====
-- A compaction of two tables of level 0 and one of level 1, and the theorems at it.
use exepense_db.Base.{
  ℕ, ◌≤◌, ◌≡◌, refl, Bool, true, false, none, some, List, [], ◌∷◌, Result, ok, err, All,
}
use exepense_db.Base.Order.{Bytes, cmp}
use exepense_db.Base.Members.{In, nth, total}
use exepense_db.Sstable.Error.{Fault, panics}
use exepense_db.Sstable.Block.{BlockEntry}
use exepense_db.Sstable.Builder
use exepense_db.Sstable.Table.Sorted.{IsSorted}
use exepense_db.Sstable.Table.Rows.{Row, add_rows}
use exepense_db.Sstable.Table.Fixed.{any_key}
use exepense_db.Lsm.Manifest
use exepense_db.Lsm.Manifest.{SstMeta, Manifest, ManifestError, json, Json}
use exepense_db.Lsm.Levels.{Tables, reader_of, l0_count}
use exepense_db.Lsm.Compaction.{
  Compacting, done, failed, fill, take_next, first_level, compacted, overlapping, min_of, max_of,
  iterators, any_panics, merge_all, run_l0_compaction, maybe_trigger_compaction,
}
use exepense_db.Lsm.Compaction.Merge.{merge_rows}
use exepense_db.Lsm.Compaction.Sources.{NewestOf, merged_rows, merge_all-NewestOf}
use exepense_db.Lsm.Compaction.Install.{Replaced}
use exepense_db.Lsm.Compaction.Run.{
  Compacted, run_l0_compaction-Compacted, run_l0_compaction-failed,
  maybe_trigger_compaction-l0_count,
}
use exepense_db.Lsm.Compaction.Samples.{prints, prints_file, prints_lem, path_of, meta}
use exepense_db.Lsm.Compaction.Heap.{least_first, least_first-IsLawful, take_least}

abbrev entry : ℕ → ℕ → Bool → ℕ → BlockEntry
entry k s dead v = record { key = k ∷ []; seq = s; tombstone = dead; value = v ∷ [] }

-- The newer table of level 0 changes `a` and deletes `b`.
abbrev newer : List BlockEntry
newer = entry 97 5 false 1 ∷ entry 98 6 true 0 ∷ []

abbrev older : List BlockEntry
older = entry 97 2 false 2 ∷ entry 99 3 false 3 ∷ []

abbrev below : List BlockEntry
below = entry 98 1 false 4 ∷ []

-- A reader that holds the entries of its table.
abbrev lists : Tables (List BlockEntry)
lists = record { open_path = λ p. err panics; get = λ r k s. ok none; entries = λ r. (r, none) }

abbrev prints_not : Json
prints_not = record { from_slice = λ b. none; to_writer_pretty = λ m. none }

abbrev l0 : List SstMeta
l0 = meta 3 97 98 ∷ meta 2 97 99 ∷ []

-- The second table of level 1 does not overlap.
abbrev l1 : List SstMeta
l1 = meta 1 98 98 ∷ meta 0 122 122 ∷ []

abbrev start : Compacting (List BlockEntry)
start = record {
  levels = record {
    levels = l0 ∷ l1 ∷ [];
    readers = (3, newer) ∷ (2, older) ∷ (1, below) ∷ (0, []) ∷ [];
  };
  manifest = record Manifest.new { next_sst_id = 4; levels = l0 ∷ l1 ∷ [] };
  manifest_file = none;
}

abbrev its : List (List BlockEntry)
its = newer ∷ older ∷ below ∷ []

its-IsSorted : All IsSorted its
unfolding cmp
its-IsSorted = (((refl, tt), (tt, tt)), (((refl, tt), (tt, tt)), ((tt, tt), tt)))

-- The newest version of `a` and of `b`, which is a deletion, and the only one of `c`.
abbrev rows : List Row
rows =
    record { key = 97 ∷ []; seq = 5; value = some (1 ∷ []) }
    ∷ record { key = 98 ∷ []; seq = 6; value = none }
    ∷ record { key = 99 ∷ []; seq = 3; value = some (3 ∷ []) }
    ∷ []

merged : merged_rows least_first its ≡ rows
unfolding merged_rows merge_rows fill take_next total take_least cmp
merged = refl

merge_all-NewestOf_example :
    (merge_all any_key least_first its
      ≡ some (add_rows any_key (Builder.new any_key 1000) (merged_rows least_first its)))
    × NewestOf its (merged_rows least_first its)
merge_all-NewestOf_example =
    merge_all-NewestOf least_first its least_first-IsLawful its-IsSorted any_key

abbrev gone : List SstMeta
gone = compacted l0 (first_level (l1 ∷ []))

sources-IsSorted : All IsSorted (iterators lists start.levels.readers gone)
unfolding cmp iterators overlapping min_of max_of reader_of
sources-IsSorted = (((refl, tt), (tt, tt)), (((refl, tt), (tt, tt)), ((tt, tt), tt)))

calm : any_panics lists start.levels.readers gone ≡ false
unfolding cmp any_panics overlapping min_of max_of reader_of
calm = refl

abbrev accepts : Bytes → Result Fault (List BlockEntry)
accepts bytes = ok []

prints_not_lem : (man : Manifest) → Manifest.save prints_not man ≡ err json
unfolding Manifest.save
prints_not_lem man = refl

run_l0_compaction-Compacted_example :
    (new : SstMeta) × (after : Compacting (List BlockEntry)) × (run_l0_compaction any_key
        least_first lists prints path_of accepts start
      ≡ (done, after))
    × Compacted prints l0 (l1 ∷ []) gone new [] start after
run_l0_compaction-Compacted_example =
    run_l0_compaction-Compacted any_key least_first lists prints path_of accepts start
      (meta 3 97 98) (meta 2 97 99 ∷ []) (l1 ∷ []) [] prints_file refl least_first-IsLawful calm
      sources-IsSorted prints_lem refl

run_l0_compaction-failed_example :
    (new : SstMeta) × (after : Compacting (List BlockEntry)) × (run_l0_compaction any_key
        least_first lists prints_not path_of accepts start
      ≡ (failed, after))
    × Replaced gone new start.manifest.levels after.manifest.levels
    × (after.manifest_file ≡ start.manifest_file)
    × (after.levels ≡ start.levels)
run_l0_compaction-failed_example =
    run_l0_compaction-failed any_key least_first lists prints_not path_of accepts start
      (meta 3 97 98) (meta 2 97 99 ∷ []) (l1 ∷ []) json refl least_first-IsLawful calm
      sources-IsSorted prints_not_lem

maybe_trigger_compaction-l0_count_example :
    ((x : SstMeta)
      → In x (nth 0 start.levels.levels)
      → In x (
          nth 0
            (maybe_trigger_compaction any_key least_first lists prints path_of accepts true
              start).levels.levels))
    × (l0_count start.levels
        ≤ l0_count
            (maybe_trigger_compaction any_key least_first lists prints path_of accepts true
              start).levels)
maybe_trigger_compaction-l0_count_example =
    maybe_trigger_compaction-l0_count any_key least_first lists prints path_of accepts true start
