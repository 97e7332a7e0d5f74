-- ===== src/Lsm/Compaction/Samples.antt =====
-- Small tables on disk, and a codec of manifests, for the tests of a compaction.
use exepense_db.Base.{ℕ, ◌<◌, ◌≡◌, refl, none, some, List, [], ◌∷◌, length, Result, ok, err, All}
use exepense_db.Base.Order.{Bytes}
use exepense_db.Base.Words.{u32_mod}
use exepense_db.Sstable.Error.{Fault, fails, io}
use exepense_db.Sstable.Bloom
use exepense_db.Sstable.Builder
use exepense_db.Sstable.Block.Entries.{IsEncodable, entries_bytes}
use exepense_db.Sstable.Table.Sorted.{IsSorted}
use exepense_db.Sstable.Table.Rows.{Row, row_entries, add_rows}
use exepense_db.Sstable.Table.Lookup.{table_lookup}
use exepense_db.Sstable.Table.Fixed.{AnyKey, any_key, any_key-IsLawful, to_bytes_small}
use exepense_db.Sstable.Reader.{SsTableReader}
use exepense_db.Lsm.Manifest
use exepense_db.Lsm.Manifest.{SstMeta, Manifest, Json}
use exepense_db.Lsm.Compaction.Built.{IsBuilt}

abbrev pub prints : Json
prints = record { from_slice = λ b. none; to_writer_pretty = λ m. some (m.next_sst_id ∷ []) }

abbrev pub prints_file : Manifest → Bytes
prints_file m = m.next_sst_id ∷ []

pub prints_lem : (man : Manifest) → Manifest.save prints man ≡ ok (prints_file man)
unfolding Manifest.save
prints_lem man = refl

abbrev pub no_file : Bytes → Result Fault Bytes
no_file path = err (fails io)

abbrev pub path_of : ℕ → Bytes
path_of n = 115 ∷ n ∷ []

abbrev pub meta : ℕ → ℕ → ℕ → SstMeta
meta id lo hi = record {
  id = id;
  min_key = lo ∷ [];
  max_key = hi ∷ [];
  size_bytes = 0;
  entry_count = 0;
  min_seq = 0;
  path = path_of id;
}

-- The table of some rows, as its reader has it. The filter knows every key where there is a row.
pub table_of :
    (rows : List Row)
    → All IsEncodable (row_entries rows)
    → IsSorted (row_entries rows)
    → length (entries_bytes (row_entries rows)) < u32_mod
    → (r : SsTableReader AnyKey) × IsBuilt any_key rows r
      × (r.bloom ≡ Bloom.rebuilt any_key (add_rows any_key (Builder.new any_key 10) rows).bloom)
table_of rows fits sorted small =
    let (r, opens, known, rebuilt, reads) =
      table_lookup any_key-IsLawful 10 rows fits sorted small (to_bytes_small _) in
    (
      r,
      record {
        expected = 10;
        opens = opens;
        fits = fits;
        sorted = sorted;
        small = small;
        filter_small = to_bytes_small _;
      },
      rebuilt,
    )
