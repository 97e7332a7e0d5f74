-- ===== src/Sstable/Table/Tests.antt =====
-- The theorems on tables at a small table.
use exepense_db.Base.{
  if◌then◌else◌, ℕ, ◌+◌, ◌<◌, ◌≤◌, ◌≡◌, refl, true, max, Option, Result, none, some, List, [], ◌∷◌,
  ◌++◌, length, ok, All, arith,
}
use exepense_db.Base.Order.{Bytes, cmp}
use exepense_db.Base.Words.{to_le, u32_mod}
use exepense_db.Sstable.Block.{BlockEntry, entry_bytes, needed, block_size}
use exepense_db.Sstable.Block.Entries
use exepense_db.Sstable.Block.Entries.{entries_bytes, parse_entry-entry_bytes}
use exepense_db.Sstable.Footer
use exepense_db.Sstable.Footer.{Footer, IsInRange}
use exepense_db.Sstable.Footer.RoundTrip.{decode-encode_footer}
use exepense_db.Sstable.Builder.{IndexEntry, index_buf, seal_block}
use exepense_db.Sstable.Reader.{SsTableReader, open_table, get, iter}
use exepense_db.Sstable.Reader.Drain.{drain}
use exepense_db.Sstable.Reader.Ends.{get-Ends}
use exepense_db.Sstable.Error.{Fault}
use exepense_db.Sstable.Bloom
use exepense_db.Sstable.Builder
use exepense_db.Sstable.Table.Iterate.{build_sstable-iter}
use exepense_db.Sstable.Table.Bounds.{Fits, add_rows-Fits}
use exepense_db.Sstable.Table.Sorted.{IsSorted, lookup}
use exepense_db.Sstable.Table.Rows.{Row, row_entries, add_rows, build_sstable}
use exepense_db.Sstable.Table.Lookup.{table_lookup}
use exepense_db.Sstable.Table.Fixed.{AnyKey, any_key, any_key-IsLawful, to_bytes_small}

abbrev rows : List Row
rows =
    record { key = 97 ∷ []; seq = 1; value = some (120 ∷ []) }
    ∷ record { key = 98 ∷ []; seq = 2; value = none }
    ∷ record { key = 98 ∷ 99 ∷ []; seq = 3; value = some [] }
    ∷ []

rows-IsEncodable : All Entries.IsEncodable (row_entries rows)
unfolding row_entries
rows-IsEncodable = omega arith

rows-IsSorted : IsSorted (row_entries rows)
unfolding row_entries cmp
rows-IsSorted = ((refl, (refl, tt)), ((refl, tt), (tt, tt)))

rows_small : length (entries_bytes (row_entries rows)) < u32_mod
unfolding row_entries entries_bytes entry_bytes to_le
rows_small = omega arith

table_lookup_example :
    (r : SsTableReader AnyKey) × (open_table any_key (build_sstable any_key 3 rows) ≡ ok r)
    × All
        (λ e. any_key.check (add_rows any_key (Builder.new any_key 3) rows).bloom e.key ≡ true)
        (row_entries rows)
    × (r.bloom ≡ Bloom.rebuilt any_key (add_rows any_key (Builder.new any_key 3) rows).bloom)
    × ((key : Bytes) (read_seq : ℕ)
        → get any_key r key read_seq
          ≡ some (
              ok (
                if any_key.check r.bloom key
                then lookup (row_entries rows) key read_seq
                else none)))
table_lookup_example =
    table_lookup any_key-IsLawful 3 rows rows-IsEncodable rows-IsSorted rows_small
      (to_bytes_small _)

-- The lookups of the three rows.
rows_found :
    (lookup (row_entries rows) (97 ∷ []) 1 ≡ some (120 ∷ []))
    × (lookup (row_entries rows) (97 ∷ []) 0 ≡ none)
    × (lookup (row_entries rows) (98 ∷ []) 9 ≡ none)
    × (lookup (row_entries rows) (98 ∷ 99 ∷ []) 3 ≡ some [])
unfolding row_entries lookup cmp
rows_found = (refl, refl, refl, refl)

build_sstable-iter_example :
    (r : SsTableReader AnyKey) × (open_table any_key (build_sstable any_key 3 rows) ≡ ok r)
    × (drain (length r.mmap + 1) (iter r) ≡ some (row_entries rows, none))
build_sstable-iter_example =
    build_sstable-iter any_key-IsLawful 3 rows rows-IsEncodable rows_small (to_bytes_small _)

rows_take : All (λ e. needed e ≤ 17) (row_entries rows)
unfolding row_entries
rows_take = omega arith

add_rows-Fits_example :
    All
      (Fits
        (max block_size 17)
        (length (seal_block (add_rows any_key (Builder.new any_key 3) rows)).data_buf))
      (seal_block (add_rows any_key (Builder.new any_key 3) rows)).blocks
add_rows-Fits_example = add_rows-Fits any_key 17 3 rows rows_take

-- A reader whose file ends inside an entry.
abbrev cut_reader : SsTableReader AnyKey
cut_reader = record {
  mmap = 1 ∷ 2 ∷ 3 ∷ [];
  footer = record {
    index_offset = 3;
    index_len = 9;
    bloom_offset = 0;
    bloom_len = 0;
    entry_count = 1;
    min_seq = 0;
    bloom_bits = 8;
    bloom_k = 1;
  };
  bloom = record { any = true };
}

get-Ends_example :
    ((x : Result Fault (Option Bytes)) × (get any_key cut_reader (97 ∷ []) 5 ≡ some x))
    × ((es : List BlockEntry) × (w : Option Fault) × (drain
            (length cut_reader.mmap + 1)
            (iter cut_reader)
          ≡ some (es, w)))
get-Ends_example = get-Ends any_key cut_reader (97 ∷ []) 5

abbrev footer : Footer
footer = record {
  index_offset = 1000;
  index_len = 200;
  bloom_offset = 1200;
  bloom_len = 512;
  entry_count = 42;
  min_seq = 1;
  bloom_bits = 100;
  bloom_k = 7;
}

footer-IsInRange : IsInRange footer
footer-IsInRange = omega arith

decode-encode_footer_example : Footer.decode ((1 ∷ 2 ∷ []) ++ Footer.encode footer) ≡ some footer
decode-encode_footer_example = decode-encode_footer (1 ∷ 2 ∷ []) footer footer-IsInRange
