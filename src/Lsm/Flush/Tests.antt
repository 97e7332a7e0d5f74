-- ===== src/Lsm/Flush/Tests.antt =====
-- The theorems on flushing at a small memtable.
use exepense_db.Base.{
  none, if◌then◌else◌, ℕ, ◌<◌, ◌≡◌, refl, true, some, [], ◌∷◌, length, ok, All, arith,
}
use exepense_db.Base.Order.{Bytes, cmp}
use exepense_db.Base.Words.{to_le, u32_mod}
use exepense_db.Base.BtreeMap
use exepense_db.Memtable.{value, tombstone, ImmutableMemTable, imm_get}
use exepense_db.Sstable.Bloom
use exepense_db.Sstable.Builder
use exepense_db.Sstable.Block.{entry_bytes}
use exepense_db.Sstable.Block.Entries.{IsEncodable, entries_bytes}
use exepense_db.Sstable.Reader.{SsTableReader, open_table, get}
use exepense_db.Sstable.Table.Rows.{row_entries, add_rows}
use exepense_db.Sstable.Table.Fixed.{AnyKey, any_key, any_key-IsLawful, to_bytes_small}
use exepense_db.Lsm.Flush.{flush_to_sstable}
use exepense_db.Lsm.Flush.Proofs.{flushed_entries, rows_of, flush-imm_get}
use exepense_db.Lsm.Flush.Range.{flush-in_range}
use exepense_db.Lsm.Engine.{in_range}

abbrev imm : ImmutableMemTable
imm = record {
  entries =
      (97 ∷ [], value (120 ∷ []) 1) ∷ (98 ∷ [], tombstone 2) ∷ (98 ∷ 99 ∷ [], value [] 3) ∷ [];
}

abbrev path_of : ℕ → Bytes
path_of n = 115 ∷ n ∷ []

imm-IsSorted : BtreeMap.IsSorted imm.entries
unfolding cmp
imm-IsSorted = ((refl, (refl, tt)), ((refl, tt), (tt, tt)))

imm-IsEncodable : All IsEncodable (flushed_entries imm)
unfolding row_entries rows_of
imm-IsEncodable = omega arith

imm_small : length (entries_bytes (flushed_entries imm)) < u32_mod
unfolding row_entries rows_of entries_bytes entry_bytes to_le
imm_small = omega arith

flush-imm_get_example :
    (r : SsTableReader AnyKey) × (open_table any_key (flush_to_sstable any_key path_of imm 4).1
      ≡ ok r)
    × (r.bloom
        ≡ Bloom.rebuilt any_key
            (add_rows any_key (Builder.new any_key 3) (rows_of imm.entries)).bloom)
    × ((key : Bytes) (read_seq : ℕ)
        → get any_key r key read_seq
          ≡ some (ok (if any_key.check r.bloom key then imm_get imm key read_seq else none)))
flush-imm_get_example =
    flush-imm_get any_key-IsLawful path_of imm 4 imm-IsEncodable imm-IsSorted imm_small
      (to_bytes_small _)

has_b : BtreeMap.get (98 ∷ []) imm.entries ≡ some (tombstone 2)
unfolding BtreeMap.get cmp
has_b = refl

flush-in_range_example : in_range (98 ∷ []) (flush_to_sstable any_key path_of imm 4).0 ≡ true
flush-in_range_example =
    flush-in_range any_key path_of imm 4 (98 ∷ []) (tombstone 2) imm-IsSorted has_b
