-- ===== src/Lsm/Flush/Proofs.antt =====
-- A flushed memtable answers as the memtable does, and its key range covers its keys.
use exepense_db.Base.{
  if◌then◌else◌, ℕ, ◌<◌, ◌≡◌, refl, ap, ◌∙◌, none, some, List, [], ◌∷◌, length, All, ok, arith,
}
use exepense_db.Base.Order.{Bytes, same_sym}
use exepense_db.Base.Words.{u32_mod}
use exepense_db.Base.BtreeMap
use exepense_db.Base.BtreeMap.{BtreeMap}
use exepense_db.Memtable
use exepense_db.Memtable.{
  VersionedValue, value, tombstone, ImmutableMemTable, imm_get, visible, read_at,
}
use exepense_db.Sstable.Bloom
use exepense_db.Sstable.Bloom.{IsLawful}
use exepense_db.Sstable.Builder
use exepense_db.Sstable.Builder.{SsTableBuilder, finish, add}
use exepense_db.Sstable.Block.{BlockEntry}
use exepense_db.Sstable.Block.Entries.{IsEncodable, entries_bytes}
use exepense_db.Sstable.Reader.{SsTableReader, open_table, get}
use exepense_db.Sstable.Table.Sorted
use exepense_db.Sstable.Table.Sorted.{lookup}
use exepense_db.Sstable.Table.Rows.{Row, row_entries, add_rows, build_sstable}
use exepense_db.Sstable.Table.Lookup.{table_lookup}
use exepense_db.Lsm.Flush.{FlushState, flush_entry, flush_loop, flush_to_sstable}

-- The row of an entry of the memtable.
abbrev pub row_of : Bytes → VersionedValue → Row
row_of key (value d s) = record { key = key; seq = s; value = some d }
row_of key (tombstone s) = record { key = key; seq = s; value = none }

unfoldable pub rows_of : BtreeMap VersionedValue → List Row
rows_of [] = []
rows_of ((key, val) ∷ m) = row_of key val ∷ rows_of m

abbrev pub flushed_entries : ImmutableMemTable → List BlockEntry
flushed_entries imm = row_entries (rows_of imm.entries)

lookup-rows_of :
    (m : BtreeMap VersionedValue) (key : Bytes) (read_seq : ℕ)
    → lookup (row_entries (rows_of m)) key read_seq ≡ visible (BtreeMap.get key m) read_seq
unfolding lookup row_entries rows_of BtreeMap.get read_at
lookup-rows_of [] key read_seq = refl
lookup-rows_of ((j, value d s) ∷ m) key read_seq =
    rw (same_sym key j) (ground (arith, lookup-rows_of m key read_seq))
lookup-rows_of ((j, tombstone s) ∷ m) key read_seq =
    rw (same_sym key j) (ground (arith, lookup-rows_of m key read_seq))

rows_of-Above :
    (k : Bytes) (m : BtreeMap VersionedValue)
    → BtreeMap.Above k m
    → Sorted.Above k (row_entries (rows_of m))
unfolding row_entries rows_of
rows_of-Above k [] h = tt
rows_of-Above k ((j, value d s) ∷ m) (p, h) = (p, rows_of-Above k m h)
rows_of-Above k ((j, tombstone s) ∷ m) (p, h) = (p, rows_of-Above k m h)

rows_of-IsSorted :
    (m : BtreeMap VersionedValue) → BtreeMap.IsSorted m → Sorted.IsSorted (row_entries (rows_of m))
unfolding row_entries rows_of
rows_of-IsSorted [] h = tt
rows_of-IsSorted ((j, value d s) ∷ m) (p, h) = (rows_of-Above j m p, rows_of-IsSorted m h)
rows_of-IsSorted ((j, tombstone s) ∷ m) (p, h) = (rows_of-Above j m p, rows_of-IsSorted m h)

module _ {Filter : Type 0} (lib : Bloom.Lib Filter) where
  flush_loop-rows_of :
      (m : BtreeMap VersionedValue) (st : FlushState Filter)
      → (flush_loop lib st m).builder ≡ add_rows lib st.builder (rows_of m)
  unfolding flush_loop flush_entry rows_of add_rows
  flush_loop-rows_of [] st = refl
  flush_loop-rows_of ((j, value d s) ∷ m) st =
      flush_loop-rows_of m (flush_entry lib st j (value d s))
  flush_loop-rows_of ((j, tombstone s) ∷ m) st =
      flush_loop-rows_of m (flush_entry lib st j (tombstone s))

  file_lem :
      (path_of : ℕ → Bytes) (imm : ImmutableMemTable) (sst_id : ℕ)
      → (flush_to_sstable lib path_of imm sst_id).1
        ≡ build_sstable lib (length imm.entries) (rows_of imm.entries)
  unfolding flush_to_sstable build_sstable Memtable.iter
  file_lem path_of imm sst_id = ap (finish lib) (flush_loop-rows_of imm.entries _)

module _ {Filter : Type 0} {lib : Bloom.Lib Filter} (law : IsLawful lib) where
  -- Flush a frozen memtable whose entries are in key order, whose fields fit and whose data and filter
  -- are below 4 GiB, with a lawful filter. The written file opens. The reader's filter has the bitmap and
  -- the sizes of the builder's, but the hash keys of `from_bytes`; for a key that it knows, the table
  -- answers at every snapshot as the memtable did, and for any other key it answers nothing.
  pub flush-imm_get :
      (path_of : ℕ → Bytes) (imm : ImmutableMemTable) (sst_id : ℕ)
      → All IsEncodable (flushed_entries imm)
      → BtreeMap.IsSorted imm.entries
      → length (entries_bytes (flushed_entries imm)) < u32_mod
      → length (
          Bloom.to_bytes lib
            (add_rows lib (Builder.new lib (length imm.entries)) (rows_of imm.entries)).bloom)
        < u32_mod
      → (r : SsTableReader Filter) × (open_table lib (flush_to_sstable lib path_of imm sst_id).1
          ≡ ok r)
        × (r.bloom
            ≡ Bloom.rebuilt lib
                (add_rows lib (Builder.new lib (length imm.entries)) (rows_of imm.entries)).bloom)
        × ((key : Bytes) (read_seq : ℕ)
            → get lib r key read_seq
              ≡ some (ok (if lib.check r.bloom key then imm_get imm key read_seq else none)))
  unfolding imm_get
  flush-imm_get path_of imm sst_id h sorted small filter_small =
      let (r, opened, known, rebuilt, reads) =
        table_lookup law (length imm.entries) (rows_of imm.entries) h
          (rows_of-IsSorted imm.entries sorted) small filter_small in
      (
        r,
        ap (open_table lib) (file_lem lib path_of imm sst_id) ∙ opened,
        rebuilt,
        λ key read_seq.
            reads key read_seq
            ∙ ap (λ o. some (ok (if lib.check r.bloom key then o else none)))
                (lookup-rows_of imm.entries key read_seq),
      )
