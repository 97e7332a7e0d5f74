-- ===== src/Lsm/Flush.antt =====
-- crates/lsm/src/flush.rs: a frozen memtable written as a table. The file is the list of its bytes;
-- `path_of` stands for the joining of the directory and the formatted file name, and the file system
-- is taken not to fail.
pub mod Proofs
pub mod Range
mod Tests
use exepense_db.Base.{ℕ, Option, none, some, List, [], ◌∷◌, length}
use exepense_db.Base.Order.{Bytes}
use exepense_db.Base.BtreeMap.{BtreeMap}
use exepense_db.Memtable
use exepense_db.Memtable.{VersionedValue, value, tombstone, ImmutableMemTable}
use exepense_db.Sstable.Bloom
use exepense_db.Sstable.Builder
use exepense_db.Sstable.Builder.{SsTableBuilder, add, finish}
use exepense_db.Lsm.Manifest.{SstMeta}

-- What the loop of `flush_to_sstable` keeps.
pub record FlushState (Filter : Type 0) : Type 0 where
  pub builder : SsTableBuilder Filter
  pub min_key : Option Bytes
  pub max_key : Option Bytes

-- `if min_key.is_none() { … }`
abbrev pub or_first : Option Bytes → Bytes → Option Bytes
or_first none key = some key
or_first (some k) key = some k

abbrev pub unwrap_or_default : Option Bytes → Bytes
unwrap_or_default none = []
unwrap_or_default (some k) = k

module _ {Filter : Type 0} (lib : Bloom.Lib Filter) where
  abbrev pub add_version : SsTableBuilder Filter → Bytes → VersionedValue → SsTableBuilder Filter
  add_version b key (value d s) = add lib b key s (some d)
  add_version b key (tombstone s) = add lib b key s none

  unfoldable pub flush_entry : FlushState Filter → Bytes → VersionedValue → FlushState Filter
  flush_entry st key val = record {
    builder = add_version st.builder key val;
    min_key = or_first st.min_key key;
    max_key = some key;
  }

  unfoldable pub flush_loop : FlushState Filter → BtreeMap VersionedValue → FlushState Filter
  flush_loop st [] = st
  flush_loop st ((key, val) ∷ m) = flush_loop (flush_entry st key val) m

  -- The metadata, and the bytes of the file.
  unfoldable pub flush_to_sstable : (ℕ → Bytes) → ImmutableMemTable → ℕ → SstMeta × Bytes
  flush_to_sstable path_of imm sst_id =
      let entry_count = length imm.entries in
      let start : FlushState Filter = record {
        builder = Builder.new lib entry_count;
        min_key = none;
        max_key = none;
      } in
      let st = flush_loop start (Memtable.iter imm) in
      let file = finish lib st.builder in
      (
        record {
          id = sst_id;
          min_key = unwrap_or_default st.min_key;
          max_key = unwrap_or_default st.max_key;
          size_bytes = length file;
          entry_count = entry_count;
          min_seq = 0;
          path = path_of sst_id;
        },
        file,
      )
