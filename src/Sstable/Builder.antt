-- ===== src/Sstable/Builder.antt =====
-- crates/sstable/src/builder.rs: the table builder. A finished table is the bytes of its file; the
-- temporary file and its rename are taken to succeed.
use exepense_db.Base.{
  ℕ, ◌+◌, ◌-◌, ◌%◌, Bool, true, false, Option, none, some, List, [], ◌∷◌, ◌++◌, length, ltb, ◌==◌,
  if◌then◌else◌,
}
use exepense_db.Base.Order.{Bytes}
use exepense_db.Base.Words.{u16_mod, u32_mod, u64_mod, to_le}
use exepense_db.Sstable.Bloom
use exepense_db.Sstable.Block
use exepense_db.Sstable.Block.{BlockEntry, BlockBuilder}
use exepense_db.Sstable.Footer
use exepense_db.Sstable.Footer.{Footer}

-- A sealed block: its last key, its offset and its length.
pub record IndexEntry : Type 0 where
  pub last_key : Bytes
  pub offset : ℕ
  pub len : ℕ

pub record SsTableBuilder (Filter : Type 0) : Type 0 where
  pub blocks : List IndexEntry
  pub current_block : BlockBuilder
  pub data_buf : Bytes
  pub bloom : Filter
  pub entry_count : ℕ
  pub min_seq : ℕ

-- `value.is_none()` and `value.unwrap_or_default()`
abbrev pub is_none : Option Bytes → Bool
is_none none = true
is_none (some v) = false

abbrev pub or_default : Option Bytes → Bytes
or_default none = []
or_default (some v) = v

abbrev pub entry_of : Bytes → ℕ → Option Bytes → BlockEntry
entry_of key s value = record {
  seq = s;
  tombstone = is_none value;
  key = key;
  value = or_default value;
}

-- One entry of the index block.
unfoldable pub index_bytes : IndexEntry → Bytes
index_bytes x =
    to_le 2 (length x.last_key % u16_mod) ++ (x.last_key ++ (to_le 8 x.offset ++ to_le 4 x.len))

unfoldable pub index_buf : List IndexEntry → Bytes
index_buf [] = []
index_buf (x ∷ xs) = index_bytes x ++ index_buf xs

module _ {Filter : Type 0} where
  unfoldable pub seal_block : SsTableBuilder Filter → SsTableBuilder Filter
  seal_block b =
      if Block.is_empty b.current_block.contents
      then record b { current_block = Block.new }
      else record b {
        current_block = Block.new;
        data_buf = b.data_buf ++ b.current_block.contents;
        blocks =
            b.blocks
            ++ (record {
              last_key = b.current_block.last_key;
              offset = length b.data_buf % u64_mod;
              len = length b.current_block.contents % u32_mod;
            }
                ∷ []);
      }

  -- The second `add` of `SsTableBuilder::add` ignores the flag.
  abbrev pub retry :
      SsTableBuilder Filter → BlockEntry → BlockBuilder × Bool → SsTableBuilder Filter
  retry b e (blk, true) = record b { current_block = blk }
  retry b e (blk, false) =
      let sealed = seal_block b in
      record sealed { current_block = (Block.add sealed.current_block e).0 }

module _ {Filter : Type 0} (lib : Bloom.Lib Filter) where
  unfoldable pub new : ℕ → SsTableBuilder Filter
  new expected_entries = record {
    blocks = [];
    current_block = Block.new;
    data_buf = [];
    bloom = Bloom.new lib expected_entries;
    entry_count = 0;
    min_seq = u64_mod - 1;
  }

  unfoldable pub add : SsTableBuilder Filter → Bytes → ℕ → Option Bytes → SsTableBuilder Filter
  add b key s value =
      let counted = record b {
        bloom = Bloom.insert lib b.bloom key;
        entry_count = b.entry_count + 1;
        min_seq = if ltb s b.min_seq then s else b.min_seq;
      } in
      let e = entry_of key s value in retry counted e (Block.add counted.current_block e)

  unfoldable pub footer_of : SsTableBuilder Filter → Footer
  footer_of b =
      let index_offset = length b.data_buf % u64_mod in
      let index_len = length (index_buf b.blocks) % u32_mod in
      record {
        index_offset = index_offset;
        index_len = index_len;
        bloom_offset = index_offset + index_len;
        bloom_len = length (Bloom.to_bytes lib b.bloom) % u32_mod;
        entry_count = b.entry_count;
        min_seq = if b.min_seq == u64_mod - 1 then 0 else b.min_seq;
        bloom_bits = lib.number_of_bits b.bloom;
        bloom_k = lib.number_of_hash_functions b.bloom;
      }

  -- `finish` after `seal_block`: the four parts of the file.
  unfoldable pub file_of : SsTableBuilder Filter → Bytes
  file_of b =
      b.data_buf
      ++ (index_buf b.blocks ++ (Bloom.to_bytes lib b.bloom ++ Footer.encode (footer_of b)))

  unfoldable pub finish : SsTableBuilder Filter → Bytes
  finish b = file_of (seal_block b)
