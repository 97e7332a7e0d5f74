-- ===== src/Sstable/Block.antt =====
-- crates/sstable/src/block.rs: the entries of a data block, the block builder and the iterator.
pub mod Entries
use exepense_db.Base.{
  ℕ, ◌+◌, ◌%◌, Bool, true, false, not, ◌&&◌, Option, none, some, [], ◌∷◌, ◌++◌, length, take, drop,
  slice, ltb, leb, ◌==◌, if◌then◌else◌, Result, ok, err,
}
use exepense_db.Base.Order.{Bytes}
use exepense_db.Base.Words.{u16_mod, u32_mod, to_le, from_le}
use exepense_db.Sstable.Error.{SsTableError, io}

abbrev pub block_size : ℕ
block_size = 4096

pub record BlockEntry : Type 0 where
  pub seq : ℕ
  pub tombstone : Bool
  pub key : Bytes
  pub value : Bytes

pub record BlockBuilder : Type 0 where
  pub contents : Bytes
  pub last_key : Bytes

abbrev pub new : BlockBuilder
new = record { contents = []; last_key = [] }

abbrev pub is_empty : Bytes → Bool
is_empty [] = true
is_empty _ = false

-- `b as u8`
abbrev pub bit : Bool → ℕ
bit true = 1
bit false = 0

-- The bytes that `add` appends for an entry: 8 + 1 + 2 + 4 of header, the key and the value.
unfoldable pub entry_bytes : BlockEntry → Bytes
entry_bytes e =
    to_le 8 e.seq
    ++ (bit e.tombstone
        ∷ (to_le 2 (length e.key % u16_mod)
            ++ (to_le 4 (length e.value % u32_mod) ++ (e.key ++ e.value))))

abbrev pub needed : BlockEntry → ℕ
needed e = 15 + length e.key + length e.value

-- The flag says whether the entry was added.
unfoldable pub add : BlockBuilder → BlockEntry → BlockBuilder × Bool
add b e =
    if not (is_empty b.contents) && ltb block_size (length b.contents + needed e)
    then (b, false)
    else (record { contents = b.contents ++ entry_bytes e; last_key = e.key }, true)

pub record BlockIterator : Type 0 where
  pub contents : Bytes
  pub pos : ℕ

-- `next` from `let buf = …` on: the entry at the front of `buf`, and the bytes that it takes.
unfoldable pub parse_entry : Bytes → Result SsTableError (BlockEntry × ℕ)
parse_entry buf =
    let key_end = 15 + from_le (slice 9 11 buf) in
    let val_end = key_end + from_le (slice 11 15 buf) in
    if ltb (length buf) 15
    then err io
    else if ltb (length buf) val_end
    then err io
    else ok (
      record {
        seq = from_le (take 8 buf);
        tombstone = not (from_le (slice 8 9 buf) == 0);
        key = slice 15 key_end buf;
        value = slice key_end val_end buf;
      },
      val_end,
    )

abbrev pub next_match :
    BlockIterator
    → Result SsTableError (BlockEntry × ℕ)
    → Option (Result SsTableError BlockEntry) × BlockIterator
next_match it (ok (e, n)) = (some (ok e), record it { pos = it.pos + n })
next_match it (err w) = (some (err w), it)

unfoldable pub next : BlockIterator → Option (Result SsTableError BlockEntry) × BlockIterator
next it =
    if leb (length it.contents) it.pos
    then (none, it)
    else next_match it (parse_entry (drop it.pos it.contents))
