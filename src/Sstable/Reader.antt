-- ===== src/Sstable/Reader.antt =====
-- crates/sstable/src/reader.rs: opening a table, point lookups and the iteration over all entries.
-- The mapped file is the list of its bytes. A slice of it out of bounds is a panic; the sums of
-- offsets, which could only pass 2^64 far out of bounds, are not wrapped.
pub mod Scan
pub mod Index
pub mod Drain
pub mod Ends
use exepense_db.Base.{
  ℕ, zero, suc, ◌+◌, ◌-◌, not, ◌&&◌, Option, none, some, length, slice, ltb, leb, if◌then◌else◌,
  Result, ok, err, ◌>>=◌,
}
use exepense_db.Base.Order.{Bytes, same, le_bytes}
use exepense_db.Base.Words.{from_le}
use exepense_db.Sstable.Error.{SsTableError, Fault, fails, panics, invalid_magic, file_too_small}
use exepense_db.Sstable.Bloom
use exepense_db.Sstable.Block
use exepense_db.Sstable.Block.{BlockEntry, BlockIterator}
use exepense_db.Sstable.Footer
use exepense_db.Sstable.Footer.{Footer, footer_size}

pub record SsTableReader (Filter : Type 0) : Type 0 where
  pub mmap : Bytes
  pub footer : Footer
  pub bloom : Filter

-- `&mmap[i..j]`
unfoldable pub slice_checked : ℕ → ℕ → Bytes → Result Fault Bytes
slice_checked i j b = if leb i j && leb j (length b) then ok (slice i j b) else err panics

abbrev pub ok_or : Option Footer → SsTableError → Result Fault Footer
ok_or none e = err (fails e)
ok_or (some f) e = ok f

-- The loop of `get` over a block; `none` is no value of the program: the rounds ran out.
unfoldable pub scan :
    ℕ → BlockIterator → Bytes → ℕ → Option Bytes → Option (Result Fault (Option Bytes))
scan zero it key read_seq result = none
scan (suc fuel) it key read_seq result =
    let (item, it') = Block.next it in
    elim item [
      | none ↦ some (ok result)
      | some (err e) ↦ some (err (fails e))
      | some (ok entry) ↦
          let on = scan fuel it' key read_seq result in
          let found = scan fuel it' key read_seq (some entry.value) in
          if same entry.key key && leb entry.seq read_seq
          then (if entry.tombstone then some (ok none) else found)
          else on
    ]

-- The loop of `find_block` over the index block.
unfoldable pub find_loop : ℕ → Bytes → ℕ → Bytes → Option (Option (ℕ × ℕ))
find_loop zero index_buf pos key = none
find_loop (suc fuel) index_buf pos key =
    let key_start = pos + 2 in
    let last_key_len = from_le (slice pos key_start index_buf) in
    let key_end = key_start + last_key_len in
    let last_key = slice key_start key_end index_buf in
    let offset = from_le (slice key_end (key_end + 8) index_buf) in
    let len = from_le (slice (key_end + 8) (key_end + 12) index_buf) in
    let on = find_loop fuel index_buf (key_end + 12) key in
    if leb (length index_buf) pos
    then some none
    else if ltb (length index_buf - pos) 2
    then some none
    else if ltb (length index_buf - key_start) (last_key_len + 12)
    then some none
    else if le_bytes key last_key
    then some (some (offset, len))
    else on

-- The iteration over all entries; each round takes at least 15 bytes.
pub record SsTableIter : Type 0 where
  pub mmap : Bytes
  pub pos : ℕ
  pub data_end : ℕ

abbrev pub iter_match :
    SsTableIter
    → Option (Result SsTableError BlockEntry)
    → Option (Result Fault BlockEntry) × SsTableIter
iter_match it none = (none, it)
iter_match it (some (err e)) = (some (err (fails e)), it)
iter_match it (some (ok e)) =
    (some (ok e), record it { pos = it.pos + (15 + length e.key + length e.value) })

unfoldable pub iter_next : SsTableIter → Option (Result Fault BlockEntry) × SsTableIter
iter_next it =
    if leb it.data_end it.pos then (none, it) else elim (slice_checked it.pos it.data_end it.mmap) [
      | err w ↦ (some (err w), it)
      | ok buf ↦ iter_match it (Block.next (record { contents = buf; pos = 0 })).0
    ]

module _ {Filter : Type 0} (lib : Bloom.Lib Filter) where
  unfoldable pub open_table : Bytes → Result Fault (SsTableReader Filter)
  open_table file = if ltb (length file) footer_size then err (fails file_too_small) else do
    footer ← ok_or (Footer.decode file) invalid_magic
    bits ← slice_checked footer.bloom_offset (footer.bloom_offset + footer.bloom_len) file
    ok (record {
      mmap = file;
      footer = footer;
      bloom = Bloom.from_bytes lib bits footer.bloom_bits footer.bloom_k;
    })

module _ {Filter : Type 0} where
  unfoldable pub find_block : SsTableReader Filter → Bytes → Result Fault (Option (Option (ℕ × ℕ)))
  find_block r key = do
    let index_start = r.footer.index_offset
    index_buf ← slice_checked index_start (index_start + r.footer.index_len) r.mmap
    ok (find_loop (length index_buf + 1) index_buf 0 key)

  unfoldable pub scan_block :
      SsTableReader Filter
      → Bytes
      → ℕ
      → Option (Option (ℕ × ℕ))
      → Option (Result Fault (Option Bytes))
  scan_block r key read_seq none = none
  scan_block r key read_seq (some none) = some (ok none)
  scan_block r key read_seq (some (some (offset, len))) =
      elim (slice_checked offset (offset + len) r.mmap) [
        | err w ↦ some (err w)
        | ok block ↦
            scan (length block + 1) (record { contents = block; pos = 0 }) key read_seq none
      ]

  unfoldable pub iter : SsTableReader Filter → SsTableIter
  iter r = record { mmap = r.mmap; pos = 0; data_end = r.footer.index_offset }

module _ {Filter : Type 0} (lib : Bloom.Lib Filter) where
  -- `SsTableReader::get`. Every round of its two loops takes bytes, so as many rounds as there are
  -- bytes are enough; the outer `none` would say that they are not.
  unfoldable pub get : SsTableReader Filter → Bytes → ℕ → Option (Result Fault (Option Bytes))
  get r key read_seq =
      if not (Bloom.contains lib r.bloom key) then some (ok none) else elim (find_block r key) [
        | err w ↦ some (err w)
        | ok found ↦ scan_block r key read_seq found
      ]
