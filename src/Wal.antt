-- ===== src/Wal.antt =====
-- crates/wal/src/record.rs, writer.rs and reader.rs: the record format of the write-ahead log, the
-- writer that appends records, and the reader that iterates over a log file.
--
-- A file is the list of its bytes. The header's encoding (the bincode crate) and the checksum (the
-- crc32fast crate) are the parameter `Lib`; what is used of them is `IsLawful`.
pub mod Record
pub mod Steps
pub mod Reader
pub mod Torn
pub mod Stuck
pub mod Fixed
mod Tests
use exepense_db.Base.{
  ℕ, zero, suc, ◌+◌, ◌-◌, ◌*◌, ◌%◌, ◌^◌, ◌<◌, ◌≡◌, Bool, true, false, not, Option, none, some, List,
  [], ◌∷◌, ◌++◌, length, take, drop, slice, ltb, leb, ◌==◌, if◌then◌else◌, Result, ok, err, ◌>>=◌,
}
use exepense_db.Base.Order.{Bytes}
use exepense_db.Base.Words.{u32_mod, u64_mod, to_le, from_le}
use mathlib.Core.Option

abbrev pub tombstone_sentinel : ℕ
tombstone_sentinel = u32_mod - 1

pub record WalRecord : Type 0 where
  pub seq_no : ℕ
  pub key : Bytes
  pub value : Option Bytes

pub record RecordHeader : Type 0 where
  pub seq_no : ℕ
  pub key_len : ℕ
  pub val_len : ℕ

-- The messages are dropped.
pub data WalError : Type 0 where
  io : WalError
  crc_mismatch : ℕ → ℕ → WalError
  encode_error : WalError
  decode_error : WalError

-- bincode's `encode_to_vec` and `decode_from_slice` at `RecordHeader` under `config::standard()`
-- (`none` is its error), and crc32fast's `Hasher`.
pub record Lib : Type 0 where
  pub encode_to_vec : RecordHeader → Option Bytes
  pub decode_from_slice : Bytes → Option (RecordHeader × ℕ)
  pub crc32 : Bytes → ℕ

pub record IsU64Header (h : RecordHeader) : Type 0 where
  pub seq_bound : h.seq_no < u64_mod
  pub key_bound : h.key_len < u32_mod
  pub val_bound : h.val_len < u32_mod

-- What the log relies on: a header of machine words is encoded, decoding reads back one encoding
-- from the front of a slice and counts its bytes, a slice that ends inside an encoding is an error,
-- and the checksum is 32 bits wide.
pub record IsLawful (lib : Lib) : Type 0 where
  pub encodes : (h : RecordHeader) → IsU64Header h → (b : Bytes) × (lib.encode_to_vec h ≡ some b)
  pub decodes :
      (h : RecordHeader) (b rest : Bytes)
      → IsU64Header h
      → lib.encode_to_vec h ≡ some b
      → lib.decode_from_slice (b ++ rest) ≡ some (h, length b)
  pub cut :
      (h : RecordHeader) (b front : Bytes) (x : ℕ) (back : Bytes)
      → IsU64Header h
      → lib.encode_to_vec h ≡ some b
      → b ≡ front ++ (x ∷ back)
      → lib.decode_from_slice front ≡ none
  pub crc_bound : (b : Bytes) → lib.crc32 b < u32_mod

-- `?` on an `Option` that stands for a library's result
abbrev pub or_err {ℓ} : {A : Type ℓ} → WalError → Option A → Result WalError A
or_err e none = err e
or_err e (some a) = ok a

abbrev pub value_len : Option Bytes → ℕ
value_len none = tombstone_sentinel
value_len (some v) = length v % u32_mod

abbrev pub value_bytes : Option Bytes → Bytes
value_bytes none = []
value_bytes (some v) = v

abbrev pub header_of : WalRecord → RecordHeader
header_of r = record {
  seq_no = r.seq_no;
  key_len = length r.key % u32_mod;
  val_len = value_len r.value;
}

module _ (lib : Lib) where
  unfoldable pub encode : WalRecord → Result WalError Bytes
  encode r = do
    header_bytes ← or_err encode_error (lib.encode_to_vec (header_of r))
    let payload = header_bytes ++ (r.key ++ value_bytes r.value)
    ok (to_le 4 (lib.crc32 payload) ++ payload)

  -- `decode` from where the header is read: `header_len` is what it took.
  unfoldable pub decode_payload : Bytes → RecordHeader × ℕ → Result WalError (WalRecord × ℕ)
  decode_payload buf (h, header_len) =
      let stored_crc = from_le (take 4 buf) in
      let key_start = 4 + header_len in
      let dead = h.val_len == tombstone_sentinel in
      let key_end = key_start + h.key_len in
      let val_end = key_end + (if dead then 0 else h.val_len) in
      let actual_crc = lib.crc32 (slice 4 val_end buf) in
      if ltb (length buf) val_end
      then err io
      else if not (actual_crc == stored_crc)
      then err (crc_mismatch stored_crc actual_crc)
      else ok (
        record {
          seq_no = h.seq_no;
          key = slice key_start key_end buf;
          value = if dead then none else some (slice key_end val_end buf);
        },
        val_end,
      )

  unfoldable pub decode : Bytes → Result WalError (WalRecord × ℕ)
  decode buf =
      if ltb (length buf) 4
      then err io
      else or_err decode_error (lib.decode_from_slice (drop 4 buf)) >>= decode_payload buf

  -- `WalWriter::append`: the bytes go to the end of the file.
  unfoldable pub append : Bytes → WalRecord → Result WalError Bytes
  append file r = do bytes ← encode r; ok (file ++ bytes)

  -- Any number of appends, up to the first that fails.
  unfoldable pub append_all : Bytes → List WalRecord → Result WalError Bytes
  append_all file [] = ok file
  append_all file (r ∷ rs) = do file' ← append file r; append_all file' rs

pub record WalReader : Type 0 where
  pub contents : Bytes
  pub pos : ℕ

abbrev pub open_reader : Bytes → WalReader
open_reader file = record { contents = file; pos = 0 }

-- The `match` of `WalReader::next`: only the `Ok` arm moves the position.
abbrev pub next_match :
    WalReader → Result WalError (WalRecord × ℕ) → Option (Result WalError WalRecord) × WalReader
next_match r (ok (rec, consumed)) = (some (ok rec), record r { pos = r.pos + consumed })
next_match r (err io) = (none, r)
next_match r (err e) = (some (err e), r)

module _ (lib : Lib) where
  unfoldable pub next : WalReader → Option (Result WalError WalRecord) × WalReader
  next r =
      if leb (length r.contents) r.pos
      then (none, r)
      else next_match r (decode lib (drop r.pos r.contents))

  -- `reader.filter_map(|r| r.ok()).collect()`; `none` is no value of the program: the rounds ran out.
  unfoldable pub collect_ok : ℕ → WalReader → Option (List WalRecord)
  collect_ok zero r = none
  collect_ok (suc fuel) r =
      let (item, r') = next r in
      elim item [
        | none ↦ some []
        | some (ok rec) ↦ Option.map (λ recs. rec ∷ recs) (collect_ok fuel r')
        | some (err e) ↦ collect_ok fuel r'
      ]

  -- `for record in reader { let record = record?; … }`: the records, up to the first error.
  unfoldable pub read_all : ℕ → WalReader → Option (Result WalError (List WalRecord))
  read_all zero r = none
  read_all (suc fuel) r =
      let (item, r') = next r in
      elim item [
        | none ↦ some (ok [])
        | some (ok rec) ↦ Option.map (λ rest. rest >>= λ recs. ok (rec ∷ recs)) (read_all fuel r')
        | some (err e) ↦ some (err e)
      ]

  unfoldable pub encode_all : List WalRecord → Result WalError Bytes
  encode_all [] = ok []
  encode_all (r ∷ rs) = do bytes ← encode lib r; rest ← encode_all rs; ok (bytes ++ rest)

-- `filter(|r| r.seq_no > flushed_seq)`
unfoldable pub newer : ℕ → List WalRecord → List WalRecord
newer flushed_seq [] = []
newer flushed_seq (r ∷ rs) =
    if ltb flushed_seq r.seq_no then r ∷ newer flushed_seq rs else newer flushed_seq rs

-- `WalReader::truncate_after` with `fuel` rounds of its iterator: the file after the rename.
unfoldable pub truncate_after : Lib → ℕ → Bytes → ℕ → Option (Result WalError Bytes)
truncate_after lib fuel file flushed_seq =
    Option.map (λ records. encode_all lib (newer flushed_seq records))
      (collect_ok lib fuel (open_reader file))
