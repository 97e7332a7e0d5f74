-- ===== src/Wal/Tests.antt =====
-- The theorems on the log at concrete files.
use exepense_db.Base.{
  ◌≡◌, refl, none, some, List, [], ◌∷◌, ◌++◌, take, drop, All, Result, ok, err, arith,
}
use exepense_db.Base.Order.{Bytes}
use exepense_db.Base.Words.{to_le, from_le}
use exepense_db.Wal.Record.{IsEncodable}
use exepense_db.Wal.Reader.{Kept, read_all-log, truncate_after-log}
use exepense_db.Wal.Torn.{read_all-torn_log}
use exepense_db.Wal.Stuck.{damaged_log}
use exepense_db.Wal.{
  WalRecord, WalError, crc_mismatch, decode_error, open_reader, header_of, encode, encode_all,
  read_all, truncate_after,
}
use exepense_db.Wal.Fixed.{fixed, fixed-IsLawful, fixed_encode, checksum_of}

abbrev records : List WalRecord
records =
    record { seq_no = 1; key = 107 ∷ []; value = some (118 ∷ 49 ∷ []) }
    ∷ record { seq_no = 2; key = 107 ∷ []; value = none }
    ∷ []

abbrev last_record : WalRecord
last_record = record { seq_no = 3; key = 109 ∷ []; value = some (120 ∷ []) }

abbrev bytes_of : Result WalError Bytes → Bytes
bytes_of (ok b) = b
bytes_of (err e) = []

log : Bytes
unfolding encode_all encode fixed_encode checksum_of to_le
log = bytes_of (encode_all fixed records)

last_bytes : Bytes
unfolding encode fixed_encode checksum_of to_le
last_bytes = bytes_of (encode fixed last_record)

log_encodes : encode_all fixed records ≡ ok log
unfolding log
log_encodes = refl

last_encodes : encode fixed last_record ≡ ok last_bytes
unfolding last_bytes
last_encodes = refl

records-IsEncodable : All IsEncodable records
records-IsEncodable = omega arith

last-IsEncodable : IsEncodable last_record
last-IsEncodable = omega arith

read_all-log_example : read_all fixed 3 (open_reader log) ≡ some (ok records)
read_all-log_example = read_all-log fixed-IsLawful records log records-IsEncodable log_encodes

truncate_after-log_example :
    (kept : List WalRecord) × (truncate_after fixed 3 log 1 ≡ some (encode_all fixed kept))
    × Kept 1 records kept
truncate_after-log_example =
    truncate_after-log fixed-IsLawful records log 1 records-IsEncodable log_encodes

-- A tear after ten bytes of the last record lies in its header.
read_all-torn_log_example :
    read_all fixed 3 (open_reader (log ++ take 10 last_bytes)) ≡ some (err decode_error)
unfolding last_bytes fixed_encode
read_all-torn_log_example =
    read_all-torn_log fixed-IsLawful records log last_record last_bytes
      (fixed_encode (header_of last_record)) (take 10 last_bytes) 0 (drop 11 last_bytes)
      records-IsEncodable log_encodes last-IsEncodable last_encodes refl refl (omega arith)

damaged_log_example :
    let file =
      log ++ ((0 ∷ 0 ∷ 0 ∷ 0 ∷ []) ++ (fixed_encode (header_of last_record) ++ (109 ∷ 120 ∷ []))) in
    (read_all fixed 3 (open_reader file)
      ≡ some (
          err (
            crc_mismatch 0
              (checksum_of (fixed_encode (header_of last_record) ++ (109 ∷ 120 ∷ []))))))
    × (truncate_after fixed 1000 file 1 ≡ none)
unfolding from_le checksum_of fixed_encode to_le
damaged_log_example =
    damaged_log fixed-IsLawful records log last_record (fixed_encode (header_of last_record))
      (0 ∷ 0 ∷ 0 ∷ 0 ∷ []) [] 1 1000 records-IsEncodable log_encodes last-IsEncodable refl refl
      (omega arith)
