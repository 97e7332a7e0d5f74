-- ===== src/Wal/Torn.antt =====
-- A crash in the middle of an append leaves a front part of the record's bytes at the end of the log.
use exepense_db.Base.{
  ℕ, ◌+◌, ◌%◌, ◌<◌, ◌≤◌, ◌≡◌, refl, sym, ap, ◌∙◌, Bool, true, false, ◌&&◌, none, some, ◌⊎◌, inl,
  inr, List, [], ◌∷◌, ◌++◌, append-nil, length, drop, length-append, drop-append, length-drop, All,
  le→ltb, lt→ltb, lt→leb, le→leb, split_front, ltb, leb, if◌then◌else◌, ok, err, arith,
}
use native.Mathlib.Nat.{zero-add}
use exepense_db.Base.Order.{Bytes}
use exepense_db.Base.Words.{length-to_le, u32_mod}
use exepense_db.Wal.{
  Lib, IsLawful, WalRecord, io, decode_error, open_reader, value_bytes, header_of, encode,
  encode_all, decode, decode_payload, next, read_all,
}
use exepense_db.Wal.Record.{
  IsEncodable, encode-eq, header_of-IsU64Header, length-parts, checksum, live_len,
}
use exepense_db.Wal.Steps.{at, onto, read_all-none, read_all-err}
use exepense_db.Wal.Reader.{read_all-encode_all}

lt_or_le : (a b : ℕ) → (a < b) ⊎ (b ≤ a)
lt_or_le a b = omega arith

inside : (c p : Bytes) (pos : ℕ) → drop pos c ≡ p → 0 < length p → pos < length c
inside c p pos hd h = omega (arith, length-drop pos c, ap length hd)

-- The header of the record is reached and not complete: `n` bytes of it stand in the file, and the
-- header takes `hb` after the checksum.
abbrev pub in_header : Bytes → ℕ → Bool
in_header hb n = leb 4 n && ltb n (4 + length hb)

module _ {lib : Lib} (law : IsLawful lib) (r : WalRecord) (hb p : Bytes) (x : ℕ) (back : Bytes)
    (fits : IsEncodable r) (eh : lib.encode_to_vec (header_of r) ≡ some hb)
    (cut : checksum lib r hb ++ (hb ++ (r.key ++ value_bytes r.value)) ≡ p ++ (x ∷ back)) where
  -- What follows the checksum in the file, once that is whole.
  after_checksum :
      4 ≤ length p
      → (q : Bytes) × (p ≡ checksum lib r hb ++ q)
        × (hb ++ (r.key ++ value_bytes r.value) ≡ q ++ (x ∷ back))
  after_checksum h =
      split_front (checksum lib r hb) p _ (x ∷ back) cut
        (omega (arith, length-to_le 4 (lib.crc32 (hb ++ (r.key ++ value_bytes r.value)))))

  dropped : (q : Bytes) → p ≡ checksum lib r hb ++ q → drop 4 p ≡ q
  dropped q ep = rw ep (
      drop-append (checksum lib r hb) q
        (sym (length-to_le 4 (lib.crc32 (hb ++ (r.key ++ value_bytes r.value))))))

  header_cut :
      (q tail : Bytes) → hb ≡ q ++ tail → length q < length hb → lib.decode_from_slice q ≡ none
  header_cut q [] ehb k = absurd (omega (arith, ap length ehb, length-append q []))
  header_cut q (y ∷ ys) ehb k =
      law.cut (header_of r) hb q y ys (header_of-IsU64Header r fits) eh ehb

  decode-torn_checksum : length p < 4 → decode lib p ≡ err io
  unfolding decode
  decode-torn_checksum h = rw (lt→ltb _ _ h)

  decode-torn_header : 4 ≤ length p → length p < 4 + length hb → decode lib p ≡ err decode_error
  unfolding decode
  decode-torn_header h k =
      let (q, ep, eq) = after_checksum h in
      let short : length q < length hb = omega (
        arith,
        ap length ep,
        length-append (checksum lib r hb) q,
        length-to_le 4 (lib.crc32 (hb ++ (r.key ++ value_bytes r.value))),
      ) in
      let (tail, ehb, _) = split_front q hb (x ∷ back) _ (sym eq) (omega arith) in
      rw (le→ltb _ _ h, dropped q ep, header_cut q tail ehb short)

  decode-torn_payload : 4 + length hb ≤ length p → decode lib p ≡ err io
  unfolding decode decode_payload
  decode-torn_payload h =
      let (q, ep, eq) = after_checksum (omega arith) in
      let room : length hb ≤ length q = omega (
        arith,
        ap length ep,
        length-append (checksum lib r hb) q,
        length-to_le 4 (lib.crc32 (hb ++ (r.key ++ value_bytes r.value))),
      ) in
      let (tail, eq', ev) = split_front hb q _ (x ∷ back) eq room in
      rw (
        le→ltb (length p) 4 (omega arith),
        dropped q ep,
        eq',
        law.decodes (header_of r) hb tail (header_of-IsU64Header r fits) eh,
        live_len r.value fits.value_fits,
        lt→ltb (length p) (4 + length hb + length r.key % u32_mod + length (value_bytes r.value))
            too_short,
      )
    where
      too_short : length p < 4 + length hb + length r.key % u32_mod + length (value_bytes r.value)
      too_short =
          omega
            (arith, fits.key_fits, ap length cut, length-parts law r hb, length-append p (x ∷ back))

  decode-torn : decode lib p ≡ (if in_header hb (length p) then err decode_error else err io)
  decode-torn = elim (lt_or_le (length p) 4) [
    | inl h ↦ rw (lt→leb 4 (length p) h) (decode-torn_checksum h)
    | inr h ↦ elim (lt_or_le (length p) (4 + length hb)) [
      | inl k ↦ rw (le→leb 4 (length p) h, lt→ltb _ _ k) (decode-torn_header h k)
      | inr k ↦ rw (le→leb 4 (length p) h, le→ltb _ _ k) (decode-torn_payload k)
    ]
  ]

module _ (lib : Lib) where
  -- What `next` returns where decoding fails.
  next-decode_err :
      (c p : Bytes) (pos : ℕ) (b : Bool)
      → drop pos c ≡ p
      → 0 < length p
      → decode lib p ≡ (if b then err decode_error else err io)
      → next lib (at c pos) ≡ (if b then some (err decode_error) else none, at c pos)
  unfolding next
  next-decode_err c p pos true hd h e = rw (lt→leb (length c) pos (inside c p pos hd h), hd, e)
  next-decode_err c p pos false hd h e = rw (lt→leb (length c) pos (inside c p pos hd h), hd, e)

  read_all-torn :
      (c : Bytes) (pos : ℕ) (b : Bool)
      → next lib (at c pos) ≡ (if b then some (err decode_error) else none, at c pos)
      → read_all lib 1 (at c pos) ≡ some (if b then err decode_error else ok [])
  read_all-torn c pos true e = read_all-err lib 0 _ _ e
  read_all-torn c pos false e = read_all-none lib 0 _ _ e

onto-torn :
    (rs : List WalRecord) (b : Bool)
    → onto rs (some (if b then err decode_error else ok []))
      ≡ some (if b then err decode_error else ok rs)
onto-torn rs true = refl
onto-torn rs false = rw append-nil

module _ {lib : Lib} (law : IsLawful lib) where
  -- A log of records whose fields fit, the last one torn by a crash after `p`, a proper front part of it that is not
  -- empty. Reading all of the log returns the whole records, unless the tear lies in the last record's
  -- header. Then it fails with a decoding error.
  pub read_all-torn_log :
      (rs : List WalRecord) (bytes : Bytes) (r : WalRecord) (b hb p : Bytes) (x : ℕ) (back : Bytes)
      → All IsEncodable rs
      → encode_all lib rs ≡ ok bytes
      → IsEncodable r
      → encode lib r ≡ ok b
      → lib.encode_to_vec (header_of r) ≡ some hb
      → b ≡ p ++ (x ∷ back)
      → 0 < length p
      → read_all lib (length rs + 1) (open_reader (bytes ++ p))
        ≡ some (if in_header hb (length p) then err decode_error else ok rs)
  read_all-torn_log rs bytes r b hb p x back hrs ers hr er eh cut hp =
      read_all-encode_all law rs (bytes ++ p) bytes p 0 1 hrs ers refl
      ∙ ap (onto rs) {y = some (if in_header hb (length p) then err decode_error else ok [])} (
          rw zero-add (
            read_all-torn lib (bytes ++ p) (length bytes) (in_header hb (length p)) (
              next-decode_err lib (bytes ++ p) p (length bytes) (in_header hb (length p))
                (drop-append bytes p refl) hp
                (decode-torn law r hb p x back hr eh (sym (encode-eq law r b hb er eh) ∙ cut)))))
      ∙ onto-torn rs (in_header hb (length p))
