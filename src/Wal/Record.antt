-- ===== src/Wal/Record.antt =====
-- `WalRecord::encode` and `decode`: the round trip.
use exepense_db.Base.{
  ℕ, ◌+◌, ◌<◌, ◌≤◌, ◌≡◌, refl, sym, ap, ◌∙◌, Bool, Option, none, some, ◌++◌, append_assoc, length,
  slice, length-append, drop-append, take-append, slice-append, le→ltb, ==_refl, ◌==◌,
  if◌then◌else◌, ok, err, ◌≢◌, ne→==, ok-injective, arith,
}
use exepense_db.Base.Order.{Bytes}
use exepense_db.Base.Words.{u32_mod, u64_mod, to_le, from_le, length-to_le, from_le-to_le}
use exepense_db.Wal.{
  Lib, IsLawful, IsU64Header, RecordHeader, WalRecord, header_of, value_len, value_bytes,
  crc_mismatch, tombstone_sentinel, encode, decode, decode_payload,
}

abbrev pub Fits : Option Bytes → Type 0
Fits none = Unit
Fits (some v) = length v < tombstone_sentinel

-- The fields hold in their words, and no value is so long that its length is the sentinel.
pub record IsEncodable (r : WalRecord) : Type 0 where
  pub seq_fits : r.seq_no < u64_mod
  pub key_fits : length r.key < u32_mod
  pub value_fits : Fits r.value

value_len_bound : (v : Option Bytes) → Fits v → value_len v < u32_mod
value_len_bound none h = omega arith
value_len_bound (some v) h = omega arith

pub header_of-IsU64Header : (r : WalRecord) → IsEncodable r → IsU64Header (header_of r)
header_of-IsU64Header r h = record {
  seq_bound = h.seq_fits;
  key_bound = omega arith;
  val_bound = value_len_bound r.value h.value_fits;
}

-- The slices of a record that stands in front of other bytes: checksum, header, key and value.
module _ (c hb k v rest : Bytes) where
  abbrev pub whole : Bytes
  whole = c ++ (hb ++ (k ++ (v ++ rest)))

  slice_payload :
      {e : ℕ}
      → length c ≡ 4
      → e ≡ 4 + length hb + length k + length v
      → slice 4 e whole ≡ hb ++ (k ++ v)
  slice_payload hc he =
      ap (slice 4 _) regroup
      ∙ slice-append c (hb ++ (k ++ v)) rest (sym hc)
          (omega (arith, length-append hb (k ++ v), length-append k v))
    where
      regroup : whole ≡ c ++ ((hb ++ (k ++ v)) ++ rest)
      regroup = simp append_assoc

  slice_key : {i j : ℕ} → length c ≡ 4 → i ≡ 4 + length hb → j ≡ i + length k → slice i j whole ≡ k
  slice_key hc hi hj =
      ap (slice _ _) regroup
      ∙ slice-append (c ++ hb) k (v ++ rest) (omega (arith, length-append c hb))
          (omega (arith, length-append c hb))
    where
      regroup : whole ≡ (c ++ hb) ++ (k ++ (v ++ rest))
      regroup = simp append_assoc

  slice_value :
      {i j : ℕ}
      → length c ≡ 4
      → i ≡ 4 + length hb + length k
      → j ≡ i + length v
      → slice i j whole ≡ v
  slice_value hc hi hj =
      ap (slice _ _) regroup
      ∙ slice-append (c ++ (hb ++ k)) v rest
          (omega (arith, length-append c (hb ++ k), length-append hb k))
          (omega (arith, length-append c (hb ++ k), length-append hb k))
    where
      regroup : whole ≡ (c ++ (hb ++ k)) ++ (v ++ rest)
      regroup = simp append_assoc

  pub length-whole : length c ≡ 4 → 4 + length hb + length k + length v ≤ length whole
  length-whole hc = omega (
    arith,
    length-append c (hb ++ (k ++ (v ++ rest))),
    length-append hb (k ++ (v ++ rest)),
    length-append k (v ++ rest),
    length-append v rest,
  )

abbrev dead : RecordHeader → Bool
dead h = h.val_len == tombstone_sentinel

module _ (lib : Lib) (h : RecordHeader) (c hb k v rest : Bytes) where
  decode_payload-whole :
      length c ≡ 4
      → from_le c ≡ lib.crc32 (hb ++ (k ++ v))
      → h.key_len ≡ length k
      → (if dead h then 0 else h.val_len) ≡ length v
      → decode_payload lib (whole c hb k v rest) (h, length hb)
        ≡ ok (
          record { seq_no = h.seq_no; key = k; value = if dead h then none else some v },
          4 + length hb + length k + length v,
        )
  unfolding decode_payload
  decode_payload-whole hc hcrc hk hv = rw (
    take-append c (hb ++ (k ++ (v ++ rest))) (sym hc),
    hk,
    hv,
    le→ltb _ _ (length-whole c hb k v rest hc),
    slice_payload c hb k v rest hc refl,
    hcrc,
    ==_refl,
    slice_key c hb k v rest hc refl refl,
    slice_value c hb k v rest hc refl refl,
  )

pub live_len :
    (v : Option Bytes)
    → Fits v
    → (if value_len v == tombstone_sentinel then 0 else value_len v) ≡ length (value_bytes v)
live_len none h = refl
live_len (some v) h = ground arith

live_value :
    (v : Option Bytes)
    → Fits v
    → (if value_len v == tombstone_sentinel then none else some (value_bytes v)) ≡ v
live_value none h = refl
live_value (some v) h = ground arith

module _ (lib : Lib) (h : RecordHeader) (c hb k v rest : Bytes) where
  decode_payload-corrupt :
      length c ≡ 4
      → from_le c ≢ lib.crc32 (hb ++ (k ++ v))
      → h.key_len ≡ length k
      → (if dead h then 0 else h.val_len) ≡ length v
      → decode_payload lib (whole c hb k v rest) (h, length hb)
        ≡ err (crc_mismatch (from_le c) (lib.crc32 (hb ++ (k ++ v))))
  unfolding decode_payload
  decode_payload-corrupt hc bad hk hv = rw (
    take-append c (hb ++ (k ++ (v ++ rest))) (sym hc),
    hk,
    hv,
    le→ltb _ _ (length-whole c hb k v rest hc),
    slice_payload c hb k v rest hc refl,
    ne→== _ _ (λ e. bad (sym e)),
  )

-- The checksum field of a record, and the record in front of other bytes.
module _ (lib : Lib) (r : WalRecord) (hb : Bytes) where
  abbrev pub checksum : Bytes
  checksum = to_le 4 (lib.crc32 (hb ++ (r.key ++ value_bytes r.value)))

  abbrev pub image : Bytes → Bytes
  image rest = whole checksum hb r.key (value_bytes r.value) rest

  length-image : (rest : Bytes) → 4 ≤ length (image rest)
  length-image rest =
      omega (arith, length-whole checksum hb r.key (value_bytes r.value) rest (length-to_le 4 _))

module _ {lib : Lib} (law : IsLawful lib) where
  -- What `encode` returns: the checksum of the payload, then the payload.
  pub encode-eq_ok :
      (r : WalRecord) {hb : Bytes}
      → lib.encode_to_vec (header_of r) ≡ some hb
      → encode lib r
        ≡ ok (
            to_le 4 (lib.crc32 (hb ++ (r.key ++ value_bytes r.value)))
            ++ (hb ++ (r.key ++ value_bytes r.value)))
  unfolding encode
  encode-eq_ok r e = rw e

  -- A record whose lengths fit is encoded.
  pub encode_total : (r : WalRecord) → IsEncodable r → (b : Bytes) × (encode lib r ≡ ok b)
  encode_total r h =
      let (hb, e) = law.encodes (header_of r) (header_of-IsU64Header r h) in (_, encode-eq_ok r e)

  decode-header :
      (r : WalRecord) (hb rest : Bytes)
      → IsEncodable r
      → lib.encode_to_vec (header_of r) ≡ some hb
      → decode lib (image lib r hb rest)
        ≡ ok (r, 4 + length hb + length r.key + length (value_bytes r.value))
  unfolding decode
  decode-header r hb rest h e =
      rw
        (
          le→ltb _ _ (length-image lib r hb rest),
          drop-append (checksum lib r hb) (hb ++ (r.key ++ (value_bytes r.value ++ rest)))
              (sym (length-to_le 4 _)),
          law.decodes (header_of r) hb _ (header_of-IsU64Header r h) e,
        )
        (decode_payload-whole lib (header_of r) (checksum lib r hb) hb r.key (value_bytes r.value)
            rest (length-to_le 4 _)
            (from_le-to_le 4 _ (law.crc_bound (hb ++ (r.key ++ value_bytes r.value)))) (omega arith)
            (live_len r.value h.value_fits)
          ∙ ap
              (λ (v : Option Bytes). ok (
                record r { value = v },
                4 + length hb + length r.key + length (value_bytes r.value),
              ))
              (live_value r.value h.value_fits))

  -- The parts of an encoded record.
  pub encode_parts :
      (r : WalRecord) (b : Bytes)
      → IsEncodable r
      → encode lib r ≡ ok b
      → (hb : Bytes) × (lib.encode_to_vec (header_of r) ≡ some hb)
        × (b ≡ checksum lib r hb ++ (hb ++ (r.key ++ value_bytes r.value)))
  encode_parts r b h e =
      let (hb, eh) = law.encodes (header_of r) (header_of-IsU64Header r h) in
      (hb, eh, ok-injective (sym e ∙ encode-eq_ok r eh))

  pub encode-eq :
      (r : WalRecord) (b hb : Bytes)
      → encode lib r ≡ ok b
      → lib.encode_to_vec (header_of r) ≡ some hb
      → b ≡ checksum lib r hb ++ (hb ++ (r.key ++ value_bytes r.value))
  encode-eq r b hb e eh = ok-injective (sym e ∙ encode-eq_ok r eh)

  pub length-parts :
      (r : WalRecord) (hb : Bytes)
      → length (checksum lib r hb ++ (hb ++ (r.key ++ value_bytes r.value)))
        ≡ 4 + length hb + length r.key + length (value_bytes r.value)
  length-parts r hb = omega (
    arith,
    length-append (checksum lib r hb) (hb ++ (r.key ++ value_bytes r.value)),
    length-append hb (r.key ++ value_bytes r.value),
    length-append r.key (value_bytes r.value),
    length-to_le 4 (lib.crc32 (hb ++ (r.key ++ value_bytes r.value))),
  )

  -- Decoding reads back an encoded record whose fields fit from the front of a buffer, and counts its
  -- bytes.
  pub decode-encode :
      (r : WalRecord) (b rest : Bytes)
      → IsEncodable r
      → encode lib r ≡ ok b
      → decode lib (b ++ rest) ≡ ok (r, length b)
  decode-encode r b rest h e =
      let (hb, eh, eb) = encode_parts r b h e in
      rw (eb, length-parts r hb) (ap (decode lib) (regroup hb) ∙ decode-header r hb rest h eh)
    where
      regroup :
          (hb : Bytes)
          → (checksum lib r hb ++ (hb ++ (r.key ++ value_bytes r.value))) ++ rest
            ≡ image lib r hb rest
      regroup hb = simp append_assoc

  -- A record whose checksum field was overwritten by other bytes is refused.
  pub decode-corrupt :
      (r : WalRecord) (hb c rest : Bytes)
      → IsEncodable r
      → lib.encode_to_vec (header_of r) ≡ some hb
      → length c ≡ 4
      → from_le c ≢ lib.crc32 (hb ++ (r.key ++ value_bytes r.value))
      → decode lib (whole c hb r.key (value_bytes r.value) rest)
        ≡ err (crc_mismatch (from_le c) (lib.crc32 (hb ++ (r.key ++ value_bytes r.value))))
  unfolding decode
  decode-corrupt r hb c rest h e hc bad =
      rw
        (
          le→ltb (length (whole c hb r.key (value_bytes r.value) rest)) 4
              (omega (arith, length-whole c hb r.key (value_bytes r.value) rest hc)),
          drop-append c (hb ++ (r.key ++ (value_bytes r.value ++ rest))) (sym hc),
          law.decodes (header_of r) hb _ (header_of-IsU64Header r h) e,
        )
        (decode_payload-corrupt lib (header_of r) c hb r.key (value_bytes r.value) rest hc bad
          (omega arith) (live_len r.value h.value_fits))
