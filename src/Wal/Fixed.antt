-- ===== src/Wal/Fixed.antt =====
-- A library for the log's records with fixed-width headers, which meets the laws of `Lib`: the
-- instance at which the tests run.
use exepense_db.Base.{
  ℕ, ◌+◌, ◌*◌, ◌%◌, ◌<◌, ◌≡◌, refl, sym, ap, ◌∙◌, Option, none, some, [], ◌∷◌, ◌++◌, append_assoc,
  length, take, slice, length-append, take-append, slice-append, ltb, lt→ltb, le→ltb, if◌then◌else◌,
  arith,
}
use exepense_db.Base.Order.{Bytes}
use exepense_db.Base.Words.{u32_mod, to_le, from_le, length-to_le, from_le-to_le}
use exepense_db.Wal.{Lib, IsLawful, IsU64Header, RecordHeader}

abbrev width : ℕ
width = 16

unfoldable pub fixed_encode : RecordHeader → Bytes
fixed_encode h = to_le 8 h.seq_no ++ (to_le 4 h.key_len ++ to_le 4 h.val_len)

unfoldable pub fixed_decode : Bytes → Option (RecordHeader × ℕ)
fixed_decode b =
    if ltb (length b) width
    then none
    else some (
      record {
        seq_no = from_le (take 8 b);
        key_len = from_le (slice 8 12 b);
        val_len = from_le (slice 12 16 b);
      },
      width,
    )

unfoldable pub checksum_of : Bytes → ℕ
checksum_of [] = 7
checksum_of (b ∷ bs) = (b + 31 * checksum_of bs) % u32_mod

abbrev pub fixed : Lib
fixed = record {
  encode_to_vec = λ h. some (fixed_encode h);
  decode_from_slice = fixed_decode;
  crc32 = checksum_of;
}

checksum_of_bound : (b : Bytes) → checksum_of b < u32_mod
unfolding checksum_of
checksum_of_bound [] = omega arith
checksum_of_bound (b ∷ bs) = omega arith

length-fixed_encode : (h : RecordHeader) → length (fixed_encode h) ≡ width
unfolding fixed_encode
length-fixed_encode h = omega (
  arith,
  length-append (to_le 8 h.seq_no) (to_le 4 h.key_len ++ to_le 4 h.val_len),
  length-append (to_le 4 h.key_len) (to_le 4 h.val_len),
  length-to_le 8 h.seq_no,
  length-to_le 4 h.key_len,
  length-to_le 4 h.val_len,
)

module _ (h : RecordHeader) (rest : Bytes) where
  abbrev a : Bytes
  a = to_le 8 h.seq_no

  abbrev b : Bytes
  b = to_le 4 h.key_len

  abbrev c : Bytes
  c = to_le 4 h.val_len

  fixed_seq : take 8 (fixed_encode h ++ rest) ≡ a
  unfolding fixed_encode
  fixed_seq = rw append_assoc (take-append a _ (sym (length-to_le 8 h.seq_no)))

  fixed_key : slice 8 12 (fixed_encode h ++ rest) ≡ b
  unfolding fixed_encode
  fixed_key =
      ap (slice 8 12) regroup
      ∙ slice-append a b (c ++ rest) {i = 8} {j = 12} (sym (length-to_le 8 h.seq_no))
          (omega (arith, length-to_le 8 h.seq_no, length-to_le 4 h.key_len))
    where
      regroup : (a ++ (b ++ c)) ++ rest ≡ a ++ (b ++ (c ++ rest))
      regroup = simp append_assoc

  fixed_val : slice 12 16 (fixed_encode h ++ rest) ≡ c
  unfolding fixed_encode
  fixed_val =
      ap (slice 12 16) regroup
      ∙ slice-append (a ++ b) c rest {i = 12} {j = 16}
          (omega (arith, length-append a b, length-to_le 8 h.seq_no, length-to_le 4 h.key_len))
          (omega (
            arith,
            length-append a b,
            length-to_le 8 h.seq_no,
            length-to_le 4 h.key_len,
            length-to_le 4 h.val_len,
          ))
    where
      regroup : (a ++ (b ++ c)) ++ rest ≡ (a ++ b) ++ (c ++ rest)
      regroup = simp append_assoc

  fixed_decodes :
      IsU64Header h → fixed_decode (fixed_encode h ++ rest) ≡ some (h, length (fixed_encode h))
  unfolding fixed_decode
  fixed_decodes fits = rw (
    le→ltb (length (fixed_encode h ++ rest)) width
        (omega (arith, length-append (fixed_encode h) rest, length-fixed_encode h)),
    fixed_seq,
    fixed_key,
    fixed_val,
    from_le-to_le 8 h.seq_no fits.seq_bound,
    from_le-to_le 4 h.key_len fits.key_bound,
    from_le-to_le 4 h.val_len fits.val_bound,
    length-fixed_encode h,
  )

fixed_cut :
    (h : RecordHeader) (front : Bytes) (x : ℕ) (back : Bytes)
    → fixed_encode h ≡ front ++ (x ∷ back)
    → fixed_decode front ≡ none
unfolding fixed_decode
fixed_cut h front x back e = rw (
    lt→ltb (length front) width
      (omega (arith, ap length e, length-fixed_encode h, length-append front (x ∷ back))))

pub fixed-IsLawful : IsLawful fixed
fixed-IsLawful = record {
  encodes = λ h fits. (fixed_encode h, refl);
  decodes = λ h bs rest fits e. rw (← some_inj e) (fixed_decodes h rest fits);
  cut = λ h bs front x back fits e split. fixed_cut h front x back (some_inj e ∙ split);
  crc_bound = checksum_of_bound;
}
  where
    some_inj : {x y : Bytes} → some x ≡ some y → x ≡ y
    some_inj e = cc
