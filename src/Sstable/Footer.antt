-- ===== src/Sstable/Footer.antt =====
-- crates/sstable/src/footer.rs: the last 56 bytes of a table.
pub mod RoundTrip
use exepense_db.Base.{
  ℕ, ◌-◌, ◌<◌, Option, none, some, not, ◌++◌, length, drop, slice, ltb, ◌==◌, if◌then◌else◌,
}
use exepense_db.Base.Order.{Bytes}
use exepense_db.Base.Words.{u32_mod, u64_mod, to_le, from_le}

abbrev pub footer_size : ℕ
footer_size = 56

abbrev pub magic : ℕ
magic = 0x4C534D54

pub record Footer : Type 0 where
  pub index_offset : ℕ
  pub index_len : ℕ
  pub bloom_offset : ℕ
  pub bloom_len : ℕ
  pub entry_count : ℕ
  pub min_seq : ℕ
  pub bloom_bits : ℕ
  pub bloom_k : ℕ

unfoldable pub encode : Footer → Bytes
encode f =
    to_le 8 f.index_offset
    ++ (to_le 4 f.index_len
        ++ (to_le 8 f.bloom_offset
            ++ (to_le 4 f.bloom_len
                ++ (to_le 8 f.entry_count
                    ++ (to_le 8 f.min_seq
                        ++ (to_le 8 f.bloom_bits ++ (to_le 4 f.bloom_k ++ to_le 4 magic)))))))

-- The fields of the 56 bytes `b`.
abbrev pub fields : Bytes → Footer
fields b = record {
  index_offset = from_le (slice 0 8 b);
  index_len = from_le (slice 8 12 b);
  bloom_offset = from_le (slice 12 20 b);
  bloom_len = from_le (slice 20 24 b);
  entry_count = from_le (slice 24 32 b);
  min_seq = from_le (slice 32 40 b);
  bloom_bits = from_le (slice 40 48 b);
  bloom_k = from_le (slice 48 52 b);
}

unfoldable pub decode : Bytes → Option Footer
decode buf =
    let b = drop (length buf - footer_size) buf in
    if ltb (length buf) footer_size
    then none
    else if not (from_le (slice 52 56 b) == magic)
    then none
    else some (fields b)

-- Every field holds in its word.
pub record IsInRange (f : Footer) : Type 0 where
  pub index_offset : f.index_offset < u64_mod
  pub index_len : f.index_len < u32_mod
  pub bloom_offset : f.bloom_offset < u64_mod
  pub bloom_len : f.bloom_len < u32_mod
  pub entry_count : f.entry_count < u64_mod
  pub min_seq : f.min_seq < u64_mod
  pub bloom_bits : f.bloom_bits < u64_mod
  pub bloom_k : f.bloom_k < u32_mod
