-- ===== src/Sstable/Bloom.antt =====
-- crates/sstable/src/bloom.rs: the wrapper around a Bloom filter of the bloomfilter crate. The crate
-- and bincode's encoding of its bitmap are the parameter `Lib`, over the type of the filters.
use exepense_db.Base.{ℕ, ◌<◌, ◌≡◌, Bool, true, Option, none, some, [], max}
use exepense_db.Base.Order.{Bytes}
use exepense_db.Base.Words.{u32_mod, u64_mod}

-- The keys of the two hash functions, `[(u64, u64); 2]`.
abbrev pub SipKeys : Type 0
SipKeys = (ℕ × ℕ) × (ℕ × ℕ)

pub record Lib (Filter : Type 0) : Type 0 where
  pub new_for_fp_rate : ℕ → Filter
  pub set : Filter → Bytes → Filter
  pub check : Filter → Bytes → Bool
  pub bitmap : Filter → Bytes
  pub number_of_bits : Filter → ℕ
  pub number_of_hash_functions : Filter → ℕ
  pub from_existing : Bytes → ℕ → ℕ → SipKeys → Filter
  pub encode_to_vec : Bytes → Option Bytes
  pub decode_from_slice : Bytes → Option (Bytes × ℕ)

-- What the crate documents: a key that was set is found, and stays found, by the filter it was set in;
-- the sizes are a u64 and a u32. And bincode reads back what it wrote. Nothing is said of a filter that
-- `from_existing` makes of another's bitmap: `new_for_fp_rate` draws hash keys that no one stores.
pub record IsLawful {Filter : Type 0} (lib : Lib Filter) : Type 0 where
  pub check_set : (f : Filter) (k : Bytes) → lib.check (lib.set f k) k ≡ true
  pub check_keeps :
      (f : Filter) (j k : Bytes) → lib.check f k ≡ true → lib.check (lib.set f j) k ≡ true
  pub bits_fit : (f : Filter) → lib.number_of_bits f < u64_mod
  pub hashes_fit : (f : Filter) → lib.number_of_hash_functions f < u32_mod
  pub encodes : (b : Bytes) → (e : Bytes) × (lib.encode_to_vec b ≡ some e)
  pub decodes :
      (b e : Bytes)
      → lib.encode_to_vec b ≡ some e
      → (n : ℕ) × (lib.decode_from_slice e ≡ some (b, n))

-- `unwrap_or_default`
abbrev pub or_default : Option Bytes → Bytes
or_default none = []
or_default (some b) = b

abbrev pub or_default_first : Option (Bytes × ℕ) → Bytes
or_default_first none = []
or_default_first (some (b, n)) = b

module _ {Filter : Type 0} (lib : Lib Filter) where
  unfoldable pub new : ℕ → Filter
  new expected_items = lib.new_for_fp_rate (max expected_items 1)

  unfoldable pub insert : Filter → Bytes → Filter
  insert f key = lib.set f key

  unfoldable pub contains : Filter → Bytes → Bool
  contains f key = lib.check f key

  unfoldable pub to_bytes : Filter → Bytes
  to_bytes f = or_default (lib.encode_to_vec (lib.bitmap f))

  unfoldable pub from_bytes : Bytes → ℕ → ℕ → Filter
  from_bytes bytes bitmap_bits k_num =
      lib.from_existing (or_default_first (lib.decode_from_slice bytes)) bitmap_bits k_num
        ((0, 0), (1, 1))

-- The filter that a reader has of a table whose builder had `f`: its bitmap and sizes with the hash keys
-- of `from_bytes`.
abbrev pub rebuilt : {Filter : Type 0} → Lib Filter → Filter → Filter
rebuilt lib f =
    lib.from_existing (lib.bitmap f) (lib.number_of_bits f) (lib.number_of_hash_functions f)
      ((0, 0), (1, 1))
