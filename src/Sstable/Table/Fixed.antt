-- ===== src/Sstable/Table/Fixed.antt =====
-- A filter that meets the laws assumed of the bloomfilter crate: the instance at which the tests run.
use exepense_db.Base.{◌<◌, ◌≡◌, refl, Bool, true, false, some, [], ◌∷◌, length, arith}
use exepense_db.Base.Order.{Bytes}
use exepense_db.Base.Words.{u32_mod}
use exepense_db.Sstable.Bloom
use exepense_db.Sstable.Bloom.{IsLawful}

-- The filter that only knows whether a key was set at all.
pub record AnyKey : Type 0 where
  pub any : Bool

abbrev pub mark : Bool → Bytes
mark true = 1 ∷ []
mark false = []

abbrev pub unmark : Bytes → Bool
unmark [] = false
unmark (b ∷ bs) = true

abbrev pub any_key : Bloom.Lib AnyKey
any_key = record {
  new_for_fp_rate = λ n. record { any = false };
  set = λ f k. record { any = true };
  check = λ f k. f.any;
  bitmap = λ f. mark f.any;
  number_of_bits = λ f. 8;
  number_of_hash_functions = λ f. 1;
  from_existing = λ b bits k keys. record { any = unmark b };
  encode_to_vec = λ b. some b;
  decode_from_slice = λ b. some (b, length b);
}

pub any_key-IsLawful : IsLawful any_key
any_key-IsLawful = record {
  check_set = λ f k. refl;
  check_keeps = λ f j k h. refl;
  bits_fit = λ f. omega arith;
  hashes_fit = λ f. omega arith;
  encodes = λ b. (b, refl);
  decodes = λ b e h. (length e, rw (same_bytes h));
}
  where
    same_bytes : {b e : Bytes} → some b ≡ some e → e ≡ b
    same_bytes h = cc

mark_small : (b : Bool) → length (mark b) < u32_mod
mark_small true = omega arith
mark_small false = omega arith

pub to_bytes_small : (f : AnyKey) → length (Bloom.to_bytes any_key f) < u32_mod
unfolding Bloom.to_bytes
to_bytes_small f = mark_small f.any
