-- ===== src/Base/Cuts.antt =====
-- Reading a byte buffer field by field: where each field stands, and what a slice or a
-- `from_le_bytes` of it is.
use Prim.Native.Nat.{ℕ, ◌+◌, ◌<◌, ◌^◌}
use mathlib.Core.Path.{◌≡◌, refl, sym, ap, ◌∙◌}
use mathlib.Core.List.{[], ◌++◌, append_assoc, append-nil}
use native.Mathlib.Omega.{arith}
use exepense_db.Base.Lists.{length, slice, drop, length-append, slice-append, drop-append}
use exepense_db.Base.Order.{Bytes}
use exepense_db.Base.Words.{to_le, from_le, length-to_le, from_le-to_le}

-- Behind `pos` bytes of `b` stands `rest`.
pub record Cut (b : Bytes) (pos : ℕ) (rest : Bytes) : Type 0 where
  pub front : Bytes
  pub split : b ≡ front ++ rest
  pub reach : length front ≡ pos

pub Cut-start : (b : Bytes) → Cut b 0 b
Cut-start b = record { front = []; split = refl; reach = refl }

pub drop-Cut : {b rest : Bytes} {pos : ℕ} → Cut b pos rest → drop pos b ≡ rest
drop-Cut {rest} {pos} c = ap (drop pos) c.split ∙ drop-append c.front rest (sym c.reach)

pub length-Cut : {b rest : Bytes} {pos : ℕ} → Cut b pos rest → length b ≡ pos + length rest
length-Cut {rest} c = omega (arith, ap length c.split, length-append c.front rest, c.reach)

module _ {b : Bytes} {pos : ℕ} (w rest : Bytes) where
  -- Past the bytes `w`.
  pub Cut-past : {end : ℕ} → Cut b pos (w ++ rest) → end ≡ pos + length w → Cut b end rest
  Cut-past c e = record {
    front = c.front ++ w;
    split = c.split ∙ sym (append_assoc c.front w rest);
    reach = omega (arith, length-append c.front w, c.reach, e);
  }

  pub slice-Cut : {end : ℕ} → Cut b pos (w ++ rest) → end ≡ pos + length w → slice pos end b ≡ w
  slice-Cut {end} c e =
      ap (slice pos end) c.split
      ∙ slice-append c.front w rest (sym c.reach) (omega (arith, c.reach, e))

module _ {b : Bytes} {pos : ℕ} (n v : ℕ) (rest : Bytes) where
  -- Past the little-endian word `v` of `n` bytes.
  pub word_past : Cut b pos (to_le n v ++ rest) → Cut b (pos + n) rest
  word_past c = Cut-past (to_le n v) rest c (omega (arith, length-to_le n v))

  pub word_at : Cut b pos (to_le n v ++ rest) → v < 256 ^ n → from_le (slice pos (pos + n) b) ≡ v
  word_at c h =
      ap from_le (slice-Cut (to_le n v) rest c (omega (arith, length-to_le n v)))
      ∙ from_le-to_le n v h

-- The last word of a buffer.
pub word_last :
    {b : Bytes} {pos : ℕ} (n v : ℕ)
    → Cut b pos (to_le n v)
    → v < 256 ^ n
    → from_le (slice pos (pos + n) b) ≡ v
word_last n v c h = word_at n v [] (rw append-nil c) h
