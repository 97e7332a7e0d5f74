-- ===== src/Wal/Steps.antt =====
-- One round of the reader's iteration, and the bytes of a log record by record.
use exepense_db.Base.{
  ℕ, suc, ◌+◌, ◌≡◌, refl, sym, ap, Option, none, some, List, [], ◌∷◌, ◌++◌, append_assoc, length,
  drop, drop-append, drop-drop, Result, ok, err, ok-injective, ◌>>=◌, >>=-eq-ok,
}
use mathlib.Core.Option
use exepense_db.Base.Order.{Bytes}
use exepense_db.Wal.{
  Lib, WalRecord, WalError, WalReader, encode, encode_all, next, read_all, collect_ok,
}

abbrev pub at : Bytes → ℕ → WalReader
at c pos = record { contents = c; pos = pos }

-- The records `rs` in front of what the rest of an iteration gives.
abbrev pub onto :
    List WalRecord
    → Option (Result WalError (List WalRecord))
    → Option (Result WalError (List WalRecord))
onto rs none = none
onto rs (some (ok ts)) = some (ok (rs ++ ts))
onto rs (some (err e)) = some (err e)

pub onto-nil : (o : Option (Result WalError (List WalRecord))) → onto [] o ≡ o
onto-nil none = refl
onto-nil (some (ok ts)) = refl
onto-nil (some (err e)) = refl

pub onto-cons :
    (r : WalRecord) (rs : List WalRecord) (o : Option (Result WalError (List WalRecord)))
    → Option.map (λ t. t >>= λ ts. ok (r ∷ ts)) (onto rs o) ≡ onto (r ∷ rs) o
onto-cons r rs none = refl
onto-cons r rs (some (ok ts)) = refl
onto-cons r rs (some (err e)) = refl

pub map-nil : (o : Option (List WalRecord)) → Option.map (λ ts. [] ++ ts) o ≡ o
map-nil none = refl
map-nil (some ts) = refl

pub map-cons :
    (r : WalRecord) (rs : List WalRecord) (o : Option (List WalRecord))
    → Option.map (λ ts. r ∷ ts) (Option.map (λ ts. rs ++ ts) o)
      ≡ Option.map (λ ts. (r ∷ rs) ++ ts) o
map-cons r rs none = refl
map-cons r rs (some ts) = refl

pub drop-after :
    (pos : ℕ) (c bytes b rest tail : Bytes)
    → bytes ≡ b ++ rest
    → drop pos c ≡ bytes ++ tail
    → drop (pos + length b) c ≡ rest ++ tail
drop-after pos c bytes b rest tail split hd =
    rw (drop-drop pos (length b) c, hd, split, append_assoc) (drop-append b (rest ++ tail) refl)

module _ (lib : Lib) where
  pub encode_all_nil : (bytes : Bytes) → encode_all lib [] ≡ ok bytes → [] ≡ bytes
  unfolding encode_all
  encode_all_nil bytes e = ok-injective e

  -- The bytes of a log are those of its first record, and those of the rest.
  pub encode_all_cons :
      (r : WalRecord) (rs : List WalRecord) (bytes : Bytes)
      → encode_all lib (r ∷ rs) ≡ ok bytes
      → (b : Bytes) × (rest : Bytes) × (encode lib r ≡ ok b)
        × (encode_all lib rs ≡ ok rest)
        × (bytes ≡ b ++ rest)
  unfolding encode_all
  encode_all_cons r rs bytes e =
      let (b, eb, e') = >>=-eq-ok (encode lib r) _ e in
      let (rest, erest, e'') = >>=-eq-ok (encode_all lib rs) _ e' in
      (b, rest, eb, erest, sym (ok-injective e''))

-- One round of an iteration, for each answer of `next`.
module _ (lib : Lib) (fuel : ℕ) (x x' : WalReader) where
  pub read_all-ok :
      {r : WalRecord}
      → next lib x ≡ (some (ok r), x')
      → read_all lib (suc fuel) x ≡ Option.map (λ t. t >>= λ ts. ok (r ∷ ts)) (read_all lib fuel x')
  unfolding read_all
  read_all-ok e = rw (read_all, ap (λ p. p.0) e, ap (λ p. p.1) e)

  pub read_all-none : next lib x ≡ (none, x') → read_all lib (suc fuel) x ≡ some (ok [])
  unfolding read_all
  read_all-none e = rw (read_all, ap (λ p. p.0) e)

  pub read_all-err :
      {w : WalError} → next lib x ≡ (some (err w), x') → read_all lib (suc fuel) x ≡ some (err w)
  unfolding read_all
  read_all-err e = rw (read_all, ap (λ p. p.0) e)

  pub collect_ok-ok :
      {r : WalRecord}
      → next lib x ≡ (some (ok r), x')
      → collect_ok lib (suc fuel) x ≡ Option.map (λ ts. r ∷ ts) (collect_ok lib fuel x')
  unfolding collect_ok
  collect_ok-ok e = rw (collect_ok, ap (λ p. p.0) e, ap (λ p. p.1) e)

  pub collect_ok-none : next lib x ≡ (none, x') → collect_ok lib (suc fuel) x ≡ some []
  unfolding collect_ok
  collect_ok-none e = rw (collect_ok, ap (λ p. p.0) e)

  pub collect_ok-err :
      {w : WalError}
      → next lib x ≡ (some (err w), x')
      → collect_ok lib (suc fuel) x ≡ collect_ok lib fuel x'
  unfolding collect_ok
  collect_ok-err e = rw (collect_ok, ap (λ p. p.0) e, ap (λ p. p.1) e)
