-- ===== src/Wal/Stuck.antt =====
-- A log with a damaged record. An error of `decode` other than an I/O error is handed out by the
-- reader, which stays where it is.
use exepense_db.Base.{
  ℕ, zero, suc, ◌+◌, ◌<◌, ◌≡◌, ◌≢◌, refl, ap, ◌∙◌, Option, none, some, List, [], ◌∷◌, ◌++◌,
  append_assoc, length, drop, length-append, drop-append, length-drop, All, lt→leb, ok, err, arith,
}
use mathlib.Core.Option
use native.Mathlib.Nat.{zero-add, add-zero, add_assoc}
use exepense_db.Base.Order.{Bytes}
use exepense_db.Base.Words.{from_le}
use exepense_db.Wal.{
  Lib, IsLawful, WalRecord, WalReader, WalError, io, crc_mismatch, open_reader, value_bytes,
  header_of, encode_all, decode, next, read_all, collect_ok, truncate_after,
}
use exepense_db.Wal.Record.{IsEncodable, whole, length-whole, decode-corrupt}
use exepense_db.Wal.Steps.{
  at, drop-after, encode_all_cons, read_all-err, collect_ok-ok, collect_ok-err, encode_all_nil,
}
use exepense_db.Wal.Reader.{read_all-encode_all, next-record}

module _ (lib : Lib) where
  next-damaged :
      (c p : Bytes) (pos : ℕ) (e : WalError)
      → e ≢ io
      → drop pos c ≡ p
      → 0 < length p
      → decode lib p ≡ err e
      → next lib (at c pos) ≡ (some (err e), at c pos)
  unfolding next
  next-damaged c p pos io ne hd h de = absurd (ne refl)
  next-damaged c p pos e ne hd h de =
      rw (lt→leb (length c) pos (omega (arith, length-drop pos c, ap length hd)), hd, de)

  -- A reader that hands out an error and stays in place is collected for ever.
  collect_ok-damaged :
      (x : WalReader) (e : WalError)
      → next lib x ≡ (some (err e), x)
      → (fuel : ℕ) → collect_ok lib fuel x ≡ none
  collect_ok-damaged x e h zero = unfold collect_ok in refl
  collect_ok-damaged x e h (suc fuel) =
      collect_ok-err lib fuel x x h ∙ collect_ok-damaged x e h fuel

map-none :
    (r : WalRecord) (o : Option (List WalRecord)) → o ≡ none → Option.map (λ ts. r ∷ ts) o ≡ none
map-none r o e = rw e

module _ {lib : Lib} (law : IsLawful lib) where
  collect_ok-stuck :
      (rs : List WalRecord) (c bytes tail : Bytes) (pos : ℕ)
      → All IsEncodable rs
      → encode_all lib rs ≡ ok bytes
      → drop pos c ≡ bytes ++ tail
      → ((fuel : ℕ) → collect_ok lib fuel (at c (pos + length bytes)) ≡ none)
      → (fuel : ℕ) → collect_ok lib fuel (at c pos) ≡ none
  collect_ok-stuck [] c bytes tail pos h e hd stuck zero = unfold collect_ok in refl
  collect_ok-stuck (r ∷ rs) c bytes tail pos h e hd stuck zero = unfold collect_ok in refl
  collect_ok-stuck [] c bytes tail pos h e hd stuck (suc fuel) =
      rw add-zero at (rw (← encode_all_nil lib bytes e) at (stuck (suc fuel)))
  collect_ok-stuck (r ∷ rs) c bytes tail pos h e hd stuck (suc fuel) =
      let (b, rest, eb, erest, split) = encode_all_cons lib r rs bytes e in
      collect_ok-ok lib fuel _ _
        (next-record law r c b (rest ++ tail) pos h.0 eb (hd ∙ rw (split, append_assoc)))
      ∙ map-none r _ (
          collect_ok-stuck rs c rest tail (pos + length b) h.1 erest
            (drop-after pos c bytes b rest tail split hd) (later b rest split) fuel)
    where
      later :
          (b rest : Bytes)
          → bytes ≡ b ++ rest
          → (n : ℕ) → collect_ok lib n (at c (pos + length b + length rest)) ≡ none
      later b rest split n =
          rw (add_assoc pos (length b) (length rest), ← length-append b rest, ← split) (stuck n)

  -- A log of records whose fields fit, in which one record's checksum field was overwritten by another
  -- number, with any bytes behind it: reading the log reports the mismatch, and
  -- truncating it never ends: no number of rounds of its loop is enough.
  pub damaged_log :
      (rs : List WalRecord) (bytes : Bytes) (r : WalRecord) (hb c rest : Bytes)
      (flushed_seq fuel : ℕ)
      → All IsEncodable rs
      → encode_all lib rs ≡ ok bytes
      → IsEncodable r
      → lib.encode_to_vec (header_of r) ≡ some hb
      → length c ≡ 4
      → from_le c ≢ lib.crc32 (hb ++ (r.key ++ value_bytes r.value))
      → let file = bytes ++ (c ++ (hb ++ (r.key ++ (value_bytes r.value ++ rest)))) in
        (read_all lib (length rs + 1) (open_reader file)
          ≡ some
              (err (crc_mismatch (from_le c) (lib.crc32 (hb ++ (r.key ++ value_bytes r.value))))))
        × (truncate_after lib fuel file flushed_seq ≡ none)
  unfolding truncate_after
  damaged_log rs bytes r hb c rest flushed_seq fuel hrs ers hr eh hc bad =
      let tail = whole c hb r.key (value_bytes r.value) rest in
      let stays =
        next-damaged lib (bytes ++ tail) tail (length bytes) _ (λ e. cc)
          (drop-append bytes tail refl)
          (omega (arith, length-whole c hb r.key (value_bytes r.value) rest hc))
          (decode-corrupt law r hb c rest hr eh hc bad) in
      (
        read_all-encode_all law rs (bytes ++ tail) bytes tail 0 1 hrs ers refl
            ∙ rw (zero-add, read_all-err lib 0 _ _ stays),
        rw (
            collect_ok-stuck rs (bytes ++ tail) bytes tail 0 hrs ers refl
              (λ n. rw zero-add (collect_ok-damaged lib _ _ stays n)) fuel),
      )
