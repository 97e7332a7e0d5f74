-- ===== src/Lsm/Engine/Recovery.antt =====
-- The log and the memory: replaying the log rebuilds the newest version of every key.
use exepense_db.Base.{
  ℕ, suc, ◌+◌, ◌-◌, ◌≤◌, ◌≡◌, refl, sym, ap, ◌∙◌, subst, Option, none, some, List, [], ◌∷◌, ◌++◌,
  append_assoc, append-nil, length, length-append, drop, All, Result, ok, err, ◌>>=◌, bind_assoc,
  bind_cong, arith, enough,
}
use native.Mathlib.Nat.{zero-add, suc-add}
use exepense_db.Base.Order.{Bytes}
use exepense_db.Memtable.{MemTable}
use exepense_db.Wal
use exepense_db.Wal.{IsLawful, WalRecord, WalReader, encode, encode_all, append, next, open_reader}
use exepense_db.Wal.Record.{IsEncodable}
use exepense_db.Wal.Steps.{at, drop-after, encode_all_nil, encode_all_cons}
use exepense_db.Wal.Reader.{next-record, next-end, encode-pos}
use exepense_db.Lsm.Engine.{LsmError, replay, onward, replay_record}

-- The replay loop over a list of records.
unfoldable pub replay_list : ℕ → List WalRecord → MemTable × ℕ → Result LsmError (MemTable × ℕ)
replay_list flushed [] s = ok s
replay_list flushed (r ∷ rs) s = replay_record flushed s r >>= replay_list flushed rs

pub replay_list-append :
    (flushed : ℕ) (rs ts : List WalRecord) (s : MemTable × ℕ)
    → replay_list flushed (rs ++ ts) s ≡ (replay_list flushed rs s >>= replay_list flushed ts)
unfolding replay_list
replay_list-append flushed [] ts s = refl
replay_list-append flushed (r ∷ rs) ts s =
    bind_cong (replay_record flushed s r) (replay_list-append flushed rs ts)
    ∙ sym (bind_assoc (replay_record flushed s r) (replay_list flushed rs) (replay_list flushed ts))

onward-bind :
    (m : Result LsmError (MemTable × ℕ))
    (k : MemTable × ℕ → Option (Result LsmError (MemTable × ℕ)))
    (g : MemTable × ℕ → Result LsmError (MemTable × ℕ))
    → ((s : MemTable × ℕ) → k s ≡ some (g s))
    → onward m k ≡ some (m >>= g)
onward-bind (ok s) k g h = h s
onward-bind (err e) k g h = refl

-- One round of the replay loop, for each answer of `next`.
module _ (lib : Wal.Lib) (fuel flushed : ℕ) (x x' : WalReader) (s : MemTable × ℕ) where
  replay-none : next lib x ≡ (none, x') → replay lib (suc fuel) flushed x s ≡ some (ok s)
  unfolding replay
  replay-none e = rw (replay, ap (λ p. p.0) e)

  replay-ok :
      (r : WalRecord) (rs : List WalRecord)
      → next lib x ≡ (some (ok r), x')
      → ((s' : MemTable × ℕ) → replay lib fuel flushed x' s' ≡ some (replay_list flushed rs s'))
      → replay lib (suc fuel) flushed x s ≡ some (replay_list flushed (r ∷ rs) s)
  unfolding replay replay_list
  replay-ok r rs e h =
      rw (replay, ap (λ p. p.0) e, ap (λ p. p.1) e)
        (onward-bind (replay_record flushed s r) _ (replay_list flushed rs) h)

module _ {lib : Wal.Lib} (law : IsLawful lib) where
  -- The replay of a log that the writer made is the replay of its records.
  pub replay-encode_all :
      (rs : List WalRecord) (c bytes : Bytes) (pos extra flushed : ℕ) (s : MemTable × ℕ)
      → All IsEncodable rs
      → encode_all lib rs ≡ ok bytes
      → drop pos c ≡ bytes
      → length c ≡ pos + length bytes
      → replay lib (length rs + suc extra) flushed (at c pos) s ≡ some (replay_list flushed rs s)
  replay-encode_all [] c bytes pos extra flushed s h e hd hl = rw zero-add (
      replay-none lib extra flushed _ _ s
        (next-end law c pos (omega (arith, hl, ap length (encode_all_nil lib bytes e))))
      ∙ unfold replay_list in refl)
  replay-encode_all (r ∷ rs) c bytes pos extra flushed s h e hd hl =
      let (b, rest, eb, erest, split) = encode_all_cons lib r rs bytes e in
      rw suc-add (
        replay-ok lib (length rs + suc extra) flushed _ _ s r rs
          (next-record law r c b rest pos h.0 eb (hd ∙ split))
          (λ s'.
            replay-encode_all rs c rest (pos + length b) extra flushed s' h.1 erest
              (after b rest split) (omega (arith, hl, ap length split, length-append b rest))))
    where
      after : (b rest : Bytes) → bytes ≡ b ++ rest → drop (pos + length b) c ≡ rest
      after b rest split =
          drop-after pos c bytes b rest [] split (hd ∙ sym (append-nil bytes)) ∙ append-nil rest

  -- A log has at least as many bytes as records.
  pub length-le-encode_all :
      (rs : List WalRecord) (bytes : Bytes)
      → All IsEncodable rs
      → encode_all lib rs ≡ ok bytes
      → length rs ≤ length bytes
  length-le-encode_all [] bytes h e = omega arith
  length-le-encode_all (r ∷ rs) bytes h e =
      let (b, rest, eb, erest, split) = encode_all_cons lib r rs bytes e in
      omega (
        arith,
        length-le-encode_all rs rest h.1 erest,
        encode-pos law r b h.0 eb,
        ap length split,
        length-append b rest,
      )

  -- Opening replays the whole log.
  pub replay-log :
      (rs : List WalRecord) (file : Bytes) (flushed : ℕ) (s : MemTable × ℕ)
      → All IsEncodable rs
      → encode_all lib rs ≡ ok file
      → replay lib (length file + 1) flushed (open_reader file) s ≡ some (replay_list flushed rs s)
  replay-log rs file flushed s h e =
      subst (λ n. replay lib n flushed (open_reader file) s ≡ some (replay_list flushed rs s))
        (enough (length rs) (length file) (length-le-encode_all rs file h e))
        (replay-encode_all rs file file 0 (length file - length rs) flushed s h e refl
          (omega arith))

  -- One more record in the log is its bytes behind the file.
  pub encode_all-append :
      (rs : List WalRecord) (r : WalRecord) (file b : Bytes)
      → encode_all lib rs ≡ ok file
      → encode lib r ≡ ok b
      → encode_all lib (rs ++ (r ∷ [])) ≡ ok (file ++ b)
  unfolding encode_all
  encode_all-append [] r file b e eb =
      rw eb (ap ok (append-nil b ∙ ap (λ (f : Bytes). f ++ b) (encode_all_nil lib file e)))
  encode_all-append (x ∷ rs) r file b e eb =
      let (bx, rest, ex, erest, split) = encode_all_cons lib x rs file e in
      rw (ex, encode_all-append rs r rest b erest eb, split, append_assoc)
