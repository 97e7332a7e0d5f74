-- ===== src/Lsm/Engine/Poison.antt =====
-- A write with an empty key: `put`, `delete` and `open` of crates/lsm/src/engine.rs.
use exepense_db.Base.{
  ℕ, ◌+◌, ◌<◌, ◌≡◌, refl, Option, none, some, [], ◌++◌, All-append, ◌∷◌, lt→leb, Result, ok, err,
  arith,
}
use native.Mathlib.Nat.{mod-eq_of_lt}
use exepense_db.Base.Order.{Bytes}
use exepense_db.Base.Words.{u64_mod}
use exepense_db.Memtable
use exepense_db.Memtable.{MemTable, empty_key}
use exepense_db.Wal
use exepense_db.Wal.{IsLawful, WalRecord, encode, append}
use exepense_db.Wal.Record.{IsEncodable, Fits, encode_total}
use exepense_db.Lsm.Mvcc.{next_write_seq}
use exepense_db.Lsm.Levels.{Tables}
use exepense_db.Lsm.Engine.{
  Engine, LsmError, mem_table, replay_record, apply_record, put, delete, open_engine,
}
use exepense_db.Lsm.Engine.Recovery.{replay_list, replay_list-append, replay-log, encode_all-append}
use exepense_db.Lsm.Engine.Writes.{IsDurable, record_of}

-- What a refused write leaves: an error for the caller, and a log that no later `open` accepts.
pub record Poisoned {Reader : Type 0} (lib : Wal.Lib) (t : Tables Reader) (e : Engine Reader)
    (result : Result LsmError (Unit {0}) × Engine Reader) : Type 0 where
  pub refused : result.0 ≡ err (mem_table empty_key)
  pub opens_never :
      (n : ℕ)
      → open_engine t lib n e.manifest (some result.1.wal_file) ≡ some (err (mem_table empty_key))

refuses :
    (mt : MemTable) (r : WalRecord) (v : Option Bytes)
    → r.key ≡ []
    → apply_record mt r v ≡ err empty_key
unfolding Memtable.put Memtable.delete
refuses mt r (some v) h = rw h
refuses mt r none h = rw h

replay_refuses :
    (flushed top : ℕ) (mt : MemTable) (r : WalRecord)
    → flushed < r.seq_no
    → r.key ≡ []
    → replay_list flushed (r ∷ []) (mt, top) ≡ err (mem_table empty_key)
unfolding replay_record replay_list
replay_refuses flushed top mt r h hk = rw (lt→leb _ _ h, refuses mt r r.value hk)

-- A put or a delete with an empty key.
abbrev pub write_empty :
    {Reader : Type 0}
    → Wal.Lib
    → Engine Reader
    → Option Bytes
    → Result LsmError (Unit {0}) × Engine Reader
write_empty lib e (some v) = put lib e [] v
write_empty lib e none = delete lib e []

module _ {lib : Wal.Lib} (law : IsLawful lib) {Reader : Type 0} (t : Tables Reader) where
  poisoned_log :
      (e : Engine Reader) (r : WalRecord) (b : Bytes) (n : ℕ)
      → IsDurable lib e
      → IsEncodable r
      → encode lib r ≡ ok b
      → r.seq_no ≡ e.next_seq
      → r.key ≡ []
      → open_engine t lib n e.manifest (some (e.wal_file ++ b)) ≡ some (err (mem_table empty_key))
  unfolding open_engine
  poisoned_log e r b n d fits eb es hk = rw (
    open_engine,
    replay-log law (d.records ++ (r ∷ [])) (e.wal_file ++ b) e.manifest.wal_flushed_seq _
        (All-append IsEncodable d.records (r ∷ []) d.fits (fits, tt))
        (encode_all-append law d.records r e.wal_file b d.logged eb),
    replay_list-append e.manifest.wal_flushed_seq d.records (r ∷ [])
        (Memtable.new, e.manifest.wal_flushed_seq),
    d.replays,
    replay_refuses e.manifest.wal_flushed_seq d.top d.recovered r
        (omega (arith, d.flushed_below, d.top_below, es)) hk,
  )

  put_lem :
      (e : Engine Reader) (v b : Bytes)
      → encode lib (record_of law e [] (some v)) ≡ ok b
      → e.next_seq + 1 < u64_mod
      → put lib e [] v ≡ (
        err (mem_table empty_key),
        record e { next_seq = e.next_seq + 1; wal_file = e.wal_file ++ b },
      )
  unfolding put append next_write_seq Memtable.put
  put_lem e v b eb h = rw (eb, mod-eq_of_lt h)

  delete_lem :
      (e : Engine Reader) (b : Bytes)
      → encode lib (record_of law e [] none) ≡ ok b
      → e.next_seq + 1 < u64_mod
      → delete lib e [] ≡ (
        err (mem_table empty_key),
        record e { next_seq = e.next_seq + 1; wal_file = e.wal_file ++ b },
      )
  unfolding delete append next_write_seq Memtable.delete
  delete_lem e b eb h = rw (eb, mod-eq_of_lt h)

  write_empty_lem :
      (e : Engine Reader) (v : Option Bytes) (b : Bytes)
      → encode lib (record_of law e [] v) ≡ ok b
      → e.next_seq + 1 < u64_mod
      → write_empty lib e v ≡ (
        err (mem_table empty_key),
        record e { next_seq = e.next_seq + 1; wal_file = e.wal_file ++ b },
      )
  write_empty_lem e (some v) b = put_lem e v b
  write_empty_lem e none b = delete_lem e b

  -- From a durable state whose counter is not at its end, a put (of a value that fits its length word) or a delete with an empty key
  -- returns the memtable's error, but its record is in the log already: from then on, `open` of the
  -- manifest and that log fails with the same error, whatever the process's counter is.
  pub empty_key-Poisoned :
      (e : Engine Reader) (v : Option Bytes)
      → IsDurable lib e
      → Fits v
      → e.next_seq + 1 < u64_mod
      → Poisoned lib t e (write_empty lib e v)
  empty_key-Poisoned e v d hv h =
      let fits : IsEncodable (record_of law e [] v) = record {
        seq_fits = omega arith;
        key_fits = omega arith;
        value_fits = hv;
      } in
      let (b, eb) = encode_total law (record_of law e [] v) fits in
      rw (write_empty_lem e v b eb h) record {
        refused = refl;
        opens_never = λ n. poisoned_log e (record_of law e [] v) b n d fits eb refl refl;
      }
