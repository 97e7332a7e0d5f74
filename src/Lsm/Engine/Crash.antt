-- ===== src/Lsm/Engine/Crash.antt =====
-- Any writes, then a crash, then `open`: the engine tests and fault injection tests of crates/lsm.
use exepense_db.Base.{
  ℕ, ◌+◌, ◌-◌, ◌<◌, ◌≤◌, ◌≡◌, ◌≢◌, refl, ap, ◌∙◌, subst, fun_ext, Option, none, some, List, [], ◌∷◌,
  length, All, if◌then◌else◌, Result, ok, min, arith,
}
use exepense_db.Base.Order.{Bytes, same}
use exepense_db.Base.Words.{u64_mod, u32_mod}
use exepense_db.Base.BtreeMap
use exepense_db.Memtable
use exepense_db.Memtable.{VersionedValue, value, tombstone, MemTable, seq, read_at}
use exepense_db.Wal
use exepense_db.Wal.{IsLawful, tombstone_sentinel, encode_all, open_reader}
use exepense_db.Lsm.Mvcc.{begin_read, bump_next_seq_to, first_seq}
use exepense_db.Lsm.Manifest
use exepense_db.Lsm.Manifest.{Manifest, Json}
use exepense_db.Lsm.Levels
use exepense_db.Lsm.Levels.{Tables, LevelState}
use exepense_db.Lsm.Engine.{
  Engine, LsmError, put as engine_put, delete as engine_delete, replay, open_engine, open_dir,
  finish_open, lift, of_fault, get, get_at, get_below, get_immutable, get_tables, get_lower,
  get_level,
}
use exepense_db.Lsm.Engine.Layers.{newest, newest_of}
use exepense_db.Lsm.Engine.Recovery.{replay_list, replay-log}
use exepense_db.Lsm.Engine.Writes.{IsDurable, put-Written, delete-Written}
use exepense_db.Lsm.Engine.Reads.{visible_value}

pub data Op : Type 0 where
  put : Bytes → Bytes → Op
  delete : Bytes → Op

-- The key is not empty, and the lengths fit in the log's words.
abbrev pub CanWrite : Op → Type 0
CanWrite (put k v) = (k ≢ []) × (length k < u32_mod) × (length v < tombstone_sentinel)
CanWrite (delete k) = (k ≢ []) × (length k < u32_mod)

-- The live data of a version.
abbrev pub live : Option VersionedValue → Option Bytes
live none = none
live (some (value v s)) = some v
live (some (tombstone s)) = none

-- What a map does: each operation changes it at one key.
abbrev pub model_step : Op → (Bytes → Option Bytes) → Bytes → Option Bytes
model_step (put k v) f q = if same q k then some v else f q
model_step (delete k) f q = if same q k then none else f q

unfoldable pub model : List Op → (Bytes → Option Bytes) → Bytes → Option Bytes
model [] f = f
model (op ∷ ops) f = model ops (model_step op f)

module _ {Reader : Type 0} (lib : Wal.Lib) where
  unfoldable pub step : Engine Reader → Op → Engine Reader
  step e (put k v) = (engine_put lib e k v).1
  step e (delete k) = (engine_delete lib e k).1

  unfoldable pub run : List Op → Engine Reader → Engine Reader
  run [] e = e
  run (op ∷ ops) e = run ops (step e op)

abbrev pub or_tables :
    Option Bytes → Result LsmError (Option Bytes) → Result LsmError (Option Bytes)
or_tables none r = r
or_tables (some v) r = ok (some v)

-- What a run keeps and does.
pub record Ran {Reader : Type 0} (lib : Wal.Lib) (e e' : Engine Reader) (f : Bytes → Option Bytes)
    (n : ℕ) : Type 0 where
  pub durable : IsDurable lib e'
  pub counter : e'.next_seq ≡ e.next_seq + n
  pub same_manifest : e'.manifest ≡ e.manifest
  pub same_levels : e'.levels ≡ e.levels
  pub reads : (q : Bytes) → live (newest e' q) ≡ f q

module _ {lib : Wal.Lib} (law : IsLawful lib) {Reader : Type 0} where
  step-Ran :
      (e : Engine Reader) (op : Op)
      → IsDurable lib e
      → CanWrite op
      → e.next_seq + 1 < u64_mod
      → Ran lib e (step lib e op) (model_step op (λ q. live (newest e q))) 1
  unfolding step
  step-Ran e (put k v) d (hk, lk, lv) hn =
      let w = put-Written law e k v d hk lk lv hn in
      record {
        durable = w.durable;
        counter = w.counter;
        same_manifest = w.same_manifest;
        same_levels = w.same_levels;
        reads = λ q. ground (arith, w.newest_is q);
      }
  step-Ran e (delete k) d (hk, lk) hn =
      let w = delete-Written law e k d hk lk hn in
      record {
        durable = w.durable;
        counter = w.counter;
        same_manifest = w.same_manifest;
        same_levels = w.same_levels;
        reads = λ q. ground (arith, w.newest_is q);
      }

  -- From any durable state, writes with keys that are not empty, with lengths that fit and without an
  -- overflow of the counter leave a durable state whose newest versions are those of a map after the
  -- same operations; the counter moves on by their number, and the manifest and levels stay.
  pub run-Ran :
      (ops : List Op) (e : Engine Reader)
      → IsDurable lib e
      → All CanWrite ops
      → e.next_seq + length ops < u64_mod
      → Ran lib e (run lib ops e) (model ops (λ q. live (newest e q))) (length ops)
  unfolding run model
  run-Ran [] e d h hn = record {
    durable = d;
    counter = omega arith;
    same_manifest = refl;
    same_levels = refl;
    reads = λ q. refl;
  }
  run-Ran (op ∷ ops) e d h hn =
      let s = step-Ran e op d h.0 (omega arith) in
      let r = run-Ran ops (step lib e op) s.durable h.1 (omega (arith, s.counter)) in
      record {
        durable = r.durable;
        counter = omega (arith, r.counter, s.counter);
        same_manifest = r.same_manifest ∙ s.same_manifest;
        same_levels = r.same_levels ∙ s.same_levels;
        reads = λ q. r.reads q ∙ ap (λ f. model ops f q) (fun_ext s.reads);
      }

-- An engine on an empty directory, as `open_engine` makes it.
abbrev pub no_readers : {Reader : Type 0} → LevelState Reader
no_readers = record { levels = [] ∷ [] ∷ [] ∷ []; readers = [] }

abbrev pub fresh : {Reader : Type 0} → Engine Reader
fresh = record {
  next_seq = 1;
  memtable = Memtable.new;
  immutable = [];
  wal_file = [];
  levels = no_readers;
  manifest = Manifest.new;
}

module _ (lib : Wal.Lib) {Reader : Type 0} (t : Tables Reader) where
  opens_fresh : open_engine t lib first_seq Manifest.new none ≡ some (ok fresh)
  unfolding open_engine finish_open Wal.next replay Levels.new Levels.open_levels Levels.open_level
      Manifest.new bump_next_seq_to
  opens_fresh = refl

-- An engine on an empty directory is durable.
pub fresh-IsDurable : (lib : Wal.Lib) {Reader : Type 0} → IsDurable lib (fresh {Reader = Reader})
unfolding encode_all replay_list newest newest_of Memtable.new BtreeMap.get Manifest.new
fresh-IsDurable lib = record {
  records = [];
  recovered = Memtable.new;
  top = 0;
  fits = tt;
  logged = refl;
  replays = refl;
  agrees = λ q. refl;
  seen = λ q w e. absurd (false_of e);
  flushed_below = omega arith;
  top_below = omega arith;
}
  where
    false_of : {w : VersionedValue} → none ≡ some w → ⊥
    false_of e = cc

module _ {lib : Wal.Lib} (law : IsLawful lib) {Reader : Type 0} (t : Tables Reader) where
  -- The engine that `open` makes of a durable engine's files.
  abbrev reopened :
      (e : Engine Reader) → IsDurable lib e → ℕ → LevelState Reader → Manifest → Engine Reader
  reopened e d n ls m = record {
    next_seq = bump_next_seq_to n (min (d.top + 1) (u64_mod - 1));
    memtable = d.recovered;
    immutable = [];
    wal_file = e.wal_file;
    levels = ls;
    manifest = m;
  }

  open-same :
      (e : Engine Reader) (d : IsDurable lib e) (n : ℕ) (ls : LevelState Reader)
      → Levels.new t e.manifest.levels ≡ ok ls
      → open_engine t lib n e.manifest (some e.wal_file) ≡ some (ok (reopened e d n ls e.manifest))
  unfolding open_engine finish_open
  open-same e d n ls hl = rw (
    open_engine,
    replay-log law d.records e.wal_file e.manifest.wal_flushed_seq _ d.fits d.logged,
    d.replays,
    finish_open,
    hl,
  )

  -- Opening succeeds, whatever the counter `n` of the new process is.
  open-durable :
      (e : Engine Reader) (d : IsDurable lib e) (n : ℕ) (ls : LevelState Reader) (m : Manifest)
      → e.manifest ≡ m
      → Levels.new t m.levels ≡ ok ls
      → open_engine t lib n m (some e.wal_file) ≡ some (ok (reopened e d n ls m))
  open-durable e d n ls m hm =
      subst
        (λ m.
          Levels.new t m.levels ≡ ok ls
          → open_engine t lib n m (some e.wal_file) ≡ some (ok (reopened e d n ls m)))
        hm (open-same e d n ls)

  get_at-version :
      (e : Engine Reader) (q : Bytes) (o : Option VersionedValue) (read_seq : ℕ)
      → e.immutable ≡ []
      → BtreeMap.get q e.memtable.inner ≡ o
      → ((w : VersionedValue) → o ≡ some w → seq w ≤ read_seq)
      → get_at t e q read_seq
        ≡ or_tables
            (live o)
            (lift of_fault (get_tables t e.levels.readers e.levels.levels q read_seq))
  unfolding get_at get_below Memtable.get seq read_at get_tables
  get_at-version e q none read_seq hi h hs =
      rw (get_at, Memtable.get, h, get_below, hi) (unfold get_immutable in refl)
  get_at-version e q (some (tombstone s)) read_seq hi h hs =
      rw (get_at, Memtable.get, h, get_below, hi) (unfold get_immutable read_at in refl)
  get_at-version e q (some (value v s)) read_seq hi h hs =
      rw (get_at, Memtable.get, h, visible_value v s read_seq (hs (value v s) refl))

  snapshot_covers :
      (top n s : ℕ)
      → top + 1 < u64_mod
      → s ≤ top
      → s ≤ begin_read (bump_next_seq_to n (min (top + 1) (u64_mod - 1)))
  unfolding begin_read bump_next_seq_to
  snapshot_covers top n s h k = omega arith

  -- The reopened engine: its counter is above every sequence number of the log, so each newest
  -- version is read; only a key with no live version is looked up in the tables.
  pub get-reopened :
      (e : Engine Reader) (d : IsDurable lib e) (n : ℕ) (ls : LevelState Reader) (m : Manifest)
      (q : Bytes)
      → d.top + 1 < u64_mod
      → get t (reopened e d n ls m) q
        ≡ or_tables (live (newest e q)) (
            lift of_fault
              (get_tables t ls.readers ls.levels q (begin_read (reopened e d n ls m).next_seq)))
  unfolding get
  get-reopened e d n ls m q h =
      get_at-version (reopened e d n ls m) q (newest e q)
        (begin_read (reopened e d n ls m).next_seq) refl (d.agrees q)
        (λ w k. snapshot_covers d.top n (seq w) h (d.seen q w (d.agrees q ∙ k)))

  no_tables :
      (q : Bytes) (read_seq : ℕ)
      → get_tables t
          (no_readers {Reader = Reader}).readers
          (no_readers {Reader = Reader}).levels
          q
          read_seq
        ≡ ok none
  unfolding get_tables get_lower get_level
  no_tables q read_seq = refl

  -- A directory with no manifest file.
  opens_without :
      (codec : Json) (n : ℕ) (file : Option Bytes)
      → open_dir t codec lib n none file ≡ open_engine t lib n Manifest.new file
  unfolding open_dir Manifest.load
  opens_without codec n file = refl

  no_levels : Levels.new t Manifest.new.levels ≡ ok no_readers
  unfolding Levels.new Levels.open_levels Levels.open_level Manifest.new
  no_levels = refl

  fresh_reads : (q : Bytes) → live (newest (fresh {Reader = Reader}) q) ≡ none
  unfolding newest newest_of Memtable.new BtreeMap.get
  fresh_reads q = refl

  or_none :
      (o : Option Bytes) (r : Result LsmError (Option Bytes)) → r ≡ ok none → or_tables o r ≡ ok o
  or_none none r h = h
  or_none (some v) r h = refl

  -- Open an empty directory, run any puts and deletes with keys that are not empty and lengths that
  -- fit, fewer than 2^64 - 1 of them, with whatever freezing they cause, and stop. Opening the directory's
  -- files again succeeds, whatever the new process's counter is, and every key then reads as in a
  -- map after the same operations.
  pub crash_recovery :
      (codec : Json) (ops : List Op) (n : ℕ)
      → All CanWrite ops
      → 1 + length ops < u64_mod
      → (e : Engine Reader) × (open_dir t codec lib n none
            (some (run lib ops (fresh {Reader = Reader})).wal_file)
          ≡ some (ok e))
        × ((q : Bytes) → get t e q ≡ ok (model ops (λ _. none) q))
  crash_recovery codec ops n h hn =
      let r = run-Ran law ops (fresh {Reader = Reader}) (fresh-IsDurable lib) h hn in
      let e = run lib ops (fresh {Reader = Reader}) in
      (
        reopened e r.durable n no_readers Manifest.new,
        opens_without codec n _
            ∙ open-durable e r.durable n no_readers Manifest.new r.same_manifest no_levels,
        λ q.
            get-reopened e r.durable n no_readers Manifest.new q
              (omega (arith, r.durable.top_below, r.counter))
            ∙ or_none (live (newest e q)) _ (rw (no_tables q _))
            ∙ ap ok (r.reads q ∙ ap (λ f. model ops f q) (fun_ext fresh_reads)),
      )
