-- ===== src/Lsm/Engine/Writes.antt =====
-- `put` and `delete` keep the log a faithful record of the memory: the invariant `IsDurable`.
use exepense_db.Base.{
  ℕ, ◌+◌, ◌<◌, ◌≤◌, ◌≡◌, ◌≢◌, refl, sym, ap, ◌∙◌, Option, none, some, List, [], ◌∷◌, ◌++◌, length,
  All, All-append, if◌then◌else◌, lt→ltb, lt→leb, Bool-cases, inl, inr, Result, ok, arith,
}
use native.Mathlib.Nat.{mod-eq_of_lt}
use exepense_db.Base.Order.{Bytes, same}
use exepense_db.Base.Words.{u64_mod, u32_mod}
use exepense_db.Base.BtreeMap
use exepense_db.Base.BtreeMap.{get-insert}
use exepense_db.Memtable
use exepense_db.Memtable.Lookup.{put_total, delete_total}
use exepense_db.Memtable.{VersionedValue, value, tombstone, MemTable, seq}
use exepense_db.Wal
use exepense_db.Wal.{IsLawful, WalRecord, encode, encode_all, append, tombstone_sentinel}
use exepense_db.Wal.Record.{IsEncodable, encode_total}
use exepense_db.Lsm.Mvcc.{next_write_seq}
use exepense_db.Lsm.Engine.{
  Engine, LsmError, replay_record, apply_record, put, delete, maybe_freeze,
}
use exepense_db.Lsm.Engine.Layers.{newest, newest-maybe_freeze, newest-insert}
use exepense_db.Lsm.Engine.Recovery.{replay_list, replay_list-append, encode_all-append}

-- The log file is the log of some records, all of them above the flushed sequence number; their
-- replay gives a memtable that holds, for each key, the newest version in memory; and no sequence
-- number has reached the counter.
pub record IsDurable {Reader : Type 0} (lib : Wal.Lib) (e : Engine Reader) : Type 0 where
  pub records : List WalRecord
  pub recovered : MemTable
  pub top : ℕ
  pub fits : All IsEncodable records
  pub logged : encode_all lib records ≡ ok e.wal_file
  pub replays :
      replay_list e.manifest.wal_flushed_seq records (Memtable.new, e.manifest.wal_flushed_seq)
      ≡ ok (recovered, top)
  pub agrees : (q : Bytes) → BtreeMap.get q recovered.inner ≡ newest e q
  pub seen :
      (q : Bytes) (w : VersionedValue) → BtreeMap.get q recovered.inner ≡ some w → seq w ≤ top
  pub flushed_below : e.manifest.wal_flushed_seq ≤ top
  pub top_below : top < e.next_seq

-- What a write did: it was acknowledged, the log is still a faithful record, the counter went on by
-- one, the manifest and the tables are the old ones, and exactly the written key has a new newest
-- version.
pub record Written {Reader : Type 0} (lib : Wal.Lib) (e : Engine Reader)
    (result : Result LsmError (Unit {0}) × Engine Reader) (key : Bytes) (w : VersionedValue)
    : Type 0 where
  pub acknowledged : result.0 ≡ ok tt
  pub durable : IsDurable lib result.1
  pub counter : result.1.next_seq ≡ e.next_seq + 1
  pub same_manifest : result.1.manifest ≡ e.manifest
  pub same_levels : result.1.levels ≡ e.levels
  pub newest_is : (q : Bytes) → newest result.1 q ≡ (if same q key then some w else newest e q)

replay_record_new :
    (flushed top : ℕ) (mt mt' : MemTable) (r : WalRecord)
    → flushed < r.seq_no
    → top < r.seq_no
    → apply_record mt r r.value ≡ ok mt'
    → replay_record flushed (mt, top) r ≡ ok (mt', r.seq_no)
unfolding replay_record
replay_record_new flushed top mt mt' r hf ht e = rw (lt→leb _ _ hf, lt→ltb _ _ ht, e)

seen_insert :
    (key q : Bytes) (w w' : VersionedValue) (mt mt' : MemTable) (top top' : ℕ)
    → mt'.inner ≡ BtreeMap.insert key w mt.inner
    → seq w ≡ top'
    → top ≤ top'
    → ((v : VersionedValue) → BtreeMap.get q mt.inner ≡ some v → seq v ≤ top)
    → BtreeMap.get q mt'.inner ≡ some w'
    → seq w' ≤ top'
seen_insert key q w w' mt mt' top top' h hw ht old e =
    ground (arith, old w', ap (BtreeMap.get q) h, get-insert key q w mt.inner)

replay_list-new :
    (flushed top : ℕ) (rs : List WalRecord) (r : WalRecord) (s : MemTable × ℕ) (mt mt' : MemTable)
    → replay_list flushed rs s ≡ ok (mt, top)
    → flushed < r.seq_no
    → top < r.seq_no
    → apply_record mt r r.value ≡ ok mt'
    → replay_list flushed (rs ++ (r ∷ [])) s ≡ ok (mt', r.seq_no)
unfolding replay_list
replay_list-new flushed top rs r s mt mt' h hf ht e =
    replay_list-append flushed rs (r ∷ []) s
    ∙ rw (h, replay_record_new flushed top mt mt' r hf ht e)

module _ {lib : Wal.Lib} (law : IsLawful lib) {Reader : Type 0} where
  -- A record appended to the log, whose version became the newest of its key.
  write-IsDurable :
      (e e' : Engine Reader) (r : WalRecord) (w : VersionedValue) (b : Bytes) (mt : MemTable)
      → (d : IsDurable lib e) → IsEncodable r
      → encode lib r ≡ ok b
      → r.seq_no ≡ e.next_seq
      → seq w ≡ e.next_seq
      → apply_record d.recovered r r.value ≡ ok mt
      → mt.inner ≡ BtreeMap.insert r.key w d.recovered.inner
      → e'.wal_file ≡ e.wal_file ++ b
      → e'.next_seq ≡ e.next_seq + 1
      → e'.manifest ≡ e.manifest
      → ((q : Bytes) → newest e' q ≡ (if same q r.key then some w else newest e q))
      → IsDurable lib e'
  write-IsDurable e e' r w b mt d fits eb es ew ea ei hfile hnext hman hnew = record {
    records = d.records ++ (r ∷ []);
    recovered = mt;
    top = e.next_seq;
    fits = All-append IsEncodable d.records (r ∷ []) d.fits (fits, tt);
    logged = rw hfile (encode_all-append law d.records r e.wal_file b d.logged eb);
    replays =
        rw (hman, ← es)
          (replay_list-new e.manifest.wal_flushed_seq d.top d.records r _ d.recovered mt d.replays
            (omega (arith, d.flushed_below, d.top_below)) (omega (arith, d.top_below)) ea);
    agrees = λ q.
        ap (BtreeMap.get q) ei
        ∙ get-insert r.key q w d.recovered.inner
        ∙ rw (d.agrees q) (sym (hnew q));
    seen = λ q w'.
        seen_insert r.key q w w' d.recovered mt d.top e.next_seq ei ew (omega (arith, d.top_below))
          (d.seen q);
    flushed_below = omega (arith, ap (λ m. m.wal_flushed_seq) hman, d.flushed_below, d.top_below);
    top_below = omega (arith, hnext);
  }

  -- The state after a write whose two steps succeeded.
  abbrev pub written : Engine Reader → Bytes → MemTable → Engine Reader
  written e b mt = record e { next_seq = e.next_seq + 1; wal_file = e.wal_file ++ b; memtable = mt }

  abbrev pub record_of : Engine Reader → Bytes → Option Bytes → WalRecord
  record_of e key v = record { seq_no = e.next_seq; key = key; value = v }

  -- Freezing changes the memtables only.
  freeze_keeps :
      (e : Engine Reader)
      → ((maybe_freeze e).wal_file ≡ e.wal_file)
        × ((maybe_freeze e).next_seq ≡ e.next_seq)
        × ((maybe_freeze e).manifest ≡ e.manifest)
        × ((maybe_freeze e).levels ≡ e.levels)
  unfolding maybe_freeze
  freeze_keeps e = elim (Bool-cases (Memtable.is_over_threshold e.memtable)) [
    | inl over ↦ rw over (refl, refl, refl, refl)
    | inr under ↦ rw under (refl, refl, refl, refl)
  ]

  newest-written :
      (e : Engine Reader) (b key q : Bytes) (w : VersionedValue) (mt : MemTable)
      → mt.inner ≡ BtreeMap.insert key w e.memtable.inner
      → newest (written e b mt) q ≡ (if same q key then some w else newest e q)
  newest-written e b key q w mt h =
      newest-insert (record e { next_seq = e.next_seq + 1; wal_file = e.wal_file ++ b }) mt key q w
        h
      ∙ unfold newest in refl

  put_lem :
      (e : Engine Reader) (key v b : Bytes) (mt : MemTable)
      → e.next_seq + 1 < u64_mod
      → encode lib (record_of e key (some v)) ≡ ok b
      → Memtable.put e.memtable key v e.next_seq ≡ ok mt
      → put lib e key v ≡ (ok tt, maybe_freeze (written e b mt))
  unfolding put append next_write_seq
  put_lem e key v b mt h eb em = rw (eb, em, mod-eq_of_lt h)

  pub delete_lem :
      (e : Engine Reader) (key b : Bytes) (mt : MemTable)
      → e.next_seq + 1 < u64_mod
      → encode lib (record_of e key none) ≡ ok b
      → Memtable.delete e.memtable key e.next_seq ≡ ok mt
      → delete lib e key ≡ (ok tt, written e b mt)
  unfolding delete append next_write_seq
  delete_lem e key b mt h eb em = rw (eb, em, mod-eq_of_lt h)

  frozen-Written :
      (e : Engine Reader) (key b : Bytes) (v : Option Bytes) (w : VersionedValue)
      (mt mt' : MemTable)
      → (d : IsDurable lib e) → IsEncodable (record_of e key v)
      → encode lib (record_of e key v) ≡ ok b
      → seq w ≡ e.next_seq
      → mt.inner ≡ BtreeMap.insert key w e.memtable.inner
      → apply_record d.recovered (record_of e key v) v ≡ ok mt'
      → mt'.inner ≡ BtreeMap.insert key w d.recovered.inner
      → Written lib e (ok tt, written e b mt) key w
        × Written lib e (ok tt, maybe_freeze (written e b mt)) key w
  frozen-Written e key b v w mt mt' d fits eb ew hi ea hi' = (
    record {
      acknowledged = refl;
      durable =
          write-IsDurable e (written e b mt) (record_of e key v) w b mt' d fits eb refl ew ea hi'
            refl refl refl (λ q. newest-written e b key q w mt hi);
      counter = refl;
      same_manifest = refl;
      same_levels = refl;
      newest_is = λ q. newest-written e b key q w mt hi;
    },
    record {
      acknowledged = refl;
      durable =
          write-IsDurable e (maybe_freeze (written e b mt)) (record_of e key v) w b mt' d fits eb
            refl ew ea hi' keeps.0 keeps.1 keeps.2 frozen;
      counter = keeps.1;
      same_manifest = keeps.2;
      same_levels = keeps.3;
      newest_is = frozen;
    },
  )
    where
      keeps :
          ((maybe_freeze (written e b mt)).wal_file ≡ e.wal_file ++ b)
          × ((maybe_freeze (written e b mt)).next_seq ≡ e.next_seq + 1)
          × ((maybe_freeze (written e b mt)).manifest ≡ e.manifest)
          × ((maybe_freeze (written e b mt)).levels ≡ e.levels)
      keeps = freeze_keeps (written e b mt)

      frozen :
          (q : Bytes)
          → newest (maybe_freeze (written e b mt)) q ≡ (if same q key then some w else newest e q)
      frozen q = newest-maybe_freeze (written e b mt) q ∙ newest-written e b key q w mt hi

  -- On a durable engine, a put with a key that is not empty, with lengths that fit and without an
  -- overflow of the counter is acknowledged and leaves a durable engine, in which exactly that key has
  -- a new newest version, the put value, also when the memtable was frozen.
  pub put-Written :
      (e : Engine Reader) (key v : Bytes)
      → IsDurable lib e
      → key ≢ []
      → length key < u32_mod
      → length v < tombstone_sentinel
      → e.next_seq + 1 < u64_mod
      → Written lib e (put lib e key v) key (value v e.next_seq)
  put-Written e key v d hk lk lv hn =
      let fits : IsEncodable (record_of e key (some v)) = record {
        seq_fits = omega arith;
        key_fits = lk;
        value_fits = lv;
      } in
      let (b, eb) = encode_total law (record_of e key (some v)) fits in
      let (mt, em, hi) = put_total e.memtable key v e.next_seq hk in
      let (mt', em', hi') = put_total d.recovered key v e.next_seq hk in
      rw (put_lem e key v b mt hn eb em)
        (frozen-Written e key b (some v) (value v e.next_seq) mt mt' d fits eb (unfold seq in refl)
          hi em' hi').1

  -- On a durable engine, a delete of a key that is not empty, whose length fits, without an overflow of
  -- the counter is acknowledged and leaves a durable engine, in which exactly that key has a new newest
  -- version, a tombstone.
  pub delete-Written :
      (e : Engine Reader) (key : Bytes)
      → IsDurable lib e
      → key ≢ []
      → length key < u32_mod
      → e.next_seq + 1 < u64_mod
      → Written lib e (delete lib e key) key (tombstone e.next_seq)
  delete-Written e key d hk lk hn =
      let fits : IsEncodable (record_of e key none) = record {
        seq_fits = omega arith;
        key_fits = lk;
        value_fits = tt;
      } in
      let (b, eb) = encode_total law (record_of e key none) fits in
      let (mt, em, hi) = delete_total e.memtable key e.next_seq hk in
      let (mt', em', hi') = delete_total d.recovered key e.next_seq hk in
      rw (delete_lem e key b mt hn eb em)
        (frozen-Written e key b none (tombstone e.next_seq) mt mt' d fits eb (unfold seq in refl) hi
          em' hi').0
