-- ===== src/Lsm/Engine/Reads.antt =====
-- What `get` returns, by the newest version of the key in memory.
use exepense_db.Base.{
  ℕ, ◌+◌, ◌<◌, ◌≤◌, ◌≡◌, ◌≢◌, refl, ap, ◌∙◌, none, some, false, ◌++◌, List, [], ◌∷◌, length, le→leb,
  ok, arith,
}
use mathlib.Core.List.{reverse}
use exepense_db.Base.Order.{Bytes, same, same_refl, cmp_refl}
use exepense_db.Base.Words.{u64_mod, u32_mod}
use exepense_db.Base.BtreeMap
use exepense_db.Base.BtreeMap.{get-insert}
use exepense_db.Memtable
use exepense_db.Memtable.{
  VersionedValue, value, tombstone, MemTable, ImmutableMemTable, seq, imm_get, read_at, visible,
}
use exepense_db.Wal
use exepense_db.Wal.{IsLawful, tombstone_sentinel}
use exepense_db.Wal.Record.{IsEncodable, encode_total}
use exepense_db.Memtable.Lookup.{delete_total}
use exepense_db.Lsm.Mvcc.{begin_read}
use exepense_db.Lsm.Levels.{Tables, reader_of}
use exepense_db.Lsm.Manifest.{SstMeta}
use exepense_db.Lsm.Engine.{
  Engine, get, get_at, get_below, get_immutable, get_level, get_tables, put, delete,
}
use exepense_db.Lsm.Engine.Layers.{newest, newest_of}
use exepense_db.Lsm.Engine.Writes.{IsDurable, record_of, delete_lem, put-Written}

-- A version is seen at a snapshot that its sequence number does not pass.
pub visible_value :
    (v : Bytes) (s read_seq : ℕ) → s ≤ read_seq → read_at (value v s) read_seq ≡ some v
unfolding read_at
visible_value v s read_seq h = rw (le→leb s read_seq h)

get_immutable-newest_of :
    (imms : List ImmutableMemTable) (q v : Bytes) (s read_seq : ℕ)
    → s ≤ read_seq
    → newest_of imms q ≡ some (value v s)
    → get_immutable imms q read_seq ≡ some v
unfolding get_immutable newest_of imm_get
get_immutable-newest_of [] q v s read_seq h e = cc
get_immutable-newest_of (imm ∷ imms) q v s read_seq h e =
    ground (arith, get_immutable-newest_of imms q v s read_seq h, visible_value v s read_seq h)

get_immutable-none :
    (imms : List ImmutableMemTable) (q : Bytes) (read_seq : ℕ)
    → newest_of imms q ≡ none
    → get_immutable imms q read_seq ≡ none
unfolding get_immutable newest_of imm_get
get_immutable-none [] q read_seq e = refl
get_immutable-none (imm ∷ imms) q read_seq e = ground (arith, get_immutable-none imms q read_seq)

-- A sequence number below the counter is seen by the next read.
pub seq-le-begin_read : (s n : ℕ) → s < n → s ≤ begin_read n
unfolding begin_read
seq-le-begin_read s n h = omega arith

module _ {lib : Wal.Lib} (law : IsLawful lib) {Reader : Type 0} (t : Tables Reader) where
  get_at-newest :
      (e : Engine Reader) (q v : Bytes) (s read_seq : ℕ)
      → s ≤ read_seq
      → newest e q ≡ some (value v s)
      → get_at t e q read_seq ≡ ok (some v)
  unfolding get_at get_below newest Memtable.get
  get_at-newest e q v s read_seq h k = ground (
    arith,
    get_immutable-newest_of (reverse e.immutable) q v s read_seq h,
    visible_value v s read_seq h,
  )

  below :
      (e : Engine Reader) (v : Bytes) (s : ℕ)
      → (d : IsDurable lib e) → seq (value v s) ≤ d.top
      → s < e.next_seq
  unfolding seq
  below e v s d k = omega (arith, d.top_below)

  -- If the newest version in memory of a key is a value, `get` returns that value, from whatever
  -- layer it lies in.
  pub get-newest :
      (e : Engine Reader) (q v : Bytes) (s : ℕ)
      → IsDurable lib e
      → newest e q ≡ some (value v s)
      → get t e q ≡ ok (some v)
  unfolding get
  get-newest e q v s d h =
      get_at-newest e q v s (begin_read e.next_seq)
        (seq-le-begin_read s e.next_seq (below e v s d (d.seen q (value v s) (d.agrees q ∙ h)))) h

  -- On a durable engine, after a put of a key that is not empty, with lengths that fit and without an
  -- overflow of the counter, `get` of the key returns the put value, also if the memtable was frozen.
  pub get-put :
      (e : Engine Reader) (key v : Bytes)
      → IsDurable lib e
      → key ≢ []
      → length key < u32_mod
      → length v < tombstone_sentinel
      → e.next_seq + 1 < u64_mod
      → get t (put lib e key v).1 key ≡ ok (some v)
  get-put e key v d hk lk lv hn =
      let w = put-Written law e key v d hk lk lv hn in
      get-newest _ key v e.next_seq w.durable (w.newest_is key ∙ rw (same_refl key))

  -- On a durable engine, a put of a key that is not empty, with lengths that fit and without an
  -- overflow of the counter, changes no other key: one whose newest version in memory is a value reads
  -- as that value before and after.
  pub get-put_ne :
      (e : Engine Reader) (key v q u : Bytes) (s : ℕ)
      → IsDurable lib e
      → key ≢ []
      → length key < u32_mod
      → length v < tombstone_sentinel
      → e.next_seq + 1 < u64_mod
      → same q key ≡ false
      → newest e q ≡ some (value u s)
      → (get t e q ≡ ok (some u)) × (get t (put lib e key v).1 q ≡ ok (some u))
  get-put_ne e key v q u s d hk lk lv hn ne h =
      let w = put-Written law e key v d hk lk lv hn in
      (get-newest e q u s d h, get-newest _ q u s w.durable (w.newest_is q ∙ rw ne h))

  deleted_below :
      (e : Engine Reader) (b key : Bytes) (mt : MemTable) (n read_seq : ℕ)
      → mt.inner ≡ BtreeMap.insert key (tombstone n) e.memtable.inner
      → get_at t (record e { next_seq = n + 1; wal_file = b; memtable = mt }) key read_seq
        ≡ get_below t e key read_seq
  unfolding get_at get_below Memtable.get read_at
  deleted_below e b key mt n read_seq h = ground (
    arith,
    ap (BtreeMap.get key) h,
    get-insert key key (tombstone n) e.memtable.inner,
    cmp_refl key,
  )

  acknowledged :
      (e : Engine Reader) (key : Bytes)
      → key ≢ []
      → length key < u32_mod
      → e.next_seq + 1 < u64_mod
      → (delete lib e key).0 ≡ ok tt
  acknowledged e key hk lk hn =
      let fits : IsEncodable (record_of law e key none) = record {
        seq_fits = omega arith;
        key_fits = lk;
        value_fits = tt;
      } in
      let (b, eb) = encode_total law (record_of law e key none) fits in
      let (mt, em, hi) = delete_total e.memtable key e.next_seq hk in
      ap (λ p. p.0) (delete_lem law e key b mt hn eb em)

  -- The tombstone in the active memtable is passed over.
  get-delete :
      (e : Engine Reader) (key : Bytes)
      → key ≢ []
      → length key < u32_mod
      → e.next_seq + 1 < u64_mod
      → get t (delete lib e key).1 key ≡ get_below t e key (begin_read (e.next_seq + 1))
  unfolding get
  get-delete e key hk lk hn =
      let fits : IsEncodable (record_of law e key none) = record {
        seq_fits = omega arith;
        key_fits = lk;
        value_fits = tt;
      } in
      let (b, eb) = encode_total law (record_of law e key none) fits in
      let (mt, em, hi) = delete_total e.memtable key e.next_seq hk in
      rw (delete_lem law e key b mt hn eb em)
        (deleted_below e (e.wal_file ++ b) key mt e.next_seq (begin_read (e.next_seq + 1)) hi)

  immutable_below :
      (e : Engine Reader) (key v : Bytes) (s read_seq : ℕ)
      → s ≤ read_seq
      → newest_of (reverse e.immutable) key ≡ some (value v s)
      → get_below t e key read_seq ≡ ok (some v)
  unfolding get_below
  immutable_below e key v s read_seq h k =
      rw (get_below, get_immutable-newest_of (reverse e.immutable) key v s read_seq h k)

  -- A key that is not empty, whose length fits, and whose newest frozen version is a value up to the
  -- counter, which is not at its end: its delete is acknowledged, and then `get` of the key returns the
  -- deleted value.
  pub delete_resurrects :
      (e : Engine Reader) (key v : Bytes) (s : ℕ)
      → key ≢ []
      → length key < u32_mod
      → e.next_seq + 1 < u64_mod
      → s ≤ e.next_seq
      → newest_of (reverse e.immutable) key ≡ some (value v s)
      → ((delete lib e key).0 ≡ ok tt) × (get t (delete lib e key).1 key ≡ ok (some v))
  delete_resurrects e key v s hk lk hn hs h = (
    acknowledged e key hk lk hn,
    get-delete e key hk lk hn
        ∙ immutable_below e key v s (begin_read (e.next_seq + 1))
            (seq-le-begin_read s (e.next_seq + 1) (omega arith)) h,
  )

  -- A key that is not empty, whose length fits, with a counter that is not at its end, of which no frozen
  -- memtable has a version, while the first table of level 0 is open and has a value for it at the
  -- snapshot of the next read: its delete is acknowledged, and then `get` of the key returns the value of
  -- the table.
  pub delete_resurrects-get_tables :
      (e : Engine Reader) (key v : Bytes) (m : SstMeta) (ms : List SstMeta)
      (ls : List (List SstMeta)) (r : Reader)
      → key ≢ []
      → length key < u32_mod
      → e.next_seq + 1 < u64_mod
      → newest_of (reverse e.immutable) key ≡ none
      → e.levels.levels ≡ (m ∷ ms) ∷ ls
      → reader_of m.id e.levels.readers ≡ some r
      → t.get r key (begin_read (e.next_seq + 1)) ≡ ok (some v)
      → ((delete lib e key).0 ≡ ok tt) × (get t (delete lib e key).1 key ≡ ok (some v))
  unfolding get_below get_tables get_level
  delete_resurrects-get_tables e key v m ms ls r hk lk hn frozen levels opened there = (
    acknowledged e key hk lk hn,
    get-delete e key hk lk hn
        ∙ rw
            (
              get_below,
              get_immutable-none (reverse e.immutable) key (begin_read (e.next_seq + 1)) frozen,
              levels,
              get_tables,
              get_level,
              opened,
              there,
            )
            refl,
  )
