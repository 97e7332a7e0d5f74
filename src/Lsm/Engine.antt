-- ===== src/Lsm/Engine.antt =====
-- crates/lsm/src/engine.rs: the engine. A method takes the engine's state, with the global sequence
-- counter and the log file in it, and returns its result and the new state; the mutex makes each
-- method one step. Tables stand behind the interface `Tables`.
pub mod Layers
pub mod Recovery
pub mod Writes
pub mod Reads
pub mod Crash
pub mod Poison
pub mod Overlay
pub mod Scan
pub mod ScanTables
mod Tests
use exepense_db.Base.{
  ℕ, zero, suc, ◌+◌, ◌-◌, ◌≡◌, Bool, true, false, not, ◌&&◌, Option, none, some, List, [], ◌∷◌,
  ◌++◌, length, max, min, ltb, leb, if◌then◌else◌, Result, ok, err, ◌>>=◌,
}
use mathlib.Core.List.{reverse}
use exepense_db.Base.Order.{Bytes, le_bytes, starts_with}
use exepense_db.Base.Words.{u64_mod}
use exepense_db.Base.BtreeMap
use exepense_db.Base.BtreeMap.{BtreeMap}
use exepense_db.Memtable
use exepense_db.Memtable.{
  VersionedValue, value, tombstone, MemTable, ImmutableMemTable, MemTableError,
}
use exepense_db.Wal
use exepense_db.Wal.{WalRecord, WalReader, WalError, open_reader}
use exepense_db.Sstable.Error.{Fault, fails, panics, SsTableError}
use exepense_db.Sstable.Block.{BlockEntry}
use exepense_db.Lsm.Mvcc.{begin_read, next_write_seq, bump_next_seq_to}
use exepense_db.Lsm.Manifest
use exepense_db.Lsm.Manifest.{Manifest, ManifestError, SstMeta, Json}
use exepense_db.Lsm.Levels
use exepense_db.Lsm.Levels.{Tables, LevelState, Readers, reader_of}

-- The messages are dropped; `panicked` is a panic of the code below.
pub data LsmError : Type 0 where
  wal : WalError → LsmError
  ss_table : SsTableError → LsmError
  mem_table : MemTableError → LsmError
  io : LsmError
  manifest : ManifestError → LsmError
  encode decode json panicked : LsmError

abbrev pub of_fault : Fault → LsmError
of_fault (fails e) = ss_table e
of_fault panics = panicked

-- `?` at each library's error
abbrev pub lift {ℓ κ} : {E : Type ℓ} {A : Type κ} → (E → LsmError) → Result E A → Result LsmError A
lift f (ok a) = ok a
lift f (err e) = err (f e)

pub record Engine (Reader : Type 0) : Type 0 where
  pub next_seq : ℕ
  pub memtable : MemTable
  pub immutable : List ImmutableMemTable
  pub wal_file : Bytes
  pub levels : LevelState Reader
  pub manifest : Manifest

-- The body of the replay loop of `open`: the memtable and the highest sequence number seen.
abbrev pub apply_record : MemTable → WalRecord → Option Bytes → Result MemTableError MemTable
apply_record mt r (some v) = Memtable.put mt r.key v r.seq_no
apply_record mt r none = Memtable.delete mt r.key r.seq_no

unfoldable pub replay_record : ℕ → MemTable × ℕ → WalRecord → Result LsmError (MemTable × ℕ)
replay_record flushed (mt, max_seq_seen) r =
    let seen = if ltb max_seq_seen r.seq_no then r.seq_no else max_seq_seen in
    if leb r.seq_no flushed
    then ok (mt, seen)
    else lift mem_table (apply_record mt r r.value) >>= λ mt'. ok (mt', seen)

-- `?` in the loop
abbrev pub onward :
    Result LsmError (MemTable × ℕ)
    → (MemTable × ℕ → Option (Result LsmError (MemTable × ℕ)))
    → Option (Result LsmError (MemTable × ℕ))
onward (err e) k = some (err e)
onward (ok s) k = k s

-- The replay loop; `none` is no value of the program: the rounds ran out.
unfoldable pub replay :
    Wal.Lib → ℕ → ℕ → WalReader → MemTable × ℕ → Option (Result LsmError (MemTable × ℕ))
replay lib zero flushed r s = none
replay lib (suc fuel) flushed r s =
    let (item, r') = Wal.next lib r in
    elim item [
      | none ↦ some (ok s)
      | some (err e) ↦ some (err (wal e))
      | some (ok rec) ↦ onward (replay_record flushed s rec) (replay lib fuel flushed r')
    ]

-- `fs::exists`: no log file reads as no records, and `WalWriter::open` creates it.
abbrev pub file_or_empty : Option Bytes → Bytes
file_or_empty none = []
file_or_empty (some b) = b

-- The key range test of the lookups in L1 and below.
abbrev pub in_range : Bytes → SstMeta → Bool
in_range key meta = le_bytes meta.min_key key && le_bytes key meta.max_key

-- The immutable memtables, newest first.
unfoldable pub get_immutable : List ImmutableMemTable → Bytes → ℕ → Option Bytes
get_immutable [] key read_seq = none
get_immutable (imm ∷ imms) key read_seq = elim (Memtable.imm_get imm key read_seq) [
  | some v ↦ some v
  | none ↦ get_immutable imms key read_seq
]

module _ {Reader : Type 0} (t : Tables Reader) where
  -- `open` once the log is replayed.
  unfoldable pub finish_open : ℕ → Bytes → Manifest → MemTable × ℕ → Result LsmError (Engine Reader)
  finish_open next_seq wal_file m (mt, max_seq_seen) = do
    levels ← lift of_fault (Levels.new t m.levels)
    ok (record {
      next_seq = bump_next_seq_to next_seq (min (max_seq_seen + 1) (u64_mod - 1));
      memtable = mt;
      immutable = [];
      wal_file = wal_file;
      levels = levels;
      manifest = m;
    })

  -- `LsmEngine::open` from the counter NEXT_SEQ, the loaded manifest and the log file. Each round of the
  -- replay takes at least one byte of the log.
  unfoldable pub open_engine :
      Wal.Lib → ℕ → Manifest → Option Bytes → Option (Result LsmError (Engine Reader))
  open_engine lib next_seq m wal_path =
      let file = file_or_empty wal_path in
      elim (replay lib (length file + 1) m.wal_flushed_seq (open_reader file)
        (Memtable.new, m.wal_flushed_seq)) [
          | none ↦ none
          | some (err e) ↦ some (err e)
          | some (ok s) ↦ some (finish_open next_seq file m s)
        ]

  -- `LsmEngine::open` on a directory: its manifest file and its log file, where they exist.
  unfoldable pub open_dir :
      Json → Wal.Lib → ℕ → Option Bytes → Option Bytes → Option (Result LsmError (Engine Reader))
  open_dir codec lib next_seq manifest_file wal_path = elim (Manifest.load codec manifest_file) [
    | err e ↦ some (err (manifest e))
    | ok m ↦ open_engine lib next_seq m wal_path
  ]

  -- One level, in order; `L0` has no range test.
  abbrev pub get_one : Bool → Readers Reader → SstMeta → Bytes → ℕ → Result Fault (Option Bytes)
  get_one false readers meta key read_seq = ok none
  get_one true readers meta key read_seq = elim (reader_of meta.id readers) [
    | none ↦ ok none
    | some r ↦ t.get r key read_seq
  ]

  unfoldable pub get_level :
      (SstMeta → Bool) → Readers Reader → List SstMeta → Bytes → ℕ → Result Fault (Option Bytes)
  get_level test readers [] key read_seq = ok none
  get_level test readers (meta ∷ metas) key read_seq =
      elim (get_one (test meta) readers meta key read_seq) [
        | err w ↦ err w
        | ok (some v) ↦ ok (some v)
        | ok none ↦ get_level test readers metas key read_seq
      ]

  unfoldable pub get_lower :
      Readers Reader → List (List SstMeta) → Bytes → ℕ → Result Fault (Option Bytes)
  get_lower readers [] key read_seq = ok none
  get_lower readers (level ∷ rest) key read_seq =
      elim (get_level (in_range key) readers level key read_seq) [
        | err w ↦ err w
        | ok (some v) ↦ ok (some v)
        | ok none ↦ get_lower readers rest key read_seq
      ]

  unfoldable pub get_tables :
      Readers Reader → List (List SstMeta) → Bytes → ℕ → Result Fault (Option Bytes)
  get_tables readers [] key read_seq = ok none
  get_tables readers (l0 ∷ rest) key read_seq =
      elim (get_level (λ _. true) readers l0 key read_seq) [
        | err w ↦ err w
        | ok (some v) ↦ ok (some v)
        | ok none ↦ get_lower readers rest key read_seq
      ]

  -- Steps 2 to 4 of `get_at`: what lies below the active memtable.
  unfoldable pub get_below : Engine Reader → Bytes → ℕ → Result LsmError (Option Bytes)
  get_below e key read_seq = elim (get_immutable (reverse e.immutable) key read_seq) [
    | some v ↦ ok (some v)
    | none ↦ lift of_fault (get_tables e.levels.readers e.levels.levels key read_seq)
  ]

  unfoldable pub get_at : Engine Reader → Bytes → ℕ → Result LsmError (Option Bytes)
  get_at e key snapshot = elim (Memtable.get e.memtable key snapshot) [
    | some v ↦ ok (some v)
    | none ↦ get_below e key snapshot
  ]

  unfoldable pub get : Engine Reader → Bytes → Result LsmError (Option Bytes)
  get e key = get_at e key (begin_read e.next_seq)

module _ {Reader : Type 0} where
  unfoldable pub maybe_freeze : Engine Reader → Engine Reader
  maybe_freeze e =
      if Memtable.is_over_threshold e.memtable
      then record e {
        memtable = Memtable.new;
        immutable = e.immutable ++ (Memtable.freeze e.memtable ∷ []);
      }
      else e

  -- The memtable step of a write, from the state with the record in the log.
  abbrev pub with_memtable :
      (Engine Reader → Engine Reader)
      → Engine Reader
      → Result MemTableError MemTable
      → Result LsmError (Unit {0}) × Engine Reader
  with_memtable after e (err w) = (err (mem_table w), e)
  with_memtable after e (ok mt) = (ok tt, after (record e { memtable = mt }))

  -- The log step of a write, then `step`.
  abbrev pub with_wal :
      (Engine Reader → Result LsmError (Unit {0}) × Engine Reader)
      → Engine Reader
      → Result WalError Bytes
      → Result LsmError (Unit {0}) × Engine Reader
  with_wal step e (err w) = (err (wal w), e)
  with_wal step e (ok file) = step (record e { wal_file = file })

  unfoldable pub put :
      Wal.Lib → Engine Reader → Bytes → Bytes → Result LsmError (Unit {0}) × Engine Reader
  put lib e key v =
      let (s, next) = next_write_seq e.next_seq in
      let r : WalRecord = record { seq_no = s; key = key; value = some v } in
      with_wal (λ e'. with_memtable maybe_freeze e' (Memtable.put e'.memtable key v s))
        (record e { next_seq = next }) (Wal.append lib e.wal_file r)

  unfoldable pub delete :
      Wal.Lib → Engine Reader → Bytes → Result LsmError (Unit {0}) × Engine Reader
  delete lib e key =
      let (s, next) = next_write_seq e.next_seq in
      let r : WalRecord = record { seq_no = s; key = key; value = none } in
      with_wal (λ e'. with_memtable (λ e''. e'') e' (Memtable.delete e'.memtable key s))
        (record e { next_seq = next }) (Wal.append lib e.wal_file r)

-- One entry of a memtable in `scan_prefix`.
abbrev pub scan_value : Bytes → ℕ → VersionedValue → BtreeMap Bytes → BtreeMap Bytes
scan_value key snap (value d s) results =
    if leb s snap then BtreeMap.insert key d results else results
scan_value key snap (tombstone s) results =
    if leb s snap then BtreeMap.remove key results else results

unfoldable pub scan_entries : Bytes → ℕ → BtreeMap VersionedValue → BtreeMap Bytes → BtreeMap Bytes
scan_entries prefix snap [] results = results
scan_entries prefix snap ((key, v) ∷ m) results =
    scan_entries prefix snap m
      (if starts_with key prefix then scan_value key snap v results else results)

unfoldable pub scan_immutable : Bytes → ℕ → List ImmutableMemTable → BtreeMap Bytes → BtreeMap Bytes
scan_immutable prefix snap [] results = results
scan_immutable prefix snap (imm ∷ imms) results =
    scan_immutable prefix snap imms (scan_entries prefix snap (Memtable.iter imm) results)

-- One entry of a table in `scan_prefix`.
abbrev pub scan_item : Bytes → ℕ → BlockEntry → BtreeMap Bytes → BtreeMap Bytes
scan_item prefix snap x results =
    if starts_with x.key prefix && leb x.seq snap
    then (if x.tombstone
        then BtreeMap.remove x.key results
        else BtreeMap.insert x.key x.value results)
    else results

unfoldable pub scan_items : Bytes → ℕ → List BlockEntry → BtreeMap Bytes → BtreeMap Bytes
scan_items prefix snap [] results = results
scan_items prefix snap (x ∷ xs) results =
    scan_items prefix snap xs (scan_item prefix snap x results)

abbrev pub ends : Option Fault → BtreeMap Bytes → Result Fault (BtreeMap Bytes)
ends none results = ok results
ends (some w) results = err w

module _ {Reader : Type 0} (t : Tables Reader) where
  abbrev pub scan_reader :
      Bytes → ℕ → Option Reader → BtreeMap Bytes → Result Fault (BtreeMap Bytes)
  scan_reader prefix snap none results = ok results
  scan_reader prefix snap (some r) results =
      let (items, stop) = t.entries r in ends stop (scan_items prefix snap items results)

  unfoldable pub scan_level :
      Bytes → ℕ → Readers Reader → List SstMeta → BtreeMap Bytes → Result Fault (BtreeMap Bytes)
  scan_level prefix snap readers [] results = ok results
  scan_level prefix snap readers (meta ∷ metas) results =
      scan_reader prefix snap (reader_of meta.id readers) results
      >>= scan_level prefix snap readers metas

  -- The levels, the last one first.
  unfoldable pub scan_levels :
      Bytes
      → ℕ
      → Readers Reader
      → List (List SstMeta)
      → BtreeMap Bytes
      → Result Fault (BtreeMap Bytes)
  scan_levels prefix snap readers [] results = ok results
  scan_levels prefix snap readers (level ∷ rest) results =
      scan_level prefix snap readers level results >>= scan_levels prefix snap readers rest

  unfoldable pub scan_prefix : Engine Reader → Bytes → Result LsmError (BtreeMap Bytes)
  scan_prefix e prefix = do
    let snap = begin_read e.next_seq
    tables ← lift of_fault (scan_levels prefix snap e.levels.readers (reverse e.levels.levels) [])
    let frozen = scan_immutable prefix snap e.immutable tables
    ok (scan_entries prefix snap (Memtable.iter (Memtable.freeze e.memtable)) frozen)
