-- ===== src/Lsm/Engine/Tests.antt =====
-- The engine's tests at concrete operations, and the theorems at them. No table opens.
use exepense_db.Base.{
  if◌then◌else◌, ap, ◌≡◌, ◌≢◌, refl, none, some, List, [], ◌∷◌, length, ok, err, All, arith,
}
use exepense_db.Base.Order.{Bytes, cmp, starts_with}
use exepense_db.Base.BtreeMap
use exepense_db.Memtable
use exepense_db.Memtable.{
  value, tombstone, seq, ImmutableMemTable, read_at, visible, MemTable, VersionedValue, empty_key,
}
use exepense_db.Sstable.Error.{panics}
use exepense_db.Wal.Fixed.{fixed, fixed-IsLawful}
use exepense_db.Lsm.Manifest
use exepense_db.Lsm.Manifest.{Json, SstMeta}
use exepense_db.Lsm.Levels.{Tables, reader_of}
use exepense_db.Lsm.Mvcc.{next_write_seq}
use exepense_db.Lsm.Engine.{scan_prefix, maybe_freeze, Engine, put, delete, get, open_dir}
use exepense_db.Wal
use exepense_db.Lsm.Engine.Scan.{scan_prefix-newest}
use exepense_db.Lsm.Engine.Layers.{newest, newest_of}
use exepense_db.Lsm.Engine.Writes.{Written, put-Written}
use exepense_db.Lsm.Engine.Reads.{get-put, delete_resurrects, delete_resurrects-get_tables}
use exepense_db.Lsm.Engine.Crash.{
  Op, CanWrite, Ran, fresh, fresh-IsDurable, run, run-Ran, model, live, crash_recovery,
}
use exepense_db.Lsm.Engine.Poison.{Poisoned, write_empty, empty_key-Poisoned}

abbrev no_table : Tables (Unit {0})
no_table = record { open_path = λ p. err panics; get = λ r k s. ok none; entries = λ r. ([], none) }

abbrev no_json : Json
no_json = record { from_slice = λ b. none; to_writer_pretty = λ m. none }

abbrev k : Bytes
k = 107 ∷ []

abbrev j : Bytes
j = 106 ∷ []

abbrev v : Bytes
v = 118 ∷ 49 ∷ []

abbrev w : Bytes
w = 119 ∷ []

abbrev start : Engine (Unit {0})
start = fresh

abbrev ops : List Op
ops = Op.put k v ∷ Op.put j w ∷ Op.delete k ∷ []

k_not_empty : k ≢ []
k_not_empty e = cc

j_not_empty : j ≢ []
j_not_empty e = cc

ops-CanWrite : All CanWrite ops
ops-CanWrite = (
  (k_not_empty, omega arith, omega arith),
  ((j_not_empty, omega arith, omega arith), ((k_not_empty, omega arith), tt)),
)

crash_recovery_example :
    (e : Engine (Unit {0})) × (open_dir no_table no_json fixed 1 none
        (some (run fixed ops start).wal_file)
      ≡ some (ok e))
    × ((q : Bytes) → get no_table e q ≡ ok (model ops (λ _. none) q))
crash_recovery_example =
    crash_recovery fixed-IsLawful no_table no_json ops 1 ops-CanWrite (omega arith)

run-Ran_example :
    Ran fixed start (run fixed ops start) (model ops (λ q. live (newest start q))) (length ops)
run-Ran_example =
    run-Ran fixed-IsLawful ops start (fresh-IsDurable fixed) ops-CanWrite (omega arith)

get-put_example : get no_table (put fixed start k v).1 k ≡ ok (some v)
get-put_example =
    get-put fixed-IsLawful no_table start k v (fresh-IsDurable fixed) k_not_empty (omega arith)
      (omega arith) (omega arith)

-- One key written.
abbrev one : Engine (Unit {0})
one = (put fixed start k v).1

one-Written : Written fixed start (put fixed start k v) k (value v 1)
one-Written =
    put-Written fixed-IsLawful start k v (fresh-IsDurable fixed) k_not_empty (omega arith)
      (omega arith) (omega arith)

-- A frozen memtable holds the key.
abbrev frozen : Engine (Unit {0})
frozen = record {
  next_seq = 2;
  memtable = Memtable.new;
  immutable = record { entries = (k, value v 1) ∷ [] } ∷ [];
  wal_file = [];
  levels = record { levels = []; readers = [] };
  manifest = Manifest.new;
}

frozen_newest : newest_of (frozen.immutable) k ≡ some (value v 1)
unfolding newest_of BtreeMap.get cmp
frozen_newest = refl

delete_resurrects_example :
    ((delete fixed frozen k).0 ≡ ok tt) × (get no_table (delete fixed frozen k).1 k ≡ ok (some v))
delete_resurrects_example =
    delete_resurrects fixed-IsLawful no_table frozen k v 1 k_not_empty (omega arith) (omega arith)
      (omega arith) frozen_newest

-- A table with a value for every key, alone in level 0.
abbrev one_value : Tables (Unit {0})
one_value = record {
  open_path = λ p. err panics;
  get = λ r q s. ok (some v);
  entries = λ r. ([], none);
}

abbrev seven : SstMeta
seven = record {
  id = 7;
  min_key = k;
  max_key = k;
  size_bytes = 0;
  entry_count = 0;
  min_seq = 0;
  path = [];
}

abbrev with_table : Engine (Unit {0})
with_table = record start { levels = record { levels = (seven ∷ []) ∷ []; readers = (7, tt) ∷ [] } }

delete_resurrects-get_tables_example :
    ((delete fixed with_table k).0 ≡ ok tt)
    × (get one_value (delete fixed with_table k).1 k ≡ ok (some v))
unfolding reader_of newest_of
delete_resurrects-get_tables_example =
    delete_resurrects-get_tables fixed-IsLawful one_value with_table k v seven [] [] tt k_not_empty
      (omega arith) (omega arith) refl refl refl refl

empty_key-Poisoned_example : Poisoned fixed no_table start (write_empty fixed start (some v))
empty_key-Poisoned_example =
    empty_key-Poisoned fixed-IsLawful no_table start (some v) (fresh-IsDurable fixed) (omega arith)
      (omega arith)

one_no_readers : one.levels.readers ≡ []
one_no_readers = ap (λ l. l.readers) one-Written.same_levels

one_memory : (one.immutable ≡ []) × (one.memtable.inner ≡ ((k, value v 1) ∷ []))
unfolding put Wal.append Wal.encode Memtable.put Memtable.new BtreeMap.get BtreeMap.insert
    maybe_freeze Memtable.is_over_threshold next_write_seq
one_memory = (refl, refl)

scan_prefix-newest_example :
    (m : BtreeMap.BtreeMap Bytes) × (scan_prefix no_table one (107 ∷ []) ≡ ok m)
    × BtreeMap.IsSorted m
    × ((q : Bytes)
        → BtreeMap.get q m ≡ (if starts_with q (107 ∷ []) then live (newest one q) else none))
scan_prefix-newest_example =
    scan_prefix-newest no_table (107 ∷ []) fixed one one-Written.durable one_no_readers
      (rw (one_memory.0) tt) (rw (one_memory.1) (tt, tt))
