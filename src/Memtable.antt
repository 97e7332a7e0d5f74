-- ===== src/Memtable.antt =====
-- crates/memtable/src/entry.rs and memtable.rs: the versioned values, the memtable and its frozen
-- snapshot. The `RwLock` around the map makes each method one atomic step, so a method is a
-- function from the state to the new state; `usize` is 64 bits wide, and the two atomic updates of
-- the size counter wrap.
pub mod Lookup
pub mod Size
pub mod Runs
mod Tests
use exepense_db.Base.{
  ℕ, ◌+◌, ◌-◌, ◌*◌, ◌%◌, Bool, true, false, Option, none, some, [], length, leb, if◌then◌else◌,
  Result, ok, err,
}
use exepense_db.Base.Order.{Bytes}
use exepense_db.Base.Words.{u64_mod}
use exepense_db.Base.BtreeMap
use exepense_db.Base.BtreeMap.{BtreeMap}

pub data VersionedValue : Type 0 where
  value : Bytes → ℕ → VersionedValue
  tombstone : ℕ → VersionedValue

unfoldable pub seq : VersionedValue → ℕ
seq (value d s) = s
seq (tombstone s) = s

unfoldable pub is_tombstone : VersionedValue → Bool
is_tombstone (value d s) = false
is_tombstone (tombstone s) = true

unfoldable pub read_at : VersionedValue → ℕ → Option Bytes
read_at (value d s) read_seq = if leb s read_seq then some d else none
read_at (tombstone s) read_seq = none

pub data MemTableError : Type 0 where
  empty_key : MemTableError

abbrev pub default_size_threshold : ℕ
default_size_threshold = 4 * 1024 * 1024

pub record MemTable : Type 0 where
  pub inner : BtreeMap VersionedValue
  pub size_bytes : ℕ
  pub threshold : ℕ

unfoldable pub with_threshold : ℕ → MemTable
with_threshold t = record { inner = []; size_bytes = 0; threshold = t }

unfoldable pub new : MemTable
unfolding with_threshold
new = with_threshold default_size_threshold

-- The bytes of the value that an entry holds.
abbrev pub data_len : VersionedValue → ℕ
data_len (value d s) = length d
data_len (tombstone s) = 0

-- `map.get(&key).map(|v| key.len() + … + 16).unwrap_or(0)`
abbrev pub removed : Bytes → Option VersionedValue → ℕ
removed key none = 0
removed key (some v) = length key + data_len v + 16

-- `fetch_add` and `fetch_sub` of an `AtomicUsize`
abbrev pub fetch_add : ℕ → ℕ → ℕ
fetch_add s n = (s + n) % u64_mod

abbrev pub fetch_sub : ℕ → ℕ → ℕ
fetch_sub s n = (s + u64_mod - n % u64_mod) % u64_mod

abbrev pub is_empty : Bytes → Bool
is_empty [] = true
is_empty _ = false

unfoldable pub put : MemTable → Bytes → Bytes → ℕ → Result MemTableError MemTable
put mt key v s =
    if is_empty key
    then err empty_key
    else ok (record mt {
      inner = BtreeMap.insert key (value v s) mt.inner;
      size_bytes =
          fetch_sub (fetch_add mt.size_bytes (length key + length v + 16))
            (removed key (BtreeMap.get key mt.inner));
    })

unfoldable pub delete : MemTable → Bytes → ℕ → Result MemTableError MemTable
delete mt key s =
    if is_empty key
    then err empty_key
    else ok (record mt {
      inner = BtreeMap.insert key (tombstone s) mt.inner;
      size_bytes =
          fetch_sub (fetch_add mt.size_bytes (length key + 16))
            (removed key (BtreeMap.get key mt.inner));
    })

-- `v.read_at(read_seq)` under `and_then`
abbrev pub visible : Option VersionedValue → ℕ → Option Bytes
visible none read_seq = none
visible (some v) read_seq = read_at v read_seq

unfoldable pub get : MemTable → Bytes → ℕ → Option Bytes
get mt key read_seq = visible (BtreeMap.get key mt.inner) read_seq

unfoldable pub is_over_threshold : MemTable → Bool
is_over_threshold mt = leb mt.threshold mt.size_bytes

pub record ImmutableMemTable : Type 0 where
  pub entries : BtreeMap VersionedValue

unfoldable pub freeze : MemTable → ImmutableMemTable
freeze mt = record { entries = mt.inner }

-- `ImmutableMemTable::get`
unfoldable pub imm_get : ImmutableMemTable → Bytes → ℕ → Option Bytes
imm_get imm key read_seq = visible (BtreeMap.get key imm.entries) read_seq

-- `ImmutableMemTable::iter`: the entries in key order
unfoldable pub iter : ImmutableMemTable → BtreeMap VersionedValue
iter imm = imm.entries
