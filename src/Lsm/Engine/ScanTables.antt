-- ===== src/Lsm/Engine/ScanTables.antt =====
-- `scan_prefix` and `get` over the tables of level 0, crates/lsm/src/engine.rs.
use exepense_db.Base.{
  ℕ, ◌≡◌, refl, ap, ◌∙◌, true, Option, none, some, List, [], ◌∷◌, if◌then◌else◌, ok, arith,
}
use exepense_db.Base.Order.{Bytes, starts_with, same_sym}
use exepense_db.Base.BtreeMap
use exepense_db.Base.BtreeMap.{BtreeMap}
use exepense_db.Memtable
use exepense_db.Memtable.{VersionedValue, value, tombstone}
use exepense_db.Sstable.Block.{BlockEntry}
use exepense_db.Sstable.Table.Sorted
use exepense_db.Sstable.Table.Sorted.{lookup}
use exepense_db.Lsm.Manifest.{SstMeta}
use exepense_db.Lsm.Levels.{Tables, reader_of}
use exepense_db.Lsm.Mvcc.{begin_read}
use exepense_db.Lsm.Engine.{
  Engine, scan_item, scan_value, scan_items, scan_entries, scan_immutable, scan_levels, scan_level,
  scan_prefix, get_immutable, get_level, get_tables, get_below, get_at, get,
}
use exepense_db.Lsm.Engine.Overlay.{over, scan_entries-IsSorted, get-scan_entries}

-- An entry as a version in a memtable.
abbrev versioned : BlockEntry → VersionedValue
versioned x = if x.tombstone then tombstone x.seq else value x.value x.seq

abbrev versions : List BlockEntry → BtreeMap VersionedValue
versions [] = []
versions (x ∷ xs) = (x.key, versioned x) ∷ versions xs

scan_item-versioned :
    (prefix : Bytes) (snap : ℕ) (x : BlockEntry) (results : BtreeMap Bytes)
    → scan_item prefix snap x results
      ≡ (if starts_with x.key prefix then scan_value x.key snap (versioned x) results else results)
scan_item-versioned prefix snap x results = ground arith

scan_items-versions :
    (prefix : Bytes) (snap : ℕ) (es : List BlockEntry) (results : BtreeMap Bytes)
    → scan_items prefix snap es results ≡ scan_entries prefix snap (versions es) results
unfolding scan_items scan_entries
scan_items-versions prefix snap [] results = refl
scan_items-versions prefix snap (x ∷ xs) results =
    ap (λ r. scan_items prefix snap xs r) (scan_item-versioned prefix snap x results)
    ∙ scan_items-versions prefix snap xs _

versions-Above :
    (k : Bytes) (es : List BlockEntry) → Sorted.Above k es → BtreeMap.Above k (versions es)
versions-Above k [] a = tt
versions-Above k (x ∷ xs) (p, a) = (p, versions-Above k xs a)

versions-IsSorted : (es : List BlockEntry) → Sorted.IsSorted es → BtreeMap.IsSorted (versions es)
versions-IsSorted [] h = tt
versions-IsSorted (x ∷ xs) (a, h) = (versions-Above x.key xs a, versions-IsSorted xs h)

-- What a lookup in a table finds stands in front of what is below it.
over-lookup :
    (es : List BlockEntry) (q v : Bytes) (snap : ℕ) (below : Option Bytes)
    → lookup es q snap ≡ some v
    → over snap (BtreeMap.get q (versions es)) below ≡ some v
unfolding lookup BtreeMap.get
over-lookup [] q v snap below h = absurd cc
over-lookup (x ∷ xs) q v snap below h =
    ground (arith, over-lookup xs q v snap below, same_sym x.key q)

module _ {Reader : Type 0} (t : Tables Reader) where
  -- A table that is open, with a reader that gives its entries, in key order, and the lookups in them.
  pub record Serves (e : Engine Reader) (m : SstMeta) (es : List BlockEntry) : Type 0 where
    pub reader : Reader
    pub opened : reader_of m.id e.levels.readers ≡ some reader
    pub lists : t.entries reader ≡ (es, none)
    pub sorted : Sorted.IsSorted es
    pub finds :
        (key : Bytes) (read_seq : ℕ) → t.get reader key read_seq ≡ ok (lookup es key read_seq)

  scans_two :
      (e : Engine Reader) (n o : SstMeta) (newer older : List BlockEntry) (prefix : Bytes)
      → e.levels.levels ≡ (n ∷ o ∷ []) ∷ []
      → Serves e n newer
      → Serves e o older
      → e.immutable ≡ []
      → e.memtable.inner ≡ []
      → scan_prefix t e prefix
        ≡ ok (
            scan_items prefix
              (begin_read e.next_seq)
              older
              (scan_items prefix (begin_read e.next_seq) newer []))
  unfolding scan_prefix scan_levels scan_level scan_immutable scan_entries Memtable.iter
      Memtable.freeze
  scans_two e n o newer older prefix q sn so frozen memory =
      rw (q, frozen, memory, sn.opened, sn.lists, so.opened, so.lists) refl

  first_level_finds :
      (e : Engine Reader) (n : SstMeta) (ms : List SstMeta) (newer : List BlockEntry)
      (key v : Bytes) (read_seq : ℕ)
      → Serves e n newer
      → lookup newer key read_seq ≡ some v
      → get_tables t e.levels.readers ((n ∷ ms) ∷ []) key read_seq ≡ ok (some v)
  unfolding get_tables get_level
  first_level_finds e n ms newer key v read_seq sn hn =
      rw (get_tables, get_level, sn.opened, sn.finds key read_seq, hn) refl

  finds_first :
      (e : Engine Reader) (n : SstMeta) (ms : List SstMeta) (newer : List BlockEntry)
      (key v : Bytes)
      → e.levels.levels ≡ (n ∷ ms) ∷ []
      → Serves e n newer
      → e.immutable ≡ []
      → e.memtable.inner ≡ []
      → lookup newer key (begin_read e.next_seq) ≡ some v
      → get t e key ≡ ok (some v)
  unfolding get get_at get_below get_immutable Memtable.get BtreeMap.get
  finds_first e n ms newer key v q sn frozen memory hn =
      rw
        (
          get_at,
          memory,
          get_below,
          frozen,
          q,
          first_level_finds e n ms newer key v (begin_read e.next_seq) sn hn,
        )
        refl

  -- Scan and look up where level 0 has two tables, the newer first, each open with a reader of its entries in
  -- key order, and there is no other table and nothing in memory. For a key with the prefix that has a
  -- visible value in each of the two, `get` returns the value of the newer table, but `scan_prefix` the
  -- value of the older one.
  pub scan_prefix-older :
      (e : Engine Reader) (n o : SstMeta) (newer older : List BlockEntry) (prefix key v w : Bytes)
      → e.levels.levels ≡ (n ∷ o ∷ []) ∷ []
      → Serves e n newer
      → Serves e o older
      → e.immutable ≡ []
      → e.memtable.inner ≡ []
      → starts_with key prefix ≡ true
      → lookup newer key (begin_read e.next_seq) ≡ some v
      → lookup older key (begin_read e.next_seq) ≡ some w
      → (get t e key ≡ ok (some v))
        × (m : BtreeMap Bytes) × (scan_prefix t e prefix ≡ ok m)
        × (BtreeMap.get key m ≡ some w)
  unfolding BtreeMap.get
  scan_prefix-older e n o newer older prefix key v w q sn so frozen memory inside hn ho =
      let snap = begin_read e.next_seq in
      (
        finds_first e n (o ∷ []) newer key v q sn frozen memory hn,
        scan_items prefix snap older (scan_items prefix snap newer []),
        scans_two e n o newer older prefix q sn so frozen memory,
        ap (BtreeMap.get key) (
              scan_items-versions prefix snap older (scan_items prefix snap newer [])
              ∙ ap (scan_entries prefix snap (versions older))
                  (scan_items-versions prefix snap newer []))
            ∙ get-scan_entries prefix snap (versions older)
                (scan_entries prefix snap (versions newer) []) key
                (versions-IsSorted older so.sorted)
                (scan_entries-IsSorted prefix snap (versions newer) [] tt)
            ∙ rw inside (over-lookup older key w snap _ ho),
      )
