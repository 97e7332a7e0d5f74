-- ===== src/Lsm/Engine/Scan.antt =====
-- `scan_prefix`, crates/lsm/src/engine.rs, of an engine with no open table.
use exepense_db.Base.{
  ℕ, ◌≡◌, refl, ◌∙◌, true, Option, none, some, List, [], ◌∷◌, Bool-cases, inl, inr, if◌then◌else◌,
  ok, arith,
}
use mathlib.Core.List.{reverse}
use exepense_db.Base.Order.{Bytes, starts_with}
use exepense_db.Base.BtreeMap
use exepense_db.Base.BtreeMap.{
  BtreeMap, IsSorted, Above, get-insert, get-remove, get-Above, insert-IsSorted, Above-trans,
}
use exepense_db.Memtable
use exepense_db.Memtable.{VersionedValue, value, tombstone, ImmutableMemTable, MemTable, seq}
use exepense_db.Wal
use exepense_db.Lsm.Manifest.{SstMeta}
use exepense_db.Lsm.Levels.{Tables, reader_of}
use exepense_db.Lsm.Engine.Writes.{IsDurable}
use exepense_db.Lsm.Engine.Reads.{seq-le-begin_read}
use exepense_db.Lsm.Mvcc.{begin_read}
use exepense_db.Lsm.Engine.{
  Engine, scan_entries, scan_immutable, scan_levels, scan_level, scan_prefix,
}
use exepense_db.Lsm.Engine.Layers.{newest, newest_of, or_else}
use exepense_db.Lsm.Engine.Crash.{live}
use exepense_db.Lsm.Engine.Overlay.{
  over, over-covered, covered, Seen, AllSorted, scan_entries-IsSorted, get-scan_entries,
  scan_immutable-IsSorted, get-scan_immutable, outside_immutable,
}

module _ {Reader : Type 0} (t : Tables Reader) (prefix : Bytes) where
  no_reader_level : (snap : ℕ) (metas : List SstMeta) → scan_level t prefix snap [] metas [] ≡ ok []
  unfolding scan_level reader_of
  no_reader_level snap [] = refl
  no_reader_level snap (meta ∷ metas) = no_reader_level snap metas

  no_reader_levels :
      (snap : ℕ) (levels : List (List SstMeta)) → scan_levels t prefix snap [] levels [] ≡ ok []
  unfolding scan_levels
  no_reader_levels snap [] = refl
  no_reader_levels snap (level ∷ rest) =
      rw (no_reader_level snap level) (no_reader_levels snap rest)

  abbrev memory_scan : Engine Reader → BtreeMap Bytes
  memory_scan e =
      scan_entries prefix (begin_read e.next_seq) e.memtable.inner
        (scan_immutable prefix (begin_read e.next_seq) e.immutable [])

  scans_memory :
      (e : Engine Reader) → e.levels.readers ≡ [] → scan_prefix t e prefix ≡ ok (memory_scan e)
  unfolding scan_prefix Memtable.iter Memtable.freeze
  scans_memory e h =
      rw (scan_prefix, h, no_reader_levels (begin_read e.next_seq) (reverse e.levels.levels))

  get-memory_scan :
      (e : Engine Reader) (q : Bytes)
      → AllSorted e.immutable
      → IsSorted e.memtable.inner
      → Seen (begin_read e.next_seq) (newest e q)
      → BtreeMap.get q (memory_scan e) ≡ (if starts_with q prefix then live (newest e q) else none)
  unfolding newest BtreeMap.get
  get-memory_scan e q si sm seen =
      get-scan_entries prefix snap e.memtable.inner frozen q sm
        (scan_immutable-IsSorted prefix snap e.immutable [] tt)
      ∙ elim (Bool-cases (starts_with q prefix)) [
        | inr out ↦ rw (out, outside_immutable prefix snap e.immutable [] q si tt out)
        | inl hit ↦ rw hit (in_front (BtreeMap.get q e.memtable.inner) seen hit)
      ]
    where
      snap : ℕ
      snap = begin_read e.next_seq

      frozen : BtreeMap Bytes
      frozen = scan_immutable prefix snap e.immutable []

      in_front :
          (o : Option VersionedValue)
          → Seen snap (or_else o (newest_of (reverse e.immutable) q))
          → starts_with q prefix ≡ true
          → over snap o (BtreeMap.get q frozen)
            ≡ live (or_else o (newest_of (reverse e.immutable) q))
      in_front (some w) s hit = over-covered snap (some w) _ s
      in_front none s hit =
          get-scan_immutable prefix snap e.immutable [] q si tt s hit
          ∙ covered_none (newest_of (reverse e.immutable) q)
        where
          covered_none : (o : Option VersionedValue) → covered o none ≡ live o
          covered_none none = refl
          covered_none (some w) = refl

  durable-Seen :
      (lib : Wal.Lib) (e : Engine Reader)
      → (d : IsDurable lib e) → (q : Bytes) → Seen (begin_read e.next_seq) (newest e q)
  durable-Seen lib e d q w h =
      seq-le-begin_read (seq w) e.next_seq (omega (arith, d.top_below, d.seen q w (d.agrees q ∙ h)))

  -- On a durable engine with no open table, whose memtables are in key order, `scan_prefix` returns a
  -- map in key order that holds, for each key with the prefix, the data of its newest version, where
  -- that is a value, and no other key: a deleted key is not in it, though older layers hold values.
  pub scan_prefix-newest :
      (lib : Wal.Lib) (e : Engine Reader)
      → IsDurable lib e
      → e.levels.readers ≡ []
      → AllSorted e.immutable
      → IsSorted e.memtable.inner
      → (m : BtreeMap Bytes) × (scan_prefix t e prefix ≡ ok m)
        × IsSorted m
        × ((q : Bytes)
            → BtreeMap.get q m ≡ (if starts_with q prefix then live (newest e q) else none))
  scan_prefix-newest lib e d h si sm = (
    memory_scan e,
    scans_memory e h,
    scan_entries-IsSorted prefix (begin_read e.next_seq) e.memtable.inner _
        (scan_immutable-IsSorted prefix (begin_read e.next_seq) e.immutable [] tt),
    λ q. get-memory_scan e q si sm (durable-Seen lib e d q),
  )
