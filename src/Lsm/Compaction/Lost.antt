-- ===== src/Lsm/Compaction/Lost.antt =====
-- The range that a compaction records for its table, crates/lsm/src/compaction.rs, and what the lookups of
-- crates/lsm/src/engine.rs make of it once the manifest is loaded again.
mod Tests
use exepense_db.Base.{
  ℕ, zero, suc, ◌+◌, ◌<◌, ◌≤◌, ◌≡◌, refl, sym, ap, ◌∙◌, Bool, true, false, ◌&&◌, none, some, List,
  [], ◌∷◌, length, All, Result, ok, inl, inr, max, arith,
}
use mathlib.Core.List.{reverse}
use exepense_db.Base.Order.{Bytes, le_bytes}
use exepense_db.Base.Words.{u32_mod}
use exepense_db.Base.Members.{In, here, there, nth}
use exepense_db.Memtable
use exepense_db.Sstable.Error.{Fault}
use exepense_db.Sstable.Bloom
use exepense_db.Sstable.Builder
use exepense_db.Sstable.Block.Entries.{entries_bytes}
use exepense_db.Sstable.Table.Rows.{Row, row_entries, add_rows}
use exepense_db.Sstable.Reader.{SsTableReader, open_table}
use exepense_db.Lsm.Manifest
use exepense_db.Lsm.Manifest.{SstMeta, Manifest, Json}
use exepense_db.Lsm.Levels.{Tables, Readers}
use exepense_db.Lsm.Tables.{file_tables}
use exepense_db.Lsm.Engine.{
  Engine, in_range, get_immutable, get_level, get_lower, get_tables, get_below, get_at,
}
use exepense_db.Lsm.Compaction.{
  MaxHeap, IsLawful, Compacting, done, first_level, compacted, has_id, max_of, run_l0_compaction,
}
use exepense_db.Lsm.Compaction.Sources.{From, merged_rows}
use exepense_db.Lsm.Compaction.Built.{IsBuilt, IsOpen, contents, run_l0_compaction-IsBuilt}

module _ {Reader : Type 0} (t : Tables Reader) where
  get_level-none :
      (test : SstMeta → Bool) (readers : Readers Reader) (ms : List SstMeta) (key : Bytes)
      (read_seq : ℕ)
      → ((x : SstMeta) → In x ms → test x ≡ false)
      → get_level t test readers ms key read_seq ≡ ok none
  unfolding get_level
  get_level-none test readers [] key read_seq h = refl
  get_level-none test readers (m ∷ ms) key read_seq h =
      rw (get_level, h m here) (get_level-none test readers ms key read_seq (λ x i. h x (there i)))

  get_lower-none :
      (readers : Readers Reader) (ls : List (List SstMeta)) (key : Bytes) (read_seq : ℕ)
      → ((i : ℕ) (x : SstMeta) → In x (nth i ls) → in_range key x ≡ false)
      → get_lower t readers ls key read_seq ≡ ok none
  unfolding get_lower nth
  get_lower-none readers [] key read_seq h = refl
  get_lower-none readers (l ∷ ls) key read_seq h =
      rw (get_lower, get_level-none (in_range key) readers l key read_seq (h 0))
        (get_lower-none readers ls key read_seq (λ i x j. h (suc i) x j))

  -- No table in level 0, and no range below it that has the key.
  get_tables-none :
      (readers : Readers Reader) (ls : List (List SstMeta)) (key : Bytes) (read_seq : ℕ)
      → ((x : SstMeta) → In x (nth 0 ls) → ⊥)
      → ((i : ℕ) (x : SstMeta) → In x (nth (suc i) ls) → in_range key x ≡ false)
      → get_tables t readers ls key read_seq ≡ ok none
  unfolding get_tables nth get_level
  get_tables-none readers [] key read_seq h k = refl
  get_tables-none readers ([] ∷ ls) key read_seq h k = get_lower-none readers ls key read_seq k
  get_tables-none readers ((m ∷ ms) ∷ ls) key read_seq h k = absurd (h m here)

  get_at-none :
      (e : Engine Reader) (ls : List (List SstMeta)) (key : Bytes) (read_seq : ℕ)
      → e.levels.levels ≡ ls
      → Memtable.get e.memtable key read_seq ≡ none
      → get_immutable (reverse e.immutable) key read_seq ≡ none
      → get_tables t e.levels.readers ls key read_seq ≡ ok none
      → get_at t e key read_seq ≡ ok none
  unfolding get_at get_below
  get_at-none e ls key read_seq q memory frozen h =
      rw (get_at, memory, get_below, frozen, q, h) refl

beyond :
    (key hi : Bytes) (x : SstMeta)
    → x.max_key ≡ hi
    → le_bytes key hi ≡ false
    → in_range key x ≡ false
beyond key hi x q h = ground arith

module _ {Filter : Type 0} {lib : Bloom.Lib Filter} (bloom_law : Bloom.IsLawful lib)
    (heap : MaxHeap) (codec : Json) (path_of : ℕ → Bytes)
    (read_file : Bytes → Result Fault Bytes) where
  -- Compact levels whose level 0 has a table, with a lawful heap and filter and a codec that prints every
  -- manifest, where each table to compact is open with a reader of the file that a builder wrote of its
  -- rows, the data and the filter of the merged rows are below 4 GiB, and the manifest lists only tables that are compacted. Take a row of a
  -- compacted table whose key is above the largest key of level 0. The compaction ends, and the new table
  -- has a row of that key that is at least as new. But an engine with the levels of the new manifest, as
  -- after the next open, whose memtables do not have the key, finds nothing for it at any snapshot,
  -- whatever its readers are.
  pub run_l0_compaction-lost :
      (c : Compacting (SsTableReader Filter)) (m : SstMeta) (ms : List SstMeta)
      (ls : List (List SstMeta)) (rows_of : ℕ → List Row) (file_of : Manifest → Bytes) (row : Row)
      → c.levels.levels ≡ (m ∷ ms) ∷ ls
      → IsLawful heap
      → All (IsOpen lib rows_of c.levels.readers) (compacted (m ∷ ms) (first_level ls))
      → ((man : Manifest) → Manifest.save codec man ≡ ok (file_of man))
      → length (
          entries_bytes (
            row_entries
              (merged_rows heap (contents rows_of (compacted (m ∷ ms) (first_level ls))))))
        < u32_mod
      → length (
          Bloom.to_bytes lib
            (add_rows lib
              (Builder.new lib 1000)
              (merged_rows heap (contents rows_of (compacted (m ∷ ms) (first_level ls))))).bloom)
        < u32_mod
      → ((i : ℕ) (x : SstMeta)
          → In x (nth i c.manifest.levels)
          → has_id x.id (compacted (m ∷ ms) (first_level ls)) ≡ true)
      → From (contents rows_of (compacted (m ∷ ms) (first_level ls))) row
      → le_bytes row.key (max_of (m ∷ ms)) ≡ false
      → (rows : List Row) × (s : Row) × (r : SsTableReader Filter) × (after : Compacting
          (SsTableReader Filter))
        × (run_l0_compaction lib heap (file_tables lib read_file) codec path_of (open_table lib) c
            ≡ (done, after))
        × IsBuilt lib rows r
        × In s rows
        × (s.key ≡ row.key)
        × (row.seq ≤ s.seq)
        × ((t : Tables (SsTableReader Filter)) (e : Engine (SsTableReader Filter)) (read_seq : ℕ)
            → e.levels.levels ≡ after.manifest.levels
            → Memtable.get e.memtable row.key read_seq ≡ none
            → get_immutable (reverse e.immutable) row.key read_seq ≡ none
            → get_at t e row.key read_seq ≡ ok none)
  run_l0_compaction-lost c m ms ls rows_of file_of row q law open_tables saves small filter_small
        listed source above =
      let (rows, new, r, after, ran, newest, built, reads, holds) =
        run_l0_compaction-IsBuilt bloom_law heap codec path_of read_file c m ms ls rows_of file_of q
          law open_tables saves small filter_small in
      let (s, member, same_key, newer) = newest.complete row source in
      (
        rows,
        s,
        r,
        after,
        ran,
        built,
        member,
        same_key,
        newer,
        λ t e read_seq levels memory frozen.
            get_at-none t e after.manifest.levels row.key read_seq levels memory frozen (
              get_tables-none t e.levels.readers after.manifest.levels row.key read_seq
                (λ x i. elim (holds.replaced.only 0 x i) [
                  | inl (same, one) ↦ absurd (omega (arith, one))
                  | inr (j, kept) ↦ absurd (cc (listed 0 x j, kept))
                ])
                (λ i x j. elim (holds.replaced.only (suc i) x j) [
                  | inl (same, one) ↦
                      beyond row.key (max_of (m ∷ ms)) x (ap (λ y. y.max_key) same ∙ holds.range.1)
                        above
                  | inr (k, kept) ↦ absurd (cc (listed (suc i) x k, kept))
                ])),
      )
