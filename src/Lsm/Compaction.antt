-- ===== src/Lsm/Compaction.antt =====
-- crates/lsm/src/compaction.rs: the compaction of level 0 into a new table. The heap is the bag of its
-- entries, as a list; which of several greatest entries `pop` takes is left open by the standard
-- library, so `pop` is the parameter `MaxHeap`. The file system is taken not to fail; `path_of` stands
-- for the directory and the formatted file name, and `open_file` for `SsTableReader::open` on a file
-- with the bytes that it is given.
pub mod State
pub mod Merge
pub mod Sources
pub mod Install
pub mod Run
pub mod Built
pub mod Lost
mod Heap
mod Samples
mod Tests
use exepense_db.Base.{
  ℕ, zero, suc, ◌+◌, ◌≤◌, ◌≡◌, ◌⊎◌, Bool, true, false, not, ◌&&◌, ◌||◌, Option, none, some, List,
  [], ◌∷◌, ◌++◌, length, ltb, ◌==◌, if◌then◌else◌, Result, ok, err,
}
use exepense_db.Base.Members.{In, Picked, total}
use exepense_db.Base.Order.{Bytes, same, le_bytes, ◌≺◌}
use exepense_db.Sstable.Error.{Fault, fails, panics}
use exepense_db.Sstable.Bloom
use exepense_db.Sstable.Block.{BlockEntry}
use exepense_db.Sstable.Builder
use exepense_db.Sstable.Builder.{SsTableBuilder, add, finish}
use exepense_db.Lsm.Manifest
use exepense_db.Lsm.Manifest.{SstMeta, Manifest, ManifestError, Json}
use exepense_db.Lsm.Levels.{
  Tables, LevelState, Readers, reader_of, add_l0, l0_count, l0_compaction_trigger,
}

pub record HeapEntry : Type 0 where
  pub key : Bytes
  pub seq : ℕ
  pub tombstone : Bool
  pub value : Bytes
  pub source_idx : ℕ

-- `Ord`: ascending keys, and for equal keys the newest version first.
abbrev pub Before : HeapEntry → HeapEntry → Type 0
Before a b = (a.key ≺ b.key) ⊎ ((a.key ≡ b.key) × (b.seq ≤ a.seq))

pub record MaxHeap : Type 0 where
  pub pop : List HeapEntry → Option (HeapEntry × List HeapEntry)

-- What the standard library documents of `pop`, through `Reverse`: nothing of an empty heap, and else
-- an entry that comes before all, with the heap without it.
pub record Popped (h : List HeapEntry) (r : Option (HeapEntry × List HeapEntry)) : Type 0 where
  pub entry : HeapEntry
  pub rest : List HeapEntry
  pub popped : r ≡ some (entry, rest)
  pub removed : Picked entry h rest
  pub least : (y : HeapEntry) → In y h → Before entry y

pub record IsLawful (heap : MaxHeap) : Type 0 where
  pub empty : heap.pop [] ≡ none
  pub takes : (x : HeapEntry) (xs : List HeapEntry) → Popped (x ∷ xs) (heap.pop (x ∷ xs))

abbrev pub heap_entry : ℕ → BlockEntry → HeapEntry
heap_entry idx x = record {
  key = x.key;
  seq = x.seq;
  tombstone = x.tombstone;
  value = x.value;
  source_idx = idx;
}

-- `iters[idx].next()`, where an iterator is the list of the entries it returns before its end or its
-- first error: `if let Some(Ok(…))` passes over both. The outer `none` is an index out of bounds.
unfoldable pub take_next :
    ℕ → List (List BlockEntry) → Option (Option BlockEntry × List (List BlockEntry))
take_next i [] = none
take_next zero ([] ∷ its) = some (none, [] ∷ its)
take_next zero ((x ∷ xs) ∷ its) = some (some x, xs ∷ its)
take_next (suc i) (l ∷ its) = elim (take_next i its) [
  | none ↦ none
  | some (x, its') ↦ some (x, l ∷ its')
]

abbrev pub push_next : ℕ → Option BlockEntry → List HeapEntry → List HeapEntry
push_next idx none h = h
push_next idx (some x) h = heap_entry idx x ∷ h

-- The first entry of each iterator, the iterators from `idx` on.
unfoldable pub fill : ℕ → List (List BlockEntry) → List HeapEntry × List (List BlockEntry)
fill idx [] = ([], [])
fill idx ([] ∷ its) = let (h, r) = fill (idx + 1) its in (h, [] ∷ r)
fill idx ((x ∷ xs) ∷ its) = let (h, r) = fill (idx + 1) its in (heap_entry idx x ∷ h, xs ∷ r)

-- `last_key.as_deref() == Some(&entry.key)`
abbrev pub is_last : Option Bytes → Bytes → Bool
is_last none key = false
is_last (some k) key = same k key

-- The value of an entry for the builder.
abbrev pub value_of : Bool → Bytes → Option Bytes
value_of true v = none
value_of false v = some v

module _ {Filter : Type 0} (lib : Bloom.Lib Filter) (heap : MaxHeap) where
  -- The merge loop: what is left in the heap and in the iterators, the builder, and `last_key`. `none`
  -- is an index out of bounds, or that the rounds ran out.
  unfoldable pub merge_loop :
      ℕ
      → List HeapEntry
      → List (List BlockEntry)
      → SsTableBuilder Filter
      → Option Bytes
      → Option (SsTableBuilder Filter)
  merge_loop zero h its b last = none
  merge_loop (suc fuel) h its b last = elim (heap.pop h) [
    | none ↦ some b
    | some (e, rest) ↦ elim (take_next e.source_idx its) [
      | none ↦ none
      | some (x, its') ↦
          merge_loop fuel (push_next e.source_idx x rest) its'
            (if is_last last e.key then b else add lib b e.key e.seq (value_of e.tombstone e.value))
            (if is_last last e.key then last else some e.key)
    ]
  ]

  -- The k-way merge. Each round takes one entry.
  unfoldable pub merge_all : List (List BlockEntry) → Option (SsTableBuilder Filter)
  merge_all its =
      let (h, its') = fill 0 its in merge_loop (total its + 1) h its' (Builder.new lib 1000) none

-- `map(…).min().unwrap_or_default()` and `max()`.
abbrev pub min_bytes : Bytes → Bytes → Bytes
min_bytes a b = if le_bytes a b then a else b

abbrev pub max_bytes : Bytes → Bytes → Bytes
max_bytes a b = if le_bytes a b then b else a

unfoldable pub min_of : List SstMeta → Bytes
min_of [] = []
min_of (m ∷ []) = m.min_key
min_of (m ∷ n ∷ ms) = min_bytes m.min_key (min_of (n ∷ ms))

unfoldable pub max_of : List SstMeta → Bytes
max_of [] = []
max_of (m ∷ []) = m.max_key
max_of (m ∷ n ∷ ms) = max_bytes m.max_key (max_of (n ∷ ms))

abbrev pub overlaps : Bytes → Bytes → SstMeta → Bool
overlaps lo hi m = le_bytes m.min_key hi && le_bytes lo m.max_key

unfoldable pub overlapping : Bytes → Bytes → List SstMeta → List SstMeta
overlapping lo hi [] = []
overlapping lo hi (m ∷ ms) =
    if overlaps lo hi m then m ∷ overlapping lo hi ms else overlapping lo hi ms

unfoldable pub has_id : ℕ → List SstMeta → Bool
has_id id [] = false
has_id id (m ∷ ms) = m.id == id || has_id id ms

-- `level.retain(…)`
unfoldable pub retain : List SstMeta → List SstMeta → List SstMeta
retain gone [] = []
retain gone (m ∷ ms) = if has_id m.id gone then retain gone ms else m ∷ retain gone ms

unfoldable pub retain_all : List SstMeta → List (List SstMeta) → List (List SstMeta)
retain_all gone [] = []
retain_all gone (l ∷ ls) = retain gone l ∷ retain_all gone ls

-- `while levels.len() < 2` and the push to level 1.
abbrev pub push_l1 : SstMeta → List (List SstMeta) → List (List SstMeta)
push_l1 m [] = [] ∷ (m ∷ []) ∷ []
push_l1 m (l0 ∷ []) = l0 ∷ (m ∷ []) ∷ []
push_l1 m (l0 ∷ l1 ∷ ls) = l0 ∷ (l1 ++ (m ∷ [])) ∷ ls

-- `levels.get(1).cloned().unwrap_or_default()`, from the levels behind level 0.
abbrev pub first_level : List (List SstMeta) → List SstMeta
first_level [] = []
first_level (l ∷ ls) = l

-- The tables that are merged.
abbrev pub compacted : List SstMeta → List SstMeta → List SstMeta
compacted l0 l1 = l0 ++ overlapping (min_of l0) (max_of l0) l1

module _ {Reader : Type 0} (t : Tables Reader) where
  -- The iterators of the tables that are open.
  unfoldable pub iterators : Readers Reader → List SstMeta → List (List BlockEntry)
  iterators readers [] = []
  iterators readers (m ∷ ms) = elim (reader_of m.id readers) [
    | none ↦ iterators readers ms
    | some r ↦ (t.entries r).0 ∷ iterators readers ms
  ]

  abbrev is_panic : Option Fault → Bool
  is_panic none = false
  is_panic (some (fails e)) = false
  is_panic (some panics) = true

  -- Whether an iterator panics where its entries end.
  unfoldable pub any_panics : Readers Reader → List SstMeta → Bool
  any_panics readers [] = false
  any_panics readers (m ∷ ms) = elim (reader_of m.id readers) [
    | none ↦ any_panics readers ms
    | some r ↦ is_panic (t.entries r).1 || any_panics readers ms
  ]

-- The levels and the manifest in memory, and the manifest's file.
pub record Compacting (Reader : Type 0) : Type 0 where
  pub levels : LevelState Reader
  pub manifest : Manifest
  pub manifest_file : Option Bytes

-- What the new table is registered as.
abbrev pub new_meta :
    {Reader : Type 0} → (ℕ → Bytes) → Compacting Reader → List SstMeta → Bytes → SstMeta
new_meta path_of c l0 bytes = record {
  id = c.manifest.next_sst_id + 1;
  min_key = min_of l0;
  max_key = max_of l0;
  size_bytes = length bytes;
  entry_count = 0;
  min_seq = 0;
  path = path_of (c.manifest.next_sst_id + 1);
}

-- `failed` is an error of the save, `panicked` a panic of the code below.
pub data Outcome : Type 0 where
  nothing_to_do done failed panicked : Outcome

module _ {Filter Reader : Type 0} (lib : Bloom.Lib Filter) (heap : MaxHeap) (t : Tables Reader)
    (codec : Json) (path_of : ℕ → Bytes) (open_file : Bytes → Result Fault Reader) where
  -- The last step: a table that does not open is not loaded.
  abbrev pub load_new :
      Compacting Reader → SstMeta → Result Fault Reader → Outcome × Compacting Reader
  load_new c m (ok r) = (done, record c { levels = add_l0 c.levels m r })
  load_new c m (err (fails e)) = (done, c)
  load_new c m (err panics) = (panicked, c)

  -- After `m.save(dir)`: `?` leaves the manifest that is in memory.
  abbrev pub after_save :
      Compacting Reader
      → SstMeta
      → Bytes
      → Manifest
      → Result ManifestError Bytes
      → Outcome × Compacting Reader
  after_save c m bytes man (err e) = (failed, record c { manifest = man })
  after_save c m bytes man (ok file) =
      load_new (record c { manifest = man; manifest_file = some file }) m (open_file bytes)

  -- From the new metadata on: the manifest, its file, and the levels.
  unfoldable pub install :
      Compacting Reader → List SstMeta → SstMeta → Bytes → Outcome × Compacting Reader
  install c gone m bytes =
      let man : Manifest = record c.manifest {
        levels = push_l1 m (retain_all gone c.manifest.levels);
        next_sst_id = m.id;
      } in
      after_save c m bytes man (Manifest.save codec man)

  abbrev pub after_merge :
      Compacting Reader
      → List SstMeta
      → List SstMeta
      → Option (SsTableBuilder Filter)
      → Outcome × Compacting Reader
  after_merge c l0 l1 none = (panicked, c)
  after_merge c l0 l1 (some b) =
      install c (compacted l0 l1) (new_meta path_of c l0 (finish lib b)) (finish lib b)

  -- The merge takes every iterator to its end, where one may panic; until then nothing but the builder in
  -- memory has changed.
  unfoldable pub compact :
      Compacting Reader → List SstMeta → List SstMeta → Outcome × Compacting Reader
  compact c l0 l1 =
      if any_panics t c.levels.readers (compacted l0 l1)
      then (panicked, c)
      else after_merge c l0 l1 (merge_all lib heap (iterators t c.levels.readers (compacted l0 l1)))

  abbrev pub compact_levels : Compacting Reader → List (List SstMeta) → Outcome × Compacting Reader
  compact_levels c [] = (nothing_to_do, c)
  compact_levels c ([] ∷ ls) = (nothing_to_do, c)
  compact_levels c ((m ∷ ms) ∷ ls) = compact c (m ∷ ms) (first_level ls)

  unfoldable pub run_l0_compaction : Compacting Reader → Outcome × Compacting Reader
  run_l0_compaction c = compact_levels c c.levels.levels

  -- `permit` says whether the semaphore was free. The task's result is dropped.
  unfoldable pub maybe_trigger_compaction : Bool → Compacting Reader → Compacting Reader
  maybe_trigger_compaction permit c =
      if ltb (l0_count c.levels) l0_compaction_trigger
      then c
      else if permit
      then (run_l0_compaction c).1
      else c
