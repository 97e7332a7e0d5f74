-- ===== src/Lsm/Compaction/Run.antt =====
-- A whole compaction, crates/lsm/src/compaction.rs: the manifest, the levels and the new table after it,
-- and the errors.
use exepense_db.Base.{
  ℕ, ◌+◌, ◌≤◌, ◌≡◌, refl, ap, ◌∙◌, Bool, true, false, Bool-cases, inl, inr, ◌==◌, if◌then◌else◌,
  ltb, Option, none, some, List, [], ◌∷◌, All, Result, ok, err, arith,
}
use exepense_db.Base.Order.{Bytes}
use exepense_db.Base.Members.{In, there, nth}
use exepense_db.Sstable.Error.{Fault, fails, panics}
use exepense_db.Sstable.Bloom
use exepense_db.Sstable.Builder.{SsTableBuilder, finish}
use exepense_db.Sstable.Table.Sorted.{IsSorted}
use exepense_db.Sstable.Table.Rows.{build_sstable}
use exepense_db.Lsm.Manifest
use exepense_db.Lsm.Manifest.{SstMeta, Manifest, ManifestError, Json}
use exepense_db.Lsm.Levels.{Tables, reader_of, add_l0, push_first, l0_count, l0_compaction_trigger}
use exepense_db.Lsm.Compaction.{
  MaxHeap, IsLawful, Compacting, Outcome, nothing_to_do, done, failed, panicked, first_level,
  compacted, min_of, max_of, new_meta, any_panics, merge_all, push_l1, retain_all, iterators,
  load_new, after_save, after_merge, install, compact, compact_levels, run_l0_compaction,
  maybe_trigger_compaction,
}
use exepense_db.Lsm.Compaction.Sources.{merged_rows, merge_all-NewestOf}
use exepense_db.Lsm.Compaction.Install.{Replaced, push_l1-Replaced, l0_count-add_l0}

-- A compaction of a level 0 with the tables `l0` above the levels `ls` that merged the tables `gone` into
-- the table `m`, with the reader `r`.
pub record Compacted {Reader : Type 0} (codec : Json) (l0 : List SstMeta) (ls : List (List SstMeta))
    (gone : List SstMeta) (m : SstMeta) (r : Reader) (before after : Compacting Reader)
    : Type 0 where
  pub replaced : Replaced gone m before.manifest.levels after.manifest.levels
  pub range : (m.min_key ≡ min_of l0) × (m.max_key ≡ max_of l0)
  pub fresh : m.id ≡ before.manifest.next_sst_id + 1
  pub counted : after.manifest.next_sst_id ≡ m.id
  pub saved :
      (file : Bytes) × (Manifest.save codec after.manifest ≡ ok file)
      × (after.manifest_file ≡ some file)
  pub opened :
      (id : ℕ)
      → reader_of id after.levels.readers
        ≡ (if m.id == id then some r else reader_of id before.levels.readers)
  pub listed : after.levels.levels ≡ (m ∷ l0) ∷ ls

module _ {Filter Reader : Type 0} (lib : Bloom.Lib Filter) (heap : MaxHeap) (t : Tables Reader)
    (codec : Json) (path_of : ℕ → Bytes) (open_file : Bytes → Result Fault Reader) where
  install-Compacted :
      (c : Compacting Reader) (gone l0 : List SstMeta) (ls : List (List SstMeta)) (bytes : Bytes)
      (r : Reader) (file_of : Manifest → Bytes)
      → c.levels.levels ≡ l0 ∷ ls
      → ((man : Manifest) → Manifest.save codec man ≡ ok (file_of man))
      → open_file bytes ≡ ok r
      → (after : Compacting Reader) × (install lib heap t codec path_of open_file c gone
            (new_meta path_of c l0 bytes)
            bytes
          ≡ (done, after))
        × Compacted codec l0 ls gone (new_meta path_of c l0 bytes) r c after
  unfolding install add_l0 reader_of
  install-Compacted c gone l0 ls bytes r file_of q saves opens =
      let m = new_meta path_of c l0 bytes in
      let levels = push_l1 m (retain_all gone c.manifest.levels) in
      let man : Manifest = record c.manifest { levels = levels; next_sst_id = m.id } in
      (
        record c {
          manifest = man;
          manifest_file = some (file_of man);
          levels = add_l0 c.levels m r;
        },
        rw (install, saves man, opens),
        record {
          replaced = push_l1-Replaced gone m c.manifest.levels;
          range = (refl, refl);
          fresh = refl;
          counted = refl;
          saved = (file_of man, saves man, refl);
          opened = λ id. refl;
          listed = ap (push_first m) q;
        },
      )

  -- Compact levels whose level 0 has a table, with a lawful heap, where the iterators of the compacted
  -- tables do not panic and are each in key order, the codec prints every manifest and the new file opens. The compaction
  -- ends. In the manifest, exactly the compacted tables are gone from all levels, the new table is in
  -- level 1 with the next identifier and the range of the tables of level 0, and the file holds that
  -- manifest. In memory, level 0 is the new table before the tables that were there, the other levels and
  -- the readers of other identifiers are as before, and the new table's reader is there.
  pub run_l0_compaction-Compacted :
      (c : Compacting Reader) (m : SstMeta) (ms : List SstMeta) (ls : List (List SstMeta))
      (r : Reader) (file_of : Manifest → Bytes)
      → c.levels.levels ≡ (m ∷ ms) ∷ ls
      → IsLawful heap
      → any_panics t c.levels.readers (compacted (m ∷ ms) (first_level ls)) ≡ false
      → All IsSorted (iterators t c.levels.readers (compacted (m ∷ ms) (first_level ls)))
      → ((man : Manifest) → Manifest.save codec man ≡ ok (file_of man))
      → open_file (
          build_sstable lib 1000
            (merged_rows heap (iterators t c.levels.readers (compacted (m ∷ ms) (first_level ls)))))
        ≡ ok r
      → (new : SstMeta) × (after : Compacting Reader) × (run_l0_compaction lib heap t codec path_of
            open_file c
          ≡ (done, after))
        × Compacted codec (m ∷ ms) ls (compacted (m ∷ ms) (first_level ls)) new r c after
  unfolding run_l0_compaction compact build_sstable
  run_l0_compaction-Compacted c m ms ls r file_of q law calm s saves opens =
      let gone = compacted (m ∷ ms) (first_level ls) in
      let (ran, newest) = merge_all-NewestOf heap (iterators t c.levels.readers gone) law s lib in
      let bytes = build_sstable lib 1000 (merged_rows heap (iterators t c.levels.readers gone)) in
      let (after, installed, holds) =
        install-Compacted c gone (m ∷ ms) ls bytes r file_of q saves opens in
      (
        new_meta path_of c (m ∷ ms) bytes,
        after,
        ap (compact_levels lib heap t codec path_of open_file c) q
            ∙ ap
                (λ b.
                  if b
                  then (panicked, c)
                  else after_merge lib heap t codec path_of open_file c (m ∷ ms) (first_level ls)
                      (merge_all lib heap (iterators t c.levels.readers gone)))
                calm
            ∙ ap (after_merge lib heap t codec path_of open_file c (m ∷ ms) (first_level ls)) ran
            ∙ installed,
        holds,
      )

  -- Compact levels whose level 0 has a table, with a lawful heap, where the iterators of the compacted
  -- tables do not panic and are each in key order, and the save of every manifest fails with `e`. The compaction fails. The
  -- manifest in memory then names the new table in place of the compacted ones, and its file and the
  -- levels are as before.
  pub run_l0_compaction-failed :
      (c : Compacting Reader) (m : SstMeta) (ms : List SstMeta) (ls : List (List SstMeta))
      (e : ManifestError)
      → c.levels.levels ≡ (m ∷ ms) ∷ ls
      → IsLawful heap
      → any_panics t c.levels.readers (compacted (m ∷ ms) (first_level ls)) ≡ false
      → All IsSorted (iterators t c.levels.readers (compacted (m ∷ ms) (first_level ls)))
      → ((man : Manifest) → Manifest.save codec man ≡ err e)
      → (new : SstMeta) × (after : Compacting Reader) × (run_l0_compaction lib heap t codec path_of
            open_file c
          ≡ (failed, after))
        × Replaced (compacted (m ∷ ms) (first_level ls)) new c.manifest.levels after.manifest.levels
        × (after.manifest_file ≡ c.manifest_file)
        × (after.levels ≡ c.levels)
  unfolding run_l0_compaction compact install build_sstable
  run_l0_compaction-failed c m ms ls e q law calm s fails_to =
      let gone = compacted (m ∷ ms) (first_level ls) in
      let (ran, newest) = merge_all-NewestOf heap (iterators t c.levels.readers gone) law s lib in
      let bytes = build_sstable lib 1000 (merged_rows heap (iterators t c.levels.readers gone)) in
      let new = new_meta path_of c (m ∷ ms) bytes in
      let levels = push_l1 new (retain_all gone c.manifest.levels) in
      let man : Manifest = record c.manifest { levels = levels; next_sst_id = new.id } in
      (
        new,
        record c { manifest = man },
        ap (compact_levels lib heap t codec path_of open_file c) q
            ∙ ap
                (λ b.
                  if b
                  then (panicked, c)
                  else after_merge lib heap t codec path_of open_file c (m ∷ ms) (first_level ls)
                      (merge_all lib heap (iterators t c.levels.readers gone)))
                calm
            ∙ ap (after_merge lib heap t codec path_of open_file c (m ∷ ms) (first_level ls)) ran
            ∙ ap (after_save lib heap t codec path_of open_file c new bytes man) (fails_to man),
        push_l1-Replaced gone new c.manifest.levels,
        refl,
        refl,
      )

  -- Level 0 has every table that it had.
  abbrev Grows : Compacting Reader → Outcome × Compacting Reader → Type 0
  Grows c r =
      ((x : SstMeta) → In x (nth 0 c.levels.levels) → In x (nth 0 r.1.levels.levels))
      × (l0_count c.levels ≤ l0_count r.1.levels)

  stays : (c : Compacting Reader) (o : Outcome) → Grows c (o, c)
  stays c o = (λ x i. i, omega arith)

  push_first-In :
      (m : SstMeta) (ls : List (List SstMeta)) (x : SstMeta)
      → In x (nth 0 ls)
      → In x (nth 0 (push_first m ls))
  unfolding nth
  push_first-In m [] x i = elim i [ ]
  push_first-In m (l ∷ ls) x i = there i

  load_new-Grows :
      (c : Compacting Reader) (m : SstMeta) (r : Result Fault Reader)
      → Grows c (load_new lib heap t codec path_of open_file c m r)
  unfolding add_l0
  load_new-Grows c m (ok r) =
      (push_first-In m c.levels.levels, omega (arith, l0_count-add_l0 c.levels m r))
  load_new-Grows c m (err (fails e)) = stays c done
  load_new-Grows c m (err panics) = stays c panicked

  after_save-Grows :
      (c : Compacting Reader) (m : SstMeta) (bytes : Bytes) (man : Manifest)
      (r : Result ManifestError Bytes)
      → Grows c (after_save lib heap t codec path_of open_file c m bytes man r)
  after_save-Grows c m bytes man (err e) = (λ x i. i, omega arith)
  after_save-Grows c m bytes man (ok file) =
      load_new-Grows (record c { manifest = man; manifest_file = some file }) m (open_file bytes)

  after_merge-Grows :
      (c : Compacting Reader) (l0 l1 : List SstMeta) (o : Option (SsTableBuilder Filter))
      → Grows c (after_merge lib heap t codec path_of open_file c l0 l1 o)
  unfolding install
  after_merge-Grows c l0 l1 none = stays c panicked
  after_merge-Grows c l0 l1 (some b) =
      let bytes = finish lib b in after_save-Grows c (new_meta path_of c l0 bytes) bytes _ _

  compact-Grows :
      (c : Compacting Reader) (l0 l1 : List SstMeta)
      → Grows c (compact lib heap t codec path_of open_file c l0 l1)
  unfolding compact
  compact-Grows c l0 l1 = elim (Bool-cases (any_panics t c.levels.readers (compacted l0 l1))) [
    | inl hit ↦ rw hit (stays c panicked)
    | inr miss ↦ rw miss (after_merge-Grows c l0 l1 _)
  ]

  compact_levels-Grows :
      (c : Compacting Reader) (ls : List (List SstMeta))
      → Grows c (compact_levels lib heap t codec path_of open_file c ls)
  compact_levels-Grows c [] = stays c nothing_to_do
  compact_levels-Grows c ([] ∷ ls) = stays c nothing_to_do
  compact_levels-Grows c ((m ∷ ms) ∷ ls) = compact-Grows c (m ∷ ms) (first_level ls)

  -- Whatever the heap, the codec and the tables do, and with a permit or without, every table that is in
  -- level 0 in memory before a call of the trigger is in level 0 after it, and level 0 has no fewer tables.
  pub maybe_trigger_compaction-l0_count :
      (permit : Bool) (c : Compacting Reader)
      → ((x : SstMeta)
          → In x (nth 0 c.levels.levels)
          → In x (
              nth 0
                (maybe_trigger_compaction lib heap t codec path_of open_file permit
                  c).levels.levels))
        × (l0_count c.levels
            ≤ l0_count
                (maybe_trigger_compaction lib heap t codec path_of open_file permit c).levels)
  unfolding maybe_trigger_compaction run_l0_compaction
  maybe_trigger_compaction-l0_count permit c =
      elim (Bool-cases (ltb (l0_count c.levels) l0_compaction_trigger)) [
        | inl few ↦ rw few (stays c done)
        | inr many ↦ rw many (permitted permit)
      ]
    where
      permitted :
          (p : Bool)
          → Grows c (
            done,
            if p
                then (compact_levels lib heap t codec path_of open_file c c.levels.levels).1
                else c,
          )
      permitted true = compact_levels-Grows c c.levels.levels
      permitted false = stays c done
