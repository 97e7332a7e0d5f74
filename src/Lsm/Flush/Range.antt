-- ===== src/Lsm/Flush/Range.antt =====
-- The key range that `flush_to_sstable` records, against the range test of `LsmEngine::get_at`.
use exepense_db.Base.{ℕ, ◌≡◌, refl, true, none, some, [], ◌∷◌, Bool-cases, inl, inr, length, arith}
use exepense_db.Base.Order.{
  Bytes, cmp-cases, below, equal, above, same, cmp_refl, le_bytes, ◌≺◌, cmp_trans, eq_of_same,
}
use exepense_db.Base.BtreeMap
use exepense_db.Base.BtreeMap.{BtreeMap, Above, IsSorted}
use exepense_db.Memtable
use exepense_db.Memtable.{VersionedValue, ImmutableMemTable}
use exepense_db.Sstable.Bloom
use exepense_db.Sstable.Builder
use exepense_db.Lsm.Flush.{FlushState, flush_entry, flush_loop, flush_to_sstable, unwrap_or_default}
use exepense_db.Lsm.Engine.{in_range}

le_refl : (a : Bytes) → le_bytes a a ≡ true
le_refl a = ground (arith, cmp_refl a)

le_of_lt : (a b : Bytes) → a ≺ b → le_bytes a b ≡ true
le_of_lt a b h = ground arith

le_of_lt_le : (a b c : Bytes) → a ≺ b → le_bytes b c ≡ true → le_bytes a c ≡ true
le_of_lt_le a b c h k = elim (cmp-cases b c) [
  | below d ↦ le_of_lt a c (cmp_trans a b c h d)
  | equal d e ↦ rw (← e) (le_of_lt a b h)
  | above d e ↦ absurd (ground arith)
]

Above-get :
    (k q : Bytes) (w : VersionedValue) (m : BtreeMap VersionedValue)
    → Above k m
    → BtreeMap.get q m ≡ some w
    → k ≺ q
unfolding BtreeMap.get
Above-get k q w [] a h = cc
Above-get k q w ((j, v) ∷ m) (p, a) h = elim (Bool-cases (same q j)) [
  | inl hit ↦ rw (eq_of_same q j hit) p
  | inr miss ↦ Above-get k q w m a (rw miss at h)
]

module _ {Filter : Type 0} (lib : Bloom.Lib Filter) where
  abbrev top_of : FlushState Filter → BtreeMap VersionedValue → Bytes
  top_of st m = unwrap_or_default (flush_loop lib st m).max_key

  top_grows :
      (m : BtreeMap VersionedValue) (st : FlushState Filter) (j : Bytes)
      → Above j m
      → IsSorted m
      → st.max_key ≡ some j
      → le_bytes j (top_of st m) ≡ true
  unfolding flush_loop flush_entry
  top_grows [] st j a s h = rw h (le_refl j)
  top_grows ((i, v) ∷ m) st j (p, a) (over, s) h =
      le_of_lt_le j i (top_of (flush_entry lib st i v) m) p
        (top_grows m (flush_entry lib st i v) i over s refl)

  top_covers :
      (m : BtreeMap VersionedValue) (st : FlushState Filter) (key : Bytes) (w : VersionedValue)
      → IsSorted m
      → BtreeMap.get key m ≡ some w
      → le_bytes key (top_of st m) ≡ true
  unfolding flush_loop flush_entry BtreeMap.get
  top_covers [] st key w s h = cc
  top_covers ((i, v) ∷ m) st key w (over, s) h = elim (Bool-cases (same key i)) [
    | inl hit ↦ rw (eq_of_same key i hit) (top_grows m (flush_entry lib st i v) i over s refl)
    | inr miss ↦ top_covers m (flush_entry lib st i v) key w s (rw miss at h)
  ]

  first_stays :
      (m : BtreeMap VersionedValue) (st : FlushState Filter) (k : Bytes)
      → st.min_key ≡ some k
      → (flush_loop lib st m).min_key ≡ some k
  unfolding flush_loop flush_entry
  first_stays [] st k h = h
  first_stays ((i, v) ∷ m) st k h = first_stays m (flush_entry lib st i v) k (rw h)

  bottom_covers :
      (m : BtreeMap VersionedValue) (st : FlushState Filter) (key : Bytes) (w : VersionedValue)
      → IsSorted m
      → st.min_key ≡ none
      → BtreeMap.get key m ≡ some w
      → le_bytes (unwrap_or_default (flush_loop lib st m).min_key) key ≡ true
  unfolding flush_loop flush_entry BtreeMap.get
  bottom_covers [] st key w s hn h = cc
  bottom_covers ((i, v) ∷ m) st key w (over, s) hn h =
      rw (first_stays m (flush_entry lib st i v) i (rw hn)) (elim (Bool-cases (same key i)) [
        | inl hit ↦ rw (eq_of_same key i hit) (le_refl i)
        | inr miss ↦ le_of_lt i key (Above-get i key w m over (rw miss at h))
      ])

  -- The smallest and largest key that a flush of entries in key order records cover each of its keys:
  -- the range test of `get_at` passes over no table that holds the key.
  pub flush-in_range :
      (path_of : ℕ → Bytes) (imm : ImmutableMemTable) (sst_id : ℕ) (key : Bytes)
      (w : VersionedValue)
      → IsSorted imm.entries
      → BtreeMap.get key imm.entries ≡ some w
      → in_range key (flush_to_sstable lib path_of imm sst_id).0 ≡ true
  unfolding flush_to_sstable Memtable.iter
  flush-in_range path_of imm sst_id key w s h =
      let start : FlushState Filter = record {
        builder = Builder.new lib (length imm.entries);
        min_key = none;
        max_key = none;
      } in
      rw (
        flush_to_sstable,
        bottom_covers imm.entries start key w s refl h,
        top_covers imm.entries start key w s h,
      )
