-- ===== src/Lsm/Engine/Layers.antt =====
-- The versions in memory, newest layer first: what a point lookup of the memtables goes by.
use exepense_db.Base.{
  ◌≡◌, refl, ap, Option, none, some, List, [], ◌∷◌, Bool-cases, inl, inr, if◌then◌else◌, arith,
}
use mathlib.Core.List.{reverse, reverse-append}
use exepense_db.Base.Order.{Bytes, same}
use exepense_db.Base.BtreeMap
use exepense_db.Base.BtreeMap.{BtreeMap, get-insert}
use exepense_db.Memtable
use exepense_db.Memtable.{
  VersionedValue, value, tombstone, MemTable, ImmutableMemTable, visible, freeze, imm_get, read_at,
}
use exepense_db.Lsm.Engine.{Engine, maybe_freeze}

abbrev pub or_else {ℓ} : {A : Type ℓ} → Option A → Option A → Option A
or_else none o = o
or_else (some a) o = some a

-- The newest version of a key in the immutable memtables, given newest first.
unfoldable pub newest_of : List ImmutableMemTable → Bytes → Option VersionedValue
newest_of [] q = none
newest_of (imm ∷ imms) q = or_else (BtreeMap.get q imm.entries) (newest_of imms q)

module _ {Reader : Type 0} where
  -- The newest version of a key in memory.
  unfoldable pub newest : Engine Reader → Bytes → Option VersionedValue
  newest e q = or_else (BtreeMap.get q e.memtable.inner) (newest_of (reverse e.immutable) q)

  -- Freezing the memtable moves its versions one layer down, and hides or loses none.
  pub newest-maybe_freeze : (e : Engine Reader) (q : Bytes) → newest (maybe_freeze e) q ≡ newest e q
  unfolding maybe_freeze newest
  newest-maybe_freeze e q = elim (Bool-cases (Memtable.is_over_threshold e.memtable)) [
    | inl over ↦
        rw (over, reverse-append e.immutable (freeze e.memtable ∷ []))
          (unfold newest_of BtreeMap.get Memtable.new freeze in refl)
    | inr under ↦ rw under
  ]

  -- A version written to the active memtable is the newest of its key, and of no other.
  pub newest-insert :
      (e : Engine Reader) (mt : MemTable) (key q : Bytes) (v : VersionedValue)
      → mt.inner ≡ BtreeMap.insert key v e.memtable.inner
      → newest (record e { memtable = mt }) q ≡ (if same q key then some v else newest e q)
  unfolding newest
  newest-insert e mt key q v h =
      ground (arith, ap (BtreeMap.get q) h, get-insert key q v e.memtable.inner)
