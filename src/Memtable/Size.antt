-- ===== src/Memtable/Size.antt =====
-- The size counter, and the order of the entries.
use exepense_db.Base.{ℕ, ◌+◌, ◌%◌, ◌≡◌, refl, [], ◌∷◌, ok, ok-injective, subst, arith, length}
use exepense_db.Base.Words.{u64_mod}
use exepense_db.Base.Order.{Bytes, eq_of_cmp}
use exepense_db.Base.BtreeMap
use exepense_db.Base.BtreeMap.{BtreeMap, IsSorted, Above, insert-IsSorted, get-Above, Above-trans}
use exepense_db.Memtable.{
  VersionedValue, value, tombstone, MemTable, put, delete, with_threshold, removed, data_len,
  fetch_add, fetch_sub,
}

-- The bytes that the entries of a map stand for: key, data and the estimate of 16 for each.
unfoldable pub total : BtreeMap VersionedValue → ℕ
total [] = 0
total ((k, v) ∷ m) = (length k + data_len v + 16) + total m

-- The counter is the total (modulo the word), and the map is in key order.
pub record IsValid (mt : MemTable) : Type 0 where
  pub sized : mt.size_bytes ≡ total mt.inner % u64_mod
  pub sorted : IsSorted mt.inner

total-insert :
    (k : Bytes) (v : VersionedValue) (m : BtreeMap VersionedValue)
    → IsSorted m
    → total (BtreeMap.insert k v m) + removed k (BtreeMap.get k m)
      ≡ total m + (length k + data_len v + 16)
unfolding total BtreeMap.insert BtreeMap.get
total-insert k v [] s = omega arith
total-insert k v ((j, w) ∷ m) s =
    ground (arith, total-insert k v m, get-Above k m, Above-trans k j m, eq_of_cmp k j)

pub with_threshold-IsValid : (t : ℕ) → IsValid (with_threshold t)
unfolding with_threshold total
with_threshold-IsValid t = record { sized = refl; sorted = tt }

-- The two atomic updates, on a counter that is a total modulo the word.
counter :
    (t t' added gone : ℕ)
    → t' + gone ≡ t + added
    → fetch_sub (fetch_add (t % u64_mod) added) gone ≡ t' % u64_mod
counter t t' added gone h = omega arith

write-IsValid :
    (mt : MemTable) (key : Bytes) (w : VersionedValue) (added : ℕ)
    → added ≡ length key + data_len w + 16
    → IsValid mt
    → IsValid (record mt {
      inner = BtreeMap.insert key w mt.inner;
      size_bytes =
          fetch_sub (fetch_add mt.size_bytes added) (removed key (BtreeMap.get key mt.inner));
    })
write-IsValid mt key w added e valid = record {
  sized =
      rw valid.sized
        (counter (total mt.inner) _ added _ (rw e (total-insert key w mt.inner valid.sorted)));
  sorted = insert-IsSorted key w mt.inner valid.sorted;
}

-- A successful put keeps the entries sorted and the counter exact: it never runs below what the
-- entries take.
pub put-IsValid :
    (mt mt' : MemTable) (key v : Bytes) (s : ℕ) → put mt key v s ≡ ok mt' → IsValid mt → IsValid mt'
unfolding put
put-IsValid mt mt' [] v s h valid = cc
put-IsValid mt mt' (k ∷ ks) v s h valid =
    subst IsValid (ok-injective h) (write-IsValid mt (k ∷ ks) (value v s) _ refl valid)

-- The same of a delete.
pub delete-IsValid :
    (mt mt' : MemTable) (key : Bytes) (s : ℕ) → delete mt key s ≡ ok mt' → IsValid mt → IsValid mt'
unfolding delete
delete-IsValid mt mt' [] s h valid = cc
delete-IsValid mt mt' (k ∷ ks) s h valid =
    subst IsValid (ok-injective h) (write-IsValid mt (k ∷ ks) (tombstone s) _ (omega arith) valid)
