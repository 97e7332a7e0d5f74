-- ===== src/Memtable/Lookup.antt =====
-- What a read returns after a write, on the memtable and on its frozen snapshot.
use exepense_db.Base.{ℕ, ◌≡◌, ◌≢◌, refl, none, some, [], ◌∷◌, ok, err, arith, leb, if◌then◌else◌}
use exepense_db.Base.Order.{Bytes, same}
use exepense_db.Base.BtreeMap
use exepense_db.Base.BtreeMap.{get-insert}
use exepense_db.Memtable.{
  value, tombstone, MemTable, empty_key, put, delete, get, read_at, freeze, imm_get,
}

-- A read of `q` at `read_seq` after a successful put of `key`: the put value if its sequence number is at most
-- the snapshot's, nothing if it is newer (the older version is gone), and the old answer elsewhere.
pub get-put_seq :
    (mt mt' : MemTable) (key v q : Bytes) (s read_seq : ℕ)
    → put mt key v s ≡ ok mt'
    → get mt' q read_seq
      ≡ (if same q key then (if leb s read_seq then some v else none) else get mt q read_seq)
unfolding put get read_at
get-put_seq mt mt' key v q s read_seq h = ground (arith, get-insert key q (value v s) mt.inner)

-- A read after a successful delete: nothing at the deleted key, whatever the snapshot, and the old answer
-- elsewhere.
pub get-delete_seq :
    (mt mt' : MemTable) (key q : Bytes) (s read_seq : ℕ)
    → delete mt key s ≡ ok mt'
    → get mt' q read_seq ≡ (if same q key then none else get mt q read_seq)
unfolding delete get read_at
get-delete_seq mt mt' key q s read_seq h = ground (arith, get-insert key q (tombstone s) mt.inner)

-- `put` and `delete` fail exactly on the empty key.
pub put_fails :
    (mt : MemTable) (key v : Bytes) (s : ℕ) → (put mt key v s ≡ err empty_key) → key ≡ []
unfolding put
put_fails mt [] v s h = refl
put_fails mt (k ∷ ks) v s h = cc

-- The frozen snapshot answers every read as the memtable did.
pub imm_get-freeze :
    (mt : MemTable) (q : Bytes) (read_seq : ℕ) → imm_get (freeze mt) q read_seq ≡ get mt q read_seq
unfolding imm_get freeze get
imm_get-freeze mt q read_seq = refl

-- A write with a key that is not empty succeeds, and stores the version.
pub put_total :
    (mt : MemTable) (key v : Bytes) (s : ℕ)
    → key ≢ []
    → (mt' : MemTable) × (put mt key v s ≡ ok mt')
      × (mt'.inner ≡ BtreeMap.insert key (value v s) mt.inner)
unfolding put
put_total mt [] v s h = absurd (h refl)
put_total mt (k ∷ ks) v s h = (_, refl, refl)

pub delete_total :
    (mt : MemTable) (key : Bytes) (s : ℕ)
    → key ≢ []
    → (mt' : MemTable) × (delete mt key s ≡ ok mt')
      × (mt'.inner ≡ BtreeMap.insert key (tombstone s) mt.inner)
unfolding delete
delete_total mt [] s h = absurd (h refl)
delete_total mt (k ∷ ks) s h = (_, refl, refl)
