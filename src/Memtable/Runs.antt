-- ===== src/Memtable/Runs.antt =====
-- Any sequence of writes, as the property tests of memtable/src/lib.rs make them: an operation that
-- fails is ignored.
use exepense_db.Base.{
  ℕ, ◌≡◌, refl, List, [], ◌∷◌, Option, none, some, ok, err, if◌then◌else◌, Result, ap, fun_ext,
}
use exepense_db.Base.Order.{Bytes, same}
use exepense_db.Base.BtreeMap
use exepense_db.Base.BtreeMap.{get-insert}
use exepense_db.Memtable
use exepense_db.Memtable.{
  VersionedValue, value, tombstone, MemTable, MemTableError, visible, with_threshold, get,
}
use exepense_db.Memtable.Size.{IsValid, put-IsValid, delete-IsValid}

pub data Op : Type 0 where
  put : Bytes → Bytes → ℕ → Op
  delete : Bytes → ℕ → Op

abbrev pub unwrap_or {ℓ κ} : {E : Type ℓ} {A : Type κ} → A → Result E A → A
unwrap_or a (ok b) = b
unwrap_or a (err e) = a

unfoldable pub apply : MemTable → Op → MemTable
apply mt (put k v s) = unwrap_or mt (Memtable.put mt k v s)
apply mt (delete k s) = unwrap_or mt (Memtable.delete mt k s)

unfoldable pub run : List Op → MemTable → MemTable
run [] mt = mt
run (op ∷ ops) mt = run ops (apply mt op)

-- What a memtable promises: a function from keys to versions, changed at one key by each write with
-- a key that is not empty.
abbrev pub update :
    (Bytes → Option VersionedValue) → Bytes → VersionedValue → Bytes → Option VersionedValue
update f [] w q = f q
update f (k ∷ ks) w q = if same q (k ∷ ks) then some w else f q

unfoldable pub replay : List Op → (Bytes → Option VersionedValue) → Bytes → Option VersionedValue
replay [] f = f
replay (put k v s ∷ ops) f = replay ops (update f k (value v s))
replay (delete k s ∷ ops) f = replay ops (update f k (tombstone s))

abbrev versions : MemTable → Bytes → Option VersionedValue
versions mt q = BtreeMap.get q mt.inner

versions-apply-put :
    (mt : MemTable) (k v : Bytes) (s : ℕ)
    → versions (apply mt (put k v s)) ≡ update (versions mt) k (value v s)
unfolding apply Memtable.put
versions-apply-put mt [] v s = refl
versions-apply-put mt (k ∷ ks) v s = fun_ext λ q. get-insert (k ∷ ks) q (value v s) mt.inner

versions-apply-delete :
    (mt : MemTable) (k : Bytes) (s : ℕ)
    → versions (apply mt (delete k s)) ≡ update (versions mt) k (tombstone s)
unfolding apply Memtable.delete
versions-apply-delete mt [] s = refl
versions-apply-delete mt (k ∷ ks) s = fun_ext λ q. get-insert (k ∷ ks) q (tombstone s) mt.inner

versions-run : (ops : List Op) (mt : MemTable) → versions (run ops mt) ≡ replay ops (versions mt)
unfolding run replay
versions-run [] mt = refl
versions-run (put k v s ∷ ops) mt =
    rw (← versions-apply-put mt k v s) (versions-run ops (apply mt (put k v s)))
versions-run (delete k s ∷ ops) mt =
    rw (← versions-apply-delete mt k s) (versions-run ops (apply mt (delete k s)))

apply-IsValid : (mt : MemTable) (op : Op) → IsValid mt → IsValid (apply mt op)
unfolding apply Memtable.put Memtable.delete
apply-IsValid mt (put [] v s) h = h
apply-IsValid mt (put (k ∷ ks) v s) h = put-IsValid mt _ (k ∷ ks) v s refl h
apply-IsValid mt (delete [] s) h = h
apply-IsValid mt (delete (k ∷ ks) s) h = delete-IsValid mt _ (k ∷ ks) s refl h

-- From a state where the entries are sorted by key and the size counter is what they take, modulo
-- 2^64, any writes lead to such a state.
pub run-IsValid : (ops : List Op) (mt : MemTable) → IsValid mt → IsValid (run ops mt)
unfolding run
run-IsValid [] mt h = h
run-IsValid (op ∷ ops) mt h = run-IsValid ops (apply mt op) (apply-IsValid mt op h)

-- A new memtable after any writes answers each read, at each snapshot, as the function that the
-- writes make of the empty one.
pub get-run :
    (t : ℕ) (ops : List Op) (q : Bytes) (read_seq : ℕ)
    → get (run ops (with_threshold t)) q read_seq ≡ visible (replay ops (λ _. none) q) read_seq
unfolding get with_threshold BtreeMap.get
get-run t ops q read_seq = ap (λ f. visible (f q) read_seq) (versions-run ops (with_threshold t))
