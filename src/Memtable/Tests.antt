-- ===== src/Memtable/Tests.antt =====
-- The unit tests of memtable.rs, and the theorems at concrete inputs.
use exepense_db.Base.{◌≡◌, refl, none, some, List, [], ◌∷◌}
use exepense_db.Base.Order.{Bytes, cmp}
use exepense_db.Base.BtreeMap
use exepense_db.Memtable.{MemTable, with_threshold, new, put, delete, get, read_at, visible}
use exepense_db.Memtable.Size.{IsValid, with_threshold-IsValid, total}
use exepense_db.Memtable.Runs.{Op, apply, run, replay, unwrap_or, run-IsValid, get-run}

abbrev k : Bytes
k = 107 ∷ []

abbrev v1 : Bytes
v1 = 118 ∷ 49 ∷ []

abbrev v2 : Bytes
v2 = 118 ∷ 50 ∷ []

abbrev written : MemTable
written = unwrap_or new (put new k v1 1)

basic_put_get : (get written k 1 ≡ some v1) × (get written k 0 ≡ none)
unfolding get put new BtreeMap.get BtreeMap.insert read_at cmp
basic_put_get = (refl, refl)

abbrev ops : List Op
ops = Op.put k v1 1 ∷ Op.put [] v2 2 ∷ Op.put k v2 3 ∷ Op.delete (108 ∷ []) 4 ∷ []

ops_read : get (run ops (with_threshold 10)) k 3 ≡ some v2
unfolding run apply with_threshold put delete get BtreeMap.get BtreeMap.insert read_at cmp
ops_read = refl

ops_size : total (run ops (with_threshold 10)).inner ≡ 36
unfolding run apply with_threshold put delete BtreeMap.get BtreeMap.insert cmp total
ops_size = refl

run-IsValid_example : IsValid (run ops (with_threshold 10))
run-IsValid_example = run-IsValid ops (with_threshold 10) (with_threshold-IsValid 10)

get-run_example : get (run ops (with_threshold 10)) k 3 ≡ visible (replay ops (λ _. none) k) 3
get-run_example = get-run 10 ops k 3
