-- ===== src/Base/BtreeMap.antt =====
-- `std::collections::BTreeMap<Vec<u8>, V>` as the list of its entries in ascending key order.
use Prim.Native.Nat.Ordering.{lt, eq, gt}
use mathlib.Core.Path.{◌≡◌, refl}
use mathlib.Core.Option.{Option, none, some}
use mathlib.Core.List.{List, [], ◌∷◌}
use native.Mathlib.Omega.{arith}
use exepense_db.Base.Tests.{if◌then◌else◌}
use exepense_db.Base.Order.{Bytes, cmp, same, ◌≺◌, cmp_refl, eq_of_cmp, lt_of_gt, cmp_trans}

abbrev pub BtreeMap {ℓ} : Type ℓ → Type ℓ
BtreeMap V = List (Bytes × V)

module _ {ℓ} {V : Type ℓ} where
  -- `map.get(&k)`
  unfoldable pub get : Bytes → BtreeMap V → Option V
  get k [] = none
  get k ((j, v) ∷ m) = if same k j then some v else get k m

  -- `map.insert(k, v)`
  unfoldable pub insert : Bytes → V → BtreeMap V → BtreeMap V
  insert k v [] = (k, v) ∷ []
  insert k v ((j, w) ∷ m) = elim (cmp k j) [
    | lt ↦ (k, v) ∷ (j, w) ∷ m
    | eq ↦ (k, v) ∷ m
    | gt ↦ (j, w) ∷ insert k v m
  ]

  -- `map.remove(&k)`
  unfoldable pub remove : Bytes → BtreeMap V → BtreeMap V
  remove k [] = []
  remove k ((j, w) ∷ m) = if same k j then m else (j, w) ∷ remove k m

  -- Every key of the map comes after `k`.
  abbrev pub Above : Bytes → BtreeMap V → Type 0
  Above k [] = Unit
  Above k ((j, w) ∷ m) = (k ≺ j) × Above k m

  -- The entries stand in strictly ascending key order.
  abbrev pub IsSorted : BtreeMap V → Type 0
  IsSorted [] = Unit
  IsSorted ((j, w) ∷ m) = Above j m × IsSorted m

  pub get-insert :
      (k q : Bytes) (v : V) (m : BtreeMap V)
      → get q (insert k v m) ≡ (if same q k then some v else get q m)
  unfolding get insert
  get-insert k q v [] = refl
  get-insert k q v ((j, w) ∷ m) =
      ground (arith, get-insert k q v m, eq_of_cmp k j, eq_of_cmp q k, eq_of_cmp q j, cmp_refl q)

  pub Above-trans : (i k : Bytes) (m : BtreeMap V) → i ≺ k → Above k m → Above i m
  Above-trans i k [] h a = tt
  Above-trans i k ((j, w) ∷ m) h (p, a) = (cmp_trans i k j h p, Above-trans i k m h a)

  pub get-Above : (k : Bytes) (m : BtreeMap V) → Above k m → get k m ≡ none
  unfolding get
  get-Above k [] a = refl
  get-Above k ((j, w) ∷ m) a = ground (arith, get-Above k m)

  Above-insert : (i k : Bytes) (v : V) (m : BtreeMap V) → i ≺ k → Above i m → Above i (insert k v m)
  unfolding insert
  Above-insert i k v [] h a = (h, tt)
  Above-insert i k v ((j, w) ∷ m) h a = ground (arith, Above-insert i k v m)

  pub insert-IsSorted : (k : Bytes) (v : V) (m : BtreeMap V) → IsSorted m → IsSorted (insert k v m)
  unfolding insert
  insert-IsSorted k v [] s = (tt, tt)
  insert-IsSorted k v ((j, w) ∷ m) s = ground (
    arith,
    insert-IsSorted k v m,
    Above-trans k j m,
    Above-insert j k v m,
    lt_of_gt k j,
    eq_of_cmp k j,
  )

  pub get-remove :
      (k q : Bytes) (m : BtreeMap V)
      → IsSorted m
      → get q (remove k m) ≡ (if same q k then none else get q m)
  unfolding get remove
  get-remove k q [] s = ground arith
  get-remove k q ((j, w) ∷ m) s = ground (
    arith,
    get-remove k q m,
    get-Above j m,
    eq_of_cmp k j,
    eq_of_cmp q k,
    eq_of_cmp q j,
    cmp_refl q,
    cmp_refl k,
  )
