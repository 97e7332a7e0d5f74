-- ===== src/Sstable/Table/Sorted.antt =====
-- Sorted lists of entries, and the version of a key in them.
use exepense_db.Base.{
  ℕ, ◌≡◌, refl, subst, true, Option, none, some, List, [], ◌∷◌, ◌++◌, All, leb, if◌then◌else◌,
  arith,
}
use exepense_db.Base.Order.{
  Bytes, cmp_trans, cmp-cases, below, equal, above, gt_of_lt, same, le_bytes, ◌≺◌,
}
use exepense_db.Sstable.Block.{BlockEntry}
use exepense_db.Sstable.Reader.Scan.{scan_list}

abbrev pub Above : Bytes → List BlockEntry → Type 0
Above k es = All (λ e. k ≺ e.key) es

-- Strictly ascending keys.
abbrev pub IsSorted : List BlockEntry → Type 0
IsSorted [] = Unit
IsSorted (e ∷ es) = Above e.key es × IsSorted es

abbrev pub content : BlockEntry → Option Bytes
content e = if e.tombstone then none else some e.value

-- What a reader at `read_seq` is to see of a key: the entry's value, unless it is a tombstone or too
-- new.
unfoldable pub lookup : List BlockEntry → Bytes → ℕ → Option Bytes
lookup [] key read_seq = none
lookup (e ∷ es) key read_seq =
    if same e.key key
    then (if leb e.seq read_seq then content e else none)
    else lookup es key read_seq

unfoldable pub last_key_of : List BlockEntry → Bytes
last_key_of [] = []
last_key_of (e ∷ []) = e.key
last_key_of (e ∷ x ∷ es) = last_key_of (x ∷ es)

pub Above-trans : (a b : Bytes) (es : List BlockEntry) → a ≺ b → Above b es → Above a es
Above-trans a b [] h all = tt
Above-trans a b (e ∷ es) h (p, all) = (cmp_trans a b e.key h p, Above-trans a b es h all)

-- A key below all keys is not there.
pub scan_list-Above :
    (es : List BlockEntry) (key : Bytes) (read_seq : ℕ) (r : Option Bytes)
    → Above key es
    → scan_list es key read_seq r ≡ r
unfolding scan_list
scan_list-Above [] key read_seq r h = refl
scan_list-Above (e ∷ es) key read_seq r h =
    ground (arith, gt_of_lt key e.key h.0, scan_list-Above es key read_seq r h.1)

pub lookup-Above :
    (es : List BlockEntry) (key : Bytes) (read_seq : ℕ)
    → Above key es
    → lookup es key read_seq ≡ none
unfolding lookup
lookup-Above [] key read_seq h = refl
lookup-Above (e ∷ es) key read_seq h =
    ground (arith, gt_of_lt key e.key h.0, lookup-Above es key read_seq h.1)

-- In a sorted block the loop finds the version of the key.
pub scan_list-lookup :
    (es : List BlockEntry) (key : Bytes) (read_seq : ℕ)
    → IsSorted es
    → scan_list es key read_seq none ≡ lookup es key read_seq
unfolding scan_list lookup
scan_list-lookup [] key read_seq h = refl
scan_list-lookup (e ∷ es) key read_seq (over, sorted) = elim (cmp-cases e.key key) [
  | below h ↦ ground (arith, scan_list-lookup es key read_seq sorted)
  | above h k ↦ ground (arith, scan_list-lookup es key read_seq sorted)
  | equal h same_key ↦ ground (
    arith,
    scan_list-Above es key read_seq (some e.value) (subst (λ k. Above k es) same_key over),
    scan_list-Above es key read_seq none (subst (λ k. Above k es) same_key over),
  )
]

pub IsSorted-append : (xs ys : List BlockEntry) → IsSorted (xs ++ ys) → IsSorted xs × IsSorted ys
IsSorted-append [] ys h = (tt, h)
IsSorted-append (x ∷ xs) ys (over, sorted) =
    let (sx, sy) = IsSorted-append xs ys sorted in ((Above_front x.key xs ys over, sx), sy)
  where
    Above_front : (k : Bytes) (us vs : List BlockEntry) → Above k (us ++ vs) → Above k us
    Above_front k [] vs h = tt
    Above_front k (u ∷ us) vs (p, h) = (p, Above_front k us vs h)

Above-last :
    (k : Bytes) (e : BlockEntry) (es : List BlockEntry)
    → Above k (e ∷ es)
    → k ≺ last_key_of (e ∷ es)
unfolding last_key_of
Above-last k e [] h = h.0
Above-last k e (x ∷ es) h = Above-last k x es h.1

-- A key past the last one of a block is looked up behind the block.
pub lookup-past :
    (e : BlockEntry) (es rest : List BlockEntry) (key : Bytes) (read_seq : ℕ)
    → IsSorted (e ∷ es)
    → last_key_of (e ∷ es) ≺ key
    → lookup ((e ∷ es) ++ rest) key read_seq ≡ lookup rest key read_seq
unfolding lookup last_key_of
lookup-past e [] rest key read_seq h k = ground arith
lookup-past e (x ∷ es) rest key read_seq (over, sorted) k = ground (
  arith,
  cmp_trans e.key (last_key_of (x ∷ es)) key (Above-last e.key x es over) k,
  lookup-past x es rest key read_seq sorted k,
)

not_past :
    (a key : Bytes) (es : List BlockEntry) → le_bytes key a ≡ true → Above a es → Above key es
not_past a key es h all = elim (cmp-cases key a) [
  | below c ↦ Above-trans key a es c all
  | equal c same_key ↦ rw same_key all
  | above c d ↦ absurd (ground arith)
]

-- A key up to the last one of a block is looked up in the block.
pub lookup-within :
    (e : BlockEntry) (es rest : List BlockEntry) (key : Bytes) (read_seq : ℕ)
    → IsSorted ((e ∷ es) ++ rest)
    → le_bytes key (last_key_of (e ∷ es)) ≡ true
    → lookup ((e ∷ es) ++ rest) key read_seq ≡ lookup (e ∷ es) key read_seq
unfolding lookup last_key_of
lookup-within e [] rest key read_seq (over, sorted) k =
    ground (arith, lookup-Above rest key read_seq (not_past e.key key rest k over))
lookup-within e (x ∷ es) rest key read_seq (over, sorted) k =
    ground (arith, lookup-within x es rest key read_seq sorted k)
