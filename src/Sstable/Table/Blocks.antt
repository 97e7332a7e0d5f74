-- ===== src/Sstable/Table/Blocks.antt =====
-- The blocks of a table: their bytes one after the other, their index, and the block that
-- `find_block` picks for a key.
use exepense_db.Base.{
  ℕ, ◌+◌, ◌%◌, ◌<◌, ◌≡◌, refl, sym, ap, ◌∙◌, Option, none, some, List, [], ◌∷◌, ◌++◌, append_assoc,
  append-nil, length, length-append, Bool-cases, inl, inr, arith,
}
use native.Mathlib.Nat.{mod-eq_of_lt}
use exepense_db.Base.Order.{Bytes, le_bytes, lt_of_not_le}
use exepense_db.Base.Words.{u32_mod, u64_mod}
use exepense_db.Sstable.Block.{BlockEntry, entry_bytes}
use exepense_db.Sstable.Block.Entries.{entries_bytes}
use exepense_db.Sstable.Builder.{IndexEntry}
use exepense_db.Sstable.Reader.Index.{find_list}
use exepense_db.Sstable.Table.Sorted.{
  IsSorted, IsSorted-append, lookup, lookup-past, lookup-within, last_key_of,
}

-- A sealed block holds at least one entry.
pub record Block : Type 0 where
  pub first : BlockEntry
  pub others : List BlockEntry

abbrev pub entries : Block → List BlockEntry
entries b = b.first ∷ b.others

unfoldable pub all_entries : List Block → List BlockEntry
all_entries [] = []
all_entries (b ∷ bs) = entries b ++ all_entries bs

unfoldable pub data_of : List Block → Bytes
data_of [] = []
data_of (b ∷ bs) = entries_bytes (entries b) ++ data_of bs

abbrev pub index_entry : ℕ → Block → IndexEntry
index_entry offset b = record {
  last_key = last_key_of (entries b);
  offset = offset % u64_mod;
  len = length (entries_bytes (entries b)) % u32_mod;
}

unfoldable pub index_of : ℕ → List Block → List IndexEntry
index_of offset [] = []
index_of offset (b ∷ bs) =
    index_entry offset b ∷ index_of (offset + length (entries_bytes (entries b))) bs

pub entries_bytes-append :
    (xs ys : List BlockEntry) → entries_bytes (xs ++ ys) ≡ entries_bytes xs ++ entries_bytes ys
unfolding entries_bytes
entries_bytes-append [] ys = refl
entries_bytes-append (x ∷ xs) ys =
    rw (entries_bytes-append xs ys)
      (sym (append_assoc (entry_bytes x) (entries_bytes xs) (entries_bytes ys)))

pub data_of-append :
    (bs : List Block) (b : Block)
    → data_of (bs ++ (b ∷ [])) ≡ data_of bs ++ entries_bytes (entries b)
unfolding data_of
data_of-append [] b = append-nil (entries_bytes (entries b))
data_of-append (x ∷ bs) b =
    rw (data_of-append bs b)
      (sym (append_assoc (entries_bytes (entries x)) (data_of bs) (entries_bytes (entries b))))

pub all_entries-append :
    (bs : List Block) (b : Block) → all_entries (bs ++ (b ∷ [])) ≡ all_entries bs ++ entries b
unfolding all_entries
all_entries-append [] b = append-nil (entries b)
all_entries-append (x ∷ bs) b =
    rw (all_entries-append bs b) (sym (append_assoc (entries x) (all_entries bs) (entries b)))

pub index_of-append :
    (offset : ℕ) (bs : List Block) (b : Block)
    → index_of offset (bs ++ (b ∷ []))
      ≡ index_of offset bs ++ (index_entry (offset + length (data_of bs)) b ∷ [])
unfolding index_of data_of
index_of-append offset [] b = ap (λ n. index_entry n b ∷ []) (omega arith)
index_of-append offset (x ∷ bs) b =
    rw (index_of-append (offset + length (entries_bytes (entries x))) bs b) (
      ap
        (λ n.
          index_entry offset x
          ∷ (index_of (offset + length (entries_bytes (entries x))) bs ++ (index_entry n b ∷ [])))
        (omega (arith, length-append (entries_bytes (entries x)) (data_of bs))))

-- Where the key of a lookup is: in no block, or in the block that the index gives.
pub data Located (found : Option (ℕ × ℕ)) (offset : ℕ) (bs : List Block) (key : Bytes)
    (read_seq : ℕ) : Type 0 where
  nowhere :
      found ≡ none
      → lookup (all_entries bs) key read_seq ≡ none
      → Located found offset bs key read_seq
  inside :
      (front : List Block) (b : Block) (back : List Block)
      → bs ≡ front ++ (b ∷ back)
      → found ≡ some (offset + length (data_of front), length (entries_bytes (entries b)))
      → lookup (all_entries bs) key read_seq ≡ lookup (entries b) key read_seq
      → Located found offset bs key read_seq

unfolds :
    (b : Block) (bs : List Block) (key : Bytes) (read_seq : ℕ)
    → lookup (all_entries (b ∷ bs)) key read_seq ≡ lookup (entries b ++ all_entries bs) key read_seq
unfolding all_entries
unfolds b bs key read_seq = refl

later :
    {found found' : Option (ℕ × ℕ)} (offset : ℕ) (b : Block) (bs : List Block) (key : Bytes)
    (read_seq : ℕ)
    → found' ≡ found
    → lookup (all_entries (b ∷ bs)) key read_seq ≡ lookup (all_entries bs) key read_seq
    → Located found (offset + length (entries_bytes (entries b))) bs key read_seq
    → Located found' offset (b ∷ bs) key read_seq
unfolding data_of
later offset b bs key read_seq ef el (nowhere e l) = nowhere (ef ∙ e) (el ∙ l)
later offset b bs key read_seq ef el (inside front x back split e l) =
    inside (b ∷ front) x back (ap (λ t. b ∷ t) split)
      (ef
        ∙ e
        ∙ ap (λ n. some (n, length (entries_bytes (entries x))))
            (omega (arith, length-append (entries_bytes (entries b)) (data_of front))))
      (el ∙ l)

pub locate :
    (offset : ℕ) (bs : List Block) (key : Bytes) (read_seq : ℕ)
    → IsSorted (all_entries bs)
    → offset + length (data_of bs) < u32_mod
    → Located (find_list (index_of offset bs) key) offset bs key read_seq
unfolding all_entries data_of index_of find_list
locate offset [] key read_seq h small = nowhere refl (unfold lookup in refl)
locate offset (b ∷ bs) key read_seq h small =
    elim (Bool-cases (le_bytes key (last_key_of (entries b)))) [
      | inl here ↦
          inside [] b bs refl
            (rw here (
              ap some (
                places (omega (arith, length-append (entries_bytes (entries b)) (data_of bs)))
                  (omega (arith, length-append (entries_bytes (entries b)) (data_of bs))))))
            (lookup-within b.first b.others (all_entries bs) key read_seq h here)
      | inr past ↦
          later offset b bs key read_seq (rw past)
            (lookup-past b.first b.others (all_entries bs) key read_seq
              (IsSorted-append (entries b) (all_entries bs) h).0
              (lt_of_not_le key (last_key_of (entries b)) past))
            (locate (offset + length (entries_bytes (entries b))) bs key read_seq
              (IsSorted-append (entries b) (all_entries bs) h).1
              (omega (arith, length-append (entries_bytes (entries b)) (data_of bs))))
    ]
  where
    places :
        {l : ℕ}
        → offset < u32_mod
        → l < u32_mod
        → ◌≡◌ {A = ℕ × ℕ} (offset % u64_mod, l % u32_mod) (offset + 0, l)
    places {l} ho hl =
        let eo : offset % u64_mod ≡ offset + 0 = omega arith in
        let el : l % u32_mod ≡ l = mod-eq_of_lt hl in rw (eo, el)
