-- ===== src/Sstable/Table/Rows.antt =====
-- A table built from a list of rows, as the property tests of crates/sstable/src/lib.rs build it.
use exepense_db.Base.{
  ℕ, ◌+◌, ◌<◌, ◌≡◌, refl, subst, Bool, true, false, Option, List, [], ◌∷◌, ◌++◌, append_assoc,
  append-nil, length, length-append, All, All-append, ltb, if◌then◌else◌, arith,
}
use exepense_db.Base.Order.{Bytes}
use exepense_db.Base.Words.{u64_mod}
use exepense_db.Sstable.Bloom
use exepense_db.Sstable.Bloom.{IsLawful, SipKeys}
use exepense_db.Sstable.Block
use exepense_db.Sstable.Block.{BlockEntry, BlockBuilder}
use exepense_db.Sstable.Block.Entries.{IsEncodable, entries_bytes}
use exepense_db.Sstable.Builder
use exepense_db.Sstable.Builder.{SsTableBuilder, entry_of, seal_block, add, retry, finish}
use exepense_db.Sstable.Table.Sorted.{last_key_of}
use exepense_db.Sstable.Table.Blocks.{all_entries, data_of, index_of}
use exepense_db.Sstable.Table.Built.{Layout, retry-Layout}

-- The arguments of one call of `SsTableBuilder::add`.
pub record Row : Type 0 where
  pub key : Bytes
  pub seq : ℕ
  pub value : Option Bytes

abbrev pub row_entry : Row → BlockEntry
row_entry r = entry_of r.key r.seq r.value

unfoldable pub row_entries : List Row → List BlockEntry
row_entries [] = []
row_entries (r ∷ rs) = row_entry r ∷ row_entries rs

-- The filter knows every key of `es`, and the counters fit.
pub record Summary {Filter : Type 0} (lib : Bloom.Lib Filter) (b : SsTableBuilder Filter)
    (es : List BlockEntry) : Type 0 where
  pub known : All (λ e. lib.check b.bloom e.key ≡ true) es
  pub count : b.entry_count ≡ length es
  pub min_fits : b.min_seq < u64_mod

module _ {Filter : Type 0} where
  pub seal_keeps :
      (b : SsTableBuilder Filter)
      → ((seal_block b).bloom ≡ b.bloom)
        × ((seal_block b).entry_count ≡ b.entry_count)
        × ((seal_block b).min_seq ≡ b.min_seq)
  unfolding seal_block
  seal_keeps b = ground arith

  retry_keeps :
      (b : SsTableBuilder Filter) (e : BlockEntry) (r : BlockBuilder × Bool)
      → ((retry b e r).bloom ≡ b.bloom)
        × ((retry b e r).entry_count ≡ b.entry_count)
        × ((retry b e r).min_seq ≡ b.min_seq)
  retry_keeps b e (blk, true) = (refl, refl, refl)
  retry_keeps b e (blk, false) = seal_keeps b

module _ {Filter : Type 0} (lib : Bloom.Lib Filter) where
  unfoldable pub add_rows : SsTableBuilder Filter → List Row → SsTableBuilder Filter
  add_rows b [] = b
  add_rows b (r ∷ rs) = add_rows (add lib b r.key r.seq r.value) rs

  -- `build_sstable` with a filter for `n` keys: the bytes of the file.
  unfoldable pub build_sstable : ℕ → List Row → Bytes
  build_sstable n rows = finish lib (add_rows (Builder.new lib n) rows)

module _ {Filter : Type 0} {lib : Bloom.Lib Filter} (law : IsLawful lib) where
  add-Layout :
      (b : SsTableBuilder Filter) (es : List BlockEntry) (r : Row)
      → Layout b es
      → Layout (add lib b r.key r.seq r.value) (es ++ (row_entry r ∷ []))
  unfolding add
  add-Layout b es r l =
      retry-Layout
        (record b {
          bloom = Bloom.insert lib b.bloom r.key;
          entry_count = b.entry_count + 1;
          min_seq = if ltb r.seq b.min_seq then r.seq else b.min_seq;
        })
        es (row_entry r)
        (record {
          done = l.done;
          current = l.current;
          holds = l.holds;
          data_is = l.data_is;
          index_is = l.index_is;
          contents = l.contents;
          last = l.last;
        })

  keeps_known :
      (f : Filter) (k : Bytes) (es : List BlockEntry)
      → All (λ e. lib.check f e.key ≡ true) es
      → All (λ e. lib.check (lib.set f k) e.key ≡ true) es
  keeps_known f k [] h = tt
  keeps_known f k (e ∷ es) (p, h) = (law.check_keeps f k e.key p, keeps_known f k es h)

  add-Summary :
      (b : SsTableBuilder Filter) (es : List BlockEntry) (r : Row)
      → IsEncodable (row_entry r)
      → Summary lib b es
      → Summary lib (add lib b r.key r.seq r.value) (es ++ (row_entry r ∷ []))
  unfolding add Bloom.insert
  add-Summary b es r fits s =
      let keeps =
        retry_keeps
          (record b {
            bloom = Bloom.insert lib b.bloom r.key;
            entry_count = b.entry_count + 1;
            min_seq = if ltb r.seq b.min_seq then r.seq else b.min_seq;
          })
          (row_entry r) (Block.add b.current_block (row_entry r)) in
      record {
        known = rw (keeps.0) (
            All-append (λ e. lib.check (lib.set b.bloom r.key) e.key ≡ true) es (row_entry r ∷ [])
              (keeps_known b.bloom r.key es s.known) (law.check_set b.bloom r.key, tt));
        count = omega (arith, keeps.1, s.count, length-append es (row_entry r ∷ []));
        min_fits = rw (keeps.2) (ground (arith, s.min_fits, fits.seq_fits));
      }

  pub add_rows-Layout :
      (rows : List Row) (b : SsTableBuilder Filter) (es : List BlockEntry)
      → Layout b es
      → Layout (add_rows lib b rows) (es ++ row_entries rows)
  unfolding add_rows row_entries
  add_rows-Layout [] b es l = rw append-nil l
  add_rows-Layout (r ∷ rows) b es l =
      subst (Layout (add_rows lib b (r ∷ rows)))
        (append_assoc es (row_entry r ∷ []) (row_entries rows))
        (add_rows-Layout rows _ (es ++ (row_entry r ∷ [])) (add-Layout b es r l))

  pub add_rows-Summary :
      (rows : List Row) (b : SsTableBuilder Filter) (es : List BlockEntry)
      → All IsEncodable (row_entries rows)
      → Summary lib b es
      → Summary lib (add_rows lib b rows) (es ++ row_entries rows)
  unfolding add_rows row_entries
  add_rows-Summary [] b es h s = rw append-nil s
  add_rows-Summary (r ∷ rows) b es (p, h) s =
      subst (Summary lib (add_rows lib b (r ∷ rows)))
        (append_assoc es (row_entry r ∷ []) (row_entries rows))
        (add_rows-Summary rows _ (es ++ (row_entry r ∷ [])) h (add-Summary b es r p s))

  pub new-Layout : (n : ℕ) → Layout (Builder.new lib n) []
  unfolding Builder.new all_entries data_of index_of entries_bytes last_key_of
  new-Layout n = record {
    done = [];
    current = [];
    holds = refl;
    data_is = refl;
    index_is = refl;
    contents = refl;
    last = refl;
  }

  pub new-Summary : (n : ℕ) → Summary lib (Builder.new lib n) []
  unfolding Builder.new Bloom.new
  new-Summary n = record { known = tt; count = refl; min_fits = omega arith }
