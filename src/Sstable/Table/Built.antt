-- ===== src/Sstable/Table/Built.antt =====
-- `SsTableBuilder::add` and `seal_block` keep the data, the index and the filter in step with the
-- entries added.
use exepense_db.Base.{
  ◌+◌, ◌≡◌, refl, sym, ◌∙◌, Bool, false, not, ◌&&◌, List, [], ◌∷◌, ◌++◌, append_assoc, append-nil,
  length, ltb, Bool-cases, inl, inr,
}
use native.Mathlib.Nat.{zero-add}
use exepense_db.Base.Words.{to_le}
use exepense_db.Sstable.Block
use exepense_db.Sstable.Block.{BlockEntry, BlockBuilder, entry_bytes, needed, block_size}
use exepense_db.Sstable.Block.Entries.{entries_bytes}
use exepense_db.Sstable.Builder.{SsTableBuilder, seal_block, retry}
use exepense_db.Sstable.Table.Sorted.{last_key_of}
use exepense_db.Sstable.Table.Blocks.{
  Block, all_entries, data_of, index_of, all_entries-append, data_of-append, index_of-append,
  entries_bytes-append,
}

-- The blocks hold the entries `es`, in order: the sealed ones and those of the open block.
pub record Layout {Filter : Type 0} (b : SsTableBuilder Filter) (es : List BlockEntry)
    : Type 0 where
  pub done : List Block
  pub current : List BlockEntry
  pub holds : es ≡ all_entries done ++ current
  pub data_is : b.data_buf ≡ data_of done
  pub index_is : b.blocks ≡ index_of 0 done
  pub contents : b.current_block.contents ≡ entries_bytes current
  pub last : b.current_block.last_key ≡ last_key_of current

last_key_of-append : (es : List BlockEntry) (e : BlockEntry) → last_key_of (es ++ (e ∷ [])) ≡ e.key
unfolding last_key_of
last_key_of-append [] e = refl
last_key_of-append (x ∷ []) e = refl
last_key_of-append (x ∷ y ∷ es) e = last_key_of-append (y ∷ es) e

entries_bytes_one : (e : BlockEntry) → entries_bytes (e ∷ []) ≡ entry_bytes e
unfolding entries_bytes
entries_bytes_one e = append-nil (entry_bytes e)

not_empty :
    (e : BlockEntry) (es : List BlockEntry) → Block.is_empty (entries_bytes (e ∷ es)) ≡ false
unfolding entries_bytes entry_bytes to_le
not_empty e es = refl

empty_bytes : entries_bytes [] ≡ []
unfolding entries_bytes
empty_bytes = refl

abbrev pushed : BlockBuilder → BlockEntry → BlockBuilder
pushed blk e = record { contents = blk.contents ++ entry_bytes e; last_key = e.key }

abbrev is_full : BlockBuilder → BlockEntry → Bool
is_full blk e = not (Block.is_empty blk.contents) && ltb block_size (length blk.contents + needed e)

module _ {Filter : Type 0} where
  abbrev with_block : SsTableBuilder Filter → BlockBuilder → SsTableBuilder Filter
  with_block b blk = record b { current_block = blk }

  push-Layout :
      (b : SsTableBuilder Filter) (es : List BlockEntry) (e : BlockEntry)
      → Layout b es
      → Layout (with_block b (pushed b.current_block e)) (es ++ (e ∷ []))
  push-Layout b es e l = record {
    done = l.done;
    current = l.current ++ (e ∷ []);
    holds = rw (l.holds) (append_assoc (all_entries l.done) l.current (e ∷ []));
    data_is = l.data_is;
    index_is = l.index_is;
    contents = rw (entries_bytes-append l.current (e ∷ []), entries_bytes_one e, l.contents);
    last = sym (last_key_of-append l.current e);
  }

  -- What sealing leaves: an empty open block.
  sealed-Layout :
      (b : SsTableBuilder Filter) (es current : List BlockEntry) (done : List Block)
      → es ≡ all_entries done ++ current
      → b.data_buf ≡ data_of done
      → b.blocks ≡ index_of 0 done
      → b.current_block.contents ≡ entries_bytes current
      → b.current_block.last_key ≡ last_key_of current
      → (l : Layout (seal_block b) es) × ((seal_block b).current_block ≡ Block.new)
        × (l.current ≡ [])
  unfolding seal_block last_key_of
  sealed-Layout b es [] done hh hd hi hc hl =
      rw (seal_block, hc, empty_bytes)
        (
          record {
            done = done;
            current = [];
            holds = hh;
            data_is = hd;
            index_is = hi;
            contents = sym empty_bytes;
            last = refl;
          },
          refl,
          refl,
        )
  sealed-Layout b es (e ∷ current) done hh hd hi hc hl =
      let blk : Block = record { first = e; others = current } in
      rw (seal_block, hc, not_empty e current)
        (
          record {
            done = done ++ (blk ∷ []);
            current = [];
            holds =
                hh
                ∙ sym (append-nil (all_entries (done ++ (blk ∷ []))) ∙ all_entries-append done blk);
            data_is = rw (data_of-append done blk, hd);
            index_is = rw (index_of-append 0 done blk, zero-add, hd, hi, hl);
            contents = sym empty_bytes;
            last = refl;
          },
          refl,
          refl,
        )

  pub seal-Layout :
      (b : SsTableBuilder Filter) (es : List BlockEntry)
      → Layout b es
      → (l : Layout (seal_block b) es) × ((seal_block b).current_block ≡ Block.new)
        × (l.current ≡ [])
  seal-Layout b es l =
      sealed-Layout b es l.current l.done l.holds l.data_is l.index_is l.contents l.last

  pub retry-Layout :
      (b : SsTableBuilder Filter) (es : List BlockEntry) (e : BlockEntry)
      → Layout b es
      → Layout (retry b e (Block.add b.current_block e)) (es ++ (e ∷ []))
  unfolding Block.add
  retry-Layout b es e l = elim (Bool-cases (is_full b.current_block e)) [
    | inr fits ↦ rw fits (push-Layout b es e l)
    | inl full ↦
        let (s, fresh_block, _) = seal-Layout b es l in
        let p = push-Layout (seal_block b) es e s in rw (full, fresh_block) (rw fresh_block at p)
  ]
