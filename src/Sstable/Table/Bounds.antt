-- ===== src/Sstable/Table/Bounds.antt =====
-- The size of the blocks that `SsTableBuilder` writes, crates/sstable/src/block.rs and builder.rs.
use exepense_db.Base.{
  ℕ, ◌+◌, ◌≤◌, ◌≡◌, refl, ap, true, false, not, ◌&&◌, ◌⊎◌, inl, inr, Bool-cases, List, [], ◌∷◌,
  ◌++◌, length, length-append, All, All-append, ltb, max, arith,
}
use exepense_db.Base.Order.{Bytes}
use exepense_db.Sstable.Bloom
use exepense_db.Sstable.Block
use exepense_db.Sstable.Block.{BlockEntry, BlockBuilder, entry_bytes, needed, block_size}
use exepense_db.Sstable.Block.Entries.{length-entry_bytes}
use exepense_db.Sstable.Builder
use exepense_db.Sstable.Builder.{SsTableBuilder, IndexEntry, entry_of, seal_block, add, retry}
use exepense_db.Sstable.Table.Rows.{Row, row_entries, add_rows}

-- The block is inside the `d` bytes of data and has at most `n` bytes.
abbrev pub Fits : ℕ → ℕ → IndexEntry → Type 0
Fits n d x = (x.len ≤ n) × (x.offset + x.len ≤ d)

record Bounded {Filter : Type 0} (n : ℕ) (b : SsTableBuilder Filter) : Type 0 where
  sealed : All (Fits n (length b.data_buf)) b.blocks
  current : length b.current_block.contents ≤ n

All-Fits : (n d d' : ℕ) (xs : List IndexEntry) → d ≤ d' → All (Fits n d) xs → All (Fits n d') xs
All-Fits n d d' [] l h = tt
All-Fits n d d' (x ∷ xs) l ((a, b), h) = ((a, omega arith), All-Fits n d d' xs l h)

stays :
    (m n : ℕ) (c : Bytes)
    → n ≤ m
    → (not (Block.is_empty c) && ltb block_size (length c + n)) ≡ false
    → length c + n ≤ max block_size m
stays m n [] h f = omega (arith, h)
stays m n (x ∷ c) h f = ground arith

-- An entry of at most `m` bytes goes into a block that stays small, or the block refuses it.
add-cases :
    (m : ℕ) (k : BlockBuilder) (e : BlockEntry)
    → needed e ≤ m
    → (Block.add k e ≡ (k, false))
      ⊎ ((k' : BlockBuilder) × (Block.add k e ≡ (k', true))
          × (length k'.contents ≤ max block_size m))
unfolding Block.add
add-cases m k e h =
    elim (Bool-cases
      (not (Block.is_empty k.contents) && ltb block_size (length k.contents + needed e))) [
        | inl t ↦ inl (rw (Block.add, t) refl)
        | inr f ↦ inr (
          record { contents = k.contents ++ entry_bytes e; last_key = e.key },
          rw (Block.add, f) refl,
          omega (
            arith,
            length-append k.contents (entry_bytes e),
            length-entry_bytes e,
            stays m (needed e) k.contents h f,
          ),
        )
      ]

abbrev limit : ℕ → ℕ
limit m = max block_size m

add-limit :
    (m : ℕ) (k : BlockBuilder) (e : BlockEntry)
    → needed e ≤ m
    → length k.contents ≤ limit m
    → length (Block.add k e).0.contents ≤ limit m
add-limit m k e small h = elim (add-cases m k e small) [
  | inl q ↦ omega (arith, h, ap (λ r. length r.0.contents) q)
  | inr (j, q, l) ↦ omega (arith, l, ap (λ r. length r.0.contents) q)
]

module _ {Filter : Type 0} (m : ℕ) where
  seal-Bounded :
      (b : SsTableBuilder Filter) → Bounded (limit m) b → Bounded (limit m) (seal_block b)
  unfolding seal_block
  seal-Bounded b h = elim (Bool-cases (Block.is_empty b.current_block.contents)) [
    | inl t ↦ rw (seal_block, t) (record { sealed = h.sealed; current = omega arith })
    | inr f ↦
        rw (seal_block, f)
          (record {
            sealed =
                All-append (Fits (limit m) (length (b.data_buf ++ b.current_block.contents)))
                  b.blocks _
                  (All-Fits (limit m) (length b.data_buf) _ b.blocks
                    (omega (arith, length-append b.data_buf b.current_block.contents)) h.sealed)
                  (
                    (
                      omega (arith, h.current),
                      omega (arith, length-append b.data_buf b.current_block.contents),
                    ),
                    tt,
                  );
            current = omega arith;
          })
  ]

  retry-Bounded :
      (b : SsTableBuilder Filter) (e : BlockEntry)
      → needed e ≤ m
      → Bounded (limit m) b
      → Bounded (limit m) (retry b e (Block.add b.current_block e))
  retry-Bounded b e small h = elim (add-cases m b.current_block e small) [
    | inr (k, q, l) ↦ rw q (record { sealed = h.sealed; current = l })
    | inl q ↦
        let s = seal-Bounded b h in
        rw q (record {
          sealed = s.sealed;
          current = add-limit m (seal_block b).current_block e small s.current;
        })
  ]

module _ {Filter : Type 0} (lib : Bloom.Lib Filter) (m : ℕ) where
  add_rows-Bounded :
      (rows : List Row) (b : SsTableBuilder Filter)
      → All (λ e. needed e ≤ m) (row_entries rows)
      → Bounded (limit m) b
      → Bounded (limit m) (add_rows lib b rows)
  unfolding add_rows row_entries add
  add_rows-Bounded [] b h k = k
  add_rows-Bounded (r ∷ rows) b (small, h) k =
      add_rows-Bounded rows (add lib b r.key r.seq r.value) h (
        retry-Bounded m _ (entry_of r.key r.seq r.value) small
          (record { sealed = k.sealed; current = k.current }))

  -- Build a table of rows that take at most `m` bytes each, in any order. Each block that the index lists
  -- has at most as many bytes as the block size or `m`, whichever is greater, and lies inside the data.
  pub add_rows-Fits :
      (n : ℕ) (rows : List Row)
      → All (λ e. needed e ≤ m) (row_entries rows)
      → All
          (Fits
            (max block_size m)
            (length (seal_block (add_rows lib (Builder.new lib n) rows)).data_buf))
          (seal_block (add_rows lib (Builder.new lib n) rows)).blocks
  unfolding Builder.new
  add_rows-Fits n rows h =
      (seal-Bounded m (add_rows lib (Builder.new lib n) rows) (
        add_rows-Bounded rows (Builder.new lib n) h
          (record { sealed = tt; current = omega arith }))).sealed
