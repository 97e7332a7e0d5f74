-- ===== src/Lsm/Levels.antt =====
-- crates/lsm/src/levels.rs: the levels of tables and their open readers. The engine sees a table
-- through the interface `Tables`.
use exepense_db.Base.{
  ℕ, ◌*◌, Option, none, some, List, [], ◌∷◌, Result, ok, err, length, ◌==◌, if◌then◌else◌, ◌>>=◌,
}
use exepense_db.Base.Order.{Bytes}
use exepense_db.Sstable.Error.{Fault, fails, panics}
use exepense_db.Sstable.Block.{BlockEntry}
use exepense_db.Lsm.Manifest.{SstMeta}

-- What the engine uses of `SsTableReader`: opening a path, point lookups, and the entries that the
-- iterator returns before its first error, with that error.
pub record Tables (Reader : Type 0) : Type 0 where
  pub open_path : Bytes → Result Fault Reader
  pub get : Reader → Bytes → ℕ → Result Fault (Option Bytes)
  pub entries : Reader → List BlockEntry × Option Fault

abbrev pub level_size_budget : List ℕ
level_size_budget = 64 * 1024 * 1024 ∷ 256 * 1024 * 1024 ∷ 1024 * 1024 * 1024 ∷ []

abbrev pub l0_compaction_trigger : ℕ
l0_compaction_trigger = 4

abbrev pub l0_stall_trigger : ℕ
l0_stall_trigger = 8

-- `HashMap<u64, Arc<SsTableReader>>`, the last insertion first.
abbrev pub Readers : Type 0 → Type 0
Readers Reader = List (ℕ × Reader)

unfoldable pub reader_of {ℓ} : {Reader : Type ℓ} → ℕ → List (ℕ × Reader) → Option Reader
reader_of id [] = none
reader_of id ((j, r) ∷ rs) = if j == id then some r else reader_of id rs

pub record LevelState (Reader : Type 0) : Type 0 where
  pub levels : List (List SstMeta)
  pub readers : Readers Reader

module _ {Reader : Type 0} (t : Tables Reader) where
  -- `if let Ok(r) = SsTableReader::open(&meta.path)`: a table that does not open is left out.
  abbrev pub open_one :
      SstMeta → Readers Reader → Result Fault Reader → Result Fault (Readers Reader)
  open_one meta readers (ok r) = ok ((meta.id, r) ∷ readers)
  open_one meta readers (err (fails e)) = ok readers
  open_one meta readers (err panics) = err panics

  unfoldable pub open_level : List SstMeta → Readers Reader → Result Fault (Readers Reader)
  open_level [] readers = ok readers
  open_level (meta ∷ metas) readers =
      open_one meta readers (t.open_path meta.path) >>= open_level metas

  unfoldable pub open_levels : List (List SstMeta) → Readers Reader → Result Fault (Readers Reader)
  open_levels [] readers = ok readers
  open_levels (level ∷ rest) readers = open_level level readers >>= open_levels rest

  -- `LevelManager::new`
  unfoldable pub new : List (List SstMeta) → Result Fault (LevelState Reader)
  new levels = do
    readers ← open_levels levels []
    ok (record { levels = levels; readers = readers })

abbrev pub push_first : SstMeta → List (List SstMeta) → List (List SstMeta)
push_first meta [] = (meta ∷ []) ∷ []
push_first meta (l0 ∷ rest) = (meta ∷ l0) ∷ rest

abbrev pub first_length : List (List SstMeta) → ℕ
first_length [] = 0
first_length (l ∷ ls) = length l

module _ {Reader : Type 0} where
  unfoldable pub add_l0 : LevelState Reader → SstMeta → Reader → LevelState Reader
  add_l0 s meta reader = record {
    levels = push_first meta s.levels;
    readers = (meta.id, reader) ∷ s.readers;
  }

  unfoldable pub l0_count : LevelState Reader → ℕ
  l0_count s = first_length s.levels
