-- ===== src/Lsm/Manifest.antt =====
-- crates/lsm/src/manifest.rs: the list of tables by level. The JSON encoding (serde_json) is the
-- parameter `Json`; the directory holds at most one manifest file.
use exepense_db.Base.{ℕ, Option, none, some, List, [], ◌∷◌, Result, ok, err}
use exepense_db.Base.Order.{Bytes}

pub record SstMeta : Type 0 where
  pub id : ℕ
  pub min_key : Bytes
  pub max_key : Bytes
  pub size_bytes : ℕ
  pub entry_count : ℕ
  pub min_seq : ℕ
  pub path : Bytes

pub record Manifest : Type 0 where
  pub format_version : ℕ
  pub next_seq : ℕ
  pub wal_flushed_seq : ℕ
  pub next_sst_id : ℕ
  pub levels : List (List SstMeta)

unfoldable pub new : Manifest
new = record {
  format_version = 1;
  next_seq = 1;
  wal_flushed_seq = 0;
  next_sst_id = 0;
  levels = [] ∷ [] ∷ [] ∷ [];
}

pub record Json : Type 0 where
  pub from_slice : Bytes → Option Manifest
  pub to_writer_pretty : Manifest → Option Bytes

pub data ManifestError : Type 0 where
  manifest json : ManifestError

-- `load`: `none` is a directory with no manifest file.
unfoldable pub load : Json → Option Bytes → Result ManifestError Manifest
unfolding new
load codec none = ok new
load codec (some bytes) = elim (codec.from_slice bytes) [ none ↦ err manifest | some m ↦ ok m ]

-- `save`: the manifest file after the rename.
unfoldable pub save : Json → Manifest → Result ManifestError Bytes
save codec m = elim (codec.to_writer_pretty m) [ none ↦ err json | some bytes ↦ ok bytes ]
