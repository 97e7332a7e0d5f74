-- ===== src/Lsm/Tables.antt =====
-- The engine's interface `Tables`, crates/lsm/src/levels.rs, filled by the readers of crates/sstable. A
-- file's bytes come from the parameter `read_file`, by its path.
use exepense_db.Base.{◌+◌, Option, none, some, List, [], length, Result, err, ◌>>=◌}
use exepense_db.Base.Order.{Bytes}
use exepense_db.Sstable.Error.{Fault, panics}
use exepense_db.Sstable.Bloom
use exepense_db.Sstable.Block.{BlockEntry}
use exepense_db.Sstable.Reader
use exepense_db.Sstable.Reader.{SsTableReader, open_table}
use exepense_db.Sstable.Reader.Drain.{drain}
use exepense_db.Lsm.Levels.{Tables}

-- The rounds never run out.
abbrev pub ended : Option (Result Fault (Option Bytes)) → Result Fault (Option Bytes)
ended none = err panics
ended (some r) = r

abbrev pub drained : Option (List BlockEntry × Option Fault) → List BlockEntry × Option Fault
drained none = ([], some panics)
drained (some r) = r

abbrev pub file_tables :
    {Filter : Type 0}
    → Bloom.Lib Filter
    → (Bytes → Result Fault Bytes)
    → Tables (SsTableReader Filter)
file_tables lib read_file = record {
  open_path = λ path. read_file path >>= open_table lib;
  get = λ r key read_seq. ended (Reader.get lib r key read_seq);
  entries = λ r. drained (drain (length r.mmap + 1) (Reader.iter r));
}
