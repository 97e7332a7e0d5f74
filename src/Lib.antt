-- ===== src/Lib.antt =====
-- A verification library for the storage engine of this repository: crates/memtable, crates/wal,
-- crates/sstable, crates/lsm, crates/sql and crates/ffi.
--
-- The program. A write goes to the write-ahead log and then to the memtable; a memtable over its
-- size threshold is frozen and kept in memory. Tables on disk are listed by level in a manifest. A
-- read goes through the active memtable, the frozen ones (newest first), the tables of level 0 and
-- those below, and takes the first value it finds. Opening a directory loads the manifest and
-- replays the log into a fresh memtable. Sequence numbers come from one global counter, and a read
-- sees the versions up to its snapshot of it; the registry of the app keeps it for all its engines. A compaction merges the tables of level 0 with those of
-- level 1 that overlap into a new table. The SQL layer keeps each expense as a row of the engine under
-- the key `expense:` and its identifier: INSERT is a put, SELECT a get or a scan of that prefix with
-- WHERE, GROUP BY, ORDER BY and LIMIT behind it. The app calls it by handles of a registry of engines.
--
-- The files and the code they model.
--   Memtable                entry.rs, memtable.rs of crates/memtable/src: put, delete, get, freeze,
--                           the size counter with its wrap-around
--   Memtable/Lookup, Size, Runs   lookups after writes; the size counter; runs of operations
--   Wal                     record.rs, writer.rs, reader.rs of crates/wal/src: encode, decode, append,
--                           next, truncate_after; a file is the list of its bytes
--   Wal/Record, Steps, Reader, Torn, Stuck   the record's round trip; whole, torn and damaged logs
--   Wal/Fixed               a library of headers that meets the laws assumed of bincode
--   Sstable/Block           crates/sstable/src/block.rs: block builder and iterator
--   Sstable/Bloom           crates/sstable/src/bloom.rs
--   Sstable/Footer          crates/sstable/src/footer.rs
--   Sstable/Builder         crates/sstable/src/builder.rs: a finished table is its file's bytes
--   Sstable/Reader          crates/sstable/src/reader.rs: open, get, find_block, iter
--   Sstable/Reader/Drain, Ends   the iteration to its end; the loops on any bytes
--   Sstable/Table           a table from its builder to its reader: sorted entries, blocks and their
--                           index, the builder's invariant, the file's parts, the lookup, the
--                           iteration, the size of blocks
--   Sstable/Error           the errors of crates/sstable/src/lib.rs; a fault is an error or a panic
--   Lsm/Mvcc                crates/lsm/src/mvcc.rs: the counter, passed explicitly
--   Lsm/Manifest            crates/lsm/src/manifest.rs
--   Lsm/Levels              crates/lsm/src/levels.rs, and the interface `Tables` through which the
--                           engine sees a table
--   Lsm/Tables              that interface filled by the readers of crates/sstable
--   Lsm/Flush               crates/lsm/src/flush.rs: a frozen memtable written as a table
--   Lsm/Engine              crates/lsm/src/engine.rs: open, put, delete, get, get_at, scan_prefix,
--                           maybe_freeze; the mutex makes a method one step
--   Lsm/Engine/Layers, Recovery, Writes, Reads, Overlay, Scan, ScanTables, Crash, Poison   the newest
--                           version of a key; the replay of a log; what a write does; what a read
--                           returns; the layers of a scan, also over two tables; a crash and the
--                           next open; the write with an empty key
--   Base                    tests on numbers, lists over the native numbers, results, the order of
--                           byte strings, the ordered map of BTreeMap, little-endian words,
--                           membership, signed integers
--   Lsm/Compaction          crates/lsm/src/compaction.rs: the merge of level 0 with the tables of level 1
--                           that overlap, the new manifest and levels
--   Lsm/Compaction/State, Merge, Sources, Install, Run, Built, Lost, Heap, Samples   a round of the
--                           merge; its loop; the whole merge; the lists of tables; a whole compaction;
--                           one of tables that were built from rows; what its range leaves out; a heap
--                           and tables for the tests
--   Sql/Ast, Sql            ast.rs, lib.rs of crates/sql/src: statements, errors
--   Sql/Row, Eval, Groups, Sorting, Executor   crates/sql/src/executor.rs: the row and its fields; the
--                           WHERE clause; GROUP BY; ORDER BY; INSERT and SELECT over Lsm/Engine
--   Sql/Parser              crates/sql/src/parser.rs over the combinators of nom
--   Sql/Parser/Lawful, Words, Values, Laws, Comparison, ById, Simple   the laws of nom; keywords, names
--                           and lists; values; quoted texts; the SELECT of one row; an instance of nom
--   Ffi, Ffi/Api            lib.rs, api.rs of crates/ffi/src: the registry of handles and the app's calls;
--                           Handles, their life; Calls, what a call leaves to the others; InsertText, the parse of the text of
--                           an insertion; RoundTrip, an insertion and the query for it
--   Sql/Fixed               numbers, a codec, a map order and a sort that meet the laws, for the tests
--
-- Parameters, for code that is not in the repository: bincode's encoding of the record header and
-- crc32fast (Wal.Lib, laws Wal.IsLawful), the bloomfilter crate (Bloom.Lib, laws Bloom.IsLawful, which
-- leave the hash keys of a new filter open, so a reader's filter may know other keys),
-- serde_json (Json, no law), the standard library's BinaryHeap (MaxHeap, laws
-- Lsm.Compaction.IsLawful: any entry that comes before all others may be popped), bincode's encoding of
-- a row (Sql.Row.Codec, law IsFaithful), f64 (Sql.Ast.Floats, law Sorting.Laws.IsOrdered), the order of a
-- HashMap's values and the slices' sort_by (Sql.Sorting.Std, laws Groups.IsValues and
-- Sorting.IsStableSort), nom's combinators (Sql.Parser.Nom, laws
-- Sql.Parser.Lawful.IsLawful), the text of a number (display, with what nom reads back of it in
-- Sql.Parser.Values.IsShown), the bytes of the tables' files by path (read_file of Lsm.Tables).
--
-- Loops. The loops over the log, a block and the index run on fuel; `none` then says that it ran out.
-- The log's loops get the length of the file plus one, and the theorems on whole logs include that
-- this is enough. A block's and the index's loops get their length plus one, and the
-- iteration over a table the length of its file plus one, which is enough for any bytes
-- (Sstable/Reader/Ends). The merge of a compaction gets the number of all entries plus one, which
-- is enough. `truncate_after` takes its fuel as an argument.
--
-- Not modelled: file handles, fsync and rename failures, threads inside a method, the tokio task of a
-- compaction, the files that two engines of one directory share, frb_generated.rs of crates/ffi/src
-- and flutter_app.
pub mod Base
pub mod Memtable
pub mod Wal
pub mod Sstable
pub mod Lsm
pub mod Sql
pub mod Ffi
