-- ===== src/Lib.antt =====
-- KanbuDB: the storage engine of an embedded database, in C.
--
-- The parts and how they interact. A write goes to the write-ahead log and to the active memtable;
-- a full memtable becomes the one being flushed, and its entries go to the B+tree. A read looks into
-- the active memtable, then into the one being flushed, then into the B+tree. At a start the log
-- is replayed through a callback.
--
-- - Status: the return codes of src/util/macros.h. Prelude: the helpers that all parts share, and
--   little-endian integers in byte strings.
-- - Key: `key_cmp`, which src/storage/lsm.c and src/storage/btree.c both define. Key/Order: its order.
-- - Wal: src/storage/wal.c on its stdio path. Wal/Entry: `wal_serialize`, and the reads of one entry.
--   Wal/Log: the state `kanbudb_wal` and wal_create, wal_flush_buf, wal_append, wal_sync,
--   wal_last_seq, wal_truncate and wal_destroy. Wal/Replay: wal_replay. The stream is the list of its
--   bytes, with the length that has been through fflush; the buffer is the list of its first
--   `buf_len` bytes. What `fwrite` writes is a parameter. Wal/Parse, Wal/Contents, Wal/Append and Wal/Recovery: the
--   proofs.
-- - WalMmap: wal_mmap_append and wal_mmap_read_entry of src/storage/wal_mmap.c. WalMmap/Reads: the
--   proof.
-- - SharedMeta: src/storage/shared_meta.c, over the outcomes of open, write and rename.
--   SharedMeta/Atomic: the proofs.
-- - Memtable: memtable_create to memtable_iterate of src/storage/lsm.c, on the lowest lane of the skip
--   list. The level that `random_level` draws and the success of an allocation are parameters.
--   Memtable/Order, Memtable/Lookup: the proofs.
-- - Lsm: `kanbudb_lsm` and lsm_create to lsm_destroy_flushing of src/storage/lsm.c. Lsm/View: the
--   proofs.
-- - Btree: src/storage/btree.c. A node is a type by its height, since all leaves of
--   the code's tree stand at one depth. Btree/Laws: what each level promises. Btree/Leaf,
--   Btree/LeafSplit and Btree/LeafReads: the proofs for leaves. Btree/Inner, Btree/InnerInsert and
--   Btree/InnerDelete: from one level to the next. Btree/Tree, Btree/Build, Btree/Lost, Btree/Absent:
--   the whole tree. Btree/Cursor: btree_cursor_create, btree_cursor_seek and
--   btree_cursor_next; Btree/Cursor/Seek: the proof.
-- - Bloom: src/util/bloom.c, on 64-bit and 32-bit words that wrap; `optimal_k`, which computes in
--   floating point, is a parameter. Bloom/Members, Bloom/Store: the proofs.
-- - Compaction: of src/storage/compaction.c the order of entries, the loop of
--   compaction_merge_to_level over the sorted entries, and the choice of a level; Compaction/Files:
--   compaction_merge_to_level. Compaction/Merge, Compaction/Inputs, Compaction/Levels: the proofs.
-- - Arena: src/util/arena.c, a pointer being a block's number and an offset. Arena/Regions: the proofs.
-- - Fst: src/util/fst.c but for its searches by prefix and by edit distance, and the index of
--   src/fts/index.c. Fst/Lookup: the proof.
-- - Sstable: the writer of src/storage/sstable.c, and Sstable/Reader: its reader, over the bytes of the
--   file. Sstable/Data, Sstable/Index, Sstable/Open and Sstable/Scan: the proofs on what is written and
--   opened. Sstable/Filter, Sstable/LowerBound, Sstable/Rows, Sstable/Lookup, Sstable/Get,
--   Sstable/Point: those on the point lookup.
-- - Db: of src/core/db.c the calls db_put, db_get and db_delete, db_flush_memtable and its callbacks, for
--   one process; Db/Open: db_open on what a disk holds. Db/Load, Db/Flush, Db/Reads, Db/Calls, Db/Durable: the
--   proofs.
-- - Readers: db_reader_refresh of src/core/db.c, and the runs of a writer and a reader.
--   Readers/CatchUp: the proof.
-- - Shutdown: the locks of compact_worker and of db_close of src/core/db.c, up to its pthread_join.
--   Shutdown/Joins: the proof.
-- - RowFormat: src/query/row_format.c. RowFormat/RoundTrip: the proof.
-- - Query: of src/query/query_builder.c the builder and the conditions; Query/Exec: the scan of qb_exec
--   and its limit; Query/Join: its join; Query/Sort: its sort, and qb_exec; Query/Results: the result set. Query/Laws, Query/Rows, Query/Complete, Query/Found, Query/Answers,
--   Query/Join/Rows, Query/Sort/Order, Query/Sort/Numbers, Query/Sort/Whole and Query/Results/Walk: the proofs.
-- - PageCache: src/util/page_cache.c. PageCache/Reads, PageCache/Chains, PageCache/Bound: the proofs.
-- - Tokenizer: src/fts/tokenizer.c. Tokenizer/Bounds: the proofs.
-- - Tests: the theorems at concrete inputs.
--
-- Bounds and fuel. Sequence numbers, the words of the Bloom filter, the sizes of the arena and the
-- counts that the code keeps in unsigned words wrap as in the code. Other sizes are natural numbers,
-- which do not wrap. The loop of wal_replay runs on fuel, one more than the number of bytes behind
-- the header; every entry takes at least 33 bytes, so the fuel is enough. The binary search of
-- btree_cursor_seek runs on one more than the number of items, and each round drops one; that of
-- index_lower_bound likewise. The loop
-- of db_reader_refresh runs on one more than the bytes of the log, of which each entry takes 33. The
-- loop of tokenizer_tokenize runs on one more than the bytes of the text, of which each round takes some.
--
-- Not modelled. io_uring, a build option; the upper lanes of the skip list, which only shorten a
-- search; `malloc` failures but for the nodes of a memtable and the blocks of the arena; lsm_destroy
-- and the other functions that only free; the tests for null arguments, since a value of the model
-- is never null; the scan of a directory in src/storage/compaction.c, and
-- compaction_run_level, which calls it. Of src/core/db.c all but the
-- calls named above, so the system table, db_create_table and the calls of full-text and vector
-- search; the other files of src/fts, of src/storage and of src/util; and the
-- floating-point code of src/vector and src/hybrid. dist is generated, bindings are glue.
pub mod Prelude
pub mod Status
pub mod Key
pub mod Wal
pub mod WalMmap
pub mod SharedMeta
pub mod Memtable
pub mod Lsm
pub mod Btree
pub mod Bloom
pub mod Compaction
pub mod Arena
pub mod Fst
pub mod Sstable
pub mod Db
pub mod RowFormat
pub mod Query
pub mod Readers
pub mod Shutdown
pub mod PageCache
pub mod Tokenizer
mod Tests
