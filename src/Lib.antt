-- ===== src/Lib.antt =====
-- Kevo, a log-structured key-value store: a model of its Go code, with proofs.
--
-- The program. An operation is appended to the write-ahead log (pkg/wal) and then put into an
-- in-memory table (pkg/memtable); tables are flushed to sorted files (pkg/sstable), which are
-- merged in the background (pkg/compaction). On start the log is replayed into fresh tables.
-- Iterators merge the tables and files (pkg/common/iterator), transactions buffer their writes
-- (pkg/transaction), and a replica applies the entries that a primary streams (pkg/replication).
--
-- The files.
--   Base.antt and Base/: numbers, lists, Boolean tests; little-endian numbers and CRC-32 as Go's
--     standard library has them (Base/Bytes); an offset into a slice and what lies behind it
--     (Base/Cursor); strings as byte lists
--     (Base/Strings).
--   Wal/Types, Wal/Exec, Wal/Device: constants, entries and errors of pkg/wal/wal.go; methods as
--     functions from a state to a result and a state, so that a method that fails keeps what it
--     has changed; the WAL struct over a device for the bufio.Writer and the file behind it.
--   Wal/Batch, Wal/Codec: pkg/wal/batch.go, and what DecodeBatch reads back.
--   Wal/Write, Wal/Log: the writing and syncing of pkg/wal/wal.go, and its exported methods
--     (Append is append, AppendBatch is append_batch, and so on) with Batch.Write (write_batch).
--   Wal/Parse, Wal/Reader, Wal/Replay: pkg/wal/reader.go.
--   Wal/Frames to Wal/Progress: proofs; Wal/Tests: runs on small inputs.
--   Replication/State: pkg/replication/state.go (SetState is set_state, and so on).
--   Replication/Protocol, Replication/History: the steps a replica may take, as a relation, and
--     the histories of its tracker; Replication/Tests: runs of it.
--   Bloom/Filter: pkg/bloom_filter/bloom_filter.go (Add is add, LoadBloomFilter is load, and so
--     on); a panic is the value none.
--   Bloom/Bits, Bloom/Membership, Bloom/Files: proofs; Bloom/Tests: runs of a small filter.
--   Locks/Deadlocks: pkg/locks/deadlocks.go (DetectDeadlockCycle is detect_deadlock_cycle) and
--     detectDeadlock of pkg/locks/locks.go (detect_deadlock) on the four maps that it uses.
--   Locks/Cycles, Locks/Victims: proofs; Locks/Tests: runs of the detection.
--   Locks/Maps, Locks/Table: the maps of pkg/locks/locks.go and its methods (AcquireLock is
--     acquire_lock, one attempt of it is attempt, RegisterTx is register_tx, and so on).
--   Locks/Consistency to Locks/TimeOut: proofs; Locks/TableTests: runs of the tables.
--   Common/Retry: pkg/common/retry/retry.go (RetryWithConfig is retry_with_config).
--   Common/Exhaustion: how its loop ends; Common/Tests: runs of it.
--   Common/Iterators: the interface of pkg/common/iterator/iterator.go, as a record of its methods,
--     and pkg/common/iterator/bounded/bounded.go over it (SeekToFirst is bounded_seek_to_first).
--   Common/Bounds: what the interface promises, and proofs; Common/BoundsTests: runs.
--   Common/Hierarchical: pkg/common/iterator/composite/hierarchical.go over the same interface
--     (findNextUniqueKey is find_next_unique_key, SeekToFirst is hierarchical_seek_to_first).
--   Common/Sources to Common/Merging: sources as lists of keys with values, the choice of the smallest
--     key and its newest value, and the walk; Common/MergeTests: runs.
--   Compaction/Tombstones: pkg/compaction/tombstone.go (ShouldKeepTombstone is
--     should_keep_tombstone); Compaction/Garbage: proofs; Compaction/Tests: runs.
--   Sstable/Footer: pkg/sstable/footer/footer.go (Encode is encode, Decode is decode); the hash of
--     the package xxhash is a parameter, of which only the width is used.
--   Sstable/FooterCodec: proofs; Sstable/Tests: runs with a sum for a hash.
--   Sstable/Block: pkg/sstable/block/block_builder.go and types.go (Add is add, Finish is finish).
--   Sstable/BlockReader, Sstable/BlockSeek: block_reader.go and block_iterator.go of the same package
--     (NewReader is new_reader, decodeNext is decode_next, Seek is block_seek, and so on).
--   Sstable/BlockCodec to Sstable/BlockReading: proofs on what is written and read again;
--     Sstable/BlockSkips: where Seek ends; Sstable/BlockTests: runs of small blocks.
--   Transaction/Buffer: the map of pkg/transaction/buffer.go and what reads and writes it (Put is
--     put, Get is get, and so on).
--   Transaction/BufferIterator: its iterator, as a source of Common/Choosing.
--   Transaction/Writes: proofs; Transaction/Tests: runs of a buffer.
--   Transaction/Lifecycle: pkg/transaction/manager.go, common.go and the parts of transaction.go that
--     begin and roll back (BeginTransaction is begin_transaction, rollbackLocked is rollback_locked);
--     Transaction/Commit: its Get, Put, Delete and Commit, and Operations of buffer.go. A transaction
--     asks a record of two methods for its storage, and the tables of Locks/Table for key locks.
--     These functions are whole calls, which nothing comes between. Transaction/Stages has Commit and
--     Rollback in their steps, with any calls and steps of others between them.
--   Transaction/Accounting to Transaction/Isolation: the read-write lock against the active
--     transactions, in whole calls; Transaction/Interleaving: the same in the steps;
--     Transaction/Wholes: the steps without a pause against the whole calls; Transaction/Batches,
--     Transaction/Atomicity: what Commit hands to the storage;
--     Transaction/RollingBack: the answers of Rollback; Transaction/Sorting: a sort for the runs of
--     Transaction/Sessions.
--   Memtable/SkipList, Memtable/Table, Memtable/Pool, Memtable/Recovery: the files skiplist.go,
--     memtable.go, mempool.go and recovery.go of pkg/memtable (Insert is insert, Find is find, Put
--     is put, RecoverFromWAL is recover_from_wal, and so on).
--   Memtable/Entries to Memtable/Lookup: proofs on the pointers of a skip list; Memtable/Newest to
--     Memtable/Writes: a list and a table as maps from keys to their newest entries;
--     Memtable/Iterator, Memtable/Walking: the iterator of skiplist.go and SeekToLast of
--     iterator_adapter.go, and what a walk shows;
--     Memtable/Pools, Memtable/PoolGet: histories of a pool; Memtable/Rebuilding,
--     Memtable/Durability: a recovery from the log; Memtable/Tests: runs.
--
-- How the code is read. A byte slice is a list of numbers; a slice whose nil value matters is an
-- optional list. A uint64 keeps its wrap-around; the byte counters of the log (int64) are taken
-- as unbounded, since no file reaches 2 ^ 63 bytes, and so are counters of entries read. A mutex
-- makes a method one step; but a Rollback does not hold tx.mu where it releases the key locks and its
-- callback runs, so it may come between the steps of a Commit of the same transaction, also between
-- its test of active and the assignment (Transaction/Stages has such runs). A key is never nil: a nil
-- one that a source of the hierarchical iterator shows would start its walk again. One Read of a file
-- fills its buffer where the file holds that many bytes. A device may fail at any call, after any number of bytes (its field
-- faults); theorems on success assume that it does not fail. The observers of the log are one
-- list of notices in the order in which they are sent. The path of a file in an error text is
-- left out, so the tests on the words "corrupt" and "invalid" see only the error itself. The
-- coins of the skip list are arguments, as are the jitter of the retry loop, what other clients do
-- while it sleeps, the order in which transactions act, their random ids, and the age of a table;
-- sort.Slice, sort.Search and xxhash.Sum64 are parameters. An attempt of AcquireLock by a Put or a Delete is one
-- step of a transaction, with the number of the attempts before it and whether the retry loop gives up
-- behind it. A node of the list is an
-- address, and none is a nil pointer that is followed.
--
-- Fuel. ReadEntry has one round for each byte of the input and one more; a round reads a header.
-- The loop over fragments has one round for each byte that remains and one more; a round writes
-- 32 KB. ReplayWALFile has one round for each byte of the file and one more; a round that does
-- not end the replay takes a byte at least. A loop without fuel gives the error stuck. detectDeadlock
-- has two rounds more than there are locked keys; a round takes a node that someone waits for. A
-- search of the skip list has one round more than there are nodes, the head among them; a round
-- moves to a later node. The retry loop has a round for each nanosecond of its total time and one
-- more; a round that is not the last sleeps for one at least. The hierarchical iterator has a round for
-- each pair that its sources hold and one more, for its loop and for a walk. Seek in a block has a
-- round for each restart point, which halves the rest; a walk through a block has one for each entry
-- and three more.
--
-- Not modelled: the opening, naming and reuse of log files, the registration of observers,
-- GetEntriesFrom, log retention, GetForUpdate and the iterators of a transaction, the index of an
-- SSTable, the rest of pkg/common, pkg/compaction and pkg/replication, and the other packages; input and output, generated code,
-- statistics and the command line are left aside.
pub mod Base
pub mod Bloom
pub mod Common
pub mod Compaction
pub mod Locks
pub mod Memtable
pub mod Replication
pub mod Sstable
pub mod Transaction
pub mod Wal
