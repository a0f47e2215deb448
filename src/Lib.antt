-- ===== src/Lib.antt =====
-- AscentDB, a persistent key-value engine: an LSM tree in Go.
--
-- A write goes to the write-ahead log (internal/wal) and into the memtable (internal/memtable); a
-- full memtable is flushed into a table file (internal/sstable), and internal/meta keeps the list of
-- the tables in a manifest. internal/engine ties these together. The modules here:
--
-- - Bytes: what the program uses of encoding/binary, bytes, hash/crc32 and hash/fnv. A byte slice is
--   a list of numbers. Filling a buffer (`binary.LittleEndian.PutUint32(buf[off:], x); off += 4`) is
--   a step on a `Cursor`, reading one is a `Read`; a slice index out of range is `panic`.
-- - Record: internal/record. `compare` is InternalKey.Compare; encode_record_into, decode_record and
--   their like are the codec functions; sizes are uint32 and wrap.
-- - Sstable: internal/sstable. Format, Encode, Decode and RoundTrip are footer.go, index.go and the
--   codec of filter.go; Filter is the Bloom filter; Block is block.go; Writer is writer.go, with the
--   file as the list of its bytes; Search is sort.Search and Reader is Get of reader.go on the bytes
--   of the file, in Reader.Cached with the block cache. Cache is block_cache.go, an LRU list with
--   its map; Open is readAt and Open of reader.go; Iterator is iterator.go.
-- - Wal: internal/wal. Encode is encodeRecords, Replay is Replay over the bytes of the file, with the
--   callback as a function that changes a state and may report an error. Commit is submit in batch
--   mode, the committer and Close as steps of goroutines that interleave.
-- - Meta: internal/meta. Encode and Decode are table_meta.go and encodeVersionEdit, Uvarint is the
--   variable-width integer of encoding/binary, Versions is apply, with Struck, Replay is replay and
--   removeFromLevel over the bytes of the manifest, with Items and Recovery for what it reads;
--   Overlap is overlap.go, with Apart.
-- - Memtable: internal/memtable. The nodes of the skip list stand in a heap, a function from addresses;
--   the head is 0, and nil is `none`. What randomLevel draws is an argument. Nodes, Search, Link,
--   Splice, Relink, Fresh and Ordered carry the proofs for skiplist.go, Invariant and Insert join
--   them, and Level draws the level; Table is memtable.go and iterator.go, with Permuted, History and
--   Iterate for what they do.
-- - Merge: internal/iterator_heap.go and internal/compaction. An iterator is the list of the records
--   that it has still to visit, and heap.Pop takes out an item than which none is less. Drain is the
--   loop over a MergeIterator.
-- - Engine: internal/engine. Read is get of read.go, with Answers, Levels and Lookup for its
--   proof; Write is write.go and rotate, with Rotated and Written; Flush is flush, with Flushed;
--   Recover is the loop of recover.go over the bytes of the logs. Each operation is one step on
--   the record Engine, and file operations succeed. The reader of a table and its Get are an
--   argument of Read. Snapshots is the list of open snapshots, and Isolation a snapshot's Get.
--   Scan is iterator.go with its client's loop, with Groups, Reading, Shown and Client for what a
--   scan shows; Scan.Sources is scan of read.go, with Thinned, Outside, Gathered and Whole for it.
--   Compact is writeCompactionOutput of compactor.go, with Survivors for what it keeps, Sizes,
--   Output and Loop for its tables, and Reads for the whole. Schedule is the rest of compactor.go:
--   which level is compacted and which tables are picked, with Pick, Sizes, Parted, Loaded and
--   Picked for the inputs and Next for the next compaction, and compactLevel, with Removed,
--   Edited, Levels and Install for what it does to the levels.
-- - Batch and Config: internal/batch and internal/config.
-- - Tests: runs on concrete inputs.
--
-- Bounds: sequence numbers and offsets are uint64 and lengths uint32; the `Is...` records state the
-- ranges. Loops over input recur on the list or on a count that was read; Replay recurs on fuel one
-- above the length of the file, and each round reads four bytes at least (of the manifest, one).
-- sort.Search recurs on fuel for the length of its range, which each round at least halves. A walk in
-- the skip list and the loops over an iterator recur on fuel above the number of nodes, of which each
-- round passes one; the loops over a merge, of a scan and of a compaction on fuel above the number
-- of records.
--
-- Not modelled: failures of the file system, the locks, and the floating-point sizing in NewFilter,
-- whose two results are arguments of new_filter; the manifest's files (Open, newManifest), of which
-- only the bytes are taken; the interval syncer of the log; and of internal/engine Seek and Release
-- of a scan, New, Sync and Close, the wait of a write for room in level 0, the cache of readers, and
-- the reference counts of its memtables. A compaction is one step, with no write or flush in between.
pub mod Prelude
pub mod Bytes
pub mod Record
pub mod Sstable
pub mod Wal
pub mod Meta
pub mod Memtable
pub mod Merge
pub mod Engine
pub mod Config
pub mod Batch
mod Tests
