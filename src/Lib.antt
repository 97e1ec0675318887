-- ===== src/Lib.antt =====
-- The cache of cache/: an in-memory store of keys with deadlines, spread over shards, that writes each
-- set and delete to a log and rebuilds itself from the segments of the log when it is opened.
--
-- A client calls a method of `Store`. A read takes the lock of the key's shard and is answered there.
-- A write is checked, turned into a request and sent to the one writer, which appends the records of a
-- batch to the open segment with one call, applies them to the shards and answers the requests. The
-- first failure of the log is latched, and all writes behind it get it. A snapshot is a file with the
-- entries of the shards, each shard seen at a sequence number of its own. When a store is opened,
-- `recoverLog` loads the newest snapshot and replays the segments behind it, each by `recoverSegment`.
--
-- Which file is about which code:
--   Prelude, Prelude/*   numbers, lists and machine integers that the other files share
--   Wire                 encoding/binary.LittleEndian and io.ReadFull on lists of bytes
--   Errors               the errors that the code returns, as values, and the monad of results
--   Shard                cache/entries.go and `entry`, `shard`, `counters` of cache/store.go: one shard
--                        under its lock. `remove_entry_locked` is removeEntryLocked, and so on
--     Shard/Operations   getInto, applySet, applyDelete, evictToCapacityLocked, reclaimExpiredLocked,
--                        sweepShard
--     Shard/*            proofs: Recency on the list, Validity and Operate on the invariant, Evict on
--                        eviction, Visible, Written, Reads and Session on what a client sees
--     Shard/Links        the pointers of removeEntryLocked and markRecentLocked; Threads, Updates and Steps
--                        on the list that they thread
--   Store                cache/store.go: hashing to shards, Set, SetTTL, Delete and Sync up to the
--                        request, latch, Err; enforceRecoveredState and runSweep of cache/entries.go
--     Store/*            Dispatch on one shard of the store, Schedule on sequences of critical sections,
--                        Peek on what stands under a key in the store
--   Options              cache/options.go and the checks of Open; Power on powers of two
--   Record               recordSizeFor and appendRecord of cache/wal.go; Layout on the bytes
--   Segment              recoverSegment of cache/recovery.go
--     Segment/*          Replay on one record, Log on a written log, TornTail on a log that is cut off
--                        anywhere, Whole on a log that is not, Bounds on arbitrary bytes, Requests on
--                        what the methods of the store submit to the log, History on what a log
--                        leaves under a key, Gap on a record with the wrong number, Crc a checksum to
--                        run the model with
--   Writer               drainWrites, writeBatch, rollSegment and respondAll of cache/wal.go, and what
--                        runWriter does with a set or a delete up to the control request
--     Writer/*           Progress says what a run of the loop has done; Steps, Chunk and Answers prove
--                        it, Drain is about the channel
--   Names                segmentName of cache/wal.go, snapshotName of cache/snapshot.go and
--                        parseSequenceFilename of cache/recovery.go; RoundTrip on reading names back
--   Directory            listSegments of cache/recovery.go, listSnapshots, removeOtherSnapshots and
--                        deleteSegmentsBefore of cache/snapshot.go, removeTemporaryFiles of
--                        cache/store.go; Listing, Cleanup, Leftovers and Pruning on what they return
--                        and remove
--   Snapshot             writeSnapshotAt, encodeSnapshotEntry and writeFull of cache/snapshot.go
--     Snapshot/Load      loadSnapshot of cache/snapshot.go and newSnapshotState of cache/recovery.go
--     Snapshot/*         Layout on the bytes of an entry, Written on the file, Loaded and Contents on
--                        the loading of it, Restored on both together
--   Recovery             recoverLog of cache/recovery.go
--     Recovery/*         Chain on a log in several segments, Start on the segment to start with,
--                        Durable on a directory without a snapshot, Seen and Resumed on one with a
--                        snapshot, Gaps on a hole in the log with records behind it
--     Recovery/Compaction  recoverDurableImage; Compacted on a directory without a snapshot, Extended
--                        on one with a snapshot
--   Durability           Writer and Recovery together: Segments on the files that the writer leaves,
--                        Left and Rounds on a batch, Reopened on the recovery behind it
--   */Runs               runs at concrete inputs
--
-- Bytes are natural numbers, byte strings and Go strings lists of them. An unsigned word is a natural
-- number with its wrap-around written out, `atomic.Int64` its 64-bit pattern, and times and deadlines
-- are integers. `int` has 64 bits, which also fixes `entryOverhead` at 72. `shard.recency` holds the
-- entries of the list that `recent` and `next` thread, most recent first, and the map `entries` finds a
-- key in it. Shard/Links has the pointers themselves, where the key of an entry stands for a pointer to
-- it. A critical section is one step; the schedule is a list of them.
--
-- Arguments of the model are what is not code of this repository: the checksum (`crc32.Checksum`, of
-- which the proofs use that it has 32 bits), the clock at each place that reads it, the order of a range
-- over a map, the number of processors, and which calls of the file system fail and how.
--
-- Fuel: a round of the eviction loop removes an entry, so the number of entries and one is enough; a
-- round of `recoverSegment` reads at least 27 bytes, so the size of the file and one is enough, and
-- `loadSnapshot` reads at least 30 bytes for an entry; `writeFull` ends when nothing is written or
-- after as many writes as bytes; a round of `writeBatch` writes at least one request, so the number of
-- requests is enough. Without enough fuel the models return `none` or set `panicked`.
--
-- Not modelled: the goroutines of the writer, the sweep and the snapshots, and how they start, install
-- and finish one (the rest of cache/snapshot.go), `createSegment` beyond whether it fails before or
-- after its rename, Open and Close beyond the checks of the options, the command line
-- (cache/cmd/cached/main.go), and the system calls of the lock and of the directory sync.
pub mod Prelude
pub mod Wire
pub mod Errors
pub mod Shard
pub mod Record
pub mod Store
pub mod Options
pub mod Segment
pub mod Writer
pub mod Names
pub mod Directory
pub mod Snapshot
pub mod Recovery
pub mod Durability
