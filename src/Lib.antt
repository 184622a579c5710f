-- ===== src/Lib.antt =====
-- A verification library for memorylayer-storage: content-addressed object storage and a POSIX file
-- system over it, in Go.
--
-- The file system `mlfs` keeps its metadata in PostgreSQL (mlfs/internal/meta): every method takes a
-- lease on the scope of the inode, then runs one transaction behind a fence on the lease's generation.
-- File data lies in immutable slices of 64 MiB chunks; a file is a list of slice rows, newer over
-- older, and the data path (mlfs/internal/fileio) resolves the rows of a chunk on each read and logs
-- each slice in a write-ahead log (mlfs/internal/wal) before it commits it. `blobgw-s3` serves objects
-- by the S3 protocol, and `casstore` keeps snapshots behind a local cache.
--
-- - Meta/Errno: the error numbers, and which statements of a transaction the database server carries
--   out. The server is not part of the repository, so its answers are an argument of every call.
-- - Meta/Table: a keyed table of mlfs/internal/meta/schema.go and its statements.
-- - Meta/Locks: mlfs/internal/meta/locks.go. `flock`, `getlk`, `setlk` and the three clearing methods
--   stand for Flock, Getlk, Setlk, ClearAllLocks, ClearLocksForSID and ClearPlocks. Their transactions
--   are READ COMMITTED and lock no row that they read, so `flock_seen` and `setlk_seen` take the rows
--   that the SELECT saw; `flock` and `setlk` are the calls that no other transaction overlaps, and
--   Meta/Locks/Reach has any number of sessions that make such calls, one after the other.
-- - Meta/Ownership: ownership.go and fence.go (`acquire_or_resume`, `refresh`, `release_ownership`,
--   `check_fence`); Meta/Ownership/Owner is the lease cache of sqlowner.go, and Meta/Ownership/Cluster
--   any number of nodes with the writes that they commit.
-- - Meta/Slices: slices.go and Write of ops.go, on the tables `node` and `slice_ref`. Rows stand in
--   the order of their ids; the order in which the server yields the rows of a SELECT without ORDER BY
--   is an argument. Meta/Slices/Content says where a byte of a file is read from, and the
--   modules beside it what each operation does to that.
-- - Meta/Names: create, Unlink, Rmdir and Link of ops.go on the table `edge` and the nodes, and in
--   Meta/Names/Rename the two renames of rename.go; each is the transaction past its fence.
-- - Meta/Handles: open.go, and Unlink on the engine's maps of open and of sustained inodes.
-- - Meta/Scope: scopeOf of scope.go with its memo; the depth of an inode is fuel enough for the walk.
-- - Fileio/Resolve: `resolve` of mlfs/internal/fileio/fileio.go with its interval sets.
-- - Fileio/Chunks: the interface of mlfs/internal/chunkstore/chunkstore.go, as operations with laws.
-- - Fileio/Files: Write and Read of fileio.go, over a chunk store, the log and Meta/Slices, with
--   NewSlice of mlfs/internal/meta/engine.go. The fuel of their loops is the number of bytes to write
--   or to read, since each round takes one at least; what a round meets is an argument.
-- - Fileio/Replay: ReplayWAL of mlfs/internal/fileio/replay.go, on the records that the log returns.
-- - Diskcache: mlfs/internal/cache/cache.go. Diskcache itself has the files and the eviction,
--   Diskcache/Serving `write`, `read`, `read_at`, `remove` and `drain` for Write, Read, ReadAt, Remove
--   and the serial drainStaging, and `open_cache` for New; Diskcache/Batches `drain_batched` for
--   drainBatched, over any writer of batches. What the file system does is an argument of each call,
--   and sha256 a parameter with digests of 32 bytes. Diskcache/Layer is the cache as a chunk store, and
--   Diskcache/Stack the data path over it.
-- - Gc: Run of mlfs/internal/gc/gc.go up to the sweep of the blobs, over a slice store, with
--   LiveSliceIDsIn of mlfs/internal/meta/gc.go; the table that each query finds is an argument.
-- - Wal: records and frames of mlfs/internal/wal/wal.go; Wal/Log has the segments, Append, Replay,
--   Checkpoint and the recovery of load. A segment is known by the number in its name: segments of one
--   name share a file, a roll to a name that is there appends to it, and load goes by the order of the
--   names. Which files a checkpoint can remove is an argument. A loop over a file is recursion on the
--   number of its bytes, which is fuel enough since each round takes 53 of them. crc32 is a parameter of
--   32 bits.
-- - S3/Range and S3/Listing: parseRange of blobgw-s3/s3/range.go, and the loop of buildListResult in
--   list.go; S3/Text has the functions on strings that they call, with strings as lists of bytes.
-- - Casstore/Cache: the eviction index of casstore/snapshot/store_cache.go.
--
-- Words keep their width where the source's arithmetic can wrap: 64-bit lock ranges, 32-bit offsets in
-- a chunk, 64-bit sequence numbers. Not modelled: attributes and permissions in the metadata engine,
-- the batched reads and the upload loop of the disk cache, read-ahead, copies within files and hashes
-- of files, the sweep of blobs and compaction, and the gateways but for the two routines above;
-- network, kernel and file handling are I/O.
pub mod Prelude
pub mod Meta
pub mod Fileio
pub mod Diskcache
pub mod Gc
pub mod Wal
pub mod S3
pub mod Casstore
