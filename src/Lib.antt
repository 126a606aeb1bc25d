-- ===== src/Lib.antt =====
-- fusio-manifest, a key-value store over object storage (fusio-manifest/src): a HEAD object that is
-- replaced by compare-and-swap, immutable numbered segments of put and delete records, checkpoints that
-- fold segments, leases that protect what sessions still read, and a compactor with garbage collection.
--
-- How the parts stand together. A write session takes a snapshot of HEAD and a lease, stages records,
-- and commits: it writes a segment and publishes it by replacing HEAD at the tag of its snapshot. A read
-- session reads the checkpoint and the segments of its snapshot. Segments that were written but not
-- published are adopted by recover_orphans. The compactor folds a snapshot into a checkpoint, publishes
-- it in HEAD and deletes what no lease needs, at once or by a stored plan.
--
-- Base          names of the library, lists, Boolean tests, u64 arithmetic, byte strings
-- Effect        Result<T, E>, `?` and `match` on results, for calls that change a state
-- Manifest      the crate fusio-manifest:
--   Types         types.rs, snapshot.rs and the data of head.rs, manifest.rs, checkpoint.rs, lease/mod.rs
--   Backoff       backoff.rs: the classes of errors
--   Table         HashMap, as an association list
--   Stores        the traits HeadStore, SegmentIo, CheckpointStore and LeaseStore, the timer, serde_json
--   Heads         what the HEAD store promises its clients
--   Session       session.rs. Reads: fold_into_map, base_scan, base_scan_range and base_get;
--                 History: what a snapshot's checkpoint and segments say of the keys;
--                 Writes: put, delete, get_local, scan_local, heartbeat, end and commit
--   Open          manifest.rs: snapshot, session_at, session_read, session_write, get_latest, scan_latest
--   Recover       manifest.rs: recover_orphans
--   Plan          gc.rs: the plan and the trait of its store; retention.rs
--   Compactor     compactor.rs. Retention: collect_checkpoint_retention_state, checkpoints_to_delete and
--                 segments_to_delete; Compact: snapshot and compact_once; Gc: compact_and_gc, run_once,
--                 gc_compute, gc_apply and gc_delete_and_reset
--   HeadStore     head.rs: HeadStoreImpl over the FsCas interface
--   InMemory      the in-memory file system as such a store
--   Files         the file system that the stores ask for (fusio/src/fs/mod.rs), and their errors
--   Segments      segment.rs: SegmentStoreImpl. Keys: names and numbers; Listing: list_from; Stored,
--                 Absent and Deletion: puts, reads and deletions over the in-memory file system
--   Checkpoints   checkpoint.rs: CheckpointId (Ids) and CheckpointStoreImpl; Stored: its
--                 round trip over the in-memory file system
--   Leases        lease/mod.rs: LeaseStoreImpl. Held: create and heartbeat; Active: list_active;
--                 Keeper: lease/keeper.rs
--   Cache         cache.rs: CachedSegmentStore; Checkpoints: CachedCheckpointStore. Coherent: what makes a
--                 cache right; Reading and Deletion: what reads and deletions keep
--   PlanStore     gc.rs: FsGcPlanStore; Atomic: its put
-- Decimal       decimal texts of u64 numbers, as std formats and parses them
-- Path          fusio/src/path: Path and PathPart. Segments: paths as lists of segments; Matching:
--               prefixes and children; Canonical: what parse answers
-- Memory        fusio/src/impls/mem/fs.rs: the in-memory file system, with files that outlive their
--               paths; Hex: the text of tags; Tags: the conditional put; Calls: what every call keeps;
--               Fresh: a put at a new path; Written: a file that is created and written
-- Buffered      fusio/src/impls/buffered.rs: BufWriter; Total: what was written in all. Reader:
--               BufReader, with fuel for its loop; Exact: what it reads
-- S3            fusio/src/impls/remotes/aws. Writer: writer.rs, multipart uploads; Service: what S3
--               promises of them; Parts, Uploading, Assembled: the object that they leave; File: writing
--               to an S3File (s3.rs)
-- Examples      a small world that implements the stores, the same with its segments as files (Filed),
--               and the theorems at concrete inputs
--
-- How the code is rendered. A Rust function that may fail and calls a store is a function of the state
-- of the world to a result and the new state; the stores are a record of such functions, so that any
-- store can fail at any call. A retry loop recurs on the list of delays that `build_backoff()` yields. A
-- loop over windows of a listing (list_from with 256 or 512 at a time) runs on fuel and answers `spent`
-- when it has none left: on a store at rest, more fuel than there are segments is enough, and where no
-- fuel is assumed `spent` is one of the results that the theorem speaks about. u64 sums that saturate in
-- Rust saturate here. Checkpoints, tags and keys of objects are byte strings.
--
-- A listing of objects, a stream in the code, is the list of its items, each a path or an error, taken
-- at once. Percent-encoding, serde_json and the blob cache are parameters.
--
-- Not modelled: moka's cache with its counters, spawning and dropping of the lease
-- keeper's task, messages of errors and logging; HTTP requests and their answers; the fusio crate's other
-- file systems, executors and remote clients.
-- Calls of other processes between two calls of the code are not modelled: HEAD changes only by the calls
-- of the world at hand, and a lost race is a conditional put that fails.
pub mod Base
pub mod Buffered
pub mod Decimal
pub mod Effect
pub mod Examples
pub mod Manifest
pub mod Memory
pub mod Path
pub mod S3
