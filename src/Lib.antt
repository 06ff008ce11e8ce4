-- ===== src/Lib.antt =====
-- abixio: an S3-compatible object store in Rust. This library models the parts that carry its own logic
-- and proves what makes them correct.
--
-- A volume keeps small objects in a write-ahead log. The log appends needles (checksummed records) to
-- memory-mapped segment files, answers reads from them while an entry is pending, and deletes a segment
-- when nothing in it is pending any more. After a crash the log is rebuilt from the segment files. The
-- cluster agrees on members, placement and bucket settings through a replicated state machine. A request
-- is decided by the policy of its bucket, and objects expire by the lifecycle rules of theirs.
--
-- Which file models what:
--   Base                 shared names: lists, results, machine words, byte slices, UTF-8, and HashMap as an
--                        association list (Base/Keyed).
--   Storage              StorageError of src/storage/mod.rs.
--   Storage/Needle       src/storage/needle.rs: serialize_into, deserialize, read_header.
--   Storage/Segment      src/storage/segment.rs: ActiveSegment and SealedSegment; `open_segment` is
--                        SealedSegment::open, `sealed_slice` its slice, `active_slice` that of ActiveSegment.
--   Storage/Wal          src/storage/wal.rs: append is split into try_append, rotate_active and
--                        retry_append, mark_materialized_versioned into count_down and try_delete_segment;
--                        Storage/Wal/Recover holds Wal::open and recover_segment,
--                        Storage/Wal/Listing the queries.
--   Storage/Metadata     src/storage/metadata.rs: the metadata of objects.
--   Storage/Pathing      src/storage/pathing.rs: the names in Storage/Pathing, with PathBuf as the list of its
--                        components, and the directories in Storage/Pathing/Join.
--   Storage/Pool         src/storage/volume_pool.rs: ftt_to_ec, bucket_ec, resolve_ec, delete_object,
--                        make_bucket, set_ftt.
--   Storage/LocalVolume  src/storage/local_volume.rs: the file tier of delete_object.
--   Storage/Erasure      src/storage/erasure_encode.rs and erasure_decode.rs, over the interface ReedSolomon:
--                        split_data, write_block and the block loop in Storage/Erasure itself, the rest of
--                        encode_and_write in Storage/Erasure/Write, the reads in Storage/Erasure/Decode.
--                        split_data_into is `split_data`; verify_shard_checksum is that of bitrot.rs.
--   Storage/Cache        src/storage/write_cache.rs, over the interface ConcurrentMap for DashMap.
--   Cluster/Placement    src/cluster/placement.rs: the loops of plan are `place_rounds` and `place_round`.
--   Cluster/Topology     src/cluster/topology.rs: the loops of validate are `validate_nodes` and `validate_disks`.
--   Cluster/Manager      src/cluster/mod.rs: ClusterManager; Cluster/Manager/Names holds the identifiers and
--                        endpoints, Cluster/Manager/Steps the operations that change the state.
--   Heal                 src/heal: Heal/Mrf is the queue of mrf.rs, Heal/Drain mrf_drain_worker (one `worker_turn` is
--                        `receive`, heal_object and `finish`, which marks the entry as done), Heal/Scanner
--                        the scanner with run_scan_cycle, Heal/Worker heal_object.
--   Raft/Fsm             src/raft/fsm: Op::apply is `apply_op`, the machine's own apply is `apply`.
--   Policy/Glob          src/policy/glob.rs: the loop of match_inner is `walk`.
--   Policy/Eval          src/policy/eval.rs, and the data of src/policy/types.rs.
--   Policy/Parse         Policy::from_json of src/policy/types.rs, over the interface Json for serde_json.
--   Lifecycle            src/lifecycle/types.rs, filter.rs and evaluator.rs.
--
-- Conventions. A Rust string is the list of its UTF-8 bytes, as a byte slice is of its bytes. The glob
-- matcher goes by bytes, as in the source. Fields of fixed width keep their wrap-around (as_u8, as_u16, as_u32), and saturating sums are written with min. A function that can panic
-- returns Run or none. A mapped file is the list of its bytes. What system calls return, the time, the
-- hash xxh64, the msgpack codec, serde_json values and s3s rules are arguments of the definitions.
--
-- The count of a segment in the log is a number without a bound: it grows once for each needle of the segment,
-- and the offsets of a segment fit in 32 bits. In encode_and_write the coder can be made and the
-- writes of blocks succeed: the failure of a disk shows when its writer is opened or finalized.
--
-- Fuel. The loops of open and scan take a header at least in each round, so they get as many rounds as
-- the file has bytes. The loop of the glob matcher gets (text + 1) * (pattern + 1) rounds, about: each turn
-- comes nearer to the end of the text behind the last star, or of the pattern. The loop of the streaming
-- decoder takes a byte at least off what remains in each round, the block loop of the encoder a block off
-- its buffer, and each round of the planner places a shard at least; their fuel is the number of bytes
-- and of shards.
--
-- Not modelled: the asynchronous worker of the log, the volumes, most of their pool, the HTTP
-- and S3 front ends, the transport and storage of Raft. They are calls of files, sockets and libraries.
pub mod Base
pub mod Cluster
pub mod Heal
pub mod Lifecycle
pub mod Policy
pub mod Raft
pub mod Storage
