-- ===== src/Lib.antt =====
-- Verification of the core of the crate `apfs-fastindex` (crates/apfs-fastindex/src): how a source
-- of APFS bytes is read, how every object is checked, and how a checkpoint, its maps and a volume's
-- superblock are found and decoded, and how the records and extents of a volume are listed.
--
-- The program. `scan_reader` (lib.rs) reads block zero, then every block of the checkpoint
-- descriptor area, and collects the valid container superblocks; the one with the highest
-- transaction is selected. Its container is decoded and the ring of its checkpoint walked
-- (container.rs). Volume superblocks are found through an object map, a B-tree from object and
-- transaction to address (omap.rs, btree.rs), and decoded (volume.rs). For a supported volume the
-- root of its file-system tree is checked, the tree walked through the volume's object map
-- (fs_records.rs), its records decoded (fs_record_body.rs), and the extent-reference tree walked
-- (extent_ref.rs). `attempt_native_dump` (lib.rs) joins these steps. Each read goes through
-- `read_block` (block_io.rs), and each object through `validate_object_block` (object.rs).
--
-- The model.
--   Base          native numbers, lists measured by them, Boolean tests, masks as arithmetic.
--   Outcome       what a fallible function comes to (`ScanError` of lib.rs): a value, an error, a
--                 panic, or `hang`, which says that a bounded loop of the model ran out of rounds.
--                 `Returns` excludes the last two, and `Settles P Q` says that a value satisfies
--                 `P` and that with an error `Q` holds. Texts of messages are enumerations.
--   BlockIo       block_io.rs. A block is the list of its bytes, a source a record of what each
--                 `seek` and `read` does; interruptions and short reads are among its answers.
--   Object        object.rs: `ObjectHeader::from_block`, the storage flags, the gate.
--   Btree         btree.rs: `BtreeNode::parse`, `entry`, `key_bytes`, `value_bytes`,
--                 `read_btree_node`.
--   Omap          omap.rs: `OmapResolver::open` (`open_omap`), `lookup` and its choices in a node;
--                 Omap/Summarize has `summarize`, `walk_node` and `classify_flags`.
--   Container     container.rs: `decode_container_summary`, `walk_checkpoint_maps`, `format_uuid`.
--   Checkpoint    lib.rs: `scan_reader` with its validations, `ScanReport::highest_candidate`.
--   Volume        volume.rs: `decode_volume_summary` and the support gate.
--   FsRoot        lib.rs: `validate_fs_root_header`, the check of a file-system tree's root.
--   RecordBody    fs_record_body.rs: the types of records and what their decoders share;
--                 RecordBody/Xfields has `decode_xfields`, Keys `decode_key`, Values `decode_value`
--                 and Row `decode_fs_record`.
--   TreeWalk      the loops that the two walks below share; TreeWalk/Trace describes the tree that a
--                 walk meets, for these and for `walk_node` of the object map.
--   FsRecords     fs_records.rs: `dump_fs_records`, `walk_fs_node`.
--   ExtentRef     extent_ref.rs: `dump_extent_refs`, `walk_node` (`walk_extent_node`).
--   NativeDump    lib.rs: `attempt_native_dump`, with a function for each step of its loop.
--   Namespace     namespace.rs, the sizes: `hex_to_vec`, `decmpfs_uncompressed_size`,
--                 `file_extent_dedup_bytes`, Namespace/Totals `compute_dstream_real_totals`,
--                 `real_size`, `compute_allocated_size` and
--                 `logical_size_and_target`, each on the values that the index has for a file.
--   Examples      small containers, nodes and records, and runs and theorems on them.
-- The files below a part prove its theorems and are named for what they prove.
--
-- Numbers and bounds. `usize` has 64 bits. Sums that the code checks are compared with 2 ^ 64 here;
-- sums that it does not check wrap, as in a release build. `lookup` and the walks of trees have 129
-- rounds or levels, since all test the depth against 128 first. `read_block` has a round for every byte
-- and, before each, for as many interruptions as the source makes in a row; that a source has such
-- a bound, and that a call gives no more bytes than there is room for, is what is assumed of it
-- (`IsReader`). A loop over `0..n` is recursion on the rounds that are left.
--
-- Not modelled: snapshots, the index, the paths and the totals of the namespace, and the directory
-- tree, which build on the parts above; the report of a whole scan; rendering in floating point;
-- caches, fallback scanners, the C interface and the command line, which are input and output; the
-- application and scripts around the crate. Of the standard library, `String::from_utf8_lossy`,
-- `str::from_utf8` and `partition_point` of slices are parameters.
pub mod Base
pub mod Outcome
pub mod BlockIo
pub mod RecordBody
pub mod TreeWalk
pub mod FsRecords
pub mod ExtentRef
pub mod Namespace
pub mod NativeDump
pub mod Object
pub mod Btree
pub mod Omap
pub mod Container
pub mod Checkpoint
pub mod Volume
pub mod FsRoot
pub mod Examples
