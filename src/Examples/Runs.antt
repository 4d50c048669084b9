-- ===== src/Examples/Runs.antt =====
-- The scan, the decoder and the walk run on the small container.
use apfs_fastindex.Base.{ℕ, ◌≡◌, refl, Option, some, none, ◌∷◌, [], List, length}
use apfs_fastindex.Outcome.{ok, ◌>>=◌}
use apfs_fastindex.Container.{
  ContainerSummary, CheckpointMapSummary, decode_container_summary, walk_checkpoint_maps,
}
use apfs_fastindex.Checkpoint.{NxsbCandidate, scan_reader, highest_candidate}
use apfs_fastindex.Examples.Sources.{source, superblock, volume}
use apfs_fastindex.Volume.{VolumeSummary, VolumeSupportStatus, supported, decode_volume_summary}
use apfs_fastindex.Volume as V
use apfs_fastindex.Container as C
use apfs_fastindex.Checkpoint as K
use apfs_fastindex.BlockIo as B
use apfs_fastindex.Object as O

abbrev selected : Option NxsbCandidate → ℕ × ℕ
selected none = (0, 0)
selected (some c) = (c.block_address, c.xid)

-- The superblock of block 2 is selected.
scan_run : (scan_reader source >>= λ report. ok (selected (highest_candidate report))) ≡ ok (2, 5)
unfolding scan_reader K.validate_block_size K.is_power_of_two K.is_nxsb_type K.validate_nxsb_block0
    K.parse_nxsb_candidate K.add_parsed K.descriptor_loop K.highest_of K.highest_candidate
    B.checksum_matches B.apfs_fletcher64 B.slice B.from_le_bytes B.add_batches B.add_batch
    B.chunk_words B.finish_checksum B.le_u32 B.le_u64 B.read_block B.read_loop
scan_run = refl

abbrev outline : ContainerSummary → CheckpointMapSummary → List ℕ
outline container summary =
    length summary.map_blocks ∷ summary.trailing_nxsb_block ∷ container.xid ∷ container.volume_oids

-- Its checkpoint is the map of block 1 and itself.
walk_run :
    (decode_container_summary superblock 2 >>= λ container.
    walk_checkpoint_maps source 4096 container 2 >>= λ summary. ok (outline container summary))
    ≡ ok (1 ∷ 2 ∷ 5 ∷ 0x402 ∷ [])
unfolding decode_container_summary walk_checkpoint_maps C.volume_oid_loop C.format_uuid C.hex_bytes
    C.hex_digit C.mapping_loop C.trailing_step C.map_step C.ring_step C.ring_loop
    O.validate_object_block O.check_header O.check_xid O.check_storage O.from_block O.is_physical
    O.is_ephemeral O.is_encrypted O.is_noheader O.flags_summary B.checksum_matches B.apfs_fletcher64
    B.slice B.from_le_bytes B.add_batches B.add_batch B.chunk_words B.finish_checksum B.le_u32
    B.le_u64 B.read_block B.read_loop
walk_run = refl

abbrev status : VolumeSummary → ℕ × VolumeSupportStatus
status summary = (summary.root_tree_virtual_oid, summary.support_status)

-- The volume superblock is accepted, and its volume supported.
volume_run :
    (decode_volume_summary (λ bytes. bytes) volume 7 0x402 5 >>= λ summary. ok (status summary))
    ≡ ok (0x404, supported)
unfolding decode_volume_summary V.support_status_of V.decode_volname V.before_zero V.decode_role
    V.or_unknown C.format_uuid C.hex_bytes C.hex_digit O.validate_object_block O.check_header
    O.check_xid O.check_storage O.from_block O.is_physical O.is_ephemeral O.is_encrypted
    O.is_noheader O.flags_summary B.checksum_matches B.apfs_fletcher64 B.slice B.from_le_bytes
    B.add_batches B.add_batch B.chunk_words B.finish_checksum B.le_u16 B.le_u32 B.le_u64
volume_run = refl
