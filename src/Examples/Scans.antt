-- ===== src/Examples/Scans.antt =====
-- The theorems on sources, blocks and checkpoints, at the small container.
use apfs_fastindex.Base.{
  ℕ, ◌+◌, ◌*◌, ◌/◌, ◌^◌, ◌%◌, ◌<◌, ◌≡◌, ◌↔◌, false, ◌&&◌, if◌then◌else◌, ltb, leb, [], ◌∷◌, ◌++◌,
  drop, length, length-append, arith,
}
use apfs_fastindex.Outcome.{
  ok, err, Settles, Returns, unsupported_descriptor_layout, offset_overflow, invalid_object,
  block_size_out_of_range,
}
use apfs_fastindex.BlockIo.{read_block, apfs_fletcher64, chunk_words, fletcher_modulus}
use apfs_fastindex.BlockIo.Fletcher.{IsWord, exact_sums, apfs_fletcher64-closes_sums}
use apfs_fastindex.BlockIo.Reading.{
  ReturnsBlock, image_read, read_block-ReturnsBlock, read_block-image_read,
}
use apfs_fastindex.Object.{ObjectHeader, expect_any_storage, validate_object_block}
use apfs_fastindex.Object.Gate.{IsAccepted, header_of, validate_object_block_iff}
use apfs_fastindex.Omap.{OmapResolver, OmapValue, lookup}
use apfs_fastindex.Omap.Search.{Returns-lookup}
use apfs_fastindex.Omap.Summarize.{summarize}
use apfs_fastindex.Omap.Summarize.Totals.{IsTotal, summarize-IsTotal}
use apfs_fastindex.Container.{
  ContainerSummary, version2, decode_container_summary, walk_checkpoint_maps,
}
use apfs_fastindex.Container.Superblock.{IsDecodable, Describes, decode_container_summary-Settles}
use apfs_fastindex.Container.Ring.Walk.{IsRing, walk_checkpoint_maps-Settles}
use apfs_fastindex.Checkpoint.{NxsbCandidate, ScanReport, scan_reader, highest_candidate}
use apfs_fastindex.Checkpoint.Highest.{Chooses, highest_candidate-Chooses}
use apfs_fastindex.Checkpoint.Scan.{IsReport, scan_reader-IsReport}
use apfs_fastindex.Volume.{supported, support_status_of, decode_volume_summary}
use apfs_fastindex.Volume.Support.{
  IsVolume, DescribesVolume, decode_volume_summary-Settles, support_status_of_iff,
}
use apfs_fastindex.FsRoot.{validate_fs_root_header}
use apfs_fastindex.FsRoot.Accepted.{IsFsRoot, validate_fs_root_header-Settles}
use apfs_fastindex.Examples.Sources.{
  image, source, source-Holds, source-IsReader, superblock, superblock-bytes, superblock_front,
  volume, volume_front, zeros, length-zeros,
}

read_block-ReturnsBlock_example : ReturnsBlock 4096 (read_block source 2 4096)
read_block-ReturnsBlock_example = read_block-ReturnsBlock source 2 4096 source-IsReader

read_block-image_read_example : read_block source 2 4096 ≡ (
    if leb 4096 4096 && leb 4096 65536
    then (if ltb (2 * 4096) (2 ^ 64)
        then image_read image 2 4096 (2 * 4096)
        else err (unsupported_descriptor_layout offset_overflow))
    else err (invalid_object block_size_out_of_range))
read_block-image_read_example = read_block-image_read image source 2 4096 source-Holds

length-superblock : length superblock ≡ 4096
length-superblock = omega (arith, length-append superblock_front (zeros 3904), length-zeros 3904)

apfs_fletcher64-closes_sums_example :
    (low : ℕ) × (high : ℕ) × (apfs_fletcher64 superblock ≡ ok (high * 2 ^ 32 + low))
    × IsWord low
    × IsWord high
    × ((exact_sums (chunk_words (drop 8 superblock) ++ low ∷ high ∷ []) (0, 0)).0 % fletcher_modulus
        ≡ 0)
    × ((exact_sums (chunk_words (drop 8 superblock) ++ low ∷ high ∷ []) (0, 0)).1 % fletcher_modulus
        ≡ 0)
apfs_fletcher64-closes_sums_example =
    apfs_fletcher64-closes_sums superblock superblock-bytes (omega (arith, length-superblock))

validate_object_block_iff_example :
    ((h : ObjectHeader)
      → (validate_object_block superblock 2 (expect_any_storage 1) ≡ ok h)
        ↔ (IsAccepted superblock 2 (expect_any_storage 1) × (h ≡ header_of superblock 2)))
    × Returns (validate_object_block superblock 2 (expect_any_storage 1))
validate_object_block_iff_example = validate_object_block_iff superblock 2 (expect_any_storage 1)

decode_container_summary-Settles_example :
    Settles
      (λ s. IsDecodable superblock 2 × Describes superblock 2 s)
      (¬ IsDecodable superblock 2)
      (decode_container_summary superblock 2)
decode_container_summary-Settles_example =
    decode_container_summary-Settles superblock 2 (omega (arith, length-superblock))

abbrev container : ContainerSummary
container = record {
  block_address = 2;
  xid = 5;
  block_size = 4096;
  block_count = 3;
  features_raw = 0;
  readonly_compatible_features_raw = 0;
  incompatible_features_raw = 2;
  features = [];
  incompatible_features = version2 ∷ [];
  unsupported_incompatible_features = 0;
  uuid_hex = [];
  next_oid = 0;
  next_xid = 0;
  xp_desc_blocks = 2;
  xp_desc_base = 1;
  xp_desc_index = 0;
  xp_desc_len = 2;
  xp_data_blocks = 0;
  xp_data_base = 0;
  xp_data_index = 0;
  xp_data_len = 0;
  spaceman_oid = 0;
  omap_oid = 0;
  reaper_oid = 0;
  max_file_systems = 1;
  volume_oids = 0x402 ∷ [];
  object_header = header_of superblock 2;
  object_storage_summary = [];
}

walk_checkpoint_maps-Settles_example :
    Settles (IsRing source 4096 container 2) Unit (walk_checkpoint_maps source 4096 container 2)
walk_checkpoint_maps-Settles_example =
    walk_checkpoint_maps-Settles source 4096 container 2 source-IsReader

scan_reader-IsReport_example : Settles (IsReport source) Unit (scan_reader source)
scan_reader-IsReport_example = scan_reader-IsReport source source-IsReader

abbrev found : ℕ → ℕ → NxsbCandidate
found index xid = record {
  descriptor_index = index;
  block_address = 1 + index;
  oid = 1;
  xid = xid;
  object_type_raw = 0x80000001;
  object_subtype = 0;
  checksum = 0;
}

abbrev report : ScanReport
report = record {
  block_size = 4096;
  descriptor_blocks = 3;
  descriptor_base = 1;
  descriptor_base_non_contiguous = false;
  candidates = found 0 5 ∷ found 1 7 ∷ found 2 7 ∷ [];
  skipped_descriptors = [];
}

highest_candidate-Chooses_example :
    Chooses (found 0 5 ∷ found 1 7 ∷ found 2 7 ∷ []) (highest_candidate report)
highest_candidate-Chooses_example = highest_candidate-Chooses report

abbrev resolver : OmapResolver
resolver = record {
  phys = record {
    block_address = 1;
    flags = 0;
    snapshot_count = 0;
    tree_type_raw = 0x40000002;
    snapshot_tree_type_raw = 0;
    tree_oid = 2;
    snapshot_tree_oid = 0;
    most_recent_snap = 0;
    pending_revert_min = 0;
    pending_revert_max = 0;
  };
  tree_root_paddr = 2;
}

Returns-lookup_example : Returns (lookup resolver source 4096 0x402 5)
Returns-lookup_example = Returns-lookup resolver source 4096 0x402 5 source-IsReader

summarize-IsTotal_example :
    Settles (IsTotal resolver source 4096 5 16) Unit (summarize resolver source 4096 5 16)
summarize-IsTotal_example = summarize-IsTotal resolver source 4096 5 16 source-IsReader

length-volume : length volume ≡ 4096
length-volume = omega (arith, length-append volume_front (zeros 3824), length-zeros 3824)

decode_volume_summary-Settles_example :
    Settles
      (λ s. IsVolume volume 7 0x402 5 × DescribesVolume (λ bytes. bytes) volume 7 0x402 s)
      (¬ IsVolume volume 7 0x402 5)
      (decode_volume_summary (λ bytes. bytes) volume 7 0x402 5)
decode_volume_summary-Settles_example =
    decode_volume_summary-Settles (λ bytes. bytes) volume 7 0x402 5 (omega (arith, length-volume))

support_status_of_iff_example :
    (support_status_of 1 9 ≡ supported) ↔ ((1 % 2 ≡ 1) × (9 < 16) × (9 / 2 % 4 ≡ 0))
support_status_of_iff_example = support_status_of_iff 1 9 (omega arith)

abbrev root : OmapValue
root = record { oid = 1; xid = 5; paddr = 2; flags = 0; size = 4096 }

validate_fs_root_header-Settles_example :
    Settles
      (λ u. IsFsRoot source 4096 root 5)
      (¬ IsFsRoot source 4096 root 5)
      (validate_fs_root_header source 4096 root 5)
validate_fs_root_header-Settles_example =
    validate_fs_root_header-Settles source 4096 root 5 source-IsReader
