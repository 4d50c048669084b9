-- ===== src/NativeDump.antt =====
-- crates/apfs-fastindex/src/lib.rs: `attempt_native_dump`, which joins the parts. It decodes the
-- selected container, walks its checkpoint, opens its object map, and for each volume that passes
-- the support gate dumps the records and the extents.
pub mod Reports
pub mod Dumps
pub mod Volumes
pub mod Selected
use apfs_fastindex.Base.{
  ℕ, zero, suc, ◌+◌, ◌%◌, ◌^◌, Bool, true, false, not, ◌&&◌, Option, none, some, List, [], ◌∷◌,
  ◌++◌, length, ◌==◌, if◌then◌else◌,
}
use apfs_fastindex.Outcome.{
  Outcome, ok, err, panic, hang, ScanError, unsupported_container_feature, ◌>>=◌, ◌>>◌, reject_if,
  Caught, value, failed, caught, block_size_mismatch, descriptor_base_mismatch,
}
use apfs_fastindex.BlockIo.{Reader, read_block}
use apfs_fastindex.Container.{
  ContainerSummary, CheckpointMapSummary, decode_container_summary, walk_checkpoint_maps,
}
use apfs_fastindex.Checkpoint.{NxsbCandidate, ScanReport}
use apfs_fastindex.Omap.{OmapResolver, OmapValue, open_omap, lookup}
use apfs_fastindex.Omap.Summarize.{OmapSummary, add_one, summarize}
use apfs_fastindex.Volume.{
  VolumeSummary, VolumeSupportStatus, UnsupportedReason, decode_volume_summary,
}
use apfs_fastindex.FsRoot.{validate_fs_root_header}
use apfs_fastindex.FsRecords.{FsRecordDump, dump_fs_records}
use apfs_fastindex.ExtentRef.{ExtentRefStorage, ExtentRefDump, from_type_raw, dump_extent_refs}

-- The strings of `status`, and what `status_reason` is made from.
pub data VolumeStatus : Type 0 where
  missing_in_container_omap volume_decode_failed volume_unsupported supported : VolumeStatus

pub data StatusReason : Type 0 where
  no_mapping : StatusReason
  decode_error : ScanError → StatusReason
  gate : UnsupportedReason → StatusReason

-- The validation gaps, with the numbers and errors that they print.
pub data ValidationGap : Type 0 where
  no_last_flag no_volumes : ValidationGap
  fs_root_invalid extent_tree_invalid extent_storage_invalid : ℕ → ScanError → ValidationGap
  extent_root_unmapped : ℕ → ValidationGap

-- The summary of a volume that was not decoded is `none`; the code fills in zeros there, the
-- volume's oid, and a support status that says so.
pub record VolumeReport : Type 0 where
  pub fs_oid_index : ℕ
  pub volume_oid : ℕ
  pub container_omap_lookup : OmapValue
  pub summary : Option VolumeSummary
  pub volume_omap : Option OmapSummary
  pub root_tree_lookup : Option OmapValue
  pub extentref_tree_lookup : Option OmapValue
  pub fs_record_dump : Option FsRecordDump
  pub extent_ref_dump : Option ExtentRefDump
  pub status : VolumeStatus
  pub status_reason : Option StatusReason

pub record NativeValidationReport : Type 0 where
  pub checkpoint_map_validated : Bool
  pub container_omap_loaded : Bool
  pub container_feature_allowlist_ok : Bool
  pub volume_count : ℕ
  pub volume_supported_count : ℕ
  pub fs_records_dumped_count : ℕ
  pub validation_gaps : List ValidationGap

pub record SelectedCheckpoint : Type 0 where
  pub block_address : ℕ
  pub xid : ℕ
  pub container : ContainerSummary
  pub checkpoint_map : CheckpointMapSummary
  pub container_omap : OmapSummary
  pub volumes : List VolumeReport
  pub native_validation : NativeValidationReport

-- The variables that the loop over the volumes changes.
pub record VolumeTotals : Type 0 where
  pub volume_reports : List VolumeReport
  pub validation_gaps : List ValidationGap
  pub fs_records_dumped : ℕ
  pub volume_supported_count : ℕ

abbrev pub no_mapping_value : ℕ → OmapValue
no_mapping_value volume_oid = record { oid = volume_oid; xid = 0; paddr = 0; flags = 0; size = 0 }

-- The report of a volume that is not dumped.
unfoldable pub bare_report :
    ℕ → ℕ → OmapValue → Option VolumeSummary → VolumeStatus → StatusReason → VolumeReport
bare_report index volume_oid mapping summary status reason = record {
  fs_oid_index = index % 2 ^ 32;
  volume_oid = volume_oid;
  container_omap_lookup = mapping;
  summary = summary;
  volume_omap = none;
  root_tree_lookup = none;
  extentref_tree_lookup = none;
  fs_record_dump = none;
  extent_ref_dump = none;
  status = status;
  status_reason = some reason;
}

abbrev pub push_report : VolumeReport → VolumeTotals → VolumeTotals
push_report report totals = record {
  volume_reports = totals.volume_reports ++ (report ∷ []);
  validation_gaps = totals.validation_gaps;
  fs_records_dumped = totals.fs_records_dumped;
  volume_supported_count = totals.volume_supported_count;
}

-- `if fs_record_dump.is_some() { fs_records_dumped += 1; }`
abbrev pub count_dump {ℓ} : {A : Type ℓ} → Option A → ℕ → ℕ
count_dump none dumped = dumped
count_dump (some dump) dumped = add_one dumped

abbrev pub mapping_paddr : Option OmapValue → Option ℕ
mapping_paddr none = none
mapping_paddr (some mapping) = some mapping.paddr

-- `let root_paddr = match storage`
unfoldable pub extent_root : ExtentRefStorage → ℕ → Option OmapValue → Option ℕ
extent_root ExtentRefStorage.physical extentref_tree_oid mapping = some extentref_tree_oid
extent_root ExtentRefStorage.virtual extentref_tree_oid mapping = mapping_paddr mapping

-- `match dump_extent_refs(..)`
unfoldable pub extent_dump_caught :
    ℕ → Caught ExtentRefDump → Option ExtentRefDump × List ValidationGap
extent_dump_caught volume_oid (value dump) = (some dump, [])
extent_dump_caught volume_oid (failed e) = (none, extent_tree_invalid volume_oid e ∷ [])

module _ (from_utf8 : List ℕ → Option (List ℕ)) (from_utf8_lossy : List ℕ → List ℕ)
    (reader : Reader) (block_size xid : ℕ) where
  -- `match validate_fs_root_header(..)`, with the gap that it may push
  unfoldable pub fs_dump_checked :
      ℕ
      → ℕ
      → OmapResolver
      → OmapValue
      → Caught (Unit {0})
      → Outcome (Option FsRecordDump × List ValidationGap)
  fs_dump_checked index volume_oid volume_omap root_value (failed e) =
      ok (none, fs_root_invalid volume_oid e ∷ [])
  fs_dump_checked index volume_oid volume_omap root_value (value u) = do
    dump ←
        dump_fs_records from_utf8 reader block_size (index % 2 ^ 32) volume_oid root_value.paddr xid
          volume_omap
    ok (some dump, [])

  -- `let fs_record_dump = match &root_tree_lookup`
  unfoldable pub fs_dump_of :
      ℕ → ℕ → OmapResolver → Option OmapValue → Outcome (Option FsRecordDump × List ValidationGap)
  fs_dump_of index volume_oid volume_omap none = ok (none, [])
  fs_dump_of index volume_oid volume_omap (some root_value) = do
    checked_root ← caught (validate_fs_root_header reader block_size root_value xid)
    fs_dump_checked index volume_oid volume_omap root_value checked_root

  -- `match root_paddr`
  unfoldable pub extent_dump_at :
      ℕ
      → ExtentRefStorage
      → OmapResolver
      → Option ℕ
      → Outcome (Option ExtentRefDump × List ValidationGap)
  extent_dump_at volume_oid storage volume_omap none =
      ok (none, extent_root_unmapped volume_oid ∷ [])
  extent_dump_at volume_oid storage volume_omap (some paddr) = do
    dumped ← caught (dump_extent_refs reader block_size paddr storage xid volume_omap)
    ok (extent_dump_caught volume_oid dumped)

  -- `match ExtentRefStorage::from_type_raw(..)`
  unfoldable pub extent_dump_stored :
      ℕ
      → ℕ
      → OmapResolver
      → Option OmapValue
      → Caught ExtentRefStorage
      → Outcome (Option ExtentRefDump × List ValidationGap)
  extent_dump_stored volume_oid tree_oid volume_omap mapping (failed e) =
      ok (none, extent_storage_invalid volume_oid e ∷ [])
  extent_dump_stored volume_oid tree_oid volume_omap mapping (value storage) =
      extent_dump_at volume_oid storage volume_omap (extent_root storage tree_oid mapping)

  -- `let extent_ref_dump = ..`
  unfoldable pub extent_dump_of :
      ℕ
      → VolumeSummary
      → OmapResolver
      → Option OmapValue
      → Outcome (Option ExtentRefDump × List ValidationGap)
  extent_dump_of volume_oid summary volume_omap mapping = do
    storage ← caught (from_type_raw summary.extentref_tree_type_raw)
    extent_dump_stored volume_oid summary.extentref_tree_oid volume_omap mapping storage

  -- A volume that passed the support gate.
  unfoldable pub supported_volume :
      ℕ → ℕ → OmapValue → VolumeSummary → VolumeTotals → Outcome VolumeTotals
  supported_volume index volume_oid mapping summary totals = do
    volume_omap ← open_omap reader block_size summary.omap_oid
    volume_omap_summary ← summarize volume_omap reader block_size xid 8
    root_tree_lookup ← lookup volume_omap reader block_size summary.root_tree_virtual_oid xid
    extentref_tree_lookup ← lookup volume_omap reader block_size summary.extentref_tree_oid xid
    (fs_record_dump, root_gaps) ← fs_dump_of index volume_oid volume_omap root_tree_lookup
    (extent_ref_dump, extent_gaps) ←
        extent_dump_of volume_oid summary volume_omap extentref_tree_lookup
    ok (record {
      volume_reports =
          totals.volume_reports
          ++ (record {
            fs_oid_index = index % 2 ^ 32;
            volume_oid = volume_oid;
            container_omap_lookup = mapping;
            summary = some summary;
            volume_omap = some volume_omap_summary;
            root_tree_lookup = root_tree_lookup;
            extentref_tree_lookup = extentref_tree_lookup;
            fs_record_dump = fs_record_dump;
            extent_ref_dump = extent_ref_dump;
            status = VolumeStatus.supported;
            status_reason = none;
          }
              ∷ []);
      validation_gaps = totals.validation_gaps ++ root_gaps ++ extent_gaps;
      fs_records_dumped = count_dump fs_record_dump totals.fs_records_dumped;
      volume_supported_count = add_one totals.volume_supported_count;
    })

  -- The support gate.
  unfoldable pub gate_volume :
      ℕ → ℕ → OmapValue → VolumeSummary → VolumeSupportStatus → VolumeTotals → Outcome VolumeTotals
  gate_volume index volume_oid mapping summary (VolumeSupportStatus.unsupported reason) totals =
      ok (
        push_report
          (bare_report index volume_oid mapping (some summary) volume_unsupported (gate reason))
          totals)
  gate_volume index volume_oid mapping summary VolumeSupportStatus.supported totals =
      supported_volume index volume_oid mapping summary totals

  -- A volume whose superblock was read, or failed to decode.
  unfoldable pub decoded_volume :
      ℕ → ℕ → OmapValue → Caught VolumeSummary → VolumeTotals → Outcome VolumeTotals
  decoded_volume index volume_oid mapping (failed e) totals = ok (
      push_report (bare_report index volume_oid mapping none volume_decode_failed (decode_error e))
        totals)
  decoded_volume index volume_oid mapping (value summary) totals =
      gate_volume index volume_oid mapping summary summary.support_status totals

  -- A volume with its mapping in the container's object map.
  unfoldable pub mapped_volume : ℕ → ℕ → Option OmapValue → VolumeTotals → Outcome VolumeTotals
  mapped_volume index volume_oid none totals = ok (
      push_report
        (bare_report index volume_oid (no_mapping_value volume_oid) none missing_in_container_omap
          no_mapping)
        totals)
  mapped_volume index volume_oid (some mapping) totals = do
    volume_block ← read_block reader mapping.paddr block_size
    summary ←
        caught (decode_volume_summary from_utf8_lossy volume_block mapping.paddr volume_oid xid)
    decoded_volume index volume_oid mapping summary totals

  -- `for (index, volume_oid) in container.volume_oids.iter().enumerate()`
  unfoldable pub volumes_loop : OmapResolver → ℕ → List ℕ → VolumeTotals → Outcome VolumeTotals
  volumes_loop container_omap index [] totals = ok totals
  volumes_loop container_omap index (volume_oid ∷ volume_oids) totals = do
    mapping ← lookup container_omap reader block_size volume_oid xid
    totals ← mapped_volume index volume_oid mapping totals
    volumes_loop container_omap (index + 1) volume_oids totals

abbrev pub gap_if : Bool → ValidationGap → List ValidationGap
gap_if true gap = gap ∷ []
gap_if false gap = []

-- `if container.unsupported_incompatible_features != 0`
unfoldable pub reject_features : ℕ → Outcome (Unit {0})
reject_features features = if features == 0 then ok tt else err unsupported_container_feature

unfoldable pub attempt_native_dump :
    (List ℕ → Option (List ℕ))
    → (List ℕ → List ℕ)
    → Reader
    → ScanReport
    → NxsbCandidate
    → Outcome (SelectedCheckpoint × List ValidationGap)
attempt_native_dump from_utf8 from_utf8_lossy reader report highest = do
  let block_size = report.block_size
  block ← read_block reader highest.block_address block_size
  container ← decode_container_summary block highest.block_address
  reject_features container.unsupported_incompatible_features
  reject_if (not (container.block_size == block_size)) block_size_mismatch
  reject_if (not (container.xp_desc_base == report.descriptor_base)) descriptor_base_mismatch
  checkpoint_map ← walk_checkpoint_maps reader block_size container highest.block_address
  container_omap ← open_omap reader block_size container.omap_oid
  container_omap_summary ← summarize container_omap reader block_size container.xid 8
  totals ←
      volumes_loop from_utf8 from_utf8_lossy reader block_size container.xid container_omap 0
        container.volume_oids
        (record {
          volume_reports = [];
          validation_gaps =
              gap_if
                (not checkpoint_map.last_flag_seen && not (length checkpoint_map.map_blocks == 0))
                no_last_flag;
          fs_records_dumped = 0;
          volume_supported_count = 0;
        })
  let gaps = totals.validation_gaps ++ gap_if (length totals.volume_reports == 0) no_volumes
  ok (
    record {
      block_address = highest.block_address;
      xid = highest.xid;
      container = container;
      checkpoint_map = checkpoint_map;
      container_omap = container_omap_summary;
      volumes = totals.volume_reports;
      native_validation = record {
        checkpoint_map_validated = true;
        container_omap_loaded = true;
        container_feature_allowlist_ok = true;
        volume_count = length totals.volume_reports % 2 ^ 32;
        volume_supported_count = totals.volume_supported_count;
        fs_records_dumped_count = totals.fs_records_dumped;
        validation_gaps = gaps;
      };
    },
    gaps,
  )
