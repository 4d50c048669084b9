-- ===== src/NativeDump/Selected.antt =====
-- `attempt_native_dump` as a whole.
use apfs_fastindex.Base.{ℕ, ◌%◌, ◌^◌, ◌≡◌, Option, List, length}
use apfs_fastindex.Outcome.{ok}
use apfs_fastindex.BlockIo.{Reader, read_block}
use apfs_fastindex.Container.Superblock.{IsDecodable, Describes}
use apfs_fastindex.Container.Ring.Walk.{IsRing}
use apfs_fastindex.Checkpoint.{NxsbCandidate, ScanReport}
use apfs_fastindex.Omap.{OmapResolver, open_omap}
use apfs_fastindex.Omap.Summarize.{summarize}
use apfs_fastindex.NativeDump.{SelectedCheckpoint}
use apfs_fastindex.NativeDump.Reports.{IsTotals}

-- What a dump of a container says.
pub record IsNativeDump (from_utf8 : List ℕ → Option (List ℕ)) (from_utf8_lossy : List ℕ → List ℕ)
    (reader : Reader) (report : ScanReport) (highest : NxsbCandidate)
    (selected : SelectedCheckpoint) : Type 0 where
  pub address : selected.block_address ≡ highest.block_address
  pub block : List ℕ
  pub read : read_block reader highest.block_address report.block_size ≡ ok block
  pub decodable : IsDecodable block highest.block_address
  pub described : Describes block highest.block_address selected.container
  pub features : selected.container.unsupported_incompatible_features ≡ 0
  pub same_size : selected.container.block_size ≡ report.block_size
  pub same_base : selected.container.xp_desc_base ≡ report.descriptor_base
  pub ring :
      IsRing reader report.block_size selected.container highest.block_address
        selected.checkpoint_map
  pub container_map : OmapResolver
  pub opened : open_omap reader report.block_size selected.container.omap_oid ≡ ok container_map
  pub summarized :
      summarize container_map reader report.block_size selected.container.xid 8
      ≡ ok selected.container_omap
  pub volumes :
      IsTotals from_utf8 from_utf8_lossy reader report.block_size selected.container.xid
        container_map selected.container.volume_oids
        (record {
          volume_reports = selected.volumes;
          validation_gaps = selected.native_validation.validation_gaps;
          fs_records_dumped = selected.native_validation.fs_records_dumped_count;
          volume_supported_count = selected.native_validation.volume_supported_count;
        })
  pub counted :
      selected.native_validation.volume_count ≡ length selected.container.volume_oids % 2 ^ 32
