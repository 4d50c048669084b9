-- ===== src/NativeDump/Reports.antt =====
-- What a volume's report says, and what the totals of the loop over the volumes count.
use apfs_fastindex.Base.{
  ℕ, ◌+◌, ◌%◌, ◌^◌, ◌≡◌, refl, ap, ◌∙◌, Bool, true, false, Option, none, some, List, [], ◌∷◌, ◌++◌,
  if◌then◌else◌, All, All-append, arith,
}
use apfs_fastindex.Outcome.{ok}
use apfs_fastindex.BlockIo.{Reader, read_block}
use apfs_fastindex.Omap.{OmapResolver, OmapValue, open_omap, lookup}
use apfs_fastindex.Omap.Summarize.{OmapSummary, add_one, summarize}
use apfs_fastindex.Volume.{VolumeSummary, VolumeSupportStatus, decode_volume_summary}
use apfs_fastindex.FsRoot.{validate_fs_root_header}
use apfs_fastindex.FsRecords.{FsRecordDump}
use apfs_fastindex.FsRecords.Walk.{IsDump}
use apfs_fastindex.ExtentRef.{ExtentRefStorage, ExtentRefDump}
use apfs_fastindex.ExtentRef.Extents.{StorageFits, IsExtentDump}
use apfs_fastindex.NativeDump.{VolumeStatus, VolumeReport, VolumeTotals, count_dump, extent_root}

module _ (from_utf8 : List ℕ → Option (List ℕ)) (from_utf8_lossy : List ℕ → List ℕ)
    (reader : Reader) (block_size xid : ℕ) where
  -- The root that the object map gave was accepted.
  abbrev pub IsRootAccepted : Option OmapValue → OmapValue → Type 0
  IsRootAccepted mapping root =
      (mapping ≡ some root) × (validate_fs_root_header reader block_size root xid ≡ ok tt)

  -- Records are dumped exactly from an accepted root.
  abbrev pub RecordsFit : OmapResolver → Option OmapValue → Option FsRecordDump → Type 0
  RecordsFit volume_map mapping none = ¬ ((root : OmapValue) × IsRootAccepted mapping root)
  RecordsFit volume_map mapping (some dump) =
      (root : OmapValue) × IsRootAccepted mapping root
      × IsDump from_utf8 reader block_size xid volume_map root.paddr dump

  -- Extents are dumped from the root that goes with the storage class.
  abbrev pub ExtentsFit :
      OmapResolver → VolumeSummary → Option OmapValue → Option ExtentRefDump → Type 0
  ExtentsFit volume_map summary mapping none = Unit
  ExtentsFit volume_map summary mapping (some dump) =
      (storage : ExtentRefStorage) × (paddr : ℕ) × StorageFits summary.extentref_tree_type_raw
        storage
      × (extent_root storage summary.extentref_tree_oid mapping ≡ some paddr)
      × IsExtentDump reader block_size paddr xid storage volume_map dump

  -- The summary was decoded from the block that the container's object map gave.
  pub record IsDecoded (report : VolumeReport) (summary : VolumeSummary) : Type 0 where
    pub block : List ℕ
    pub read : read_block reader report.container_omap_lookup.paddr block_size ≡ ok block
    pub decoded :
        decode_volume_summary from_utf8_lossy block report.container_omap_lookup.paddr
          report.volume_oid xid
        ≡ ok summary

  -- The object map of the volume, its summary, and what it has for the two trees.
  pub record IsMapped (report : VolumeReport) (summary : VolumeSummary) (volume_map : OmapResolver)
      : Type 0 where
    pub opened : open_omap reader block_size summary.omap_oid ≡ ok volume_map
    pub map_summary : OmapSummary
    pub summarized : summarize volume_map reader block_size xid 8 ≡ ok map_summary
    pub same_map_summary : report.volume_omap ≡ some map_summary
    pub root_found :
        lookup volume_map reader block_size summary.root_tree_virtual_oid xid
        ≡ ok report.root_tree_lookup
    pub extents_found :
        lookup volume_map reader block_size summary.extentref_tree_oid xid
        ≡ ok report.extentref_tree_lookup

  pub record IsSupportedReport (report : VolumeReport) : Type 0 where
    pub summary : VolumeSummary
    pub same_summary : report.summary ≡ some summary
    pub decoded : IsDecoded report summary
    pub passed : summary.support_status ≡ VolumeSupportStatus.supported
    pub volume_map : OmapResolver
    pub mapped : IsMapped report summary volume_map
    pub records : RecordsFit volume_map report.root_tree_lookup report.fs_record_dump
    pub extents : ExtentsFit volume_map summary report.extentref_tree_lookup report.extent_ref_dump

  abbrev pub IsBare : VolumeReport → Type 0
  IsBare report = (report.fs_record_dump ≡ none) × (report.extent_ref_dump ≡ none)

  abbrev pub StatusFits : VolumeStatus → VolumeReport → Type 0
  StatusFits VolumeStatus.supported report = IsSupportedReport report
  StatusFits VolumeStatus.missing_in_container_omap report = IsBare report
  StatusFits VolumeStatus.volume_decode_failed report = IsBare report
  StatusFits VolumeStatus.volume_unsupported report = IsBare report

  -- What the container's object map has for the volume: nothing if the volume is missing.
  abbrev pub IsFound : OmapResolver → VolumeStatus → VolumeReport → Type 0
  IsFound container_omap VolumeStatus.missing_in_container_omap report =
      lookup container_omap reader block_size report.volume_oid xid ≡ ok none
  IsFound container_omap VolumeStatus.supported report =
      lookup container_omap reader block_size report.volume_oid xid
      ≡ ok (some report.container_omap_lookup)
  IsFound container_omap VolumeStatus.volume_decode_failed report =
      lookup container_omap reader block_size report.volume_oid xid
      ≡ ok (some report.container_omap_lookup)
  IsFound container_omap VolumeStatus.volume_unsupported report =
      lookup container_omap reader block_size report.volume_oid xid
      ≡ ok (some report.container_omap_lookup)

  abbrev pub IsReport : OmapResolver → VolumeReport → Type 0
  IsReport container_omap report =
      IsFound container_omap report.status report × StatusFits report.status report

abbrev pub is_supported : VolumeStatus → Bool
is_supported VolumeStatus.supported = true
is_supported VolumeStatus.missing_in_container_omap = false
is_supported VolumeStatus.volume_decode_failed = false
is_supported VolumeStatus.volume_unsupported = false

unfoldable pub oids_of : List VolumeReport → List ℕ
oids_of [] = []
oids_of (report ∷ reports) = report.volume_oid ∷ oids_of reports

unfoldable pub number_supported : List VolumeReport → ℕ
number_supported [] = 0
number_supported (report ∷ reports) =
    (if is_supported report.status then 1 else 0) + number_supported reports

abbrev pub one_if_some {ℓ} : {A : Type ℓ} → Option A → ℕ
one_if_some none = 0
one_if_some (some a) = 1

unfoldable pub number_dumped : List VolumeReport → ℕ
number_dumped [] = 0
number_dumped (report ∷ reports) = one_if_some report.fs_record_dump + number_dumped reports

oids_of-append :
    (reports more : List VolumeReport) → oids_of (reports ++ more) ≡ oids_of reports ++ oids_of more
unfolding oids_of
oids_of-append [] more = refl
oids_of-append (report ∷ reports) more =
    ap (λ (t : List ℕ). report.volume_oid ∷ t) (oids_of-append reports more)

number_supported-append :
    (reports more : List VolumeReport)
    → number_supported (reports ++ more) ≡ number_supported reports + number_supported more
unfolding number_supported
number_supported-append [] more = omega arith
number_supported-append (report ∷ reports) more =
    omega (arith, number_supported-append reports more)

number_dumped-append :
    (reports more : List VolumeReport)
    → number_dumped (reports ++ more) ≡ number_dumped reports + number_dumped more
unfolding number_dumped
number_dumped-append [] more = omega arith
number_dumped-append (report ∷ reports) more = omega (arith, number_dumped-append reports more)

module _ (from_utf8 : List ℕ → Option (List ℕ)) (from_utf8_lossy : List ℕ → List ℕ)
    (reader : Reader) (block_size xid : ℕ) (container_omap : OmapResolver) where
  -- One report for each oid, in order, and counters that agree with them.
  pub record IsTotals (oids : List ℕ) (totals : VolumeTotals) : Type 0 where
    pub in_order : oids_of totals.volume_reports ≡ oids
    pub reports :
        All
          (IsReport from_utf8 from_utf8_lossy reader block_size xid container_omap)
          totals.volume_reports
    pub supported_counted :
        totals.volume_supported_count ≡ number_supported totals.volume_reports % 2 ^ 32
    pub dumped_counted : totals.fs_records_dumped ≡ number_dumped totals.volume_reports % 2 ^ 32

  pub push-IsTotals :
      (report : VolumeReport) (oids : List ℕ) (totals next : VolumeTotals)
      → next.volume_reports ≡ totals.volume_reports ++ (report ∷ [])
      → next.volume_supported_count ≡ (
          if is_supported report.status
          then add_one totals.volume_supported_count
          else totals.volume_supported_count)
      → next.fs_records_dumped ≡ count_dump report.fs_record_dump totals.fs_records_dumped
      → IsReport from_utf8 from_utf8_lossy reader block_size xid container_omap report
      → IsTotals oids totals
      → IsTotals (oids ++ (report.volume_oid ∷ [])) next
  unfolding oids_of number_supported number_dumped
  push-IsTotals report oids totals next listed supported dumped fits t = record {
    in_order = rw listed (
        oids_of-append totals.volume_reports (report ∷ [])
        ∙ ap (λ (x : List ℕ). x ++ (report.volume_oid ∷ [])) t.in_order);
    reports = rw listed (
        All-append (IsReport from_utf8 from_utf8_lossy reader block_size xid container_omap)
          totals.volume_reports (report ∷ []) t.reports (fits, tt));
    supported_counted =
        supported
        ∙ one_supported (is_supported report.status) totals.volume_supported_count
            (number_supported totals.volume_reports) (number_supported next.volume_reports)
            t.supported_counted
            (rw listed (number_supported-append totals.volume_reports (report ∷ [])));
    dumped_counted =
        dumped
        ∙ one_dumped report.fs_record_dump totals.fs_records_dumped
            (number_dumped totals.volume_reports) (number_dumped next.volume_reports)
            t.dumped_counted (rw listed (number_dumped-append totals.volume_reports (report ∷ [])));
  }
    where
      one_supported :
          (b : Bool) (count n m : ℕ)
          → count ≡ n % 2 ^ 32
          → m ≡ n + ((if b then 1 else 0) + 0)
          → (if b then add_one count else count) ≡ m % 2 ^ 32
      one_supported true count n m h k = omega (arith, h, k)
      one_supported false count n m h k = omega (arith, h, k)

      one_dumped :
          (o : Option FsRecordDump) (count n m : ℕ)
          → count ≡ n % 2 ^ 32
          → m ≡ n + (one_if_some o + 0)
          → count_dump o count ≡ m % 2 ^ 32
      one_dumped none count n m h k = omega (arith, h, k)
      one_dumped (some dump) count n m h k = omega (arith, h, k)
