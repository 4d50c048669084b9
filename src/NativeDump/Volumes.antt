-- ===== src/NativeDump/Volumes.antt =====
-- The loop over the volumes: it returns, and its reports are in order.
use apfs_fastindex.Base.{ℕ, ◌+◌, ◌≡◌, refl, sym, ap, Option, none, some, List, [], ◌∷◌, ◌++◌, arith}
use mathlib.Core.Path.{subst}
use apfs_fastindex.Outcome.{ok, Settles, Settles-bind, Settles-Returns, Settles-ok}
use apfs_fastindex.BlockIo.{Reader, read_block}
use apfs_fastindex.BlockIo.Reading.{IsReader, read_block-IsBlock}
use apfs_fastindex.Omap.{OmapResolver, OmapValue, open_omap, lookup}
use apfs_fastindex.Omap.Search.{Returns-lookup}
use apfs_fastindex.Omap.Summarize.{summarize}
use apfs_fastindex.Omap.Summarize.Totals.{summarize-IsTotal}
use apfs_fastindex.Volume.{VolumeSummary, VolumeSupportStatus, decode_volume_summary}
use apfs_fastindex.Volume.Support.{decode_volume_summary-Settles}
use apfs_fastindex.NativeDump.{
  ValidationGap, VolumeTotals, bare_report, fs_dump_of, extent_dump_of, supported_volume,
  gate_volume, decoded_volume, mapped_volume, volumes_loop,
}
use apfs_fastindex.NativeDump.Reports.{
  IsTotals, push-IsTotals, oids_of, number_supported, number_dumped,
}
use apfs_fastindex.NativeDump.Dumps.{
  Settles-caught, Returns-open_omap, fs_dump_of-RecordsFit, extent_dump_of-ExtentsFit,
}

append-nil : (xs : List ℕ) → xs ++ [] ≡ xs
append-nil [] = refl
append-nil (x ∷ xs) = ap (λ (t : List ℕ). x ∷ t) (append-nil xs)

append_assoc : (xs : List ℕ) (y : ℕ) (zs : List ℕ) → (xs ++ (y ∷ [])) ++ zs ≡ xs ++ (y ∷ zs)
append_assoc [] y zs = refl
append_assoc (x ∷ xs) y zs = ap (λ (t : List ℕ). x ∷ t) (append_assoc xs y zs)

module _ (from_utf8 : List ℕ → Option (List ℕ)) (from_utf8_lossy : List ℕ → List ℕ)
    (reader : Reader) (r : IsReader reader) (block_size xid : ℕ)
    (container_omap : OmapResolver) where
  supported_volume-IsTotals :
      (index volume_oid : ℕ) (mapping : OmapValue) (summary : VolumeSummary) (oids block : List ℕ)
      (totals : VolumeTotals)
      → lookup container_omap reader block_size volume_oid xid ≡ ok (some mapping)
      → read_block reader mapping.paddr block_size ≡ ok block
      → decode_volume_summary from_utf8_lossy block mapping.paddr volume_oid xid ≡ ok summary
      → summary.support_status ≡ VolumeSupportStatus.supported
      → IsTotals from_utf8 from_utf8_lossy reader block_size xid container_omap oids totals
      → Settles
          (IsTotals from_utf8 from_utf8_lossy reader block_size xid container_omap
            (oids ++ (volume_oid ∷ [])))
          Unit
          (supported_volume from_utf8 from_utf8_lossy reader block_size xid index volume_oid mapping
            summary totals)
  unfolding supported_volume
  supported_volume-IsTotals index volume_oid mapping summary oids block totals found read decoded
        passed t =
      Settles-bind _ _ (open_omap reader block_size summary.omap_oid) _
        (Returns-open_omap reader block_size summary.omap_oid r) (λ e p. tt)
        (λ volume_omap opened.
          let total = summarize-IsTotal volume_omap reader block_size xid 8 r in
          Settles-bind _ _ (summarize volume_omap reader block_size xid 8) _
            (Settles-Returns _ _ _ total) (λ e p. tt)
            (λ volume_omap_summary summarized.
              Settles-bind _ _
                (lookup volume_omap reader block_size summary.root_tree_virtual_oid xid) _
                (Returns-lookup volume_omap reader block_size summary.root_tree_virtual_oid xid r)
                (λ e p. tt)
                (λ root_mapping root_found.
                  Settles-bind _ _
                    (lookup volume_omap reader block_size summary.extentref_tree_oid xid) _
                    (Returns-lookup volume_omap reader block_size summary.extentref_tree_oid xid r)
                    (λ e p. tt)
                    (λ extent_mapping extents_found.
                      let records =
                        fs_dump_of-RecordsFit from_utf8 from_utf8_lossy reader r block_size xid
                          index volume_oid volume_omap root_mapping in
                      Settles-bind _ _
                        (fs_dump_of from_utf8 from_utf8_lossy reader block_size xid index volume_oid
                          volume_omap root_mapping)
                        _ (Settles-Returns _ _ _ records) (λ e p. tt)
                        (λ fs p.
                          let extents =
                            extent_dump_of-ExtentsFit from_utf8 from_utf8_lossy reader r block_size
                              xid volume_oid summary volume_omap extent_mapping in
                          Settles-bind _ _
                            (extent_dump_of from_utf8 from_utf8_lossy reader block_size xid
                              volume_oid summary volume_omap extent_mapping)
                            _ (Settles-Returns _ _ _ extents) (λ e p. tt)
                            (λ extent q.
                              push-IsTotals from_utf8 from_utf8_lossy reader block_size xid
                                container_omap _ oids totals _ refl refl refl
                                (
                                  found,
                                  record {
                                    summary = summary;
                                    same_summary = refl;
                                    decoded = record {
                                      block = block;
                                      read = read;
                                      decoded = decoded;
                                    };
                                    passed = passed;
                                    volume_map = volume_omap;
                                    mapped = record {
                                      opened = opened;
                                      map_summary = volume_omap_summary;
                                      summarized = summarized;
                                      same_map_summary = refl;
                                      root_found = root_found;
                                      extents_found = extents_found;
                                    };
                                    records = Settles-ok _ _ _ p records;
                                    extents = Settles-ok _ _ _ q extents;
                                  },
                                )
                                t))))))

  gate_volume-IsTotals :
      (index volume_oid : ℕ) (mapping : OmapValue) (summary : VolumeSummary)
      (status : VolumeSupportStatus) (oids block : List ℕ) (totals : VolumeTotals)
      → lookup container_omap reader block_size volume_oid xid ≡ ok (some mapping)
      → read_block reader mapping.paddr block_size ≡ ok block
      → decode_volume_summary from_utf8_lossy block mapping.paddr volume_oid xid ≡ ok summary
      → summary.support_status ≡ status
      → IsTotals from_utf8 from_utf8_lossy reader block_size xid container_omap oids totals
      → Settles
          (IsTotals from_utf8 from_utf8_lossy reader block_size xid container_omap
            (oids ++ (volume_oid ∷ [])))
          Unit
          (gate_volume from_utf8 from_utf8_lossy reader block_size xid index volume_oid mapping
            summary status totals)
  unfolding gate_volume bare_report
  gate_volume-IsTotals index volume_oid mapping summary (VolumeSupportStatus.unsupported reason)
        oids block totals found read decoded same t =
      push-IsTotals from_utf8 from_utf8_lossy reader block_size xid container_omap _ oids totals _
        refl refl refl (found, (refl, refl)) t
  gate_volume-IsTotals index volume_oid mapping summary VolumeSupportStatus.supported oids block
        totals found read decoded same t =
      supported_volume-IsTotals index volume_oid mapping summary oids block totals found read
        decoded same t

  mapped_volume-IsTotals :
      (index volume_oid : ℕ) (mapping : Option OmapValue) (oids : List ℕ) (totals : VolumeTotals)
      → lookup container_omap reader block_size volume_oid xid ≡ ok mapping
      → IsTotals from_utf8 from_utf8_lossy reader block_size xid container_omap oids totals
      → Settles
          (IsTotals from_utf8 from_utf8_lossy reader block_size xid container_omap
            (oids ++ (volume_oid ∷ [])))
          Unit
          (mapped_volume from_utf8 from_utf8_lossy reader block_size xid index volume_oid mapping
            totals)
  unfolding mapped_volume decoded_volume bare_report
  mapped_volume-IsTotals index volume_oid none oids totals found t =
      push-IsTotals from_utf8 from_utf8_lossy reader block_size xid container_omap _ oids totals _
        refl refl refl (found, (refl, refl)) t
  mapped_volume-IsTotals index volume_oid (some mapping) oids totals found t =
      let (returns, facts) = read_block-IsBlock reader mapping.paddr block_size r in
      Settles-bind _ _ (read_block reader mapping.paddr block_size) _ returns (λ e p. tt)
        (λ block read.
          let ((full, bytes), low, high) = facts block read in
          let decode =
            decode_volume_summary-Settles from_utf8_lossy block mapping.paddr volume_oid xid
              (omega (arith, full, low)) in
          Settles-caught _
            (decode_volume_summary from_utf8_lossy block mapping.paddr volume_oid xid) _
            (Settles-Returns _ _ _ decode)
            (λ summary decoded.
              gate_volume-IsTotals index volume_oid mapping summary summary.support_status oids
                block totals found read decoded refl t)
            (λ e p.
              push-IsTotals from_utf8 from_utf8_lossy reader block_size xid container_omap _ oids
                totals _ refl refl refl (found, (refl, refl)) t))

  volumes_loop-IsTotals :
      (index : ℕ) (before volume_oids : List ℕ) (totals : VolumeTotals)
      → IsTotals from_utf8 from_utf8_lossy reader block_size xid container_omap before totals
      → Settles
          (IsTotals from_utf8 from_utf8_lossy reader block_size xid container_omap
            (before ++ volume_oids))
          Unit
          (volumes_loop from_utf8 from_utf8_lossy reader block_size xid container_omap index
            volume_oids totals)
  unfolding volumes_loop
  volumes_loop-IsTotals index before [] totals t =
      subst
        (λ oids.
          IsTotals from_utf8 from_utf8_lossy reader block_size xid container_omap oids totals)
        (sym (append-nil before)) t
  volumes_loop-IsTotals index before (oid ∷ volume_oids) totals t =
      Settles-bind _ _ (lookup container_omap reader block_size oid xid) _
        (Returns-lookup container_omap reader block_size oid xid r) (λ e p. tt)
        (λ mapping found.
          let one = mapped_volume-IsTotals index oid mapping before totals found t in
          Settles-bind _ _
            (mapped_volume from_utf8 from_utf8_lossy reader block_size xid index oid mapping totals)
            _ (Settles-Returns _ _ _ one) (λ e p. tt)
            (λ next p.
              subst
                (λ oids.
                  Settles
                    (IsTotals from_utf8 from_utf8_lossy reader block_size xid container_omap oids)
                    Unit
                    (volumes_loop from_utf8 from_utf8_lossy reader block_size xid container_omap
                      (index + 1) volume_oids next))
                (append_assoc before oid volume_oids)
                (volumes_loop-IsTotals (index + 1) (before ++ (oid ∷ [])) volume_oids next
                  (Settles-ok _ _ _ p one))))

-- The volumes of a container, from no report on.
pub dump_volumes-IsTotals :
    (from_utf8 : List ℕ → Option (List ℕ)) (from_utf8_lossy : List ℕ → List ℕ) (reader : Reader)
    (block_size xid : ℕ) (container_omap : OmapResolver) (volume_oids : List ℕ)
    (gaps : List ValidationGap)
    → IsReader reader
    → Settles
        (IsTotals from_utf8 from_utf8_lossy reader block_size xid container_omap volume_oids)
        Unit
        (volumes_loop from_utf8 from_utf8_lossy reader block_size xid container_omap 0 volume_oids
          (record {
            volume_reports = [];
            validation_gaps = gaps;
            fs_records_dumped = 0;
            volume_supported_count = 0;
          }))
unfolding oids_of number_supported number_dumped
dump_volumes-IsTotals from_utf8 from_utf8_lossy reader block_size xid container_omap volume_oids
      gaps r =
    volumes_loop-IsTotals from_utf8 from_utf8_lossy reader r block_size xid container_omap 0 []
      volume_oids _
      (record { in_order = refl; reports = tt; supported_counted = refl; dumped_counted = refl })
