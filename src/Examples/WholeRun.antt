-- ===== src/Examples/WholeRun.antt =====
-- The dump of a whole container, run.
use apfs_fastindex.Base.{ℕ, ◌≡◌, refl, List, [], ◌∷◌, Option, none, some, length}
use apfs_fastindex.Outcome.{Outcome, ok, ◌>>=◌}
use apfs_fastindex.RecordBody as R
use apfs_fastindex.RecordBody.Xfields as X
use apfs_fastindex.RecordBody.Keys as K
use apfs_fastindex.RecordBody.Values as V
use apfs_fastindex.FsRecords as F
use apfs_fastindex.ExtentRef as E
use apfs_fastindex.TreeWalk as T
use apfs_fastindex.Btree as N
use apfs_fastindex.Omap as M
use apfs_fastindex.Omap.Summarize as S
use apfs_fastindex.BlockIo as B
use apfs_fastindex.Object as O
use apfs_fastindex.Container as C
use apfs_fastindex.NativeDump as D
use apfs_fastindex.Volume as L
use apfs_fastindex.FsRoot as H
use apfs_fastindex.RecordBody.Row as W
use apfs_fastindex.Outcome as A
use apfs_fastindex.Base.Int as I
use apfs_fastindex.NativeDump.{VolumeReport, VolumeStatus, SelectedCheckpoint, attempt_native_dump}
use apfs_fastindex.Examples.Records.{ascii}
use apfs_fastindex.Examples.Whole.{spread, container_source, container_report, container_candidate}

abbrev number_of_records : VolumeReport → ℕ × ℕ
number_of_records report = (records report.fs_record_dump, extents report.extent_ref_dump)
  where
    records : Option F.FsRecordDump → ℕ
    records none = 0
    records (some dump) = length dump.records

    extents : Option E.ExtentRefDump → ℕ
    extents none = 0
    extents (some dump) = length dump.records

abbrev outlines : List VolumeReport → List (ℕ × VolumeStatus × (ℕ × ℕ))
outlines [] = []
outlines (report ∷ reports) =
    (report.volume_oid, report.status, number_of_records report) ∷ outlines reports

-- Volume 0x402 is supported, with two records and one extent.
dump_run :
    (attempt_native_dump ascii
        (λ bytes. bytes)
        container_source
        container_report
        container_candidate
      >>= λ result. ok (outlines result.0.volumes))
    ≡ ok ((0x402, VolumeStatus.supported, (2, 1)) ∷ [])
unfolding R.family_at R.record_family_name R.to_hex R.ends_in_nul R.strip_trailing_nul
    R.utf8_or_error R.decode_name R.parse_dstream X.round_up_8 X.byte_at X.required_xfield_size
    X.check_size X.validate_required_xfield_size X.is_u64_type X.dstream_or_none X.utf8_or_none
    X.interpret_xfield X.xfield_loop X.decode_xfields K.decode_file_extent_key
    K.decode_sibling_link_key K.named_key K.unhashed_drec_key K.decode_drec_key K.decode_xattr_key
    K.decode_key V.is_known_drec_entry_type V.inode_field V.inode_fields V.drec_field V.drec_fields
    V.decode_file_extent V.decode_inode V.decode_drec V.decode_xattr V.decode_sibling_link
    V.decode_value F.is_known_record_family F.family_in_v1_namespace_scope F.count_family
    F.insert_id F.family_rows F.add_record F.walk_fs_node F.dump_fs_records E.from_type_raw
    E.expected_storage E.add_extent E.extent_child E.walk_extent_node E.dump_extent_refs
    T.entries_loop T.child_oids T.mapped_paddr T.resolve_child T.descend N.parse N.fixed_entry
    N.variable_entry N.entry N.key_bytes N.value_bytes N.read_btree_node
    M.value_flag_hard_stop_reason M.phys_flag_hard_stop_reason M.open_omap M.whole_u64
    M.internal_loop M.leaf_loop M.select_internal_lower_bound M.conclude_leaf
    M.select_leaf_lower_bound M.contains M.lookup_loop M.lookup S.classify_flags S.add_mapping
    S.mappings_loop S.children_loop S.walk_node S.summarize B.slice B.from_le_bytes B.le_u16
    B.le_u32 B.le_u64 B.chunk_words B.add_batch B.add_batches B.finish_checksum B.apfs_fletcher64
    B.checksum_matches B.read_loop B.read_block O.from_block O.is_physical O.is_ephemeral
    O.is_encrypted O.is_noheader O.check_storage O.check_xid O.check_header O.validate_object_block
    O.flags_summary C.hex_digit C.hex_bytes C.format_uuid C.volume_oid_loop
    C.decode_container_summary C.mapping_loop C.trailing_step C.map_step C.ring_step C.ring_loop
    C.walk_checkpoint_maps D.bare_report D.extent_root D.extent_dump_caught D.fs_dump_checked
    D.fs_dump_of D.extent_dump_at D.extent_dump_stored D.extent_dump_of D.supported_volume
    D.gate_volume D.decoded_volume D.mapped_volume D.volumes_loop D.reject_features
    D.attempt_native_dump L.or_unknown L.decode_role L.before_zero L.support_status_of
    L.decode_volname L.decode_volume_summary H.validate_fs_root_header W.decode_fs_record A.caught
    I.i32_of_word I.i32_sub spread
dump_run = refl
