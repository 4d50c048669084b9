-- ===== src/Examples/TreeRuns.antt =====
-- The walks and the record decoders, run on the examples.
use apfs_fastindex.Base.{ℕ, ◌≡◌, refl, List, [], ◌∷◌}
use apfs_fastindex.Outcome.{ok, ◌>>=◌}
use apfs_fastindex.RecordBody as R
use apfs_fastindex.RecordBody.{FsRecordRow, FsRecordKey, FsRecordValue, KeyForm}
use apfs_fastindex.RecordBody.Xfields as X
use apfs_fastindex.RecordBody.Keys as K
use apfs_fastindex.RecordBody.Values as V
use apfs_fastindex.RecordBody.Row.{decode_fs_record}
use apfs_fastindex.FsRecords as F
use apfs_fastindex.FsRecords.{dump_fs_records}
use apfs_fastindex.ExtentRef as E
use apfs_fastindex.ExtentRef.{ExtentRefStorage, PhysExtRecord, dump_extent_refs}
use apfs_fastindex.TreeWalk as T
use apfs_fastindex.Btree as N
use apfs_fastindex.Omap as M
use apfs_fastindex.BlockIo as B
use apfs_fastindex.Object as O
use apfs_fastindex.Container as C
use apfs_fastindex.Examples.Records.{ascii}
use apfs_fastindex.Examples.Trees.{fs_source, extent_source, no_map}

-- The name of an entry, the size of an inode.
abbrev key_name : FsRecordKey → List ℕ
key_name FsRecordKey.plain = []
key_name (FsRecordKey.named form len name hex) = name
key_name (FsRecordKey.sibling_link id) = []
key_name (FsRecordKey.file_extent address) = []

abbrev row_sizes : FsRecordValue → List ℕ
row_sizes (FsRecordValue.inode body) = body.parent_id ∷ body.xfield_padded_total ∷ body.mode ∷ []
row_sizes (FsRecordValue.dir_rec body) = body.file_id ∷ body.entry_type ∷ []
row_sizes _ = []

abbrev outlines : List FsRecordRow → List (ℕ × List ℕ × List ℕ)
outlines [] = []
outlines (row ∷ rows) = (row.object_id, key_name row.key, row_sizes row.value) ∷ outlines rows

-- The entry "a" of directory 2 leads to the regular file 5, whose inode has 48 bytes of fields.
dump_run :
    (dump_fs_records ascii fs_source 4096 0 0x402 0 5 no_map >>= λ dump. ok (outlines dump.records))
    ≡ ok ((2, 97 ∷ [], 5 ∷ 8 ∷ []) ∷ (5, [], 2 ∷ 48 ∷ 33188 ∷ []) ∷ [])
unfolding dump_fs_records F.walk_fs_node F.add_record F.count_family F.insert_id F.family_rows
    F.is_known_record_family F.family_in_v1_namespace_scope decode_fs_record R.record_family_name
    R.family_at R.to_hex R.ends_in_nul R.strip_trailing_nul R.decode_name R.utf8_or_error
    R.parse_dstream X.round_up_8 X.byte_at X.required_xfield_size X.check_size
    X.validate_required_xfield_size X.is_u64_type X.dstream_or_none X.utf8_or_none
    X.interpret_xfield X.xfield_loop X.decode_xfields K.decode_file_extent_key
    K.decode_sibling_link_key K.named_key K.unhashed_drec_key K.decode_drec_key K.decode_xattr_key
    K.decode_key V.is_known_drec_entry_type V.inode_field V.inode_fields V.drec_field V.drec_fields
    V.decode_file_extent V.decode_inode V.decode_drec V.decode_xattr V.decode_sibling_link
    V.decode_value T.entries_loop T.child_oids T.mapped_paddr T.resolve_child T.descend N.parse
    N.entry N.fixed_entry N.variable_entry N.key_bytes N.value_bytes N.read_btree_node M.contains
    C.hex_digit O.validate_object_block O.check_header O.check_xid O.check_storage O.from_block
    O.is_physical O.is_ephemeral O.is_encrypted O.is_noheader B.checksum_matches B.apfs_fletcher64
    B.slice B.from_le_bytes B.add_batches B.add_batch B.chunk_words B.finish_checksum B.le_u16
    B.le_u32 B.le_u64 B.read_block B.read_loop
dump_run = refl

abbrev extents : List PhysExtRecord → List (ℕ × ℕ)
extents [] = []
extents (extent ∷ rest) = (extent.paddr_first, extent.length_blocks) ∷ extents rest

-- Three blocks at block 100.
extent_run :
    (dump_extent_refs extent_source 4096 0 ExtentRefStorage.physical 5 no_map >>= λ dump.
    ok (extents dump.records))
    ≡ ok ((100, 3) ∷ [])
unfolding dump_extent_refs E.walk_extent_node E.add_extent E.extent_child E.expected_storage
    T.entries_loop T.child_oids T.mapped_paddr T.resolve_child T.descend N.parse N.entry
    N.fixed_entry N.variable_entry N.key_bytes N.value_bytes N.read_btree_node M.contains
    O.validate_object_block O.check_header O.check_xid O.check_storage O.from_block O.is_physical
    O.is_ephemeral O.is_encrypted O.is_noheader B.checksum_matches B.apfs_fletcher64 B.slice
    B.from_le_bytes B.add_batches B.add_batch B.chunk_words B.finish_checksum B.le_u16 B.le_u32
    B.le_u64 B.read_block B.read_loop
extent_run = refl
