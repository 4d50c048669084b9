-- ===== src/RecordBody/Values.antt =====
-- The values of records: `decode_value` and the decoder of each family.
pub mod Fits
pub mod Fields
pub mod Bodies
pub mod Xattr
use apfs_fastindex.Base.{
  ℕ, ◌+◌, ◌/◌, ◌%◌, ◌^◌, Bool, true, false, not, ◌&&◌, ◌||◌, Option, none, some, List, [], ◌∷◌,
  ◌++◌, length, take, drop, ltb, leb, ◌==◌, if◌then◌else◌, bit_and,
}
use apfs_fastindex.Base.Int.{is_negative, i32_of_word}
use apfs_fastindex.Outcome.{
  Outcome, ok, err, panic, hang, ◌>>=◌, ◌>>◌, reject_if, inode_too_short, drec_too_short,
  unknown_entry_type, xattr_too_short, unknown_xattr_flags, xattr_both_or_neither,
  xattr_length_mismatch, xattr_stream_too_short, sibling_link_too_short, sibling_name_misfit,
  sibling_map_too_short, file_extent_too_short,
}
use apfs_fastindex.BlockIo.{slice, le_u16, le_u32, le_u64}
use apfs_fastindex.Object.{has_bit}
use apfs_fastindex.RecordBody.{
  FsRecordValue, InodeBody, DirRecBody, XattrBody, SiblingLinkBody, FileExtentBody, DstreamFields,
  XfieldInterpreted, XfieldEntry, RecordNote, inode_padding, drec_padding, decode_name, to_hex,
  parse_dstream, strip_trailing_nul, dstream_size, fs_object_id_mask, fs_record_type_shift,
  raw_type_inode, raw_type_xattr, raw_type_sibling_link, raw_type_dstream_id, raw_type_dir_rec,
  raw_type_sibling_map, raw_type_file_extent,
}
use apfs_fastindex.RecordBody.Xfields.{
  XfieldContext, XfieldResult, decode_xfields, ino_ext_type_name, ino_ext_type_dstream,
  ino_ext_type_sparse_bytes, drec_ext_type_sibling_id,
}

abbrev pub inode_fixed_size : ℕ
inode_fixed_size = 0x5c

abbrev pub drec_prefix_size : ℕ
drec_prefix_size = 18

abbrev pub xattr_value_header_size : ℕ
xattr_value_header_size = 4

abbrev pub sibling_link_fixed_prefix : ℕ
sibling_link_fixed_prefix = 10

abbrev pub sibling_map_value_size : ℕ
sibling_map_value_size = 8

abbrev pub j_xattr_dstream_size : ℕ
j_xattr_dstream_size = 48

abbrev pub file_extent_value_min : ℕ
file_extent_value_min = 24

abbrev pub inode_has_uncompressed_size : ℕ
inode_has_uncompressed_size = 0x0004_0000

abbrev pub drec_type_mask : ℕ
drec_type_mask = 0xf

abbrev pub xattr_data_stream : ℕ
xattr_data_stream = 0x1

abbrev pub xattr_data_embedded : ℕ
xattr_data_embedded = 0x2

-- `!XATTR_KNOWN_FLAG_BITS` on 16 bits
abbrev pub xattr_unknown_bits : ℕ
xattr_unknown_bits = 0xfff8

-- The eight `DT_*` values.
unfoldable pub is_known_drec_entry_type : ℕ → Bool
is_known_drec_entry_type value =
    value == 1
    || value == 2
    || value == 4
    || value == 6
    || value == 8
    || value == 10
    || value == 12
    || value == 14

-- The variables that the loop of `decode_inode` over the fields sets.
pub record InodeXfields : Type 0 where
  pub found_dstream : Option DstreamFields
  pub found_sparse_bytes : Option ℕ
  pub found_name : Option (List ℕ)

-- The match in that loop.
unfoldable pub inode_field : ℕ → Option XfieldInterpreted → InodeXfields → InodeXfields
inode_field x_type none found = found
inode_field x_type (some (XfieldInterpreted.dstream value)) found =
    if x_type == ino_ext_type_dstream
    then record {
      found_dstream = some value;
      found_sparse_bytes = found.found_sparse_bytes;
      found_name = found.found_name;
    }
    else found
inode_field x_type (some (XfieldInterpreted.u64 value)) found =
    if x_type == ino_ext_type_sparse_bytes
    then record {
      found_dstream = found.found_dstream;
      found_sparse_bytes = some value;
      found_name = found.found_name;
    }
    else found
inode_field x_type (some (XfieldInterpreted.utf8 value)) found =
    if x_type == ino_ext_type_name
    then record {
      found_dstream = found.found_dstream;
      found_sparse_bytes = found.found_sparse_bytes;
      found_name = some value;
    }
    else found

unfoldable pub inode_fields : List XfieldEntry → InodeXfields → InodeXfields
inode_fields [] found = found
inode_fields (field ∷ fields) found =
    inode_fields fields (inode_field field.x_type field.interpreted found)

abbrev pub no_inode_xfields : InodeXfields
no_inode_xfields = record { found_dstream = none; found_sparse_bytes = none; found_name = none }

-- The body of the loop of `decode_drec` over the fields.
unfoldable pub drec_field : ℕ → Option XfieldInterpreted → Option ℕ → Option ℕ
drec_field x_type none sibling_id = sibling_id
drec_field x_type (some (XfieldInterpreted.u64 value)) sibling_id =
    if x_type == drec_ext_type_sibling_id then some value else sibling_id
drec_field x_type (some (XfieldInterpreted.utf8 value)) sibling_id = sibling_id
drec_field x_type (some (XfieldInterpreted.dstream value)) sibling_id = sibling_id

unfoldable pub drec_fields : List XfieldEntry → Option ℕ → Option ℕ
drec_fields [] sibling_id = sibling_id
drec_fields (field ∷ fields) sibling_id =
    drec_fields fields (drec_field field.x_type field.interpreted sibling_id)

unfoldable pub decode_file_extent : List ℕ → Outcome FileExtentBody
decode_file_extent value = do
  reject_if (ltb (length value) file_extent_value_min) file_extent_too_short
  len_and_flags ← le_u64 value 0
  phys_block_num ← le_u64 value 8
  crypto_id ← le_u64 value 16
  ok (record {
    length_bytes = bit_and len_and_flags fs_object_id_mask;
    flags = bit_and (len_and_flags / 2 ^ fs_record_type_shift % 256) 0xf;
    phys_block_num = phys_block_num;
    crypto_id = crypto_id;
  })

module _ (from_utf8 : List ℕ → Option (List ℕ)) where
  -- A decoder that may push a note returns its notes beside its body.
  unfoldable pub decode_inode : List ℕ → Outcome (InodeBody × List RecordNote)
  decode_inode value = do
    reject_if (ltb (length value) inode_fixed_size) inode_too_short
    internal_flags ← le_u64 value 0x30
    xfield_blob ← slice value inode_fixed_size (length value)
    result ← decode_xfields from_utf8 XfieldContext.inode xfield_blob
    let found = inode_fields result.fields no_inode_xfields
    parent_id ← le_u64 value 0x00
    private_id ← le_u64 value 0x08
    nchildren_or_nlink ← le_u32 value 0x38
    bsd_flags ← le_u32 value 0x44
    owner ← le_u32 value 0x48
    group ← le_u32 value 0x4c
    mode ← le_u16 value 0x50
    uncompressed_size ← le_u64 value 0x54
    ok (
      record {
        parent_id = parent_id;
        private_id = private_id;
        internal_flags = internal_flags;
        nchildren_or_nlink = i32_of_word nchildren_or_nlink;
        bsd_flags = bsd_flags;
        owner = owner;
        group = group;
        mode = mode;
        uncompressed_size = uncompressed_size;
        has_uncompressed_size = has_bit internal_flags inode_has_uncompressed_size;
        xfields = result.fields;
        xfield_used_data = result.xf_used_data;
        xfield_padded_total = result.padded_total;
        xfield_unused_trailing_bytes = result.unused_trailing_bytes;
        dstream = found.found_dstream;
        sparse_bytes = found.found_sparse_bytes;
        inode_name = found.found_name;
      },
      if is_negative result.unused_trailing_bytes
          then inode_padding (length xfield_blob) ∷ []
          else [],
    )

  unfoldable pub decode_drec : List ℕ → Outcome (DirRecBody × List RecordNote)
  decode_drec value = do
    reject_if (ltb (length value) drec_prefix_size) drec_too_short
    flags ← le_u16 value 0x10
    let entry_type = bit_and flags drec_type_mask
    reject_if (not (is_known_drec_entry_type entry_type)) unknown_entry_type
    xfield_blob ← slice value drec_prefix_size (length value)
    result ← decode_xfields from_utf8 XfieldContext.drec xfield_blob
    file_id ← le_u64 value 0
    date_added ← le_u64 value 8
    ok (
      record {
        file_id = file_id;
        date_added = date_added;
        flags = flags;
        entry_type = entry_type;
        sibling_id = drec_fields result.fields none;
        xfields = result.fields;
        xfield_used_data = result.xf_used_data;
        xfield_padded_total = result.padded_total;
        xfield_unused_trailing_bytes = result.unused_trailing_bytes;
      },
      if is_negative result.unused_trailing_bytes
          then drec_padding (length xfield_blob) ∷ []
          else [],
    )

  unfoldable pub decode_xattr : List ℕ → Outcome XattrBody
  decode_xattr value = do
    reject_if (ltb (length value) xattr_value_header_size) xattr_too_short
    flags ← le_u16 value 0
    xdata_len ← le_u16 value 2
    reject_if (has_bit flags xattr_unknown_bits) unknown_xattr_flags
    let embedded = has_bit flags xattr_data_embedded
    let stream = has_bit flags xattr_data_stream
    reject_if (embedded && stream || not embedded && not stream) xattr_both_or_neither
    payload ← slice value xattr_value_header_size (length value)
    reject_if (not (length payload == xdata_len)) xattr_length_mismatch
    if embedded
        then ok (record {
          flags = flags;
          xdata_len = xdata_len;
          embedded = embedded;
          stream = stream;
          payload_hex = to_hex payload;
          payload_utf8 = from_utf8 (strip_trailing_nul payload);
          stream_xattr_obj_id = none;
          stream_dstream = none;
        })
        else (do
          reject_if (ltb (length payload) j_xattr_dstream_size) xattr_stream_too_short
          obj_id ← le_u64 payload 0
          stream_bytes ← slice payload 8 (8 + dstream_size)
          fields ← parse_dstream stream_bytes
          ok (record {
            flags = flags;
            xdata_len = xdata_len;
            embedded = embedded;
            stream = stream;
            payload_hex = to_hex payload;
            payload_utf8 = none;
            stream_xattr_obj_id = some obj_id;
            stream_dstream = some fields;
          }))

  unfoldable pub decode_sibling_link : List ℕ → Outcome SiblingLinkBody
  decode_sibling_link value = do
    reject_if (ltb (length value) sibling_link_fixed_prefix) sibling_link_too_short
    parent_id ← le_u64 value 0
    name_len ← le_u16 value 8
    reject_if (name_len == 0 || ltb (length value) (sibling_link_fixed_prefix + name_len))
        sibling_name_misfit
    name_bytes ← slice value sibling_link_fixed_prefix (sibling_link_fixed_prefix + name_len)
    name ← decode_name from_utf8 name_bytes
    ok (record {
      parent_id = parent_id;
      name_len = name_len;
      name = name;
      name_bytes_hex = to_hex name_bytes;
    })

  unfoldable pub decode_value : ℕ → List ℕ → Outcome (FsRecordValue × List RecordNote)
  decode_value raw_type value =
      if raw_type == raw_type_inode
      then (do (body, notes) ← decode_inode value; ok (FsRecordValue.inode body, notes))
      else if raw_type == raw_type_xattr
      then (do body ← decode_xattr value; ok (FsRecordValue.xattr body, []))
      else if raw_type == raw_type_sibling_link
      then (do body ← decode_sibling_link value; ok (FsRecordValue.sibling_link body, []))
      else if raw_type == raw_type_dstream_id
      then (if leb 4 (length value)
          then (do refcnt ← le_u32 value 0; ok (FsRecordValue.dstream_id (some refcnt), []))
          else ok (FsRecordValue.dstream_id none, []))
      else if raw_type == raw_type_dir_rec
      then (do (body, notes) ← decode_drec value; ok (FsRecordValue.dir_rec body, notes))
      else if raw_type == raw_type_sibling_map
      then (do
        reject_if (ltb (length value) sibling_map_value_size) sibling_map_too_short
        file_id ← le_u64 value 0
        ok (FsRecordValue.sibling_map (some file_id), []))
      else if raw_type == raw_type_file_extent
      then (do body ← decode_file_extent value; ok (FsRecordValue.file_extent body, []))
      else ok (FsRecordValue.unsupported, [])
